-- ===== src/Store/Table.antt =====
-- A table of the database as the list of its rows in insertion order, and the statements that the
-- store writes: an UPDATE with its WHERE clause and the rows that it affects, a SELECT, and the first
-- row of an ORDER BY.
pub mod Laws
use Prim.Native.Nat.{Ordering}
use Prim.Native.String.{compare}
use restorelab.Prelude.{
  ℕ, zero, suc, ◌≡◌, ◌≢◌, refl, sym, ◌∙◌, Bool, true, false, not, String, Option, none, some, List,
  [], ◌∷◌, ◌++◌, All, ltb, str_eq, Bool-cases, inl, inr, if◌then◌else◌,
}

module _ {ℓ} {A : Type ℓ} where
  unfoldable pub update_where : (A → Bool) → (A → A) → List A → List A
  update_where p f [] = []
  update_where p f (x ∷ xs) = (if p x then f x else x) ∷ update_where p f xs

  unfoldable pub count_where : (A → Bool) → List A → ℕ
  count_where p [] = 0
  count_where p (x ∷ xs) = let rest = count_where p xs in if p x then suc rest else rest

  unfoldable pub select_where : (A → Bool) → List A → List A
  select_where p [] = []
  select_where p (x ∷ xs) = let rest = select_where p xs in if p x then x ∷ rest else rest

  unfoldable pub find_where : (A → Bool) → List A → Option A
  find_where p [] = none
  find_where p (x ∷ xs) = let rest = find_where p xs in if p x then some x else rest

  unfoldable pub any_where : (A → Bool) → List A → Bool
  any_where p [] = false
  any_where p (x ∷ xs) = let rest = any_where p xs in if p x then true else rest

  -- `ORDER BY key LIMIT 1`: the first of the rows with the least key.
  abbrev pub least_of : (A → A → Bool) → A → Option A → Option A
  least_of before x none = some x
  least_of before x (some y) = some (if before y x then y else x)

  unfoldable pub least : (A → A → Bool) → List A → Option A
  least before [] = none
  least before (x ∷ xs) = least_of before x (least before xs)

  -- `ORDER BY key`, by insertion.
  unfoldable pub insert_by : (A → A → Bool) → A → List A → List A
  insert_by before x [] = x ∷ []
  insert_by before x (y ∷ ys) =
      let rest = insert_by before x ys in if before y x then y ∷ rest else x ∷ y ∷ ys

  unfoldable pub sort_by : (A → A → Bool) → List A → List A
  unfolding insert_by
  sort_by before [] = []
  sort_by before (x ∷ xs) = insert_by before x (sort_by before xs)

  -- `LIMIT n`
  unfoldable pub limited : ℕ → List A → List A
  limited n [] = []
  limited zero (x ∷ xs) = []
  limited (suc n) (x ∷ xs) = x ∷ limited n xs

-- An optional column in an ORDER BY, where NULL comes first.
abbrev pub earlier : Option ℕ → Option ℕ → Bool
earlier none none = false
earlier none (some b) = true
earlier (some a) none = false
earlier (some a) (some b) = ltb a b

-- The same where the dialect says whether NULL comes first (SQLite) or last (PostgreSQL).
abbrev pub sorts_before : Bool → Option ℕ → Option ℕ → Bool
sorts_before nulls_first none none = false
sorts_before nulls_first none (some b) = nulls_first
sorts_before nulls_first (some a) none = not nulls_first
sorts_before nulls_first (some a) (some b) = ltb a b

-- The order of texts in an ORDER BY.
abbrev pub text_before : String → String → Bool
text_before a b = elim (compare a b) [ Ordering.lt ↦ true | _ ↦ false ]

-- `nullString`
abbrev pub null_string : String → Option String
null_string s = if str_eq s "" then none else some s

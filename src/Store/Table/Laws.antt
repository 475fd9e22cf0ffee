-- ===== src/Store/Table/Laws.antt =====
-- What an UPDATE, a SELECT and the first row of an order keep of a table.
use mathlib.Core.Bool.{false≢true}
use restorelab.Prelude.{
  ℕ, zero, suc, subst, ◌≡◌, refl, Bool, true, false, Option, none, some, List, [], ◌∷◌, ◌++◌, All,
  All-weaken, Bool-cases, arith, inl, inr, if◌then◌else◌,
}
use mathlib.Core.Option.{some-injective}
use restorelab.Store.Table.{
  update_where, count_where, select_where, any_where, least, least_of, limited, sort_by, insert_by,
}

module _ {ℓ κ} {A : Type ℓ} (P : A → Type κ) where
  pub All-update_where :
      (p : A → Bool) (f : A → A) (xs : List A)
      → ((x : A) → p x ≡ true → P x → P (f x))
      → All P xs
      → All P (update_where p f xs)
  unfolding update_where
  All-update_where p f [] step h = h
  All-update_where p f (x ∷ xs) step h = (
    elim (Bool-cases (p x)) [ inl b ↦ rw b (step x b h.0) | inr b ↦ rw b h.0 ],
    All-update_where p f xs step h.1,
  )

  pub All-select_where : (p : A → Bool) (xs : List A) → All P xs → All P (select_where p xs)
  unfolding select_where
  All-select_where p [] h = h
  All-select_where p (x ∷ xs) h =
      let rest = All-select_where p xs h.1 in
      elim (Bool-cases (p x)) [ inl b ↦ rw b (h.0, rest) | inr b ↦ rw b rest ]

  pub All-least :
      (before : A → A → Bool) (xs : List A) (y : A) → All P xs → least before xs ≡ some y → P y
  unfolding least
  All-least before [] y h e = cc
  All-least before (x ∷ xs) y h e = pick (least before xs) e (λ z. All-least before xs z h.1)
    where
      either : {z : A} (b : Bool) → P z → P (if b then z else x)
      either true k = k
      either false k = h.0

      pick : (o : Option A) → least_of before x o ≡ some y → ((z : A) → o ≡ some z → P z) → P y
      pick none q k = subst P (some-injective _ _ q) h.0
      pick (some z) q k = subst P (some-injective _ _ q) (either (before z x) (k z refl))

  pub All-limited : (n : ℕ) (xs : List A) → All P xs → All P (limited n xs)
  unfolding limited
  All-limited n [] h = tt
  All-limited zero (x ∷ xs) h = tt
  All-limited (suc n) (x ∷ xs) h = (h.0, All-limited n xs h.1)

  All-insert_by :
      (before : A → A → Bool) (x : A) (xs : List A) → P x → All P xs → All P (insert_by before x xs)
  unfolding insert_by
  All-insert_by before x [] q h = (q, tt)
  All-insert_by before x (y ∷ ys) q h =
      let rest = All-insert_by before x ys q h.1 in
      elim (Bool-cases (before y x)) [ inl b ↦ rw b (h.0, rest) | inr b ↦ rw b (q, h) ]

  pub All-sort_by : (before : A → A → Bool) (xs : List A) → All P xs → All P (sort_by before xs)
  unfolding sort_by
  All-sort_by before [] h = tt
  All-sort_by before (x ∷ xs) h = All-insert_by before x _ h.0 (All-sort_by before xs h.1)

module _ {ℓ} {A : Type ℓ} where
  pub absent-append :
      (q : A → Bool) (xs ys : List A)
      → any_where q xs ≡ false
      → any_where q ys ≡ false
      → any_where q (xs ++ ys) ≡ false
  unfolding any_where
  absent-append q [] ys h k = k
  absent-append q (x ∷ xs) ys h k = neither (q x) h (λ r. absent-append q xs ys r k)
    where
      neither :
          {r r' : Bool} (b : Bool)
          → (if b then true else r) ≡ false
          → (r ≡ false → r' ≡ false)
          → (if b then true else r') ≡ false
      neither true h f = h
      neither false h f = f h

  pub select_where-holds : (p : A → Bool) (xs : List A) → All (λ x. p x ≡ true) (select_where p xs)
  unfolding select_where
  select_where-holds p [] = tt
  select_where-holds p (x ∷ xs) =
      let rest = select_where-holds p xs in
      elim (Bool-cases (p x)) [ inl b ↦ rw b (b, rest) | inr b ↦ rw b rest ]

  pub any_where-update_where :
      (q p : A → Bool) (f : A → A) (xs : List A)
      → ((x : A) → q (f x) ≡ q x)
      → any_where q (update_where p f xs) ≡ any_where q xs
  unfolding any_where update_where
  any_where-update_where q p f [] same = refl
  any_where-update_where q p f (x ∷ xs) same =
      let rest = any_where-update_where q p f xs same in
      elim (Bool-cases (p x)) [ inl b ↦ rw (b, same x, rest) refl | inr b ↦ rw (b, rest) refl ]

  pub any_where-append :
      (q : A → Bool) (xs ys : List A) → any_where q xs ≡ true → any_where q (xs ++ ys) ≡ true
  unfolding any_where
  any_where-append q [] ys h = cc
  any_where-append q (x ∷ xs) ys h = weaken (q x) h (any_where-append q xs ys)
    where
      weaken :
          {r r' : Bool} (b : Bool)
          → (if b then true else r) ≡ true
          → (r ≡ true → r' ≡ true)
          → (if b then true else r') ≡ true
      weaken true k f = refl
      weaken false k f = f k

  -- Every row that the clause selects is changed, and the others stand.
  pub All-updated {κ} :
      (Q : A → Type κ) (p : A → Bool) (f : A → A) (xs : List A)
      → ((x : A) → p x ≡ true → Q (f x))
      → ((x : A) → p x ≡ false → Q x)
      → All Q (update_where p f xs)
  unfolding update_where
  All-updated Q p f [] hit miss = tt
  All-updated Q p f (x ∷ xs) hit miss = (
    elim (Bool-cases (p x)) [ inl b ↦ rw b (hit x b) | inr b ↦ rw b (miss x b) ],
    All-updated Q p f xs hit miss,
  )

  pub any_where_self :
      (q : A → A → Bool) (xs : List A)
      → ((x : A) → q x x ≡ true)
      → All (λ x. any_where (q x) xs ≡ true) xs
  unfolding any_where
  any_where_self q [] same = tt
  any_where_self q (x ∷ xs) same =
      (rw (same x) refl, All-weaken xs (λ y. later (q y x)) (any_where_self q xs same))
    where
      later : {r : Bool} (b : Bool) → r ≡ true → (if b then true else r) ≡ true
      later true h = refl
      later false h = h

  pub any_where-select_where :
      (q p : A → Bool) (xs : List A)
      → ((x : A) → q x ≡ true → p x ≡ true)
      → any_where q xs ≡ true
      → any_where q (select_where p xs) ≡ true
  unfolding any_where select_where
  any_where-select_where q p [] step h = h
  any_where-select_where q p (x ∷ xs) step h = elim (Bool-cases (q x)) [
    | inl b ↦ rw (step x b, b) refl
    | inr b ↦
        let rest = any_where-select_where q p xs step (behind (q x) b h) in
        elim (Bool-cases (p x)) [ inl c ↦ rw (c, b) rest | inr c ↦ rw c rest ]
  ]
    where
      behind : {r : Bool} (b : Bool) → b ≡ false → (if b then true else r) ≡ true → r ≡ true
      behind true e k = cc
      behind false e k = k

  pub any_where-counted :
      (q : A → Bool) (xs : List A) → count_where q xs ≡ 1 → any_where q xs ≡ true
  unfolding any_where count_where
  any_where-counted q [] h = absurd (omega (arith, h))
  any_where-counted q (x ∷ xs) h = found (q x) h (any_where-counted q xs)
    where
      found :
          {c : ℕ} {r : Bool} (b : Bool)
          → (if b then suc c else c) ≡ 1
          → (c ≡ 1 → r ≡ true)
          → (if b then true else r) ≡ true
      found true k f = refl
      found false k f = f k

  pub any_where-weaken :
      (q p : A → Bool) (xs : List A)
      → ((x : A) → q x ≡ true → p x ≡ true)
      → any_where q xs ≡ true
      → any_where p xs ≡ true
  unfolding any_where
  any_where-weaken q p [] step h = h
  any_where-weaken q p (x ∷ xs) step h =
      either (q x) (p x) (step x) h (any_where-weaken q p xs step)
    where
      either :
          {r r' : Bool} (b c : Bool)
          → (b ≡ true → c ≡ true)
          → (if b then true else r) ≡ true
          → (r ≡ true → r' ≡ true)
          → (if c then true else r') ≡ true
      either b true f h k = refl
      either true false f h k = absurd (false≢true (f refl))
      either false false f h k = k h

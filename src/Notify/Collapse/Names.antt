-- ===== src/Notify/Collapse/Names.antt =====
-- `valuesByName` against its description: the names that one reading alone has.
use mathlib.Core.List.{append_assoc, append-nil}
use restorelab.Prelude.{
  ℕ, ◌≡◌, refl, sym, ap, ◌∙◌, Bool, true, false, inl, inr, String, Option, none, some, List, [],
  ◌∷◌, ◌++◌, Bool-cases, str_eq, eq_iff, if◌then◌else◌,
}
use restorelab.Notify.Collapse.{
  Values, value, has, delete, Seen, note, note_all, note_checks, delete_all, values_by_name,
}

module _ {V : Type 0} where
  -- All readings of a drill, and those of one name.
  unfoldable pub readings : List (ℕ × Values V) → Values V
  readings [] = []
  readings (c ∷ cs) = c.1 ++ readings cs

  unfoldable pub named : String → Values V → List V
  named name [] = []
  named name (e ∷ m) = let rest = named name m in if str_eq e.0 name then e.1 ∷ rest else rest

  abbrev pub only : List V → Option V
  only (v ∷ []) = some v
  only _ = none

  abbrev first : List V → Option V
  first [] = none
  first (v ∷ vs) = some v

  abbrev several : List V → Bool
  several (v ∷ w ∷ vs) = true
  several _ = false

  -- What the loop has made of the readings of a name.
  abbrev Noted : String → List V → Seen V → Type 0
  Noted name vs s = (value name s.out ≡ first vs) × (has name s.ambiguous ≡ several vs)

  again :
      (vs : List V) (v w : V)
      → first vs ≡ some w
      → (first (vs ++ v ∷ []) ≡ some w) × (several (vs ++ v ∷ []) ≡ true)
  again [] v w h = cc
  again (x ∷ []) v w h = (h, refl)
  again (x ∷ y ∷ vs) v w h = (h, refl)

  fresh : (vs : List V) → first vs ≡ none → vs ≡ []
  fresh [] h = refl
  fresh (v ∷ vs) h = cc

  -- A reading of the name.
  Noted-hit :
      (name : String) (vs : List V) (e : String × V) (o : Option V) (s : Seen V)
      → str_eq e.0 name ≡ true
      → value name s.out ≡ o
      → Noted name vs s
      → Noted name (vs ++ e.1 ∷ []) (note e o s)
  unfolding value
  Noted-hit name vs e none s same eq h =
      rw (fresh vs (sym h.0 ∙ eq)) (rw same refl, h.1 ∙ ap several (fresh vs (sym h.0 ∙ eq)))
  Noted-hit name vs e (some w) s same eq h =
      let more = again vs e.1 w (sym h.0 ∙ eq) in (eq ∙ sym more.0, rw same (sym more.1))

  Noted-miss :
      (name : String) (vs : List V) (e : String × V) (o : Option V) (s : Seen V)
      → str_eq e.0 name ≡ false
      → Noted name vs s
      → Noted name vs (note e o s)
  unfolding value
  Noted-miss name vs e none s other h = (rw other h.0, h.1)
  Noted-miss name vs e (some w) s other h = (h.0, rw other h.1)

  Noted-all :
      (name : String) (m : Values V) (vs : List V) (s : Seen V)
      → Noted name vs s
      → Noted name (vs ++ named name m) (note_all m s)
  unfolding note_all named
  Noted-all name [] vs s h = rw (append-nil vs) h
  Noted-all name (e ∷ m) vs s h = elim (Bool-cases (str_eq e.0 name)) [
    | inl same ↦
        rw (same, sym (append_assoc vs (e.1 ∷ []) (named name m)))
          (Noted-all name m (vs ++ e.1 ∷ []) _ (
            Noted-hit name vs e _ s same (ap (λ n. value n s.out) (sym ((eq_iff e.0 name).0 same)))
              h))
    | inr other ↦ rw other (Noted-all name m vs _ (Noted-miss name vs e _ s other h))
  ]

  named-append :
      (name : String) (xs ys : Values V) → named name (xs ++ ys) ≡ named name xs ++ named name ys
  unfolding named
  named-append name [] ys = refl
  named-append name (e ∷ xs) ys = elim (Bool-cases (str_eq e.0 name)) [
    | inl same ↦ rw same (ap (λ vs. e.1 ∷ vs) (named-append name xs ys))
    | inr other ↦ rw other (named-append name xs ys)
  ]

  Noted-checks :
      (name : String) (cs : List (ℕ × Values V)) (vs : List V) (s : Seen V)
      → Noted name vs s
      → Noted name (vs ++ named name (readings cs)) (note_checks cs s)
  unfolding note_checks readings value named
  Noted-checks name [] vs s h = rw (append-nil vs) h
  Noted-checks name (c ∷ cs) vs s h =
      rw
        (
          named-append name c.1 (readings cs),
          sym (append_assoc vs (named name c.1) (named name (readings cs))),
        )
        (Noted-checks name cs _ _ (Noted-all name c.1 vs s h))

  skipped :
      (name n : String) (e : String × V) (m : Values V)
      → str_eq e.0 n ≡ true
      → (if str_eq n name then none else value name m)
        ≡ (if str_eq n name then none else value name (e ∷ m))
  unfolding value
  skipped name n e m same = elim (Bool-cases (str_eq n name)) [
    | inl h ↦ rw h refl
    | inr h ↦ rw (h, ap (λ k. str_eq k name) ((eq_iff e.0 n).0 same) ∙ h) refl
  ]

  kept :
      (name n : String) (e : String × V) (m : Values V)
      → str_eq e.0 n ≡ false
      → value name (delete n m) ≡ (if str_eq n name then none else value name m)
      → value name (e ∷ delete n m) ≡ (if str_eq n name then none else value name (e ∷ m))
  unfolding value
  kept name n e m other h = elim (Bool-cases (str_eq n name)) [
    | inl q ↦
        rw (q, sym (ap (λ k. str_eq e.0 k) ((eq_iff n name).0 q)) ∙ other)
          (h ∙ ap (λ b. if b then none else value name m) q)
    | inr q ↦ rw (q, h ∙ ap (λ b. if b then none else value name m) q) refl
  ]

  value-delete :
      (name n : String) (m : Values V)
      → value name (delete n m) ≡ (if str_eq n name then none else value name m)
  unfolding value delete
  value-delete name n [] = elim (Bool-cases (str_eq n name)) [
    | inl h ↦ rw h refl
    | inr h ↦ rw h refl
  ]
  value-delete name n (e ∷ m) = elim (Bool-cases (str_eq e.0 n)) [
    | inl same ↦ rw same (value-delete name n m ∙ skipped name n e m same)
    | inr other ↦ rw other (kept name n e m other (value-delete name n m))
  ]

  value-delete_all :
      (name : String) (ns : List String) (m : Values V)
      → value name (delete_all ns m) ≡ (if has name ns then none else value name m)
  unfolding delete_all
  value-delete_all name [] m = refl
  value-delete_all name (n ∷ ns) m =
      value-delete_all name ns (delete n m)
      ∙ ap (λ v. if has name ns then none else v) (value-delete name n m)
      ∙ either (str_eq n name) (has name ns)
    where
      either :
          (a b : Bool)
          → (if b then none else if a then none else value name m)
            ≡ (if (if a then true else b) then none else value name m)
      either true true = refl
      either true false = refl
      either false b = refl

  settled :
      (name : String) (vs : List V) (s : Seen V)
      → Noted name vs s
      → (if has name s.ambiguous then none else value name s.out) ≡ only vs
  settled name [] s h = rw (h.1, h.0) refl
  settled name (v ∷ []) s h = rw (h.1, h.0) refl
  settled name (v ∷ w ∷ vs) s h = rw h.1 refl

  -- Of everything that the checks of a drill read, `valuesByName` keeps the names that one reading
  -- alone has, with that reading, in whatever order the checks and their values are met.
  pub values_by_name-only :
      (name : String) (by_check : List (ℕ × Values V))
      → value name (values_by_name by_check) ≡ only (named name (readings by_check))
  unfolding values_by_name value
  values_by_name-only name by_check =
      value-delete_all name _ _ ∙ settled name _ _ (Noted-checks name by_check [] _ (refl, refl))

-- ===== src/Recovery/Protocol/Triple.antt =====
-- Triples over the outcome of an action: one postcondition for its value, one for every other end.
use restorelab.Prelude.{◌≡◌, refl, ◌∙◌, Bool, true, false, String, if◌then◌else◌}
use restorelab.Core.Errors.{Error}
use restorelab.Recovery.Engine.{
  Engine, Session, Outcome, M, ok, err, panic, out_of_fuel, ◌>>=◌, continue, recover, pure,
  on_error,
}
use restorelab.Recovery.Protocol.{Phase, phase}
use restorelab.Recovery.Protocol.Silent.{Calm, Same, Silent}

abbrev pub Ends :
    {e : Engine} {A : Type 0}
    → (A → Session e → Type 0)
    → (Session e → Type 0)
    → Outcome A
    → Session e
    → Type 0
Ends Q E (ok a) s = Q a s
Ends Q E (err x) s = E s
Ends Q E (panic x) s = E s
Ends Q E out_of_fuel s = E s

pub record Triple {e : Engine} {A : Type 0} (P : Session e → Type 0) (m : M e A)
    (Q : A → Session e → Type 0) (E : Session e → Type 0) : Type 0 where
  pub at : (s : Session e) → P s → Ends Q E (m s).0 (m s).1

module _ {e : Engine} {A B : Type 0} where
  Ends-continue :
      {Q : A → Session e → Type 0} {R : B → Session e → Type 0} {E : Session e → Type 0}
      (r : Outcome A) (f : A → M e B) (s : Session e)
      → Ends Q E r s
      → ((a : A) → Triple (Q a) (f a) R E)
      → Ends R E (continue r f s).0 (continue r f s).1
  Ends-continue (ok a) f s h kf = (kf a).at s h
  Ends-continue (err x) f s h kf = h
  Ends-continue (panic x) f s h kf = h
  Ends-continue out_of_fuel f s h kf = h

  pub Triple-bind :
      {P : Session e → Type 0} {Q : A → Session e → Type 0} {R : B → Session e → Type 0}
      {E : Session e → Type 0} {m : M e A} {f : A → M e B}
      → Triple P m Q E
      → ((a : A) → Triple (Q a) (f a) R E)
      → Triple P (m >>= f) R E
  unfolding ◌>>=◌
  Triple-bind {m = m} {f = f} km kf = record {
    at = λ s h. let (r, s') = m s in Ends-continue r f s' (km.at s h) kf;
  }

module _ {e : Engine} {A : Type 0} where
  pub Triple-pure :
      {Q : A → Session e → Type 0} {E : Session e → Type 0} (a : A) → Triple (Q a) (pure a) Q E
  unfolding pure
  Triple-pure a = record { at = λ s h. h }

  Ends-recover :
      {Q : A → Session e → Type 0} {E F : Session e → Type 0} (r : Outcome A) (h : Error → M e A)
      (s : Session e)
      → Ends Q F r s
      → ((x : Error) → Triple F (h x) Q E)
      → ((t : Session e) → F t → E t)
      → Ends Q E (recover r h s).0 (recover r h s).1
  Ends-recover (ok a) h s k kh up = k
  Ends-recover (err x) h s k kh up = (kh x).at s k
  Ends-recover (panic x) h s k kh up = up s k
  Ends-recover out_of_fuel h s k kh up = up s k

  pub Triple-on_error :
      {P : Session e → Type 0} {Q : A → Session e → Type 0} {E F : Session e → Type 0} {m : M e A}
      {h : Error → M e A}
      → Triple P m Q F
      → ((x : Error) → Triple F (h x) Q E)
      → ((t : Session e) → F t → E t)
      → Triple P (on_error m h) Q E
  unfolding on_error
  Triple-on_error {m = m} {h = h} km kh up = record {
    at = λ s p. let (r, s') = m s in Ends-recover r h s' (km.at s p) kh up;
  }

  Ends-weaken :
      {Q R : A → Session e → Type 0} {E F : Session e → Type 0} (r : Outcome A) (s : Session e)
      → Ends Q E r s
      → ((a : A) (t : Session e) → Q a t → R a t)
      → ((t : Session e) → E t → F t)
      → Ends R F r s
  Ends-weaken (ok a) s h q f = q a s h
  Ends-weaken (err x) s h q f = f s h
  Ends-weaken (panic x) s h q f = f s h
  Ends-weaken out_of_fuel s h q f = f s h

  pub Triple-weaken :
      {P P' : Session e → Type 0} {Q R : A → Session e → Type 0} {E F : Session e → Type 0}
      {m : M e A}
      → Triple P m Q E
      → ((t : Session e) → P' t → P t)
      → ((a : A) (t : Session e) → Q a t → R a t)
      → ((t : Session e) → E t → F t)
      → Triple P' m R F
  Triple-weaken {m = m} k p q f = record {
    at = λ s h. let (r, s') = m s in Ends-weaken r s' (k.at s (p s h)) q f;
  }

  pub Triple-if :
      {P : Session e → Type 0} {Q : A → Session e → Type 0} {E : Session e → Type 0} (b : Bool)
      {m n : M e A}
      → (b ≡ true → Triple P m Q E)
      → (b ≡ false → Triple P n Q E)
      → Triple P (if b then m else n) Q E
  Triple-if true km kn = km refl
  Triple-if false km kn = kn refl

-- Where a drill stands: the phase of its trace, the three variables of the cleanup but the node,
-- and the workload that its events name.
pub record At {e : Engine} (ph : Phase) (need : Bool) (temp said : String) (s : Session e)
    : Type 0 where
  pub stands : phase s ≡ ph
  pub needs : s.needs_cleanup ≡ need
  pub temp_is : s.temp_id ≡ temp
  pub said_is : s.run.temp_workload_id ≡ said

pub Same-At :
    {e : Engine} {ph : Phase} {need : Bool} {temp said : String} {s t : Session e}
    → Same s t
    → At ph need temp said s
    → At ph need temp said t
Same-At p h = record {
  stands = p.same_phase ∙ h.stands;
  needs = p.same_need ∙ h.needs;
  temp_is = p.same_temp ∙ h.temp_is;
  said_is = p.same_said ∙ h.said_is;
}

Ends-const :
    {e : Engine} {A : Type 0} (P : Session e → Type 0) (r : Outcome A) (s : Session e)
    → P s
    → Ends (λ _. P) P r s
Ends-const P (ok a) s h = h
Ends-const P (err x) s h = h
Ends-const P (panic x) s h = h
Ends-const P out_of_fuel s h = h

-- A silent action stays where it is.
pub Silent-Triple :
    {e : Engine} {A : Type 0} {m : M e A} {ph : Phase} {need : Bool} {temp said : String}
    → Silent m
    → Calm ph said
    → Triple (At ph need temp said) m (λ _. At ph need temp said) (At ph need temp said)
Silent-Triple {m = m} {ph = ph} {need = need} {temp = temp} {said = said} k c = record {
  at = λ s h.
      let (r, s') = m s in
      Ends-const (At ph need temp said) r s' (Same-At (k.at s (rw (h.stands, h.said_is) c)) h);
}

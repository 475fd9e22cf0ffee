-- ===== src/Recovery/Protocol/Contract.antt =====
-- Triples that tell an error from a panic, for the cleanup.
use restorelab.Core.Errors.{Error}
use restorelab.Recovery.Engine.{
  Engine, Session, Outcome, M, ok, err, panic, out_of_fuel, ◌>>=◌, continue, recover, on_error,
}
use restorelab.Recovery.Protocol.Triple.{Ends, Triple}

abbrev pub Meets :
    {e : Engine} {A : Type 0}
    → (A → Session e → Type 0)
    → (Error → Session e → Type 0)
    → (Session e → Type 0)
    → Outcome A
    → Session e
    → Type 0
Meets Q X H (ok a) s = Q a s
Meets Q X H (err x) s = X x s
Meets Q X H (panic x) s = H s
Meets Q X H out_of_fuel s = H s

pub record Contract {e : Engine} {A : Type 0} (P : Session e → Type 0) (m : M e A)
    (Q : A → Session e → Type 0) (X : Error → Session e → Type 0) (H : Session e → Type 0)
    : Type 0 where
  pub at : (s : Session e) → P s → Meets Q X H (m s).0 (m s).1

module _ {e : Engine} {A B : Type 0} where
  Meets-continue :
      {Q : A → Session e → Type 0} {R : B → Session e → Type 0} {X : Error → Session e → Type 0}
      {H : Session e → Type 0} (r : Outcome A) (f : A → M e B) (s : Session e)
      → Meets Q X H r s
      → ((a : A) → Contract (Q a) (f a) R X H)
      → Meets R X H (continue r f s).0 (continue r f s).1
  Meets-continue (ok a) f s h kf = (kf a).at s h
  Meets-continue (err x) f s h kf = h
  Meets-continue (panic x) f s h kf = h
  Meets-continue out_of_fuel f s h kf = h

  pub Contract-bind :
      {P : Session e → Type 0} {Q : A → Session e → Type 0} {R : B → Session e → Type 0}
      {X : Error → Session e → Type 0} {H : Session e → Type 0} {m : M e A} {f : A → M e B}
      → Contract P m Q X H
      → ((a : A) → Contract (Q a) (f a) R X H)
      → Contract P (m >>= f) R X H
  unfolding ◌>>=◌
  Contract-bind {m = m} {f = f} km kf = record {
    at = λ s h. let (r, s') = m s in Meets-continue r f s' (km.at s h) kf;
  }

module _ {e : Engine} {A : Type 0} where
  Meets-recover :
      {Q : A → Session e → Type 0} {F X : Error → Session e → Type 0} {H : Session e → Type 0}
      (r : Outcome A) (h : Error → M e A) (s : Session e)
      → Meets Q F H r s
      → ((x : Error) → Contract (F x) (h x) Q X H)
      → Meets Q X H (recover r h s).0 (recover r h s).1
  Meets-recover (ok a) h s k kh = k
  Meets-recover (err x) h s k kh = (kh x).at s k
  Meets-recover (panic x) h s k kh = k
  Meets-recover out_of_fuel h s k kh = k

  pub Contract-on_error :
      {P : Session e → Type 0} {Q : A → Session e → Type 0} {F X : Error → Session e → Type 0}
      {H : Session e → Type 0} {m : M e A} {h : Error → M e A}
      → Contract P m Q F H
      → ((x : Error) → Contract (F x) (h x) Q X H)
      → Contract P (on_error m h) Q X H
  unfolding on_error
  Contract-on_error {m = m} {h = h} km kh = record {
    at = λ s p. let (r, s') = m s in Meets-recover r h s' (km.at s p) kh;
  }

  Ends-Meets :
      {Q R : A → Session e → Type 0} {E : Session e → Type 0} {X : Error → Session e → Type 0}
      {H : Session e → Type 0} (r : Outcome A) (s : Session e)
      → Ends Q E r s
      → ((a : A) (t : Session e) → Q a t → R a t)
      → ((x : Error) (t : Session e) → E t → X x t)
      → ((t : Session e) → E t → H t)
      → Meets R X H r s
  Ends-Meets (ok a) s h q x k = q a s h
  Ends-Meets (err y) s h q x k = x y s h
  Ends-Meets (panic y) s h q x k = k s h
  Ends-Meets out_of_fuel s h q x k = k s h

  pub Triple-Contract :
      {P : Session e → Type 0} {Q R : A → Session e → Type 0} {E : Session e → Type 0}
      {X : Error → Session e → Type 0} {H : Session e → Type 0} {m : M e A}
      → Triple P m Q E
      → ((a : A) (t : Session e) → Q a t → R a t)
      → ((x : Error) (t : Session e) → E t → X x t)
      → ((t : Session e) → E t → H t)
      → Contract P m R X H
  Triple-Contract {m = m} k q x h = record {
    at = λ s p. let (r, s') = m s in Ends-Meets r s' (k.at s p) q x h;
  }

  Meets-weaken :
      {Q R : A → Session e → Type 0} {X Y : Error → Session e → Type 0} {H K : Session e → Type 0}
      (r : Outcome A) (s : Session e)
      → Meets Q X H r s
      → ((a : A) (t : Session e) → Q a t → R a t)
      → ((x : Error) (t : Session e) → X x t → Y x t)
      → ((t : Session e) → H t → K t)
      → Meets R Y K r s
  Meets-weaken (ok a) s h q x k = q a s h
  Meets-weaken (err y) s h q x k = x y s h
  Meets-weaken (panic y) s h q x k = k s h
  Meets-weaken out_of_fuel s h q x k = k s h

  pub Contract-weaken :
      {P : Session e → Type 0} {Q R : A → Session e → Type 0} {X Y : Error → Session e → Type 0}
      {H K : Session e → Type 0} {m : M e A}
      → Contract P m Q X H
      → ((a : A) (t : Session e) → Q a t → R a t)
      → ((x : Error) (t : Session e) → X x t → Y x t)
      → ((t : Session e) → H t → K t)
      → Contract P m R Y K
  Contract-weaken {m = m} k q x h = record {
    at = λ s p. let (r, s') = m s in Meets-weaken r s' (k.at s p) q x h;
  }

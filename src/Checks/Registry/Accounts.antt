-- ===== src/Checks/Registry/Accounts.antt =====
-- What the registry reports of its checks.
use restorelab.Prelude.{
  ℕ, zero, suc, ◌+◌, ◌≤◌, ◌≡◌, refl, Bool, true, false, not, ◌&&◌, List, [], ◌∷◌, arith, str_eq,
  if◌then◌else◌,
}
use restorelab.Core.Check.{
  CheckConfig, CheckResult, CheckStatus, check_pass, check_fail, check_error, check_skipped,
  is_pass,
}
use restorelab.Checks.Registry.{
  Registry, Verdict, cancelled, verdict_of, before_next, display_name, has_value, unread_capture,
  attempt_loop, unknown_type, skipped, labelled, run_one, run_all,
}

-- Between `low` and `high` attempts.
record Tried (r : Registry) (low high : ℕ) (x : Verdict × ℕ × r.World) : Type 0 where
  at_least : low ≤ x.1
  at_most : x.1 ≤ high

module _ (r : Registry) (cfg : CheckConfig) where
  Tried-if :
      (low high : ℕ) (b : Bool) (x y : Verdict × ℕ × r.World)
      → Tried r low high x
      → Tried r low high y
      → Tried r low high (if b then x else y)
  Tried-if low high true x y h k = h
  Tried-if low high false x y h k = k

  Tried-once :
      (more made : ℕ) (v : Verdict) (w : r.World)
      → Tried r (suc made) (suc made + more) (v, suc made, w)
  Tried-once more made v w = record { at_least = omega arith; at_most = omega arith }

  Tried-next :
      (more made : ℕ) (x : Verdict × ℕ × r.World)
      → Tried r (suc (suc made)) (suc (suc made) + more) x
      → Tried r (suc made) (suc made + suc more) x
  Tried-next more made x h = record {
    at_least = omega (arith, h.at_least);
    at_most = omega (arith, h.at_most);
  }

  -- One attempt at least, and no more than there are left.
  attempt_loop-Tried :
      (more made : ℕ) (w : r.World)
      → Tried r (suc made) (suc made + more) (attempt_loop r cfg more made w)
  unfolding attempt_loop
  attempt_loop-Tried zero made w =
      Tried-if _ _ (r.ended w) _ _ (Tried-once zero made _ w) (Tried-once zero made _ _)
  attempt_loop-Tried (suc more) made w =
      let a = r.attempt cfg w in
      let next = before_next r cfg a.1 in
      Tried-if _ _ (r.ended w) _ _ (Tried-once (suc more) made cancelled w) (
        Tried-if _ _ (is_pass (verdict_of a.0).status) _ _
          (Tried-once (suc more) made (verdict_of a.0) a.1)
          (Tried-if _ _ next.0 _ _ (Tried-once (suc more) made cancelled next.1)
            (Tried-next more made _ (attempt_loop-Tried more (suc made) next.1))))

-- A result says which check it is of, has no more attempts than the configuration allows, and passes
-- only behind an attempt that read the value that the plan captures.
pub record Accounts (cfg : CheckConfig) (result : CheckResult) : Type 0 where
  pub named : result.name ≡ display_name cfg
  pub typed : result.type ≡ cfg.type
  pub bounded : result.attempts ≤ suc cfg.retries
  pub honest :
      is_pass result.status ≡ true
      → (1 ≤ result.attempts)
        × (str_eq cfg.capture "" ≡ false → has_value cfg.capture result.captured ≡ true)

honest_pass :
    (cfg : CheckConfig) (v : Verdict)
    → is_pass (if unread_capture cfg v then check_fail else v.status) ≡ true
    → str_eq cfg.capture "" ≡ false
    → has_value cfg.capture v.captured ≡ true
unfolding unread_capture is_pass
honest_pass cfg v h k = read (str_eq cfg.capture "") (has_value cfg.capture v.captured) k v.status h
  where
    read :
        (b has : Bool)
        → b ≡ false
        → (st : CheckStatus)
        → is_pass (if not b && (is_pass st && not has) then check_fail else st) ≡ true
        → has ≡ true
    read b true e st p = refl
    read true false e st p = cc
    read false false e check_pass p = cc
    read false false e check_fail p = cc
    read false false e check_error p = cc
    read false false e check_skipped p = cc

labelled-Accounts :
    (r : Registry) (cfg : CheckConfig) (x : Verdict × ℕ × r.World)
    → Tried r 1 (suc cfg.retries) x
    → Accounts cfg (labelled r cfg x).0
labelled-Accounts r cfg (v, made, w) h = record {
  named = refl;
  typed = refl;
  bounded = h.at_most;
  honest = λ pass. (h.at_least, λ k. honest_pass cfg v pass k);
}

-- Every result of `RunOne` accounts for its check.
pub run_one-Accounts :
    (r : Registry) (cfg : CheckConfig) (w : r.World) → Accounts cfg (run_one r cfg w).0
unfolding run_one is_pass
run_one-Accounts r cfg w = known (r.is_registered cfg.type)
  where
    known :
        (b : Bool)
        → (let o : CheckResult × r.World =
              if not b
              then (unknown_type r cfg, w)
              else labelled r cfg (attempt_loop r cfg cfg.retries 0 w) in
            Accounts cfg o.0)
    known false = record { named = refl; typed = refl; bounded = omega arith; honest = λ h. cc }
    known true =
        let t = attempt_loop-Tried r cfg cfg.retries 0 w in
        labelled-Accounts r cfg (attempt_loop r cfg cfg.retries 0 w)
          (record { at_least = t.at_least; at_most = omega (arith, t.at_most) })

-- The results of `RunAll` are those of the checks, one for each and in their order.
abbrev pub AllAccount : List CheckConfig → List CheckResult → Type 0
AllAccount [] [] = Unit
AllAccount (c ∷ cs) (x ∷ xs) = Accounts c x × AllAccount cs xs
AllAccount _ _ = ⊥

pub run_all-Accounts :
    (r : Registry) (cfgs : List CheckConfig) (w : r.World) → AllAccount cfgs (run_all r cfgs w).0
unfolding run_all is_pass
run_all-Accounts r [] w = tt
run_all-Accounts r (cfg ∷ cfgs) w = (started (r.ended w), run_all-Accounts r cfgs _)
  where
    started :
        (b : Bool)
        → (let o : CheckResult × r.World = if b then (skipped r cfg, w) else run_one r cfg w in
            Accounts cfg o.0)
    started true = record { named = refl; typed = refl; bounded = omega arith; honest = λ h. cc }
    started false = run_one-Accounts r cfg w

-- ===== src/Interp/Runs.antt =====
-- On interp/: what a run leaves in the runtime data.
use go_sieve.Interp.Runtime.{
  RuntimeData, ExecError, stop_called, return_called, panicked, missing_require, name_too_long,
  read_only, unknown_variable, prefixed_global, too_many_actions, host_error, unsupported_match,
  Exec, then_run,
}
use go_sieve.Prelude.{refl, ◌≡◌, Bool, true, false, Result, ok, err, out_of_fuel, if◌then◌else◌}

-- A script that is stopped or left ends without an error, and `I` is to hold of its data too.
abbrev pub Ended : (RuntimeData → Type 0) → ExecError → RuntimeData → Type 0
Ended I stop_called d = I d
Ended I return_called d = I d
Ended I (panicked s) d = Unit
Ended I (missing_require s) d = Unit
Ended I (name_too_long s) d = Unit
Ended I (read_only s) d = Unit
Ended I (unknown_variable s) d = Unit
Ended I (prefixed_global s) d = Unit
Ended I (too_many_actions n) d = Unit
Ended I unsupported_match d = Unit
Ended I (host_error s) d = Unit

-- `Q` behind a run that returns, `I` behind one that is stopped or left.
abbrev pub After :
    {A : Type 0} → (Q I : RuntimeData → Type 0) → Result ExecError A × RuntimeData → Type 0
After Q I (ok a, d) = Q d
After Q I (err x, d) = Ended I x d
After Q I (out_of_fuel, d) = Unit

pub Ended_lem : (I : RuntimeData → Type 0) (x : ExecError) (d : RuntimeData) → I d → Ended I x d
Ended_lem I stop_called d h = h
Ended_lem I return_called d h = h
Ended_lem I (panicked s) d h = tt
Ended_lem I (missing_require s) d h = tt
Ended_lem I (name_too_long s) d h = tt
Ended_lem I (read_only s) d h = tt
Ended_lem I (unknown_variable s) d h = tt
Ended_lem I (prefixed_global s) d h = tt
Ended_lem I (too_many_actions n) d h = tt
Ended_lem I unsupported_match d h = tt
Ended_lem I (host_error s) d h = tt

Ended-weaken :
    (I K : RuntimeData → Type 0) (x : ExecError) (d : RuntimeData)
    → (I d → K d)
    → Ended I x d
    → Ended K x d
Ended-weaken I K stop_called d k h = k h
Ended-weaken I K return_called d k h = k h
Ended-weaken I K (panicked s) d k h = tt
Ended-weaken I K (missing_require s) d k h = tt
Ended-weaken I K (name_too_long s) d k h = tt
Ended-weaken I K (read_only s) d k h = tt
Ended-weaken I K (unknown_variable s) d k h = tt
Ended-weaken I K (prefixed_global s) d k h = tt
Ended-weaken I K (too_many_actions n) d k h = tt
Ended-weaken I K unsupported_match d k h = tt
Ended-weaken I K (host_error s) d k h = tt

module _ {A : Type 0} where
  -- A result beside the same data.
  pub After-same :
      (I : RuntimeData → Type 0) (r : Result ExecError A) (d : RuntimeData) → I d → After I I (r, d)
  After-same I (ok a) d h = h
  After-same I (err x) d h = Ended_lem I x d h
  After-same I out_of_fuel d h = tt

  pub After-weaken :
      (Q I P K : RuntimeData → Type 0) (r : Result ExecError A × RuntimeData)
      → ((d : RuntimeData) → Q d → P d)
      → ((d : RuntimeData) → I d → K d)
      → After Q I r
      → After P K r
  After-weaken Q I P K (ok a, d) f g h = f d h
  After-weaken Q I P K (err x, d) f g h = Ended-weaken I K x d (g d) h
  After-weaken Q I P K (out_of_fuel, d) f g h = tt

  pub After-then_run :
      {B : Type 0} (Q P I : RuntimeData → Type 0) (r : Result ExecError A × RuntimeData)
      (k : A → Exec B)
      → After Q I r
      → ((a : A) (d : RuntimeData) → Q d → After P I (k a d))
      → After P I (then_run r k)
  After-then_run Q P I (ok a, d) k h f = f a d h
  After-then_run Q P I (err x, d) k h f = h
  After-then_run Q P I (out_of_fuel, d) k h f = h

  -- A result that is read from the data, and what is done with it.
  pub After-reading :
      {B : Type 0} (I : RuntimeData → Type 0) (r : Result ExecError A) (k : A → Exec B)
      (d : RuntimeData)
      → I d
      → ((a : A) → After I I (k a d))
      → After I I (then_run (r, d) k)
  After-reading I (ok a) k d h f = f a
  After-reading I (err x) k d h f = Ended_lem I x d h
  After-reading I out_of_fuel k d h f = tt

  pub After-if :
      (Q I : RuntimeData → Type 0) (b : Bool) (x y : Result ExecError A × RuntimeData)
      → (b ≡ true → After Q I x)
      → (b ≡ false → After Q I y)
      → After Q I (if b then x else y)
  After-if Q I true x y h k = h refl
  After-if Q I false x y h k = k refl

-- ===== src/Interp/Kept.antt =====
-- On interp/: an invariant of the applied actions and the implicit keep, through the commands and the
-- tests that apply no action.
use go_sieve.Interp.Action.{
  expanded_flags, store_flags, cmd_set_flag, Change, changed_flags, change_flags,
}
use go_sieve.Interp.Checks.{
  Test, Tests, true_test, false_test, not_test, all_of, any_of, size_test, exists_test, matching,
  no_tests, more_tests, check, check_all, check_any, check_exists, leave_matches, answer_not,
  and_then, or_else,
}
use go_sieve.Interp.Expand.{expand_vars, cmd_set}
use go_sieve.Interp.Runs.{After, After-same, After-then_run, After-reading, After-if}
use go_sieve.Interp.Runtime.{Flags, AppliedAction, RuntimeData, Exec}
use go_sieve.Interp.Script.{
  Script, Namespace, env_space, envelope_space, global_space, user_space, unknown_space,
  variable_of,
}
use go_sieve.Interp.Text.{member}
use go_sieve.Interp.Variables.{set_user, set_var_in, set_var, truncate, has_dot, cmd_global}
use go_sieve.Prelude.{Bool, true, false, List, [], ◌∷◌, Bytes, Option, none, some, arith}

module _ (J : Script → Bool → List AppliedAction → Type 0) where
  abbrev pub Holds : RuntimeData → Type 0
  Holds d = J d.script d.implicit_keep d.applied_actions

  set_user-keeps :
      (declared : Bool) (name value : Bytes) (d : RuntimeData)
      → Holds d
      → Holds (set_user declared name value d)
  set_user-keeps true name value d h = h
  set_user-keeps false name value d h = h

  set_var_in-keeps :
      (slot : Namespace × Bytes) (value : Bytes) (d : RuntimeData)
      → Holds d
      → After Holds Holds (set_var_in slot value d)
  unfolding set_var_in
  set_var_in-keeps (env_space, name) value d h = tt
  set_var_in-keeps (envelope_space, name) value d h = tt
  set_var_in-keeps (global_space, name) value d h = ground arith
  set_var_in-keeps (user_space, name) value d h =
      set_user-keeps (member name d.global_var_decls) name value d h
  set_var_in-keeps (unknown_space, name) value d h = tt

  set_var-keeps :
      (name value : Bytes) (d : RuntimeData) → Holds d → After Holds Holds (set_var name value d)
  unfolding set_var
  set_var-keeps name value d h = ground (
    arith,
    set_var_in-keeps (variable_of name) (truncate d.script.opts.max_variable_len value) d h,
  )

  pub cmd_set-keeps :
      (name value : Bytes) (modify : Bytes → Bytes) (d : RuntimeData)
      → Holds d
      → After Holds Holds (cmd_set name value modify d)
  unfolding cmd_set
  cmd_set-keeps name value modify d h =
      After-reading Holds (expand_vars d value) (λ expanded. set_var name (modify expanded)) d h
        λ expanded. set_var-keeps name (modify expanded) d h

  pub cmd_global-keeps :
      (names : List Bytes) (d : RuntimeData) → Holds d → After Holds Holds (cmd_global names d)
  unfolding cmd_global
  cmd_global-keeps [] d h = h
  cmd_global-keeps (name ∷ names) d h =
      After-if Holds Holds (has_dot name) _ _ (λ e. tt) λ e. cmd_global-keeps names _ h

  store_flags-keeps :
      (variable : Bytes) (flags : Flags) (d : RuntimeData)
      → Holds d
      → After Holds Holds (store_flags variable flags d)
  unfolding store_flags
  store_flags-keeps [] flags d h = h
  store_flags-keeps (b ∷ name) flags d h = set_var-keeps (b ∷ name) _ d h

  pub cmd_set_flag-keeps :
      (variable : Bytes) (flags : Flags) (d : RuntimeData)
      → Holds d
      → After Holds Holds (cmd_set_flag variable flags d)
  unfolding cmd_set_flag
  cmd_set_flag-keeps variable none d h = h
  cmd_set_flag-keeps variable (some l) d h =
      After-reading Holds (expanded_flags d l) (store_flags variable) d h
        λ flags. store_flags-keeps variable flags d h

  pub change_flags-keeps :
      (change : Change) (variable : Bytes) (flags : Flags) (d : RuntimeData)
      → Holds d
      → After Holds Holds (change_flags change variable flags d)
  unfolding change_flags
  change_flags-keeps change variable none d h = h
  change_flags-keeps change variable (some l) d h =
      After-reading Holds (changed_flags change d variable l) (store_flags variable) d h
        λ flags. store_flags-keeps variable flags d h

  leave_matches-keeps :
      (r : Bool × Option (List Bytes)) (d : RuntimeData)
      → Holds d
      → After Holds Holds (leave_matches r d)
  leave_matches-keeps (b, none) d h = h
  leave_matches-keeps (b, some matches) d h = h

  and_then-keeps :
      (others : Exec Bool)
      → ((d : RuntimeData) → Holds d → After Holds Holds (others d))
      → (b : Bool) (d : RuntimeData) → Holds d
      → After Holds Holds (and_then others b d)
  unfolding and_then
  and_then-keeps others k true d h = k d h
  and_then-keeps others k false d h = h

  or_else-keeps :
      (others : Exec Bool)
      → ((d : RuntimeData) → Holds d → After Holds Holds (others d))
      → (b : Bool) (d : RuntimeData) → Holds d
      → After Holds Holds (or_else others b d)
  unfolding or_else
  or_else-keeps others k true d h = h
  or_else-keeps others k false d h = k d h

  mutual
    unfolding check check_all check_any

    pub check-keeps : (t : Test) (d : RuntimeData) → Holds d → After Holds Holds (check t d)
    check-keeps true_test d h = h
    check-keeps false_test d h = h
    check-keeps (not_test t) d h =
        After-then_run Holds Holds Holds (check t d) answer_not (check-keeps t d h) λ b d' h'. h'
    check-keeps (all_of ts) d h = check_all-keeps ts d h
    check-keeps (any_of ts) d h = check_any-keeps ts d h
    check-keeps (size_test t) d h = h
    check-keeps (exists_test fields) d h = After-same Holds (check_exists d fields) d h
    check-keeps (matching f) d h =
        After-reading Holds (f d) leave_matches d h λ r. leave_matches-keeps r d h

    pub check_all-keeps :
        (ts : Tests) (d : RuntimeData) → Holds d → After Holds Holds (check_all ts d)
    check_all-keeps no_tests d h = h
    check_all-keeps (more_tests t ts) d h =
        After-then_run Holds Holds Holds (check t d) (and_then (check_all ts)) (check-keeps t d h)
          (and_then-keeps (check_all ts) (check_all-keeps ts))

    pub check_any-keeps :
        (ts : Tests) (d : RuntimeData) → Holds d → After Holds Holds (check_any ts d)
    check_any-keeps no_tests d h = h
    check_any-keeps (more_tests t ts) d h =
        After-then_run Holds Holds Holds (check t d) (or_else (check_any ts)) (check-keeps t d h)
          (or_else-keeps (check_any ts) (check_any-keeps ts))

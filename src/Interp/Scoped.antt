-- ===== src/Interp/Scoped.antt =====
-- On interp/include.go, `CmdInclude`: what it leaves as it was.
use go_sieve.Interp.Include.{
  Include, state_of, drop_last, pop, push, mark_once, is_pending, with_state, Guard, ended, loads,
  guard, Loaded, Opened, ScriptLoader, entered, left, run_included, after_open, after_load,
  load_script, after_guard, cmd_include, include_key, include_max_depth,
}
use go_sieve.Interp.Runtime.{IncludeState, RuntimeData, ExecError, Exec}
use go_sieve.Interp.Script.{Options}
use go_sieve.Interp.Text.{member}
use go_sieve.Prelude.{
  ◌≡◌, refl, true, false, Bool, List, [], ◌∷◌, ◌++◌, Bytes, none, some, Result, ok, err,
  out_of_fuel, if◌then◌else◌, equal, codes, leb, length, arith,
}

abbrev pub stack_of : RuntimeData → List Bytes
stack_of d = (state_of d).stack

-- The script and its scope are those of before, and so is the stack of the scripts that run.
abbrev pub IsScoped : RuntimeData → RuntimeData → Type 0
IsScoped d e =
    (e.script ≡ d.script)
    × (e.variables ≡ d.variables)
    × (e.global_var_decls ≡ d.global_var_decls)
    × (e.match_variables ≡ d.match_variables)
    × (stack_of e ≡ stack_of d)

-- The stacks of scripts of which none includes itself, to the depth of the limit.
pub data Nested : List Bytes → Type 0 where
  nested_none : Nested []
  nested_more :
      (l : List Bytes) (key : Bytes)
      → Nested l
      → member key l ≡ false
      → leb include_max_depth (length l) ≡ false
      → Nested (l ++ key ∷ [])

-- A run that leaves such a stack as it was.
abbrev pub IsBalanced : Exec Unit → Type 0
IsBalanced run = (d : RuntimeData) → Nested (stack_of d) → stack_of ((run d).1) ≡ stack_of d

-- What is opened is a script with such a run, if it is a script.
abbrev pub IsBalancedIn : Opened → Type 0
IsBalancedIn (ok (some (ok l))) = IsBalanced l.1
IsBalancedIn (ok (some (err x))) = Unit
IsBalancedIn (ok (some out_of_fuel)) = Unit
IsBalancedIn (ok none) = Unit
IsBalancedIn (err x) = Unit
IsBalancedIn out_of_fuel = Unit

drop_last-append : (l : List Bytes) (k : Bytes) → drop_last (l ++ k ∷ []) ≡ l
drop_last-append [] k = refl
drop_last-append (a ∷ []) k = refl
drop_last-append (a ∷ b ∷ l) k = rw (drop_last-append (b ∷ l) k) refl

-- What a guard shows of the state.
abbrev Guarded : Include → IncludeState → Guard → Type 0
Guarded c s (ended r s2) = s2.stack ≡ s.stack
Guarded c s loads =
    (member (include_key c) s.stack ≡ false) × (leb include_max_depth (length s.stack) ≡ false)

mark_once-stack : (c : Include) (s : IncludeState) → (mark_once c s).stack ≡ s.stack
unfolding mark_once
mark_once-stack c s = by_once c.once
  where
    by_once :
        (b : Bool) → (if b then record s { once = include_key c ∷ s.once } else s).stack ≡ s.stack
    by_once true = refl
    by_once false = refl

guard-Guarded : (c : Include) (s : IncludeState) → Guarded c s (guard c s)
unfolding guard is_pending
guard-Guarded c s = ground (arith, mark_once-stack c s)

-- A script that runs, from data whose state has been made.
run_included-IsScoped :
    (c : Include) (l : Loaded) (d : RuntimeData)
    → IsBalanced l.1
    → Nested (stack_of d)
    → Guarded c (state_of d) loads
    → IsScoped d ((run_included c l d).1)
unfolding run_included left entered push pop
run_included-IsScoped c (script, run) d b n (p, q) =
    let balanced = b (entered c script d) (nested_more (stack_of d) (include_key c) n p q) in
    (
      refl,
      refl,
      refl,
      refl,
      rw (mark_once-stack c _) (rw balanced (drop_last-append (stack_of d) (include_key c))),
    )

after_load-IsScoped :
    (c : Include) (o : Opened) (d : RuntimeData)
    → IsBalancedIn o
    → Nested (stack_of d)
    → Guarded c (state_of d) loads
    → IsScoped d ((after_load c o d).1)
unfolding after_load after_open
after_load-IsScoped c (ok (some (ok l))) d b n g = run_included-IsScoped c l d b n g
after_load-IsScoped c (ok (some (err x))) d b n g = (refl, refl, refl, refl, refl)
after_load-IsScoped c (ok (some out_of_fuel)) d b n g = (refl, refl, refl, refl, refl)
after_load-IsScoped c (ok none) d b n g = (refl, refl, refl, refl, refl)
after_load-IsScoped c (err x) d b n g = (refl, refl, refl, refl, refl)
after_load-IsScoped c out_of_fuel d b n g = (refl, refl, refl, refl, refl)

-- A loader of scripts with such runs.
abbrev pub IsBalancedLoader : ScriptLoader → Type 0
IsBalancedLoader loader =
    (o : Options) (name : Bytes)
    → IsBalancedIn (loader.load_personal_script o name)
      × IsBalancedIn (loader.load_global_script o name)

-- What holds of both branches.
on_both : {A : Type 0} (P : A → Type 0) (x y : A) (b : Bool) → P x → P y → P (if b then x else y)
on_both P x y true px py = px
on_both P x y false px py = py

module _ (loader : ScriptLoader) (c : Include) where
  load_script-IsScoped :
      (d : RuntimeData)
      → IsBalancedLoader loader
      → Nested (stack_of d)
      → Guarded c (state_of d) loads
      → IsScoped d ((load_script loader c d).1)
  unfolding load_script
  load_script-IsScoped d b n g =
      let both = b d.script.opts c.name in
      let personal =
        after_load-IsScoped c (loader.load_personal_script d.script.opts c.name) d (both.0) n g in
      let global =
        after_load-IsScoped c (loader.load_global_script d.script.opts c.name) d (both.1) n g in
      let P = λ (r : Result ExecError Unit × RuntimeData). IsScoped d (r.1) in
      on_both P _ _ (equal c.location (codes "personal")) personal
        (on_both P _ _ (equal c.location (codes "global")) global (refl, refl, refl, refl, refl))

  after_guard-IsScoped :
      (d : RuntimeData) (w : Guard)
      → IsBalancedLoader loader
      → Nested (stack_of d)
      → Guarded c (state_of d) w
      → IsScoped d ((after_guard loader c w d).1)
  unfolding after_guard
  after_guard-IsScoped d (ended r s) b n g = (refl, refl, refl, refl, g)
  after_guard-IsScoped d loads b n g = load_script-IsScoped (with_state (state_of d) d) b n g

  -- Where the scripts that the loader opens leave every stack of distinct scripts as it was, of four at most, an
  -- include does so too, and it leaves the script and its variables, global declarations and match variables as
  -- they were, whether it fails or not.
  pub cmd_include-IsScoped :
      (d : RuntimeData)
      → IsBalancedLoader loader
      → Nested (stack_of d)
      → IsScoped d ((cmd_include (some loader) c d).1)
  unfolding cmd_include
  cmd_include-IsScoped d b n =
      after_guard-IsScoped d (guard c (state_of d)) b n (guard-Guarded c (state_of d))

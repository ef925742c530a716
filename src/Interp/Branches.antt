-- ===== src/Interp/Branches.antt =====
-- On interp/control.go: an `if` with its `elsif` and `else` commands.
use go_sieve.Interp.Control.{
  set_if_result, run_block, run_if, cmd_if, unless_done, cmd_elsif, cmd_else,
}
use go_sieve.Interp.Runtime.{RuntimeData, ExecError, Exec, then_run}
use go_sieve.Prelude.{
  ◌≡◌, refl, Bool, true, false, List, [], ◌∷◌, ◌++◌, Result, ok, err, out_of_fuel, map,
}

-- A test and the block behind it.
abbrev pub Branch : Type 0
Branch = Exec Bool × List (Exec Unit)

abbrev at : RuntimeData → Bool → RuntimeData
at d b = record d { if_result = b }

abbrev pub elsif_of : Branch → Exec Unit
elsif_of (test, block) = cmd_elsif test block

-- One branch: its block where its test held, and the others where it did not. `if_result` is what the
-- commands leave in it.
unfoldable pub chosen : List (Exec Unit) → Exec Unit → Bool → Exec Unit
chosen block others true d = then_run (run_block block d) λ _. set_if_result true
chosen block others false d = others (record d { if_result = false })

-- The first branch whose test holds, or the last block. A test behind that branch is not made.
unfoldable pub choose : List (Branch) → List (Exec Unit) → Exec Unit
choose [] last = run_block last
choose ((test, block) ∷ more) last =
    let others = choose more last in λ d. then_run (test d) (chosen block others)

-- The commands behind an `if`.
abbrev pub else_chain : List (Branch) → List (Exec Unit) → List (Exec Unit)
else_chain more last = map elsif_of more ++ cmd_else last ∷ []

run_block-done :
    (more : List (Branch)) (last : List (Exec Unit)) (f : RuntimeData)
    → run_block (else_chain more last) (at f true) ≡ (ok tt, at f true)
unfolding run_block cmd_elsif cmd_else unless_done
run_block-done [] last f = refl
run_block-done (b ∷ more) last f = run_block-done more last f

then_run-end : (r : Result ExecError Unit × RuntimeData) → then_run r (λ u d. (ok u, d)) ≡ r
then_run-end (ok u, d) = refl
then_run-end (err x, d) = refl
then_run-end (out_of_fuel, d) = refl

then_run-done :
    (r : Result ExecError Unit × RuntimeData) (k : Exec Unit)
    → ((f : RuntimeData) → k (at f true) ≡ (ok tt, at f true))
    → then_run (then_run r (λ _. set_if_result true)) (λ _. k)
      ≡ then_run r (λ _. set_if_result true)
then_run-done (ok u, d) k h = h d
then_run-done (err x, d) k h = refl
then_run-done (out_of_fuel, d) k h = refl

then_run-chosen :
    (r : Result ExecError Bool × RuntimeData) (block : List (Exec Unit)) (k others : Exec Unit)
    → ((f : RuntimeData) → k (at f true) ≡ (ok tt, at f true))
    → ((f : RuntimeData) → k (at f false) ≡ others (at f false))
    → then_run (then_run r (run_if block)) (λ _. k) ≡ then_run r (chosen block others)
unfolding run_if chosen
then_run-chosen (ok true, d) block k others h g = then_run-done (run_block block d) k h
then_run-chosen (ok false, d) block k others h g = g d
then_run-chosen (err x, d) block k others h g = refl
then_run-chosen (out_of_fuel, d) block k others h g = refl

run_block-choose :
    (more : List (Branch)) (last : List (Exec Unit)) (f : RuntimeData)
    → run_block (else_chain more last) (at f false) ≡ choose more last (at f false)
unfolding run_block choose cmd_elsif cmd_else unless_done
run_block-choose [] last f = then_run-end (run_block last (at f false))
run_block-choose ((test, block) ∷ more) last f =
    then_run-chosen (test (at f false)) block (run_block (else_chain more last)) (choose more last)
      (run_block-done more last) (run_block-choose more last)

-- An `if`, any number of `elsif` and an `else`, run one after the other from any runtime data, do what the
-- first branch whose test holds does, or the last block if there is none: the tests are made in order up to
-- that branch, an error of a test or of a block ends them, and no other block runs.
pub run_block-else_chain :
    (test : Exec Bool) (block : List (Exec Unit)) (more : List (Branch)) (last : List (Exec Unit))
    (d : RuntimeData)
    → run_block (cmd_if test block ∷ else_chain more last) d ≡ choose ((test, block) ∷ more) last d
unfolding run_block choose cmd_if
run_block-else_chain test block more last d =
    then_run-chosen (test d) block (run_block (else_chain more last)) (choose more last)
      (run_block-done more last) (run_block-choose more last)

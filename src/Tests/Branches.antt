-- ===== src/Tests/Branches.antt =====
-- The theorem on `if` at a concrete chain.
use go_sieve.Interp.Branches.{Branch, choose, else_chain, run_block-else_chain}
use go_sieve.Interp.Control.{run_block, cmd_if, run_if, unless_done, cmd_elsif, cmd_else}
use go_sieve.Interp.Runtime.{RuntimeData, Exec}
use go_sieve.Interp.Script.{Script, Options}
use go_sieve.Prelude.{◌≡◌, refl, Bool, true, false, List, [], ◌∷◌, ◌++◌, ok, none, Bytes, codes}

abbrev pub small_limits : Options
small_limits = record {
  max_redirects = 1;
  max_actions = 2;
  max_variable_count = 9;
  max_variable_name_len = 9;
  max_variable_len = 5;
  sub_address_sep = [];
  allowed = none;
}

abbrev pub variables_script : Script
variables_script = record {
  extensions = codes "variables" ∷ codes "fileinto" ∷ [];
  guarded = λ _. 0;
  opts = small_limits;
}

abbrev pub start : RuntimeData
start = record {
  script = variables_script;
  envelope = record { envelope_from = codes "a@b"; envelope_to = []; auth_username = [] };
  msg = record { header_get = λ name. ok []; message_size = 7 };
  env = none;
  if_result = true;
  applied_actions = [];
  redirect_addr = [];
  mailboxes = [];
  flags = none;
  keep = false;
  implicit_keep = true;
  flag_aliases = [];
  match_variables = [];
  variables = [];
  global_vars = [];
  global_var_decls = [];
  include_state = none;
}

-- A test with a fixed result, and a command that leaves a trace.
abbrev answer : Bool → Exec Bool
answer b d = (ok b, d)

abbrev add : Bytes → Exec Unit
add s d = (ok tt, record d { mailboxes = d.mailboxes ++ s ∷ [] })

abbrev more : List Branch
more = (answer true, add (codes "b") ∷ []) ∷ (answer true, add (codes "c") ∷ []) ∷ []

run_block-else_chain_example :
    run_block
      (cmd_if (answer false) (add (codes "a") ∷ []) ∷ else_chain more (add (codes "d") ∷ []))
      start
    ≡ choose ((answer false, add (codes "a") ∷ []) ∷ more) (add (codes "d") ∷ []) start
run_block-else_chain_example =
    run_block-else_chain (answer false) (add (codes "a") ∷ []) more (add (codes "d") ∷ []) start

-- Only the block of the second branch runs.
second_branch :
    run_block
      (cmd_if (answer false) (add (codes "a") ∷ []) ∷ else_chain more (add (codes "d") ∷ []))
      start
    ≡ (ok tt, record start { mailboxes = codes "b" ∷ [] })
unfolding run_block cmd_if run_if unless_done cmd_elsif cmd_else
second_branch = refl

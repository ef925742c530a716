-- ===== src/Managesieve/Sessions.antt =====
-- On managesieve/server/memory.go: sequences of requests.
use go_sieve.Managesieve.Memory.{
  MemorySessionOptions, MemorySession, Refusal, new_memory_session, validate_script_name, present,
  too_large, is_full, put_script, set_active, delete_script, rename_script,
}
use go_sieve.Prelude.{
  ◌≡◌, refl, ◌∙◌, ◌⊎◌, inl, inr, true, false, not, ◌&&◌, List, [], ◌∷◌, none, arith, Bytes, equal,
  length, All, Result, ok, err, out_of_fuel, IfOk, IfOk-if, lookup, delete, HasDistinctKeys,
  All-insert, All-delete, All-lookup, HasDistinctKeys-insert, HasDistinctKeys-delete,
}
use go_sieve.Managesieve.Refusals.{IfOk-unless, IfOk-refuse, IfOk-loaded, IfOk-find}
use go_sieve.Managesieve.Entries.{
  AtMost, count-insert, count-delete, count-rename, active-insert, active-delete, active-rename,
}

-- A script under a name that `validateScriptName` admits, accepted by `Load`, within `MaxScriptLen`.
abbrev pub IsValidEntry : MemorySessionOptions → Bytes × Bytes → Type 0
IsValidEntry o (name, script) =
    (validate_script_name name false ≡ none)
    × (o.load script ≡ none)
    × (too_large o (length script) ≡ false)

pub record IsWell (s : MemorySession) : Type 0 where
  pub entries : All (IsValidEntry s.opts) s.scripts
  pub distinct : HasDistinctKeys s.scripts
  pub count : AtMost s.opts.max_scripts (length s.scripts)
  pub active_exists : (s.active ≡ []) ⊎ (present (lookup s.active s.scripts) ≡ true)

-- The requests that change a session.
pub data Request : Type 0 where
  put : Bytes → Bytes → Request
  activate : Bytes → Request
  remove : Bytes → Request
  rename : Bytes → Bytes → Request

unfoldable pub perform : Request → MemorySession → Result Refusal MemorySession
perform (put name script) s = put_script name script s
perform (activate name) s = set_active name s
perform (remove name) s = delete_script name s
perform (rename old_name new_name) s = rename_script old_name new_name s

-- The session after a request: a refused one leaves it as it is.
abbrev pub after_request : MemorySession → Result Refusal MemorySession → MemorySession
after_request s (ok s') = s'
after_request s (err x) = s
after_request s out_of_fuel = s

unfoldable pub serve : List Request → MemorySession → MemorySession
serve [] s = s
serve (r ∷ l) s = serve l (after_request s (perform r s))

-- What a request keeps, from the session before it.
abbrev pub Keeps : MemorySession → MemorySession → Type 0
Keeps s s' = (s'.opts ≡ s.opts) × IsWell s'

pub put_script-Keeps :
    (name script : Bytes) (s : MemorySession) → IsWell s → IfOk (Keeps s) (put_script name script s)
unfolding put_script
put_script-Keeps name script s w =
    IfOk-unless (Keeps s) (validate_script_name name false) _ λ valid.
      IfOk-refuse (Keeps s) (too_large s.opts (length script)) _ _ λ fits.
        IfOk-loaded (Keeps s) (s.opts.load script) _ λ loads.
          IfOk-refuse (Keeps s) (not (present (lookup name s.scripts)) && is_full s) _ _ λ room. (
            refl,
            record {
              entries =
                  All-insert (IsValidEntry s.opts) name script s.scripts (valid, loads, fits)
                    w.entries;
              distinct = HasDistinctKeys-insert name script s.scripts w.distinct;
              count = count-insert s.opts.max_scripts name script s.scripts room w.count;
              active_exists = active-insert s.active name script s.scripts w.active_exists;
            },
          )

pub set_active-Keeps :
    (name : Bytes) (s : MemorySession) → IsWell s → IfOk (Keeps s) (set_active name s)
unfolding set_active
set_active-Keeps name s w = IfOk-unless (Keeps s) (validate_script_name name true) _ λ _.
    IfOk-if (Keeps s) (equal name []) _ _
      (λ _. (
        refl,
        record {
          entries = w.entries;
          distinct = w.distinct;
          count = w.count;
          active_exists = inl refl;
        },
      ))
      λ _. IfOk-find (Keeps s) (lookup name s.scripts) _ λ v e. (
        refl,
        record {
          entries = w.entries;
          distinct = w.distinct;
          count = w.count;
          active_exists = inr (rw e refl);
        },
      )

pub delete_script-Keeps :
    (name : Bytes) (s : MemorySession) → IsWell s → IfOk (Keeps s) (delete_script name s)
unfolding delete_script
delete_script-Keeps name s w = IfOk-unless (Keeps s) (validate_script_name name false) _ λ _.
    IfOk-refuse (Keeps s) (equal name s.active) _ _ λ other.
      IfOk-find (Keeps s) (lookup name s.scripts) _ λ v e. (
        refl,
        record {
          entries = All-delete (IsValidEntry s.opts) name s.scripts w.entries;
          distinct = HasDistinctKeys-delete name s.scripts w.distinct;
          count = count-delete s.opts.max_scripts name s.scripts w.count;
          active_exists = active-delete s.active name s.scripts other w.active_exists;
        },
      )

pub rename_script-Keeps :
    (old_name new_name : Bytes) (s : MemorySession)
    → IsWell s
    → IfOk (Keeps s) (rename_script old_name new_name s)
unfolding rename_script
rename_script-Keeps old_name new_name s w =
    IfOk-unless (Keeps s) (validate_script_name old_name false) _ λ _.
      IfOk-unless (Keeps s) (validate_script_name new_name false) _ λ valid.
        IfOk-find (Keeps s) (lookup old_name s.scripts) _ λ v e.
          IfOk-refuse (Keeps s) (present (lookup new_name s.scripts)) _ _ λ _.
            let (valid_old, loads, fits) =
              All-lookup (IsValidEntry s.opts) old_name v s.scripts w.entries e in
            let kept = All-delete (IsValidEntry s.opts) old_name s.scripts w.entries in
            (
              refl,
              record {
                entries =
                    All-insert (IsValidEntry s.opts) new_name v (delete old_name s.scripts)
                      (valid, loads, fits) kept;
                distinct =
                    HasDistinctKeys-insert new_name v (delete old_name s.scripts)
                      (HasDistinctKeys-delete old_name s.scripts w.distinct);
                count = count-rename s.opts.max_scripts old_name new_name v s.scripts e w.count;
                active_exists =
                    active-rename s.active old_name new_name v s.scripts w.active_exists;
              },
            )

perform-Keeps : (r : Request) (s : MemorySession) → IsWell s → IfOk (Keeps s) (perform r s)
unfolding perform
perform-Keeps (put name script) s w = put_script-Keeps name script s w
perform-Keeps (activate name) s w = set_active-Keeps name s w
perform-Keeps (remove name) s w = delete_script-Keeps name s w
perform-Keeps (rename old_name new_name) s w = rename_script-Keeps old_name new_name s w

after_request-Keeps :
    (s : MemorySession) (r : Result Refusal MemorySession)
    → IsWell s
    → IfOk (Keeps s) r
    → Keeps s (after_request s r)
after_request-Keeps s (ok s') w h = h
after_request-Keeps s (err x) w h = (refl, w)
after_request-Keeps s out_of_fuel w h = (refl, w)

serve-Keeps : (l : List Request) (s : MemorySession) → IsWell s → Keeps s (serve l s)
unfolding serve
serve-Keeps [] s w = (refl, w)
serve-Keeps (r ∷ l) s w =
    let (same, w') = after_request-Keeps s (perform r s) w (perform-Keeps r s w) in
    let (same', w'') = serve-Keeps l (after_request s (perform r s)) w' in (same' ∙ same, w'')

pub new_memory_session-IsWell : (o : MemorySessionOptions) → IsWell (new_memory_session o)
unfolding new_memory_session
new_memory_session-IsWell o = record {
  entries = tt;
  distinct = tt;
  count = ground arith;
  active_exists = inl refl;
}

-- After any sequence of PutScript, SetActive, DeleteScript and RenameScript requests on a new session, refused
-- ones among them: every script stands under an admissible name, was accepted by `Load` and is within
-- `MaxScriptLen`; no name stands twice; there are at most `MaxScripts` scripts, where that limit is not 0; and
-- the active script exists, if one is set.
pub serve-IsWell :
    (o : MemorySessionOptions) (l : List Request) → IsWell (serve l (new_memory_session o))
serve-IsWell o l = (serve-Keeps l (new_memory_session o) (new_memory_session-IsWell o)).1

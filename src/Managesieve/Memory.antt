-- ===== src/Managesieve/Memory.antt =====
-- managesieve/server/memory.go: the scripts of one user. `load` stands for the option `Load`, with
-- the message of its error. A lock spans each access, so that the operations follow one another.
use go_sieve.Managesieve.Runes.{runes}
use go_sieve.Prelude.{
  ℕ, Bool, true, false, not, ◌&&◌, ◌||◌, List, [], ◌∷◌, Option, none, some, ltb, leb, ◌==◌,
  if◌then◌else◌, within, Bytes, equal, length, ℤ, pos, negsuc, Result, ok, err, ◌>>=◌, StringMap,
  lookup, insert, delete,
}

-- The options that the operations read; 0 is no limit.
pub record MemorySessionOptions : Type 0 where
  pub max_scripts : ℕ
  pub max_script_len : ℕ
  pub load : Bytes → Option Bytes

pub record MemorySession : Type 0 where
  pub opts : MemorySessionOptions
  pub scripts : StringMap
  pub active : Bytes

-- The errors, all of them answered by NO.
pub data Refusal : Type 0 where
  empty_name invalid_name name_too_long invalid_utf8 : Refusal
  no_such_script script_active target_exists : Refusal
  script_too_large too_many_scripts invalid_size : Refusal
  load_failed : Bytes → Refusal

unfoldable pub new_memory_session : MemorySessionOptions → MemorySession
new_memory_session opts = record { opts = opts; scripts = []; active = [] }

-- A rune that no script name has.
unfoldable pub is_forbidden : ℕ → Bool
is_forbidden r = within 0 31 r || r == 127 || within 128 159 r || r == 8232 || r == 8233

unfoldable pub any_forbidden : List (ℕ × Bool) → Bool
any_forbidden [] = false
any_forbidden ((r, valid) ∷ l) = is_forbidden r || any_forbidden l

-- `utf8.ValidString`
unfoldable pub all_valid : List (ℕ × Bool) → Bool
all_valid [] = true
all_valid ((r, valid) ∷ l) = valid && all_valid l

-- `validateScriptName`
unfoldable pub validate_script_name : Bytes → Bool → Option Refusal
validate_script_name [] allow_empty = if allow_empty then none else some empty_name
validate_script_name (c ∷ name) allow_empty =
    if any_forbidden (runes (c ∷ name))
    then some invalid_name
    else if ltb 128 (length (runes (c ∷ name)))
    then some name_too_long
    else if all_valid (runes (c ∷ name))
    then none
    else some invalid_utf8

-- `if err != nil { return err }`
abbrev pub unless : {A : Type 0} → Option Refusal → Result Refusal A → Result Refusal A
unless none k = k
unless (some x) k = err x

-- An error when the condition holds.
abbrev pub refuse : {A : Type 0} → Bool → Refusal → Result Refusal A → Result Refusal A
refuse true x k = err x
refuse false x k = k

-- The script that a name has.
abbrev pub find : Option Bytes → Result Refusal Bytes
find none = err no_such_script
find (some v) = ok v

abbrev pub present : Option Bytes → Bool
present none = false
present (some v) = true

-- The error of `Load`, if it returns one.
abbrev pub loaded : {A : Type 0} → Option Bytes → Result Refusal A → Result Refusal A
loaded none k = k
loaded (some text) k = err (load_failed text)

abbrev pub too_large : MemorySessionOptions → ℕ → Bool
too_large o n = ltb 0 o.max_script_len && ltb o.max_script_len n

-- No room for one more script.
abbrev pub is_full : MemorySession → Bool
is_full s = ltb 0 s.opts.max_scripts && leb s.opts.max_scripts (length s.scripts)

unfoldable pub get_script : Bytes → MemorySession → Result Refusal Bytes
get_script name s = unless (validate_script_name name false) (find (lookup name s.scripts))

unfoldable pub put_script : Bytes → Bytes → MemorySession → Result Refusal MemorySession
put_script name script s = unless (validate_script_name name false) (
    refuse (too_large s.opts (length script)) script_too_large (
      loaded (s.opts.load script) (
        refuse (not (present (lookup name s.scripts)) && is_full s) too_many_scripts
          (ok (record s { scripts = insert name script s.scripts })))))

unfoldable pub check_script : Bytes → MemorySession → Result Refusal Unit
check_script script s = loaded (s.opts.load script) (ok tt)

unfoldable pub set_active : Bytes → MemorySession → Result Refusal MemorySession
set_active name s = unless (validate_script_name name true) (
    if equal name []
    then ok (record s { active = [] })
    else find (lookup name s.scripts) >>= λ _. ok (record s { active = name }))

unfoldable pub delete_script : Bytes → MemorySession → Result Refusal MemorySession
delete_script name s = unless (validate_script_name name false) (
    refuse (equal name s.active) script_active
      (find (lookup name s.scripts) >>= λ _. ok (record s { scripts = delete name s.scripts })))

unfoldable pub rename_script : Bytes → Bytes → MemorySession → Result Refusal MemorySession
rename_script old_name new_name s = unless (validate_script_name old_name false) (
    unless (validate_script_name new_name false) (
      find (lookup old_name s.scripts) >>= λ v.
      refuse (present (lookup new_name s.scripts)) target_exists (
        ok (record s {
          scripts = insert new_name v (delete old_name s.scripts);
          active = if equal s.active old_name then new_name else s.active;
        }))))

-- `HaveSpace`. `name` and `size` are checked, and nothing is reserved.
unfoldable pub have_space : Bytes → ℤ → MemorySession → Result Refusal Unit
have_space name (negsuc n) s = unless (validate_script_name name false) (err invalid_size)
have_space name (pos n) s =
    unless (validate_script_name name false) (refuse (too_large s.opts n) script_too_large (ok tt))

pub record ScriptInfo : Type 0 where
  pub name : Bytes
  pub is_active : Bool

-- `<` on Go strings.
unfoldable pub less : Bytes → Bytes → Bool
less [] [] = false
less [] (y ∷ ys) = true
less (x ∷ xs) [] = false
less (x ∷ xs) (y ∷ ys) = if x == y then less xs ys else ltb x y

insert_sorted : ScriptInfo → List ScriptInfo → List ScriptInfo
insert_sorted i [] = i ∷ []
insert_sorted i (j ∷ l) = if less i.name j.name then i ∷ j ∷ l else j ∷ insert_sorted i l

-- `ListScripts`: by name. The names differ, so that there is one order.
unfoldable pub list_scripts_from : Bytes → StringMap → List ScriptInfo
unfolding insert_sorted
list_scripts_from active [] = []
list_scripts_from active ((k, v) ∷ m) =
    insert_sorted (record { name = k; is_active = equal k active }) (list_scripts_from active m)

unfoldable pub list_scripts : MemorySession → List ScriptInfo
list_scripts s = list_scripts_from s.active s.scripts

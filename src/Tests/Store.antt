-- ===== src/Tests/Store.antt =====
-- The theorems on the scripts in memory at concrete inputs.
use go_sieve.Managesieve.Memory.{
  too_large, is_full, present, rename_script, delete_script, validate_script_name, any_forbidden,
  is_forbidden, all_valid, MemorySession, MemorySessionOptions, new_memory_session,
}
use go_sieve.Managesieve.Memory
use go_sieve.Managesieve.Runes.{runes, runes_from, decode_rune}
use go_sieve.Managesieve.Scripts.{put_script-lookup, rename_script-lookup, delete_script-lookup}
use go_sieve.Managesieve.Sessions.{
  IsWell, Request, put, activate, rename, remove, serve, serve-IsWell,
}
use go_sieve.Prelude.{
  ◌≡◌, ◌≢◌, ◌⊎◌, length, refl, true, false, List, [], ◌∷◌, none, some, codes, equal, ok, lookup,
  insert, delete, if◌then◌else◌,
}

abbrev options : MemorySessionOptions
options = record {
  max_scripts = 2;
  max_script_len = 10;
  load = λ script. if equal script (codes "?") then some (codes "bad") else none;
}

abbrev requests : List Request
requests =
    put (codes "a") (codes "keep;")
    ∷ put (codes "b") (codes "?")
    ∷ put (codes "b") (codes "stop;")
    ∷ activate (codes "a")
    ∷ rename (codes "a") (codes "c")
    ∷ remove (codes "c")
    ∷ remove (codes "b")
    ∷ []

serve-IsWell_example : IsWell (serve requests (new_memory_session options))
serve-IsWell_example = serve-IsWell options requests

abbrev before : MemorySession
before = record { opts = options; scripts = (codes "a", codes "keep;") ∷ []; active = codes "a" }

abbrev after_put : MemorySession
after_put = record {
  opts = options;
  scripts = (codes "a", codes "keep;") ∷ (codes "b", codes "stop;") ∷ [];
  active = codes "a";
}

put_b : Memory.put_script (codes "b") (codes "stop;") before ≡ ok after_put
unfolding Memory.put_script validate_script_name runes runes_from decode_rune any_forbidden
    is_forbidden all_valid lookup insert equal
put_b = refl

put_script-lookup_example :
    (validate_script_name (codes "b") false ≡ none)
    × (too_large options (length (codes "stop;")) ≡ false)
    × (options.load (codes "stop;") ≡ none)
    × ((lookup (codes "b") before.scripts ≢ none) ⊎ (is_full before ≡ false))
    × (lookup (codes "a") after_put.scripts ≡ (
        if equal (codes "b") (codes "a")
        then some (codes "stop;")
        else lookup (codes "a") before.scripts))
    × (after_put.active ≡ before.active)
put_script-lookup_example =
    put_script-lookup (codes "b") (codes "stop;") before after_put (codes "a") put_b

abbrev after_rename : MemorySession
after_rename = record {
  opts = options;
  scripts = (codes "c", codes "keep;") ∷ [];
  active = codes "c";
}

rename_a : rename_script (codes "a") (codes "c") before ≡ ok after_rename
unfolding rename_script validate_script_name runes runes_from decode_rune any_forbidden is_forbidden
    all_valid lookup insert delete equal
rename_a = refl

rename_script-lookup_example :
    (present (lookup (codes "a") before.scripts) ≡ true)
    × (lookup (codes "c") before.scripts ≡ none)
    × (lookup (codes "a") after_rename.scripts ≡ (
        if equal (codes "c") (codes "a")
        then lookup (codes "a") before.scripts
        else if equal (codes "a") (codes "a")
        then none
        else lookup (codes "a") before.scripts))
    × (after_rename.active ≡ (if equal before.active (codes "a") then codes "c" else before.active))
rename_script-lookup_example =
    rename_script-lookup (codes "a") (codes "c") before after_rename (codes "a") rename_a

delete_b : delete_script (codes "b") after_put ≡ ok before
unfolding delete_script validate_script_name runes runes_from decode_rune any_forbidden is_forbidden
    all_valid lookup delete equal
delete_b = refl

delete_script-lookup_example :
    (equal (codes "b") after_put.active ≡ false)
    × (present (lookup (codes "b") after_put.scripts) ≡ true)
    × (lookup (codes "a") before.scripts
        ≡ (if equal (codes "b") (codes "a") then none else lookup (codes "a") after_put.scripts))
    × (before.active ≡ after_put.active)
delete_script-lookup_example =
    delete_script-lookup (codes "b") after_put before (codes "a") delete_b

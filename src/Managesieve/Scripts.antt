-- ===== src/Managesieve/Scripts.antt =====
-- On managesieve/server/memory.go: the map from names to scripts after one request.
use go_sieve.Managesieve.Memory.{
  MemorySession, validate_script_name, present, too_large, is_full, put_script, delete_script,
  rename_script,
}
use go_sieve.Managesieve.Refusals.{IfOk-unless, IfOk-refuse, IfOk-loaded, IfOk-find}
use go_sieve.Prelude.{
  ◌≡◌, ◌≢◌, ◌⊎◌, Bool, refl, inl, inr, true, false, not, ◌&&◌, Option, none, some, arith, Bytes,
  equal, equal_iff, length, if◌then◌else◌, ok, IfOk, IfOk-ok, lookup, insert, delete, lookup-insert,
  lookup-insert_other, lookup-delete, lookup-delete_other, Bool-cases,
}

lookup-insert_if :
    (i k v : Bytes) (m : _) → lookup i (insert k v m) ≡ (if equal k i then some v else lookup i m)
lookup-insert_if i k v m = elim (Bool-cases (equal k i)) [
  | inl same ↦ ground (arith, equal_iff k i, lookup-insert k v m, same)
  | inr other ↦ rw other (lookup-insert_other i k v m other)
]

lookup-delete_if :
    (i k : Bytes) (m : _) → lookup i (delete k m) ≡ (if equal k i then none else lookup i m)
lookup-delete_if i k m = elim (Bool-cases (equal k i)) [
  | inl same ↦ ground (arith, equal_iff k i, lookup-delete k m, same)
  | inr other ↦ rw other (lookup-delete_other i k m other)
]

-- A PutScript that succeeds had an admissible name and a script that is within the limit and that `Load` accepts, and
-- the name had a script before or the session was not full; after it, the name has the new script, every other name
-- what it had, and the active name is the same.
pub put_script-lookup :
    (name script : Bytes) (s s' : MemorySession) (i : Bytes)
    → put_script name script s ≡ ok s'
    → (validate_script_name name false ≡ none)
      × (too_large s.opts (length script) ≡ false)
      × (s.opts.load script ≡ none)
      × ((lookup name s.scripts ≢ none) ⊎ (is_full s ≡ false))
      × (lookup i s'.scripts ≡ (if equal name i then some script else lookup i s.scripts))
      × (s'.active ≡ s.active)
put_script-lookup name script s s' i e = IfOk-ok Put _ puts e
  where
    Put : MemorySession → Type 0
    Put s' =
        (validate_script_name name false ≡ none)
        × (too_large s.opts (length script) ≡ false)
        × (s.opts.load script ≡ none)
        × ((lookup name s.scripts ≢ none) ⊎ (is_full s ≡ false))
        × (lookup i s'.scripts ≡ (if equal name i then some script else lookup i s.scripts))
        × (s'.active ≡ s.active)

    room :
        (o : Option Bytes) (full : Bool)
        → (not (present o) && full) ≡ false
        → (o ≢ none) ⊎ (full ≡ false)
    room none full h = inr h
    room (some v) full h = inl λ e. cc

    puts : IfOk Put (put_script name script s)
    puts =
        unfold put_script in
        IfOk-unless Put (validate_script_name name false) _ λ valid.
          IfOk-refuse Put (too_large s.opts (length script)) _ _ λ small.
            IfOk-loaded Put (s.opts.load script) _ λ loads.
              IfOk-refuse Put (not (present (lookup name s.scripts)) && is_full s) _ _ λ h. (
                valid,
                small,
                loads,
                room (lookup name s.scripts) (is_full s) h,
                lookup-insert_if i name script s.scripts,
                refl,
              )

-- After a RenameScript that succeeds, the new name has the script of the old one, which it did not have before;
-- the old name has none; every other name has what it had; and the active script is the same one, under
-- its new name.
pub rename_script-lookup :
    (old_name new_name : Bytes) (s s' : MemorySession) (i : Bytes)
    → rename_script old_name new_name s ≡ ok s'
    → (present (lookup old_name s.scripts) ≡ true)
      × (lookup new_name s.scripts ≡ none)
      × (lookup i s'.scripts ≡ (
          if equal new_name i
          then lookup old_name s.scripts
          else if equal old_name i
          then none
          else lookup i s.scripts))
      × (s'.active ≡ (if equal s.active old_name then new_name else s.active))
rename_script-lookup old_name new_name s s' i e = IfOk-ok Renamed _ renames e
  where
    Renamed : MemorySession → Type 0
    Renamed s' =
        (present (lookup old_name s.scripts) ≡ true)
        × (lookup new_name s.scripts ≡ none)
        × (lookup i s'.scripts ≡ (
            if equal new_name i
            then lookup old_name s.scripts
            else if equal old_name i
            then none
            else lookup i s.scripts))
        × (s'.active ≡ (if equal s.active old_name then new_name else s.active))

    absent : (o : Option Bytes) → present o ≡ false → o ≡ none
    absent none h = refl
    absent (some v) h = cc

    renames : IfOk Renamed (rename_script old_name new_name s)
    renames =
        unfold rename_script in
        IfOk-unless Renamed (validate_script_name old_name false) _ λ _.
          IfOk-unless Renamed (validate_script_name new_name false) _ λ _.
            IfOk-find Renamed (lookup old_name s.scripts) _ λ v e.
              IfOk-refuse Renamed (present (lookup new_name s.scripts)) _ _ λ new. (
                rw e refl,
                absent (lookup new_name s.scripts) new,
                rw e (
                    rw (lookup-insert_if i new_name v (delete old_name s.scripts))
                      (rw (lookup-delete_if i old_name s.scripts) refl)),
                refl,
              )

-- After a DeleteScript that succeeds, the name was not the active one and had a script, it has none now, every
-- other name has what it had, and the active name is the same.
pub delete_script-lookup :
    (name : Bytes) (s s' : MemorySession) (i : Bytes)
    → delete_script name s ≡ ok s'
    → (equal name s.active ≡ false)
      × (present (lookup name s.scripts) ≡ true)
      × (lookup i s'.scripts ≡ (if equal name i then none else lookup i s.scripts))
      × (s'.active ≡ s.active)
delete_script-lookup name s s' i e = IfOk-ok Deleted _ deletes e
  where
    Deleted : MemorySession → Type 0
    Deleted s' =
        (equal name s.active ≡ false)
        × (present (lookup name s.scripts) ≡ true)
        × (lookup i s'.scripts ≡ (if equal name i then none else lookup i s.scripts))
        × (s'.active ≡ s.active)

    deletes : IfOk Deleted (delete_script name s)
    deletes =
        unfold delete_script in
        IfOk-unless Deleted (validate_script_name name false) _ λ _.
          IfOk-refuse Deleted (equal name s.active) _ _ λ other.
            IfOk-find Deleted (lookup name s.scripts) _
              λ v e. (other, rw e refl, lookup-delete_if i name s.scripts, refl)

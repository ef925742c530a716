-- ===== src/Managesieve/MemoryStorage.antt =====
-- managesieve/server/memory.go: `MemorySession` as the storage of a connection, with the status of each
-- error.
use go_sieve.Managesieve.Conn.{ConnError, reply, Storage}
use go_sieve.Managesieve.Memory.{
  MemorySession, Refusal, empty_name, invalid_name, name_too_long, invalid_utf8, no_such_script,
  script_active, target_exists, script_too_large, too_many_scripts, invalid_size, load_failed,
  list_scripts, get_script, put_script, check_script, set_active, delete_script, rename_script,
  have_space,
}
use go_sieve.Managesieve.Reply.{status}
use go_sieve.Managesieve.Status.{status_no}
use go_sieve.Prelude.{Bytes, codes, Result, ok, err, out_of_fuel}

-- `&managesieve.Error` with a code.
abbrev coded : Bytes → Bytes → ConnError
coded code text = reply (record (status status_no text) { code = code })

unfoldable pub reply_of : Refusal → ConnError
reply_of empty_name = reply (status status_no (codes "Script name must not be empty"))
reply_of invalid_name = reply (status status_no (codes "Invalid script name"))
reply_of name_too_long = reply (status status_no (codes "Script name too long"))
reply_of invalid_utf8 = reply (status status_no (codes "Invalid UTF-8 in script name"))
reply_of no_such_script = coded (codes "NONEXISTENT") (codes "No such script")
reply_of script_active = coded (codes "ACTIVE") (codes "Script is active")
reply_of target_exists = coded (codes "ALREADYEXISTS") (codes "Target exists")
reply_of script_too_large = coded (codes "QUOTA/MAXSIZE") (codes "Script is too large")
reply_of too_many_scripts = coded (codes "QUOTA/MAXSCRIPTS") (codes "Too many scripts")
reply_of invalid_size = reply (status status_no (codes "Invalid size"))
reply_of (load_failed text) = reply (status status_no text)

abbrev pub replied : {A : Type 0} → Result Refusal A → Result ConnError A
replied (ok a) = ok a
replied (err x) = err (reply_of x)
replied out_of_fuel = out_of_fuel

-- The session behind an operation that may change it.
abbrev pub changed :
    MemorySession → Result Refusal MemorySession → Result ConnError Unit × MemorySession
changed s (ok s') = (ok tt, s')
changed s (err x) = (err (reply_of x), s)
changed s out_of_fuel = (out_of_fuel, s)

unfoldable pub memory_storage : Storage MemorySession
memory_storage = record {
  list_scripts = λ s. ok (list_scripts s);
  get_script = λ name s. replied (get_script name s);
  put_script = λ name script s. changed s (put_script name script s);
  check_script = λ script s. replied (check_script script s);
  set_active = λ name s. changed s (set_active name s);
  delete_script = λ name s. changed s (delete_script name s);
  rename_script = λ old_name new_name s. changed s (rename_script old_name new_name s);
  have_space = λ name size s. replied (have_space name size s);
}

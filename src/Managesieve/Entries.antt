-- ===== src/Managesieve/Entries.antt =====
-- On managesieve/server/memory.go: the number of scripts and the active one, as the map changes.
use go_sieve.Managesieve.Memory.{present}
use go_sieve.Prelude.{
  ◌≤◌, ℕ, ◌≡◌, refl, ◌⊎◌, inl, inr, true, false, not, ◌&&◌, [], some, arith, Bytes, equal,
  equal_iff, length, if◌then◌else◌, ltb, leb, StringMap, lookup, insert, delete, lookup-insert,
  lookup-insert_other, lookup-delete_other, length-insert, length-insert_old, length-delete,
  length-delete_old, Bool-cases, Option-cases,
}

-- At most the limit, or the limit is 0.
abbrev pub AtMost : ℕ → ℕ → Type 0
AtMost limit n = (limit ≡ 0) ⊎ (n ≤ limit)

pub count-insert :
    (limit : ℕ) (k v : Bytes) (m : StringMap)
    → (not (present (lookup k m)) && (ltb 0 limit && leb limit (length m))) ≡ false
    → AtMost limit (length m)
    → AtMost limit (length (insert k v m))
count-insert limit k v m room h = elim (Option-cases (lookup k m)) [
  | inl absent ↦ ground (arith, length-insert k v m, h)
  | inr (w, old) ↦ ground (arith, length-insert_old k v w m old, h)
]

pub count-delete :
    (limit : ℕ) (k : Bytes) (m : StringMap)
    → AtMost limit (length m)
    → AtMost limit (length (delete k m))
count-delete limit k m h = ground (arith, length-delete k m, h)

-- The active script's name is empty, or it stands in the map.
abbrev pub ActiveIn : Bytes → StringMap → Type 0
ActiveIn a m = (a ≡ []) ⊎ (present (lookup a m) ≡ true)

pub active-insert : (a k v : Bytes) (m : StringMap) → ActiveIn a m → ActiveIn a (insert k v m)
active-insert a k v m (inl e) = inl e
active-insert a k v m (inr e) = inr (elim (Bool-cases (equal k a)) [
  | inl same ↦ ground (arith, equal_iff k a, lookup-insert k v m, same)
  | inr other ↦ rw (lookup-insert_other a k v m other) e
])

pub active-delete :
    (a k : Bytes) (m : StringMap) → equal k a ≡ false → ActiveIn a m → ActiveIn a (delete k m)
active-delete a k m h (inl e) = inl e
active-delete a k m h (inr e) = inr (rw (lookup-delete_other a k m h) e)

pub count-rename :
    (limit : ℕ) (j k v : Bytes) (m : StringMap)
    → lookup j m ≡ some v
    → AtMost limit (length m)
    → AtMost limit (length (insert k v (delete j m)))
count-rename limit j k v m e h =
    ground (arith, length-insert k v (delete j m), length-delete_old j v m e, h)

pub active-rename :
    (a j k v : Bytes) (m : StringMap)
    → ActiveIn a m
    → ActiveIn (if equal a j then k else a) (insert k v (delete j m))
active-rename a j k v m h = elim (Bool-cases (equal a j)) [
  | inl same ↦ rw same (inr (rw (lookup-insert k v (delete j m)) refl))
  | inr other ↦ rw other (
      active-insert a k v (delete j m)
        (active-delete a j m (ground (arith, equal_iff a j, equal_iff j a, other)) h))
]

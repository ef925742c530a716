-- ===== src/Prelude/Maps.antt =====
-- Go maps from strings to strings, as association lists.
use Prim.Native.Nat.{suc, ◌≤◌, ◌<◌}
use mathlib.Core.Bool.{false}
use mathlib.Core.List.{List, [], ◌∷◌}
use mathlib.Core.Logic.{◌≢◌}
use mathlib.Core.Option.{Option, none, some}
use mathlib.Core.Path.{◌≡◌, refl}
use native.Mathlib.Omega.{arith}
use go_sieve.Prelude.Lists.{length, All}
use go_sieve.Prelude.Tests.{if◌then◌else◌, Bytes, equal, equal_iff, equal_refl}

abbrev pub StringMap : Type 0
StringMap = List (Bytes × Bytes)

unfoldable pub lookup : Bytes → StringMap → Option Bytes
lookup k [] = none
lookup k ((j, v) ∷ m) = if equal j k then some v else lookup k m

-- `m[k] = v`: in place of an entry with this key, or as a new one.
unfoldable pub insert : Bytes → Bytes → StringMap → StringMap
insert k v [] = (k, v) ∷ []
insert k v ((j, w) ∷ m) = if equal j k then (k, v) ∷ m else (j, w) ∷ insert k v m

-- `delete(m, k)`
unfoldable pub delete : Bytes → StringMap → StringMap
delete k [] = []
delete k ((j, v) ∷ m) = let rest = delete k m in if equal j k then rest else (j, v) ∷ rest

-- No key stands twice.
abbrev pub HasDistinctKeys : StringMap → Type 0
HasDistinctKeys [] = Unit
HasDistinctKeys ((k, v) ∷ m) = (lookup k m ≡ none) × HasDistinctKeys m

pub equal_ne : (j k : Bytes) → j ≢ k → equal j k ≡ false
equal_ne j k h = ground (arith, equal_iff j k)

pub lookup-insert : (k v : Bytes) (m : StringMap) → lookup k (insert k v m) ≡ some v
unfolding lookup insert
lookup-insert k v [] = rw (equal_refl k) refl
lookup-insert k v ((j, w) ∷ m) = ground (arith, equal_refl k, lookup-insert k v m)

pub lookup-insert_other :
    (i k v : Bytes) (m : StringMap) → equal k i ≡ false → lookup i (insert k v m) ≡ lookup i m
unfolding lookup insert
lookup-insert_other i k v [] h = rw h refl
lookup-insert_other i k v ((j, w) ∷ m) h =
    ground (arith, equal_iff j k, equal_iff j i, lookup-insert_other i k v m h)

pub lookup-delete : (k : Bytes) (m : StringMap) → lookup k (delete k m) ≡ none
unfolding lookup delete
lookup-delete k [] = refl
lookup-delete k ((j, v) ∷ m) = ground (arith, lookup-delete k m)

pub lookup-delete_other :
    (i k : Bytes) (m : StringMap) → equal k i ≡ false → lookup i (delete k m) ≡ lookup i m
unfolding lookup delete
lookup-delete_other i k [] h = refl
lookup-delete_other i k ((j, w) ∷ m) h =
    ground (arith, equal_iff j k, equal_iff j i, lookup-delete_other i k m h)

pub length-insert : (k v : Bytes) (m : StringMap) → length (insert k v m) ≤ suc (length m)
unfolding insert
length-insert k v [] = omega arith
length-insert k v ((j, w) ∷ m) = ground (arith, length-insert k v m)

pub length-insert_old :
    (k v w : Bytes) (m : StringMap) → lookup k m ≡ some w → length (insert k v m) ≡ length m
unfolding insert lookup
length-insert_old k v w [] h = cc
length-insert_old k v w ((j, x) ∷ m) h = ground (arith, length-insert_old k v w m)

pub length-delete : (k : Bytes) (m : StringMap) → length (delete k m) ≤ length m
unfolding delete
length-delete k [] = omega arith
length-delete k ((j, v) ∷ m) = ground (arith, length-delete k m)

pub length-delete_old :
    (k v : Bytes) (m : StringMap) → lookup k m ≡ some v → length (delete k m) < length m
unfolding delete lookup
length-delete_old k v [] h = cc
length-delete_old k v ((j, w) ∷ m) h = ground (arith, length-delete k m, length-delete_old k v m)

module _ (P : Bytes × Bytes → Type 0) where
  pub All-insert : (k v : Bytes) (m : StringMap) → P (k, v) → All P m → All P (insert k v m)
  unfolding insert
  All-insert k v [] h a = (h, tt)
  All-insert k v ((j, w) ∷ m) h a = ground (arith, All-insert k v m h a.1)

  pub All-delete : (k : Bytes) (m : StringMap) → All P m → All P (delete k m)
  unfolding delete
  All-delete k [] a = tt
  All-delete k ((j, w) ∷ m) a = ground (arith, All-delete k m a.1)

  -- An entry that is found, under its own key.
  pub All-lookup : (k v : Bytes) (m : StringMap) → All P m → lookup k m ≡ some v → P (k, v)
  unfolding lookup
  All-lookup k v [] a h = cc
  All-lookup k v ((j, w) ∷ m) a h = ground (arith, equal_iff j k, All-lookup k v m a.1)

pub HasDistinctKeys-insert :
    (k v : Bytes) (m : StringMap) → HasDistinctKeys m → HasDistinctKeys (insert k v m)
unfolding insert lookup
HasDistinctKeys-insert k v [] h = (refl, tt)
HasDistinctKeys-insert k v ((j, w) ∷ m) h = ground (
  arith,
  equal_iff j k,
  equal_iff k j,
  lookup-insert_other j k v m,
  HasDistinctKeys-insert k v m h.1,
)

pub HasDistinctKeys-delete :
    (k : Bytes) (m : StringMap) → HasDistinctKeys m → HasDistinctKeys (delete k m)
unfolding delete lookup
HasDistinctKeys-delete k [] h = tt
HasDistinctKeys-delete k ((j, w) ∷ m) h =
    ground (
      arith,
      equal_iff j k,
      equal_iff k j,
      lookup-delete_other j k m,
      HasDistinctKeys-delete k m h.1,
    )

-- ===== src/Interp/Flags.antt =====
-- interp/load_action.go, `canonicalFlags`.
use go_sieve.Interp.Text.{fields, member}
use go_sieve.Prelude.{StringMap, lookup}
use mathlib.Core.Path.{subst}
use go_sieve.Prelude.{
  false, List, [], ◌∷◌, ◌++◌, Option, none, some, ◌≡◌, arith, if◌then◌else◌, Bytes, map, All,
  All-concat,
}

-- The flag that an alias stands for, or the flag itself.
unfoldable pub unalias : StringMap → Bytes → Bytes
unalias aliases f = elim (lookup f aliases) [ none ↦ f | some fc ↦ fc ]

-- The body for one field `f`. The flags taken and the keys of `fm` are the same list.
unfoldable pub take_flag : List Bytes → StringMap → List Bytes → Bytes → List Bytes
take_flag removed aliases c f =
    if member f c
    then c
    else if member (unalias aliases f) removed
    then c
    else c ++ unalias aliases f ∷ []

-- The loop over the fields of one element of `src`.
unfoldable pub take_fields : List Bytes → StringMap → List Bytes → List Bytes → List Bytes
take_fields removed aliases c [] = c
take_fields removed aliases c (f ∷ fs) =
    take_fields removed aliases (take_flag removed aliases c f) fs

-- The loop over `src`. An empty element has no fields.
unfoldable pub take_flags : List Bytes → StringMap → List Bytes → List Bytes → List Bytes
take_flags removed aliases c [] = c
take_flags removed aliases c (fl ∷ src) =
    take_flags removed aliases (take_fields removed aliases c (fields fl)) src

-- `none` is the nil slice, for an empty `src`.
unfoldable pub canonical_flags : List Bytes → List Bytes → StringMap → Option (List Bytes)
canonical_flags [] remove aliases = none
canonical_flags (fl ∷ src) remove aliases =
    some (take_flags (map (unalias aliases) remove) aliases [] (fl ∷ src))

-- A predicate that a taken flag has, and that the body keeps.
module _ (P : List Bytes → Type 0) (removed : List Bytes) (aliases : StringMap) where
  module _ (keep : (c : List Bytes) (f : Bytes) → P c → P (take_flag removed aliases c f)) where
    take_fields-keeps : (fs c : List Bytes) → P c → P (take_fields removed aliases c fs)
    unfolding take_fields
    take_fields-keeps [] c h = h
    take_fields-keeps (f ∷ fs) c h =
        take_fields-keeps fs (take_flag removed aliases c f) (keep c f h)

    take_flags-keeps : (src c : List Bytes) → P c → P (take_flags removed aliases c src)
    unfolding take_flags
    take_flags-keeps [] c h = h
    take_flags-keeps (fl ∷ src) c h = take_flags-keeps src _ (take_fields-keeps (fields fl) c h)

abbrev pub IsFree : List Bytes → Bytes → Type 0
IsFree removed f = member f removed ≡ false

take_flag-IsFree :
    (removed : List Bytes) (aliases : StringMap) (c : List Bytes) (f : Bytes)
    → All (IsFree removed) c
    → All (IsFree removed) (take_flag removed aliases c f)
unfolding take_flag
take_flag-IsFree removed aliases c f h =
    ground (arith, All-concat (IsFree removed) c (unalias aliases f) h)

-- No flag of the result is one of those to remove, both read through the aliases.
pub canonical_flags-IsFree :
    (src remove : List Bytes) (aliases : StringMap) (c : List Bytes)
    → canonical_flags src remove aliases ≡ some c
    → All (IsFree (map (unalias aliases) remove)) c
unfolding canonical_flags
canonical_flags-IsFree [] remove aliases c e = cc
canonical_flags-IsFree (fl ∷ src) remove aliases c e =
    let removed = map (unalias aliases) remove in
    let all =
      take_flags-keeps (All (IsFree removed)) removed aliases (take_flag-IsFree removed aliases)
        (fl ∷ src) [] tt in
    subst (All (IsFree removed)) (cc) all

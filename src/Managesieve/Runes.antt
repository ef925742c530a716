-- ===== src/Managesieve/Runes.antt =====
-- Go's UTF-8: what `range` over a string yields, and `utf8.ValidString`.
use go_sieve.Prelude.{
  ℕ, zero, suc, ◌+◌, ◌-◌, ◌*◌, Bool, true, false, ◌&&◌, ◌||◌, List, [], ◌∷◌, Option, none, some,
  ltb, ◌==◌, if◌then◌else◌, within, Bytes,
}

abbrev continues : ℕ → Bool
continues b = within 128 191 b

-- A rune and its number of bytes, behind a leading byte.
abbrev two : ℕ → Bytes → Option (ℕ × ℕ)
two c (x ∷ r) = if continues x then some ((c - 192) * 64 + (x - 128), 2) else none
two c [] = none

abbrev three : ℕ → ℕ → ℕ → Bytes → Option (ℕ × ℕ)
three lo hi c (x ∷ y ∷ r) =
    if within lo hi x && continues y
    then some ((c - 224) * 4096 + (x - 128) * 64 + (y - 128), 3)
    else none
three lo hi c _ = none

abbrev four : ℕ → ℕ → ℕ → Bytes → Option (ℕ × ℕ)
four lo hi c (x ∷ y ∷ z ∷ r) =
    if within lo hi x && continues y && continues z
    then some ((c - 240) * 262144 + (x - 128) * 4096 + (y - 128) * 64 + (z - 128), 4)
    else none
four lo hi c _ = none

-- The rune at the front of `c ∷ r`, if its encoding is valid.
unfoldable pub decode_rune : ℕ → Bytes → Option (ℕ × ℕ)
decode_rune c r =
    if ltb c 128
    then some (c, 1)
    else if within 194 223 c
    then two c r
    else if c == 224
    then three 160 191 c r
    else if c == 237
    then three 128 159 c r
    else if within 225 239 c
    then three 128 191 c r
    else if c == 240
    then four 144 191 c r
    else if within 241 243 c
    then four 128 191 c r
    else if c == 244
    then four 128 143 c r
    else none

-- The rune that stands for an invalid byte.
abbrev pub rune_error : ℕ
rune_error = 65533

-- The runes of a string, with whether each is valid; `skip` bytes belong to the rune before.
unfoldable pub runes_from : ℕ → Bytes → List (ℕ × Bool)
runes_from skip [] = []
runes_from (suc skip) (c ∷ r) = runes_from skip r
runes_from zero (c ∷ r) = elim (decode_rune c r) [
  | none ↦ (rune_error, false) ∷ runes_from 0 r
  | some (rune, width) ↦ (rune, true) ∷ runes_from (width - 1) r
]

unfoldable pub runes : Bytes → List (ℕ × Bool)
runes s = runes_from 0 s

-- What `WriteRune` writes for the runes that `range` over a string yields, bytes of a valid rune as they are;
-- `skip` bytes belong to the rune before.
unfoldable pub rewritten_from : ℕ → Bytes → Bytes
rewritten_from skip [] = []
rewritten_from (suc skip) (c ∷ r) = c ∷ rewritten_from skip r
rewritten_from zero (c ∷ r) = elim (decode_rune c r) [
  | none ↦ 239 ∷ 191 ∷ 189 ∷ rewritten_from 0 r
  | some (rune, width) ↦ c ∷ rewritten_from (width - 1) r
]

unfoldable pub rewritten : Bytes → Bytes
rewritten s = rewritten_from 0 s

-- `unicode.IsControl`
unfoldable pub is_control : ℕ → Bool
is_control rune = within 0 31 rune || within 127 159 rune

unfoldable pub no_control : List (ℕ × Bool) → Bool
no_control [] = true
no_control ((rune, valid) ∷ l) = if is_control rune then false else no_control l

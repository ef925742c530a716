-- ===== src/Interp/Text.antt =====
-- The routines of Go's `strings` that interp/ calls, on ASCII text.
use go_sieve.Prelude.{
  ℕ, zero, suc, ◌+◌, Bool, true, false, ◌||◌, ◌&&◌, List, [], ◌∷◌, ◌++◌, ◌==◌, if◌then◌else◌,
  within, Bytes, equal, Option, none, some,
}

abbrev pub is_space : ℕ → Bool
is_space b = within 9 13 b || b == 32

-- A word that has been read, if it is not empty.
abbrev pub word : Bytes → List Bytes → List Bytes
word [] ws = ws
word (b ∷ w) ws = (b ∷ w) ∷ ws

-- `strings.Fields`, `w` being the word so far.
unfoldable pub fields_from : Bytes → Bytes → List Bytes
fields_from w [] = word w []
fields_from w (b ∷ s) =
    if is_space b then word w (fields_from [] s) else fields_from (w ++ b ∷ []) s

unfoldable pub fields : Bytes → List Bytes
fields s = fields_from [] s

unfoldable pub member : Bytes → List Bytes → Bool
member s [] = false
member s (t ∷ l) = equal t s || member s l

-- `strings.ToLower`, on one byte.
unfoldable pub lower_byte : ℕ → ℕ
lower_byte b = if within 65 90 b then b + 32 else b

-- `strings.ToLower` on ASCII.
unfoldable pub to_lower : Bytes → Bytes
to_lower [] = []
to_lower (b ∷ s) = lower_byte b ∷ to_lower s

-- `strings.Cut` at a byte.
unfoldable pub cut : ℕ → Bytes → Option (Bytes × Bytes)
cut c [] = none
cut c (b ∷ s) =
    if b == c then some ([], s) else elim (cut c s) [ none ↦ none | some p ↦ some (b ∷ p.0, p.1) ]

-- `strings.ReplaceAll` of a byte by a byte.
unfoldable pub replace_byte : ℕ → ℕ → Bytes → Bytes
replace_byte old new [] = []
replace_byte old new (b ∷ s) = (if b == old then new else b) ∷ replace_byte old new s

-- `strings.Join`
unfoldable pub join : Bytes → List Bytes → Bytes
join sep [] = []
join sep (s ∷ []) = s
join sep (s ∷ t ∷ l) = s ++ sep ++ join sep (t ∷ l)

-- `strings.HasPrefix`
unfoldable pub has_prefix : Bytes → Bytes → Bool
has_prefix s [] = true
has_prefix [] (c ∷ p) = false
has_prefix (b ∷ s) (c ∷ p) = b == c && has_prefix s p

-- `s[:n]`, for an `n` up to the length.
unfoldable pub take : ℕ → Bytes → Bytes
take zero s = []
take (suc n) [] = []
take (suc n) (b ∷ s) = b ∷ take n s

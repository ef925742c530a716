-- ===== src/Interp/Quoted.antt =====
-- On interp/match.go and interp/value_modifiers.go: a value that is quoted and then used as a pattern.
use go_sieve.Interp.Address.{has_byte}
use go_sieve.Interp.Pattern.{
  is_wild, escaped_byte, pattern_byte, pattern_from, pattern_to_regex, quote_wild,
  mod_quote_wildcard,
}
use go_sieve.Managesieve.Runes.{decode_rune, rewritten_from, rewritten}
use go_sieve.Prelude.{
  ℕ, suc, ◌≤◌, ◌<◌, ◌-◌, ◌≡◌, refl, ap, ◌∙◌, ◌==◌, Bool, true, false, [], ◌∷◌, ◌++◌, some, Bytes,
  codes, length, All, if◌then◌else◌, arith, ltb,
}

-- The bytes that have a meaning of their own in the syntax of Go's regular expressions, as `regexp.QuoteMeta` lists them.
abbrev pub special_bytes : Bytes
special_bytes = codes "\\.+*?()|[]{}^$"

-- A regular expression that matches this text alone, up to the end: each special byte stands behind a backslash.
unfoldable pub literal_regex : Bytes → Bytes
literal_regex [] = codes "$"
literal_regex (c ∷ s) =
    (if has_byte c special_bytes then 92 ∷ c ∷ [] else c ∷ []) ++ literal_regex s

-- Valid UTF-8: bytes of ASCII, and characters of several bytes that Go decodes, whatever follows.
pub data IsText : Bytes → Type 0 where
  no_text : IsText []
  ascii : (c : ℕ) (s : Bytes) → c < 128 → IsText s → IsText (c ∷ s)
  beyond :
      (c rune : ℕ) (p s : Bytes)
      → 128 ≤ c
      → All (λ b. 128 ≤ b) p
      → ((r : Bytes) → decode_rune c (p ++ r) ≡ some (rune, suc (length p)))
      → IsText s
      → IsText (c ∷ (p ++ s))

rewritten_from-skip : (p s : Bytes) → rewritten_from (length p) (p ++ s) ≡ p ++ rewritten_from 0 s
unfolding rewritten_from
rewritten_from-skip [] s = refl
rewritten_from-skip (b ∷ p) s = ap (λ t. b ∷ t) (rewritten_from-skip p s)

decode_rune-ascii : (c : ℕ) (s : Bytes) → c < 128 → decode_rune c s ≡ some (c, 1)
unfolding decode_rune
decode_rune-ascii c s h = let e : ltb c 128 ≡ true = ground arith in rw e refl

rewritten_from-ascii :
    (c : ℕ) (s : Bytes) → c < 128 → rewritten_from 0 (c ∷ s) ≡ c ∷ rewritten_from 0 s
unfolding rewritten_from
rewritten_from-ascii c s h = rw (decode_rune-ascii c s h, rewritten_from) refl

rewritten_from-beyond :
    (c rune : ℕ) (p s : Bytes)
    → decode_rune c (p ++ s) ≡ some (rune, suc (length p))
    → rewritten_from 0 (c ∷ (p ++ s)) ≡ c ∷ (p ++ rewritten_from 0 s)
unfolding rewritten_from
rewritten_from-beyond c rune p s e =
    let m : suc (length p) - 1 ≡ length p = omega arith in
    rw (e, rewritten_from) (rw m (ap (λ t. c ∷ t) (rewritten_from-skip p s)))

rewritten_from-IsText : (s : Bytes) → IsText s → rewritten_from 0 s ≡ s
unfolding rewritten_from
rewritten_from-IsText _ no_text = refl
rewritten_from-IsText _ (ascii c s h k) =
    rewritten_from-ascii c s h ∙ ap (λ t. c ∷ t) (rewritten_from-IsText s k)
rewritten_from-IsText _ (beyond c rune p s h hs d k) =
    rewritten_from-beyond c rune p s (d s) ∙ ap (λ t. c ∷ (p ++ t)) (rewritten_from-IsText s k)

-- No byte beyond ASCII is quoted.
is_wild-beyond : (c : ℕ) → 128 ≤ c → is_wild c ≡ false
unfolding has_byte
is_wild-beyond c h = ground arith

quote_wild-beyond : (p s : Bytes) → All (λ b. 128 ≤ b) p → quote_wild (p ++ s) ≡ p ++ quote_wild s
unfolding quote_wild
quote_wild-beyond [] s h = refl
quote_wild-beyond (b ∷ p) s (h, hs) =
    rw (is_wild-beyond b h) (ap (λ t. b ∷ t) (quote_wild-beyond p s hs))

-- The quoted text is valid UTF-8, too.
rewritten_from-quote :
    (b : Bool) (c : ℕ) (q : Bytes)
    → c < 128
    → rewritten_from 0 q ≡ q
    → rewritten_from 0 (if b then 92 ∷ c ∷ q else c ∷ q) ≡ (if b then 92 ∷ c ∷ q else c ∷ q)
rewritten_from-quote true c q h e =
    rewritten_from-ascii 92 (c ∷ q) (omega arith)
    ∙ ap (λ t. 92 ∷ t) (rewritten_from-ascii c q h ∙ ap (λ t. c ∷ t) e)
rewritten_from-quote false c q h e = rewritten_from-ascii c q h ∙ ap (λ t. c ∷ t) e

rewritten_from-quote_wild : (s : Bytes) → IsText s → rewritten_from 0 (quote_wild s) ≡ quote_wild s
unfolding rewritten_from quote_wild
rewritten_from-quote_wild _ no_text = refl
rewritten_from-quote_wild _ (ascii c s h k) =
    rewritten_from-quote (is_wild c) c (quote_wild s) h (rewritten_from-quote_wild s k)
rewritten_from-quote_wild _ (beyond c rune p s h hs d k) =
    let e : quote_wild (c ∷ (p ++ s)) ≡ c ∷ (p ++ quote_wild s) =
      quote_wild-beyond (c ∷ p) s (h, hs) in
    rw e (
      rewritten_from-beyond c rune p (quote_wild s) (d (quote_wild s))
      ∙ ap (λ t. c ∷ (p ++ t)) (rewritten_from-quote_wild s k))

-- What the pattern's loop writes for a byte is what stands for it in the expression of the text.
escaped_byte-special :
    (c : ℕ) → escaped_byte c ≡ (if has_byte c special_bytes then 92 ∷ c ∷ [] else c ∷ [])
unfolding has_byte
escaped_byte-special c = ground arith

pattern_byte-escaped_byte : (c : ℕ) → is_wild c ≡ false → pattern_byte c ≡ escaped_byte c
unfolding has_byte
pattern_byte-escaped_byte c h = ground arith

wild-backslash : (c : ℕ) → is_wild c ≡ false → (c == 92) ≡ false
unfolding has_byte
wild-backslash c h = ground arith

quote_step :
    (b : Bool) (c : ℕ) (q : Bytes)
    → is_wild c ≡ b
    → pattern_from false (if b then 92 ∷ c ∷ q else c ∷ q) ≡ escaped_byte c ++ pattern_from false q
unfolding pattern_from
quote_step true c q h = refl
quote_step false c q h =
    rw (wild-backslash c h) (ap (λ p. p ++ pattern_from false q) (pattern_byte-escaped_byte c h))

pattern_from-quote_wild : (s : Bytes) → pattern_from false (quote_wild s) ≡ literal_regex s
unfolding pattern_from quote_wild literal_regex
pattern_from-quote_wild [] = refl
pattern_from-quote_wild (c ∷ s) =
    quote_step (is_wild c) c (quote_wild s) refl
    ∙ ap (λ r. escaped_byte c ++ r) (pattern_from-quote_wild s)
    ∙ ap (λ e. e ++ literal_regex s) (escaped_byte-special c)

-- The pattern that `:quotewildcard` makes of a text in valid UTF-8 is compiled to the regular expression of the text
-- itself, from its start to its end, with a backslash in front of every byte that is special in Go's syntax: it has
-- no wildcard.
pub pattern_to_regex-mod_quote_wildcard :
    (s : Bytes) (case_fold : Bool)
    → IsText s
    → pattern_to_regex (mod_quote_wildcard s) case_fold
      ≡ (if case_fold then codes "(?i)" else []) ++ 94 ∷ literal_regex s
unfolding pattern_to_regex mod_quote_wildcard rewritten
pattern_to_regex-mod_quote_wildcard s case_fold h = rw (rewritten_from-IsText s h) (
    rw (rewritten_from-quote_wild s h)
      (ap (λ r. (if case_fold then codes "(?i)" else []) ++ 94 ∷ r) (pattern_from-quote_wild s)))

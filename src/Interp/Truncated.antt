-- ===== src/Interp/Truncated.antt =====
-- On interp/runtime.go, `SetVar`: the value that is cut to the limit.
use go_sieve.Interp.Text.{take}
use go_sieve.Interp.Variables.{is_continuation, continues_at, back_off, truncate}
use go_sieve.Prelude.{
  ℕ, zero, suc, ◌≤◌, ◌≡◌, refl, ap, sym, ◌∙◌, ◌⊎◌, inl, inr, Bool, true, false, [], ◌∷◌, ◌++◌,
  Bytes, arith, length, ltb, append-nil, if◌then◌else◌,
}

-- Whether the bytes start within a character.
unfoldable pub starts_within : Bytes → Bool
starts_within [] = false
starts_within (b ∷ s) = is_continuation b

take-append :
    (n : ℕ) (s : Bytes)
    → (rest : Bytes) × (s ≡ take n s ++ rest) × (continues_at s n ≡ starts_within rest)
unfolding take continues_at starts_within
take-append zero [] = ([], refl, refl)
take-append zero (b ∷ s) = (b ∷ s, refl, refl)
take-append (suc n) [] = ([], refl, refl)
take-append (suc n) (b ∷ s) = let (rest, e, f) = take-append n s in (rest, ap (λ t. b ∷ t) e, f)

length-take : (n : ℕ) (s : Bytes) → length (take n s) ≤ n
unfolding take
length-take zero s = omega arith
length-take (suc n) [] = omega arith
length-take (suc n) (b ∷ s) = omega (arith, length-take n s)

back_off_le : (value : Bytes) (n : ℕ) → back_off value n ≤ n
unfolding back_off
back_off_le value zero = omega arith
back_off_le value (suc n) = ground (arith, back_off_le value n)

back_off-continues_at :
    (value : Bytes) (n : ℕ)
    → (back_off value n ≡ zero) ⊎ (continues_at value (back_off value n) ≡ false)
unfolding back_off
back_off-continues_at value zero = inl refl
back_off-continues_at value (suc n) = ground (arith, back_off-continues_at value n)

take-zero : (n : ℕ) (s : Bytes) → n ≡ zero → take n s ≡ []
unfolding take
take-zero zero s e = refl
take-zero (suc n) s e = ground arith

-- A start of the value, within the limit, that ends where a character ends.
abbrev IsCut : ℕ → Bytes → Bytes → Type 0
IsCut most value t =
    (length t ≤ most)
    × ((rest : Bytes) × (value ≡ t ++ rest) × ((t ≡ []) ⊎ (starts_within rest ≡ false)))

take-IsCut :
    (most n : ℕ) (value : Bytes)
    → n ≤ most
    → (n ≡ zero) ⊎ (continues_at value n ≡ false)
    → IsCut most value (take n value)
take-IsCut most n value h k =
    let (rest, e, f) = take-append n value in
    (
      omega (arith, length-take n value),
      (rest, e, elim k [ inl z ↦ inl (take-zero n value z) | inr c ↦ inr (sym f ∙ c) ]),
    )

truncated-IsCut :
    (most : ℕ) (value : Bytes) (b : Bool)
    → ltb most (length value) ≡ b
    → IsCut most value (if b then take (back_off value most) value else value)
unfolding starts_within
truncated-IsCut most value true h =
    take-IsCut most (back_off value most) value (back_off_le value most)
      (back_off-continues_at value most)
truncated-IsCut most value false h = (ground arith, ([], sym (append-nil value), inr refl))

-- A value that is cut is no longer than the limit, and is the start of the value; unless nothing is left of
-- it, the bytes that are cut off do not start within a character of UTF-8.
pub truncate-append :
    (most : ℕ) (value : Bytes)
    → (length (truncate most value) ≤ most)
      × ((rest : Bytes) × (value ≡ truncate most value ++ rest)
          × ((truncate most value ≡ []) ⊎ (starts_within rest ≡ false)))
unfolding truncate
truncate-append most value = truncated-IsCut most value (ltb most (length value)) refl

-- ===== src/Lexer/Words.antt =====
-- On lexer/lex.go at identifiers, numbers and quoted strings that lexer/write.go has written.
use go_sieve.Lexer.Scan.{
  Scanned, advance, is_identifier_byte, all_identifier_bytes, scan_identifier, quantifier_of,
  is_digit, decimal, max_int, scan_digits, scan_number,
}
use go_sieve.Lexer.Token.{Position, Quantifier, no_quantifier, kilo, mega, giga}
use go_sieve.Lexer.Write.{digits_onto, decimal_digits, quantifier_byte}
use mathlib.Core.Path.{subst}
use go_sieve.Prelude.{
  ℕ, zero, suc, ◌+◌, ◌/◌, ◌%◌, ◌≤◌, ◌<◌, ◌≡◌, refl, ap, ◌∙◌, inl, inr, true, [], ◌∷◌, ◌++◌,
  append-nil, append_assoc, none, ltb, Bool-cases, arith, Bytes, length, ok,
}

-- The scan returns `a`, leaves `rest`, and stays in the file.
abbrev pub Scans : {A : Type 0} → Position → Scanned A → A → Bytes → Type 0
Scans p r a rest = (p' : Position) × (p'.file ≡ p.file) × (r ≡ ok (a, rest, p'))

-- A byte that ends an identifier and a number.
abbrev sp : ℕ
sp = 32

pub scan_identifier-append :
    (n id rest : Bytes) (p : Position)
    → all_identifier_bytes n ≡ true
    → Scans p (scan_identifier id (n ++ b' ' ∷ rest) p) (id ++ n) (b' ' ∷ rest)
unfolding scan_identifier all_identifier_bytes
scan_identifier-append [] id rest p h = (p, refl, rw append-nil)
scan_identifier-append (b ∷ n) id rest p h =
    let (byte, more) = both in
    let (p', file, e) = scan_identifier-append n (id ++ b ∷ []) rest (advance p) more in
    (p', file, rw byte (e ∙ rw append_assoc))
  where
    both : (is_identifier_byte b ≡ true) × (all_identifier_bytes n ≡ true)
    both = ground arith

-- Digits only.
abbrev pub AllDigits : Bytes → Type 0
AllDigits [] = Unit
AllDigits (b ∷ s) = (is_digit b ≡ true) × AllDigits s

digits_onto-AllDigits : (f n : ℕ) (acc : Bytes) → AllDigits acc → AllDigits (digits_onto f n acc)
unfolding digits_onto is_digit
digits_onto-AllDigits zero n acc h = h
digits_onto-AllDigits (suc f) n acc h =
    ground (arith, digits_onto-AllDigits f (n / 10) ((b'0' + n % 10) ∷ acc))

digits_onto-decimal :
    (f n : ℕ) (acc : Bytes) → n < f → decimal 0 (digits_onto f n acc) ≡ decimal n acc
unfolding digits_onto decimal
digits_onto-decimal zero n acc h = absurd (omega arith)
digits_onto-decimal (suc f) n acc h = elim (Bool-cases (ltb n 10)) [
  | inl small ↦ rw small (ap (λ m. decimal m acc) (omega arith))
  | inr big ↦ rw big (
      digits_onto-decimal f (n / 10) ((b'0' + n % 10) ∷ acc) (ground arith)
      ∙ ap (λ m. decimal m acc) (omega arith))
]

length-digits_onto : (f n : ℕ) (acc : Bytes) → length acc ≤ length (digits_onto f n acc)
unfolding digits_onto
length-digits_onto zero n acc = omega arith
length-digits_onto (suc f) n acc =
    ground (arith, length-digits_onto f (n / 10) ((b'0' + n % 10) ∷ acc))

-- The digits of a number: a first one, and others.
pub record IsDecimal (n : ℕ) (s : Bytes) : Type 0 where
  pub first : ℕ
  pub others : Bytes
  pub splits : s ≡ first ∷ others
  pub first_digit : is_digit first ≡ true
  pub other_digits : AllDigits others
  pub value : decimal 0 s ≡ n

IsDecimal-cons : (n : ℕ) (s : Bytes) → AllDigits s → decimal 0 s ≡ n → 0 < length s → IsDecimal n s
IsDecimal-cons n [] h e l = absurd (omega arith)
IsDecimal-cons n (b ∷ s) h e l = record {
  first = b;
  others = s;
  splits = refl;
  first_digit = h.0;
  other_digits = h.1;
  value = e;
}

pub decimal_digits-IsDecimal : (n : ℕ) → IsDecimal n (decimal_digits n)
unfolding decimal_digits decimal
decimal_digits-IsDecimal n =
    IsDecimal-cons n (digits_onto (suc n) n []) (digits_onto-AllDigits (suc n) n [] tt)
      (digits_onto-decimal (suc n) n [] (omega arith)) (nonempty n)
  where
    nonempty : (n : ℕ) → 0 < length (digits_onto (suc n) n [])
    nonempty n =
        unfold digits_onto in ground (arith, length-digits_onto n (n / 10) ((b'0' + n % 10) ∷ []))

quantifier_of-digit : (b : ℕ) → is_digit b ≡ true → quantifier_of b ≡ none
unfolding quantifier_of is_digit
quantifier_of-digit b h = ground arith

-- What the scan of digits returns.
abbrev ScansDigits :
    Position → (Bytes × Quantifier) × Bytes × Position → Bytes → Quantifier → Bytes → Type 0
ScansDigits p r num q rest = (p' : Position) × (p'.file ≡ p.file) × (r ≡ ((num, q), rest, p'))

scan_digits-end :
    (num : Bytes) (q : Quantifier) (rest : Bytes) (p : Position)
    → ScansDigits p (scan_digits num (quantifier_byte q ++ b' ' ∷ rest) p) num q (b' ' ∷ rest)
unfolding scan_digits quantifier_of is_digit
scan_digits-end num no_quantifier rest p = (p, refl, refl)
scan_digits-end num kilo rest p = (advance p, refl, refl)
scan_digits-end num mega rest p = (advance p, refl, refl)
scan_digits-end num giga rest p = (advance p, refl, refl)

scan_digits-append :
    (d num : Bytes) (q : Quantifier) (rest : Bytes) (p : Position)
    → AllDigits d
    → ScansDigits p
        (scan_digits num (d ++ (quantifier_byte q ++ b' ' ∷ rest)) p)
        (num ++ d)
        q
        (b' ' ∷ rest)
unfolding scan_digits
scan_digits-append [] num q rest p h = rw append-nil (scan_digits-end num q rest p)
scan_digits-append (b ∷ d) num q rest p h =
    let (p', file, e) = scan_digits-append d (num ++ b ∷ []) q rest (advance p) h.1 in
    (p', file, rw (quantifier_of-digit b h.0, scan_digits) (rw h.0 (e ∙ rw append_assoc)))

-- A written number scans back from behind its first digit.
pub scan_number-append :
    (n : ℕ) (q : Quantifier) (rest : Bytes) (p : Position) (d : IsDecimal n (decimal_digits n))
    → n ≤ max_int
    → Scans p
        (scan_number (d.first ∷ []) (d.others ++ (quantifier_byte q ++ b' ' ∷ rest)) p)
        (n, q)
        (b' ' ∷ rest)
unfolding scan_number
scan_number-append n q rest p d h =
    let (p', file, e) = scan_digits-append d.others (d.first ∷ []) q rest p d.other_digits in
    let value : decimal 0 (d.first ∷ d.others) ≡ n =
      subst (λ s. decimal 0 s ≡ n) d.splits d.value in
    (p', file, ground (arith, e, value))

-- ===== src/Interp/Split.antt =====
-- On interp/test_string.go: the parts of an address are the address.
use go_sieve.Interp.Address.{cut_last, filled, split, has_byte}
use go_sieve.Managesieve.Decode.{to_upper}
use go_sieve.Prelude.{
  ℕ, ◌≡◌, refl, inl, inr, false, [], ◌∷◌, ◌++◌, none, some, Bytes, codes, equal, arith,
  Option-cases,
}

cut_last-none : (c : ℕ) (s : Bytes) → cut_last c s ≡ none → has_byte c s ≡ false
unfolding cut_last has_byte
cut_last-none c [] h = refl
cut_last-none c (b ∷ s) h = ground (arith, cut_last-none c s)

cut_last-append :
    (c : ℕ) (s left right : Bytes)
    → cut_last c s ≡ some (left, right)
    → (s ≡ left ++ c ∷ right) × (has_byte c right ≡ false)
unfolding cut_last
cut_last-append c [] left right h = cc
cut_last-append c (b ∷ s) left right h = elim (Option-cases (cut_last c s)) [
  | inl e ↦ ground (arith, cut_last-none c s)
  | inr (p, e) ↦
      let (f, g) = cut_last-append c s p.0 p.1 e in (ground (arith, f), ground (arith, g))
]

filled-some :
    (l r mailbox domain : Bytes)
    → filled l r ≡ some (mailbox, domain)
    → (l ≡ mailbox) × (r ≡ domain)
filled-some [] r mailbox domain h = cc
filled-some (b ∷ l) [] mailbox domain h = cc
filled-some (b ∷ l) (c ∷ r) mailbox domain h = (cc, cc)

-- The parts of an address, unless it is `postmaster` in any case, are the address around its last at-sign, and
-- there is none in the domain.
pub split-append :
    (addr mailbox domain : Bytes)
    → equal (to_upper addr) (codes "POSTMASTER") ≡ false
    → split addr ≡ some (mailbox, domain)
    → (addr ≡ mailbox ++ 64 ∷ domain) × (has_byte 64 domain ≡ false)
unfolding split
split-append addr mailbox domain h e = elim (Option-cases (cut_last 64 addr)) [
  | inl f ↦ ground (arith, f, h)
  | inr (p, f) ↦
      let (same, free) = cut_last-append 64 addr p.0 p.1 f in
      let (x, y) = filled-some p.0 p.1 mailbox domain (ground (arith, f, h)) in (cc, cc)
]

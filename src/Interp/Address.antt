-- ===== src/Interp/Address.antt =====
-- interp/test_string.go: the parts of an address.
use go_sieve.Managesieve.Decode.{to_upper}
use go_sieve.Prelude.{
  ℕ, Bool, false, ◌||◌, [], ◌∷◌, Option, none, some, ◌==◌, if◌then◌else◌, Bytes, codes, equal,
}

-- Where the last byte of this kind stands: what is in front of it and behind it.
unfoldable pub cut_last : ℕ → Bytes → Option (Bytes × Bytes)
cut_last c [] = none
cut_last c (b ∷ s) = elim (cut_last c s) [
  | some p ↦ some (b ∷ p.0, p.1)
  | none ↦ if b == c then some ([], s) else none
]

-- No part of an address is empty.
abbrev pub filled : Bytes → Bytes → Option (Bytes × Bytes)
filled [] domain = none
filled (b ∷ mailbox) [] = none
filled (b ∷ mailbox) (c ∷ domain) = some (b ∷ mailbox, c ∷ domain)

-- `split`: the mailbox and the domain, and no domain for `postmaster` in any case.
unfoldable pub split : Bytes → Option (Bytes × Bytes)
split addr =
    if equal (to_upper addr) (codes "POSTMASTER")
    then some (addr, [])
    else elim (cut_last 64 addr) [ none ↦ none | some p ↦ filled p.0 p.1 ]

unfoldable pub has_byte : ℕ → Bytes → Bool
has_byte c [] = false
has_byte c (b ∷ s) = b == c || has_byte c s

-- The first byte that is one of those of `sep`, with what is in front of it and behind it.
unfoldable pub cut_any : Bytes → Bytes → Option (Bytes × Bytes)
cut_any sep [] = none
cut_any sep (b ∷ s) =
    if has_byte b sep
    then some ([], s)
    else elim (cut_any sep s) [ none ↦ none | some p ↦ some (b ∷ p.0, p.1) ]

abbrev split_sub_address_at : Bytes → Bytes → Bytes × Option Bytes
split_sub_address_at local sep = elim (cut_any sep local) [
  | none ↦ (local, none)
  | some p ↦ (p.0, some p.1)
]

-- `splitSubAddress`, for separators of ASCII: the user and the detail, if there is one.
unfoldable pub split_sub_address : Bytes → Bytes → Bytes × Option Bytes
split_sub_address local [] = split_sub_address_at local (codes "+")
split_sub_address local (b ∷ sep) = split_sub_address_at local (b ∷ sep)

pub data AddressPart : Type 0 where
  local_part domain_part all_part user_part detail_part : AddressPart

-- The value that `testAddress` compares, if there is one.
unfoldable pub part_of : Bytes → AddressPart → Bytes → Option Bytes
part_of sep all_part address = some address
part_of sep local_part address = elim (split address) [ none ↦ none | some p ↦ some p.0 ]
part_of sep domain_part address = elim (split address) [ none ↦ none | some p ↦ some p.1 ]
part_of sep user_part address = elim (split address) [
  | none ↦ none
  | some p ↦ some (split_sub_address p.0 sep).0
]
part_of sep detail_part address = elim (split address) [
  | none ↦ none
  | some p ↦ (split_sub_address p.0 sep).1
]

-- An empty address, `<>` among them, has no detail, and every other part of it is empty.
unfoldable pub compared_part : Bytes → AddressPart → Bytes → Option Bytes
compared_part sep part address =
    if equal address (codes "<>") || equal address []
    then elim part [
      | detail_part ↦ none
      | local_part ↦ some []
      | domain_part ↦ some []
      | all_part ↦ some []
      | user_part ↦ some []
    ]
    else part_of sep part address

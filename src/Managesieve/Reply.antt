-- ===== src/Managesieve/Reply.antt =====
-- managesieve/server/conn.go: the status lines and the lines of capabilities that the server encodes.
use go_sieve.Managesieve.Decode.{to_upper}
use go_sieve.Managesieve.Encode.{Encoder, new_encoder, atom, sp, string, crlf}
use go_sieve.Managesieve.Status.{
  StatusType, status_ok, status_no, status_bye, StatusResponse, CapabilityItem,
}
use go_sieve.Prelude.{
  Bool, false, not, ◌&&◌, ◌||◌, List, [], ◌∷◌, ◌++◌, Option, none, some, if◌then◌else◌, Bytes,
  codes, equal,
}

unfoldable pub type_name : StatusType → Bytes
type_name status_ok = codes "OK"
type_name status_no = codes "NO"
type_name status_bye = codes "BYE"

unfoldable pub encode_args : List Bytes → Encoder → Encoder
encode_args [] e = e
encode_args (arg ∷ args) e = encode_args args (string arg false (sp e))

unfoldable pub encode_code : Bytes → List Bytes → Encoder → Encoder
encode_code [] args e = e
encode_code (b ∷ code) args e =
    atom (codes ")") (encode_args args (atom (b ∷ code) (atom (codes "(") (sp e))))

unfoldable pub encode_text : Bytes → Encoder → Encoder
encode_text [] e = e
encode_text (b ∷ text) e = string (b ∷ text) false (sp e)

unfoldable pub encode_status : StatusResponse → Encoder
encode_status resp = crlf (
    encode_text resp.text
      (encode_code resp.code resp.code_args (atom (type_name resp.type) new_encoder)))

abbrev pub status : StatusType → Bytes → StatusResponse
status t text = record { type = t; code = []; code_args = []; text = text }

abbrev pub plain_ok : StatusResponse
plain_ok = status status_ok []

-- `strings.EqualFold` on ASCII text.
abbrev pub equal_fold : Bytes → Bytes → Bool
equal_fold a b = equal (to_upper a) (to_upper b)

-- `hasCapability`
unfoldable pub has_capability : List CapabilityItem → Bytes → Bool
has_capability [] want = false
has_capability (item ∷ items) want = equal_fold item.name want || has_capability items want

-- The items of the option, without those that the server sets.
unfoldable pub configured : List CapabilityItem → List CapabilityItem
configured [] = []
configured (item ∷ items) =
    let rest = configured items in
    if not (equal_fold item.name (codes "SASL")) && not (equal_fold item.name (codes "OWNER"))
    then item ∷ rest
    else rest

abbrev pub sasl_item : Bytes → Option CapabilityItem
sasl_item v = some (record { name = codes "SASL"; value = some v })

abbrev pub item : Bytes → Option Bytes → CapabilityItem
item name value = record { name = name; value = value }

-- An item without a value, if it is wanted and none of this name is there.
abbrev pub add_item : Bool → Bytes → List CapabilityItem → List CapabilityItem
add_item wanted name items =
    if wanted && not (has_capability items name) then items ++ item name none ∷ [] else items

unfoldable pub encode_item : CapabilityItem → Encoder
encode_item i = crlf (elim i.value [
  | none ↦ string i.name false new_encoder
  | some v ↦ string v false (sp (string i.name false new_encoder))
])

-- ===== src/Label/Utf8.antt =====
-- What the label code uses of Rust's `str`: a string is its UTF-8 bytes.
use pns_pallets.Base.{
  ℕ, ◌+◌, ◌-◌, ◌*◌, Bool, Option, none, some, List, [], ◌∷◌, ◌&&◌, ◌||◌, leb, ltb, if◌then◌else◌,
  map, is_some,
}
use pns_pallets.Types.{Bytes}

-- Between characters, or with one to three continuation bytes to come: the range of the next
-- byte, and the bits of the code point so far.
pub data Pending : Type 0 where
  ready : Pending
  one two three : ℕ → ℕ → ℕ → Pending

abbrev pub within : ℕ → ℕ → ℕ → Bool
within lo hi b = leb lo b && leb b hi

-- A character that the byte ends, if it ends one, and what is pending after it.
unfoldable pub decode_lead : ℕ → Option (Option ℕ × Pending)
decode_lead b =
    if ltb b 0x80
    then some (some b, ready)
    else if within 0xc2 0xdf b
    then some (none, one 0x80 0xbf (b - 0xc0))
    else if within 0xe0 0xe0 b
    then some (none, two 0xa0 0xbf 0)
    else if within 0xed 0xed b
    then some (none, two 0x80 0x9f (b - 0xe0))
    else if within 0xe1 0xef b
    then some (none, two 0x80 0xbf (b - 0xe0))
    else if within 0xf0 0xf0 b
    then some (none, three 0x90 0xbf 0)
    else if within 0xf1 0xf3 b
    then some (none, three 0x80 0xbf (b - 0xf0))
    else if within 0xf4 0xf4 b
    then some (none, three 0x80 0x8f (b - 0xf0))
    else none

unfoldable pub decode_byte : Pending → ℕ → Option (Option ℕ × Pending)
unfolding decode_lead
decode_byte ready b = decode_lead b
decode_byte (one lo hi acc) b =
    if within lo hi b then some (some (acc * 64 + (b - 0x80)), ready) else none
decode_byte (two lo hi acc) b =
    if within lo hi b then some (none, one 0x80 0xbf (acc * 64 + (b - 0x80))) else none
decode_byte (three lo hi acc) b =
    if within lo hi b then some (none, two 0x80 0xbf (acc * 64 + (b - 0x80))) else none

abbrev pub emit : Option ℕ → Option (List ℕ) → Option (List ℕ)
emit out none = none
emit none (some cs) = some cs
emit (some c) (some cs) = some (c ∷ cs)

-- The code points of valid UTF-8, and `none` at an invalid byte or a cut character.
unfoldable pub decode : Pending → Bytes → Option (List ℕ)
unfolding decode_byte
decode ready [] = some []
decode p [] = none
decode p (b ∷ bs) = elim (decode_byte p b) [ none ↦ none | some (out, q) ↦ emit out (decode q bs) ]

unfoldable pub from_utf8 : Bytes → Option Bytes
unfolding decode
from_utf8 bs = if is_some (decode ready bs) then some bs else none

unfoldable pub chars : Bytes → List ℕ
unfolding decode
chars bs = elim (decode ready bs) [ none ↦ [] | some cs ↦ cs ]

abbrev pub is_ascii_uppercase : ℕ → Bool
is_ascii_uppercase c = within b'A' b'Z' c

abbrev pub lower : ℕ → ℕ
lower c = if is_ascii_uppercase c then c + 32 else c

abbrev pub to_ascii_lowercase : Bytes → Bytes
to_ascii_lowercase = map lower

abbrev pub is_ascii_alphanumeric : ℕ → Bool
is_ascii_alphanumeric c = within b'a' b'z' c || (within b'A' b'Z' c || within b'0' b'9' c)

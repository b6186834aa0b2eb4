-- ===== src/Label/Valid.antt =====
-- Which labels `check_label` of traits.rs and `validate_label` of pns-types accept, byte by byte.
use pns_pallets.Base.{
  ℕ, ◌+◌, ◌-◌, ◌*◌, ◌≤◌, ◌≡◌, ◌↔◌, refl, true, Option, none, some, List, [], ◌∷◌, map, arith, all,
  length, is_some, ◌⊎◌,
}
use pns_pallets.Types.{Bytes}
use pns_pallets.Runtime.{⊤}
use pns_pallets.Label.{check_label, validate_label}
use pns_pallets.Label.Utf8.{
  Pending, ready, one, two, three, decode_byte, decode, emit, from_utf8, chars, lower,
  is_ascii_alphanumeric,
}

-- One to 63 bytes, all of them ASCII letters or digits.
abbrev pub IsLabel : Bytes → Type 0
IsLabel bs = (1 ≤ length bs) × (length bs ≤ 63) × (all is_ascii_alphanumeric bs ≡ true)

-- The next byte is no ASCII byte, and the character will be no ASCII character.
abbrev IsWide : Pending → Type 0
IsWide ready = ⊤
IsWide (one lo hi acc) = (128 ≤ lo) × (256 ≤ acc * 64 + lo)
IsWide (two lo hi acc) = (128 ≤ lo) × (130 ≤ acc * 64 + lo)
IsWide (three lo hi acc) = (128 ≤ lo) × (129 ≤ acc * 64 + lo)

abbrev StepsWide : Option (Option ℕ × Pending) → Type 0
StepsWide none = ⊤
StepsWide (some (out, q)) = IsWide q

decode_byte-IsWide : (p : Pending) (b : ℕ) → IsWide p → StepsWide (decode_byte p b)
unfolding decode_byte
decode_byte-IsWide ready b w = ground arith
decode_byte-IsWide (one lo hi acc) b w = ground arith
decode_byte-IsWide (two lo hi acc) b w = ground arith
decode_byte-IsWide (three lo hi acc) b w = ground arith

alphanumeric-lower : (c : ℕ) → is_ascii_alphanumeric (lower c) ≡ is_ascii_alphanumeric c
alphanumeric-lower c = ground arith

all-lower : (bs : Bytes) → all is_ascii_alphanumeric (map lower bs) ≡ all is_ascii_alphanumeric bs
all-lower [] = refl
all-lower (b ∷ bs) = rw (alphanumeric-lower b, all-lower bs)

pub length-lower : (bs : Bytes) → length (map lower bs) ≡ length bs
length-lower [] = refl
length-lower (b ∷ bs) = rw (length-lower bs)

decode-alphanumeric : (bs : Bytes) → all is_ascii_alphanumeric bs ≡ true → decode ready bs ≡ some bs
unfolding decode
decode-alphanumeric [] h = refl
decode-alphanumeric (b ∷ bs) h = ground (arith, decode-alphanumeric bs)

abbrev IsPlain : Pending → List ℕ → Bytes → Type 0
IsPlain ready cs bs = cs ≡ bs
IsPlain _ cs bs = ⊥

abbrev ReadsPlain : Pending → Option (List ℕ) → Bytes → Type 0
ReadsPlain p none bs = ⊤
ReadsPlain p (some cs) bs = all is_ascii_alphanumeric cs ≡ true → IsPlain p cs bs

-- Decoded text that is alphanumeric is the bytes themselves.
decode-ReadsPlain : (p : Pending) (bs : Bytes) → IsWide p → ReadsPlain p (decode p bs) bs
unfolding decode
decode-ReadsPlain ready [] w = λ _. refl
decode-ReadsPlain (one lo hi acc) [] w = tt
decode-ReadsPlain (two lo hi acc) [] w = tt
decode-ReadsPlain (three lo hi acc) [] w = tt
decode-ReadsPlain ready (b ∷ bs) w = ground (
  arith,
  decode-ReadsPlain ready bs tt,
  decode-ReadsPlain (one 0x80 0xbf (b - 0xc0)) bs,
  decode-ReadsPlain (two 0xa0 0xbf 0) bs,
  decode-ReadsPlain (two 0x80 0x9f (b - 0xe0)) bs,
  decode-ReadsPlain (two 0x80 0xbf (b - 0xe0)) bs,
  decode-ReadsPlain (three 0x90 0xbf 0) bs,
  decode-ReadsPlain (three 0x80 0xbf (b - 0xf0)) bs,
  decode-ReadsPlain (three 0x80 0x8f (b - 0xf0)) bs,
)
decode-ReadsPlain (one lo hi acc) (b ∷ bs) w = ground arith
decode-ReadsPlain (two lo hi acc) (b ∷ bs) w =
    ground (arith, decode-ReadsPlain (one 0x80 0xbf (acc * 64 + (b - 0x80))) bs)
decode-ReadsPlain (three lo hi acc) (b ∷ bs) w =
    ground (arith, decode-ReadsPlain (two 0x80 0xbf (acc * 64 + (b - 0x80))) bs)

-- Lowercasing keeps text valid.
abbrev SameShape : Option (Option ℕ × Pending) → Option (Option ℕ × Pending) → Type 0
SameShape none none = ⊤
SameShape (some (o, q)) (some (o', q')) = q ≡ q'
SameShape _ _ = ⊥

decode_byte-lower :
    (p : Pending) (b : ℕ) → IsWide p → SameShape (decode_byte p (lower b)) (decode_byte p b)
unfolding decode_byte
decode_byte-lower ready b w = ground arith
decode_byte-lower (one lo hi acc) b w = ground arith
decode_byte-lower (two lo hi acc) b w = ground arith
decode_byte-lower (three lo hi acc) b w = ground arith

-- The rest of the text, after one byte and its lowercase.
still_valid :
    (bs : Bytes) (r r' : Option (Option ℕ × Pending))
    → SameShape r r'
    → StepsWide r'
    → ((q : Pending) → IsWide q → is_some (decode q (map lower bs)) ≡ is_some (decode q bs))
    → is_some (elim r [ none ↦ none | some (out, q) ↦ emit out (decode q (map lower bs)) ])
      ≡ is_some (elim r' [ none ↦ none | some (out, q) ↦ emit out (decode q bs) ])
still_valid bs none none same w rest = refl
still_valid bs none (some (o, q)) same w rest = absurd same
still_valid bs (some (o, q)) none same w rest = absurd same
still_valid bs (some (o, q)) (some (o', q')) same w rest = rw same (emits o o' _ _ (rest q' w))
  where
    emits :
        (o o' : Option ℕ) (m m' : Option (List ℕ))
        → is_some m ≡ is_some m'
        → is_some (emit o m) ≡ is_some (emit o' m')
    emits o o' m m' e = ground arith

pub decode-lower :
    (p : Pending) (bs : Bytes)
    → IsWide p
    → is_some (decode p (map lower bs)) ≡ is_some (decode p bs)
unfolding decode
decode-lower ready [] w = refl
decode-lower (one lo hi acc) [] w = refl
decode-lower (two lo hi acc) [] w = refl
decode-lower (three lo hi acc) [] w = refl
decode-lower ready (b ∷ bs) w =
    still_valid bs _ _ (decode_byte-lower ready b w) (decode_byte-IsWide ready b w)
      (λ q. decode-lower q bs)
decode-lower (one lo hi acc) (b ∷ bs) w =
    still_valid bs _ _ (decode_byte-lower (one lo hi acc) b w)
      (decode_byte-IsWide (one lo hi acc) b w) (λ q. decode-lower q bs)
decode-lower (two lo hi acc) (b ∷ bs) w =
    still_valid bs _ _ (decode_byte-lower (two lo hi acc) b w)
      (decode_byte-IsWide (two lo hi acc) b w) (λ q. decode-lower q bs)
decode-lower (three lo hi acc) (b ∷ bs) w =
    still_valid bs _ _ (decode_byte-lower (three lo hi acc) b w)
      (decode_byte-IsWide (three lo hi acc) b w) (λ q. decode-lower q bs)

valid-IsLabel :
    (bs : Bytes)
    → from_utf8 bs ≡ some bs
    → 1 ≤ length (map lower bs)
    → length (map lower bs) ≤ 63
    → all is_ascii_alphanumeric (chars (map lower bs)) ≡ true
    → IsLabel bs
unfolding from_utf8 chars
valid-IsLabel bs v lo hi h = ground (
  arith,
  decode-lower ready bs tt,
  decode-ReadsPlain ready (map lower bs) tt,
  all-lower bs,
  length-lower bs,
)

from_utf8-IsLabel : (bs : Bytes) → IsLabel bs → from_utf8 bs ≡ some bs
unfolding from_utf8
from_utf8-IsLabel bs (lo, hi, h) = rw (decode-alphanumeric bs h)

chars-IsLabel : (bs : Bytes) → IsLabel bs → all is_ascii_alphanumeric (chars (map lower bs)) ≡ true
unfolding chars
chars-IsLabel bs (lo, hi, h) = ground (arith, all-lower bs, decode-alphanumeric (map lower bs))

pub from_utf8-same : (bs : Bytes) → (from_utf8 bs ≡ none) ⊎ (from_utf8 bs ≡ some bs)
unfolding from_utf8
from_utf8-same bs = ground arith

check_label_iff : (bs : Bytes) → (check_label bs ≡ some tt) ↔ IsLabel bs
unfolding check_label
check_label_iff bs = (
  λ e. ground (arith, from_utf8-same bs, valid-IsLabel bs),
  λ l. ground (arith, from_utf8-IsLabel bs l, chars-IsLabel bs l, length-lower bs),
)

validate_label_iff : (bs : Bytes) → (validate_label bs ≡ some tt) ↔ IsLabel bs
unfolding validate_label
validate_label_iff bs = (
  λ e. ground (arith, from_utf8-same bs, valid-IsLabel bs),
  λ l. ground (arith, from_utf8-IsLabel bs l, chars-IsLabel bs l, length-lower bs),
)

-- Both copies of the label check accept exactly the byte strings of 1 to 63 ASCII letters and digits.
pub check_label-IsLabel :
    (bs : Bytes)
    → ((check_label bs ≡ some tt) ↔ IsLabel bs) × ((validate_label bs ≡ some tt) ↔ IsLabel bs)
check_label-IsLabel bs = (check_label_iff bs, validate_label_iff bs)

pub from_utf8-lower : (bs : Bytes) → is_some (from_utf8 (map lower bs)) ≡ is_some (from_utf8 bs)
unfolding from_utf8
from_utf8-lower bs = ground (arith, decode-lower ready bs tt)

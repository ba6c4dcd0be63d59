-- ===== src/Data/Utf8.antt =====
-- `String::from_utf8_lossy`: the characters (code points) of a byte sequence. Each maximal part that
-- begins a character and is broken off becomes one U+FFFD, and so does each byte that begins none.
use peekbeam.Prelude.{
  ℕ, zero, suc, ◌+◌, ◌-◌, ◌*◌, ◌&&◌, List, [], ◌∷◌, ◌++◌, leb, ltb, nat_beq, if◌then◌else◌,
}

abbrev pub replacement : ℕ
replacement = 0xfffd

-- Between characters, or inside one: the bytes still due after the next, the range of the next, and
-- the bits so far.
pub data Decoder : Type 0 where
  idle : Decoder
  need : ℕ → ℕ → ℕ → ℕ → Decoder

unfoldable pub first_byte : ℕ → List ℕ × Decoder
first_byte b =
    if ltb b 0x80
    then (b ∷ [], idle)
    else if ltb b 0xc2
    then (replacement ∷ [], idle)
    else if ltb b 0xe0
    then ([], need 0 0x80 0xbf (b - 0xc0))
    else if nat_beq b 0xe0
    then ([], need 1 0xa0 0xbf 0)
    else if nat_beq b 0xed
    then ([], need 1 0x80 0x9f 0xd)
    else if ltb b 0xf0
    then ([], need 1 0x80 0xbf (b - 0xe0))
    else if nat_beq b 0xf0
    then ([], need 2 0x90 0xbf 0)
    else if ltb b 0xf4
    then ([], need 2 0x80 0xbf (b - 0xf0))
    else if nat_beq b 0xf4
    then ([], need 2 0x80 0x8f 4)
    else (replacement ∷ [], idle)

-- The byte completes the character or leaves fewer due.
unfoldable pub continued : ℕ → ℕ → List ℕ × Decoder
continued zero bits = (bits ∷ [], idle)
continued (suc due) bits = ([], need due 0x80 0xbf bits)

unfoldable pub step_byte : Decoder → ℕ → List ℕ × Decoder
unfolding first_byte continued
step_byte idle b = first_byte b
step_byte (need due lo hi bits) b =
    if leb lo b && leb b hi
    then continued due (bits * 64 + (b - 0x80))
    else (replacement ∷ (first_byte b).0, (first_byte b).1)

unfoldable pub decode_from : Decoder → List ℕ → List ℕ
unfolding step_byte
decode_from idle [] = []
decode_from (need _ _ _ _) [] = replacement ∷ []
decode_from d (b ∷ bs) = (step_byte d b).0 ++ decode_from (step_byte d b).1 bs

unfoldable pub from_utf8_lossy : List ℕ → List ℕ
unfolding decode_from
from_utf8_lossy bs = decode_from idle bs

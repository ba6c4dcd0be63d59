-- ===== src/Data/Text.antt =====
-- What the source uses of `str`: a text is the list of its characters (code points).
use Prim.Native.Char.{code}
use Prim.Native.String.{String}
use peekbeam.Prelude.{
  ℕ, zero, suc, ◌+◌, ◌-◌, ◌*◌, ◌/◌, ◌%◌, ◌^◌, Bool, true, false, not, ◌&&◌, ◌||◌, Option, none,
  some, List, [], ◌∷◌, ◌++◌, leb, ltb, nat_beq, if◌then◌else◌,
}
use peekbeam.Data.Int.{ℤ, pos, negsuc}
use peekbeam.Data.Lists.{length, replicate}

abbrev pub Text : Type 0
Text = List ℕ

-- The characters of a literal.
abbrev pub text : String → Text
text String.[] = []
text (String.◌∷◌ c s) = code c ∷ text s

abbrev pub between : ℕ → ℕ → ℕ → Bool
between lo hi c = leb lo c && leb c hi

-- `char::is_whitespace`: the characters with the property White_Space
unfoldable pub is_whitespace : ℕ → Bool
is_whitespace c =
    between 9 13 c
    || nat_beq c 32
    || nat_beq c 0x85
    || nat_beq c 0xa0
    || nat_beq c 0x1680
    || between 0x2000 0x200a c
    || between 0x2028 0x2029 c
    || nat_beq c 0x202f
    || nat_beq c 0x205f
    || nat_beq c 0x3000

unfoldable pub trim_start : Text → Text
unfolding is_whitespace
trim_start [] = []
trim_start (c ∷ cs) = let rest = trim_start cs in if is_whitespace c then rest else c ∷ cs

-- A character stays if it is no white space or something stays behind it.
kept : ℕ → Text → Text
unfolding is_whitespace
kept c [] = if is_whitespace c then [] else c ∷ []
kept c (d ∷ ds) = c ∷ d ∷ ds

unfoldable pub trim_end : Text → Text
unfolding kept
trim_end [] = []
trim_end (c ∷ cs) = kept c (trim_end cs)

unfoldable pub trim : Text → Text
unfolding trim_start trim_end
trim cs = trim_end (trim_start cs)

unfoldable pub strip_prefix : Text → Text → Option Text
strip_prefix [] cs = some cs
strip_prefix (p ∷ ps) [] = none
strip_prefix (p ∷ ps) (c ∷ cs) = let rest = strip_prefix ps cs in if nat_beq p c then rest else none

-- One character further, before the separator.
abbrev pub before : ℕ → Option (Text × Text) → Option (Text × Text)
before c none = none
before c (some (l, r)) = some (c ∷ l, r)

-- What follows the separator, if the text starts with it.
abbrev pub or_else {ℓ} : {A : Type ℓ} → Option A → Option A → Option A
or_else none o = o
or_else (some a) o = some a

abbrev pub split_here : Option Text → Option (Text × Text)
split_here none = none
split_here (some rest) = some ([], rest)

unfoldable pub split_once : Text → Text → Option (Text × Text)
unfolding strip_prefix
split_once sep [] = split_here (strip_prefix sep [])
split_once sep (c ∷ cs) =
    let rest = split_once sep cs in or_else (split_here (strip_prefix sep (c ∷ cs))) (before c rest)

-- `u32::from_str` and `u64::from_str`: a plus sign may stand before the digits; `w` bits.
unfoldable pub is_digit : ℕ → Bool
is_digit c = between 48 57 c

unfoldable pub digits : ℕ → ℕ → Text → Option ℕ
unfolding is_digit
digits w n [] = some n
digits w n (c ∷ cs) =
    let more = digits w (n * 10 + (c - 48)) cs in
    if is_digit c && ltb (n * 10 + (c - 48)) (2 ^ w) then more else none

unfoldable pub unsigned : ℕ → Text → Option ℕ
unfolding digits
unsigned w [] = none
unsigned w (c ∷ cs) = digits w 0 (c ∷ cs)

-- A sign alone is no number, and neither is a sign after a sign.
unfoldable pub parse : ℕ → Text → Option ℕ
unfolding unsigned
parse w [] = none
parse w (c ∷ cs) = if nat_beq c 43 then unsigned w cs else unsigned w (c ∷ cs)

-- The decimal digits of a number; `fuel` steps are enough for a number below `10 ^ fuel`.
unfoldable pub decimal_on : ℕ → ℕ → Text → Text
decimal_on zero n acc = acc
decimal_on (suc fuel) n acc =
    let rest = decimal_on fuel (n / 10) ((48 + n % 10) ∷ acc) in
    if ltb n 10 then (48 + n) ∷ acc else rest

-- A number of 64 bits has at most 20 digits.
unfoldable pub decimal : ℕ → Text
unfolding decimal_on
decimal n = decimal_on 20 n []

-- `lines()`: the parts between line feeds, without a carriage return before the feed; a feed at
-- the end starts no further line.
unfoldable pub first_in : ℕ → List Text → List Text
first_in c [] = (c ∷ []) ∷ []
first_in c (l ∷ ls) = (c ∷ l) ∷ ls

abbrev feed_next : Text → Bool
feed_next [] = false
feed_next (c ∷ cs) = nat_beq c 10

unfoldable pub lines : Text → List Text
unfolding first_in
lines [] = []
lines (c ∷ cs) =
    let rest = lines cs in
    if nat_beq c 10
    then [] ∷ rest
    else if nat_beq c 13 && feed_next cs
    then rest
    else first_in c rest

-- `split_whitespace`: the parts without white space, none of them empty.
unfoldable pub goes_on : Text → Bool
unfolding is_whitespace
goes_on [] = false
goes_on (c ∷ cs) = not (is_whitespace c)

unfoldable pub split_whitespace : Text → List Text
unfolding goes_on first_in is_whitespace
split_whitespace [] = []
split_whitespace (c ∷ cs) =
    let rest = split_whitespace cs in
    if is_whitespace c then rest else if goes_on cs then first_in c rest else (c ∷ []) ∷ rest

-- `rfind(c).map(|i| &s[i + 1..])` for a character of one byte
unfoldable pub after_last : ℕ → Text → Option Text
after_last c [] = none
after_last c (d ∷ ds) =
    let rest = after_last c ds in or_else rest (if nat_beq d c then some ds else none)

-- `{}` of a signed number, and `{:<w}`
unfoldable pub signed : ℤ → Text
unfolding decimal
signed (pos n) = decimal n
signed (negsuc n) = 45 ∷ decimal (suc n)

unfoldable pub pad_right : ℕ → Text → Text
pad_right w t = t ++ replicate (w - length t) 32

-- `eq_ignore_ascii_case`
unfoldable pub lower : ℕ → ℕ
lower c = if between 65 90 c then c + 32 else c

unfoldable pub eq_ignore_ascii_case : Text → Text → Bool
unfolding lower
eq_ignore_ascii_case [] [] = true
eq_ignore_ascii_case (c ∷ cs) (d ∷ ds) = nat_beq (lower c) (lower d) && eq_ignore_ascii_case cs ds
eq_ignore_ascii_case _ _ = false

-- `format!`: the parts one after the other.
unfoldable pub concat : List Text → Text
concat [] = []
concat (t ∷ ts) = t ++ concat ts

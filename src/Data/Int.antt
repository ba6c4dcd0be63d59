-- ===== src/Data/Int.antt =====
-- Signed integers (i32, i64) and the `as` casts between integer types, which keep the low bits.
use peekbeam.Prelude.{
  ℕ, suc, ◌-◌, ◌%◌, ◌^◌, ◌<◌, ◌≡◌, ◌↔◌, Bool, true, false, arith, ltb, nat_beq, Eq, if◌then◌else◌,
}

-- `negsuc n` is -(n + 1).
pub data ℤ : Type 0 where
  pos : ℕ → ℤ
  negsuc : ℕ → ℤ

abbrev pub is_neg : ℤ → Bool
is_neg (pos n) = false
is_neg (negsuc n) = true

abbrev pub int_beq : ℤ → ℤ → Bool
int_beq (pos a) (pos b) = nat_beq a b
int_beq (negsuc a) (negsuc b) = nat_beq a b
int_beq (pos a) (negsuc b) = false
int_beq (negsuc a) (pos b) = false

pub int_beq_iff : (a b : ℤ) → (int_beq a b ≡ true) ↔ (a ≡ b)
int_beq_iff a b = ground arith

instance abbrev pub int_eq : Eq ℤ
int_eq = record { beq = int_beq; beq_iff = int_beq_iff }

-- The low `w` bits of the two's complement form: a cast to an unsigned type of `w` bits.
unfoldable pub as_unsigned : ℕ → ℤ → ℕ
as_unsigned w (pos n) = n % 2 ^ w
as_unsigned w (negsuc n) = 2 ^ w - suc (n % 2 ^ w)

-- A bit pattern of 32 or 64 bits read as a signed number.
unfoldable pub signed32 : ℕ → ℤ
signed32 n = if ltb n (2 ^ 31) then pos n else negsuc (2 ^ 32 - suc n)

unfoldable pub signed64 : ℕ → ℤ
signed64 n = if ltb n (2 ^ 63) then pos n else negsuc (2 ^ 64 - suc n)

-- `x as i32`
unfoldable pub as_i32 : ℤ → ℤ
unfolding as_unsigned signed32
as_i32 x = signed32 (as_unsigned 32 x)

-- The ranges of the signed types.
abbrev pub IsI32 : ℤ → Type 0
IsI32 (pos n) = n < 2 ^ 31
IsI32 (negsuc n) = n < 2 ^ 31

abbrev pub IsI64 : ℤ → Type 0
IsI64 (pos n) = n < 2 ^ 63
IsI64 (negsuc n) = n < 2 ^ 63

-- Two's complement loses nothing on a number in range.
pub signed32-as_unsigned : (x : ℤ) → IsI32 x → signed32 (as_unsigned 32 x) ≡ x
unfolding signed32 as_unsigned
signed32-as_unsigned (pos n) h = ground arith
signed32-as_unsigned (negsuc n) h = ground arith

pub signed64-as_unsigned : (x : ℤ) → IsI64 x → signed64 (as_unsigned 64 x) ≡ x
unfolding signed64 as_unsigned
signed64-as_unsigned (pos n) h = ground arith
signed64-as_unsigned (negsuc n) h = ground arith

pub as_unsigned32-lt : (x : ℤ) → as_unsigned 32 x < 2 ^ 32
unfolding as_unsigned
as_unsigned32-lt (pos n) = omega arith
as_unsigned32-lt (negsuc n) = omega arith

pub as_unsigned64-lt : (x : ℤ) → as_unsigned 64 x < 2 ^ 64
unfolding as_unsigned
as_unsigned64-lt (pos n) = omega arith
as_unsigned64-lt (negsuc n) = omega arith

pub as_i32_small : (n : ℕ) → n < 2 ^ 31 → as_i32 (pos n) ≡ pos n
unfolding as_i32
as_i32_small n h = ground arith

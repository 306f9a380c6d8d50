-- ===== src/Words.antt =====
-- The fixed-width integers of the program. A `std::uint32_t` is a number below 2 ^ 32. A
-- `std::int32_t` is its bit pattern, and `signed` is the number that the pattern stands for; a
-- cast between the two keeps the pattern.
pub mod Bits
pub mod Offset
use pipeline_lab.Prelude.{ℕ, ◌+◌, ◌-◌, ◌*◌, ◌/◌, ◌%◌, ◌^◌, ◌<◌, Bool, ltb, if◌then◌else◌}
use pipeline_lab.Prelude.Int.{ℤ, pos, negsuc, ltb_ℤ}

abbrev pub u32 : ℕ → ℕ
u32 n = n % 2 ^ 32

abbrev pub IsWord : ℕ → Type 0
IsWord w = w < 2 ^ 32

-- `a << k` and `a >> k` on `std::uint32_t`.
abbrev pub shl : ℕ → ℕ → ℕ
shl a k = u32 (a * 2 ^ k)

abbrev pub shr : ℕ → ℕ → ℕ
shr a k = a / 2 ^ k

-- The value of a bit pattern read as a `std::int32_t`.
abbrev pub signed : ℕ → ℤ
signed w = if ltb w (2 ^ 31) then pos w else negsuc (2 ^ 32 - w - 1)

-- The conversion of a wider integer to 32 bits, which keeps it modulo 2 ^ 32.
abbrev pub to_word : ℤ → ℕ
to_word (pos n) = u32 n
to_word (negsuc n) = 2 ^ 32 - 1 - u32 n

-- `a < b` on `std::int32_t`.
abbrev pub signed_lt : ℕ → ℕ → Bool
signed_lt a b = ltb_ℤ (signed a) (signed b)

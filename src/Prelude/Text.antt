-- ===== src/Prelude/Text.antt =====
-- Texts as lists of bytes: literals, and numbers in decimal as `std::to_string` prints them.
use Prim.Native.Nat.{ℕ, zero, suc, ◌+◌, ◌-◌, ◌/◌, ◌%◌}
use Prim.Native.Char.{code}
use Prim.Native.String.{String}
use mathlib.Core.List.{List, [], ◌∷◌, ◌++◌}
use pipeline_lab.Prelude.Tests.{ltb, if◌then◌else◌}
use pipeline_lab.Prelude.Lists.{length, replicate}
use pipeline_lab.Prelude.Int.{ℤ, pos, negsuc}

abbrev pub codes : String → List ℕ
codes String.[] = []
codes (String.◌∷◌ c s) = code c ∷ codes s

-- The digits of `n` before `acc`; the fuel is at least the number of digits.
unfoldable pub decimal_loop : ℕ → ℕ → List ℕ → List ℕ
decimal_loop zero n acc = acc
decimal_loop (suc fuel) n acc =
    let rest = decimal_loop fuel (n / 10) ((b'0' + n % 10) ∷ acc) in
    if ltb n 10 then (b'0' + n) ∷ acc else rest

unfoldable pub decimal : ℕ → List ℕ
unfolding decimal_loop
decimal n = decimal_loop (suc n) n []

unfoldable pub signed_decimal : ℤ → List ℕ
unfolding decimal
signed_decimal (pos n) = decimal n
signed_decimal (negsuc n) = b'-' ∷ decimal (suc n)

-- `std::setw` with `std::right` and with `std::left`: a longer text is not cut.
unfoldable pub pad_left : ℕ → ℕ → List ℕ → List ℕ
pad_left width fill s = replicate (width - length s) fill ++ s

unfoldable pub pad_right : ℕ → ℕ → List ℕ → List ℕ
pad_right width fill s = s ++ replicate (width - length s) fill

abbrev hex_digit : ℕ → ℕ
hex_digit d = if ltb d 10 then b'0' + d else b'a' + (d - 10)

-- `std::hex`; the fuel is at least the number of digits.
unfoldable pub hexadecimal_loop : ℕ → ℕ → List ℕ → List ℕ
hexadecimal_loop zero n acc = acc
hexadecimal_loop (suc fuel) n acc =
    let rest = hexadecimal_loop fuel (n / 16) (hex_digit (n % 16) ∷ acc) in
    if ltb n 16 then hex_digit n ∷ acc else rest

unfoldable pub hexadecimal : ℕ → List ℕ
unfolding hexadecimal_loop
hexadecimal n = hexadecimal_loop (suc n) n []

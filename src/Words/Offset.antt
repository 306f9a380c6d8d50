-- ===== src/Words/Offset.antt =====
-- Address arithmetic: a sum with a signed offset is a sum modulo 2 ^ 32.
use pipeline_lab.Prelude.{ℕ, ◌+◌, ◌≡◌, arith}
use pipeline_lab.Prelude.Int.{pos, ◌+ℤ◌}
use pipeline_lab.Words.{u32, IsWord, signed, to_word}

-- `static_cast<std::uint32_t>(static_cast<std::int64_t>(pc) + offset)`.
pub to_word-pos-signed : (a b : ℕ) → IsWord a → IsWord b → to_word (pos a +ℤ signed b) ≡ u32 (a + b)
unfolding ◌+ℤ◌
to_word-pos-signed a b ha hb = ground arith

-- The same where the base is an `std::int32_t` too.
pub to_word-signed-signed :
    (a b : ℕ) → IsWord a → IsWord b → to_word (signed a +ℤ signed b) ≡ u32 (a + b)
unfolding ◌+ℤ◌
to_word-signed-signed a b ha hb = ground arith

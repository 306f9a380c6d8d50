-- ===== src/Sim/Memory.antt =====
-- include/plab/sim/memory.hpp: the data memory, word by word, with the check of each access.
pub mod Laws
use pipeline_lab.Prelude.{
  ℕ, ◌+◌, ◌-◌, ◌/◌, ◌%◌, List, length, get_elem?, set, replicate, Bool, not, ltb, ◌==◌, none, some,
  Result, ok, err, ◌>>=◌, ◌>>◌, guard,
}
use pipeline_lab.Words.{u32}
use pipeline_lab.Sim.Fault.{Fault, unaligned, out_of_bounds, outside_storage}

pub record DataMemory : Type 0 where
  pub words : List ℕ
  pub size_bytes : ℕ

unfoldable pub new_memory : ℕ → DataMemory
new_memory bytes = record { words = replicate (bytes / 4) 0; size_bytes = bytes - bytes % 4 }

-- The sum `addr + 4` wraps at 32 bits.
unfoldable pub check_access : DataMemory → ℕ → Result Fault (Unit {0})
check_access m addr = do
  guard (addr % 4 == 0) (unaligned addr)
  guard (not (ltb m.size_bytes (u32 (addr + 4)))) (out_of_bounds addr)

unfoldable pub load_word : DataMemory → ℕ → Result Fault ℕ
load_word m addr = do
  check_access m addr
  elim (get_elem? m.words (addr / 4)) [ none ↦ err (outside_storage addr) | some v ↦ ok v ]

unfoldable pub store_word : DataMemory → ℕ → ℕ → Result Fault DataMemory
store_word m addr value = do
  check_access m addr
  guard (ltb (addr / 4) (length m.words)) (outside_storage addr)
  ok (record m { words = set m.words (addr / 4) value })

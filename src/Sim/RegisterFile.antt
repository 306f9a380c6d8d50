-- ===== src/Sim/RegisterFile.antt =====
-- include/plab/sim/register_file.hpp: the 16 registers, as bit patterns. An index of 16 or more,
-- which C++ leaves undefined, reads 0 and is not written; no decoded instruction has one.
use pipeline_lab.Prelude.{
  ℕ, zero, suc, Bool-cases, inl, inr, false, ◌∷◌, [], ◌<◌, ◌≡◌, refl, arith, List, length, get_or,
  set, replicate, ◌&&◌, not, ◌==◌, if◌then◌else◌, length-set, get_or-set,
}
use pipeline_lab.Isa.Instruction.{num_registers, zero_reg}

pub record RegisterFile : Type 0 where
  pub regs : List ℕ

unfoldable pub initial_registers : RegisterFile
initial_registers = record { regs = replicate num_registers 0 }

unfoldable pub read : RegisterFile → ℕ → ℕ
read r index = get_or r.regs index 0

unfoldable pub write : RegisterFile → ℕ → ℕ → RegisterFile
write r index value = record r {
  regs = if not (index == zero_reg) then set r.regs index value else r.regs;
}

-- The array holds 16 registers.
pub record IsRegisterFile (r : RegisterFile) : Type 0 where
  pub sixteen : length r.regs ≡ 16

pub initial_registers-IsRegisterFile : IsRegisterFile initial_registers
unfolding initial_registers
initial_registers-IsRegisterFile = record { sixteen = refl }

pub write-IsRegisterFile :
    (r : RegisterFile) (index value : ℕ) → IsRegisterFile r → IsRegisterFile (write r index value)
unfolding write
write-IsRegisterFile r index value h = ground (arith, length-set r.regs index value)

-- A read after a write: the value written, if it is the same register and not r0; else what the
-- register held.
pub read-write :
    (r : RegisterFile) (i j v : ℕ)
    → IsRegisterFile r
    → i < 16
    → read (write r i v) j ≡ (if not (i == zero_reg) && i == j then v else read r j)
unfolding read write
read-write r i j v h lt = ground (arith, get_or-set r.regs i j v 0)

first_left : (xs : List ℕ) (i v : ℕ) → (i == 0) ≡ false → get_or (set xs i v) 0 0 ≡ get_or xs 0 0
first_left [] i v other = refl
first_left (x ∷ xs) zero v other = cc
first_left (x ∷ xs) (suc i) v other = refl

-- A write leaves r0.
pub write-zero :
    (r : RegisterFile) (index value : ℕ) → read (write r index value) zero_reg ≡ read r zero_reg
unfolding read write
write-zero r index value = elim (Bool-cases (index == zero_reg)) [
  | inl zero_index ↦ rw zero_index refl
  | inr other ↦ rw other (first_left r.regs index value other)
]

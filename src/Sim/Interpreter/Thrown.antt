-- ===== src/Sim/Interpreter/Thrown.antt =====
-- What one round of `Interpreter::run` throws, src/sim/interpreter.cpp.
use pipeline_lab.Prelude.{
  ℕ, ◌+◌, ◌/◌, ◌≤◌, ◌<◌, ◌≡◌, refl, sym, ap, inl, inr, arith, Bool, true, false, Bool-cases, ltb,
  Result, ok, err, guard, ◌%◌, ◌==◌, get_elem?, length, Option, none, some, >>=-eq-err, ◌>>=◌, ◌>>◌,
  err-injective, true-not-false,
}
use mathlib.Core.Path.{subst}
use pipeline_lab.Isa.Opcode.{
  Format, r_type, i_type, b_type, j_type, format_of, is_load, is_store, is_ret,
}
use pipeline_lab.Isa.Instruction.{Instruction}
use pipeline_lab.Isa.Encoding.{decode, DecodingError}
use pipeline_lab.Asm.Program.{Program, code_bytes, word_at}
use pipeline_lab.Sim.Fault.{
  Fault, unaligned, out_of_bounds, outside_storage, pc_out_of_range, not_decoded, or_fault,
}
use pipeline_lab.Sim.RegisterFile.{read}
use pipeline_lab.Sim.Memory.{DataMemory, check_access, load_word, store_word}
use pipeline_lab.Sim.Interpreter.{Interpreter, add_offset, execute_format, step}

-- The exceptions of the data memory.
abbrev pub is_memory_fault : Fault → Bool
is_memory_fault (unaligned _) = true
is_memory_fault (out_of_bounds _) = true
is_memory_fault (outside_storage _) = true
is_memory_fault _ = false

-- The instruction is a load or a store that the data memory refuses.
pub data Refuses (inst : Instruction) (s : Interpreter) (fault : Fault) : Type 0 where
  refused_load :
      format_of inst.op ≡ i_type
      → is_load inst.op ≡ true
      → load_word s.mem (add_offset (read s.regs inst.rs) inst.imm) ≡ err fault
      → Refuses inst s fault
  refused_store :
      format_of inst.op ≡ i_type
      → is_load inst.op ≡ false
      → is_store inst.op ≡ true
      → store_word s.mem (add_offset (read s.regs inst.rs) inst.imm) (read s.regs inst.rd)
        ≡ err fault
      → Refuses inst s fault

pub ok-not-err : {E A : Type 0} {a : A} {f : E} → ¬ (◌≡◌ {A = Result E A} (ok a) (err f))
ok-not-err h = cc

module _ (inst : Instruction) (s : Interpreter) {fault : Fault} where
  format-Refuses :
      (f : Format)
      → format_of inst.op ≡ f
      → execute_format f inst s ≡ err fault
      → Refuses inst s fault
  unfolding execute_format
  format-Refuses r_type f e = absurd (ok-not-err e)
  format-Refuses i_type f e = elim (Bool-cases (is_load inst.op)) [
    | inl l ↦ elim (>>=-eq-err (load_word s.mem _) _ (rw l at e)) [
      | inl refused ↦ refused_load f l refused
      | inr (v, loaded, rest) ↦ absurd (ok-not-err rest)
    ]
    | inr l ↦ elim (Bool-cases (is_store inst.op)) [
      | inl t ↦ elim (>>=-eq-err (store_word s.mem _ _) _ (rw (l, t) at e)) [
        | inl refused ↦ refused_store f l t refused
        | inr (m, stored, rest) ↦ absurd (ok-not-err rest)
      ]
      | inr t ↦ absurd (ok-not-err (rw (l, t) at e))
    ]
  ]
  format-Refuses b_type f e = absurd (ok-not-err e)
  format-Refuses j_type f e = elim (Bool-cases (is_ret inst.op)) [
    | inl r ↦ absurd (ok-not-err (rw r at e))
    | inr r ↦ absurd (ok-not-err (rw r at e))
  ]

-- How a round of the loop throws: the PC is past the end of the code, its word does not decode, or
-- the data memory refuses its load or store.
pub data Thrown (program : Program) (s : Interpreter) : Fault → Type 0 where
  off_code : code_bytes program ≤ s.pc → Thrown program s (pc_out_of_range s.pc)
  undecoded :
      (e : DecodingError)
      → s.pc < code_bytes program
      → decode (word_at program s.pc) ≡ err e
      → Thrown program s (not_decoded e)
  no_access :
      {fault : Fault} (inst : Instruction)
      → s.pc < code_bytes program
      → decode (word_at program s.pc) ≡ ok inst
      → Refuses inst (record s { retired = s.retired + 1 }) fault
      → Thrown program s fault

pub step-Thrown :
    (program : Program) (s : Interpreter) (fault : Fault)
    → step program s ≡ err fault
    → Thrown program s fault
unfolding step
step-Thrown program s fault e = go (ltb s.pc (code_bytes program)) refl (decode _) refl e
  where
    go :
        (b : Bool)
        → ltb s.pc (code_bytes program) ≡ b
        → (r : Result DecodingError Instruction) → decode (word_at program s.pc) ≡ r
        → (guard b (pc_out_of_range s.pc)
            >> (or_fault r >>= λ inst.
                execute_format (format_of inst.op) inst (record s { retired = s.retired + 1 })))
          ≡ err fault
        → Thrown program s fault
    go false past r at e = subst (Thrown program s) (err-injective e) (off_code (ground arith))
    go true here (err d) at e =
        subst (Thrown program s) (err-injective e) (undecoded d (ground arith) at)
    go true here (ok inst) at e =
        no_access inst (ground arith) at (format-Refuses inst _ (format_of inst.op) refl e)

guard-fault : (b : Bool) (e fault : Fault) → guard b e ≡ err fault → fault ≡ e
guard-fault true e fault h = cc
guard-fault false e fault h = sym (err-injective h)

-- What a refusing data memory throws.
check_access-fault :
    (m : DataMemory) (addr : ℕ) (fault : Fault)
    → check_access m addr ≡ err fault
    → is_memory_fault fault ≡ true
unfolding check_access
check_access-fault m addr fault h = elim (>>=-eq-err (guard (addr % 4 == 0) _) _ h) [
  | inl odd ↦ ap is_memory_fault (guard-fault _ _ fault odd)
  | inr (_, _, rest) ↦ ap is_memory_fault (guard-fault _ _ fault rest)
]

load_word-fault :
    (m : DataMemory) (addr : ℕ) (fault : Fault)
    → load_word m addr ≡ err fault
    → is_memory_fault fault ≡ true
unfolding load_word
load_word-fault m addr fault h = elim (>>=-eq-err (check_access m addr) _ h) [
  | inl denied ↦ check_access-fault m addr fault denied
  | inr (_, _, rest) ↦ go (get_elem? m.words (addr / 4)) rest
]
  where
    go :
        (o : Option ℕ)
        → ◌≡◌ {A = Result Fault ℕ}
            (elim o [ none ↦ err (outside_storage addr) | some v ↦ ok v ])
            (err fault)
        → is_memory_fault fault ≡ true
    go none h = ap is_memory_fault (sym (err-injective h))
    go (some v) h = absurd (ok-not-err h)

store_word-fault :
    (m : DataMemory) (addr value : ℕ) (fault : Fault)
    → store_word m addr value ≡ err fault
    → is_memory_fault fault ≡ true
unfolding store_word
store_word-fault m addr value fault h = elim (>>=-eq-err (check_access m addr) _ h) [
  | inl denied ↦ check_access-fault m addr fault denied
  | inr (_, _, rest) ↦ elim (>>=-eq-err (guard (ltb (addr / 4) (length m.words)) _) _ rest) [
    | inl denied ↦ ap is_memory_fault (guard-fault _ _ fault denied)
    | inr (_, _, stored) ↦ absurd (ok-not-err stored)
  ]
]

pub Refuses-fault :
    {inst : Instruction} {s : Interpreter} {fault : Fault}
    → Refuses inst s fault
    → is_memory_fault fault ≡ true
Refuses-fault (refused_load _ _ h) = load_word-fault _ _ _ h
Refuses-fault (refused_store _ _ _ h) = store_word-fault _ _ _ _ h

-- A round that throws an exception of the data memory is at a load or a store of the code.
pub step-Refuses :
    (program : Program) (s : Interpreter) (fault : Fault)
    → is_memory_fault fault ≡ true
    → step program s ≡ err fault
    → (inst : Instruction) × (s.pc < code_bytes program)
      × (decode (word_at program s.pc) ≡ ok inst)
      × Refuses inst (record s { retired = s.retired + 1 }) fault
step-Refuses program s fault memory h = go (step-Thrown program s fault h) memory
  where
    go :
        {fault : Fault}
        → Thrown program s fault
        → is_memory_fault fault ≡ true
        → (inst : Instruction) × (s.pc < code_bytes program)
          × (decode (word_at program s.pc) ≡ ok inst)
          × Refuses inst (record s { retired = s.retired + 1 }) fault
    go (off_code _) memory = absurd (true-not-false (sym memory))
    go (undecoded _ _ _) memory = absurd (true-not-false (sym memory))
    go (no_access inst here decodes refuses) _ = (inst, here, decodes, refuses)

-- ===== src/Sim/Pipeline/Trace/Held.antt =====
-- Which instruction a stage of src/sim/pipeline.cpp hands on to the next latch.
use pipeline_lab.Prelude.{
  ℕ, ◌+◌, ◌≡◌, sym, ap, ◌∙◌, inl, inr, arith, [], ◌∷◌, ◌++◌, get_or, Bool, true, false, not, ◌||◌,
  ltb, if-true, if-false, Bool-cases, Result, ok, err, ◌>>=◌, ok-injective, ◌/◌,
}
use pipeline_lab.Prelude.Int.{pos}
use pipeline_lab.Isa.Instruction.{Instruction}
use pipeline_lab.Isa.Encoding.{decode, DecodingError}
use pipeline_lab.Asm.Program.{Program, code_bytes}
use pipeline_lab.Sim.Fault.{Fault, or_fault}
use pipeline_lab.Sim.Memory.{DataMemory}
use pipeline_lab.Sim.Pipeline.State.{Latch, empty_latch, Pipeline, TracedInstr}
use pipeline_lab.Sim.Pipeline.Stages.{access, execute, execute_latch, decode_stage, fetch_into}
use pipeline_lab.Sim.Pipeline.Forwarding.{Accessed, idle, busy, access-Accessed}
use pipeline_lab.Sim.Pipeline.Stepping.{
  execute_real, decode_stage_idle, decode_stage_real, traced_entry,
}

-- The second latch is a bubble, or holds the instruction of the first.
abbrev pub Holds : Latch → Latch → Type 0
Holds l n = n.bubble ≡ false → (l.bubble ≡ false) × (n.id ≡ l.id)

pub access-Holds :
    (l : Latch) (mem mem' : DataMemory) (n : Latch) → access l mem ≡ ok (mem', n) → Holds l n
access-Holds l mem mem' n e = go (access-Accessed l mem e)
  where
    go : Accessed l n → Holds l n
    go (idle _ same) live = cc
    go (busy value real same _) live = (real, ap (λ t. t.id) same)

execute_latch-Holds : (l : Latch) (a b : ℕ) → l.bubble ≡ false → Holds l (execute_latch l a b).next
unfolding execute_latch
execute_latch-Holds l a b real live = (real, ground arith)

pub execute-Holds : (q : Pipeline) → Holds q.idex (execute q).1.next
unfolding execute
execute-Holds q = elim (Bool-cases q.idex.bubble) [
  | inl none ↦ λ live. cc
  | inr real ↦
      let same = ap (λ t. t.1.next) (execute_real q real) in
      let held = execute_latch-Holds q.idex _ _ real in
      λ live. (real, ap (λ l. l.id) same ∙ (held (sym (ap (λ l. l.bubble) same) ∙ live)).1)
]

pub decode_stage-Holds : (q : Pipeline) → Holds q.ifid (decode_stage q)
decode_stage-Holds q = elim (Bool-cases q.ifid.bubble) [
  | inl none ↦ λ live. cc (decode_stage_idle q none)
  | inr real ↦ λ live. (real, ap (λ l. l.id) (decode_stage_real q real))
]

-- Nothing is fetched.
abbrev pub shut : Program → Pipeline → Bool
shut program q = q.fetch_stopped || not (ltb q.pc (code_bytes program))

-- A fetch that succeeds has fetched an instruction, or nothing.
pub data Fetches (program : Program) (q r : Pipeline) (l : Latch) : Type 0 where
  nothing : shut program q ≡ true → r ≡ q → l ≡ empty_latch → Fetches program q r l
  fetched :
      (t : TracedInstr)
      → shut program q ≡ false
      → r ≡ record q { traced = q.traced ++ t ∷ []; next_id = q.next_id + 1 }
      → l.id ≡ pos q.next_id
      → Fetches program q r l

-- What the decoded instruction is fetched as.
abbrev fetched_as : Program → Pipeline → Instruction → Result Fault (Pipeline × Latch)
fetched_as program q inst = ok (
  record q { traced = q.traced ++ traced_entry program q inst ∷ []; next_id = q.next_id + 1 },
  record empty_latch { bubble = false; id = pos q.next_id; inst = inst; pc = q.pc },
)

pub fetch_into-Fetches :
    (program : Program) (q r : Pipeline) (l : Latch)
    → fetch_into program q ≡ ok (r, l)
    → Fetches program q r l
unfolding fetch_into
fetch_into-Fetches program q r l e = elim (Bool-cases (shut program q)) [
  | inl off ↦
      let same = ok-injective (sym e ∙ if-true _ _ off) in
      nothing off (ap (λ t. t.0) same) (ap (λ t. t.1) same)
  | inr on ↦ go on (decode (get_or program.words (q.pc / 4) 0)) (sym (if-false _ _ on) ∙ e)
]
  where
    go :
        shut program q ≡ false
        → (d : Result DecodingError Instruction) → (or_fault d >>= fetched_as program q) ≡ ok (r, l)
        → Fetches program q r l
    go on (ok inst) h =
        let same = ok-injective (sym h) in
        fetched (traced_entry program q inst) on (ap (λ t. t.0) same) (ap (λ t. t.1.id) same)
    go on (err f) h = cc

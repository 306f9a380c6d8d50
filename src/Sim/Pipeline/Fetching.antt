-- ===== src/Sim/Pipeline/Fetching.antt =====
-- Programs whose every word decodes, and the fetch of src/sim/pipeline.cpp on them.
use pipeline_lab.Prelude.{
  ℕ, ◌/◌, ◌<◌, ◌≡◌, arith, false, ltb, ok, All, All-get_or_lt, List, Bool-cases, inl, inr,
}
use pipeline_lab.Isa.Instruction.{Instruction}
use pipeline_lab.Isa.Encoding.{decode}
use pipeline_lab.Asm.Program.{Program, code_bytes, word_at}
use pipeline_lab.Sim.Pipeline.State.{Latch, empty_latch, Pipeline, TracedInstr}
use pipeline_lab.Sim.Pipeline.Stages.{fetch_into}
use pipeline_lab.Sim.Pipeline.Stepping.{fetch_in_range, fetch_past_end}

-- Every word of the code decodes.
abbrev pub AllDecode : Program → Type 0
AllDecode program =
    (pc : ℕ)
    → pc < code_bytes program
    → (inst : Instruction) × (decode (word_at program pc) ≡ ok inst)

-- A fetch that does not throw: it changes the trace and the next id at most.
pub fetch_some :
    (program : Program) (q : Pipeline)
    → AllDecode program
    → q.fetch_stopped ≡ false
    → (traced : List TracedInstr) × (next_id : ℕ) × (l : Latch) × (fetch_into program q
        ≡ ok (record q { traced = traced; next_id = next_id }, l))
fetch_some program q all on = elim (Bool-cases (ltb q.pc (code_bytes program))) [
  | inl lt ↦
      let (inst, e) = all q.pc (ground arith) in
      (_, _, _, fetch_in_range program q inst on (ground arith) e)
  | inr ge ↦ (q.traced, q.next_id, empty_latch, fetch_past_end program q (ground arith))
]

abbrev pub Decodes : ℕ → Type 0
Decodes word = (inst : Instruction) × (decode word ≡ ok inst)

-- It is enough that each word of the list decodes.
pub Decodes-AllDecode : (program : Program) → All Decodes program.words → AllDecode program
unfolding code_bytes
Decodes-AllDecode program h pc in_code =
    All-get_or_lt Decodes program.words (pc / 4) 0 h (omega arith)

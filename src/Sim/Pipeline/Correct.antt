-- ===== src/Sim/Pipeline/Correct.antt =====
-- The pipeline simulator of src/sim/pipeline.cpp computes what the interpreter of
-- src/sim/interpreter.cpp computes.
use pipeline_lab.Prelude.{
  true-not-false, ℕ, zero, suc, ◌+◌, ◌-◌, ◌*◌, ◌≤◌, ◌<◌, ◌≡◌, sym, ap, ◌∙◌, arith, true, false, ok,
  Bool, inl, inr, ok-injective,
}
use mathlib.Core.Path.{subst}
use pipeline_lab.Isa.Instruction.{Instruction}
use pipeline_lab.Isa.Opcode.{format_of, j_type, is_ret}
use pipeline_lab.Isa.Encoding.{decode}
use pipeline_lab.Isa.Encoding.Decoding.{decode-IsDecoded}
use pipeline_lab.Asm.Program.{Program, code_bytes, word_at}
use pipeline_lab.Sim.Interpreter
use pipeline_lab.Sim.Interpreter.{Interpreter, step, running, returned, new_interpreter}
use pipeline_lab.Sim.Interpreter.Semantics.{step-eq-running, step-eq-returned}
use pipeline_lab.Sim.Interpreter.Runs.{Begins, goes, ends, run-Begins, run_steps}
use pipeline_lab.Sim.Bounds.{AreWords, Executes-AreWords}
use pipeline_lab.Sim.Pipeline.State.{Pipeline, new_pipeline}
use pipeline_lab.Sim.Pipeline.Cycle.{run_loop, run}
use pipeline_lab.Sim.Pipeline.Fetching.{AllDecode}
use pipeline_lab.Sim.Pipeline.Refinement.{patience, Matches, Paced}
use pipeline_lab.Sim.Pipeline.Separation.{Separated}
use pipeline_lab.Sim.Pipeline.Working.{counting}
use pipeline_lab.Sim.Pipeline.Progress.{approach, step-Working, retire, new-Matches, new_words}
use pipeline_lab.Sim.Pipeline.Finish.{Halts, Halts-step, finish}

-- A run that ends is at an instruction of the code.
Begins-in_code :
    (program : Program) (k : ℕ) {s e : Interpreter}
    → Begins program k s e
    → (inst : Instruction) × (s.pc < code_bytes program) × (decode (word_at program s.pc) ≡ ok inst)
Begins-in_code program k (goes s' stepped _) =
    let found = step-eq-running program _ s' stepped in (found.0, found.1, found.2)
Begins-in_code program k (ends stepped) =
    let found = step-eq-returned program _ _ stepped in (found.0, found.1, found.2)

run_zero_fails : (program : Program) (s e : Interpreter) → ¬ (Interpreter.run 0 program s ≡ ok e)
unfolding Interpreter.run
run_zero_fails program s e h = cc

run_in_code :
    (program : Program) (k : ℕ) (s e : Interpreter)
    → Interpreter.run k program s ≡ ok e
    → s.pc < code_bytes program
run_in_code program zero s e h = absurd (run_zero_fails program s e h)
run_in_code program (suc k) s e h = (Begins-in_code program k (run-Begins program k s e h)).1

module _ (program : Program) (all : AllDecode program) where
  -- A run of the interpreter that ends after at most `k` steps is followed by the pipeline in at
  -- most three cycles for each step.
  follow :
      (left k : ℕ) (p : Pipeline) (s end : Interpreter) (m : Matches program p s)
      → AreWords s.regs s.mem
      → Interpreter.run k program s ≡ ok end
      → patience m.front + 3 * k ≤ left
      → Halts program left p end
  follow left zero p s end m words h enough = absurd (run_zero_fails program s end h)
  follow zero (suc k) p s end m words h enough = absurd (omega arith)
  follow (suc left) (suc k) p s end m words h enough =
      let begins = run-Begins program k s end h in
      let (inst, in_code, decodes) = Begins-in_code program k begins in
      elim (approach program all p s m inst in_code decodes) [
        | inl (a, waiting) ↦
            Halts-step program left p a.next end m.fetching a.cycles
              (follow left (suc k) a.next s end a.agrees words h (omega (arith, a.waits)))
        | inr (e, rest, acc) ↦ elim begins [
          | goes s' stepped more ↦
              let w = step-Working program p s s' m e words stepped in
              let a = retire program all p s s' w rest acc (run_in_code program k s' end more) in
              let words' =
                Executes-AreWords (decode-IsDecoded _ e.fetched.decodes).imm_word words
                  w.executes in
              Halts-step program left p a.next end m.fetching a.cycles
                (follow left k a.next s' end a.agrees words' more (omega (arith, a.waits)))
          | ends stepped ↦
              let (found, _, found_decodes, f, r, counted_end) =
                step-eq-returned program s end stepped in
              let same = ok-injective (sym found_decodes ∙ e.fetched.decodes) in
              let enough_left : suc (suc (left - 2)) ≡ left = omega arith in
              rw counted_end (
                subst (λ l. Halts program (suc l) p (counting s)) enough_left
                  (finish program p s m.paced m.fetching m.behind e
                    (subst (λ i. format_of i.op ≡ j_type) same f)
                    (subst (λ i. is_ret i.op ≡ true) same r) (left - 2) all rest acc))
        ]
      ]

pub sub-zero : (n : ℕ) → n - 0 ≡ n
sub-zero n = omega arith

-- What holds of a pipeline from reset, with forwarding or without, when the interpreter ends in
-- `end`: without forwarding the program has to be separated.
pub run-Paced :
    (program : Program) (bytes max_steps max_cycles : ℕ) (forwarding : Bool) (end : Interpreter)
    → Paced program forwarding
    → AllDecode program
    → Interpreter.run max_steps program (new_interpreter bytes) ≡ ok end
    → 3 * end.retired + 2 ≤ max_cycles
    → (final : Pipeline) × (run max_cycles program (new_pipeline bytes forwarding) ≡ ok final)
      × (final.regs ≡ end.regs)
      × (final.mem ≡ end.mem)
      × (final.stats.retired ≡ end.retired)
      × (final.stats.cycles
          ≡ final.stats.retired + final.stats.stall_cycles + 2 * final.stats.flushes + 4)
unfolding run new_interpreter new_pipeline
run-Paced program bytes max_steps max_cycles forwarding end paced all h enough =
    let (m, two) = new-Matches program bytes forwarding paced in
    let (n, count, exact, _) = run_steps program max_steps (new_interpreter bytes) end h in
    let halts =
      follow program all max_cycles n (new_pipeline bytes forwarding) (new_interpreter bytes) end m
        (new_words bytes) exact (omega arith) in
    (
      halts.final,
      ap (λ left. run_loop left program (new_pipeline bytes forwarding)) (sub-zero max_cycles)
          ∙ halts.ends,
      halts.registers,
      halts.memory,
      halts.retired,
      omega (arith, halts.cycle_account, halts.flush_account),
    )

-- Correctness of the pipeline with forwarding, from reset: if every word of the program decodes and
-- the interpreter ends in the state `end`, then the pipeline drains within any limit of at least
-- three cycles for each instruction and two more, with the registers, the memory and the number of
-- instructions of `end`; it has spent one cycle for each instruction and each stall, two for each
-- flush, and four to fill and drain.
pub run-Halts :
    (program : Program) (bytes max_steps max_cycles : ℕ) (end : Interpreter)
    → AllDecode program
    → Interpreter.run max_steps program (new_interpreter bytes) ≡ ok end
    → 3 * end.retired + 2 ≤ max_cycles
    → (final : Pipeline) × (run max_cycles program (new_pipeline bytes true) ≡ ok final)
      × (final.regs ≡ end.regs)
      × (final.mem ≡ end.mem)
      × (final.stats.retired ≡ end.retired)
      × (final.stats.cycles
          ≡ final.stats.retired + final.stats.stall_cycles + 2 * final.stats.flushes + 4)
run-Halts program bytes max_steps max_cycles end all h enough =
    run-Paced program bytes max_steps max_cycles true end (λ off. absurd (true-not-false off)) all h
      enough

-- Correctness of the pipeline without forwarding, from reset: if every word of the program decodes,
-- the program is separated (the instruction behind a branch, a jump or a RET reads no register that
-- this one or the instruction at the address before it writes) and the interpreter ends in the
-- state `end`, then the pipeline drains within any limit of at least three cycles for each
-- instruction and two more, with the registers, the memory and the number of instructions of `end`,
-- and with the same account of its cycles.
pub run-Halts_stalling :
    (program : Program) (bytes max_steps max_cycles : ℕ) (end : Interpreter)
    → AllDecode program
    → Separated program
    → Interpreter.run max_steps program (new_interpreter bytes) ≡ ok end
    → 3 * end.retired + 2 ≤ max_cycles
    → (final : Pipeline) × (run max_cycles program (new_pipeline bytes false) ≡ ok final)
      × (final.regs ≡ end.regs)
      × (final.mem ≡ end.mem)
      × (final.stats.retired ≡ end.retired)
      × (final.stats.cycles
          ≡ final.stats.retired + final.stats.stall_cycles + 2 * final.stats.flushes + 4)
run-Halts_stalling program bytes max_steps max_cycles end all separated h enough =
    run-Paced program bytes max_steps max_cycles false end (λ off. separated) all h enough

-- ===== src/Sim/Pipeline/Execution.antt =====
-- EX, MEM and WB of src/sim/pipeline.cpp together do to the registers and the memory what the
-- interpreter does to them, instruction by instruction.
use pipeline_lab.Prelude.{ℕ, ◌+◌, ◌<◌, ◌≡◌, refl, sym, ◌∙◌, arith, true, false, ok}
use pipeline_lab.Prelude.Int.{◌+ℤ◌}
use pipeline_lab.Words.{IsWord, u32, signed, to_word}
use pipeline_lab.Words.Offset.{to_word-pos-signed, to_word-signed-signed}
use pipeline_lab.Isa.Encoding.Decoding.{IsDecoded}
use pipeline_lab.Sim.RegisterFile.{RegisterFile, read}
use pipeline_lab.Sim.Interpreter
use pipeline_lab.Sim.Interpreter.{Interpreter}
use pipeline_lab.Sim.Interpreter.Semantics.{
  Executes, alu_reg, alu_imm, load, store, taken, not_taken, jump, link,
}
use pipeline_lab.Sim.Bounds.{AreWords, read-IsWord}
use pipeline_lab.Sim.Pipeline.State.{Latch, make_control, no_reg, no_control}
use pipeline_lab.Sim.Pipeline.Stages.{access, written, Execution, execute_latch, port, add_offset}

-- The latch that `execute` fills, with MEM and WB after it, takes the state `s` to `s'`; and its
-- requests to the fetch unit lead to the PC of `s'`.
pub record Commits (l : Latch) (ex : Execution) (s s' : Interpreter) : Type 0 where
  pub done : Latch
  pub accessed : access ex.next s.mem ≡ ok (s'.mem, done)
  pub written_back : written done s.regs ≡ s'.regs
  pub same_control : ex.next.ctrl ≡ l.ctrl
  pub live : ex.next.bubble ≡ false
  pub goes_on : ex.stop_fetch ≡ false
  pub flushed : ex.flush_younger ≡ true → (ex.count_flush ≡ true) × (ex.new_pc ≡ s'.pc)
  pub sequential : ex.flush_younger ≡ false → s'.pc ≡ u32 (s.pc + 4)
  pub load_stays : l.ctrl.mem_read ≡ true → ex.flush_younger ≡ false

pub port-read : (r : RegisterFile) (reg : ℕ) → reg < 16 → port r reg ≡ read r reg
unfolding port
port-read r reg h = ground arith

-- The two computations of an effective address.
pub address_same :
    (a imm : ℕ)
    → IsWord a
    → IsWord imm
    → to_word (signed a +ℤ signed imm) ≡ Interpreter.add_offset a imm
unfolding Interpreter.add_offset
address_same a imm ha hi = to_word-signed-signed a imm ha hi ∙ sym (to_word-pos-signed a imm ha hi)

-- A latch that ID has filled for an instruction of the interpreter's PC.
abbrev pub decoded_latch : Latch → Interpreter → Latch
decoded_latch l s = record l { bubble = false; ctrl = make_control l.inst; pc = s.pc }

pub execute_latch_commits :
    (l : Latch) (s : Interpreter) {s' : Interpreter}
    → IsDecoded l.inst
    → AreWords s.regs s.mem
    → Executes l.inst s s'
    → Commits
        (decoded_latch l s)
        (execute_latch
          (decoded_latch l s)
          (port s.regs (make_control l.inst).a_reg)
          (port s.regs (make_control l.inst).b_reg))
        s
        s'
unfolding execute_latch make_control access written add_offset Interpreter.add_offset
execute_latch_commits l s d w (alu_reg f) =
    rw (f, port-read s.regs l.inst.rs d.rs_small, port-read s.regs l.inst.rt d.rt_small)
      (record {
        done = _;
        accessed = refl;
        written_back = refl;
        same_control = refl;
        live = refl;
        goes_on = refl;
        flushed = λ h. cc;
        sequential = λ h. refl;
        load_stays = λ h. cc;
      })
execute_latch_commits l s d w (alu_imm f n t) =
    rw (f, n, t, port-read s.regs l.inst.rs d.rs_small)
      (record {
        done = _;
        accessed = refl;
        written_back = refl;
        same_control = refl;
        live = refl;
        goes_on = refl;
        flushed = λ h. cc;
        sequential = λ h. refl;
        load_stays = λ h. cc;
      })
execute_latch_commits l s d w (load v f n e) =
    rw
      (
        f,
        n,
        port-read s.regs l.inst.rs d.rs_small,
        address_same (read s.regs l.inst.rs) l.inst.imm (read-IsWord s.regs l.inst.rs w.regs_words)
            d.imm_word,
      )
      (record {
        done = record l {
          bubble = false;
          pc = s.pc;
          ctrl = record no_control {
            reg_write = true;
            dest_reg = l.inst.rd;
            mem_read = true;
            alu_uses_imm = true;
            a_reg = l.inst.rs;
          };
          alu_result = Interpreter.add_offset (read s.regs l.inst.rs) l.inst.imm;
          store_data = port s.regs no_reg;
          write_data = v;
        };
        accessed = rw e;
        written_back = refl;
        same_control = refl;
        live = refl;
        goes_on = refl;
        flushed = λ h. cc;
        sequential = λ h. refl;
        load_stays = λ h. refl;
      })
execute_latch_commits l s d w (store m f n t e) =
    rw
      (
        f,
        n,
        t,
        port-read s.regs l.inst.rs d.rs_small,
        port-read s.regs l.inst.rd d.rd_small,
        address_same (read s.regs l.inst.rs) l.inst.imm (read-IsWord s.regs l.inst.rs w.regs_words)
            d.imm_word,
      )
      (record {
        done = record l {
          bubble = false;
          pc = s.pc;
          ctrl = record no_control {
            mem_write = true;
            alu_uses_imm = true;
            a_reg = l.inst.rs;
            b_reg = l.inst.rd;
          };
          alu_result = Interpreter.add_offset (read s.regs l.inst.rs) l.inst.imm;
          store_data = read s.regs l.inst.rd;
          write_data = Interpreter.add_offset (read s.regs l.inst.rs) l.inst.imm;
        };
        accessed = rw e;
        written_back = refl;
        same_control = refl;
        live = refl;
        goes_on = refl;
        flushed = λ h. cc;
        sequential = λ h. refl;
        load_stays = λ h. cc;
      })
execute_latch_commits l s d w (taken f t) =
    rw (f, port-read s.regs l.inst.rs d.rs_small, port-read s.regs l.inst.rt d.rt_small, t)
      (record {
        done = _;
        accessed = refl;
        written_back = refl;
        same_control = refl;
        live = refl;
        goes_on = refl;
        flushed = λ h. (refl, refl);
        sequential = λ h. cc;
        load_stays = λ h. cc;
      })
execute_latch_commits l s d w (not_taken f t) =
    rw (f, port-read s.regs l.inst.rs d.rs_small, port-read s.regs l.inst.rt d.rt_small, t)
      (record {
        done = _;
        accessed = refl;
        written_back = refl;
        same_control = refl;
        live = refl;
        goes_on = refl;
        flushed = λ h. cc;
        sequential = λ h. refl;
        load_stays = λ h. cc;
      })
execute_latch_commits l s d w (jump f r n) =
    rw (f, r, n)
      (record {
        done = _;
        accessed = refl;
        written_back = refl;
        same_control = refl;
        live = refl;
        goes_on = refl;
        flushed = λ h. (refl, refl);
        sequential = λ h. cc;
        load_stays = λ h. cc;
      })
execute_latch_commits l s d w (link f r n) =
    rw (f, r, n)
      (record {
        done = _;
        accessed = refl;
        written_back = refl;
        same_control = refl;
        live = refl;
        goes_on = refl;
        flushed = λ h. (refl, refl);
        sequential = λ h. cc;
        load_stays = λ h. cc;
      })

-- ===== src/Lib.antt =====
-- A model of Pipeline Lab, a five-stage RISC pipeline simulator in C++: its 32-bit instruction set,
-- its sequential reference interpreter and its cycle-accurate pipeline.
--
-- The program. `include/plab/isa` and `src/isa` define the instructions and their machine words;
-- `src/asm` turns source text into a `Program`, the words with their source lines and the symbols.
-- Both simulators of `src/sim` run such a program over a register file, a data memory and the ALU:
-- the interpreter one instruction after the other, the pipeline in stages IF, ID, EX, MEM and WB
-- with forwarding, stalls and flushes. The interpreter is the reference for the pipeline. `src/viz`
-- renders what a pipeline has recorded, and `src/main.cpp` reads the options and the file, runs the
-- simulators and prints.
--
-- The files.
--   Prelude, Prelude/*      shared names, Boolean tests, indexed lists, signed integers, results
--   Words, Words/*          32-bit patterns and the bit operations on them
--   Isa/Opcode              include/plab/isa/instruction.hpp, src/isa/instruction.cpp: `Opcode`,
--                           `Format`, `formatOf`, `writesRegister`, `isBranch`, `isJump`, `isLoad`,
--                           `isStore`
--   Isa/Instruction         `Instruction`, and include/plab/isa/registers.hpp
--   Isa/Disassemble         `mnemonicOf`, `disassemble`
--   Isa/Encoding            include/plab/isa/encoding.hpp, src/isa/encoding.cpp: `encode`, `decode`
--   Isa/Encoding/*          what the words are in arithmetic, and the round trips
--   Asm/Program             include/plab/asm/assembler.hpp: `Program`
--   Asm/Token               include/plab/asm/lexer.hpp: `TokenKind`, `Token`
--   Asm/Lexer               src/asm/lexer.cpp: `tokenize`
--   Asm/Lexer/*             what the lexer can end with (Ends), and decimal numbers (Decimal)
--   Asm/Statement           include/plab/asm/parser.hpp: `Operand`, `Statement`; `AssembleError`
--   Asm/Parser              src/asm/parser.cpp: `parseOperand`, `parse`
--   Asm/Parser/Outcome      what the parser can end with
--   Asm/Translator          src/asm/assembler.cpp: the class `Translator`
--   Asm/Translator/*        what it produces (Laws), branch and jump targets (Targets), and which of
--                           the encoder's exceptions are left (Fitting)
--   Asm/Assembler           src/asm/assembler.cpp: the two passes of `assemble`
--   Asm/Source              `assemble` on source text
--   Asm/Assembler/*         the addresses of the labels (Addresses), the assembled words (Code), the
--                           labels that pass 1 refuses (Duplicates), what pass 2 throws (Failures),
--                           and assembled programs in the two simulators (Runs)
--   Asm/Listing             source texts by their pieces, with the tokens that the lexer is to find
--                           (Rounds, Lexed), by their lines, with the statements that the parser is to
--                           read (Items, Parsed, Statements, Lines, Printed), and by the instructions that
--                           `disassemble` prints (Instructions, Translated, Assembled)
--   Sim/RegisterFile        include/plab/sim/register_file.hpp
--   Sim/Memory              include/plab/sim/memory.hpp
--   Sim/Alu                 src/sim/alu.cpp: `aluResult`, `branchTaken`
--   Sim/Interpreter         src/sim/interpreter.cpp: `Interpreter::run`, as `step` and `run`
--   Sim/Interpreter/*       an instruction as a relation, branch by branch (Semantics), and as docs/isa.md
--                           has it (Meaning), the runs that end (Runs, Typing), and what a round and a run throw (Thrown, Faults)
--   Sim/Bounds              the values of registers and memory words
--   Sim/Pipeline/State      include/plab/sim/pipeline.hpp: `Control`, `Latch`, `PipelineStats`,
--                           `Pipeline`
--   Sim/Pipeline/Stages     src/sim/pipeline.cpp: `forwardValue`, `detectStall`, `writeBack`,
--                           `memoryStage`, `execute`, `decode`, `fetchInto`, `recordStages`
--   Sim/Pipeline/Cycle      `Pipeline::run`, as `cycle`, `run_loop` and `run`
--   Sim/Pipeline/*          the refinement: how a cycle moves the latches (Stepping, Committing,
--                           Fetching), what an instruction in EX reads with forwarding and without
--                           (Operands), the condition on programs without it (Separation), which
--                           interpreter state a pipeline state stands for (Refinement, Working),
--                           that a cycle keeps to it (Advance, Execution, Retire), when the next
--                           instruction gets to EX (Progress), the end (Drain, Finish), the runs
--                           of the interpreter that end (Correct), that the data memory stops
--                           (Faults) and that do not end (Endless), and the converse (Complete); and
--                           the hazard unit (Forwarding, Hazards)
--   Sim/Pipeline/Trace/*    what each stage hands on (Held), the calls of a cycle and what they return
--                           (Parts, Worked), what a cycle adds to the trace (Shifts), that no two
--                           events collide (Apart), and the invariant of the trace (Recorded)
--   Viz/Diagram             src/viz/trace.cpp: `renderPipelineDiagram`
--   Viz/Diagram/*           what its cells show (Cells), how long their parts are (Layout), and the
--                           lines byte by byte (Table)
--   Viz/Report              `renderPerformanceReport`, with `cpi` and `ipc` of
--                           include/plab/sim/pipeline.hpp
--   Viz/Report/Accuracy     the rounding of both to three decimals
--   Cli/Options             src/main.cpp: `Options`, `parseMemCount`, the loop over the arguments
--   Cli/Options/*           the counts of `--mem` (Counts), one argument (Arguments), and the arguments
--                           that ask for given options (Given)
--   Cli/Messages            the texts of the exceptions
--   Cli/Output              `printRegisters`, `printMemory`, and the runs of the two simulators
--   Cli/Output/Words        the lines of a memory dump
--   Cli/Main                `printUsage`, the handlers and `main`
--   Cli/Main/*              when the exit code is 0 (Success), the reports that throw nothing (Quiet), and
--                           what is printed with both modes (Agreement) and with the pipeline alone
--                           (Simulation)
--   */Tests                 runs on concrete programs
--
-- The model. A `std::int32_t` is its 32-bit pattern, a natural number below 2 ^ 32, and arithmetic
-- is written with its wrap-around. An exception is the `err` of a `Result`: `Fault` for the
-- simulators, `EncodingError` and `DecodingError` for the encoder; the state that an exception
-- leaves behind is not modelled, except what has been printed. Texts are lists of bytes. An access
-- that C++ leaves undefined has its own value: a data access past the storage is the fault
-- `outside_storage`, and a register index of 16 or more, which no decoded instruction has, reads 0.
-- A write past the end of the diagram's grid makes the diagram `none`. The references of `execute`
-- are a record `Execution` of outputs. A run of the program is a `Process`: what it prints on its
-- two streams, and its exit code. The file system is the parameter `open_file` of `main`, a
-- function from a path to the bytes of a file, if it can be opened. A `double` is its mantissa over
-- a power of 2.
--
-- Without forwarding the hazard unit's stall can hide a taken branch, so the refinement is stated
-- there for programs in which the instruction behind a branch, a jump or a RET reads no register
-- that the transfer or the instruction in front of it writes; Sim/Pipeline/Separation has the
-- condition.
--
-- Loops. `Interpreter::run` recurses on the steps left below `maxSteps`, `Pipeline::run` on the
-- cycles left below `maxCycles`; both limits are the code's own, so a run out of fuel is the
-- exception that the code throws. The lexer recurses on one unit of fuel for each byte and one
-- more, since every round passes a byte, and the parser on one for each token and one more, since
-- every round passes a token.
--
-- `denominator_for` doubles at most 128 times, and counts below 2^53 need fewer than 107 doublings.
--
-- Not modelled: the tests and the build files; the flushing of the two streams and their order in
-- time. The counters (`int`, 64-bit) are natural numbers without a bound, and the counts of the
-- report are taken to be below 2^53, so that a `double` holds them.
pub mod Asm
pub mod Cli
pub mod Isa
pub mod Prelude
pub mod Sim
pub mod Viz
pub mod Words

-- ===== src/Sim/Fault.antt =====
-- What the simulators throw: MemoryError (include/plab/sim/memory.hpp), ExecError
-- (include/plab/sim/interpreter.hpp) and the decoder's DecodingError. `outside_storage` is no
-- exception: it is an index past the end of a `std::vector`, which C++ leaves undefined.
use pipeline_lab.Prelude.{ℕ, Result, ok, err}
use pipeline_lab.Isa.Encoding.{DecodingError}

pub data Fault : Type 0 where
  unaligned : ℕ → Fault
  out_of_bounds : ℕ → Fault
  outside_storage : ℕ → Fault
  not_decoded : DecodingError → Fault
  pc_out_of_range : ℕ → Fault
  step_limit cycle_limit : Fault

-- A decoding error passes through the simulators.
abbrev pub or_fault {ℓ} : {A : Type ℓ} → Result DecodingError A → Result Fault A
or_fault (ok a) = ok a
or_fault (err e) = err (not_decoded e)

-- ===== src/Sim/Memory/Laws.antt =====
-- The data memory of include/plab/sim/memory.hpp: which accesses succeed, and what a successful
-- one has done.
use pipeline_lab.Prelude.{
  ℕ, ◌+◌, ◌*◌, ◌/◌, ◌%◌, ◌<◌, ◌≤◌, ◌≡◌, ◌≢◌, sym, ap, arith, ◌⊎◌, ◌↔◌, length, get_elem?, set, some,
  ok, err, length-replicate, length-set, get_elem?-set_self, get_elem?-set_ne, get_elem?-inside,
  get_elem?-outside, replicate,
}
use pipeline_lab.Words.{IsWord}
use pipeline_lab.Sim.Fault.{outside_storage}
use pipeline_lab.Sim.Memory.{DataMemory, new_memory, check_access, load_word, store_word}

pub load_word-eq-ok :
    (m : DataMemory) (addr : ℕ) {v : ℕ}
    → load_word m addr ≡ ok v
    → (check_access m addr ≡ ok tt) × (get_elem? m.words (addr / 4) ≡ some v)
unfolding load_word
load_word-eq-ok m addr e = ground arith

pub store_word-eq-ok :
    (m : DataMemory) (addr v : ℕ) {m' : DataMemory}
    → store_word m addr v ≡ ok m'
    → (addr / 4 < length m.words) × (m' ≡ record m { words = set m.words (addr / 4) v })
unfolding store_word
store_word-eq-ok m addr v e = ground arith

-- What the constructor sets up: one word for every four bytes, and a whole number of words.
abbrev pub IsMemory : DataMemory → Type 0
IsMemory m = (m.size_bytes ≡ length m.words * 4) × IsWord m.size_bytes

pub new_memory-IsMemory : (bytes : ℕ) → IsWord bytes → IsMemory (new_memory bytes)
unfolding new_memory
new_memory-IsMemory bytes small =
    let len : length {A = ℕ} (replicate (bytes / 4) 0) ≡ bytes / 4 =
      length-replicate (bytes / 4) 0 in
    (rw len (omega arith), omega arith)

-- In a well-formed memory, an access of a 32-bit address passes the check exactly when the address
-- is aligned and either inside the memory or the last word of the address space, where the sum of
-- the check wraps to 0.
pub check_access-eq-ok_iff :
    (m : DataMemory) (addr : ℕ)
    → IsMemory m
    → IsWord addr
    → (check_access m addr ≡ ok tt)
      ↔ (addr % 4 ≡ 0) × ((addr + 4 ≤ m.size_bytes) ⊎ (addr ≡ 4294967292))
unfolding check_access
check_access-eq-ok_iff m addr good small = (λ e. ground arith, λ (aligned, room). ground arith)

-- In a well-formed memory, a load from the last word of the address space passes the check and
-- leaves the storage.
pub load_word-wrapped :
    (m : DataMemory) → IsMemory m → load_word m 4294967292 ≡ err (outside_storage 4294967292)
unfolding load_word check_access
load_word-wrapped m good =
    let past : length m.words ≤ 4294967292 / 4 = omega arith in
    let nothing = get_elem?-outside m.words (4294967292 / 4) past in ground arith

-- A load from an aligned address inside a well-formed memory succeeds.
pub load_word-in_bounds :
    (m : DataMemory) (addr : ℕ)
    → IsMemory m
    → addr % 4 ≡ 0
    → addr + 4 ≤ m.size_bytes
    → (v : ℕ) × (load_word m addr ≡ ok v)
unfolding load_word check_access
load_word-in_bounds m addr good aligned room =
    let inside : addr / 4 < length m.words = omega arith in
    let (v, found) = get_elem?-inside m.words (addr / 4) inside in (v, ground arith)

-- A store that succeeds keeps the memory well formed; a load from its address then gives the value
-- stored, and a load from any address of another word what it gave before.
pub store_word-load_word :
    (m m' : DataMemory) (addr v : ℕ)
    → IsMemory m
    → store_word m addr v ≡ ok m'
    → IsMemory m'
      × (load_word m' addr ≡ ok v)
      × ((other : ℕ) → other / 4 ≢ addr / 4 → load_word m' other ≡ load_word m other)
unfolding load_word store_word check_access
store_word-load_word m m' addr v good e =
    let (inside, exact) = store_word-eq-ok m addr v e in
    let now = get_elem?-set_self m.words (addr / 4) v inside in
    let kept = length-set m.words (addr / 4) v in
    let size = ap (λ t. t.size_bytes) exact in
    let content = ap (λ t. t.words) exact in
    (
      (rw size (rw content (rw kept good.0)), rw size good.1),
      rw content (ground arith),
      λ other apart.
          let same = get_elem?-set_ne m.words v (λ e. apart (sym e)) in rw content (ground arith),
    )

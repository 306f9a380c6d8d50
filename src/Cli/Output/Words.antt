-- ===== src/Cli/Output/Words.antt =====
-- `printMemory` of src/main.cpp prints the words of the memory and never throws.
use pipeline_lab.Prelude.{
  ℕ, zero, suc, ◌+◌, ◌*◌, ◌/◌, ◌^◌, ◌<◌, ◌≤◌, ◌≡◌, refl, sym, ap, ◌∙◌, arith, List, [], ◌∷◌, ◌++◌,
  length, get_elem?, get_elem?-inside, take, drop, true, false, ltb, Bool-cases, inl, inr, some, ok,
}
use pipeline_lab.Prelude.Text.{codes, decimal}
use pipeline_lab.Words.{u32}
use pipeline_lab.Asm.Program.{Text}
use pipeline_lab.Sim.Memory.{DataMemory, load_word, check_access}
use pipeline_lab.Sim.Memory.Laws.{IsMemory}
use pipeline_lab.Cli.Output.{Output, print, and_then, memory_line, print_words, print_memory}

-- The lines of the words `values`, the first of them the word `i` of the memory.
unfoldable pub memory_lines : ℕ → List ℕ → Text
memory_lines i [] = []
memory_lines i (value ∷ values) = memory_line (i * 4) value ++ memory_lines (i + 1) values

drop-get_elem? {ℓ} :
    {A : Type ℓ} (xs : List A) (i : ℕ) {v : A}
    → get_elem? xs i ≡ some v
    → drop i xs ≡ v ∷ drop (suc i) xs
drop-get_elem? [] i e = cc
drop-get_elem? (x ∷ xs) zero {v} e = let same : x ≡ v = cc in ap (λ y. y ∷ xs) same
drop-get_elem? (x ∷ xs) (suc i) e = drop-get_elem? xs i e

drop-outside {ℓ} : {A : Type ℓ} (xs : List A) (i : ℕ) → length xs ≤ i → drop i xs ≡ []
drop-outside [] zero h = refl
drop-outside [] (suc i) h = refl
drop-outside (x ∷ xs) zero h = absurd (omega arith)
drop-outside (x ∷ xs) (suc i) h = drop-outside xs i (omega arith)

load_word-at :
    (mem : DataMemory) (i v : ℕ)
    → IsMemory mem
    → i < length mem.words
    → get_elem? mem.words i ≡ some v
    → load_word mem (i * 4) ≡ ok v
unfolding load_word check_access
load_word-at mem i v good lt found =
    let index : i * 4 / 4 ≡ i = omega arith in
    let there : get_elem? mem.words (i * 4 / 4) ≡ some v = rw index found in ground arith

module _ (mem : DataMemory) (good : IsMemory mem) (room : mem.size_bytes + 4 < 2 ^ 32) where
  print_words-step :
      (left i v : ℕ)
      → i < length mem.words
      → load_word mem (i * 4) ≡ ok v
      → print_words (suc left) i mem
        ≡ (and_then (print (memory_line (i * 4) v)) (print_words left (i + 1) mem))
  unfolding print_words
  print_words-step left i v lt loaded =
      let addr : u32 (u32 i * 4) ≡ i * 4 = omega arith in
      let stays : ltb mem.size_bytes (u32 (i * 4 + 4)) ≡ false = ground arith in
      rw (print_words, addr, stays, addr, loaded) refl

  print_words-end : (left i : ℕ) → i ≡ length mem.words → print_words (suc left) i mem ≡ print []
  unfolding print_words
  print_words-end left i end =
      let addr : u32 (u32 i * 4) ≡ i * 4 = omega arith in
      let leaves : ltb mem.size_bytes (u32 (i * 4 + 4)) ≡ true = ground arith in
      rw (print_words, addr, leaves) refl

  print_words-lines :
      (left i : ℕ)
      → i ≤ length mem.words
      → print_words left i mem ≡ print (memory_lines i (take left (drop i mem.words)))
  unfolding memory_lines print_words
  print_words-lines zero i le = refl
  print_words-lines (suc left) i le = elim (Bool-cases (ltb i (length mem.words))) [
    | inl lt ↦
        let (v, found) = get_elem?-inside mem.words i (ground arith) in
        let loaded = load_word-at mem i v good (ground arith) found in
        let next : suc i ≡ i + 1 = omega arith in
        print_words-step left i v (ground arith) loaded
        ∙ ap (λ (o : Output). and_then (print (memory_line (i * 4) v)) o)
            (print_words-lines left (i + 1) (ground arith))
        ∙ ap (λ (ws : List ℕ). print (memory_lines i (take (suc left) ws)))
            (sym (drop-get_elem? mem.words i found ∙ ap (λ n. v ∷ drop n mem.words) next))
    | inr ge ↦
        let end : i ≡ length mem.words = ground arith in
        print_words-end left i end
        ∙ ap (λ (ws : List ℕ). print (memory_lines i (take (suc left) ws)))
            (sym (drop-outside mem.words i (ground arith)))
  ]

  -- A dump of a well-formed memory, of less than 2^32 - 4 bytes, never throws: it is the lines of as
  -- many words from the first on as were asked for, or of all of them if there are fewer.
  pub print_memory-lines :
      (words : ℕ)
      → print_memory mem words
        ≡ print (
            codes "=== Data memory (first "
            ++ decimal words
            ++ codes " words) ===\n"
            ++ memory_lines 0 (take words mem.words))
  unfolding print_memory
  print_memory-lines words =
      ap
        (λ (o : Output).
          and_then
            (print (codes "=== Data memory (first " ++ decimal words ++ codes " words) ===\n")) o)
        (print_words-lines words 0 (omega arith))

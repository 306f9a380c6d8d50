-- ===== src/Asm/Parser/Outcome.antt =====
-- What src/asm/parser.cpp can end with: statements whose registers exist, or one of its exceptions.
use pipeline_lab.Prelude.{
  Yields, Yields->>=, Yields-weaken, Yields-elim, Yields-guard, ℕ, zero, suc, ◌%◌, ◌≤◌, ◌<◌, ◌≡◌,
  refl, ap, arith, List, [], ◌∷◌, length, All, Bool, true, false, not, ◌||◌, guard,
}
use pipeline_lab.Prelude.Int.{ℤ, pos, ltb_ℤ}
use pipeline_lab.Words.{to_word}
use pipeline_lab.Asm.Token.{
  TokenKind, identifier, register_name, number, comma, colon, lparen, rparen, newline, end_of_input,
  Token, same_kind,
}
use pipeline_lab.Asm.Statement.{Operand}
use pipeline_lab.Asm.Parser.{
  ParseReason, out_of_fuel, ParseError, advance, check, expect, register_index, base_register,
  operand_as, parse_operand, parse_operands, at_end_of_statement, parse_statement, parse_loop,
  parse,
}

abbrev pub is_out_of_fuel : ParseReason → Bool
is_out_of_fuel out_of_fuel = true
is_out_of_fuel _ = false

-- An exception of the code.
abbrev pub Thrown : ParseError → Type 0
Thrown e = is_out_of_fuel e.reason ≡ false

-- The tokens that are left are no more than `n`.
abbrev Within {ℓ} : {A : Type ℓ} → ℕ → A × List Token → Type 0
Within n (_, toks) = length toks ≤ n

advance-le : (toks : List Token) → length (advance toks) ≤ length toks
advance-le [] = omega arith
advance-le (_ ∷ toks) = omega arith

-- A token of another kind than End is one that the list has.
advance-lt :
    (k : TokenKind) (toks : List Token)
    → same_kind end_of_input k ≡ false
    → check k toks ≡ true
    → length (advance toks) < length toks
unfolding check
advance-lt k [] other checked = cc
advance-lt k (_ ∷ toks) other checked = omega arith

expect-Yields :
    (k : TokenKind) (toks : List Token)
    → Yields Thrown
        (λ (p : Token × List Token). (check k toks ≡ true) × (p.1 ≡ advance toks))
        (expect k toks)
unfolding expect
expect-Yields k toks =
    Yields->>= Thrown _ _ (guard (check k toks) _) _ (Yields-guard Thrown (check k toks) _ refl)
      (λ _ checked. (checked, refl))

register_index-Yields : (tok : Token) → Yields Thrown (λ r. r < 16) (register_index tok)
unfolding register_index
register_index-Yields tok =
    Yields->>= Thrown _ _
      (guard (not (ltb_ℤ tok.value (pos 0) || not (ltb_ℤ tok.value (pos 16)))) _) _
      (Yields-guard Thrown _ _ refl) (λ _ checked. small tok.value checked)
  where
    small : (v : ℤ) → not (ltb_ℤ v (pos 0) || not (ltb_ℤ v (pos 16))) ≡ true → to_word v % 256 < 16
    small v h = ground arith

le_trans : {a b c : ℕ} → a ≤ b → b ≤ c → a ≤ c
le_trans h k = omega arith

-- The register of `(base)` exists, and what is left is no longer than before.
base_register-Yields :
    (toks : List Token)
    → Yields Thrown (λ p. (p.0 < 16) × Within (length toks) p) (base_register toks)
unfolding base_register
base_register-Yields toks =
    Yields->>= Thrown _ _ (expect register_name toks) _ (expect-Yields register_name toks)
      λ (base, toks') (_, first).
        Yields->>= Thrown _ _ (expect rparen toks') _ (expect-Yields rparen toks')
          λ (_, toks'') (_, second).
            Yields->>= Thrown _ _ (register_index base) _ (register_index-Yields base)
              λ index small.
                (small, rw (second, first) (le_trans (advance-le (advance toks)) (advance-le toks)))

-- An operand names a register that exists, and is at least one token long.
abbrev IsOperand : ℕ → Operand × List Token → Type 0
IsOperand n p = (p.0.reg < 16) × Within n p

operand_as-Yields :
    (k : TokenKind) (tok : Token) (toks : List Token)
    → Yields Thrown (IsOperand (length toks)) (operand_as k tok toks)
unfolding operand_as
operand_as-Yields register_name tok toks =
    Yields->>= Thrown _ _ (register_index tok) _ (register_index-Yields tok)
      λ index small. (small, omega arith)
operand_as-Yields identifier tok toks = (omega arith, omega arith)
operand_as-Yields lparen tok toks =
    Yields->>= Thrown _ _ (base_register toks) _ (base_register-Yields toks) λ p good. good
operand_as-Yields number tok toks =
    Yields-elim Thrown _ (check lparen toks) _ _
      (λ _.
        Yields->>= Thrown _ _ (base_register (advance toks)) _ (base_register-Yields (advance toks))
          λ _ (small, left). (small, le_trans left (advance-le toks)))
      (λ _. (omega arith, omega arith))
operand_as-Yields comma tok toks = refl
operand_as-Yields _ tok toks = refl

parse_operand-Yields :
    (toks : List Token)
    → Yields Thrown (λ p. (p.0.reg < 16) × (suc (length p.1) ≤ length toks)) (parse_operand toks)
unfolding parse_operand
parse_operand-Yields [] = refl
parse_operand-Yields (tok ∷ toks) =
    Yields-weaken Thrown _ _ (operand_as tok.kind tok toks)
      (λ _ (small, left). (small, omega arith)) (operand_as-Yields tok.kind tok toks)

-- Every operand names a register that exists.
abbrev pub RegistersExist : List Operand → Type 0
RegistersExist = All (λ op. op.reg < 16)

parse_operands-Yields :
    (fuel : ℕ) (toks : List Token)
    → length toks ≤ fuel
    → 0 < fuel
    → Yields Thrown (λ p. RegistersExist p.0 × Within (length toks) p) (parse_operands fuel toks)
unfolding parse_operands same_kind
parse_operands-Yields zero toks enough some = absurd (omega arith)
parse_operands-Yields (suc fuel) toks enough some =
    Yields->>= Thrown _ _ (parse_operand toks) _ (parse_operand-Yields toks)
      λ (op, toks') (small, left).
        Yields-elim Thrown _ (check comma toks') _ _
          (λ more.
            let shorter = advance-lt comma toks' refl more in
            Yields->>= Thrown _ _ (parse_operands fuel (advance toks')) _
              (parse_operands-Yields fuel (advance toks') (omega arith) (omega arith))
              λ _ (others, left'). ((small, others), omega arith))
          (λ _. ((small, tt), omega arith))

-- The tokens of an operand are there: past the list, a peek is at the end of the statement.
some_token : (toks : List Token) → at_end_of_statement toks ≡ false → 0 < length toks
unfolding at_end_of_statement check
some_token [] inside = absurd (ground arith)
some_token (tok ∷ toks) inside = omega arith

parse_statement-Yields :
    (head : Token) (toks : List Token)
    → Yields Thrown
        (λ p. RegistersExist p.0.operands × Within (length toks) p)
        (parse_statement head toks)
unfolding parse_statement
parse_statement-Yields head toks =
    Yields-elim Thrown _ (check colon toks) _ _ (λ _. (tt, advance-le toks))
      (λ _.
        Yields->>= Thrown (λ p. RegistersExist p.0 × Within (length toks) p) _ _ _
          (Yields-elim Thrown _ (at_end_of_statement toks) _ _ (λ _. (tt, omega arith))
            (λ inside.
              parse_operands-Yields (length toks) toks (omega arith) (some_token toks inside)))
          λ (ops, toks') (good, left).
            Yields->>= Thrown _ _ (guard (at_end_of_statement toks') _) _
              (Yields-guard Thrown _ _ refl) λ _ _. (good, left))

parse_loop-Yields :
    (fuel : ℕ) (toks : List Token)
    → length toks < fuel
    → Yields Thrown (All (λ s. RegistersExist s.operands)) (parse_loop fuel toks)
unfolding parse_loop same_kind
parse_loop-Yields zero toks enough = absurd (omega arith)
parse_loop-Yields (suc fuel) toks enough =
    Yields-elim Thrown _ (check end_of_input toks) _ _ (λ _. tt)
      λ _.
        Yields-elim Thrown _ (check newline toks) _ _
          (λ next.
            let shorter = advance-lt newline toks refl next in
            parse_loop-Yields fuel (advance toks) (omega arith))
          (λ _.
            Yields->>= Thrown _ _ (expect identifier toks) _ (expect-Yields identifier toks)
              λ (head, toks') (found, same).
                let shorter = advance-lt identifier toks refl found in
                Yields->>= Thrown _ _ (parse_statement head toks') _
                  (parse_statement-Yields head toks')
                  λ (s, toks'') (good, left).
                    let fewer : length toks'' < fuel = omega (arith, ap length same) in
                    Yields->>= Thrown _ _ (parse_loop fuel toks'') _
                      (parse_loop-Yields fuel toks'' fewer) λ _ others. (good, others))

-- The parser ends: with statements whose operands all name one of the 16 registers, or with one of
-- the exceptions of the code.
pub parse-Yields :
    (toks : List Token) → Yields Thrown (All (λ s. RegistersExist s.operands)) (parse toks)
unfolding parse
parse-Yields toks = parse_loop-Yields (suc (length toks)) toks (omega arith)

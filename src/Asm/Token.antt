-- ===== src/Asm/Token.antt =====
-- include/plab/asm/lexer.hpp: the tokens that the lexer hands to the parser.
use pipeline_lab.Prelude.{ℕ, ◌==◌, [], Bool}
use pipeline_lab.Prelude.Int.{ℤ, pos}
use pipeline_lab.Asm.Program.{Text}

pub data TokenKind : Type 0 where
  identifier register_name number comma colon lparen rparen newline end_of_input : TokenKind

pub record Token : Type 0 where
  pub kind : TokenKind
  pub text : Text
  pub value : ℤ
  pub line : ℕ
  pub column : ℕ

-- The enumerators' values.
unfoldable pub kind_value : TokenKind → ℕ
kind_value identifier = 0
kind_value register_name = 1
kind_value number = 2
kind_value comma = 3
kind_value colon = 4
kind_value lparen = 5
kind_value rparen = 6
kind_value newline = 7
kind_value end_of_input = 8

-- `a == b` on token kinds.
unfoldable pub same_kind : TokenKind → TokenKind → Bool
unfolding kind_value
same_kind a b = kind_value a == kind_value b

-- `Token{}`.
abbrev pub no_token : Token
no_token = record { kind = end_of_input; text = []; value = pos 0; line = 1; column = 1 }

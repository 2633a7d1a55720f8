-- ===== src/ParserRegister.antt =====
-- src/packet_parsers/parser_register.c: the list of parsers, which get every packet. A string is of
-- the type `Str`, and a parser's functions act on a state `S`, which holds what the parsers keep;
-- `parsers` is not a part of it. `rpl_parser_register` gives the parser that is registered.
mod Tests
use foren6_analyzer.Prelude.{ℕ, List, [], ◌∷◌}
use foren6_analyzer.Utlist.{Utlist}

-- `valueInt` is the 64-bit pattern of an `int64_t`.
pub record Field (Str : Type 0) : Type 0 where
  pub name_str : Str
  pub show_str : Str
  pub value_str : Str
  pub value_int : ℕ

pub record Parser (Str S : Type 0) : Type 0 where
  pub parser_name : Str
  pub begin_packet : S → S
  pub parse_field : Field Str → S → S
  pub end_packet : S → S

-- LL_FOREACH over the parsers.
unfoldable pub for_each : {Str S : Type 0} → (Parser Str S → S → S) → List (Parser Str S) → S → S
for_each f [] s = s
for_each f (parser ∷ parsers) s = for_each f parsers (f parser s)

module _ {Str S : Type 0} where
  unfoldable pub parser_add :
      ⦃ll : Utlist (Parser Str S)⦄ → List (Parser Str S) → Parser Str S → List (Parser Str S)
  parser_add ⦃ll = ll⦄ parsers parser = ll.ll_prepend parsers parser

  unfoldable pub parser_register_all :
      ⦃ll : Utlist (Parser Str S)⦄ → Parser Str S → List (Parser Str S)
  parser_register_all rpl_parser = parser_add [] rpl_parser

  unfoldable pub parser_begin_packet : List (Parser Str S) → S → S
  parser_begin_packet parsers s = for_each (λ parser. parser.begin_packet) parsers s

  unfoldable pub parser_parse_field : List (Parser Str S) → Field Str → S → S
  parser_parse_field parsers field s = for_each (λ parser. parser.parse_field field) parsers s

  unfoldable pub parser_end_packet : List (Parser Str S) → S → S
  parser_end_packet parsers s = for_each (λ parser. parser.end_packet) parsers s

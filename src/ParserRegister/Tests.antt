-- ===== src/ParserRegister/Tests.antt =====
-- The registry of src/packet_parsers/parser_register.c with two parsers that note their calls.
use foren6_analyzer.Prelude.{ℕ, ◌+◌, List, [], ◌∷◌, ◌++◌, ◌≡◌, refl}
use foren6_analyzer.Utlist.{Utlist, plain_lists}
use foren6_analyzer.ParserRegister.{
  Field, Parser, for_each, parser_add, parser_register_all, parser_begin_packet, parser_parse_field,
  parser_end_packet,
}

abbrev noting : ℕ → Parser ℕ (List ℕ)
noting n = record {
  parser_name = n;
  begin_packet = λ s. s ++ (n ∷ []);
  parse_field = λ field s. s ++ ((n + field.value_int) ∷ []);
  end_packet = λ s. s ++ ((n + 9) ∷ []);
}

instance abbrev lists : Utlist (Parser ℕ (List ℕ))
lists = plain_lists

abbrev field : Field ℕ
field = record { name_str = 0; show_str = 0; value_str = 0; value_int = 5 }

-- A parser that is added later is called first.
two_parsers :
    (let parsers = parser_add (parser_register_all (noting 10)) (noting 20) in
      parser_end_packet parsers (parser_parse_field parsers field (parser_begin_packet parsers [])))
    ≡ (20 ∷ 10 ∷ 25 ∷ 15 ∷ 29 ∷ 19 ∷ [])
unfolding parser_add parser_register_all parser_begin_packet parser_parse_field parser_end_packet
    for_each
two_parsers = refl

-- ===== src/Tests/Commands.antt =====
-- comon/ext.cpp and helpers.cpp at concrete command lines.
use comon.Base.{List, ◌≡◌, refl, not, ◌||◌, [], ◌∷◌, ◌++◌, arith, Text, codes}
use comon.Base.Result.{Result, ok, err, e_invalidarg}
use comon.Guid.{Guid}
use comon.Ext.Args.{split_args}
use comon.Ext.Args.Words.{Word, bare, quoted, split_args-command_line}
use comon.Ext.Filter.{is_clsid_allowed, parse_filter}
use comon.Ext.Filter.Meaning.{names, names_any, parse_filter-is_clsid_allowed}
use comon.Ext.Number.{evaluate_number, digit, digit_value}
use comon.Ext.Number.Reading.{value, hexadecimal, evaluate_number_prefixed}

-- identifiers of one digit
abbrev parse_digit : Text → Result Guid
parse_digit (c ∷ []) = ok c
parse_digit t = err e_invalidarg

abbrev line : List (Word × Text)
line =
    (bare (codes "bp"), codes ", ") ∷ (quoted b'"' (codes "a, b"), []) ∷ (bare (codes "3"), []) ∷ []

split_args-command_line_example :
    split_args (codes " bp, \"a, b\"3") ≡ codes "bp" ∷ codes "a, b" ∷ codes "3" ∷ []
split_args-command_line_example =
    split_args-command_line (codes " ") line (refl, tt)
      (
        (ground arith, (refl, (refl, tt))),
        (refl, (refl, tt)),
        tt,
        (
          (ground arith, refl, (refl, (refl, (refl, (refl, tt))))),
          tt,
          tt,
          (((ground arith, (refl, tt)), tt, refl, tt)),
        ),
      )

parse_filter-is_clsid_allowed_example :
    (is_clsid_allowed (parse_filter parse_digit (codes "1" ∷ codes "-i" ∷ codes "2" ∷ [])) b'2'
      ≡ names parse_digit b'2' (codes "2" ∷ []))
    × (is_clsid_allowed (parse_filter parse_digit (codes "1" ∷ codes "-e" ∷ codes "2" ∷ [])) b'2'
        ≡ not (names parse_digit b'2' (codes "2" ∷ [])))
    × (is_clsid_allowed (parse_filter parse_digit (codes "2" ∷ [])) b'2'
        ≡ (names parse_digit b'2' (codes "2" ∷ []) || not (names_any parse_digit (codes "2" ∷ []))))
parse_filter-is_clsid_allowed_example =
    parse_filter-is_clsid_allowed parse_digit b'2' (codes "1" ∷ []) (codes "2" ∷ []) (refl, tt)

evaluate_number_prefixed_example :
    evaluate_number (err e_invalidarg) (codes "0x" ++ codes "1F" ++ codes "zz")
    ≡ ok (value 16 0 (codes "1F"))
unfolding value digit digit_value
evaluate_number_prefixed_example =
    evaluate_number_prefixed (err e_invalidarg) (codes "1F") (codes "zz") hexadecimal
      ((1, refl), ((15, refl), tt)) (ground arith) refl (omega arith)

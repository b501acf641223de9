-- ===== src/Ext/Args.antt =====
-- comon/ext.cpp: `split_args`, which cuts a command line into its arguments.
pub mod Words
use comon.Base.{ℕ, Bool, true, false, ◌&&◌, ◌||◌, List, [], ◌∷◌, ◌++◌, nat_beq, leb, Text}

-- `std::isspace` in the C locale
abbrev pub is_space : ℕ → Bool
is_space c = nat_beq c 32 || (leb 9 c && leb c 13)

abbrev pub is_quote : ℕ → Bool
is_quote c = nat_beq c b'"' || nat_beq c 39

-- what ends an argument outside quotes
abbrev pub is_separator : ℕ → Bool
is_separator c = is_space c || nat_beq c b','

-- the variables of the loop; `citation_char` is 0 outside quotes
pub record Split : Type 0 where
  pub citation_char : ℕ
  pub vargs : List Text
  pub token : Text

-- `if (!token.empty()) { vargs.push_back(token); token.clear(); }`
unfoldable pub push_token : List Text → Text → List Text
push_token vargs [] = vargs
push_token vargs (c ∷ token) = vargs ++ (c ∷ token) ∷ []

unfoldable pub split_step : Split → ℕ → Split
unfolding push_token
split_step s c = elim (nat_beq s.citation_char 0) [
  | false ↦ elim (nat_beq c s.citation_char) [
    | true ↦ record { citation_char = 0; vargs = push_token s.vargs s.token; token = [] }
    | false ↦ record s { token = s.token ++ c ∷ [] }
  ]
  | true ↦ elim (is_quote c) [
    | true ↦ record s { citation_char = c }
    | false ↦ elim (is_separator c) [
      | true ↦ record s { vargs = push_token s.vargs s.token; token = [] }
      | false ↦ record s { token = s.token ++ c ∷ [] }
    ]
  ]
]

unfoldable pub split_loop : Split → Text → Split
split_loop s [] = s
split_loop s (c ∷ args) = split_loop (split_step s c) args

abbrev pub split_start : Split
split_start = record { citation_char = 0; vargs = []; token = [] }

unfoldable pub split_args : Text → List Text
unfolding split_loop split_step
split_args args = let s = split_loop split_start args in push_token s.vargs s.token

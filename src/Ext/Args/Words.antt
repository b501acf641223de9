-- ===== src/Ext/Args/Words.antt =====
-- comon/ext.cpp: what `split_args` makes of a command line that a user writes.
use mathlib.Core.List.{append_assoc, append-nil}
use comon.Base.{
  ℕ, ◌≡◌, refl, sym, ap, not, ◌∙◌, ◌≢◌, true, false, ◌||◌, List, [], ◌∷◌, ◌++◌, map, arith, nat_beq,
  Text, None,
}
use comon.Ext.Args.{Split, is_quote, is_separator, push_token, split_step, split_loop, split_args}

-- An argument as a user writes it: bare, or in quotes of one kind.
pub data Word : Type 0 where
  bare : Text → Word
  quoted : ℕ → Text → Word

abbrev pub word_text : Word → Text
word_text (bare t) = t
word_text (quoted q t) = t

abbrev pub spell : Word → Text
spell (bare t) = t
spell (quoted q t) = q ∷ t ++ q ∷ []

abbrev pub IsWord : Word → Type 0
IsWord (bare t) = (t ≢ []) × None (λ c. is_quote c || is_separator c) t
IsWord (quoted q t) = (t ≢ []) × (is_quote q ≡ true) × None (λ c. nat_beq c q) t

abbrev pub AreSeparators : Text → Type 0
AreSeparators gap = None (λ c. not (is_separator c)) gap

-- words, each with what stands behind it
abbrev pub command_line : List (Word × Text) → Text
command_line [] = []
command_line ((w, gap) ∷ ws) = spell w ++ (gap ++ command_line ws)

-- A bare word needs a separator in front of the next word.
abbrev pub IsParted : Word → Text → List (Word × Text) → Type 0
IsParted (bare t) [] ws = ws ≡ []
IsParted (bare t) (c ∷ gap) ws = Unit {0}
IsParted (quoted q t) gap ws = Unit {0}

abbrev pub IsLine : List (Word × Text) → Type 0
IsLine [] = Unit {0}
IsLine ((w, gap) ∷ ws) = IsWord w × AreSeparators gap × IsParted w gap ws × IsLine ws

abbrev pub words_of : List (Word × Text) → List Text
words_of ws = map (λ (p : Word × Text). word_text p.0) ws

split_loop-append :
    (s : Split) (xs ys : Text) → split_loop s (xs ++ ys) ≡ split_loop (split_loop s xs) ys
unfolding split_loop
split_loop-append s [] ys = refl
split_loop-append s (x ∷ xs) ys = split_loop-append (split_step s x) xs ys

push_token_ne : (vs : List Text) (t : Text) → t ≢ [] → push_token vs t ≡ vs ++ t ∷ []
unfolding push_token
push_token_ne vs [] h = absurd (h refl)
push_token_ne vs (c ∷ t) h = refl

abbrev state : ℕ → List Text → Text → Split
state q vs tok = record { citation_char = q; vargs = vs; token = tok }

step-bare :
    (vs : List Text) (tok : Text) (c : ℕ)
    → (is_quote c || is_separator c) ≡ false
    → split_step (state 0 vs tok) c ≡ state 0 vs (tok ++ c ∷ [])
unfolding split_step
step-bare vs tok c h = ground arith

step-quoted :
    (q : ℕ) (vs : List Text) (tok : Text) (c : ℕ)
    → is_quote q ≡ true
    → nat_beq c q ≡ false
    → split_step (state q vs tok) c ≡ state q vs (tok ++ c ∷ [])
unfolding split_step
step-quoted q vs tok c hq h = ground arith

step-close :
    (q : ℕ) (vs : List Text) (tok : Text)
    → is_quote q ≡ true
    → split_step (state q vs tok) q ≡ state 0 (push_token vs tok) []
unfolding split_step
step-close q vs tok hq = ground arith

step-open :
    (q : ℕ) (vs : List Text) (tok : Text)
    → is_quote q ≡ true
    → split_step (state 0 vs tok) q ≡ state q vs tok
unfolding split_step
step-open q vs tok hq = ground arith

step-separator :
    (sep : ℕ) (vs : List Text) (tok : Text)
    → is_separator sep ≡ true
    → split_step (state 0 vs tok) sep ≡ state 0 (push_token vs tok) []
unfolding split_step
step-separator sep vs tok h = ground arith

-- characters that are neither quotes nor separators are collected
loop-bare :
    (vs : List Text) (tok t : Text)
    → None (λ c. is_quote c || is_separator c) t
    → split_loop (state 0 vs tok) t ≡ state 0 vs (tok ++ t)
unfolding split_loop
loop-bare vs tok [] h = rw (append-nil tok)
loop-bare vs tok (c ∷ t) h =
    rw (step-bare vs tok c h.0, loop-bare vs (tok ++ c ∷ []) t h.1, append_assoc tok (c ∷ []) t)

-- inside quotes all but the closing one is collected
loop-quoted :
    (q : ℕ) (vs : List Text) (tok t : Text)
    → is_quote q ≡ true
    → None (λ c. nat_beq c q) t
    → split_loop (state q vs tok) t ≡ state q vs (tok ++ t)
unfolding split_loop
loop-quoted q vs tok [] hq h = rw (append-nil tok)
loop-quoted q vs tok (c ∷ t) hq h = rw (
  step-quoted q vs tok c hq h.0,
  loop-quoted q vs (tok ++ c ∷ []) t hq h.1,
  append_assoc tok (c ∷ []) t,
)

-- separators behind a word, and where no word is begun
loop-gap :
    (vs : List Text) (gap rest : Text)
    → AreSeparators gap
    → split_loop (state 0 vs []) (gap ++ rest) ≡ split_loop (state 0 vs []) rest
unfolding split_loop push_token
loop-gap vs [] rest h = refl
loop-gap vs (c ∷ gap) rest h =
    let here : is_separator c ≡ true = ground (arith, h.0) in
    ap (λ (s : Split). split_loop s (gap ++ rest)) (step-separator c vs [] here)
    ∙ loop-gap vs gap rest h.1

loop-end :
    (vs : List Text) (t : Text) (c : ℕ) (gap rest : Text)
    → t ≢ []
    → AreSeparators (c ∷ gap)
    → split_loop (state 0 vs t) ((c ∷ gap) ++ rest) ≡ split_loop (state 0 (vs ++ t ∷ []) []) rest
unfolding split_loop
loop-end vs t c gap rest ne h =
    let here : is_separator c ≡ true = ground (arith, h.0) in
    ap (λ (s : Split). split_loop s (gap ++ rest))
      (step-separator c vs t here ∙ ap (λ (v : List Text). state 0 v []) (push_token_ne vs t ne))
    ∙ loop-gap (vs ++ t ∷ []) gap rest h.1

word-bare :
    (vs : List Text) (t rest : Text)
    → None (λ c. is_quote c || is_separator c) t
    → split_loop (state 0 vs []) (t ++ rest) ≡ split_loop (state 0 vs t) rest
word-bare vs t rest h = rw (split_loop-append (state 0 vs []) t rest, loop-bare vs [] t h) refl

word-quoted :
    (vs : List Text) (q : ℕ) (t rest : Text)
    → IsWord (quoted q t)
    → split_loop (state 0 vs []) (spell (quoted q t) ++ rest)
      ≡ split_loop (state 0 (vs ++ t ∷ []) []) rest
unfolding split_loop
word-quoted vs q t rest h = rw (
  step-open q vs [] h.1,
  split_loop-append (state q vs []) (t ++ q ∷ []) rest,
  split_loop-append (state q vs []) t (q ∷ []),
  loop-quoted q vs [] t h.1 h.2,
  split_loop,
  step-close q vs t h.1,
  push_token_ne vs t h.0,
)

-- what `split_args` makes of the variables behind the loop
abbrev flush : Split → List Text
flush s = push_token s.vargs s.token

flush_line :
    (vs : List Text) (ws : List (Word × Text))
    → IsLine ws
    → flush (split_loop (state 0 vs []) (command_line ws)) ≡ vs ++ words_of ws
unfolding split_loop push_token
flush_line vs [] h = sym (append-nil vs)
flush_line vs ((bare t, []) ∷ ws) h =
    rw h.2 (ap flush (word-bare vs t [] h.0.1) ∙ push_token_ne vs t h.0.0)
flush_line vs ((bare t, c ∷ gap) ∷ ws) h =
    ap flush (
      word-bare vs t ((c ∷ gap) ++ command_line ws) h.0.1
      ∙ loop-end vs t c gap (command_line ws) h.0.0 h.1)
    ∙ flush_line (vs ++ t ∷ []) ws h.3
    ∙ append_assoc vs (t ∷ []) (words_of ws)
flush_line vs ((quoted q t, gap) ∷ ws) h =
    ap flush (
      word-quoted vs q t (gap ++ command_line ws) h.0
      ∙ loop-gap (vs ++ t ∷ []) gap (command_line ws) h.1)
    ∙ flush_line (vs ++ t ∷ []) ws h.3
    ∙ append_assoc vs (t ∷ []) (words_of ws)

-- A command line of words, bare or in either kind of quotes, with any spaces and commas in front of the
-- first, between them and behind the last, is split into exactly those words, in order and with the
-- quotes gone. Between a bare word and the next there is at least one separator; behind a word in
-- quotes and behind the last there may be none. A bare word has no quote, space or comma in it, a
-- quoted one not its own quote, and neither is empty.
pub split_args-command_line :
    (lead : Text) (ws : List (Word × Text))
    → AreSeparators lead
    → IsLine ws
    → split_args (lead ++ command_line ws) ≡ words_of ws
unfolding split_args
split_args-command_line lead ws hl h =
    ap flush (loop-gap [] lead (command_line ws) hl) ∙ flush_line [] ws h

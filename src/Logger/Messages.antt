-- ===== src/Logger/Messages.antt =====
-- comon/comon.h, `get_error_msg`: the map of texts never changes an answer.
use comon.Base.{
  sym, ℕ, suc, ◌-◌, ◌≡◌, refl, ap, ◌∙◌, true, none, some, List, [], ◌∷◌, ◌++◌, map, inl, inr, ◌⊎◌,
  Option-cases, arith, nat_eq, leb, length, length-append, take, find, insert, find-insert, Text,
}
use comon.Logger.{skip_new_line, unit_at, get_error_msg}

-- the units of the new line, behind a text
unit_at-append :
    (t : Text) (c d : ℕ)
    → (unit_at (t ++ c ∷ d ∷ []) (length t) ≡ c) × (unit_at (t ++ c ∷ d ∷ []) (suc (length t)) ≡ d)
unit_at-append [] c d = (refl, refl)
unit_at-append (x ∷ t) c d = unit_at-append t c d

take-append : (t s : Text) → take (length t) (t ++ s) ≡ t
take-append [] [] = refl
take-append [] (c ∷ s) = refl
take-append (c ∷ t) s = ap (λ (r : Text). c ∷ r) (take-append t s)

-- the line in front of `\r\n`
skip_new_line_lem : (t : Text) → skip_new_line (t ++ 13 ∷ 10 ∷ []) ≡ t
unfolding skip_new_line
skip_new_line_lem t =
    let whole = length-append t (13 ∷ 10 ∷ []) in
    let enough : leb 2 (length (t ++ 13 ∷ 10 ∷ [])) ≡ true = ground (arith, whole) in
    let front : length (t ++ 13 ∷ 10 ∷ []) - 2 ≡ length t = omega (arith, whole) in
    let last : length (t ++ 13 ∷ 10 ∷ []) - 1 ≡ suc (length t) = omega (arith, whole) in
    rw (skip_new_line, enough, front, last, (unit_at-append t 13 10).0, (unit_at-append t 13 10).1)
      (rw front (take-append t (13 ∷ 10 ∷ [])))

module _ (format_message : ℕ → Text) where
  -- the texts that are kept are those of the system
  abbrev pub IsRight : List (ℕ × Text) → Type 0
  IsRight kept =
      (hr : ℕ) (message : Text)
      → find hr kept ≡ some message
      → message ≡ skip_new_line (format_message hr)

  Text-empty : (t : Text) → (t ≡ []) ⊎ ((c : ℕ) × (r : Text) × (t ≡ c ∷ r))
  Text-empty [] = inl refl
  Text-empty (c ∷ t) = inr (c, t, refl)

  insert-IsRight :
      (hr : ℕ) (kept : List (ℕ × Text))
      → find hr kept ≡ none
      → IsRight kept
      → IsRight (insert hr (skip_new_line (format_message hr)) kept)
  insert-IsRight hr kept gone right other message at = ground (
    arith,
    nat_eq.equals_iff hr other,
    find-insert hr other (skip_new_line (format_message hr)) kept gone,
    right other message,
    at,
  )

  skip_empty : skip_new_line [] ≡ []
  unfolding skip_new_line
  skip_empty = refl

  get_error_msg_lem :
      (hr : ℕ) (kept : List (ℕ × Text))
      → IsRight kept
      → ((get_error_msg format_message hr kept).0 ≡ skip_new_line (format_message hr))
        × IsRight (get_error_msg format_message hr kept).1
  unfolding get_error_msg
  get_error_msg_lem hr kept right = elim (Option-cases (find hr kept)) [
    | inr (message, at) ↦ rw (at, get_error_msg) (right hr message at, right)
    | inl gone ↦ elim (Text-empty (format_message hr)) [
      | inl e ↦ rw (gone, get_error_msg, e) (sym skip_empty, right)
      | inr (c, rest, e) ↦
          let right' = insert-IsRight hr kept gone right in
          rw (gone, get_error_msg, e) (refl, rw e at right')
    ]
  ]

  -- the texts of a sequence of errors, one call after the other
  abbrev pub messages : List ℕ → List (ℕ × Text) → List Text
  messages [] kept = []
  messages (hr ∷ hrs) kept =
      (get_error_msg format_message hr kept).0
      ∷ messages hrs (get_error_msg format_message hr kept).1

  messages_right :
      (hrs : List ℕ) (kept : List (ℕ × Text))
      → IsRight kept
      → messages hrs kept ≡ map (λ hr. skip_new_line (format_message hr)) hrs
  messages_right [] kept right = refl
  messages_right (hr ∷ hrs) kept right =
      let (same, right') = get_error_msg_lem hr kept right in
      cc (same, messages_right hrs (get_error_msg format_message hr kept).1 right')

  -- The system's text of an error is a line, or there is none, and the text of the error is empty.
  abbrev pub IsText : ℕ → Text → Type 0
  IsText hr text =
      (format_message hr ≡ text ++ 13 ∷ 10 ∷ []) ⊎ ((format_message hr ≡ []) × (text ≡ []))

  cut_text : (hr : ℕ) (text : Text) → IsText hr text → skip_new_line (format_message hr) ≡ text
  cut_text hr text (inl e) = ap skip_new_line e ∙ skip_new_line_lem text
  cut_text hr text (inr (e, none_there)) = ap skip_new_line e ∙ skip_empty ∙ sym none_there

  map_lines :
      (text_of : ℕ → Text)
      → ((hr : ℕ) → IsText hr (text_of hr))
      → (hrs : List ℕ) → map (λ hr. skip_new_line (format_message hr)) hrs ≡ map text_of hrs
  map_lines text_of ends [] = refl
  map_lines text_of ends (hr ∷ hrs) =
      cc (cut_text hr (text_of hr) (ends hr), map_lines text_of ends hrs)

  -- Where the system has for every error either a text that is a line, or none, a session of any number
  -- of calls of `get_error_msg` that starts with the empty map answers each with the line of its error
  -- and without the new line, and with the empty text where the system has none, in whatever order and
  -- however often errors are asked for.
  pub get_error_msg-messages :
      (text_of : ℕ → Text)
      → ((hr : ℕ) → IsText hr (text_of hr))
      → (hrs : List ℕ) → messages hrs [] ≡ map text_of hrs
  unfolding find
  get_error_msg-messages text_of ends hrs =
      messages_right hrs [] (λ hr message at. absurd (ground (arith, at)))
      ∙ map_lines text_of ends hrs

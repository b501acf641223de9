-- ===== src/Helpers/Encodings.antt =====
-- comon/helpers.cpp: what the conversions of text give where the system converts it.
use comon.Base.{ℕ, zero, suc, ◌*◌, ◌^◌, ◌≤◌, ◌<◌, ◌≡◌, refl, ◌∙◌, ap, [], ◌∷◌, arith, length, Text}
use comon.Base.Result.{ok, ◌>>=◌}
use comon.Helpers.{Answer, Conversions, cp_utf8, zeros, two_calls, to_utf8, from_utf8, int_size}

-- The system converts a text: asked for the size it tells that of the result, and a buffer of this
-- size is filled with the result.
pub record Converts (convert : Text → Answer) (result : Text) : Type 0 where
  pub sized : (convert []).count ≡ length result
  pub filled :
      (buffer : Text)
      → length buffer ≡ length result
      → ((convert buffer).count ≡ length result) × ((convert buffer).buffer ≡ result)

-- What the documentation says of UTF-8: a text of the well-formed ones has an encoding of at most three
-- bytes for each unit and at least one in all, the system encodes it, and decodes the encoding.
pub record Utf8Laws (C : Conversions) : Type 1 where
  pub IsWellFormed : Text → Type 0
  pub encode : Text → Text
  pub encode_few : (t : Text) → length (encode t) ≤ 3 * length t
  pub encode_some : (t : Text) → 0 < length t → 0 < length (encode t)
  pub encodes :
      (t : Text)
      → IsWellFormed t
      → 0 < length t
      → length t < 2 ^ 31
      → Converts (C.wide_char_to_multi_byte cp_utf8 0 t (length t)) (encode t)
  pub decodes :
      (t : Text)
      → IsWellFormed t
      → 0 < length (encode t)
      → length (encode t) < 2 ^ 31
      → Converts (C.multi_byte_to_wide_char cp_utf8 0 (encode t) (length (encode t))) t

length-zeros : (n : ℕ) → length (zeros n) ≡ n
unfolding zeros
length-zeros zero = refl
length-zeros (suc n) = ap suc (length-zeros n)

two_calls_lem :
    (convert : Text → Answer) (result : Text)
    → 0 < length result
    → Converts convert result
    → two_calls convert ≡ ok result
unfolding two_calls
two_calls_lem convert result some_text c =
    let (counted, written) =
      c.filled (zeros (convert []).count) (length-zeros (convert []).count ∙ c.sized) in
    ground (arith, c.sized, counted, written, some_text)

-- a size below 2^31 keeps its value as an `int`
int_size_small : (t : Text) → length t < 2 ^ 31 → int_size t ≡ length t
int_size_small t small = omega (arith, small)

module _ (C : Conversions) where
  to_utf8_some :
      (t : Text)
      → 0 < length t
      → to_utf8 C t ≡ two_calls (C.wide_char_to_multi_byte cp_utf8 0 t (int_size t))
  unfolding to_utf8
  to_utf8_some [] some_text = absurd (omega (arith, some_text))
  to_utf8_some (c ∷ t) some_text = refl

  from_utf8_some :
      (t : Text)
      → 0 < length t
      → from_utf8 C t ≡ two_calls (C.multi_byte_to_wide_char cp_utf8 0 t (int_size t))
  unfolding from_utf8
  from_utf8_some [] some_text = absurd (omega (arith, some_text))
  from_utf8_some (c ∷ t) some_text = refl

module _ (C : Conversions) (laws : Utf8Laws C) where
  to_utf8_lem :
      (t : Text)
      → laws.IsWellFormed t
      → 0 < length t
      → length t < 2 ^ 31
      → to_utf8 C t ≡ ok (laws.encode t)
  to_utf8_lem t wf some_text small =
      rw (to_utf8_some C t some_text, int_size_small t small)
        (two_calls_lem _ (laws.encode t) (laws.encode_some t some_text)
          (laws.encodes t wf some_text small))

  from_utf8_lem :
      (t : Text)
      → laws.IsWellFormed t
      → 0 < length t
      → length (laws.encode t) < 2 ^ 31
      → from_utf8 C (laws.encode t) ≡ ok t
  from_utf8_lem t wf some_text small =
      let u = laws.encode t in
      let some_bytes = laws.encode_some t some_text in
      rw (from_utf8_some C u some_bytes, int_size_small u small)
        (two_calls_lem _ t some_text (laws.decodes t wf some_bytes small))

  -- A well-formed wide text of fewer than 2^31 / 3 units comes back as it was when it is converted to
  -- UTF-8 and from it again, with no exception on the way; the empty text too, which the system is not
  -- asked about.
  pub from_utf8-to_utf8 :
      (t : Text)
      → laws.IsWellFormed t
      → 3 * length t < 2 ^ 31
      → (to_utf8 C t >>= from_utf8 C) ≡ ok t
  unfolding to_utf8 from_utf8
  from_utf8-to_utf8 [] wf small = refl
  from_utf8-to_utf8 (c ∷ t) wf small =
      let few = laws.encode_few (c ∷ t) in
      rw (to_utf8_lem (c ∷ t) wf (omega arith) (omega (arith, small)))
        (from_utf8_lem (c ∷ t) wf (omega arith) (omega (arith, small, few)))

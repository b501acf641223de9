-- ===== src/Ext/Filter/Meaning.antt =====
-- comon/ext.cpp, `parse_filter`: which classes the filter of `!comon attach` lets through.
use mathlib.Core.List.{reverse, reverse-append, reverse-cons, append_assoc}
use comon.Base.{
  ℕ, ◌≡◌, refl, ap, ◌∙◌, Bool, true, false, not, ◌&&◌, ◌||◌, List, [], ◌∷◌, ◌++◌, arith, ◌==◌,
  nat_eq, list_eq, Text, codes, member, member-add_member, None,
}
use comon.Base.Result.{Result, ok, err}
use comon.Guid.{Guid}
use comon.Ext.Filter.{is_clsid_allowed, add_parsed, filter_loop, parse_filter}

abbrev pub is_flag : Text → Bool
is_flag arg = arg == codes "-i" || arg == codes "-e"

None-append : (p : Text → Bool) (xs ys : List Text) → None p xs → None p ys → None p (xs ++ ys)
None-append p [] ys hx hy = hy
None-append p (x ∷ xs) ys hx hy = (hx.0, None-append p xs ys hx.1 hy)

None-reverse : (p : Text → Bool) (xs : List Text) → None p xs → None p (reverse xs)
None-reverse p [] h = h
None-reverse p (x ∷ xs) h =
    rw (reverse-cons x xs) (None-append p (reverse xs) (x ∷ []) (None-reverse p xs h.1) (h.0, tt))

-- whether a result of parsing is the identifier, or any identifier
abbrev pub yields : Guid → Result Guid → Bool
yields g (ok clsid) = clsid == g
yields g (err hr) = false

abbrev pub is_ok : Result Guid → Bool
is_ok (ok clsid) = true
is_ok (err hr) = false

module _ (parse : Text → Result Guid) where
  -- whether an argument is the identifier
  unfoldable pub names : Guid → List Text → Bool
  names g [] = false
  names g (arg ∷ args) = yields g (parse arg) || names g args

  -- whether an argument is an identifier at all
  unfoldable pub names_any : List Text → Bool
  names_any [] = false
  names_any (arg ∷ args) = is_ok (parse arg) || names_any args

  names-append : (g : Guid) (xs ys : List Text) → names g (xs ++ ys) ≡ (names g xs || names g ys)
  unfolding names
  names-append g [] ys = refl
  names-append g (x ∷ xs) ys = ground (arith, names-append g xs ys)

  names-reverse : (g : Guid) (xs : List Text) → names g (reverse xs) ≡ names g xs
  unfolding names
  names-reverse g [] = refl
  names-reverse g (x ∷ xs) =
      rw (reverse-cons x xs, names-append g (reverse xs) (x ∷ []), names-reverse g xs)
        (ground arith)

  names_any-append : (xs ys : List Text) → names_any (xs ++ ys) ≡ (names_any xs || names_any ys)
  unfolding names_any
  names_any-append [] ys = refl
  names_any-append (x ∷ xs) ys = ground (arith, names_any-append xs ys)

  names_any-reverse : (xs : List Text) → names_any (reverse xs) ≡ names_any xs
  unfolding names_any
  names_any-reverse [] = refl
  names_any-reverse (x ∷ xs) =
      rw (reverse-cons x xs, names_any-append (reverse xs) (x ∷ []), names_any-reverse xs)
        (ground arith)

  member-add_parsed :
      (g : Guid) (r : Result Guid) (clsids : List Guid)
      → member g (add_parsed r clsids) ≡ (yields g r || member g clsids)
  unfolding add_parsed
  member-add_parsed g (ok clsid) clsids = member-add_member clsid g clsids
  member-add_parsed g (err hr) clsids = refl

  allowed-including :
      (g : Guid) (clsids : List Guid) (args rest : List Text)
      → None is_flag args
      → is_clsid_allowed (filter_loop parse clsids (args ++ codes "-i" ∷ rest)) g
        ≡ (names g args || member g clsids)
  unfolding filter_loop names is_clsid_allowed
  allowed-including g clsids [] rest h = refl
  allowed-including g clsids (arg ∷ args) rest h = ground (
    arith,
    allowed-including g (add_parsed (parse arg) clsids) args rest h.1,
    member-add_parsed g (parse arg) clsids,
  )

  allowed-excluding :
      (g : Guid) (clsids : List Guid) (args rest : List Text)
      → None is_flag args
      → is_clsid_allowed (filter_loop parse clsids (args ++ codes "-e" ∷ rest)) g
        ≡ not (names g args || member g clsids)
  unfolding filter_loop names is_clsid_allowed
  allowed-excluding g clsids [] rest h = refl
  allowed-excluding g clsids (arg ∷ args) rest h = ground (
    arith,
    allowed-excluding g (add_parsed (parse arg) clsids) args rest h.1,
    member-add_parsed g (parse arg) clsids,
  )

  abbrev is_empty : List Guid → Bool
  is_empty [] = true
  is_empty (x ∷ xs) = false

  is_empty-add_parsed :
      (r : Result Guid) (clsids : List Guid)
      → is_empty (add_parsed r clsids) ≡ (not (is_ok r) && is_empty clsids)
  unfolding add_parsed member
  is_empty-add_parsed (ok clsid) [] = refl
  is_empty-add_parsed (ok clsid) (x ∷ xs) = ground arith
  is_empty-add_parsed (err hr) clsids = refl

  allowed-unflagged :
      (g : Guid) (clsids : List Guid) (args : List Text)
      → None is_flag args
      → is_clsid_allowed (filter_loop parse clsids args) g
        ≡ (names g args || member g clsids || (not (names_any args) && is_empty clsids))
  unfolding filter_loop names names_any is_clsid_allowed
  allowed-unflagged g [] [] h = refl
  allowed-unflagged g (x ∷ clsids) [] h = ground arith
  allowed-unflagged g clsids (arg ∷ args) h = ground (
    arith,
    allowed-unflagged g (add_parsed (parse arg) clsids) args h.1,
    member-add_parsed g (parse arg) clsids,
    is_empty-add_parsed (parse arg) clsids,
  )

  reversed_flag :
      (pre post : List Text) (flag : Text)
      → reverse (pre ++ flag ∷ post) ≡ reverse post ++ flag ∷ reverse pre
  reversed_flag pre post flag =
      reverse-append pre (flag ∷ post)
      ∙ ap (λ r. r ++ reverse pre) (reverse-cons flag post)
      ∙ append_assoc (reverse post) (flag ∷ []) (reverse pre)

  -- What the filter lets through, by the last `-i` or `-e` of the arguments. Behind `-i`: exactly
  -- the classes named behind it. Behind `-e`: exactly the classes not named behind it. With
  -- neither: exactly the classes named, or every class if no argument is an identifier.
  pub parse_filter-is_clsid_allowed :
      (g : Guid) (pre post : List Text)
      → None is_flag post
      → (is_clsid_allowed (parse_filter parse (pre ++ codes "-i" ∷ post)) g ≡ names g post)
        × (is_clsid_allowed (parse_filter parse (pre ++ codes "-e" ∷ post)) g ≡ not (names g post))
        × (is_clsid_allowed (parse_filter parse post) g ≡ (names g post || not (names_any post)))
  unfolding parse_filter member
  parse_filter-is_clsid_allowed g pre post h =
      let flagless = None-reverse is_flag post h in
      (
        rw (reversed_flag pre post (codes "-i")) (
            ground (
              arith,
              allowed-including g [] (reverse post) (reverse pre) flagless,
              names-reverse g post,
            )),
        rw (reversed_flag pre post (codes "-e")) (
            ground (
              arith,
              allowed-excluding g [] (reverse post) (reverse pre) flagless,
              names-reverse g post,
            )),
        ground (
          arith,
          allowed-unflagged g [] (reverse post) flagless,
          names-reverse g post,
          names_any-reverse post,
        ),
      )

  -- The long option `--exclude` is no flag: a filter written with it, where it is no identifier and
  -- some argument behind it is one, lets through exactly the classes that it names.
  pub exclude_spelled_out :
      (g : Guid) (post : List Text) (hr : ℕ)
      → None is_flag post
      → parse (codes "--exclude") ≡ err hr
      → names_any post ≡ true
      → is_clsid_allowed (parse_filter parse (codes "--exclude" ∷ post)) g ≡ names g post
  unfolding names names_any
  exclude_spelled_out g post hr h bad some_named =
      (parse_filter-is_clsid_allowed g [] (codes "--exclude" ∷ post) (refl, h)).2 ∙ ground arith

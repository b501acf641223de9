-- ===== src/Session/Status/Shown.antt =====
-- comon/ext.cpp, `!comon status`: every table that a monitor records is shown.
use mathlib.Core.List.{append_assoc}
use mathlib.Core.Path.{subst}
use comon.Base.{
  ℕ, ◌≡◌, refl, sym, ap, ◌∙◌, true, ◌&&◌, Option, some, List, [], ◌∷◌, ◌++◌, inl, inr, Bool-cases,
  arith, nat_beq, nat_eq, pair_eq, member, find, Text,
}
use comon.Base.Result.{Result}
use comon.Guid.{Guid}
use comon.Engine.{Engine}
use comon.Monitor.Types.{Monitor}
use comon.Monitor.Vtables.{list_cotypes}
use comon.Monitor.Listing.{list_cotypes_lem, tables_of, or_empty}
use comon.Session.{Debugger}
use comon.Session.Commands.{show_vtables, show_cotypes}
use comon.Session.Status.{
  vtable_line, class_line, vtable_lines, class_lines, status_head, status_text,
}

-- the text has the part somewhere
abbrev pub IsPart : Text → Text → Type 0
IsPart part whole = (front : Text) × (back : Text) × (whole ≡ front ++ (part ++ back))

IsPart-append : (part a b : Text) → IsPart part b → IsPart part (a ++ b)
IsPart-append part a b (front, back, e) =
    (a ++ front, back, ap (λ t. a ++ t) e ∙ sym (append_assoc a front (part ++ back)))

append-IsPart : (part a b : Text) → IsPart part a → IsPart part (a ++ b)
append-IsPart part a b (front, back, e) = (
  front,
  back ++ b,
  ap (λ t. t ++ b) e
      ∙ append_assoc front (part ++ back) b
      ∙ ap (λ t. front ++ t) (append_assoc part back b),
)

-- the recorded table of a pair is among those of its class
tables_of-member :
    (clsid iid : Guid) (addr : ℕ) (m : List ((Guid × Guid) × ℕ))
    → find (clsid, iid) m ≡ some addr
    → member (addr, iid) (tables_of clsid m) ≡ true
unfolding find member
tables_of-member clsid iid addr [] at = absurd (ground (arith, at))
tables_of-member clsid iid addr (((c, i), a) ∷ m) at = ground (
  arith,
  at,
  nat_eq.equals_iff c clsid,
  nat_eq.equals_iff i iid,
  nat_eq.equals_iff iid iid,
  nat_eq.equals_iff addr addr,
  tables_of-member clsid iid addr m,
)

abbrev lines_of : Option (List (ℕ × Guid)) → List (ℕ × Guid)
lines_of o = or_empty o

module _ (E : Engine) (D : Debugger E) (parse : Text → Result Guid) (guid_text : Guid → Text) where
  open E use {World}

  -- the world behind the text is the one that the queries leave
  vtable_lines-world :
      (vs : List (ℕ × Guid)) (w : World)
      → (vtable_lines E guid_text vs w).0 ≡ show_vtables E D parse vs w
  unfolding vtable_lines show_vtables
  vtable_lines-world [] w = refl
  vtable_lines-world ((a, iid) ∷ vs) w = vtable_lines-world vs (E.resolve_type_name iid w).0

  class_lines-world :
      (cs : List (Guid × List (ℕ × Guid))) (w : World)
      → (class_lines E guid_text cs w).0 ≡ show_cotypes E D parse cs w
  unfolding class_lines show_cotypes
  class_lines-world [] w = refl
  class_lines-world ((clsid, vs) ∷ cs) w =
      class_lines-world cs (vtable_lines E guid_text vs (E.resolve_class_name clsid w).0).0
      ∙ ap (show_cotypes E D parse cs) (vtable_lines-world vs (E.resolve_class_name clsid w).0)

  -- the text has the line of a table, with some name of its interface
  abbrev pub ShowsTable : Guid → ℕ → Text → Type 0
  ShowsTable iid addr text =
      (name : Option Text) × IsPart (vtable_line guid_text iid name addr) text

  vtable_lines-ShowsTable :
      (iid : Guid) (addr : ℕ) (vs : List (ℕ × Guid)) (w : World)
      → member (addr, iid) vs ≡ true
      → ShowsTable iid addr (vtable_lines E guid_text vs w).1
  unfolding vtable_lines member
  vtable_lines-ShowsTable iid addr [] w at = absurd (ground (arith, at))
  vtable_lines-ShowsTable iid addr ((a, i) ∷ vs) w at =
      let rest = vtable_lines E guid_text vs (E.resolve_type_name i w).0 in
      elim (Bool-cases (nat_beq a addr && nat_beq i iid)) [
        | inl same ↦
            let e : a ≡ addr = ground (arith, same) in
            let e' : i ≡ iid = ground (arith, same) in
            let all = (vtable_lines E guid_text ((a, i) ∷ vs) w).1 in
            let shown : ShowsTable i a all = ((E.resolve_type_name i w).1, ([], rest.1, refl)) in
            subst (λ g. ShowsTable g addr all) e' (subst (λ n. ShowsTable i n all) e shown)
        | inr other ↦
            let (name, part) =
              vtable_lines-ShowsTable iid addr vs (E.resolve_type_name i w).0
                (ground (arith, at, other)) in
            (name, IsPart-append _ (vtable_line guid_text i (E.resolve_type_name i w).1 a) _ part)
      ]

  class_lines-ShowsTable :
      (clsid iid : Guid) (addr : ℕ) (cs : List (Guid × List (ℕ × Guid))) (w : World)
      → member (addr, iid) (lines_of (find clsid cs)) ≡ true
      → ShowsTable iid addr (class_lines E guid_text cs w).1
  unfolding class_lines find member
  class_lines-ShowsTable clsid iid addr [] w at = absurd (ground (arith, at))
  class_lines-ShowsTable clsid iid addr ((c, vs) ∷ cs) w at =
      let w' = (E.resolve_class_name c w).0 in
      let head_text = class_line guid_text c (E.resolve_class_name c w).1 in
      let lines = vtable_lines E guid_text vs w' in
      elim (Bool-cases (nat_beq c clsid)) [
        | inl same ↦
            let (name, part) = vtable_lines-ShowsTable iid addr vs w' (ground (arith, at, same)) in
            (name, append-IsPart _ _ _ (IsPart-append _ head_text lines.1 part))
        | inr other ↦
            let (name, part) =
              class_lines-ShowsTable clsid iid addr cs lines.0 (ground (arith, at, other)) in
            (name, IsPart-append _ (head_text ++ lines.1) _ part)
      ]

  -- `!comon status` prints a line for every table that the monitor records, with its interface and its
  -- address, and changes the world as the queries for the names do.
  pub status_text-ShowsTable :
      (clsid iid : Guid) (addr : ℕ) (m : Monitor) (w : World)
      → find (clsid, iid) m.cotype_with_vtables ≡ some addr
      → ShowsTable iid addr (status_text E guid_text m w).1
        × ((status_text E guid_text m w).0 ≡ show_cotypes E D parse (list_cotypes m) w)
  unfolding status_text
  status_text-ShowsTable clsid iid addr m w at =
      let (name, part) = class_lines-ShowsTable clsid iid addr (list_cotypes m) w (
        ap (member (addr, iid)) (list_cotypes_lem m clsid)
        ∙ tables_of-member clsid iid addr m.cotype_with_vtables at) in
      ((name, IsPart-append _ (status_head m) _ part), class_lines-world (list_cotypes m) w)

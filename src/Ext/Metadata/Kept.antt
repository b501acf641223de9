-- ===== src/Ext/Metadata/Kept.antt =====
-- comon/ext.cpp, `!cometa`: the subcommands that show or save leave the metadata alone.
use comon.Base.{
  ℕ, zero, suc, ◌≡◌, refl, ◌∙◌, true, false, List, Option, none, some, nat_eq, list_eq,
}
use comon.Guid.{Guid}
use comon.Engine.{Comethod}
use comon.Cometa.Types.{Cotype}
use comon.Cometa.Database.{Database}
use comon.Cometa.Queries.{
  Cometa, Query, resolve_type, resolve_class, resolve_type_name, resolve_class_name,
  get_type_methods, get_type_method_args, behind_parent, from_iunknown,
}
use comon.Cometa.Indexing.Rows.{either}
use comon.Lfu.Cache.{contains, get, insert_entry}

-- the same database and the same known identifiers
pub record SameMetadata {D : Database} (a b : Cometa D) : Type 0 where
  pub same_db : a.db ≡ b.db
  pub same_known : a.known_iids ≡ b.known_iids

module _ (D : Database) (pick : List Guid → Guid) where
  -- what an answer leaves behind, if there is one
  abbrev pub Leaves : {A : Type 0} → Cometa D → Option (Cometa D × A) → Type 0
  Leaves c none = Unit
  Leaves c (some (c', a)) = SameMetadata c' c

  abbrev pub Reads : {A : Type 0} → Query D pick A → Type 0
  Reads q = (c : Cometa D) → Leaves c (q c)

  pub unchanged : (c : Cometa D) → SameMetadata c c
  unchanged c = record { same_db = refl; same_known = refl }

  pub later :
      {A : Type 0} (a b : Cometa D) (o : Option (Cometa D × A))
      → SameMetadata a b
      → Leaves a o
      → Leaves b o
  later a b none s l = tt
  later a b (some (c, x)) s l = record {
    same_db = l.same_db ∙ s.same_db;
    same_known = l.same_known ∙ s.same_known;
  }

  pub on_found :
      {A B : Type 0} (c : Cometa D) (o : Option (Cometa D × A))
      (y : Cometa D × A → Option (Cometa D × B))
      → Leaves c o
      → ((c' : Cometa D) (a : A) → SameMetadata c' c → Leaves c (y (c', a)))
      → Leaves c (elim o [ none ↦ none | some r ↦ y r ])
  on_found c none y l h = tt
  on_found c (some (c', a)) y l h = h c' a l

  cached-Leaves :
      {K A : Type 0} (c : Cometa D) (o : Option K) (y : K → Cometa D × A)
      → ((k : K) → SameMetadata (y k).0 c)
      → Leaves c (elim o [ none ↦ none | some k ↦ some (y k) ])
  cached-Leaves c none y h = tt
  cached-Leaves c (some k) y h = h k

  pub resolve_type-Reads : (iid : Guid) → Reads (resolve_type D pick iid)
  unfolding resolve_type
  resolve_type-Reads iid c =
      either (Leaves c) (contains c.cotype_cache iid) _ _
        (cached-Leaves c (get c.cotype_cache iid) _
          (λ k. record { same_db = refl; same_known = refl }))
        (cached-Leaves c (insert_entry pick c.cotype_cache iid (D.cotype iid c.db)) _
          (λ k. record { same_db = refl; same_known = refl }))

  pub resolve_class-Reads : (clsid : Guid) → Reads (resolve_class D pick clsid)
  unfolding resolve_class
  resolve_class-Reads clsid c =
      either (Leaves c) (contains c.coclass_cache clsid) _ _
        (cached-Leaves c (get c.coclass_cache clsid) _
          (λ k. record { same_db = refl; same_known = refl }))
        (unchanged c)

  -- an answer that may be missing
  maybe :
      {A B : Type 0} (c c' : Cometa D) (o : Option A) (x : B) (y : A → B)
      → SameMetadata c' c
      → Leaves c (elim o [ none ↦ some (c', x) | some a ↦ some (c', y a) ])
  maybe c c' none x y s = s
  maybe c c' (some a) x y s = s

  pub resolve_type_name-Reads : (iid : Guid) → Reads (resolve_type_name D pick iid)
  unfolding resolve_type_name
  resolve_type_name-Reads iid c =
      on_found c (resolve_type D pick iid c) _ (resolve_type-Reads iid c)
        (λ c' t s. maybe c c' t _ _ s)

  pub resolve_class_name-Reads : (clsid : Guid) → Reads (resolve_class_name D pick clsid)
  unfolding resolve_class_name
  resolve_class_name-Reads clsid c =
      on_found c (resolve_class D pick clsid c) _ (resolve_class-Reads clsid c)
        (λ c' t s. maybe c c' t _ _ s)

  -- a type that may be missing, and may have no methods
  with_methods :
      {B : Type 0} (c c' : Cometa D) (o : Option Cotype) (x : Option (Cometa D × Option B))
      (y : Cotype → Option (Cometa D × Option B))
      → SameMetadata c' c
      → Leaves c x
      → ((t : Cotype) → Leaves c (y t))
      → Leaves c
          (elim o [ none ↦ x | some t ↦ elim t.methods_available [ true ↦ y t | false ↦ x ] ])
  with_methods c c' none x y s l h = l
  with_methods c c' (some t) x y s l h = either (Leaves c) t.methods_available _ _ (h t) l

  pub get_type_method_args-Reads : (m : Comethod) → Reads (get_type_method_args D pick m)
  unfolding get_type_method_args
  get_type_method_args-Reads m c =
      on_found c (resolve_type D pick m.iid c) _ (resolve_type-Reads m.iid c)
        (λ c' t s. with_methods c c' t _ _ s s (λ t. s))

  behind_parent-Leaves :
      (c : Cometa D) (ms : List Comethod) (o : Option (Cometa D × Option (List Comethod)))
      → Leaves c o
      → Leaves c (behind_parent D pick ms o)
  behind_parent-Leaves c ms none l = tt
  behind_parent-Leaves c ms (some (c', none)) l = l
  behind_parent-Leaves c ms (some (c', some ps)) l = l

  pub get_type_methods-Reads : (fuel : ℕ) (iid : Guid) → Reads (get_type_methods D pick fuel iid)
  unfolding get_type_methods
  get_type_methods-Reads zero iid c = tt
  get_type_methods-Reads (suc fuel) iid c =
      on_found c (resolve_type D pick iid c) _ (resolve_type-Reads iid c) (λ c' t s.
        with_methods c c' t _ _ s s (λ t.
          either (Leaves c) (from_iunknown (D.cotype_methods iid c'.db)) _ _ s (
            behind_parent-Leaves c _ _
              (later c' c _ s (get_type_methods-Reads fuel t.parent_iid c')))))

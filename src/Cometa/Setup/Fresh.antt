-- ===== src/Cometa/Setup/Fresh.antt =====
-- comon/cometa.cpp: what the constructor leaves in the caches, and which files it can open.
use std.Path.{subst}
use mathlib.Core.Option.{some-injective}
use comon.Base.{
  ◌≡◌, ◌↔◌, refl, sym, ◌∙◌, inl, inr, Bool, true, false, List, [], Option, some, arith,
  Option-cases, nat_eq, find, member, add_member, list_eq, Text,
}
use comon.Guid.{Guid, iid_iunknown, iid_idispatch}
use comon.Lfu.Cache.{create}
use comon.Lfu.Invariant.{IsValid, create-IsValid}
use comon.Cometa.Types.{Cotype}
use comon.Cometa.Database.{Database}
use comon.Cometa.Writing.{Outcome, returns, fails, stops, fill_known_iids}
use comon.Cometa.Queries.{Cometa}
use comon.Cometa.Queries.Coherence.{Coherent}
use comon.Cometa.Setup.{Files, open_db, init_db, is_valid_db, new_cometa, cometa_of, after_fill}

module _ (D : Database) where
  module _ (files : Files D) where
    -- a new object over a database
    unfoldable pub new_one : D.Db → List Guid → Cometa D
    new_one db known = record {
      db = db;
      known_iids = known;
      cotype_cache = record { capacity = 100; cache = []; cache_freqs = [] };
      coclass_cache = record { capacity = 50; cache = []; cache_freqs = [] };
    }

    cometa_of-new_one :
        (db : D.Db) (known : List Guid) → cometa_of D files db known ≡ some (new_one db known)
    unfolding cometa_of new_one create
    cometa_of-new_one db known = refl

    pub new_one-Coherent : (db : D.Db) (known : List Guid) → Coherent 0 (new_one db known)
    unfolding new_one create find
    new_one-Coherent db known =
        let (cache, e, v, empty) = create-IsValid {K = Guid} {O = Option Cotype} 99 in
        record {
          valid = subst IsValid (sym (some-injective _ _ e)) v;
          cached = λ k o f e. absurd (ground (arith, e));
        }

    opened :
        (path : Text)
        → is_valid_db D files path ≡ true
        → (db : D.Db) × (open_db D files path ≡ some db)
    unfolding is_valid_db open_db
    opened path h = elim (Option-cases (files.open_file path false)) [
      | inl gone ↦ absurd (ground (arith, gone, h))
      | inr (db, there) ↦ (db, ground (arith, there, h))
    ]

    open_db_valid :
        (path : Text) (db : D.Db) → open_db D files path ≡ some db → is_valid_db D files path ≡ true
    unfolding is_valid_db open_db
    open_db_valid path db h = ground (arith, h)

    -- A file that `is_valid_db` accepts is one that the constructor can open, and no other is.
    pub is_valid_db-new_cometa :
        (path : Text)
        → (is_valid_db D files path ≡ true)
          ↔ ((c : Cometa D) × (new_cometa D files path false ≡ some c))
    unfolding new_cometa
    is_valid_db-new_cometa path = (
      λ h.
          let (db, e) = opened path h in
          (new_one db [], rw (e, new_cometa) (cometa_of-new_one db [])),
      λ h. elim (Option-cases (open_db D files path)) [
        | inl gone ↦ absurd (ground (arith, gone, h.1))
        | inr (db, there) ↦ open_db_valid path db there
      ],
    )

    built :
        (db : D.Db) (known : List Guid) (b : Bool) (c : Cometa D)
        → member iid_iunknown known ≡ b
        → member iid_idispatch known ≡ b
        → cometa_of D files db known ≡ some c
        → Coherent 0 c
          × (member iid_iunknown c.known_iids ≡ b)
          × (member iid_idispatch c.known_iids ≡ b)
    unfolding new_one
    built db known b c u d e =
        let same : new_one db known ≡ c =
          some-injective _ _ (sym (cometa_of-new_one db known) ∙ e) in
        (
          subst (λ c. Coherent 0 c) same (new_one-Coherent db known),
          subst (λ c. member iid_iunknown c.known_iids ≡ b) same u,
          subst (λ c. member iid_idispatch c.known_iids ≡ b) same d,
        )

    built_new :
        (t : D.Db × Outcome (Unit {0})) (known : List Guid) (c : Cometa D)
        → member iid_iunknown known ≡ true
        → member iid_idispatch known ≡ true
        → after_fill D files t known ≡ some c
        → Coherent 0 c
          × (member iid_iunknown c.known_iids ≡ true)
          × (member iid_idispatch c.known_iids ≡ true)
    built_new (db, returns u) known c u' d e = built db known true c u' d e
    built_new (db, fails hr) known c u' d e = absurd (ground (arith, e))
    built_new (db, stops) known c u' d e = absurd (ground (arith, e))

    -- An object of the constructor starts with a cache that agrees with the database. With a new
    -- database it knows IUnknown and IDispatch; over an existing one it knows neither.
    pub new_cometa_lem :
        (path : Text) (create_new : Bool) (c : Cometa D)
        → new_cometa D files path create_new ≡ some c
        → Coherent 0 c
          × (member iid_iunknown c.known_iids ≡ create_new)
          × (member iid_idispatch c.known_iids ≡ create_new)
    unfolding new_cometa fill_known_iids add_member member
    new_cometa_lem path true c e = elim (Option-cases (init_db D files path)) [
      | inl gone ↦ absurd (ground (arith, gone, e))
      | inr (db, there) ↦ built_new _ _ c refl refl (rw (there, new_cometa) at e)
    ]
    new_cometa_lem path false c e = elim (Option-cases (open_db D files path)) [
      | inl gone ↦ absurd (ground (arith, gone, e))
      | inr (db, there) ↦ built db [] false c refl refl (rw (there, new_cometa) at e)
    ]

-- ===== src/Cometa/Queries/Chain.antt =====
-- comon/cometa.cpp, `get_type_methods`: the chain of parents that it follows, and where it ends.
use comon.Base.{
  ℕ, zero, suc, ◌+◌, ◌<◌, ◌≡◌, refl, sym, ap, ◌∙◌, true, false, List, [], ◌∷◌, ◌++◌, Option, none,
  some, arith,
}
use comon.Guid.{Guid}
use comon.Engine.{Comethod}
use comon.Lfu.Cache.{int32_max}
use comon.Cometa.Types.{Cotype}
use comon.Cometa.Database.{Database}
use comon.Cometa.Queries.{Cometa, resolve_type, from_iunknown, get_type_methods}
use comon.Cometa.Queries.Coherence.{Picks, Coherent, weaken, resolve_type_lem}

abbrev pub behind : List Comethod → Option (List Comethod) → Option (List Comethod)
behind methods none = none
behind methods (some parent_methods) = some (parent_methods ++ methods)

-- What a database holds about the methods of a type and of its ancestors, as far as the first that
-- starts with `QueryInterface`, is unknown or has no methods; the number counts the parents.
pub data Chain (D : Database) (db : D.Db) : Guid → ℕ → Option (List Comethod) → Type 0 where
  unknown : (iid : Guid) → D.cotype iid db ≡ none → Chain D db iid 0 none
  unavailable :
      (iid : Guid) (t : Cotype)
      → D.cotype iid db ≡ some t
      → t.methods_available ≡ false
      → Chain D db iid 0 none
  root :
      (iid : Guid) (t : Cotype)
      → D.cotype iid db ≡ some t
      → t.methods_available ≡ true
      → from_iunknown (D.cotype_methods iid db) ≡ true
      → Chain D db iid 0 (some (D.cotype_methods iid db))
  child :
      (iid : Guid) (t : Cotype) (n : ℕ) (r : Option (List Comethod))
      → D.cotype iid db ≡ some t
      → t.methods_available ≡ true
      → from_iunknown (D.cotype_methods iid db) ≡ false
      → Chain D db t.parent_iid n r
      → Chain D db iid (suc n) (behind (D.cotype_methods iid db) r)

from_iunknown-append :
    (ms rest : List Comethod) → from_iunknown ms ≡ true → from_iunknown (ms ++ rest) ≡ true
from_iunknown-append [] rest h = ground (arith, h)
from_iunknown-append (m ∷ ms) rest h = h

abbrev pub StartsOk : Option (List Comethod) → Type 0
StartsOk none = Unit
StartsOk (some ms) = from_iunknown ms ≡ true

behind-StartsOk :
    (own : List Comethod) (r : Option (List Comethod)) → StartsOk r → StartsOk (behind own r)
behind-StartsOk own none h = tt
behind-StartsOk own (some ms) h = from_iunknown-append ms own h

Chain-StartsOk :
    {D : Database} {db : D.Db} {iid : Guid} {n : ℕ} {r : Option (List Comethod)}
    → Chain D db iid n r
    → StartsOk r
Chain-StartsOk (unknown iid e) = tt
Chain-StartsOk (unavailable iid t e a) = tt
Chain-StartsOk (root iid t e a f) = f
Chain-StartsOk (child iid t n r e a f up) = behind-StartsOk _ r (Chain-StartsOk up)

module _ (D : Database) (pick : List Guid → Guid) where
  -- the step of `get_type_methods` behind the lookup of the type
  at_end :
      (fuel : ℕ) (iid : Guid) (c c' : Cometa D) (t : Option Cotype)
      → resolve_type D pick iid c ≡ some (c', t)
      → t ≡ none
      → get_type_methods D pick (suc fuel) iid c ≡ some (c', none)
  unfolding get_type_methods
  at_end fuel iid c c' t e h = ground (arith, e, h)

  at_unavailable :
      (fuel : ℕ) (iid : Guid) (c c' : Cometa D) (t : Cotype)
      → resolve_type D pick iid c ≡ some (c', some t)
      → t.methods_available ≡ false
      → get_type_methods D pick (suc fuel) iid c ≡ some (c', none)
  unfolding get_type_methods
  at_unavailable fuel iid c c' t e a = ground (arith, e, a)

  at_root :
      (fuel : ℕ) (iid : Guid) (c c' : Cometa D) (db : D.Db) (t : Cotype)
      → resolve_type D pick iid c ≡ some (c', some t)
      → t.methods_available ≡ true
      → c'.db ≡ db
      → from_iunknown (D.cotype_methods iid db) ≡ true
      → get_type_methods D pick (suc fuel) iid c ≡ some (c', some (D.cotype_methods iid db))
  unfolding get_type_methods
  at_root fuel iid c c' db t e a s f = ground (arith, e, a, s, f)

  at_child :
      (fuel : ℕ) (iid : Guid) (c c' c'' : Cometa D) (db : D.Db) (t : Cotype)
      (r : Option (List Comethod))
      → resolve_type D pick iid c ≡ some (c', some t)
      → t.methods_available ≡ true
      → c'.db ≡ db
      → from_iunknown (D.cotype_methods iid db) ≡ false
      → get_type_methods D pick fuel t.parent_iid c' ≡ some (c'', r)
      → get_type_methods D pick (suc fuel) iid c ≡ some (c'', behind (D.cotype_methods iid db) r)
  unfolding get_type_methods
  at_child fuel iid c c' c'' db t none e a s f up = ground (arith, e, a, s, f, up)
  at_child fuel iid c c' c'' db t (some ms) e a s f up = ground (arith, e, a, s, f, up)

  -- how the result of `get_type_methods` stands to the database
  abbrev pub Answers : ℕ → ℕ → Guid → Cometa D → Option (List Comethod) → Type 0
  Answers fuel n iid c r =
      (c' : Cometa D) × (get_type_methods D pick fuel iid c ≡ some (c', r))
      × Coherent n c'
      × (c'.db ≡ c.db)

  -- the lookup of a type of which the database says `t`
  resolved :
      (k : ℕ) (iid : Guid) (c : Cometa D) (db : D.Db) (t : Option Cotype)
      → Picks pick
      → Coherent k c
      → k < int32_max
      → db ≡ c.db
      → D.cotype iid db ≡ t
      → (c' : Cometa D) × (resolve_type D pick iid c ≡ some (c', t))
        × Coherent (suc k) c'
        × (c'.db ≡ db)
        × (c'.db ≡ c.db)
  resolved k iid c db t picks h small same e =
      let (c', done, h', kept, known) = resolve_type_lem D pick k iid c picks h small in
      (
        c',
        done ∙ ap (λ o. some (c', o)) (ap (D.cotype iid) (sym same) ∙ e),
        h',
        kept ∙ sym same,
        kept,
      )

  get_type_methods_walk :
      (fuel n k : ℕ) (iid : Guid) (c : Cometa D) (db : D.Db) (r : Option (List Comethod))
      → Picks pick
      → Coherent k c
      → db ≡ c.db
      → Chain D db iid n r
      → n < fuel
      → k + n < int32_max
      → Answers fuel (suc (k + n)) iid c r
  get_type_methods_walk zero n k iid c db r picks h same chain more small = absurd (omega arith)
  get_type_methods_walk (suc fuel) n k iid c db r picks h same (unknown iid' e) more small =
      let (c', done, h', kept, same') = resolved k iid c db none picks h (omega arith) same e in
      (c', at_end fuel iid c c' none done refl, weaken (omega arith) h', same')
  get_type_methods_walk (suc fuel) n k iid c db r picks h same (unavailable iid' t e a) more small =
      let (c', done, h', kept, same') = resolved k iid c db (some t) picks h (omega arith) same e in
      (c', at_unavailable fuel iid c c' t done a, weaken (omega arith) h', same')
  get_type_methods_walk (suc fuel) n k iid c db r picks h same (root iid' t e a f) more small =
      let (c', done, h', kept, same') = resolved k iid c db (some t) picks h (omega arith) same e in
      (c', at_root fuel iid c c' db t done a kept f, weaken (omega arith) h', same')
  get_type_methods_walk (suc fuel) n k iid c db r picks h same (child iid' t n' r' e a f up) more
        small =
      let (c', done, h', kept, same') = resolved k iid c db (some t) picks h (omega arith) same e in
      let (c'', rest, h'', same'') =
        get_type_methods_walk fuel n' (suc k) t.parent_iid c' db r' picks h' (sym kept) up
          (omega arith) (omega arith) in
      (
        c'',
        at_child fuel iid c c' c'' db t r' done a kept f rest,
        weaken (omega arith) h'',
        same'' ∙ same',
      )

  -- A type whose chain of parents in the database has an end after `n` of them: with fuel for more
  -- than `n` calls, on a cache that agrees with the database and was not used too often,
  -- `get_type_methods` ends and answers the methods along the chain, those of an ancestor in front,
  -- or nothing where the chain ends in a type that is unknown or without methods. The first of
  -- the methods that it answers is `QueryInterface`, and cache and database agree afterwards.
  pub get_type_methods_lem :
      (fuel n k : ℕ) (iid : Guid) (c : Cometa D) (r : Option (List Comethod))
      → Picks pick
      → Coherent k c
      → Chain D c.db iid n r
      → n < fuel
      → k + n < int32_max
      → Answers fuel (suc (k + n)) iid c r × StartsOk r
  get_type_methods_lem fuel n k iid c r picks h chain more small = (
    get_type_methods_walk fuel n k iid c c.db r picks h refl chain more small,
    Chain-StartsOk chain,
  )

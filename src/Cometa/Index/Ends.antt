-- ===== src/Cometa/Index/Ends.antt =====
-- comon/cometa.cpp: how the steps of `index` end that read the registry and then write.
use comon.Base.{ℕ, ◌≡◌, ◌≢◌, refl, ◌⊎◌, inl, inr, Bool-cases, member, List, nat_eq, list_eq}
use comon.Base.Result.{Result, ok, err}
use comon.Guid.{Guid}
use comon.Cometa.Types.{Cotype}
use comon.Cometa.Database.{Database}
use comon.Cometa.Writing.{
  returns, fails, stops, Writing, continue, ◌>>=◌, ◌>>◌, skip, write, insert_cotype,
}
use comon.Cometa.Indexing.{reading}
use comon.Cometa.Indexing.Rows.{either}

pub on_result :
    {A C : Type 0} (P : C → Type 0) (r : Result A) (x : A → C) (y : ℕ → C)
    → ((a : A) → P (x a))
    → ((hr : ℕ) → P (y hr))
    → P (elim r [ ok a ↦ x a | err hr ↦ y hr ])
on_result P (ok a) x y h k = h a
on_result P (err hr) x y h k = k hr

-- a method that reads and then writes: it fails only before it has written anything
pub reading_ends :
    {Db A : Type 0} (r : Result A) (k : A → Writing Db (Unit {0})) (db : Db)
    → ((a : A) → (k a db).1 ≢ stops → (db' : Db) × (k a db ≡ (db', returns tt)))
    → ((reading r >>= k) db).1 ≢ stops
    → ((db' : Db) × ((reading r >>= k) db ≡ (db', returns tt)))
      ⊎ ((hr : ℕ) × ((reading r >>= k) db ≡ (db, fails hr)))
unfolding ◌>>=◌ continue
reading_ends (ok a) k db h ne = inl (h a ne)
reading_ends (err hr) k db h ne = inr (hr, refl)

-- a method that never fails: it returns, or an exception leaves it
abbrev pub Ends : {Db : Type 0} → Writing Db (Unit {0}) → Type 0
Ends {Db} m = (db : Db) → ((m db).1 ≡ returns tt) ⊎ ((m db).1 ≡ stops)

pub Ends-then : {Db : Type 0} (m k : Writing Db (Unit {0})) → Ends m → Ends k → Ends (m >> k)
unfolding ◌>>◌ continue
Ends-then m k h h' db = elim (h db) [ inl e ↦ rw e (h' (m db).0) | inr e ↦ inr (rw e refl) ]

Ends-write : (D : Database) (f : D.Db → D.Db) → Ends (write D f)
unfolding write
Ends-write D f db = elim (Bool-cases (D.throws db)) [
  | inl e ↦ inr (rw (e, write) refl)
  | inr e ↦ inl (rw (e, write) refl)
]

pub Ends-cotype : (D : Database) (known : List Guid) (t : Cotype) → Ends (insert_cotype D known t)
unfolding insert_cotype skip
Ends-cotype D known t =
    either Ends (member t.iid known) _ _ (λ db. inl refl) (Ends-write D (D.replace_cotype t))

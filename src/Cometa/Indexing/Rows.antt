-- ===== src/Cometa/Indexing/Rows.antt =====
-- comon/cometa.cpp, `index_tlb`: what a property of the database has to bear so that reading the
-- functions of a type keeps it, and the fuel of their loop.
use comon.Base.{
  ℕ, zero, suc, ◌+◌, ◌≤◌, ◌<◌, ◌≡◌, refl, inl, inr, Bool, true, false, List, [], ◌∷◌, arith,
  nat_beq, ltb, length, nat_eq, member, Text, Bool-cases,
}
use comon.Guid.{Guid}
use comon.Engine.{Comethod, ComethodArg}
use comon.Cometa.Types.{Cotype, CotypeKind}
use comon.Cometa.TypeLib.{TypeInfos, TypeAttr, FuncDesc, TypeDesc, get_comethod_names}
use comon.Cometa.Database.{Database, ArgRow}
use comon.Cometa.Writing.{
  Outcome, returns, fails, stops, Writing, continue, ◌>>=◌, ◌>>◌, skip, pure, write, insert_cotype,
  insert_cotype_method, insert_cotype_method_arg, this_parameter,
}
use comon.Cometa.Indexing.{
  reading, inherited, insert_params, insert_method, returns_by_parameter, index_func, index_funcs,
}

-- a property that the writing statements keep at the types outside `known_iids`
pub record Closed (D : Database) (known_iids : List Guid) (P : D.Db → Type 0) : Type 0 where
  pub cotype :
      (t : Cotype) (db : D.Db) → member t.iid known_iids ≡ false → P db → P (D.replace_cotype t db)
  pub method :
      (m : Comethod) (db : D.Db)
      → member m.iid known_iids ≡ false
      → P db
      → P (D.replace_cotype_method m db)
  pub arg :
      (iid : Guid) (n : ℕ) (r : ArgRow) (db : D.Db)
      → member iid known_iids ≡ false
      → P db
      → P (D.replace_cotype_method_arg iid n r db)

pub either :
    {A : Type 0} (P : A → Type 0) (b : Bool) (x y : A)
    → P x
    → P y
    → P (elim b [ true ↦ x | false ↦ y ])
either P true x y p q = p
either P false x y p q = q

-- a method that keeps a property, however it ends
abbrev pub Keeps : {Db A : Type 0} → (Db → Type 0) → Writing Db A → Type 0
Keeps {Db} P m = (db : Db) → P db → P (m db).0

pub continue-Keeps :
    {Db A B : Type 0} (P : Db → Type 0) (db : Db) (r : Outcome A) (k : A → Writing Db B)
    → P db
    → ((a : A) → Keeps P (k a))
    → P (continue db r k).0
unfolding continue
continue-Keeps P db (returns a) k h keeps = keeps a db h
continue-Keeps P db (fails hr) k h keeps = h
continue-Keeps P db stops k h keeps = h

pub Keeps-bind :
    {Db A B : Type 0} (P : Db → Type 0) (m : Writing Db A) (k : A → Writing Db B)
    → Keeps P m
    → ((a : A) → Keeps P (k a))
    → Keeps P (m >>= k)
unfolding ◌>>=◌
Keeps-bind P m k h keeps db p = continue-Keeps P (m db).0 (m db).1 k (h db p) keeps

pub Keeps-then :
    {Db A B : Type 0} (P : Db → Type 0) (m : Writing Db A) (k : Writing Db B)
    → Keeps P m
    → Keeps P k
    → Keeps P (m >> k)
unfolding ◌>>◌
Keeps-then P m k h keeps db p = continue-Keeps P (m db).0 (m db).1 (λ _. k) (h db p) (λ _. keeps)

bind_agree :
    {Db A B : Type 0} (m : Writing Db A) (k k' : A → Writing Db B) (db : Db)
    → ((a : A) (db' : Db) → m db ≡ (db', returns a) → k a db' ≡ k' a db')
    → (m >>= k) db ≡ (m >>= k') db
unfolding ◌>>=◌ continue
bind_agree {Db} {A} {B} m k k' db h = continue_agree (m db) refl
  where
    continue_agree : (s : Db × Outcome A) → m db ≡ s → continue s.0 s.1 k ≡ continue s.0 s.1 k'
    continue_agree (db', returns a) e = h a db' e
    continue_agree (db', fails hr) e = refl
    continue_agree (db', stops) e = refl

pub write-Keeps :
    (D : Database) (P : D.Db → Type 0) (f : D.Db → D.Db)
    → ((db : D.Db) → P db → P (f db))
    → Keeps P (write D f)
unfolding write
write-Keeps D P f h db p =
    either (λ (x : D.Db × Outcome (Unit {0})). P x.0) (D.throws db) _ _ p (h db p)

module _ (D : Database) (known : List Guid) (P : D.Db → Type 0) (closed : Closed D known P) where
  -- a row that is written unless its type is known
  row-Keeps :
      (iid : Guid) (f : D.Db → D.Db)
      → ((db : D.Db) → member iid known ≡ false → P db → P (f db))
      → Keeps P (elim (member iid known) [ true ↦ skip | false ↦ write D f ])
  unfolding skip
  row-Keeps iid f h db p = elim (Bool-cases (member iid known)) [
    | inl there ↦ rw there p
    | inr new ↦ rw new (write-Keeps D P f (λ db p. h db new p) db p)
  ]

  pub insert_cotype-Keeps : (t : Cotype) → Keeps P (insert_cotype D known t)
  unfolding insert_cotype
  insert_cotype-Keeps t = row-Keeps t.iid _ (closed.cotype t)

  insert_method_row : (m : Comethod) → Keeps P (insert_cotype_method D known m)
  unfolding insert_cotype_method
  insert_method_row m = row-Keeps m.iid _ (closed.method m)

  insert_arg_row :
      (iid : Guid) (n : ℕ) (a : ComethodArg) (i : ℕ)
      → Keeps P (insert_cotype_method_arg D known iid n a i)
  unfolding insert_cotype_method_arg
  insert_arg_row iid n a i = row-Keeps iid _ (closed.arg iid n (i, a))

  module _ (O : TypeInfos) (typeinfo : O.TypeInfo) where
    insert_params-Keeps :
        (iid : Guid) (n : ℕ) (ps : List (TypeDesc × ℕ)) (names : List Text) (i : ℕ)
        → Keeps P (insert_params D O known typeinfo iid n ps names i)
    unfolding insert_params skip
    insert_params-Keeps iid n [] names i db p = p
    insert_params-Keeps iid n (q ∷ ps) [] i db p = p
    insert_params-Keeps iid n ((d, flags) ∷ ps) (name ∷ names) i db p =
        Keeps-then P _ _ (insert_arg_row iid n _ i) (insert_params-Keeps iid n ps names (suc i)) db
          p

    insert_method-Keeps :
        (attr : TypeAttr) (kind : CotypeKind) (n : ℕ) (fd : FuncDesc) (name : Text)
        (names : List Text)
        → Keeps P (insert_method D O known typeinfo attr kind n fd name names)
    unfolding insert_method
    insert_method-Keeps attr kind n fd name names =
        Keeps-then P _ _ (insert_arg_row attr.guid n this_parameter 0) (
          Keeps-then P _ _ (insert_params-Keeps attr.guid n fd.params names 1) (
            either (Keeps P) (returns_by_parameter D O known kind fd.elemdesc_func) _ _
              (Keeps-then P _ _ (insert_arg_row attr.guid n _ _) (insert_method_row _))
              (insert_method_row _)))

    index_func-Keeps :
        (attr : TypeAttr) (kind : CotypeKind) (n : ℕ) (fd : FuncDesc) (names : List Text)
        → Keeps P (index_func D O known typeinfo attr kind n fd names)
    unfolding index_func pure
    index_func-Keeps attr kind n fd [] db p = p
    index_func-Keeps attr kind n fd (name ∷ names) db p =
        either (λ (x : D.Db × Outcome ℕ). P x.0) (nat_beq (inherited n name) 0) _ _
          (either (λ (x : D.Db × Outcome ℕ). P x.0) (nat_beq (length names) (length fd.params)) _ _
            (Keeps-then P _ _ (insert_method-Keeps attr kind n fd name names) (λ db p. p) db p) p)
          p

    pub index_funcs-Keeps :
        (fuel : ℕ) (attr : TypeAttr) (kind : CotypeKind) (n : ℕ)
        → Keeps P (index_funcs D O known fuel typeinfo attr kind n)
    unfolding index_funcs skip
    index_funcs-Keeps zero attr kind n db p = p
    index_funcs-Keeps (suc fuel) attr kind n db p =
        either (λ (m : Writing D.Db (Unit {0})). P (m db).0) (ltb n attr.c_funcs) _ _
          (Keeps-bind P _ _ (λ db p. p)
            (λ fd.
              Keeps-bind P _ _ (λ db p. p)
                (λ names.
                  Keeps-bind P _ _ (index_func-Keeps attr kind n fd names)
                    (λ next. index_funcs-Keeps fuel attr kind next)))
            db p)
          p

-- Every round of the loop goes up by at least one, so that fuel for the functions that are left is
-- enough.
module _ (D : Database) (O : TypeInfos) (known : List Guid) (typeinfo : O.TypeInfo)
    (attr : TypeAttr) (kind : CotypeKind) where
  then_pure :
      (m : Writing D.Db (Unit {0})) (n next : ℕ) (db db' : D.Db)
      → (m >> pure n) db ≡ (db', returns next)
      → n ≡ next
  unfolding ◌>>◌ pure continue
  then_pure m n next db db' = ended (m db).1
    where
      ended :
          (r : Outcome (Unit {0}))
          → continue (m db).0 r (λ _. pure n) ≡ (db', returns next)
          → n ≡ next
      ended (returns u) e = ground (arith, e)
      ended (fails hr) e = absurd (ground (arith, e))
      ended stops e = absurd (ground (arith, e))

  index_func_up :
      (n : ℕ) (fd : FuncDesc) (names : List Text) (db db' : D.Db) (next : ℕ)
      → index_func D O known typeinfo attr kind n fd names db ≡ (db', returns next)
      → n < next
  unfolding index_func
  index_func_up n fd [] db db' next e = ground (arith, e)
  index_func_up n fd (name ∷ names) db db' next e = ground (
    arith,
    e,
    then_pure (insert_method D O known typeinfo attr kind n fd name names) (n + 1) next db db',
  )

  -- one round with what comes behind it
  round : (ℕ → Writing D.Db (Unit {0})) → ℕ → Writing D.Db (Unit {0})
  round again n = reading (O.get_func_desc typeinfo n) >>= λ fd.
      reading (get_comethod_names O typeinfo fd) >>= λ names.
      index_func D O known typeinfo attr kind n fd names >>= again

  index_funcs_end :
      (fuel n : ℕ)
      → ltb n attr.c_funcs ≡ false
      → index_funcs D O known fuel typeinfo attr kind n ≡ skip
  unfolding index_funcs
  index_funcs_end zero n e = refl
  index_funcs_end (suc fuel) n e = ground (arith, e)

  index_funcs-round :
      (fuel n : ℕ)
      → ltb n attr.c_funcs ≡ true
      → index_funcs D O known (suc fuel) typeinfo attr kind n
        ≡ round (index_funcs D O known fuel typeinfo attr kind) n
  unfolding index_funcs round
  index_funcs-round fuel n e = ground (arith, e)

  -- The loop over the functions of a type ends of itself: from ordinal `n` on, all fuel that is at
  -- least the number of functions left gives one result, so that the fuel of `index_type` is enough.
  pub index_funcs_enough :
      (fuel more n : ℕ) (db : D.Db)
      → fuel ≤ more
      → attr.c_funcs ≤ n + fuel
      → index_funcs D O known more typeinfo attr kind n db
        ≡ index_funcs D O known fuel typeinfo attr kind n db
  unfolding round
  index_funcs_enough zero more n db le h =
      let over : ltb n attr.c_funcs ≡ false = ground (arith, h) in
      rw (index_funcs_end more n over, index_funcs_end 0 n over) refl
  index_funcs_enough (suc fuel) zero n db le h = absurd (omega arith)
  index_funcs_enough (suc fuel) (suc more) n db le h = elim (Bool-cases (ltb n attr.c_funcs)) [
    | inr over ↦ rw (index_funcs_end (suc more) n over, index_funcs_end (suc fuel) n over) refl
    | inl left ↦
        rw (index_funcs-round more n left, index_funcs-round fuel n left)
          (bind_agree _ _ _ db (λ fd db1 e1. bind_agree _ _ _ db1 (λ names db2 e2.
            bind_agree _ _ _ db2 (λ next db3 e3.
              index_funcs_enough fuel more next db3 (omega arith)
                (omega (arith, h, index_func_up n fd names db2 db3 next e3))))))
  ]

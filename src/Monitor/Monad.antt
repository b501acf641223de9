-- ===== src/Monitor/Monad.antt =====
-- The methods of `comonitor` as functions of the engine's world and the monitor's fields, and the
-- rules by which a method keeps a property of the two.
use comon.Base.{ℕ, Bool, true, false, Option, none, some}
use comon.Base.Result.{Result, ok, err}
use comon.Monitor.Types.{Monitor}

pub record State (W : Type 0) : Type 0 where
  pub world : W
  pub monitor : Monitor

-- a method that returns an `HRESULT`
abbrev pub M : Type 0 → Type 0 → Type 0
M W A = State W → State W × Result A

unfoldable pub continue : {W A B : Type 0} → State W → Result A → (A → M W B) → State W × Result B
continue s (ok a) f = f a s
continue s (err hr) f = (s, err hr)

infixl 5 ◌>>=◌ ◌>>◌
-- `RETURN_IF_FAILED`
unfoldable pub ◌>>=◌ : {W A B : Type 0} → M W A → (A → M W B) → M W B
unfolding continue
◌>>=◌ m f s = let (s', r) = m s in continue s' r f

unfoldable pub ◌>>◌ : {W A B : Type 0} → M W A → M W B → M W B
unfolding continue
◌>>◌ m k s = let (s', r) = m s in continue s' r (λ _. k)

module _ {W A : Type 0} where
  unfoldable pub pure : A → M W A
  pure a s = (s, ok a)

  unfoldable pub throw : ℕ → M W A
  throw hr s = (s, err hr)

  -- a call that changes the world
  unfoldable pub act : (W → W × Result A) → M W A
  act f s = let (w, r) = f s.world in (record s { world = w }, r)

  -- a call that reads the world
  unfoldable pub ask : (W → Result A) → M W A
  ask f s = (s, f s.world)

  -- reads the fields of the monitor
  unfoldable pub gets : (Monitor → A) → M W A
  gets f s = (s, ok (f s.monitor))

  -- a failure is logged, and the method goes on
  unfoldable pub attempt : M W A → M W (Unit {0})
  attempt m s = let (s', r) = m s in (s', ok tt)

module _ {W : Type 0} where
  unfoldable pub call : (W → W) → M W (Unit {0})
  call f s = (record s { world = f s.world }, ok tt)

  unfoldable pub modify : (Monitor → Monitor) → M W (Unit {0})
  modify f s = (record s { monitor = f s.monitor }, ok tt)

  unfoldable pub skip : M W (Unit {0})
  skip s = (s, ok tt)

-- The method keeps the property, whether it succeeds or fails.
pub record Keeps {W A : Type 0} (P : State W → Type 0) (m : M W A) : Type 0 where
  pub after : (s : State W) → P s → P (m s).0

module _ {W : Type 0} {P : State W → Type 0} where
  continue_keeps :
      {A B : Type 0} (s : State W) (r : Result A) (f : A → M W B)
      → P s
      → ((a : A) → Keeps P (f a))
      → P (continue s r f).0
  unfolding continue
  continue_keeps s (ok a) f p kf = (kf a).after s p
  continue_keeps s (err hr) f p kf = p

  pub Keeps-bind :
      {A B : Type 0} {m : M W A} {f : A → M W B}
      → Keeps P m
      → ((a : A) → Keeps P (f a))
      → Keeps P (m >>= f)
  unfolding ◌>>=◌
  Keeps-bind {m} {f} km kf = record {
    after = λ s p. continue_keeps (m s).0 (m s).1 f (km.after s p) kf;
  }

  pub Keeps-then : {A B : Type 0} {m : M W A} {k : M W B} → Keeps P m → Keeps P k → Keeps P (m >> k)
  unfolding ◌>>◌
  Keeps-then {m} {k} km kk = record {
    after = λ s p. continue_keeps (m s).0 (m s).1 (λ _. k) (km.after s p) (λ _. kk);
  }

  pub Keeps-pure : {A : Type 0} (a : A) → Keeps P (pure {W = W} a)
  unfolding pure
  Keeps-pure a = record { after = λ s p. p }

  pub Keeps-throw : {A : Type 0} (hr : ℕ) → Keeps P (throw {W = W} {A = A} hr)
  unfolding throw
  Keeps-throw hr = record { after = λ s p. p }

  pub Keeps-skip : Keeps P (skip {W = W})
  unfolding skip
  Keeps-skip = record { after = λ s p. p }

  pub Keeps-ask : {A : Type 0} (f : W → Result A) → Keeps P (ask f)
  unfolding ask
  Keeps-ask f = record { after = λ s p. p }

  pub Keeps-gets : {A : Type 0} (f : Monitor → A) → Keeps P (gets f)
  unfolding gets
  Keeps-gets f = record { after = λ s p. p }

  pub Keeps-attempt : {A : Type 0} {m : M W A} → Keeps P m → Keeps P (attempt m)
  unfolding attempt
  Keeps-attempt km = record { after = λ s p. km.after s p }

-- a property of the outcome: one for success, one for failure
abbrev pub Post :
    {W A : Type 0} → (A → State W → Type 0) → (State W → Type 0) → State W × Result A → Type 0
Post Q R (s, ok a) = Q a s
Post Q R (s, err hr) = R s

-- from the property before a method to those after it
pub record Triple {W A : Type 0} (P : State W → Type 0) (m : M W A) (Q : A → State W → Type 0)
    (R : State W → Type 0) : Type 0 where
  pub after : (s : State W) → P s → Post Q R (m s)

pub keeps_of_post :
    {W A : Type 0} (R : State W → Type 0) (o : State W × Result A) → Post (λ _. R) R o → R o.0
keeps_of_post R (s, ok a) p = p
keeps_of_post R (s, err hr) p = p

post_weaken :
    {W A : Type 0} (R : State W → Type 0) {Q Q' : A → State W → Type 0} (o : State W × Result A)
    → ((a : A) (s : State W) → Q a s → Q' a s)
    → Post Q R o
    → Post Q' R o
post_weaken R (s, ok a) weaken p = weaken a s p
post_weaken R (s, err hr) weaken p = p

module _ {W : Type 0} {R : State W → Type 0} where
  continue_post :
      {A B : Type 0} {Q : A → State W → Type 0} {Q' : B → State W → Type 0} (o : State W × Result A)
      (f : A → M W B)
      → Post Q R o
      → ((a : A) → Triple (Q a) (f a) Q' R)
      → Post Q' R (continue o.0 o.1 f)
  unfolding continue
  continue_post (s, ok a) f p t = (t a).after s p
  continue_post (s, err hr) f p t = p

  pub Triple-bind :
      {A B : Type 0} {P : State W → Type 0} {Q : A → State W → Type 0} {Q' : B → State W → Type 0}
      {m : M W A} {f : A → M W B}
      → Triple P m Q R
      → ((a : A) → Triple (Q a) (f a) Q' R)
      → Triple P (m >>= f) Q' R
  unfolding ◌>>=◌
  Triple-bind {m} {f} tm tf = record { after = λ s p. continue_post (m s) f (tm.after s p) tf }

  pub Triple-then :
      {A B : Type 0} {P Q : State W → Type 0} {Q' : B → State W → Type 0} {m : M W A} {k : M W B}
      → Triple P m (λ _. Q) R
      → Triple Q k Q' R
      → Triple P (m >> k) Q' R
  unfolding ◌>>◌
  Triple-then {m} {k} tm tk = record {
    after = λ s p. continue_post (m s) (λ _. k) (tm.after s p) (λ _. tk);
  }

  -- a fact that no state is part of
  pub Triple-fact :
      {A F : Type 0} {P : State W → Type 0} {m : M W A} {Q : A → State W → Type 0}
      → (F → Triple P m Q R)
      → Triple (λ s. P s × F) m Q R
  Triple-fact t = record { after = λ s p. (t p.1).after s p.0 }

  pub Triple-pure : {A : Type 0} {P : State W → Type 0} (a : A) → Triple P (pure a) (λ _. P) R
  unfolding pure
  Triple-pure a = record { after = λ s p. p }

  pub Triple-give : {A : Type 0} {Q : A → State W → Type 0} (a : A) → Triple (Q a) (pure a) Q R
  unfolding pure
  Triple-give a = record { after = λ s p. p }

  pub Triple-weaken :
      {A : Type 0} {P : State W → Type 0} {m : M W A} {Q Q' : A → State W → Type 0}
      → Triple P m Q R
      → ((a : A) (s : State W) → Q a s → Q' a s)
      → Triple P m Q' R
  Triple-weaken {m} t weaken = record { after = λ s p. post_weaken R (m s) weaken (t.after s p) }

  post_of_keeps :
      {A : Type 0} {P : State W → Type 0} (o : State W × Result A)
      → ((s : State W) → P s → R s)
      → P o.0
      → Post (λ _. P) R o
  post_of_keeps (s, ok a) weaken p = p
  post_of_keeps (s, err hr) weaken p = weaken s p

  pub Triple-Keeps :
      {A : Type 0} {P : State W → Type 0} {m : M W A}
      → ((s : State W) → P s → R s)
      → Keeps P m
      → Triple P m (λ _. P) R
  Triple-Keeps {m} weaken k = record { after = λ s p. post_of_keeps (m s) weaken (k.after s p) }

  pub Keeps-Triple : {A : Type 0} {m : M W A} → Triple R m (λ _. R) R → Keeps R m
  Keeps-Triple {m} t = record { after = λ s p. keeps_of_post R (m s) (t.after s p) }

module _ {W A : Type 0} {P : State W → Type 0} where
  pub Keeps-branch :
      (b : Bool) {m k : M W A} → Keeps P m → Keeps P k → Keeps P (elim b [ false ↦ m | true ↦ k ])
  Keeps-branch true km kk = kk
  Keeps-branch false km kk = km

  pub Keeps-option :
      {B : Type 0} (o : Option B) {m : M W A} {k : B → M W A}
      → Keeps P m
      → ((b : B) → Keeps P (k b))
      → Keeps P (elim o [ none ↦ m | some b ↦ k b ])
  Keeps-option none km kk = km
  Keeps-option (some b) km kk = kk b

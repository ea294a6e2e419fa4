-- ===== src/Database/Laws.antt =====
-- What a transaction promises.
use mathlib.Core.Path.{subst}
use gaggle.Prelude.{Bool, true, false, ◌∙◌, ◌≡◌, refl, sym, arith}
use gaggle.AppErrors.{AppError, Result, ok, err}
use gaggle.Database.Exec.{Db, World, M, reach, continue, finish, transaction, raise_if, ◌>>=◌, ◌>>◌}

-- Reaching the database changes only what faults are left.
pub db-reach : (w : World) → (reach w).1.db ≡ w.db
unfolding reach
db-reach w = ground arith

-- How a call that began in `w` ends on the tables: an error leaves them as they were, a success
-- makes them `after`.
abbrev pub Ends : {A : Type 0} → World → (A → Db → Type 0) → Result A × World → Type 0
Ends w after (err e, w') = w'.db ≡ w.db
Ends w after (ok a, w') = after a w'.db

pub Ends-map :
    {A : Type 0} {Q R : A → Db → Type 0} (w : World) (r : Result A × World)
    → ((a : A) (d : Db) → Q a d → R a d)
    → Ends w Q r
    → Ends w R r
Ends-map w (ok a, w') f h = f a w'.db h
Ends-map w (err e, w') f h = h

-- Two calls in a row, where the first one writes nothing on its errors.
pub Ends-bind :
    {A B : Type 0} (Q : A → Db → Type 0) (R : B → Db → Type 0) (w : World) (r : Result A × World)
    (f : A → M B)
    → Ends w Q r
    → ((a : A) (v : World) → Q a v.db → Ends w R (f a v))
    → Ends w R (continue r.0 f r.1)
Ends-bind Q R w (ok a, v) f h k = k a v h
Ends-bind Q R w (err e, v) f h k = h

-- The same tables at the start.
pub Ends-db :
    {A : Type 0} (Q : A → Db → Type 0) (w v : World) (r : Result A × World)
    → v.db ≡ w.db
    → Ends v Q r
    → Ends w Q r
Ends-db Q w v (ok a, x) p h = h
Ends-db Q w v (err e, x) p h = h ∙ p

-- A predicate on the tables that every success establishes is kept by a call that rolls back.
pub Ends-keeps :
    {A : Type 0} {Q : A → Db → Type 0} (P : Db → Type 0) (w : World) (r : Result A × World)
    → P w.db
    → ((a : A) (d : Db) → Q a d → P d)
    → Ends w Q r
    → P r.1.db
Ends-keeps P w (ok a, w') p f h = f a w'.db h
Ends-keeps P w (err e, w') p f h = subst P (sym h) p

-- Reading calls, steps after a read, and transactions, for a predicate on the tables.
module _ {A B : Type 0} (P : Db → Type 0) where
  continue-P :
      (r : Result A) (f : A → M B) (w : World)
      → P w.db
      → ((a : A) → r ≡ ok a → P (f a w).1.db)
      → P (continue r f w).1.db
  continue-P (ok a) f w p h = h a refl
  continue-P (err e) f w p h = p

  -- The rest of a block may use that the first call returned.
  pub bind_keeps :
      (m : M A) (f : A → M B) (w : World)
      → P (m w).1.db
      → ((a : A) → (m w).0 ≡ ok a → P (f a (m w).1).1.db)
      → P ((m >>= f) w).1.db
  bind_keeps m f w p h = continue-P (m w).0 f (m w).1 p h

module _ {A : Type 0} (P : Db → Type 0) where
  finish-P :
      (before : Db) (r : Result A) (w : World)
      → P before
      → ((a : A) → r ≡ ok a → P w.db)
      → P (finish before r w).1.db
  unfolding reach
  finish-P before (ok a) w p h = ground (arith, h a refl)
  finish-P before (err e) w p h = p

  -- A transaction whose body returns with the predicate keeps it, however it ends.
  pub transaction_keeps :
      (m : M A) (w : World)
      → P w.db
      → ((v : World) → v.db ≡ w.db → (a : A) → (m v).0 ≡ ok a → P (m v).1.db)
      → P (transaction m w).1.db
  unfolding transaction
  transaction_keeps m w p h =
      bind_keeps P reach (λ _ v. let (r, v') = m v in finish v.db r v') w
        (subst P (sym (db-reach w)) p)
        λ _ _.
          finish-P (reach w).1.db (m (reach w).1).0 (m (reach w).1).1 (subst P (sym (db-reach w)) p)
            (h (reach w).1 (db-reach w))

-- A transaction over a body that writes nothing on its errors, to begin at the tables of `w`.
module _ {A : Type 0} (Q : A → Db → Type 0) (w : World) where
  commit-Ends :
      (a : A) (before : Db) (r : Result (Unit {0})) (v : World)
      → before ≡ w.db
      → Q a v.db
      → Ends w Q (elim r [ ok _ ↦ (ok a, v) | err e ↦ (err e, record v { db = before }) ])
  commit-Ends a before (ok _) v p h = h
  commit-Ends a before (err e) v p h = p

  finish-Ends :
      (before : Db) (r : Result A × World)
      → before ≡ w.db
      → Ends w Q r
      → Ends w Q (finish before r.0 r.1)
  finish-Ends before (ok a, v) p h =
      commit-Ends a before (reach v).0 (reach v).1 p (subst (Q a) (sym (db-reach v)) h)
  finish-Ends before (err e, v) p h = p

  begin-Ends :
      (r : Result (Unit {0})) (v : World) (m : M A)
      → v.db ≡ w.db
      → Ends w Q (m v)
      → Ends w Q (continue r (λ _ x. let (s, x') = m x in finish x.db s x') v)
  begin-Ends (ok _) v m p h = finish-Ends v.db (m v) p h
  begin-Ends (err e) v m p h = p

  pub transaction-Ends : (m : M A) → Ends (reach w).1 Q (m (reach w).1) → Ends w Q (transaction m w)
  unfolding transaction
  transaction-Ends m h =
      begin-Ends (reach w).0 (reach w).1 m (db-reach w)
        (Ends-db Q w (reach w).1 (m (reach w).1) (db-reach w) h)

-- What a call makes of the tables where it returns a value; an error may leave anything.
abbrev pub Succeeds : {A : Type 0} → (A → Db → Type 0) → Result A × World → Type 0
Succeeds Q (ok a, v) = Q a v.db
Succeeds Q (err e, v) = Unit

pub Succeeds-bind :
    {A B : Type 0} (Q : A → Db → Type 0) (R : B → Db → Type 0) (r : Result A × World) (f : A → M B)
    → Succeeds Q r
    → ((a : A) (v : World) → Q a v.db → Succeeds R (f a v))
    → Succeeds R (continue r.0 f r.1)
Succeeds-bind Q R (ok a, v) f h k = k a v h
Succeeds-bind Q R (err e, v) f h k = tt

-- A transaction over any body: what the body's success promises of the tables holds, or nothing has
-- changed.
module _ {A : Type 0} (Q : A → Db → Type 0) (w : World) where
  finish-Succeeds :
      (before : Db) (r : Result A × World)
      → before ≡ w.db
      → Succeeds Q r
      → Ends w Q (finish before r.0 r.1)
  finish-Succeeds before (ok a, v) p h = finish-Ends Q w before (ok a, v) p h
  finish-Succeeds before (err e, v) p h = p

  begin-Succeeds :
      (r : Result (Unit {0})) (v : World) (m : M A)
      → v.db ≡ w.db
      → Succeeds Q (m v)
      → Ends w Q (continue r (λ _ x. let (s, x') = m x in finish x.db s x') v)
  begin-Succeeds (ok _) v m p h = finish-Succeeds v.db (m v) p h
  begin-Succeeds (err e) v m p h = p

  pub transaction-Succeeds : (m : M A) → Succeeds Q (m (reach w).1) → Ends w Q (transaction m w)
  unfolding transaction
  transaction-Succeeds m h = begin-Succeeds (reach w).0 (reach w).1 m (db-reach w) h

-- A guard of the service: where it refuses, nothing has changed.
pub raise_if-Ends :
    {A : Type 0} (Q : A → Db → Type 0) (w : World) (b : Bool) (e : AppError) (m : M A)
    → (b ≡ false → Ends w Q (m w))
    → Ends w Q ((raise_if b e >> m) w)
raise_if-Ends Q w true e m h = refl
raise_if-Ends Q w false e m h = h refl

-- The same, for a promise that names the tables at the start.
pub transaction-From :
    {A : Type 0} (Q : Db → A → Db → Type 0) (w : World) (m : M A)
    → ((v : World) → Succeeds (Q v.db) (m v))
    → Ends w (Q w.db) (transaction m w)
transaction-From Q w m h =
    transaction-Succeeds (Q w.db) w m
      (subst (λ d. Succeeds (Q d) (m (reach w).1)) (db-reach w) (h (reach w).1))

pub Succeeds-map :
    {A : Type 0} (Q R : A → Db → Type 0) (r : Result A × World)
    → ((a : A) (d : Db) → Q a d → R a d)
    → Succeeds Q r
    → Succeeds R r
Succeeds-map Q R (ok a, v) f h = f a v.db h
Succeeds-map Q R (err e, v) f h = tt

-- Guards, in a body whose errors are rolled back.
pub raise_if-Succeeds :
    {A : Type 0} (Q : A → Db → Type 0) (w : World) (b : Bool) (e : AppError) (m : M A)
    → (b ≡ false → Succeeds Q (m w))
    → Succeeds Q ((raise_if b e >> m) w)
raise_if-Succeeds Q w true e m h = tt
raise_if-Succeeds Q w false e m h = h refl

pub reach-Succeeds : (w : World) → Succeeds (λ _ d. d ≡ w.db) (reach w)
unfolding reach
reach-Succeeds w = ground arith

pub require-Succeeds :
    {A B : Type 0} (Q : B → Db → Type 0) (w : World) (r : Result A) (m : A → M B)
    → ((a : A) → r ≡ ok a → Succeeds Q (m a w))
    → Succeeds Q (continue r m w)
require-Succeeds Q w (ok a) m h = h a refl
require-Succeeds Q w (err e) m h = tt

-- ===== src/Database/Clock.antt =====
-- Calls that leave the clock alone, which only time itself moves.
use mathlib.Core.Path.{subst}
use gaggle.Prelude.{ℕ, ◌∙◌, ◌≡◌, refl, arith}
use gaggle.AppErrors.{Result, ok, err}
use gaggle.Database.Exec.{Db, World, M, reach, continue, transaction, ◌>>=◌}
use gaggle.Database.Laws.{Ends, Succeeds, transaction-Succeeds, db-reach}

abbrev pub StandsStill : {A : Type 0} → M A → Type 0
StandsStill m = (w : World) → (m w).1.now ≡ w.now

continue_still :
    {A B : Type 0} (r : Result A) (f : A → M B) (v : World)
    → ((a : A) → StandsStill (f a))
    → (continue r f v).1.now ≡ v.now
continue_still (ok a) f v k = k a v
continue_still (err e) f v k = refl

pub bind_still :
    {A B : Type 0} (m : M A) (f : A → M B)
    → StandsStill m
    → ((a : A) → StandsStill (f a))
    → StandsStill (m >>= f)
bind_still m f h k w = continue_still (m w).0 f (m w).1 k ∙ h w

-- The clock of a world stands still while the database is reached.
pub now-reach : (w : World) → (reach w).1.now ≡ w.now
unfolding reach
now-reach w = ground arith

-- The same calls in a row, for a call that ends without writing.
pub Ends-bind_at :
    {A B : Type 0} (Q : A → Db → Type 0) (R : B → Db → Type 0) (w : World) (r : Result A × World)
    (f : A → M B)
    → r.1.now ≡ w.now
    → Ends w Q r
    → ((a : A) (v : World) → v.now ≡ w.now → Q a v.db → Ends w R (f a v))
    → Ends w R (continue r.0 f r.1)
Ends-bind_at Q R w (ok a, v) f e h k = k a v e h
Ends-bind_at Q R w (err x, v) f e h k = h

-- Two calls in a row, the first of which does not touch the clock.
pub bind_at :
    {A B : Type 0} (Q : A → Db → Type 0) (R : B → Db → Type 0) (now : ℕ) (r : Result A × World)
    (f : A → M B)
    → r.1.now ≡ now
    → Succeeds Q r
    → ((a : A) (v : World) → v.now ≡ now → Q a v.db → Succeeds R (f a v))
    → Succeeds R (continue r.0 f r.1)
bind_at Q R now (ok a, v) f e h k = k a v e h
bind_at Q R now (err x, v) f e h k = tt

-- A transaction whose promise names the tables and the time at the start.
pub transaction_at :
    {A : Type 0} (Q : Db → A → Db → Type 0) (w : World) (m : M A)
    → ((v : World) → v.now ≡ w.now → Succeeds (Q v.db) (m v))
    → Ends w (Q w.db) (transaction m w)
transaction_at Q w m h =
    transaction-Succeeds (Q w.db) w m
      (subst (λ d. Succeeds (Q d) (m (reach w).1)) (db-reach w) (h (reach w).1 (now-reach w)))

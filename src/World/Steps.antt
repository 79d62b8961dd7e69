-- ===== src/World/Steps.antt =====
-- What a successful block of actions went through, and what one statement does.
use ared_edge_iota_anchor.Prelude.{◌≡◌, refl, Result, ok, err, arith, ap}
use ared_edge_iota_anchor.World.Types.{World, Tables, Env, Exec}
use ared_edge_iota_anchor.World.Exec.{continue, ◌>>=◌, execute, commit}

-- The result of the first call, and the rest from where it left the world.
pub record Goes {A B : Type 0} (m : Exec A) (f : A → Exec B) (w : World) : Type 0 where
  pub value : A
  pub first : (m w).0 ≡ ok value
  pub rest : (m >>= f) w ≡ f value (m w).1

pub bind-Goes :
    {A B : Type 0} (m : Exec A) (f : A → Exec B) (w : World) {b : B}
    → ((m >>= f) w).0 ≡ ok b
    → Goes m f w
bind-Goes {A} {B} m f w {b} h = go (m w).0 refl h
  where
    go : (r : Result A) → (m w).0 ≡ r → (continue r f (m w).1).0 ≡ ok b → Goes m f w
    go (ok a) e h = record {
      value = a;
      first = e;
      rest = ap (λ (r : Result A). continue r f (m w).1) e;
    }
    go (err x) e h = absurd (ground arith)

-- A statement that does not raise did what its query does.
pub record Runs (env : Env) {A : Type 0} (query : Tables → Result A × Tables) (a : A) (w : World)
    : Type 0 where
  pub value : (query w.tables).0 ≡ ok a
  pub tables : (execute env query w).1.tables ≡ (query w.tables).1
  pub committed : (execute env query w).1.committed ≡ w.committed
  pub lock : (execute env query w).1.lock_count ≡ w.lock_count

pub execute-Runs :
    (env : Env) {A : Type 0} (query : Tables → Result A × Tables) (a : A) (w : World)
    → (execute env query w).0 ≡ ok a
    → Runs env query a w
unfolding execute
execute-Runs env query a w h = record {
  value = ground arith;
  tables = ground arith;
  committed = ground arith;
  lock = ground arith;
}

-- A commit that does not raise makes the session's tables the stored ones.
pub commit-tables :
    (env : Env) (w : World)
    → (commit env w).0 ≡ ok tt
    → ((commit env w).1.committed ≡ w.tables) × ((commit env w).1.tables ≡ w.tables)
unfolding commit
commit-tables env w h = (ground arith, ground arith)

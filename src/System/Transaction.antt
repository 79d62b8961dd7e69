-- ===== src/System/Transaction.antt =====
-- `get_db` of src/app/db/session.py as a transaction around a handler.
use ared_edge_iota_anchor.Prelude.{
  ◌≡◌, refl, Bool-cases, ok, err, Exception, database_error, ◌⊎◌, inl, inr, Result-cases,
}
use ared_edge_iota_anchor.World.Types.{World, Env, Exec}
use ared_edge_iota_anchor.World.Exec.{commit}
use ared_edge_iota_anchor.System.Session.{get_db}

-- The world in which a session begins.
abbrev pub begun : World → World
begun w = record w { tables = w.committed }

module _ (env : Env) {A : Type 0} where
  -- A handler that does not commit by itself is one transaction: where `get_db` returns, what is stored
  -- is what the handler left in its session; where it raises, for the handler's exception or for the
  -- commit's, what is stored is what was stored before. The session ends on what is stored.
  pub get_db-atomic :
      (handler : Exec A) (w : World)
      → (handler (begun w)).1.committed ≡ w.committed
      → ((a : A) × ((get_db env handler w).0 ≡ ok a)
          × ((handler (begun w)).0 ≡ ok a)
          × ((get_db env handler w).1.committed ≡ (handler (begun w)).1.tables)
          × ((get_db env handler w).1.tables ≡ (get_db env handler w).1.committed))
        ⊎ ((e : Exception) × ((get_db env handler w).0 ≡ err e)
            × ((get_db env handler w).1.committed ≡ w.committed)
            × ((get_db env handler w).1.tables ≡ (get_db env handler w).1.committed))
  unfolding get_db commit
  get_db-atomic handler w kept = elim (Result-cases (handler (begun w)).0) [
    | inr (x, raised) ↦ rw raised (inr (x, refl, kept, refl))
    | inl (a, returned) ↦ elim (Bool-cases (env.fault (handler (begun w)).1.calls)) [
      | inl fails ↦ rw (returned, fails) (inr (database_error, refl, kept, refl))
      | inr runs ↦ rw (returned, runs) (inl (a, refl, refl, refl, refl))
    ]
  ]

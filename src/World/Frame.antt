-- ===== src/World/Frame.antt =====
-- What an action may change, as a relation between the world before and after, on every path of it:
-- one rule for each way to build an action.
use ared_edge_iota_anchor.Prelude.{
  ℕ, ◌≤◌, ◌≡◌, refl, ◌∙◌, Bool, true, false, Result, ok, err, Exception, if◌then◌else◌, arith,
}
use ared_edge_iota_anchor.World.Types.{World, Env, Exec, Request}
use ared_edge_iota_anchor.World.Exec.{
  pure, raise, lift, continue, ◌>>=◌, rescue, try_except, finally, gets, sleep, request, uuid4,
}

pub record IsPreorder (R : World → World → Type 0) : Type 0 where
  pub refl_lem : (w : World) → R w w
  pub trans_lem : (u v w : World) → R u v → R v w → R u w

pub record Respects (R : World → World → Type 0) {A : Type 0} (m : Exec A) : Type 0 where
  pub at : (w : World) → R w (m w).1

module _ {R : World → World → Type 0} (order : IsPreorder R) where
  pub Respects-pure : {A : Type 0} (a : A) → Respects R (pure a)
  Respects-pure a = record { at = order.refl_lem }

  pub Respects-raise : {A : Type 0} (e : Exception) → Respects R (raise {A = A} e)
  Respects-raise e = record { at = order.refl_lem }

  pub Respects-lift : {A : Type 0} (r : Result A) → Respects R (lift r)
  Respects-lift r = record { at = order.refl_lem }

  pub Respects-gets : {A : Type 0} (f : World → A) → Respects R (gets f)
  Respects-gets f = record { at = order.refl_lem }

  Respects-continue :
      {A B : Type 0} (r : Result A) (f : A → Exec B)
      → ((a : A) → Respects R (f a))
      → Respects R (continue r f)
  Respects-continue (ok a) f k = record { at = λ w. (k a).at w }
  Respects-continue (err e) f k = record { at = order.refl_lem }

  pub Respects-bind :
      {A B : Type 0} (m : Exec A) (f : A → Exec B)
      → Respects R m
      → ((a : A) → Respects R (f a))
      → Respects R (m >>= f)
  Respects-bind m f h k = record {
    at = λ w.
        let (r, w') = m w in
        order.trans_lem w w' (continue r f w').1 (h.at w) ((Respects-continue r f k).at w');
  }

  Respects-rescue :
      {A : Type 0} (r : Result A) (f : Exception → Exec A)
      → ((e : Exception) → Respects R (f e))
      → Respects R (rescue r f)
  Respects-rescue (ok a) f k = record { at = order.refl_lem }
  Respects-rescue (err e) f k = record { at = λ w. (k e).at w }

  pub Respects-try :
      {A : Type 0} (m : Exec A) (f : Exception → Exec A)
      → Respects R m
      → ((e : Exception) → Respects R (f e))
      → Respects R (try_except m f)
  Respects-try m f h k = record {
    at = λ w.
        let (r, w') = m w in
        order.trans_lem w w' (rescue r f w').1 (h.at w) ((Respects-rescue r f k).at w');
  }

  pub Respects-finally :
      {A : Type 0} (m : Exec A) (cleanup : Exec (Unit {0}))
      → Respects R m
      → Respects R cleanup
      → Respects R (finally m cleanup)
  Respects-finally m cleanup h k = record {
    at = λ w. order.trans_lem w (m w).1 (cleanup (m w).1).1 (h.at w) (k.at (m w).1);
  }

pub Respects-if :
    {R : World → World → Type 0} {A : Type 0} (b : Bool) (m n : Exec A)
    → Respects R m
    → Respects R n
    → Respects R (if b then m else n)
Respects-if true m n h k = h
Respects-if false m n h k = k

-- The data is as it was, and time has not gone back.
pub record Quiet (w w' : World) : Type 0 where
  pub same_tables : w'.tables ≡ w.tables
  pub same_committed : w'.committed ≡ w.committed
  pub same_lock : w'.lock_count ≡ w.lock_count
  pub same_pending : w'.pending_anchors ≡ w.pending_anchors
  pub later : w.now ≤ w'.now

pub Quiet-IsPreorder : IsPreorder Quiet
Quiet-IsPreorder = record {
  refl_lem = λ w. record {
    same_tables = refl;
    same_committed = refl;
    same_lock = refl;
    same_pending = refl;
    later = omega arith;
  };
  trans_lem = λ u v w p q. record {
    same_tables = q.same_tables ∙ p.same_tables;
    same_committed = q.same_committed ∙ p.same_committed;
    same_lock = q.same_lock ∙ p.same_lock;
    same_pending = q.same_pending ∙ p.same_pending;
    later = omega (arith, p.later, q.later);
  };
}

module _ (env : Env) where
  pub sleep-Quiet : (d : ℕ) → Respects Quiet (sleep env d)
  unfolding sleep
  sleep-Quiet d = record {
    at = λ w. record {
      same_tables = refl;
      same_committed = refl;
      same_lock = refl;
      same_pending = refl;
      later = omega arith;
    };
  }

  pub request-Quiet : (r : Request) → Respects Quiet (request env r)
  unfolding request
  request-Quiet r = record {
    at = λ w. record {
      same_tables = refl;
      same_committed = refl;
      same_lock = refl;
      same_pending = refl;
      later = omega arith;
    };
  }

  pub uuid4-Quiet : Respects Quiet (uuid4 env)
  unfolding uuid4
  uuid4-Quiet = record {
    at = λ w. record {
      same_tables = refl;
      same_committed = refl;
      same_lock = refl;
      same_pending = refl;
      later = omega arith;
    };
  }

pub ruleset frame_rules = (
  Respects-pure, Respects-raise, Respects-lift, Respects-gets, Respects-bind, Respects-try,
  Respects-finally, Respects-if,
)

pub ruleset quiet_rules = (frame_rules, Quiet-IsPreorder, sleep-Quiet, request-Quiet, uuid4-Quiet)

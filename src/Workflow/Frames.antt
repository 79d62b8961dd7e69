-- ===== src/Workflow/Frames.antt =====
-- Rules for the actions of src/app/services/anchor_workflow.py: what they keep, what they undo, and what
-- they return.
use ared_edge_iota_anchor.Prelude.{
  ◌≡◌, refl, ◌∙◌, true, false, Bool, Result, ok, err, Exception, arith, if◌then◌else◌,
}
use ared_edge_iota_anchor.World.Types.{World, Tables, Env, Exec}
use ared_edge_iota_anchor.World.Exec.{pure, continue, ◌>>=◌, execute}
use ared_edge_iota_anchor.World.Frame.{
  IsPreorder, Respects, frame_rules, Respects-bind, Respects-lift, Respects-pure, Respects-gets,
}
use ared_edge_iota_anchor.Workflow.Job.{AnchorResult}

-- The stored data and the lock are as they were.
pub record Kept (w w' : World) : Type 0 where
  pub same_committed : w'.committed ≡ w.committed
  pub same_lock : w'.lock_count ≡ w.lock_count

pub Kept-IsPreorder : IsPreorder Kept
Kept-IsPreorder = record {
  refl_lem = λ w. record { same_committed = refl; same_lock = refl };
  trans_lem = λ u v w p q. record {
    same_committed = q.same_committed ∙ p.same_committed;
    same_lock = q.same_lock ∙ p.same_lock;
  };
}

pub execute-Kept :
    (env : Env) {A : Type 0} (query : Tables → Result A × Tables)
    → Respects Kept (execute env query)
unfolding execute
execute-Kept env query = record {
  at = λ w. record { same_committed = ground arith; same_lock = ground arith };
}

pub ruleset kept_rules = (frame_rules, Kept-IsPreorder, execute-Kept)

-- The lock is as it was, and so is the stored data where the action raises.
pub record Undone {A : Type 0} (m : Exec A) : Type 0 where
  pub lock : (w : World) → (m w).1.lock_count ≡ w.lock_count
  pub stored : (w : World) {e : Exception} → (m w).0 ≡ err e → (m w).1.committed ≡ w.committed

pub Undone-Kept : {A : Type 0} (m : Exec A) → Respects Kept m → Undone m
Undone-Kept m h = record { lock = λ w. (h.at w).same_lock; stored = λ w _. (h.at w).same_committed }

pub Undone-bind :
    {A B : Type 0} (m : Exec A) (f : A → Exec B)
    → Respects Kept m
    → ((a : A) → Undone (f a))
    → Undone (m >>= f)
Undone-bind {A} {B} m f h k = record {
  lock = λ w. lock_of w (m w).0;
  stored = λ w e. stored_of w (m w).0 e;
}
  where
    lock_of : (w : World) (r : Result A) → (continue r f (m w).1).1.lock_count ≡ w.lock_count
    lock_of w (ok a) = (k a).lock (m w).1 ∙ (h.at w).same_lock
    lock_of w (err x) = (h.at w).same_lock

    stored_of :
        (w : World) (r : Result A) {e : Exception}
        → (continue r f (m w).1).0 ≡ err e
        → (continue r f (m w).1).1.committed ≡ w.committed
    stored_of w (ok a) e = (k a).stored (m w).1 e ∙ (h.at w).same_committed
    stored_of w (err x) e = (h.at w).same_committed

pub Undone-if :
    {A : Type 0} (b : Bool) (m n : Exec A) → Undone m → Undone n → Undone (if b then m else n)
Undone-if true m n h k = h
Undone-if false m n h k = k

-- Where the action returns, it returns a success.
pub record Yields (m : Exec AnchorResult) : Type 0 where
  pub yields : (w : World) {a : AnchorResult} → (m w).0 ≡ ok a → a.success ≡ true

pub Yields-pure : (a : AnchorResult) → a.success ≡ true → Yields (pure a)
Yields-pure a h = record { yields = λ w {a = b} e. ground (arith, h) }

pub Yields-bind :
    {A : Type 0} (m : Exec A) (f : A → Exec AnchorResult)
    → ((a : A) → Yields (f a))
    → Yields (m >>= f)
Yields-bind {A} m f k = record { yields = λ w e. of w (m w).0 e }
  where
    of :
        (w : World) (r : Result A) {b : AnchorResult}
        → (continue r f (m w).1).0 ≡ ok b
        → b.success ≡ true
    of w (ok a) e = (k a).yields (m w).1 e
    of w (err x) e = absurd (ground arith)

pub Yields-if :
    (b : Bool) (m n : Exec AnchorResult) → Yields m → Yields n → Yields (if b then m else n)
Yields-if true m n h k = h
Yields-if false m n h k = k

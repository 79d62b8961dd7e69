-- ===== src/World/Returns.antt =====
-- Actions that return from every world, with what holds of the value.
use ared_edge_iota_anchor.Prelude.{
  ◌≡◌, refl, Bool, true, false, Result, ok, err, Exception, if◌then◌else◌,
}
use ared_edge_iota_anchor.World.Types.{World, Exec}
use ared_edge_iota_anchor.World.Exec.{pure, ◌>>=◌, rescue, try_except, with_session}

pub record Returns {A : Type 0} (P : A → Type 0) (m : Exec A) : Type 0 where
  pub at : (w : World) → (a : A) × ((m w).0 ≡ ok a) × P a

abbrev pub Anything : {A : Type 0} → A → Type 0
Anything a = Unit {0}

module _ {A : Type 0} (P : A → Type 0) where
  pub Returns-pure : (a : A) → P a → Returns P (pure a)
  Returns-pure a h = record { at = λ w. (a, refl, h) }

  pub Returns-bind :
      {B : Type 0} {Q : B → Type 0} (m : Exec B) (f : B → Exec A)
      → Returns Q m
      → ((b : B) → Returns P (f b))
      → Returns P (m >>= f)
  Returns-bind m f h k = record {
    at = λ w. let (b, e, q) = h.at w in let (a, e', p) = (k b).at (m w).1 in (a, rw e e', p);
  }

  pub Returns-session : (m : Exec A) → Returns P m → Returns P (with_session m)
  unfolding with_session
  Returns-session m h = record { at = λ w. h.at (record w { tables = w.committed }) }

  pub Returns-if :
      (c : Bool) (m n : Exec A) → Returns P m → Returns P n → Returns P (if c then m else n)
  Returns-if true m n h k = h
  Returns-if false m n h k = k

-- An exception that is caught.
pub Returns-caught :
    {A : Type 0} (m : Exec A) (a : Exception → A)
    → Returns Anything (try_except m (λ e. pure (a e)))
Returns-caught {A} m a = record { at = λ w. of w (m w).0 }
  where
    of :
        (w : World) (r : Result A)
        → (b : A) × ((rescue r (λ e. pure (a e)) (m w).1).0 ≡ ok b) × Unit {0}
    of w (ok b) = (b, refl, tt)
    of w (err e) = (a e, refl, tt)

-- ===== src/Api/Answer.antt =====
-- How an endpoint of src/app/api/v1/endpoints/anchors.py answers.
use ared_edge_iota_anchor.Prelude.{ℕ, Result, ok, err}
use ared_edge_iota_anchor.World.Types.{Exec, World}
use ared_edge_iota_anchor.World.Exec.{with_session}

-- A response, or an `HTTPException` with its status.
pub data Answer (A : Type 0) : Type 0 where
  answer : A → Answer A
  refused : (status : ℕ) → Answer A

abbrev pub or_500 : {A : Type 0} → Result (Answer A) → Answer A
or_500 (ok a) = a
or_500 (err e) = refused 500

-- `async with async_session_factory()` inside `try`: an `HTTPException` passes, any other exception
-- is a 500.
unfoldable pub respond : {A : Type 0} → Exec (Answer A) → World → Answer A × World
unfolding with_session
respond m w = let (r, w') = with_session m w in (or_500 r, w')

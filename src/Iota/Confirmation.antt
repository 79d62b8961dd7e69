-- ===== src/Iota/Confirmation.antt =====
-- `_wait_for_confirmation` of src/app/services/iota_client.py: how the loop ends.
use ared_edge_iota_anchor.Prelude.{
  ℕ, zero, suc, ◌+◌, ◌-◌, ◌≤◌, ◌<◌, ◌≡◌, ◌⊎◌, inl, inr, refl, true, none, some, Option, ok, err,
  Result, Result-cases, Exception, value_error, confirmation_error, leb, Bool-cases, arith,
}
use ared_edge_iota_anchor.Text.{Str, str}
use ared_edge_iota_anchor.World.Types.{World, Env, Exec}
use ared_edge_iota_anchor.World.Exec.{seconds, continue, pure}
use ared_edge_iota_anchor.Iota.Client.{
  BlockMetadata, is_state, get_block_metadata, poll, wait_rounds, wait_for_confirmation,
}
use ared_edge_iota_anchor.Iota.Quiet.{get_block_metadata-Quiet}
use ared_edge_iota_anchor.Iota.Errors.{metadata_errors}

module _ (env : Env) where
  metadata_block :
      (b : Str) (w : World) {m : BlockMetadata}
      → (get_block_metadata env b w).0 ≡ ok m
      → m.block_id ≡ b
  unfolding get_block_metadata
  metadata_block b w h = ground arith

  pub poll_included :
      (b : Str) (w : World) {m : BlockMetadata}
      → (poll env b w).0 ≡ ok (some m)
      → (is_state (str "included") m.ledger_inclusion_state ≡ true) × (m.block_id ≡ b)
  unfolding poll
  poll_included b w {m} h = elim (Result-cases (get_block_metadata env b w).0) [
    | inl (r, e) ↦ ground (arith, metadata_block b w {m = r} e)
    | inr (x, e) ↦ ground arith
  ]

  poll_again :
      (b : Str) (w : World)
      → (poll env b w).0 ≡ ok none
      → w.now + seconds env.settings.confirmation_poll_interval ≤ (poll env b w).1.now
  unfolding poll
  poll_again b w h = ground (arith, ((get_block_metadata-Quiet env b).at w).later)

  poll_errors : (b : Str) (w : World) {e : Exception} → (poll env b w).0 ≡ err e → e ≡ value_error
  unfolding poll
  poll_errors b w h = elim (Result-cases (get_block_metadata env b w).0) [
    | inl (r, e) ↦ ground arith
    | inr (x, e) ↦ ground (arith, metadata_errors env b w {e = x} e)
  ]

  -- How the wait may end: with a block that is included, after the whole timeout, or with a reply
  -- that is no JSON.
  abbrev pub Ends : Str → (timeout start_time : ℕ) → Result BlockMetadata × World → Type 0
  Ends b timeout start_time (ok m, w') =
      (is_state (str "included") m.ledger_inclusion_state ≡ true) × (m.block_id ≡ b)
  Ends b timeout start_time (err e, w') =
      ((e ≡ confirmation_error) × (start_time + seconds timeout ≤ w'.now)) ⊎ (e ≡ value_error)

  module _ (positive : 0 < env.settings.confirmation_poll_interval) where
    -- The rest of a round, from what the poll gave.
    round-Ends :
        (b : Str) (timeout start_time : ℕ) (again : Exec BlockMetadata) (w : World)
        (r : Result (Option BlockMetadata))
        → (poll env b w).0 ≡ r
        → (r ≡ ok none → Ends b timeout start_time (again (poll env b w).1))
        → Ends b timeout start_time (
            continue r
              (λ outcome. elim outcome [ some m ↦ pure m | none ↦ again ])
              (poll env b w).1)
    round-Ends b timeout start_time again w (ok none) e rest = rest refl
    round-Ends b timeout start_time again w (ok (some m)) e rest = poll_included b w {m = m} e
    round-Ends b timeout start_time again w (err x) e rest = inr (poll_errors b w {e = x} e)

    wait_rounds-Ends :
        (rounds : ℕ) (b : Str) (timeout start_time : ℕ) (w : World)
        → start_time ≤ w.now
        → start_time + seconds timeout ≤ w.now + seconds rounds
        → Ends b timeout start_time (wait_rounds env (suc rounds) b timeout start_time w)
    unfolding wait_rounds
    wait_rounds-Ends zero b timeout start_time w begun enough =
        let late : leb (seconds timeout) (w.now - start_time) ≡ true = ground arith in
        rw late (inl (refl, omega arith))
    wait_rounds-Ends (suc rounds) b timeout start_time w begun enough =
        elim (Bool-cases (leb (seconds timeout) (w.now - start_time))) [
          | inl late ↦ rw late (inl (refl, ground arith))
          | inr early ↦ rw early (
              round-Ends b timeout start_time (wait_rounds env (suc rounds) b timeout start_time) w
                (poll env b w).0 refl
                (λ again.
                  let later = poll_again b w again in
                  wait_rounds-Ends rounds b timeout start_time (poll env b w).1
                    (omega (arith, positive)) (omega (arith, positive))))
        ]

    -- With a poll interval above zero the wait ends within its rounds: it returns metadata of the
    -- block in state "included", or raises `ConfirmationError` when the whole timeout has passed, or
    -- `ValueError` for a reply that is no JSON.
    pub wait_for_confirmation-Ends :
        (b : Str) (timeout : ℕ) (w : World)
        → Ends b timeout w.now (wait_for_confirmation env b timeout w)
    unfolding wait_for_confirmation
    wait_for_confirmation-Ends b timeout w =
        wait_rounds-Ends timeout b timeout w.now w (omega arith) (omega arith)

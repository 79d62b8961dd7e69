-- ===== src/Reconciliation/Retry.antt =====
-- `ReconciliationService` of src/app/services/reconciliation.py, one anchor at a time. The answers
-- that the source spells as text are `Outcome`. Delays are microseconds.
use ared_edge_iota_anchor.Prelude.{
  ℕ, ◌*◌, ◌^◌, ◌+◌, min, Bool, true, false, List, [], ◌∷◌, ◌++◌, Option, none, some, ok, leb, ltb,
  length, keep, sort_by, ◌==◌, if◌then◌else◌,
}
use ared_edge_iota_anchor.Text.{Str, str}
use ared_edge_iota_anchor.Anchor.{AnchorRecord, AnchorStatus, confirmed, failed}
use ared_edge_iota_anchor.World.Types.{RetryRow, Env, Exec}
use ared_edge_iota_anchor.World.Exec.{pure, ◌>>=◌, ◌>>◌, try_except, utcnow, execute, commit}
use ared_edge_iota_anchor.Repository.Anchors.{update_anchor_status, truthy}
use ared_edge_iota_anchor.Service.Anchors.{create_anchor, check_confirmation}

pub data Outcome : Type 0 where
  retried gave_up review not_yet waiting now_confirmed : Outcome

abbrev of_retry : ℕ → RetryRow → Bool
of_retry anchor_id row = row.anchor_id == anchor_id

abbrev first_time : List RetryRow → Option ℕ
first_time [] = none
first_time (row ∷ rows) = some row.created_at

abbrev pub is_confirmed : AnchorStatus → Bool
is_confirmed confirmed = true
is_confirmed _ = false

abbrev pub recent : Option ℕ → (now delay : ℕ) → Bool
recent none now delay = false
recent (some last) now delay = ltb now (last + delay)

module _ (env : Env) where
  unfoldable pub calculate_backoff : (retry_count : ℕ) → ℕ
  calculate_backoff retry_count =
      min (env.settings.retry_delay_base * 2 ^ retry_count) env.settings.retry_delay_max

  -- Any failure of the query reads as no retries.
  unfoldable pub get_retry_count : (anchor_id : ℕ) → Exec ℕ
  unfolding execute
  get_retry_count anchor_id =
      try_except (execute env (λ t. (ok (length (keep (of_retry anchor_id) t.retries)), t)))
        (λ e. pure 0)

  unfoldable pub get_last_attempt_time : (anchor_id : ℕ) → Exec (Option ℕ)
  unfolding execute
  get_last_attempt_time anchor_id =
      try_except
        (execute env (λ t. (
          ok (
              first_time (
                sort_by (λ (a : RetryRow) (b : RetryRow). leb b.created_at a.created_at)
                  (keep (of_retry anchor_id) t.retries))),
          t,
        )))
        (λ e. pure none)

  unfoldable pub record_retry_attempt : (anchor_id : ℕ) → Exec (Unit {0})
  unfolding execute commit
  record_retry_attempt anchor_id =
      try_except
        (do
          now ← utcnow
          execute env (λ t. (
            ok tt,
            record t {
              retries = t.retries ++ record { anchor_id = anchor_id; created_at = now } ∷ [];
            },
          ))
          commit env)
        (λ e. pure tt)

  unfoldable pub record_failure : (anchor_id : ℕ) → Str → Exec (Unit {0})
  record_failure anchor_id error =
      try_except (do update_anchor_status env anchor_id failed none (some error); pure tt)
        (λ e. pure tt)

  unfoldable pub mark_for_review : AnchorRecord → Exec (Unit {0})
  mark_for_review a = do
    update_anchor_status env a.id failed none
        (some (str "Max retries exceeded - requires manual review"))
    pure tt

  unfoldable pub retry_anchor : AnchorRecord → Exec (Unit {0})
  retry_anchor a = do
    new_record ← create_anchor env a.digest a.item_count a.start_time a.end_time a.method true
    update_anchor_status env a.id new_record.status new_record.iota_block_id none
    record_retry_attempt a.id

  -- `try: _retry_anchor ... except` of `_process_pending_anchor`.
  unfoldable pub try_again : AnchorRecord → Exec Outcome
  try_again a =
      try_except (do retry_anchor a; pure retried)
        (λ e. do record_failure a.id (env.describe e); pure gave_up)

  unfoldable pub process_pending_anchor : AnchorRecord → Exec Outcome
  process_pending_anchor a = do
    retry_count ← get_retry_count a.id
    if leb env.settings.max_retries retry_count then (do mark_for_review a; pure review) else (do
      last_attempt ← get_last_attempt_time a.id
      now ← utcnow
      if recent last_attempt now (calculate_backoff retry_count) then pure not_yet else try_again a)

  unfoldable pub process_failed_anchor : AnchorRecord → Exec Outcome
  process_failed_anchor a = do
    retry_count ← get_retry_count a.id
    now ← utcnow
    if leb env.settings.max_retries retry_count
        then pure review
        else if recent (some a.created_at) now (calculate_backoff retry_count)
        then pure waiting
        else try_except (do retry_anchor a; pure retried) (λ e. pure review)

  -- `confirmed_record.status == AnchorStatus.CONFIRMED`.
  unfoldable pub confirm_if : AnchorRecord → Bool → Exec Outcome
  confirm_if a true = do update_anchor_status env a.id confirmed none none; pure now_confirmed
  confirm_if a false = pure not_yet

  unfoldable pub confirm_anchor : AnchorRecord → Exec Outcome
  confirm_anchor a = elim (truthy a.iota_block_id) [
    | none ↦ pure gave_up
    | some block_id ↦
        try_except
          (do
            checked ← check_confirmation env a.id block_id
            confirm_if a (is_confirmed checked.status))
          (λ e. pure gave_up)
  ]

-- ===== src/System/Retrying.antt =====
-- One anchor of `run_reconciliation` in src/app/services/reconciliation.py, by the rules of System.Keeping.
use ared_edge_iota_anchor.Prelude.{
  ◌++◌, ℕ, suc, ◌≡◌, Bool, true, false, [], ◌∷◌, Option, some, none, Result, ok, leb,
}
use ared_edge_iota_anchor.Text.{Str}
use ared_edge_iota_anchor.Anchor.{AnchorRecord}
use ared_edge_iota_anchor.World.Types.{Tables, Env, Exec}
use ared_edge_iota_anchor.World.Exec.{pure, ◌>>=◌, utcnow, try_except}
use ared_edge_iota_anchor.World.Frame.{
  Respects, Respects-bind, Respects-pure, Respects-raise, Respects-gets, Respects-try, Respects-if,
  frame_rules,
}
use ared_edge_iota_anchor.Repository.Anchors.{truthy}
use ared_edge_iota_anchor.Iota.Client.{is_client_error}
use ared_edge_iota_anchor.Iota.Quiet.{get_block_metadata-Quiet}
use ared_edge_iota_anchor.Iota.Submission.{IsRetrying}
use ared_edge_iota_anchor.Service.Anchors.{check_confirmation}
use ared_edge_iota_anchor.Reconciliation.Retry.{
  Outcome, retried, gave_up, review, not_yet, waiting, recent, is_confirmed, calculate_backoff,
  get_retry_count, get_last_attempt_time, record_retry_attempt, record_failure, mark_for_review,
  retry_anchor, try_again, process_pending_anchor, process_failed_anchor, confirm_if,
  confirm_anchor,
}
use ared_edge_iota_anchor.System.Keeping.{
  Keeping, Keeping-IsPreorder, Quiet-Keeping, execute-Keeping, commit-Keeping, update-Keeping,
}
use ared_edge_iota_anchor.System.Integrity.{create-Keeping}

module _ (env : Env) (rt : IsRetrying env.retrying) (attempts : ℕ)
    (positive : env.settings.retry_count ≡ suc attempts) where
  retry_count-Keeping : (anchor_id : ℕ) → Respects Keeping (get_retry_count env anchor_id)
  unfolding get_retry_count
  retry_count-Keeping anchor_id =
      Respects-try Keeping-IsPreorder _ _ (execute-Keeping env _ (λ t h. h))
        (λ e. Respects-pure Keeping-IsPreorder 0)

  last_attempt-Keeping : (anchor_id : ℕ) → Respects Keeping (get_last_attempt_time env anchor_id)
  unfolding get_last_attempt_time
  last_attempt-Keeping anchor_id =
      Respects-try Keeping-IsPreorder _ _ (execute-Keeping env _ (λ t h. h))
        (λ e. Respects-pure Keeping-IsPreorder none)

  record_retry-Keeping : (anchor_id : ℕ) → Respects Keeping (record_retry_attempt env anchor_id)
  unfolding record_retry_attempt
  record_retry-Keeping anchor_id =
      Respects-try Keeping-IsPreorder _ _
        (Respects-bind Keeping-IsPreorder _ _ (Respects-gets Keeping-IsPreorder (λ w. w.now))
          (λ now.
            Respects-bind Keeping-IsPreorder _ _
              (execute-Keeping env (insert_retry now) (λ t h. record {
                windows = h.windows;
                ids = h.ids;
                readable = h.readable;
                owned = h.owned;
              }))
              (λ _. commit-Keeping env)))
        (λ e. Respects-pure Keeping-IsPreorder tt)
    where
      insert_retry : ℕ → Tables → Result (Unit {0}) × Tables
      insert_retry now t = (
        ok tt,
        record t { retries = t.retries ++ record { anchor_id = anchor_id; created_at = now } ∷ [] },
      )

  record_failure-Keeping :
      (anchor_id : ℕ) (text : Str) → Respects Keeping (record_failure env anchor_id text)
  unfolding record_failure
  record_failure-Keeping anchor_id text = search (frame_rules, Keeping-IsPreorder, update-Keeping)

  mark-Keeping : (a : AnchorRecord) → Respects Keeping (mark_for_review env a)
  unfolding mark_for_review
  mark-Keeping a = search (frame_rules, Keeping-IsPreorder, update-Keeping)

  retry-Keeping : (a : AnchorRecord) → Respects Keeping (retry_anchor env a)
  unfolding retry_anchor
  retry-Keeping a =
      Respects-bind Keeping-IsPreorder _ _
        (create-Keeping env rt attempts positive a.digest a.item_count a.start_time a.end_time
          a.method true)
        (λ b.
          Respects-bind Keeping-IsPreorder _ _
            (update-Keeping env a.id b.status b.iota_block_id none)
            (λ _. record_retry-Keeping a.id))

  try_again-Keeping : (a : AnchorRecord) → Respects Keeping (try_again env a)
  unfolding try_again
  try_again-Keeping a =
      Respects-try Keeping-IsPreorder _ _
        (Respects-bind Keeping-IsPreorder _ _ (retry-Keeping a)
          (λ _. Respects-pure Keeping-IsPreorder retried))
        (λ e.
          Respects-bind Keeping-IsPreorder _ _ (record_failure-Keeping a.id (env.describe e))
            (λ _. Respects-pure Keeping-IsPreorder gave_up))

  pub now-Keeping : Respects Keeping utcnow
  now-Keeping = Respects-gets Keeping-IsPreorder (λ w. w.now)

  pub pending-Keeping : (a : AnchorRecord) → Respects Keeping (process_pending_anchor env a)
  unfolding process_pending_anchor
  pending-Keeping a = Respects-bind Keeping-IsPreorder _ _ (retry_count-Keeping a.id) (λ n.
      Respects-if (leb env.settings.max_retries n) _ _
        (Respects-bind Keeping-IsPreorder _ _ (mark-Keeping a)
          (λ _. Respects-pure Keeping-IsPreorder review))
        (Respects-bind Keeping-IsPreorder _ _ (last_attempt-Keeping a.id) (λ last.
          Respects-bind Keeping-IsPreorder _ _ now-Keeping (λ now.
            Respects-if (recent last now (calculate_backoff env n)) _ _
              (Respects-pure Keeping-IsPreorder not_yet) (try_again-Keeping a)))))

  pub failed-Keeping : (a : AnchorRecord) → Respects Keeping (process_failed_anchor env a)
  unfolding process_failed_anchor
  failed-Keeping a = Respects-bind Keeping-IsPreorder _ _ (retry_count-Keeping a.id) (λ n.
      Respects-bind Keeping-IsPreorder _ _ now-Keeping (λ now.
        Respects-if (leb env.settings.max_retries n) _ _ (Respects-pure Keeping-IsPreorder review) (
          Respects-if (recent (some a.created_at) now (calculate_backoff env n)) _ _
            (Respects-pure Keeping-IsPreorder waiting)
            (Respects-try Keeping-IsPreorder _ _
              (Respects-bind Keeping-IsPreorder _ _ (retry-Keeping a)
                (λ _. Respects-pure Keeping-IsPreorder retried))
              (λ e. Respects-pure Keeping-IsPreorder review)))))

  check-Keeping :
      (anchor_id : ℕ) (block_id : Str)
      → Respects Keeping (check_confirmation env anchor_id block_id)
  unfolding check_confirmation
  check-Keeping anchor_id block_id =
      Respects-try Keeping-IsPreorder _ _
        (Respects-bind Keeping-IsPreorder _ _
          (Quiet-Keeping _ (get_block_metadata-Quiet env block_id))
          (λ block.
            Respects-bind Keeping-IsPreorder _ _ now-Keeping
              (λ now. Respects-pure Keeping-IsPreorder _)))
        (λ e.
          Respects-if (is_client_error e) _ _ (Respects-raise Keeping-IsPreorder _)
            (Respects-raise Keeping-IsPreorder e))

  confirm_if-Keeping : (a : AnchorRecord) (b : Bool) → Respects Keeping (confirm_if env a b)
  unfolding confirm_if
  confirm_if-Keeping a true = search (frame_rules, Keeping-IsPreorder, update-Keeping)
  confirm_if-Keeping a false = Respects-pure Keeping-IsPreorder not_yet

  pub confirm-Keeping : (a : AnchorRecord) → Respects Keeping (confirm_anchor env a)
  unfolding confirm_anchor
  confirm-Keeping a = of (truthy a.iota_block_id)
    where
      of :
          (block : Option Str)
          → Respects Keeping (elim block as (λ _. Exec Outcome) [
            | none ↦ pure gave_up
            | some block_id ↦
                try_except
                  (do
                    checked ← check_confirmation env a.id block_id
                    confirm_if env a (is_confirmed checked.status))
                  (λ e. pure gave_up)
          ])
      of none = Respects-pure Keeping-IsPreorder gave_up
      of (some block_id) =
          Respects-try Keeping-IsPreorder _ _
            (Respects-bind Keeping-IsPreorder _ _ (check-Keeping a.id block_id)
              (λ checked. confirm_if-Keeping a (is_confirmed checked.status)))
            (λ e. Respects-pure Keeping-IsPreorder gave_up)

-- ===== src/Reconciliation/Failures.antt =====
-- What a failing retry leaves in `anchor_retry_log`, in src/app/services/reconciliation.py.
use ared_edge_iota_anchor.Prelude.{
  [], ◌∷◌, ◌++◌, ℕ, suc, ◌≡◌, refl, ap, ◌∙◌, Bool, true, false, Option, none, Result, ok, err,
  Exception, arith, if◌then◌else◌, leb,
}
use ared_edge_iota_anchor.Text.{Str}
use ared_edge_iota_anchor.Anchor.{AnchorRecord, AnchorStatus}
use ared_edge_iota_anchor.World.Types.{World, Tables, Env, Exec}
use ared_edge_iota_anchor.World.Exec.{
  pure, continue, rescue, ◌>>=◌, ◌>>◌, try_except, utcnow, execute, commit,
}
use ared_edge_iota_anchor.World.Frame.{
  IsPreorder, Respects, frame_rules, Respects-bind, Respects-pure, Respects-try, Respects-gets,
}
use ared_edge_iota_anchor.Repository.Anchors.{update_anchor_status}
use ared_edge_iota_anchor.Iota.Submission.{IsRetrying}
use ared_edge_iota_anchor.Service.Anchors.{create_anchor}
use ared_edge_iota_anchor.Service.Pending.{create_anchor_data}
use ared_edge_iota_anchor.Reconciliation.Retry.{
  Outcome, retried, gave_up, review, not_yet, recent, calculate_backoff, get_retry_count,
  get_last_attempt_time, record_retry_attempt, record_failure, mark_for_review, retry_anchor,
  try_again, process_pending_anchor,
}

-- The log of retries is as it was.
record SameLog (w w' : World) : Type 0 where
  same_log : w'.tables.retries ≡ w.tables.retries

SameLog-IsPreorder : IsPreorder SameLog
SameLog-IsPreorder = record {
  refl_lem = λ w. record { same_log = refl };
  trans_lem = λ u v w p q. record { same_log = q.same_log ∙ p.same_log };
}

execute-SameLog :
    (env : Env) {A : Type 0} (query : Tables → Result A × Tables)
    → ((t : Tables) → (query t).1.retries ≡ t.retries)
    → Respects SameLog (execute env query)
unfolding execute
execute-SameLog env query h = record { at = λ w. record { same_log = ground (arith, h w.tables) } }

commit-SameLog : (env : Env) → Respects SameLog (commit env)
unfolding commit
commit-SameLog env = record { at = λ w. record { same_log = ground arith } }

-- Where the action raises, the log is as it was.
record Unlogged {A : Type 0} (m : Exec A) : Type 0 where
  raised : (w : World) {e : Exception} → (m w).0 ≡ err e → SameLog w (m w).1

Unlogged-bind :
    {A B : Type 0} (m : Exec A) (f : A → Exec B)
    → Respects SameLog m
    → ((a : A) → Unlogged (f a))
    → Unlogged (m >>= f)
Unlogged-bind {A} {B} m f h k = record { raised = λ w e. of w (m w).0 e }
  where
    of :
        (w : World) (r : Result A) {e : Exception}
        → (continue r f (m w).1).0 ≡ err e
        → SameLog w (continue r f (m w).1).1
    of w (ok a) e = SameLog-IsPreorder.trans_lem w (m w).1 _ (h.at w) ((k a).raised (m w).1 e)
    of w (err x) e = h.at w

-- Where the action answers `gave_up`, the log is as it was.
record Uncounted (m : Exec Outcome) : Type 0 where
  gave : (w : World) → (m w).0 ≡ ok gave_up → SameLog w (m w).1

Uncounted-bind :
    {A : Type 0} (m : Exec A) (f : A → Exec Outcome)
    → Respects SameLog m
    → ((a : A) → Uncounted (f a))
    → Uncounted (m >>= f)
Uncounted-bind {A} m f h k = record { gave = λ w e. of w (m w).0 e }
  where
    of :
        (w : World) (r : Result A)
        → (continue r f (m w).1).0 ≡ ok gave_up
        → SameLog w (continue r f (m w).1).1
    of w (ok a) e = SameLog-IsPreorder.trans_lem w (m w).1 _ (h.at w) ((k a).gave (m w).1 e)
    of w (err x) e = h.at w

Uncounted-if :
    (b : Bool) (m n : Exec Outcome) → Uncounted m → Uncounted n → Uncounted (if b then m else n)
Uncounted-if true m n h k = h
Uncounted-if false m n h k = k

Uncounted-all : (m : Exec Outcome) → Respects SameLog m → Uncounted m
Uncounted-all m h = record { gave = λ w _. h.at w }

-- A call whose exceptions are all caught raises none.
caught :
    {A : Type 0} (m : Exec A) (d : A) (w : World) {e : Exception}
    → (try_except m (λ _. pure d) w).0 ≡ err e
    → ⊥
caught {A} m d w {e} h = of (m w).0 h
  where
    of : (r : Result A) → (rescue r (λ _. pure d) (m w).1).0 ≡ err e → ⊥
    of (ok a) h = ground arith
    of (err x) h = ground arith

module _ (env : Env) (rt : IsRetrying env.retrying) (attempts : ℕ)
    (positive : env.settings.retry_count ≡ suc attempts) where
  update-SameLog :
      (anchor_id : ℕ) (status : AnchorStatus) (block error_message : Option Str)
      → Respects SameLog (update_anchor_status env anchor_id status block error_message)
  unfolding update_anchor_status
  update-SameLog anchor_id status block error_message =
      search (frame_rules, SameLog-IsPreorder, execute-SameLog, commit-SameLog)

  create-SameLog :
      (digest : Str) (count start_time end_time : ℕ) (method : Str) (wait : Bool)
      → Respects SameLog (create_anchor env digest count start_time end_time method wait)
  create-SameLog digest count start_time end_time method wait = record {
    at = λ w. record {
      same_log =
          ap (λ (t : Tables). t.retries)
            (create_anchor_data env rt attempts positive digest count start_time end_time method
              wait w).0;
    };
  }

  record_failure-SameLog :
      (anchor_id : ℕ) (text : Str) → Respects SameLog (record_failure env anchor_id text)
  unfolding record_failure
  record_failure-SameLog anchor_id text = search (frame_rules, SameLog-IsPreorder, update-SameLog)

  mark-SameLog : (a : AnchorRecord) → Respects SameLog (mark_for_review env a)
  unfolding mark_for_review
  mark-SameLog a = search (frame_rules, SameLog-IsPreorder, update-SameLog)

  count-SameLog : (anchor_id : ℕ) → Respects SameLog (get_retry_count env anchor_id)
  unfolding get_retry_count
  count-SameLog anchor_id =
      Respects-try SameLog-IsPreorder _ _ (execute-SameLog env _ (λ t. refl))
        (λ e. Respects-pure SameLog-IsPreorder 0)

  last-SameLog : (anchor_id : ℕ) → Respects SameLog (get_last_attempt_time env anchor_id)
  unfolding get_last_attempt_time
  last-SameLog anchor_id =
      Respects-try SameLog-IsPreorder _ _ (execute-SameLog env _ (λ t. refl))
        (λ e. Respects-pure SameLog-IsPreorder none)

  record_retry_attempt-Unlogged : (anchor_id : ℕ) → Unlogged (record_retry_attempt env anchor_id)
  unfolding record_retry_attempt
  record_retry_attempt-Unlogged anchor_id = record {
    raised = λ w e. absurd (
        caught
          (do
            now ← utcnow
            execute env (λ (t : Tables). (
              ok tt,
              record t {
                retries = t.retries ++ record { anchor_id = anchor_id; created_at = now } ∷ [];
              },
            ))
            commit env)
          tt w e);
  }

  retry_anchor-Unlogged : (a : AnchorRecord) → Unlogged (retry_anchor env a)
  unfolding retry_anchor
  retry_anchor-Unlogged a =
      Unlogged-bind _ _ (create-SameLog a.digest a.item_count a.start_time a.end_time a.method true)
        (λ b.
          Unlogged-bind _ _ (update-SameLog a.id b.status b.iota_block_id none)
            (λ _. record_retry_attempt-Unlogged a.id))

  try_again-Uncounted : (a : AnchorRecord) → Uncounted (try_again env a)
  unfolding try_again
  try_again-Uncounted a = record {
    gave = λ w e.
        of w (retry_anchor env a w).0 (λ x q. (retry_anchor-Unlogged a).raised w {e = x} q) e;
  }
    where
      of :
          (w : World) (r : Result (Unit {0}))
          → ((e : Exception) → r ≡ err e → SameLog w (retry_anchor env a w).1)
          → let tried = continue r (λ _. pure retried) (retry_anchor env a w).1 in
            let o =
              rescue tried.0
                (λ e. do record_failure env a.id (env.describe e); pure gave_up)
                tried.1 in
            o.0 ≡ ok gave_up → SameLog w o.1
      of w (ok u) h e = absurd (ground arith)
      of w (err x) h e = SameLog-IsPreorder.trans_lem w (retry_anchor env a w).1 _ (h x refl) (
          (Respects-bind SameLog-IsPreorder _ _ (record_failure-SameLog a.id (env.describe x))
              (λ _. Respects-pure SameLog-IsPreorder gave_up)).at
            (retry_anchor env a w).1)

  process_pending-Uncounted : (a : AnchorRecord) → Uncounted (process_pending_anchor env a)
  unfolding process_pending_anchor
  process_pending-Uncounted a = Uncounted-bind _ _ (count-SameLog a.id) (λ n.
      Uncounted-if (leb env.settings.max_retries n) _ _
        (Uncounted-all _ (
          Respects-bind SameLog-IsPreorder _ _ (mark-SameLog a)
            (λ _. Respects-pure SameLog-IsPreorder review)))
        (Uncounted-bind _ _ (last-SameLog a.id) (λ last.
          Uncounted-bind _ _ (Respects-gets SameLog-IsPreorder (λ w. w.now)) (λ now.
            Uncounted-if (recent last now (calculate_backoff env n)) _ _
              (Uncounted-all _ (Respects-pure SameLog-IsPreorder not_yet))
              (try_again-Uncounted a)))))

  -- Where `_process_pending_anchor` answers that the retry has failed, `anchor_retry_log` is what it was:
  -- `_get_retry_count` does not see the failure, and the anchor is no nearer to `max_retries`.
  pub failing_retry_uncounted :
      (a : AnchorRecord) (w : World)
      → (process_pending_anchor env a w).0 ≡ ok gave_up
      → (process_pending_anchor env a w).1.tables.retries ≡ w.tables.retries
  failing_retry_uncounted a w h = ((process_pending-Uncounted a).gave w h).same_log

-- ===== src/Iota/Submission.antt =====
-- Submission with retries, and `post_anchor`, of src/app/services/iota_client.py.
use ared_edge_iota_anchor.Prelude.{
  ℕ, zero, suc, ◌+◌, ◌≤◌, ◌<◌, ◌≡◌, ◌⊎◌, inl, inr, refl, true, false, Bool, none, some, Option, ok,
  err, Result, Result-cases, Exception, value_error, connection_error, posting_error, Bool-cases,
  arith, sym, subst,
}
use ared_edge_iota_anchor.Text.{Str}
use ared_edge_iota_anchor.World.Types.{World, Env, Exec, AnchorMessage}
use ared_edge_iota_anchor.World.Exec.{passed, pure, request}
use ared_edge_iota_anchor.World.Frame.{Respects, Quiet, Quiet-IsPreorder, quiet_rules}
use ared_edge_iota_anchor.Iota.Client.{
  BlockMetadata, retry_if, ensure_connected, submit_tagged_data_block, submit_block_with_retry,
  poll, wait_rounds, wait_for_confirmation, post_anchor,
}
use ared_edge_iota_anchor.Iota.Quiet.{
  ensure_connected-Quiet, send-Quiet, checked_json-Quiet, client_rules, get_block_metadata-Quiet,
}
use ared_edge_iota_anchor.Iota.Errors.{ensure_connected_errors}

-- What tenacity documents of `AsyncRetrying` with `stop_after_attempt(n)`, n > 0, a test of the
-- exception, and `reraise=True`: an attempt that returns, that raises what is not retried, or that is
-- the last one is the result; after any other attempt it waits and goes on with one attempt less.
pub record IsRetrying (retrying : ℕ → (Exception → Bool) → Exec Str → Exec Str) : Type 0 where
  pub returned :
      (n : ℕ) (p : Exception → Bool) (m : Exec Str) (w : World) (a : Str)
      → (m w).0 ≡ ok a
      → retrying (suc n) p m w ≡ m w
  pub refused :
      (n : ℕ) (p : Exception → Bool) (m : Exec Str) (w : World) (e : Exception)
      → (m w).0 ≡ err e
      → p e ≡ false
      → retrying (suc n) p m w ≡ m w
  pub stopped :
      (p : Exception → Bool) (m : Exec Str) (w : World) (e : Exception)
      → (m w).0 ≡ err e
      → retrying 1 p m w ≡ m w
  pub again :
      (n : ℕ) (p : Exception → Bool) (m : Exec Str) (w : World) (e : Exception)
      → (m w).0 ≡ err e
      → p e ≡ true
      → (d : ℕ) × (retrying (suc (suc n)) p m w ≡ retrying (suc n) p m (passed d (m w).1))

module _ (env : Env) (rt : IsRetrying env.retrying) where
  -- What holds of the last attempt, whatever wait and attempts came before it, holds of the retries.
  retrying_ends :
      (Q : ℕ → World → Result Str × World → Type 0)
      → (p : Exception → Bool) (m : Exec Str) → ((n : ℕ) (w : World) → Q n w (m w))
      → ((n d : ℕ) (w : World) (o : Result Str × World) → Q n (passed d (m w).1) o → Q (suc n) w o)
      → (n : ℕ) (w : World) → Q n w (env.retrying (suc n) p m w)
  retrying_ends Q p m one later zero w = elim (Result-cases (m w).0) [
    | inl (a, e) ↦ subst (Q 0 w) (sym (rt.returned 0 p m w a e)) (one 0 w)
    | inr (x, e) ↦ subst (Q 0 w) (sym (rt.stopped p m w x e)) (one 0 w)
  ]
  retrying_ends Q p m one later (suc n) w = elim (Result-cases (m w).0) [
    | inl (a, e) ↦ subst (Q (suc n) w) (sym (rt.returned (suc n) p m w a e)) (one (suc n) w)
    | inr (x, e) ↦ elim (Bool-cases (p x)) [
      | inl retry ↦
          let (d, on) = rt.again n p m w x e retry in
          subst (Q (suc n) w) (sym on) (
            later n d w (env.retrying (suc n) p m (passed d (m w).1))
              (retrying_ends Q p m one later n (passed d (m w).1)))
      | inr stop ↦ subst (Q (suc n) w) (sym (rt.refused (suc n) p m w x e stop)) (one (suc n) w)
    ]
  ]

  submit_tagged-Quiet :
      (message : AnchorMessage) → Respects Quiet (submit_tagged_data_block env message)
  unfolding submit_tagged_data_block
  submit_tagged-Quiet message = search (client_rules, send-Quiet, checked_json-Quiet) depth 9

  passed-Quiet : (d : ℕ) (w : World) → Quiet w (passed d w)
  passed-Quiet d w = record {
    same_tables = refl;
    same_committed = refl;
    same_lock = refl;
    same_pending = refl;
    later = omega arith;
  }

  -- An attempt is one call.
  calls-submit_tagged :
      (message : AnchorMessage) (w : World)
      → (submit_tagged_data_block env message w).1.calls ≡ w.calls + 1
  unfolding submit_tagged_data_block request
  calls-submit_tagged message w = ground arith

  module _ (attempts : ℕ) (positive : env.settings.retry_count ≡ suc attempts) where
    -- The retries of `_submit_block_with_retry`, in the form of the rule above.
    submit_ends :
        (Q : ℕ → World → Result Str × World → Type 0) (message : AnchorMessage)
        → ((n : ℕ) (w : World) → Q n w (submit_tagged_data_block env message w))
        → ((n d : ℕ) (w : World) (o : Result Str × World)
            → Q n (passed d (submit_tagged_data_block env message w).1) o
            → Q (suc n) w o)
        → (w : World) → Q attempts w (submit_block_with_retry env message w)
    unfolding submit_block_with_retry
    submit_ends Q message one later w =
        subst (λ n. Q attempts w (env.retrying n retry_if (submit_tagged_data_block env message) w))
          (sym positive)
          (retrying_ends Q retry_if (submit_tagged_data_block env message) one later attempts w)

    pub submit-Quiet :
        (message : AnchorMessage) → Respects Quiet (submit_block_with_retry env message)
    submit-Quiet message = record {
      at =
          submit_ends (λ n w o. Quiet w o.1) message (λ n w. (submit_tagged-Quiet message).at w)
            (λ n d w o after.
              Quiet-IsPreorder.trans_lem _ _ _ ((submit_tagged-Quiet message).at w)
                (Quiet-IsPreorder.trans_lem _ _ _ (passed-Quiet d _) after));
    }

    -- A submission makes at least one call of the node, and at most IOTA_RETRY_COUNT of them.
    pub calls-submit_block_with_retry :
        (message : AnchorMessage) (w : World)
        → (w.calls < (submit_block_with_retry env message w).1.calls)
          × ((submit_block_with_retry env message w).1.calls ≤ w.calls + env.settings.retry_count)
    calls-submit_block_with_retry message w =
        let (least, most) =
          submit_ends (λ n w o. (w.calls < o.1.calls) × (o.1.calls ≤ w.calls + suc n)) message
            (λ n w. (
              omega (arith, calls-submit_tagged message w),
              omega (arith, calls-submit_tagged message w),
            ))
            (λ n d w o after. (
              omega (arith, calls-submit_tagged message w, after.0),
              omega (arith, calls-submit_tagged message w, after.1),
            ))
            w in
        (least, omega (arith, most, positive))

    poll-Quiet : (b : Str) → Respects Quiet (poll env b)
    unfolding poll
    poll-Quiet b = search (quiet_rules, get_block_metadata-Quiet) depth 9

    after_poll-Quiet :
        (again : Exec BlockMetadata)
        → Respects Quiet again
        → (outcome : Option BlockMetadata)
        → Respects Quiet (elim outcome [ some m ↦ pure m | none ↦ again ])
    after_poll-Quiet again h none = h
    after_poll-Quiet again h (some m) = search quiet_rules

    wait_rounds-Quiet :
        (rounds : ℕ) (b : Str) (timeout start_time : ℕ)
        → Respects Quiet (wait_rounds env rounds b timeout start_time)
    unfolding wait_rounds
    wait_rounds-Quiet zero b timeout start_time = search quiet_rules
    wait_rounds-Quiet (suc rounds) b timeout start_time = search (
      quiet_rules,
      poll-Quiet,
      after_poll-Quiet _ (wait_rounds-Quiet rounds b timeout start_time),
    )

    wait-Quiet : (b : Str) (timeout : ℕ) → Respects Quiet (wait_for_confirmation env b timeout)
    unfolding wait_for_confirmation
    wait-Quiet b timeout = search (quiet_rules, wait_rounds-Quiet)

    pub post_anchor-Quiet :
        (message : AnchorMessage) (wait : Bool) → Respects Quiet (post_anchor env message wait)
    unfolding post_anchor
    post_anchor-Quiet message wait =
        search (quiet_rules, ensure_connected-Quiet, submit-Quiet, wait-Quiet) depth 9

    -- The exceptions of `post_anchor`: the connection's own, and `PostingError` for all else.
    pub post_anchor_errors :
        (message : AnchorMessage) (wait : Bool) (w : World) {e : Exception}
        → (post_anchor env message wait w).0 ≡ err e
        → (e ≡ connection_error) ⊎ ((e ≡ value_error) ⊎ (e ≡ posting_error))
    unfolding post_anchor
    post_anchor_errors message wait w h = elim (Result-cases (ensure_connected env w).0) [
      | inl (u, up) ↦ ground arith
      | inr (x, down) ↦ ground (arith, ensure_connected_errors env w {e = x} down)
    ]

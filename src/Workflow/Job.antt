-- ===== src/Workflow/Job.antt =====
-- The methods of `AnchorWorkflow`. Logs and Prometheus counters are left out.
use ared_edge_iota_anchor.Prelude.{
  ℕ, ◌+◌, ◌-◌, ◌%◌, Bool, true, false, List, [], ◌∷◌, Option, none, some, Exception, ltb,
  if◌then◌else◌,
}
use ared_edge_iota_anchor.Text.{Str, str}
use ared_edge_iota_anchor.Merkle.Node.{MerkleTree}
use ared_edge_iota_anchor.Merkle.Tree.{from_raw_hashes, root_hash}
use ared_edge_iota_anchor.Merkle.Proof.{get_proof}
use ared_edge_iota_anchor.Merkle.Compact.{to_compact}
use ared_edge_iota_anchor.Anchor.{AnchorRecord}
use ared_edge_iota_anchor.World.Types.{Env, Exec, IndexedEvent}
use ared_edge_iota_anchor.World.Exec.{
  pure, lift, ◌>>=◌, ◌>>◌, try_except, finally, utcnow, commit, try_advisory_lock, advisory_unlock,
}
use ared_edge_iota_anchor.Repository.Anchors.{save_anchor, find_anchor_by_digest_and_window}
use ared_edge_iota_anchor.Repository.Items.{save_anchor_item}
use ared_edge_iota_anchor.Service.Anchors.{create_anchor}
use ared_edge_iota_anchor.Consumer.{
  EventWindow, event_count, event_hashes, is_empty, fetch_events_for_window, get_last_anchor_time,
  get_event_count_since,
}

pub record AnchorResult : Type 0 where
  pub success : Bool
  pub anchor_id : Option ℕ
  pub digest : Option Str
  pub event_count : ℕ
  pub iota_block_id : Option Str
  pub error : Option Str
  pub start_time : ℕ
  pub end_time : ℕ
  pub duration : ℕ

abbrev pub or_else : Option ℕ → ℕ → ℕ
or_else none d = d
or_else (some t) d = t

abbrev pub one_day : ℕ
one_day = 86400000000

unfoldable pub skipped : (start_time end_time : Option ℕ) (job_start : ℕ) → AnchorResult
skipped start_time end_time job_start = record {
  success = true;
  anchor_id = none;
  digest = none;
  event_count = 0;
  iota_block_id = none;
  error = some (str "Skipped: concurrent job in progress");
  start_time = or_else start_time job_start;
  end_time = or_else end_time job_start;
  duration = 0;
}

unfoldable pub nothing_to_do : (start_time end_time duration : ℕ) → AnchorResult
nothing_to_do start_time end_time duration = record {
  success = true;
  anchor_id = none;
  digest = none;
  event_count = 0;
  iota_block_id = none;
  error = none;
  start_time = start_time;
  end_time = end_time;
  duration = duration;
}

-- The results for an anchor that exists and for a new one.
unfoldable pub completed :
    AnchorRecord → Str → (count start_time end_time duration : ℕ) → AnchorResult
completed a digest count start_time end_time duration = record {
  success = true;
  anchor_id = some a.id;
  digest = some digest;
  event_count = count;
  iota_block_id = a.iota_block_id;
  error = none;
  start_time = start_time;
  end_time = end_time;
  duration = duration;
}

module _ (env : Env) where
  -- Any failure of the query reads as "no anchor".
  unfoldable pub check_existing_anchor :
      Str → (start_time end_time : ℕ) → Exec (Option AnchorRecord)
  check_existing_anchor digest start_time end_time =
      try_except (find_anchor_by_digest_and_window env digest start_time end_time) (λ e. pure none)

  -- The loop of `_store_anchor_items`, from index `i` on.
  unfoldable pub store_from :
      (anchor_id : ℕ) → MerkleTree → (i : ℕ) → List IndexedEvent → Exec (Unit {0})
  store_from anchor_id tree i [] = pure tt
  store_from anchor_id tree i (event ∷ events) = do
    proof ← lift (get_proof env.sha256 tree i)
    save_anchor_item env anchor_id event.event_hash i (some event.id) (some (to_compact proof))
    store_from anchor_id tree (i + 1) events

  unfoldable pub store_anchor_items :
      (anchor_id : ℕ) → MerkleTree → List IndexedEvent → (with_commit : Bool) → Exec (Unit {0})
  unfolding store_from
  store_anchor_items anchor_id tree events with_commit = do
    store_from anchor_id tree 0 events
    if with_commit then commit env else pure tt

  -- Step 4 on: the anchor is posted, and stored with its items in one transaction.
  unfoldable pub anchor_window :
      (job_start start_time end_time : ℕ) → Bool → EventWindow → MerkleTree → Exec AnchorResult
  anchor_window job_start start_time end_time wait_for_confirmation window tree = do
    anchor ←
        create_anchor env (root_hash tree) (event_count window) start_time end_time
          (str "merkle_sha256") wait_for_confirmation
    save_anchor env anchor
    store_anchor_items anchor.id tree window.events false
    commit env
    now ← utcnow
    pure (
        completed anchor (root_hash tree) (event_count window) start_time end_time
          (now - job_start))

  -- The `try` block of `run_anchor_job`.
  unfoldable pub job_body : (job_start start_time end_time : ℕ) → Bool → Exec AnchorResult
  job_body job_start start_time end_time wait_for_confirmation = do
    fetched ←
        fetch_events_for_window env (record { last_block = none; last_timestamp = none }) start_time
          end_time []
    now ← utcnow
    if is_empty fetched.0 then pure (nothing_to_do start_time end_time (now - job_start)) else (do
      tree ← lift (from_raw_hashes env.sha256 (event_hashes fetched.0))
      existing ← check_existing_anchor (root_hash tree) start_time end_time
      later ← utcnow
      elim existing [
        | some a ↦ pure (
            completed a (root_hash tree) (event_count fetched.0) start_time end_time
              (later - job_start))
        | none ↦ anchor_window job_start start_time end_time wait_for_confirmation fetched.0 tree
      ])

  -- `except Exception`.
  unfoldable pub job_failed : (job_start start_time end_time : ℕ) → Exception → Exec AnchorResult
  job_failed job_start start_time end_time e = do
    now ← utcnow
    pure (record {
      success = false;
      anchor_id = none;
      digest = none;
      event_count = 0;
      iota_block_id = none;
      error = some (env.describe e);
      start_time = start_time;
      end_time = end_time;
      duration = now - job_start;
    })

  -- The start of the window: the end of the last anchor, or a day before the window's end.
  unfoldable pub default_start : Option ℕ → (end_time : ℕ) → Exec ℕ
  default_start (some start_time) end_time = pure start_time
  default_start none end_time = do
    last ← get_last_anchor_time env
    pure (or_else last (end_time - one_day))

  unfoldable pub run_anchor_job :
      (start_time end_time : Option ℕ) (wait_for_confirmation : Bool) → Exec AnchorResult
  run_anchor_job start_time end_time wait_for_confirmation = do
    job_start ← utcnow
    acquired ← try_advisory_lock env
    now ← utcnow
    if acquired
        then (do
          let until = or_else end_time now
          from ← default_start start_time until
          finally
              (try_except (job_body job_start from until wait_for_confirmation)
                (job_failed job_start from until))
              (advisory_unlock env))
        else pure (skipped start_time end_time job_start)

  -- The day that ended at the last midnight.
  unfoldable pub run_daily_anchor : Exec AnchorResult
  run_daily_anchor = do
    now ← utcnow
    let midnight = now - now % one_day
    run_anchor_job (some (midnight - one_day)) (some midnight) true

  unfoldable pub run_incremental_anchor : (min_events : ℕ) → Exec (Option AnchorResult)
  run_incremental_anchor min_events = do
    last ← get_last_anchor_time env
    now ← utcnow
    let since = or_else last (now - one_day)
    count ← get_event_count_since env since
    later ← utcnow
    if ltb count min_events
        then pure none
        else (do result ← run_anchor_job (some since) (some later) true; pure (some result))

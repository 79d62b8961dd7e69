-- ===== src/Workflow/Repeat.antt =====
-- `run_anchor_job` of src/app/services/anchor_workflow.py on a window whose anchor is stored.
use ared_edge_iota_anchor.Prelude.{
  ℕ, suc, ◌-◌, ◌≡◌, ◌≢◌, refl, Bool, false, List, [], ◌∷◌, map, some, ok, length, keep, sort_by,
  find, arith,
}
use ared_edge_iota_anchor.Text.{Str}
use ared_edge_iota_anchor.Merkle.Node.{MerkleTree}
use ared_edge_iota_anchor.Merkle.Tree.{from_raw_hashes, root_hash}
use ared_edge_iota_anchor.Anchor.{AnchorRecord, AnchorRow, from_row}
use ared_edge_iota_anchor.World.Types.{World, Env, IndexedEvent}
use ared_edge_iota_anchor.World.Exec.{tick, execute}
use ared_edge_iota_anchor.Repository.Anchors.{has_window, find_anchor_by_digest_and_window}
use ared_edge_iota_anchor.Repository.Saved.{optional_of}
use ared_edge_iota_anchor.Consumer.{
  in_window, in_order, event_count, event_hashes, is_empty, fetch_events_for_window,
}
use ared_edge_iota_anchor.Workflow.Job.{completed, check_existing_anchor, job_body}

-- The events of a window, in order.
abbrev pub window_events : World → (start_time end_time : ℕ) → List IndexedEvent
window_events w start_time end_time =
    sort_by in_order (keep (in_window start_time end_time []) w.tables.events)

abbrev pub hashes_of : List IndexedEvent → List Str
hashes_of events = map (λ (e : IndexedEvent). e.event_hash) events

no_tree : (sha256 : List ℕ → List ℕ) {tree : MerkleTree} → from_raw_hashes sha256 [] ≢ ok tree
unfolding from_raw_hashes
no_tree sha256 h = absurd (ground arith)

not_empty :
    (start_time end_time : ℕ) (e : IndexedEvent) (events : List IndexedEvent)
    → is_empty (record { start_time = start_time; end_time = end_time; events = e ∷ events })
      ≡ false
unfolding is_empty
not_empty start_time end_time e events = ground arith

module _ (env : Env) where
  -- Where no statement fails and the table has a readable row for the root of the window's events and
  -- for its start and end, the body of the job answers with that row's anchor after two statements: it
  -- posts nothing, draws no id, and leaves the tables and the pending anchors alone.
  pub repeated_window :
      (job_start start_time end_time : ℕ) (wait : Bool) (w : World) {tree : MerkleTree}
      {row : AnchorRow} {a : AnchorRecord}
      → ((n : ℕ) → env.fault n ≡ false)
      → from_raw_hashes env.sha256 (hashes_of (window_events w start_time end_time)) ≡ ok tree
      → find (has_window (root_hash tree) start_time end_time) w.tables.anchors ≡ some row
      → from_row row ≡ ok a
      → job_body env job_start start_time end_time wait w ≡ (
        ok (
            completed a
              (root_hash tree)
              (length (window_events w start_time end_time))
              start_time
              end_time
              ((tick env (tick env w)).now - job_start)),
        tick env (tick env w),
      )
  unfolding job_body fetch_events_for_window check_existing_anchor find_anchor_by_digest_and_window
      execute event_count event_hashes
  repeated_window job_start start_time end_time wait w {tree} {row} {a} up built there reads =
      of (window_events w start_time end_time) refl built
    where
      of :
          (events : List IndexedEvent)
          → window_events w start_time end_time ≡ events
          → from_raw_hashes env.sha256 (hashes_of events) ≡ ok tree
          → job_body env job_start start_time end_time wait w ≡ (
            ok (
                completed a
                  (root_hash tree)
                  (length events)
                  start_time
                  end_time
                  ((tick env (tick env w)).now - job_start)),
            tick env (tick env w),
          )
      of [] e built = absurd (no_tree env.sha256 built)
      of (x ∷ xs) e built =
          rw
            (
              up w.calls,
              e,
              not_empty start_time end_time x xs,
              built,
              up (suc w.calls),
              there,
              optional_of from_row reads,
              e,
            )
            refl

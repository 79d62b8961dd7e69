-- ===== src/Workflow/Body.antt =====
-- The `try` block of `run_anchor_job` in src/app/services/anchor_workflow.py by the rules of Workflow.Frames.
use ared_edge_iota_anchor.Prelude.{
  Bool-cases, ℕ, suc, ◌+◌, ◌-◌, ◌≡◌, refl, false, Bool, List, [], ◌∷◌, Option, some, none, arith,
}
use ared_edge_iota_anchor.Text.{Str, str}
use ared_edge_iota_anchor.Merkle.Node.{MerkleTree}
use ared_edge_iota_anchor.Merkle.Tree.{from_raw_hashes, root_hash}
use ared_edge_iota_anchor.Merkle.Proof.{get_proof}
use ared_edge_iota_anchor.Merkle.Compact.{to_compact}
use ared_edge_iota_anchor.Anchor.{AnchorRecord}
use ared_edge_iota_anchor.World.Types.{Env, Exec, IndexedEvent}
use ared_edge_iota_anchor.World.Exec.{uuid4, pure, lift, ◌>>=◌, ◌>>◌, utcnow, commit}
use ared_edge_iota_anchor.World.Frame.{
  Respects, Respects-bind, Respects-lift, Respects-pure, Respects-gets,
}
use ared_edge_iota_anchor.Repository.Anchors.{save_anchor, find_anchor_by_digest_and_window}
use ared_edge_iota_anchor.Repository.Items.{save_anchor_item}
use ared_edge_iota_anchor.Iota.Submission.{IsRetrying}
use ared_edge_iota_anchor.Service.Anchors.{create_anchor}
use ared_edge_iota_anchor.Service.Pending.{create_anchor_data}
use ared_edge_iota_anchor.Consumer.{
  EventWindow, Position, event_count, event_hashes, fetch_events_for_window, get_last_anchor_time,
  is_empty,
}
use ared_edge_iota_anchor.Workflow.Job.{
  AnchorResult, store_from, store_anchor_items, anchor_window, check_existing_anchor, job_body,
  nothing_to_do, completed,
}
use ared_edge_iota_anchor.Workflow.Frames.{
  Kept, Kept-IsPreorder, execute-Kept, kept_rules, Undone, Undone-Kept, Undone-bind, Undone-if,
  Yields, Yields-pure, Yields-bind, Yields-if,
}

module _ (env : Env) (rt : IsRetrying env.retrying) (attempts : ℕ)
    (positive : env.settings.retry_count ≡ suc attempts) where
  pub create_anchor-Kept :
      (digest : Str) (count start_time end_time : ℕ) (method : Str) (wait : Bool)
      → Respects Kept (create_anchor env digest count start_time end_time method wait)
  create_anchor-Kept digest count start_time end_time method wait = record {
    at = λ w.
        let (_, same_committed, same_lock) =
          create_anchor_data env rt attempts positive digest count start_time end_time method wait
            w in
        record { same_committed = same_committed; same_lock = same_lock };
  }

  pub item-Kept :
      (anchor_id : ℕ) (event_hash : Str) (position : ℕ) (event_id : Option ℕ)
      (path : Option (List Str))
      → Respects Kept (save_anchor_item env anchor_id event_hash position event_id path)
  unfolding save_anchor_item uuid4
  item-Kept anchor_id event_hash position event_id path = search kept_rules

  pub store_from-Kept :
      (anchor_id : ℕ) (tree : MerkleTree) (i : ℕ) (events : List IndexedEvent)
      → Respects Kept (store_from env anchor_id tree i events)
  unfolding store_from
  store_from-Kept anchor_id tree i [] = search kept_rules
  store_from-Kept anchor_id tree i (e ∷ es) =
      Respects-bind Kept-IsPreorder _ _
        (Respects-lift Kept-IsPreorder (get_proof env.sha256 tree i))
        (λ proof.
          Respects-bind Kept-IsPreorder _ _
            (item-Kept anchor_id e.event_hash i (some e.id) (some (to_compact proof)))
            (λ _. store_from-Kept anchor_id tree (i + 1) es))

  pub items-Kept :
      (anchor_id : ℕ) (tree : MerkleTree) (events : List IndexedEvent)
      → Respects Kept (store_anchor_items env anchor_id tree events false)
  unfolding store_anchor_items
  items-Kept anchor_id tree events = search (kept_rules, store_from-Kept anchor_id tree 0 events)

  -- The commit, and what comes after it, which never raises.
  pub commit-Undone :
      {A : Type 0} (f : ℕ → A) → Undone (commit env >> (utcnow >>= λ now. pure (f now)))
  unfolding commit
  commit-Undone f = record {
    lock = λ w. ground (arith, Bool-cases (env.fault w.calls));
    stored = λ w e. ground (arith, Bool-cases (env.fault w.calls));
  }

  pub anchor_window-Undone :
      (job_start start_time end_time : ℕ) (wait : Bool) (window : EventWindow) (tree : MerkleTree)
      → Undone (anchor_window env job_start start_time end_time wait window tree)
  unfolding anchor_window save_anchor
  anchor_window-Undone job_start start_time end_time wait window tree =
      Undone-bind _ _ (create_anchor-Kept _ _ start_time end_time _ wait) (λ a.
        Undone-bind _ _ (execute-Kept env _)
          (λ _. Undone-bind _ _ (items-Kept a.id tree window.events) (λ _. commit-Undone _)))

  pub now-Kept : Respects Kept utcnow
  now-Kept = Respects-gets Kept-IsPreorder (λ w. w.now)

  pub fetch-Kept :
      (position : Position) (start_time end_time : ℕ) (pallets : List Str)
      → Respects Kept (fetch_events_for_window env position start_time end_time pallets)
  unfolding fetch_events_for_window
  fetch-Kept position start_time end_time pallets = search kept_rules

  pub existing-Kept :
      (digest : Str) (start_time end_time : ℕ)
      → Respects Kept (check_existing_anchor env digest start_time end_time)
  unfolding check_existing_anchor find_anchor_by_digest_and_window
  existing-Kept digest start_time end_time = search kept_rules

  pub last-Kept : Respects Kept (get_last_anchor_time env)
  unfolding get_last_anchor_time
  last-Kept = search kept_rules

  pub job_body-Undone :
      (job_start start_time end_time : ℕ) (wait : Bool)
      → Undone (job_body env job_start start_time end_time wait)
  unfolding job_body
  job_body-Undone job_start start_time end_time wait =
      Undone-bind _ _ (fetch-Kept _ start_time end_time []) (λ fetched.
        Undone-bind _ _ now-Kept (λ now.
          Undone-if (is_empty fetched.0) _ _ (Undone-Kept _ (Respects-pure Kept-IsPreorder _)) (
            Undone-bind _ _
              (Respects-lift Kept-IsPreorder (from_raw_hashes env.sha256 (event_hashes fetched.0)))
              (λ tree. Undone-bind _ _ (existing-Kept _ start_time end_time) (λ existing.
                Undone-bind _ _ now-Kept (λ later. chosen fetched.0 tree later existing))))))
    where
      chosen :
          (window : EventWindow) (tree : MerkleTree) (later : ℕ) (existing : Option AnchorRecord)
          → Undone (elim existing as (λ _. Exec AnchorResult) [
            | some a ↦ pure (
                completed a
                  (root_hash tree)
                  (event_count window)
                  start_time
                  end_time
                  (later - job_start))
            | none ↦ anchor_window env job_start start_time end_time wait window tree
          ])
      chosen window tree later (some a) = Undone-Kept _ (Respects-pure Kept-IsPreorder _)
      chosen window tree later none =
          anchor_window-Undone job_start start_time end_time wait window tree

  pub window-succeeds :
      (job_start start_time end_time : ℕ) (wait : Bool) (window : EventWindow) (tree : MerkleTree)
      → Yields (anchor_window env job_start start_time end_time wait window tree)
  unfolding anchor_window completed
  window-succeeds job_start start_time end_time wait window tree =
      Yields-bind
        (create_anchor env (root_hash tree) (event_count window) start_time end_time
          (str "merkle_sha256") wait)
        _
        (λ a. Yields-bind (save_anchor env a) _ (λ _.
          Yields-bind (store_anchor_items env a.id tree window.events false) _ (λ _.
            Yields-bind (commit env) _ (λ _. Yields-bind utcnow _ (λ now.
              Yields-pure
                (completed a (root_hash tree) (event_count window) start_time end_time
                  (now - job_start))
                refl)))))

  pub body-succeeds :
      (job_start start_time end_time : ℕ) (wait : Bool)
      → Yields (job_body env job_start start_time end_time wait)
  unfolding job_body anchor_window completed nothing_to_do
  body-succeeds job_start start_time end_time wait =
      Yields-bind
        (fetch_events_for_window env (record { last_block = none; last_timestamp = none })
          start_time end_time [])
        _
        (λ fetched. Yields-bind utcnow _ (λ now.
          Yields-if (is_empty fetched.0) _ _
            (Yields-pure (nothing_to_do start_time end_time (now - job_start)) refl)
            (Yields-bind (lift (from_raw_hashes env.sha256 (event_hashes fetched.0))) _ (λ tree.
              Yields-bind (check_existing_anchor env (root_hash tree) start_time end_time) _
                (λ existing.
                  Yields-bind utcnow _ (λ later. chosen fetched.0 tree later existing))))))
    where
      finished :
          (a : AnchorRecord) (window : EventWindow) (tree : MerkleTree) (now : ℕ)
          → Yields (
              pure (
                completed a
                  (root_hash tree)
                  (event_count window)
                  start_time
                  end_time
                  (now - job_start)))
      finished a window tree now =
          Yields-pure
            (completed a (root_hash tree) (event_count window) start_time end_time
              (now - job_start))
            refl

      chosen :
          (window : EventWindow) (tree : MerkleTree) (later : ℕ) (existing : Option AnchorRecord)
          → Yields (elim existing as (λ _. Exec AnchorResult) [
            | some a ↦ pure (
                completed a
                  (root_hash tree)
                  (event_count window)
                  start_time
                  end_time
                  (later - job_start))
            | none ↦ anchor_window env job_start start_time end_time wait window tree
          ])
      chosen window tree later (some a) = finished a window tree later
      chosen window tree later none = window-succeeds job_start start_time end_time wait window tree

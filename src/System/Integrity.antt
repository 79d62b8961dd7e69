-- ===== src/System/Integrity.antt =====
-- What the jobs of src/app/main.py and the endpoints keep true of the tables, whatever fails on the way.
use ared_edge_iota_anchor.Prelude.{
  ℕ, suc, ◌+◌, ◌-◌, ◌≡◌, Bool, true, false, List, [], ◌∷◌, Option, some, none, Exception,
  if◌then◌else◌,
}
use ared_edge_iota_anchor.Text.{Str}
use ared_edge_iota_anchor.Merkle.Node.{MerkleTree}
use ared_edge_iota_anchor.Merkle.Tree.{from_raw_hashes, root_hash}
use ared_edge_iota_anchor.Merkle.Proof.{get_proof}
use ared_edge_iota_anchor.Merkle.Compact.{to_compact}
use ared_edge_iota_anchor.Anchor.{AnchorRecord}
use ared_edge_iota_anchor.World.Types.{World, Env, Exec, IndexedEvent}
use ared_edge_iota_anchor.World.Exec.{pure, utcnow}
use ared_edge_iota_anchor.World.Frame.{
  Respects, Respects-bind, Respects-pure, Respects-lift, Respects-gets, Respects-try,
  Respects-finally, Respects-if,
}
use ared_edge_iota_anchor.Iota.Submission.{IsRetrying}
use ared_edge_iota_anchor.Service.Anchors.{create_anchor}
use ared_edge_iota_anchor.Service.Pending.{create_anchor_data}
use ared_edge_iota_anchor.Consumer.{EventWindow, event_count, event_hashes, is_empty}
use ared_edge_iota_anchor.Workflow.Job.{
  AnchorResult, completed, or_else, store_from, store_anchor_items, anchor_window,
  check_existing_anchor, job_body, job_failed, default_start, run_anchor_job, run_daily_anchor,
}
use ared_edge_iota_anchor.Api.Answer.{Answer, answer, refused, respond}
use ared_edge_iota_anchor.Api.Queries.{job_completed, job_queued, create_anchor_endpoint}
use ared_edge_iota_anchor.System.Jobs.{App, scheduled_anchor_job, run_background_anchor}
use ared_edge_iota_anchor.System.Keeping.{
  Keeping, Keeping-IsPreorder, same-Keeping, commit-Keeping, lock-Keeping, unlock-Keeping,
  session-Keeping, save_anchor-Keeping, save_item-Keeping, find-Keeping, fetch-Keeping,
  last-Keeping,
}

module _ (env : Env) (rt : IsRetrying env.retrying) (attempts : ℕ)
    (positive : env.settings.retry_count ≡ suc attempts) where
  pub create-Keeping :
      (digest : Str) (count start_time end_time : ℕ) (method : Str) (wait : Bool)
      → Respects Keeping (create_anchor env digest count start_time end_time method wait)
  create-Keeping digest count start_time end_time method wait = record {
    at = λ w.
        let (same_tables, same_committed, _) =
          create_anchor_data env rt attempts positive digest count start_time end_time method wait
            w in
        same-Keeping w _ same_tables same_committed;
  }

  store_from-Keeping :
      (anchor_id : ℕ) (tree : MerkleTree) (i : ℕ) (events : List IndexedEvent)
      → Respects Keeping (store_from env anchor_id tree i events)
  unfolding store_from
  store_from-Keeping anchor_id tree i [] = Respects-pure Keeping-IsPreorder tt
  store_from-Keeping anchor_id tree i (e ∷ es) =
      Respects-bind Keeping-IsPreorder _ _
        (Respects-lift Keeping-IsPreorder (get_proof env.sha256 tree i))
        (λ proof.
          Respects-bind Keeping-IsPreorder _ _
            (save_item-Keeping env anchor_id e.event_hash i (some e.id) (some (to_compact proof)))
            (λ _. store_from-Keeping anchor_id tree (i + 1) es))

  items-Keeping :
      (anchor_id : ℕ) (tree : MerkleTree) (events : List IndexedEvent)
      → Respects Keeping (store_anchor_items env anchor_id tree events false)
  unfolding store_anchor_items
  items-Keeping anchor_id tree events =
      Respects-bind Keeping-IsPreorder _ _ (store_from-Keeping anchor_id tree 0 events)
        (λ _. Respects-pure Keeping-IsPreorder tt)

  window-Keeping :
      (job_start start_time end_time : ℕ) (wait : Bool) (window : EventWindow) (tree : MerkleTree)
      → Respects Keeping (anchor_window env job_start start_time end_time wait window tree)
  unfolding anchor_window
  window-Keeping job_start start_time end_time wait window tree =
      Respects-bind Keeping-IsPreorder _ _ (create-Keeping _ _ start_time end_time _ wait) (λ a.
        Respects-bind Keeping-IsPreorder _ _ (save_anchor-Keeping env a) (λ _.
          Respects-bind Keeping-IsPreorder _ _ (items-Keeping a.id tree window.events) (λ _.
            Respects-bind Keeping-IsPreorder _ _ (commit-Keeping env) (λ _.
              Respects-bind Keeping-IsPreorder _ _ (Respects-gets Keeping-IsPreorder (λ w. w.now))
                (λ now. Respects-pure Keeping-IsPreorder _)))))

  now-Keeping : Respects Keeping utcnow
  now-Keeping = Respects-gets Keeping-IsPreorder (λ w. w.now)

  body-Keeping :
      (job_start start_time end_time : ℕ) (wait : Bool)
      → Respects Keeping (job_body env job_start start_time end_time wait)
  unfolding job_body check_existing_anchor
  body-Keeping job_start start_time end_time wait =
      Respects-bind Keeping-IsPreorder _ _ (fetch-Keeping env _ start_time end_time []) (λ fetched.
        Respects-bind Keeping-IsPreorder _ _ now-Keeping (λ now.
          Respects-if (is_empty fetched.0) _ _ (Respects-pure Keeping-IsPreorder _) (
            Respects-bind Keeping-IsPreorder _ _
              (Respects-lift Keeping-IsPreorder
                (from_raw_hashes env.sha256 (event_hashes fetched.0)))
              (λ tree.
                Respects-bind Keeping-IsPreorder _ _
                  (Respects-try Keeping-IsPreorder _ _
                    (find-Keeping env (root_hash tree) start_time end_time)
                    (λ e. Respects-pure Keeping-IsPreorder none))
                  (λ existing.
                    Respects-bind Keeping-IsPreorder _ _ now-Keeping
                      (λ later. chosen fetched.0 tree later existing))))))
    where
      chosen :
          (window : EventWindow) (tree : MerkleTree) (later : ℕ) (existing : Option AnchorRecord)
          → Respects Keeping (elim existing as (λ _. Exec AnchorResult) [
            | some a ↦ pure (
                completed a
                  (root_hash tree)
                  (event_count window)
                  start_time
                  end_time
                  (later - job_start))
            | none ↦ anchor_window env job_start start_time end_time wait window tree
          ])
      chosen window tree later (some a) = Respects-pure Keeping-IsPreorder _
      chosen window tree later none = window-Keeping job_start start_time end_time wait window tree

  start-Keeping :
      (start_time : Option ℕ) (end_time : ℕ)
      → Respects Keeping (default_start env start_time end_time)
  unfolding default_start
  start-Keeping (some t) end_time = Respects-pure Keeping-IsPreorder t
  start-Keeping none end_time =
      Respects-bind Keeping-IsPreorder _ _ (last-Keeping env)
        (λ last. Respects-pure Keeping-IsPreorder _)

  failed-Keeping :
      (job_start start_time end_time : ℕ) (e : Exception)
      → Respects Keeping (job_failed env job_start start_time end_time e)
  unfolding job_failed
  failed-Keeping job_start start_time end_time e =
      Respects-bind Keeping-IsPreorder _ _ now-Keeping (λ now. Respects-pure Keeping-IsPreorder _)

  pub job-Keeping :
      (start_time end_time : Option ℕ) (wait : Bool)
      → Respects Keeping (run_anchor_job env start_time end_time wait)
  unfolding run_anchor_job
  job-Keeping start_time end_time wait =
      Respects-bind Keeping-IsPreorder _ _ now-Keeping (λ job_start.
        Respects-bind Keeping-IsPreorder _ _ (lock-Keeping env) (λ acquired.
          Respects-bind Keeping-IsPreorder _ _ now-Keeping (λ now.
            Respects-if acquired _ _
              (Respects-bind Keeping-IsPreorder _ _
                (start-Keeping start_time (or_else end_time now))
                (λ from.
                  Respects-finally Keeping-IsPreorder _ _
                    (Respects-try Keeping-IsPreorder _ _
                      (body-Keeping job_start from (or_else end_time now) wait)
                      (failed-Keeping job_start from (or_else end_time now)))
                    (unlock-Keeping env)))
              (Respects-pure Keeping-IsPreorder _))))

  daily-Keeping : Respects Keeping (run_daily_anchor env)
  unfolding run_daily_anchor
  daily-Keeping = Respects-bind Keeping-IsPreorder _ _ now-Keeping (λ now. job-Keeping _ _ true)

  -- A run of the job keeps the tables whole.
  pub scheduled_anchor-Keeping : (app : App) → Respects Keeping (scheduled_anchor_job env app)
  unfolding scheduled_anchor_job
  scheduled_anchor-Keeping app = Respects-bind Keeping-IsPreorder _ _ now-Keeping (λ now.
      Respects-if app.has_service _ _
        (Respects-try Keeping-IsPreorder _ _
          (session-Keeping _ (
            Respects-bind Keeping-IsPreorder _ _ daily-Keeping
              (λ r. Respects-pure Keeping-IsPreorder _)))
          (λ e. Respects-pure Keeping-IsPreorder _))
        (Respects-pure Keeping-IsPreorder _))

  pub background-Keeping :
      (start_time end_time : Option ℕ)
      → Respects Keeping (run_background_anchor env start_time end_time)
  unfolding run_background_anchor
  background-Keeping start_time end_time =
      Respects-try Keeping-IsPreorder _ _
        (session-Keeping _ (
          Respects-bind Keeping-IsPreorder _ _ (job-Keeping start_time end_time true)
            (λ r. Respects-pure Keeping-IsPreorder tt)))
        (λ e. Respects-pure Keeping-IsPreorder tt)

  respond-Keeping :
      {A : Type 0} (m : Exec (Answer A))
      → Respects Keeping m
      → (w : World) → Keeping w (respond m w).1
  unfolding respond
  respond-Keeping m h w = (session-Keeping m h).at w

  pub create_endpoint-Keeping :
      (has_service : Bool) (start_time end_time : Option ℕ) (wait_for_completion : Bool) (w : World)
      → Keeping w
          (create_anchor_endpoint env has_service start_time end_time wait_for_completion w).1
  unfolding create_anchor_endpoint
  create_endpoint-Keeping false start_time end_time wait w = Keeping-IsPreorder.refl_lem w
  create_endpoint-Keeping true start_time end_time false w =
      respond-Keeping _ (Respects-pure Keeping-IsPreorder (answer job_queued)) w
  create_endpoint-Keeping true start_time end_time true w =
      respond-Keeping _
        (Respects-bind Keeping-IsPreorder _ _ (job-Keeping start_time end_time true) (λ r.
          Respects-pure Keeping-IsPreorder
            (if r.success then answer (job_completed r) else refused 500)))
        w

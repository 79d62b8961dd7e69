-- ===== src/System/Reach.antt =====
-- The runs of the application: its jobs and its endpoint of anchoring, each in an environment of its own,
-- with anything between them that leaves the anchors and their items alone (the indexer's events, the
-- clock, the node, the advisory lock of another session).
use ared_edge_iota_anchor.Prelude.{ℕ, suc, ◌≡◌, Bool, false, Option, List, ok}
use ared_edge_iota_anchor.Text.{Str}
use ared_edge_iota_anchor.Anchor.{AnchorRecord}
use ared_edge_iota_anchor.World.Types.{World, Tables, Env}
use ared_edge_iota_anchor.Iota.Submission.{IsRetrying}
use ared_edge_iota_anchor.Repository.Anchors.{list_anchors}
use ared_edge_iota_anchor.Repository.Integrity.{Intact}
use ared_edge_iota_anchor.Repository.Reading.{list_anchors-reads}
use ared_edge_iota_anchor.Api.Queries.{create_anchor_endpoint}
use ared_edge_iota_anchor.System.Jobs.{
  App, scheduled_anchor_job, scheduled_reconciliation_job, run_background_anchor,
}
use ared_edge_iota_anchor.System.Keeping.{Whole}
use ared_edge_iota_anchor.System.Integrity.{
  scheduled_anchor-Keeping, background-Keeping, create_endpoint-Keeping,
}
use ared_edge_iota_anchor.System.Reconciling.{scheduled_reconciliation-Keeping}

-- tenacity keeps its documentation, and is asked for one attempt at least.
pub record Deployed (env : Env) : Type 0 where
  pub retrying : IsRetrying env.retrying
  pub attempts : ℕ
  pub positive : env.settings.retry_count ≡ suc attempts

pub record SameAnchors (t t' : Tables) : Type 0 where
  pub anchors : t'.anchors ≡ t.anchors
  pub items : t'.items ≡ t.items

pub data Step : World → World → Type 0 where
  anchor_job :
      (env : Env)
      → Deployed env
      → (app : App) (w : World) → Step w (scheduled_anchor_job env app w).1
  reconciliation_job :
      (env : Env)
      → Deployed env
      → (app : App) (w : World) → Step w (scheduled_reconciliation_job env app w).1
  background :
      (env : Env)
      → Deployed env
      → (start_time end_time : Option ℕ) (w : World)
      → Step w (run_background_anchor env start_time end_time w).1
  endpoint :
      (env : Env)
      → Deployed env
      → (has_service : Bool) (start_time end_time : Option ℕ) (wait_for_completion : Bool)
        (w : World)
      → Step w (create_anchor_endpoint env has_service start_time end_time wait_for_completion w).1
  between :
      (w w' : World)
      → SameAnchors w.tables w'.tables
      → SameAnchors w.committed w'.committed
      → Step w w'

pub data Reach (w : World) : World → Type 0 where
  here : Reach w w
  next : {u v : World} → Reach w u → Step u v → Reach w v

same-Intact : (t t' : Tables) → SameAnchors t t' → Intact t → Intact t'
same-Intact t t' same h = record {
  windows = rw same.anchors h.windows;
  ids = rw same.anchors h.ids;
  readable = rw same.anchors h.readable;
  owned = rw (same.anchors, same.items) h.owned;
}

Step-Whole : {w w' : World} → Step w w' → Whole w → Whole w'
Step-Whole (anchor_job env d app w) h =
    ((scheduled_anchor-Keeping env d.retrying d.attempts d.positive app).at w).whole h
Step-Whole (reconciliation_job env d app w) h =
    ((scheduled_reconciliation-Keeping env d.retrying d.attempts d.positive app).at w).whole h
Step-Whole (background env d start_time end_time w) h =
    ((background-Keeping env d.retrying d.attempts d.positive start_time end_time).at w).whole h
Step-Whole (endpoint env d has_service start_time end_time wait w) h =
    (create_endpoint-Keeping env d.retrying d.attempts d.positive has_service start_time end_time
        wait w).whole
      h
Step-Whole (between w w' session stored) h = record {
  session = same-Intact w.tables w'.tables session h.session;
  stored = same-Intact w.committed w'.committed stored h.stored;
}

-- Whatever sequence of jobs and requests runs, with whatever faults of the database and replies of the
-- node, starting from whole tables: no two anchors have the same digest and window, no two have the same
-- id, each has a status that `AnchorStatus` reads, and each item belongs to an anchor; in the session's
-- tables and in the stored ones.
pub reachable-Whole : {w w' : World} → Reach w w' → Whole w → Whole w'
reachable-Whole here h = h
reachable-Whole (next path step) h = Step-Whole step (reachable-Whole path h)

-- In every world that the application reaches from whole tables, `list_anchors` returns where its
-- statement does not fail: no row stops the listing.
pub reachable-list_anchors :
    {w w' : World} (env : Env) (status : Option Str) (limit offset : ℕ)
    → Reach w w'
    → Whole w
    → env.fault w'.calls ≡ false
    → (anchors : List AnchorRecord) × ((list_anchors env status limit offset w').0 ≡ ok anchors)
reachable-list_anchors {w'} env status limit offset path h runs =
    list_anchors-reads env w' (reachable-Whole path h).session runs status limit offset

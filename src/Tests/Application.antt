-- ===== src/Tests/Application.antt =====
-- The theorems on the application as a whole at concrete inputs.
use ared_edge_iota_anchor.Prelude.{
  ℕ, ◌-◌, ◌≤◌, ◌≡◌, ◌⊎◌, refl, List, [], ◌∷◌, Option, none, some, ok, err, true, false, length,
  arith, Exception, ltb, if◌then◌else◌, find,
}
use ared_edge_iota_anchor.Text.{Str, str, str_eq}
use ared_edge_iota_anchor.Text.Hex.{hexlify, fromhex}
use ared_edge_iota_anchor.Anchor.{AnchorRecord, to_row, from_row-to_row}
use ared_edge_iota_anchor.World.Types.{World, Env, response, Json, get_metadata}
use ared_edge_iota_anchor.World.Exec.{tick}
use ared_edge_iota_anchor.Merkle.Node.{MerkleTree}
use ared_edge_iota_anchor.Merkle.Tree.{from_raw_hashes, root_hash, build_tree}
use ared_edge_iota_anchor.Merkle.Hash.{compute_parent_hash}
use ared_edge_iota_anchor.Iota.Client.{BlockMetadata, is_connected, is_state, wait_for_confirmation}
use ared_edge_iota_anchor.Iota.Inclusion.{readable, IsIncluded, wait_for_confirmation-Arrives}
use ared_edge_iota_anchor.Repository.Anchors.{list_anchors, save_anchor, has_window}
use ared_edge_iota_anchor.Repository.Refinement.{view, put, save_anchor-refines}
use ared_edge_iota_anchor.Consumer.{in_order, in_window}
use ared_edge_iota_anchor.Workflow.Job.{completed, job_body}
use ared_edge_iota_anchor.Workflow.Repeat.{window_events, hashes_of, repeated_window}
use ared_edge_iota_anchor.System.Jobs.{
  App, scheduled_anchor_job, scheduled_reconciliation_job, run_background_anchor,
}
use ared_edge_iota_anchor.System.Keeping.{Whole}
use ared_edge_iota_anchor.System.Reach.{
  Deployed, Reach, anchor_job, reconciliation_job, here, next, reachable-Whole,
  reachable-list_anchors,
}
use ared_edge_iota_anchor.System.Session.{get_db}
use ared_edge_iota_anchor.System.Transaction.{begun, get_db-atomic}
use ared_edge_iota_anchor.System.Startup.{StartSettings, startup}
use ared_edge_iota_anchor.System.Lifecycle.{Starts, jobs_return, startup_degrades}
use ared_edge_iota_anchor.System.Probes.{IotaStatus, health, ready, status}
use ared_edge_iota_anchor.System.Probing.{probes_return}
use ared_edge_iota_anchor.Service.Anchors.{NodeStatus}
use ared_edge_iota_anchor.Tests.Fixture.{
  some_anchor, down_env, toy_env, toy_world, toy_digest, toy_retrying-IsRetrying,
}

abbrev toy_app : App
toy_app = record {
  has_service = true;
  jobs = [];
  running = false;
  node_connected = 0;
  scheduler_last_run = none;
  reconciliation_last_run = none;
}

toy-Deployed : Deployed toy_env
toy-Deployed = record { retrying = toy_retrying-IsRetrying; attempts = 2; positive = refl }

down-Deployed : Deployed down_env
down-Deployed = record { retrying = toy_retrying-IsRetrying; attempts = 2; positive = refl }

toy_world-Whole : Whole toy_world
toy_world-Whole = record {
  session = record { windows = tt; ids = tt; readable = tt; owned = tt };
  stored = record { windows = tt; ids = tt; readable = tt; owned = tt };
}

-- The job with a node that does not answer, and then the reconciliation with one that does.
abbrev after_job : World
after_job = (scheduled_anchor_job down_env toy_app toy_world).1

abbrev after_both : World
after_both = (scheduled_reconciliation_job toy_env toy_app after_job).1

two_steps : Reach toy_world after_both
two_steps =
    next (next here (anchor_job down_env down-Deployed toy_app toy_world))
      (reconciliation_job toy_env toy-Deployed toy_app after_job)

reachable-Whole_example : Whole after_both
reachable-Whole_example = reachable-Whole two_steps toy_world-Whole

reachable-list_anchors_example :
    (anchors : List AnchorRecord) × ((list_anchors toy_env (some (str "pending")) 10 0 after_both).0
      ≡ ok anchors)
reachable-list_anchors_example =
    reachable-list_anchors toy_env (some (str "pending")) 10 0 two_steps toy_world-Whole refl

save_anchor-refines_example :
    ((id : ℕ) × ((save_anchor toy_env some_anchor toy_world).0 ≡ ok id)
      × (view (save_anchor toy_env some_anchor toy_world).1.tables
          ≡ put (to_row some_anchor) (view toy_world.tables)))
    ⊎ ((e : Exception) × ((save_anchor toy_env some_anchor toy_world).0 ≡ err e)
        × (view (save_anchor toy_env some_anchor toy_world).1.tables ≡ view toy_world.tables))
save_anchor-refines_example = save_anchor-refines toy_env some_anchor toy_world

-- The block is included from the fifth call on.
abbrev slow_state : ℕ → Option Str
slow_state n = if ltb n 4 then none else some (str "included")

abbrev slow_json : ℕ → Json
slow_json n = record {
  is_solid = some true;
  milestone = none;
  ledger_state = slow_state n;
  block_id = none;
  tips = none;
}

abbrev slow_env : Env
slow_env = record toy_env { reply = λ n _. response 200 (some (slow_json n)) }

abbrev connected_world : World
connected_world = record toy_world { has_client = true; connected = true }

slow-IsIncluded : (n : ℕ) → 4 ≤ n → IsIncluded slow_env (slow_env.reply n (get_metadata (str "b1")))
slow-IsIncluded n h = record {
  status = 200;
  json = slow_json n;
  same = refl;
  passes = refl;
  state = ground arith;
}

wait_for_confirmation-Arrives_example :
    (m : BlockMetadata) × ((wait_for_confirmation slow_env (str "b1") 60 connected_world).0 ≡ ok m)
    × (is_state (str "included") m.ledger_inclusion_state ≡ true)
    × (m.block_id ≡ str "b1")
unfolding is_state is_connected
wait_for_confirmation-Arrives_example =
    wait_for_confirmation-Arrives slow_env (str "b1") 4 1 (λ n. omega arith)
      (λ n. readable 200 (slow_json n) refl) slow-IsIncluded 2 60 connected_world refl (omega arith)
      (omega arith) (omega arith)

saving_keeps : (save_anchor toy_env some_anchor (begun toy_world)).1.committed ≡ toy_world.committed
unfolding save_anchor
saving_keeps = refl

get_db-atomic_example :
    ((id : ℕ) × ((get_db toy_env (save_anchor toy_env some_anchor) toy_world).0 ≡ ok id)
      × ((save_anchor toy_env some_anchor (begun toy_world)).0 ≡ ok id)
      × ((get_db toy_env (save_anchor toy_env some_anchor) toy_world).1.committed
          ≡ (save_anchor toy_env some_anchor (begun toy_world)).1.tables)
      × ((get_db toy_env (save_anchor toy_env some_anchor) toy_world).1.tables
          ≡ (get_db toy_env (save_anchor toy_env some_anchor) toy_world).1.committed))
    ⊎ ((e : Exception) × ((get_db toy_env (save_anchor toy_env some_anchor) toy_world).0 ≡ err e)
        × ((get_db toy_env (save_anchor toy_env some_anchor) toy_world).1.committed
            ≡ toy_world.committed)
        × ((get_db toy_env (save_anchor toy_env some_anchor) toy_world).1.tables
            ≡ (get_db toy_env (save_anchor toy_env some_anchor) toy_world).1.committed))
get_db-atomic_example =
    get_db-atomic toy_env (save_anchor toy_env some_anchor) toy_world saving_keeps

jobs_return_example :
    ((scheduled_anchor_job down_env toy_app toy_world).0
      ≡ ok (record toy_app { scheduler_last_run = some 5000 }))
    × ((scheduled_reconciliation_job down_env toy_app toy_world).0
        ≡ ok (record toy_app { reconciliation_last_run = some 5000 }))
    × ((run_background_anchor down_env none (some 2000) toy_world).0 ≡ ok tt)
jobs_return_example = jobs_return down_env toy_app none (some 2000) toy_world

abbrev start_settings : StartSettings
start_settings = record {
  iota_enabled = true;
  scheduler_enabled = true;
  anchor_schedule_hour = 0;
  anchor_schedule_minute = 0;
}

startup_degrades_example :
    Starts down_env start_settings toy_app (startup down_env start_settings toy_app toy_world).0
startup_degrades_example = startup_degrades down_env (λ n. refl) start_settings toy_app toy_world

probes_return_example :
    ((ready down_env toy_world).0 ≡ ok 200)
    × ((ready down_env toy_world).1.committed ≡ toy_world.committed)
    × ((h : IotaStatus × App) × ((health down_env toy_app toy_world).0 ≡ ok h))
    × ((health down_env toy_app toy_world).1.committed ≡ toy_world.committed)
    × ((s : Option NodeStatus) × ((status down_env toy_app toy_world).0 ≡ ok s))
    × ((status down_env toy_app toy_world).1.committed ≡ toy_world.committed)
probes_return_example = probes_return down_env toy_app toy_world

-- The root of the three events, and a world that has an anchor of it.
window_tree :
    (t : MerkleTree) × (from_raw_hashes toy_digest (hashes_of (window_events toy_world 1000 2000))
      ≡ ok t)
unfolding from_raw_hashes fromhex hexlify build_tree compute_parent_hash in_order in_window
window_tree = (_, refl)

abbrev window_anchor : AnchorRecord
window_anchor = record some_anchor { digest = root_hash window_tree.0 }

abbrev anchored_world : World
anchored_world = record toy_world {
  tables = record toy_world.tables { anchors = to_row window_anchor ∷ [] };
}

window_found :
    find (has_window (root_hash window_tree.0) 1000 2000) anchored_world.tables.anchors
    ≡ some (to_row window_anchor)
unfolding has_window window_tree to_row root_hash hexlify str_eq
window_found = refl

repeated_window_example : job_body toy_env 5000 1000 2000 true anchored_world ≡ (
  ok (
      completed window_anchor
        (root_hash window_tree.0)
        (length (window_events anchored_world 1000 2000))
        1000
        2000
        ((tick toy_env (tick toy_env anchored_world)).now - 5000)),
  tick toy_env (tick toy_env anchored_world),
)
repeated_window_example =
    repeated_window toy_env 5000 1000 2000 true anchored_world (λ n. refl) window_tree.1
      window_found (from_row-to_row window_anchor)

-- ===== src/Tests/Runs.antt =====
-- The theorems on the services at concrete inputs.
use ared_edge_iota_anchor.Prelude.{
  Exception, ◌∷◌, inr, find, ℕ, confirmation_error, ◌≡◌, ◌≤◌, ◌<◌, ◌+◌, ◌⊎◌, refl, [], none, some,
  ok, err, true, false, arith, get_elem?, connection_error, value_error, posting_error,
}
use ared_edge_iota_anchor.Text.{str, str_eq_refl}
use ared_edge_iota_anchor.Text.Hex.{hexlify, fromhex}
use ared_edge_iota_anchor.Merkle.Node.{MerkleTree}
use ared_edge_iota_anchor.Merkle.Tree.{from_raw_hashes, root_hash, build_tree}
use ared_edge_iota_anchor.Anchor.{AnchorRecord, with_status, to_row, from_row-to_row}
use ared_edge_iota_anchor.World.Types.{World, Json, AnchorMessage, Env, ItemRow, response}
use ared_edge_iota_anchor.Repository.Anchors.{has_id, save_anchor}
use ared_edge_iota_anchor.Iota.Client.{
  post_anchor, poll, wait_for_confirmation, submit_block_with_retry, get_block_metadata,
  ensure_connected, submit_tagged_data_block,
}
use ared_edge_iota_anchor.Iota.Confirmation.{Ends, wait_for_confirmation-Ends}
use ared_edge_iota_anchor.Iota.Conflicting.{conflicting_waits}
use ared_edge_iota_anchor.Iota.Submission.{calls-submit_block_with_retry, post_anchor_errors}
use ared_edge_iota_anchor.Service.Anchors.{create_anchor, post_record}
use ared_edge_iota_anchor.Service.Creation.{Creates, create_anchor-Creates, create_anchor_leaves}
use ared_edge_iota_anchor.Consumer.{EventWindow, event_hashes}
use ared_edge_iota_anchor.Workflow.Job.{AnchorResult, anchor_window, store_anchor_items}
use ared_edge_iota_anchor.Workflow.Anchoring.{Anchored, anchor_window_stores, Proved}
use ared_edge_iota_anchor.Reconciliation.Run.{run_reconciliation}
use ared_edge_iota_anchor.Reconciliation.Counters.{outcomes, run_reconciliation_bounds}
use ared_edge_iota_anchor.Repository.Items.{of_hash, save_anchor_item}
use ared_edge_iota_anchor.Api.Answer.{answer}
use ared_edge_iota_anchor.Api.Verify.{verify_inclusion, VerifyRequest, VerifyResponse}
use ared_edge_iota_anchor.Api.Acceptance.{Told, stored_event_answer}
use ared_edge_iota_anchor.Tests.Fixture.{
  some_anchor, down_env, toy_env, toy_world, toy_tables, toy_digest, toy_retrying-IsRetrying,
  three_events, event_of, toy_retrying,
}
use ared_edge_iota_anchor.Merkle.Hash.{compute_parent_hash}
use ared_edge_iota_anchor.Merkle.Proof.{get_proof}
use ared_edge_iota_anchor.World.Exec.{seconds, commit}

abbrev some_message : AnchorMessage
some_message = record {
  digest = str "ab";
  digest_algorithm = str "sha256";
  anchor_type = str "merkle_root";
  timestamp = 5000;
  event_count = 3;
  start_time = 1000;
  end_time = 2000;
  version = str "1.0";
}

abbrev pub some_window : EventWindow
some_window = record { start_time = 1000; end_time = 2000; events = three_events }

create_anchor-Creates_example :
    Creates toy_env
      (str "ab")
      3
      1000
      2000
      (str "merkle_sha256")
      true
      toy_world
      (create_anchor toy_env (str "ab") 3 1000 2000 (str "merkle_sha256") true toy_world).0
create_anchor-Creates_example =
    create_anchor-Creates toy_env toy_retrying-IsRetrying 2 refl (str "ab") 3 1000 2000
      (str "merkle_sha256") true toy_world

create_anchor_leaves_example :
    let w' =
      (create_anchor toy_env (str "ab") 3 1000 2000 (str "merkle_sha256") true toy_world).1 in
    (w'.pending_anchors ≡ toy_world.pending_anchors)
    × (w'.tables ≡ toy_world.tables)
    × (w'.committed ≡ toy_world.committed)
create_anchor_leaves_example =
    create_anchor_leaves toy_env toy_retrying-IsRetrying 2 refl (str "ab") 3 1000 2000
      (str "merkle_sha256") true toy_world tt

wait_for_confirmation-Ends_example :
    Ends toy_env (str "b1") 60 5000 (wait_for_confirmation toy_env (str "b1") 60 toy_world)
wait_for_confirmation-Ends_example =
    wait_for_confirmation-Ends toy_env (omega arith) (str "b1") 60 toy_world

calls-submit_block_with_retry_example :
    (toy_world.calls < (submit_block_with_retry toy_env some_message toy_world).1.calls)
    × ((submit_block_with_retry toy_env some_message toy_world).1.calls ≤ toy_world.calls + 3)
calls-submit_block_with_retry_example =
    calls-submit_block_with_retry toy_env toy_retrying-IsRetrying 2 refl some_message toy_world

run_reconciliation_bounds_example :
    let c = (run_reconciliation toy_env toy_world).0 in
    (c.processed ≤ 300) × (outcomes c ≤ c.processed + 1)
run_reconciliation_bounds_example = run_reconciliation_bounds toy_env toy_world

pub some_tree : (t : MerkleTree) × (from_raw_hashes toy_digest (event_hashes some_window) ≡ ok t)
unfolding from_raw_hashes event_hashes fromhex hexlify build_tree compute_parent_hash
some_tree = (_, refl)

pub window_run :
    (res : AnchorResult) × ((anchor_window toy_env 5000 1000 2000 true some_window some_tree.0
        toy_world).0
      ≡ ok res)
unfolding some_tree anchor_window from_raw_hashes event_hashes fromhex hexlify build_tree
    compute_parent_hash create_anchor post_record post_anchor ensure_connected
    submit_block_with_retry toy_retrying submit_tagged_data_block wait_for_confirmation poll
    get_block_metadata save_anchor store_anchor_items get_proof save_anchor_item to_row commit
window_run = (_, refl)

window_stored :
    Anchored toy_env 1000 2000 true some_window some_tree.0 toy_world
      (anchor_window toy_env 5000 1000 2000 true some_window some_tree.0 toy_world).1
      window_run.0
window_stored =
    anchor_window_stores toy_env toy_retrying-IsRetrying 2 refl 5000 1000 2000 true some_window
      some_tree.0 toy_world some_tree.1 window_run.1

-- The row of the second event.
second :
    (row : ItemRow) × (get_elem? window_stored.rows 1 ≡ some row)
    × (row.anchor_id ≡ window_stored.anchor.id)
    × Proved toy_env (root_hash some_tree.0) 1 (event_of 2) row
second = window_stored.proofs 1 (event_of 2) refl

abbrev own_anchor : AnchorRecord
own_anchor = record some_anchor { id = second.0.anchor_id; digest = root_hash some_tree.0 }

-- A table with the row and its anchor.
abbrev kept_world : World
kept_world = record toy_world {
  committed = record toy_tables { anchors = to_row own_anchor ∷ []; items = second.0 ∷ [] };
}

abbrev some_request : VerifyRequest
some_request = record {
  event_hash = (event_of 2).event_hash;
  anchor_id = none;
  merkle_proof = none;
  verify_on_tangle = false;
}

kept_item : find (of_hash some_request.event_hash) kept_world.committed.items ≡ some second.0
unfolding of_hash
kept_item = rw (second.3.hashed, str_eq_refl (event_of 2).event_hash) refl

kept_anchor :
    find (has_id second.0.anchor_id) kept_world.committed.anchors ≡ some (to_row own_anchor)
unfolding has_id to_row with_status
kept_anchor = ground arith

stored_event_answer_example :
    (response : VerifyResponse) × ((verify_inclusion toy_env true some_request kept_world).0
      ≡ answer response)
    × Told toy_env response second.3.proof
stored_event_answer_example =
    stored_event_answer toy_env true some_request second.3 (to_row own_anchor) own_anchor kept_world
      (λ n. refl) (inr (refl, kept_item)) kept_anchor (from_row-to_row own_anchor) refl refl refl

down_posting : (post_anchor down_env some_message true toy_world).0 ≡ err connection_error
unfolding post_anchor ensure_connected
down_posting = refl

post_anchor_errors_example :
    (connection_error ≡ connection_error)
    ⊎ ((connection_error ≡ value_error) ⊎ (connection_error ≡ posting_error))
post_anchor_errors_example =
    post_anchor_errors down_env toy_retrying-IsRetrying 2 refl some_message true toy_world
      down_posting

abbrev conflicting_state : Json
conflicting_state = record {
  is_solid = some true;
  milestone = none;
  ledger_state = some (str "conflicting");
  block_id = none;
  tips = none;
}

abbrev conflicting_env : Env
conflicting_env = record toy_env { reply = λ _ _. response 200 (some conflicting_state) }

conflicting_json :
    (json : Json)
    → {status : ℕ} → response 200 (some conflicting_state) ≡ response status (some json)
    → json.ledger_state ≡ some (str "conflicting")
conflicting_json json e = ground (arith, e)

conflicting_waits_example :
    (e : Exception) × ((wait_for_confirmation conflicting_env (str "b1") 3 toy_world).0 ≡ err e)
    × (((e ≡ confirmation_error)
          × (toy_world.now + seconds 3
              ≤ (wait_for_confirmation conflicting_env (str "b1") 3 toy_world).1.now))
        ⊎ (e ≡ value_error))
conflicting_waits_example =
    conflicting_waits conflicting_env (omega arith) (str "b1") 3 toy_world
      (λ n status json e. conflicting_json json e)

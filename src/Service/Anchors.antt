-- ===== src/Service/Anchors.antt =====
-- The methods of `AnchorService`. `_pending_anchors` is `pending_anchors` of the world; the record
-- that `create_anchor` mutates is shared with it, so that each mutation is a write there. The
-- argument `metadata`, which no caller gives, is left out.
use ared_edge_iota_anchor.Prelude.{
  ℕ, ◌/◌, Bool, true, false, not, [], ◌∷◌, Option, none, some, Exception, service_error, keep, ◌==◌,
  if◌then◌else◌,
}
use ared_edge_iota_anchor.Text.{Str, str, contains}
use ared_edge_iota_anchor.Anchor.{
  AnchorRecord, pending, building, posting, posted, confirmed, failed,
}
use ared_edge_iota_anchor.World.Types.{Env, Exec, AnchorMessage}
use ared_edge_iota_anchor.World.Exec.{
  pure, raise, ◌>>=◌, ◌>>◌, try_except, finally, gets, modify, utcnow, uuid4,
}
use ared_edge_iota_anchor.Iota.Client.{
  BlockMetadata, is_client_error, is_connected, connect, disconnect, post_anchor,
  get_block_metadata, verify_block_exists, get_node_info, check_health, get_explorer_url,
}

-- `int(t.timestamp())`.
abbrev pub timestamp : ℕ → ℕ
timestamp t = t / 1000000

abbrev pub other_id : ℕ → AnchorRecord → Bool
other_id id a = not (a.id == id)

abbrev pub put_pending : AnchorRecord → Exec (Unit {0})
put_pending a =
    modify (λ w. record w { pending_anchors = a ∷ keep (other_id a.id) w.pending_anchors })

abbrev pub pop_pending : ℕ → Exec (Unit {0})
pop_pending id = modify (λ w. record w { pending_anchors = keep (other_id id) w.pending_anchors })

unfoldable pub make_message :
    (digest : Str) (item_count start_time end_time : ℕ) (method : Str) (now : ℕ) → AnchorMessage
unfolding contains
make_message digest item_count start_time end_time method now = record {
  digest = digest;
  digest_algorithm = if contains (str "sha256") method then str "sha256" else method;
  anchor_type = if contains (str "merkle") method then str "merkle_root" else str "hash";
  timestamp = timestamp now;
  event_count = item_count;
  start_time = timestamp start_time;
  end_time = timestamp end_time;
  version = str "1.0";
}

-- The answer of `get_node_status`, less the settings that it repeats.
pub record NodeStatus : Type 0 where
  pub connected : Bool
  pub is_healthy : Option Bool
  pub error : Option Str

module _ (env : Env) where
  -- The record as `post_anchor`'s block leaves it.
  unfoldable pub with_block : AnchorRecord → BlockMetadata → (now : ℕ) → AnchorRecord
  with_block a block now = record a {
    iota_block_id = some block.block_id;
    iota_network = some block.network;
    explorer_url = some (get_explorer_url env block.block_id);
    posted_at = some now;
    status = if block.referenced_by_milestone then confirmed else posted;
    confirmed_at = if block.referenced_by_milestone then some now else a.confirmed_at;
  }

  -- The `try` block of `create_anchor`.
  unfoldable pub post_record : AnchorRecord → (wait_for_confirmation : Bool) → Exec AnchorRecord
  unfolding with_block
  post_record a wait_for_confirmation = do
    put_pending (record a { status = building })
    now ← utcnow
    put_pending (record a { status = posting })
    block ←
        post_anchor env (make_message a.digest a.item_count a.start_time a.end_time a.method now)
          wait_for_confirmation
    later ← utcnow
    put_pending (with_block a block later)
    pure (with_block a block later)

  -- Its handlers: `PostingError` is one of the client's errors, and both do the same.
  unfoldable pub posting_failed : AnchorRecord → Exception → Exec AnchorRecord
  unfolding is_client_error
  posting_failed a e =
      if is_client_error e
      then (do
        put_pending (record a { status = failed; error_message = some (env.describe e) })
        raise service_error)
      else raise e

  unfoldable pub create_anchor :
      (digest : Str) (item_count start_time end_time : ℕ) (method : Str)
      (wait_for_confirmation : Bool)
      → Exec AnchorRecord
  unfolding uuid4
  create_anchor digest item_count start_time end_time method wait_for_confirmation = do
    anchor_id ← uuid4 env
    now ← utcnow
    let anchor : AnchorRecord = record {
      id = anchor_id;
      digest = digest;
      method = method;
      start_time = start_time;
      end_time = end_time;
      item_count = item_count;
      status = pending;
      iota_block_id = none;
      iota_network = none;
      explorer_url = none;
      created_at = now;
      posted_at = none;
      confirmed_at = none;
      error_message = none;
    }
    put_pending anchor
    finally (try_except (post_record anchor wait_for_confirmation) (posting_failed anchor))
        (pop_pending anchor_id)

  unfoldable pub check_confirmation : (anchor_id : ℕ) (block_id : Str) → Exec AnchorRecord
  unfolding is_client_error
  check_confirmation anchor_id block_id =
      try_except
        (do
          block ← get_block_metadata env block_id
          now ← utcnow
          pure (record {
            id = anchor_id;
            digest = [];
            method = [];
            start_time = now;
            end_time = now;
            item_count = 0;
            status = if block.referenced_by_milestone then confirmed else posted;
            iota_block_id = some block_id;
            iota_network = none;
            explorer_url = none;
            created_at = now;
            posted_at = none;
            confirmed_at = if block.referenced_by_milestone then some now else none;
            error_message = none;
          }))
        (λ e. if is_client_error e then raise service_error else raise e)

  unfoldable pub verify_anchor_on_tangle : Str → Exec Bool
  unfolding verify_block_exists
  verify_anchor_on_tangle block_id = verify_block_exists env block_id

  unfoldable pub initialize : Exec (Unit {0})
  unfolding connect
  initialize = connect env

  unfoldable pub shutdown : Exec (Unit {0})
  unfolding disconnect
  shutdown = disconnect env

  unfoldable pub get_node_status : Exec NodeStatus
  unfolding is_connected get_node_info check_health
  get_node_status = do
    up ← gets is_connected
    if up
        then try_except
            (do
              get_node_info env
              healthy ← check_health env
              pure (record { connected = true; is_healthy = some healthy; error = none }))
            (λ e.
              pure (record { connected = false; is_healthy = none; error = some (env.describe e) }))
        else pure (record { connected = false; is_healthy = none; error = none })

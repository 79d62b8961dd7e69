-- ===== src/World/Types.antt =====
-- The state that the services of src/app work on, and their environment.
use ared_edge_iota_anchor.Prelude.{ℕ, Bool, List, Option, Result, Exception}
use ared_edge_iota_anchor.Text.{Str}
use ared_edge_iota_anchor.Anchor.{AnchorRow, AnchorRecord}

-- `IndexedEvent` of src/app/services/event_consumer.py; its `event_data` is not read by the package.
pub record IndexedEvent : Type 0 where
  pub id : ℕ
  pub block_number : ℕ
  pub block_hash : Str
  pub event_index : ℕ
  pub pallet : Str
  pub event_name : Str
  pub event_hash : Str
  pub timestamp : ℕ

-- A row of `anchor_items`.
pub record ItemRow : Type 0 where
  pub id : ℕ
  pub anchor_id : ℕ
  pub event_id : Option ℕ
  pub event_hash : Str
  pub position_in_merkle : ℕ
  pub merkle_proof : Option (List Str)
  pub created_at : ℕ

-- A row of `anchor_retry_log`.
pub record RetryRow : Type 0 where
  pub anchor_id : ℕ
  pub created_at : ℕ

pub record Tables : Type 0 where
  pub anchors : List AnchorRow
  pub items : List ItemRow
  pub retries : List RetryRow
  pub events : List IndexedEvent

-- `tables` is what the session sees, `committed` what others see. `lock_count` is how often this
-- session holds the advisory lock of the anchor job. `calls` counts the calls of the outside.
pub record World : Type 0 where
  pub tables : Tables
  pub committed : Tables
  pub lock_count : ℕ
  pub calls : ℕ
  pub draws : ℕ
  pub now : ℕ
  pub has_client : Bool
  pub connected : Bool
  pub pending_anchors : List AnchorRecord

-- `AnchorMessage` of src/app/services/iota_client.py. The service leaves its `metadata` empty.
pub record AnchorMessage : Type 0 where
  pub digest : Str
  pub digest_algorithm : Str
  pub anchor_type : Str
  pub timestamp : ℕ
  pub event_count : ℕ
  pub start_time : ℕ
  pub end_time : ℕ
  pub version : Str

pub data Request : Type 0 where
  get_health get_info get_tips : Request
  get_metadata : (block_id : Str) → Request
  post_block : (tag : Str) (message : AnchorMessage) → Request

-- The keys of a JSON object that the client reads. A body that is another JSON value, on which `get` raises
-- `AttributeError`, is left out, and so is an object whose `protocol` is null.
pub record Json : Type 0 where
  pub is_solid : Option Bool
  pub milestone : Option ℕ
  pub ledger_state : Option Str
  pub block_id : Option Str
  pub tips : Option (List Str)

-- A reply of the node: an `httpx.HTTPError`, or a response whose body may be no JSON.
pub data Reply : Type 0 where
  transport_failure : Reply
  response : (status : ℕ) (body : Option Json) → Reply

abbrev pub Exec {ℓ} : Type ℓ → Type ℓ
Exec A = World → Result A × World

pub record Settings : Type 0 where
  pub network : Str
  pub tag : Str
  pub explorer_url : Str
  pub retry_count : ℕ
  pub confirmation_timeout : ℕ
  pub confirmation_poll_interval : ℕ
  pub max_retries : ℕ
  pub retry_delay_base : ℕ
  pub retry_delay_max : ℕ

-- `reply n` answers a request that is the n-th call, `fault n` says that a statement which is the
-- n-th call raises, `took n` is the time of the n-th call, and `other_holds n` says that another
-- session has the advisory lock then. `retrying` is tenacity's `AsyncRetrying`, `raises_for_status`
-- is httpx's test, `describe` is the text of an exception.
pub record Env : Type 0 where
  pub sha256 : List ℕ → List ℕ
  pub reply : ℕ → Request → Reply
  pub fault : ℕ → Bool
  pub took : ℕ → ℕ
  pub uuid4 : ℕ → ℕ
  pub other_holds : ℕ → Bool
  pub raises_for_status : ℕ → Bool
  pub describe : Exception → Str
  pub retrying : (attempts : ℕ) (retry_if : Exception → Bool) → Exec Str → Exec Str
  pub settings : Settings

-- ===== src/Api/Responses.antt =====
-- The responses of src/app/api/v1/endpoints/anchors.py and how they are filled.
use ared_edge_iota_anchor.Prelude.{ℕ, List, Option}
use ared_edge_iota_anchor.Text.{Str}
use ared_edge_iota_anchor.Anchor.{AnchorRecord, status_value}
use ared_edge_iota_anchor.Repository.Items.{ItemDict}

pub record AnchorResponse : Type 0 where
  pub id : ℕ
  pub digest : Str
  pub method : Str
  pub start_time : ℕ
  pub end_time : ℕ
  pub iota_message_id : Option Str
  pub iota_network : Option Str
  pub explorer_url : Option Str
  pub status : Str
  pub item_count : ℕ
  pub created_at : ℕ
  pub posted_at : Option ℕ
  pub confirmed_at : Option ℕ
  pub error_message : Option Str

unfoldable pub record_to_response : AnchorRecord → AnchorResponse
record_to_response anchor = record {
  id = anchor.id;
  digest = anchor.digest;
  method = anchor.method;
  start_time = anchor.start_time;
  end_time = anchor.end_time;
  iota_message_id = anchor.iota_block_id;
  iota_network = anchor.iota_network;
  explorer_url = anchor.explorer_url;
  status = status_value anchor.status;
  item_count = anchor.item_count;
  created_at = anchor.created_at;
  posted_at = anchor.posted_at;
  confirmed_at = anchor.confirmed_at;
  error_message = anchor.error_message;
}

pub record AnchorItemResponse : Type 0 where
  pub event_hash : Str
  pub position : ℕ
  pub merkle_proof : Option (List Str)

unfoldable pub item_response : ItemDict → AnchorItemResponse
item_response item = record {
  event_hash = item.event_hash;
  position = item.position;
  merkle_proof = item.merkle_proof;
}

pub record AnchorEventResponse : Type 0 where
  pub event_hash : Str
  pub position : ℕ
  pub event_id : Option ℕ
  pub merkle_proof : Option (List Str)
  pub created_at : Option ℕ

unfoldable pub event_response : ItemDict → AnchorEventResponse
event_response item = record {
  event_hash = item.event_hash;
  position = item.position;
  event_id = item.event_id;
  merkle_proof = item.merkle_proof;
  created_at = item.created_at;
}

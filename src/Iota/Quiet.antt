-- ===== src/Iota/Quiet.antt =====
-- What the calls of src/app/services/iota_client.py may change in the world.
use ared_edge_iota_anchor.Prelude.{ℕ, refl, Bool, Option, none, some, arith}
use ared_edge_iota_anchor.Text.{Str}
use ared_edge_iota_anchor.World.Types.{Env, Request, Json, Reply, transport_failure, response}
use ared_edge_iota_anchor.World.Exec.{modify}
use ared_edge_iota_anchor.World.Frame.{Respects, Quiet, quiet_rules}
use ared_edge_iota_anchor.Iota.Client.{
  received, parsed, send, checked_json, check_health, get_node_info, connect, ensure_connected,
  get_block_metadata,
}

pub set_client-Quiet : (c : Bool) → Respects Quiet (modify (λ w. record w { has_client = c }))
set_client-Quiet c = record {
  at = λ w. record {
    same_tables = refl;
    same_committed = refl;
    same_lock = refl;
    same_pending = refl;
    later = omega arith;
  };
}

pub set_connected-Quiet : (c : Bool) → Respects Quiet (modify (λ w. record w { connected = c }))
set_connected-Quiet c = record {
  at = λ w. record {
    same_tables = refl;
    same_committed = refl;
    same_lock = refl;
    same_pending = refl;
    later = omega arith;
  };
}

pub received-Quiet : (r : Reply) → Respects Quiet (received r)
received-Quiet transport_failure = search quiet_rules
received-Quiet (response s b) = search quiet_rules

pub parsed-Quiet : (b : Option Json) → Respects Quiet (parsed b)
parsed-Quiet none = search quiet_rules
parsed-Quiet (some j) = search quiet_rules

pub ruleset client_rules =
    (quiet_rules, set_client-Quiet, set_connected-Quiet, received-Quiet, parsed-Quiet)

module _ (env : Env) where
  pub send-Quiet : (r : Request) → Respects Quiet (send env r)
  unfolding send
  send-Quiet r = search client_rules

  pub checked_json-Quiet : (a : ℕ × Option Json) → Respects Quiet (checked_json env a)
  unfolding checked_json
  checked_json-Quiet (s, b) = search client_rules

  pub check_health-Quiet : Respects Quiet (check_health env)
  unfolding check_health
  check_health-Quiet = search (client_rules, send-Quiet)

  pub get_node_info-Quiet : Respects Quiet (get_node_info env)
  unfolding get_node_info
  get_node_info-Quiet = search (client_rules, send-Quiet, checked_json-Quiet)

  connect-Quiet : Respects Quiet (connect env)
  unfolding connect
  connect-Quiet = search (client_rules, check_health-Quiet, get_node_info-Quiet) depth 9

  pub ensure_connected-Quiet : Respects Quiet (ensure_connected env)
  unfolding ensure_connected
  ensure_connected-Quiet = search (client_rules, connect-Quiet)

  pub get_block_metadata-Quiet : (b : Str) → Respects Quiet (get_block_metadata env b)
  unfolding get_block_metadata
  get_block_metadata-Quiet b =
      search (client_rules, ensure_connected-Quiet, send-Quiet, checked_json-Quiet) depth 9

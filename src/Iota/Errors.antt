-- ===== src/Iota/Errors.antt =====
-- Which exceptions the calls of src/app/services/iota_client.py raise.
use ared_edge_iota_anchor.Prelude.{
  ℕ, ◌≡◌, true, Exception, value_error, connection_error, err, arith, ◌⊎◌,
}
use ared_edge_iota_anchor.Text.{Str}
use ared_edge_iota_anchor.World.Types.{World, Env, Request}
use ared_edge_iota_anchor.World.Exec.{request}
use ared_edge_iota_anchor.Iota.Client.{
  is_http_error, is_client_error, send, checked_json, connect, ensure_connected, get_block_metadata,
}

module _ (env : Env) where
  send_errors :
      (r : Request) (w : World) {e : Exception} → (send env r w).0 ≡ err e → is_http_error e ≡ true
  unfolding send is_http_error request
  send_errors r w h = ground arith

  json_errors :
      (a : ℕ × _) (w : World) {e : Exception}
      → (checked_json env a w).0 ≡ err e
      → (is_http_error e ≡ true) ⊎ (e ≡ value_error)
  unfolding checked_json is_http_error
  json_errors a w h = ground arith

  connect_errors :
      (w : World) {e : Exception}
      → (connect env w).0 ≡ err e
      → (e ≡ connection_error) ⊎ (e ≡ value_error)
  unfolding connect request
  connect_errors w h = ground arith

  pub metadata_errors :
      (b : Str) (w : World) {e : Exception}
      → (get_block_metadata env b w).0 ≡ err e
      → (is_client_error e ≡ true) ⊎ (e ≡ value_error)
  unfolding get_block_metadata request is_client_error
  metadata_errors b w h = ground arith

  pub ensure_connected_errors :
      (w : World) {e : Exception}
      → (ensure_connected env w).0 ≡ err e
      → (e ≡ connection_error) ⊎ (e ≡ value_error)
  unfolding ensure_connected
  ensure_connected_errors w h = ground (arith, connect_errors w)

-- ===== src/Iota/Client.antt =====
-- `IOTAClient` of src/app/services/iota_client.py. Its fields `_client` and `_connected` are
-- `has_client` and `connected` of the world. httpx and tenacity are parameters in `Env`.
use ared_edge_iota_anchor.Prelude.{
  ℕ, zero, suc, ◌-◌, Bool, true, false, ◌&&◌, ◌||◌, List, [], ◌++◌, Option, none, some, leb,
  Exception, value_error, http_error, http_status_error, connection_error, posting_error,
  confirmation_error, client_error, diverges, ◌==◌, if◌then◌else◌,
}
use ared_edge_iota_anchor.Text.{Str, str, str_eq}
use ared_edge_iota_anchor.World.Types.{
  World, Env, Exec, Request, get_health, get_info, get_tips, get_metadata, post_block, Reply,
  transport_failure, response, Json, AnchorMessage,
}
use ared_edge_iota_anchor.World.Exec.{
  pure, raise, ◌>>=◌, ◌>>◌, try_except, gets, modify, utcnow, seconds, sleep, request,
}

pub record BlockMetadata : Type 0 where
  pub block_id : Str
  pub network : Str
  pub timestamp : ℕ
  pub is_solid : Bool
  pub referenced_by_milestone : Bool
  pub milestone_index : Option ℕ
  pub ledger_inclusion_state : Option Str

-- `except IOTAClientError`, with its subclasses.
unfoldable pub is_client_error : Exception → Bool
is_client_error connection_error = true
is_client_error posting_error = true
is_client_error confirmation_error = true
is_client_error client_error = true
is_client_error _ = false

-- `except httpx.HTTPError`, with its subclass `HTTPStatusError`.
unfoldable pub is_http_error : Exception → Bool
is_http_error http_error = true
is_http_error (http_status_error _) = true
is_http_error _ = false

-- What tenacity retries.
unfoldable pub retry_if : Exception → Bool
unfolding is_client_error is_http_error
retry_if e = is_http_error e || is_client_error e

abbrev pub or_false : Option Bool → Bool
or_false none = false
or_false (some b) = b

abbrev pub is_some : {A : Type 0} → Option A → Bool
is_some none = false
is_some (some _) = true

abbrev pub or_empty : Option Str → Str
or_empty none = []
or_empty (some s) = s

unfoldable pub is_state : Str → Option Str → Bool
unfolding str_eq
is_state expected none = false
is_state expected (some state) = str_eq state expected

abbrev pub received : Reply → Exec (ℕ × Option Json)
received transport_failure = raise http_error
received (response status body) = pure (status, body)

abbrev pub parsed : Option Json → Exec Json
parsed none = raise value_error
parsed (some json) = pure json

unfoldable pub is_connected : World → Bool
is_connected w = w.connected && w.has_client

module _ (env : Env) where
  -- `await self._client.get(...)`.
  unfoldable pub send : Request → Exec (ℕ × Option Json)
  unfolding request
  send r = do reply ← request env r; received reply

  -- `response.raise_for_status()` and `response.json()`.
  unfoldable pub checked_json : ℕ × Option Json → Exec Json
  checked_json (status, body) =
      if env.raises_for_status status then raise (http_status_error status) else parsed body

  unfoldable pub check_health : Exec Bool
  unfolding send is_http_error
  check_health =
      try_except (do answer ← send get_health; pure (answer.0 == 200))
        (λ e. if is_http_error e then pure false else raise e)

  unfoldable pub get_node_info : Exec Json
  unfolding send checked_json
  get_node_info = do answer ← send get_info; checked_json answer

  unfoldable pub connect : Exec (Unit {0})
  unfolding check_health get_node_info is_http_error
  connect = do
    modify (λ w. record w { has_client = true })
    try_except
        (do
          health ← check_health
          if health
              then (do get_node_info; modify (λ w. record w { connected = true }))
              else raise connection_error)
        (λ e.
          if is_http_error e
          then (do modify (λ w. record w { connected = false }); raise connection_error)
          else raise e)

  unfoldable pub disconnect : Exec (Unit {0})
  disconnect = modify (λ w. record w { has_client = false; connected = false })

  -- `if not self.is_connected: await self.connect()`.
  unfoldable pub ensure_connected : Exec (Unit {0})
  unfolding connect is_connected
  ensure_connected = do up ← gets is_connected; if up then pure tt else connect

  -- Its `try` block, and the handler.
  abbrev pub read_metadata : Str → Exec BlockMetadata
  read_metadata block_id =
      try_except
        (do
          answer ← send (get_metadata block_id)
          json ← checked_json answer
          now ← utcnow
          pure (record {
            block_id = block_id;
            network = env.settings.network;
            timestamp = now;
            is_solid = or_false json.is_solid;
            referenced_by_milestone = is_some json.milestone;
            milestone_index = json.milestone;
            ledger_inclusion_state = json.ledger_state;
          }))
        (λ e. if is_http_error e then raise client_error else raise e)

  unfoldable pub get_block_metadata : Str → Exec BlockMetadata
  unfolding ensure_connected send checked_json is_http_error
  get_block_metadata block_id = do ensure_connected; read_metadata block_id

  unfoldable pub verify_block_exists : Str → Exec Bool
  unfolding get_block_metadata is_client_error
  verify_block_exists block_id =
      try_except (do metadata ← get_block_metadata block_id; pure metadata.is_solid)
        (λ e. if is_client_error e then pure false else raise e)

  abbrev pub is_status_error : Exception → Bool
  is_status_error (http_status_error _) = true
  is_status_error _ = false

  unfoldable pub submit_tagged_data_block : AnchorMessage → Exec Str
  unfolding send checked_json
  submit_tagged_data_block message =
      try_except
        (do
          answer ← send (post_block env.settings.tag message)
          json ← checked_json answer
          pure (or_empty json.block_id))
        (λ e. if is_status_error e then raise posting_error else raise e)

  unfoldable pub submit_block_with_retry : AnchorMessage → Exec Str
  submit_block_with_retry message =
      env.retrying env.settings.retry_count retry_if (submit_tagged_data_block message)

  -- One round of `_wait_for_confirmation` behind its timeout test; `none` is another round.
  unfoldable pub poll : Str → Exec (Option BlockMetadata)
  unfolding is_state sleep is_client_error
  poll block_id =
      try_except
        (do
          metadata ← get_block_metadata block_id
          if is_state (str "included") metadata.ledger_inclusion_state
              then pure (some metadata)
              else if is_state (str "conflicting") metadata.ledger_inclusion_state
              then raise confirmation_error
              else (do sleep env (seconds env.settings.confirmation_poll_interval); pure none))
        (λ e.
          if is_client_error e
          then (do sleep env (seconds env.settings.confirmation_poll_interval); pure none)
          else raise e)

  unfoldable pub wait_rounds : ℕ → (block_id : Str) (timeout start_time : ℕ) → Exec BlockMetadata
  wait_rounds zero block_id timeout start_time = raise diverges
  wait_rounds (suc rounds) block_id timeout start_time = do
    now ← utcnow
    if leb (seconds timeout) (now - start_time) then raise confirmation_error else (do
      outcome ← poll block_id
      elim outcome [
        | some metadata ↦ pure metadata
        | none ↦ wait_rounds rounds block_id timeout start_time
      ])

  -- The loop runs on one round more than the seconds of the timeout.
  unfoldable pub wait_for_confirmation : (block_id : Str) (timeout : ℕ) → Exec BlockMetadata
  unfolding wait_rounds
  wait_for_confirmation block_id timeout = do
    start_time ← utcnow
    wait_rounds (suc timeout) block_id timeout start_time

  unfoldable pub post_anchor : AnchorMessage → (wait_for_inclusion : Bool) → Exec BlockMetadata
  post_anchor message wait_for_inclusion = do
    ensure_connected
    try_except
        (do
          block_id ← submit_block_with_retry message
          now ← utcnow
          if wait_for_inclusion
              then wait_for_confirmation block_id env.settings.confirmation_timeout
              else pure (record {
                block_id = block_id;
                network = env.settings.network;
                timestamp = now;
                is_solid = false;
                referenced_by_milestone = false;
                milestone_index = none;
                ledger_inclusion_state = none;
              }))
        (λ e. raise posting_error)

  abbrev or_no_tips : Option (List Str) → List Str
  or_no_tips none = []
  or_no_tips (some tips) = tips

  unfoldable pub get_tips_action : Exec (List Str)
  unfolding ensure_connected send checked_json is_http_error
  get_tips_action = do
    ensure_connected
    try_except (do answer ← send get_tips; json ← checked_json answer; pure (or_no_tips json.tips))
        (λ e. if is_http_error e then raise client_error else raise e)

  unfoldable pub get_explorer_url : Str → Str
  get_explorer_url block_id = env.settings.explorer_url ++ (str "/block/" ++ block_id)

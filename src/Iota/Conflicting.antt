-- ===== src/Iota/Conflicting.antt =====
-- `_wait_for_confirmation` of src/app/services/iota_client.py on a block that the node reports as conflicting.
use ared_edge_iota_anchor.Prelude.{
  Bool, ap, sym, ◌∙◌, subst, ◌≢◌, if◌then◌else◌, ℕ, zero, suc, ◌+◌, ◌-◌, ◌≤◌, ◌<◌, ◌≡◌, ◌⊎◌, inl,
  inr, refl, false, none, some, Option, ok, err, Result, Result-cases, Exception, value_error,
  confirmation_error, leb, Bool-cases, arith,
}
use ared_edge_iota_anchor.Text.{Str, str}
use ared_edge_iota_anchor.World.Types.{
  Reply, transport_failure, get_metadata, response, Json, World, Env,
}
use ared_edge_iota_anchor.World.Exec.{seconds, continue, pure, raise, ◌>>=◌, request}
use ared_edge_iota_anchor.World.Steps.{bind-Goes}
use ared_edge_iota_anchor.Iota.Client.{
  BlockMetadata, is_state, get_block_metadata, poll, wait_rounds, wait_for_confirmation,
  ensure_connected, read_metadata, send, checked_json,
}
use ared_edge_iota_anchor.Iota.Confirmation.{Ends, wait_for_confirmation-Ends}

module _ (env : Env) where
  metadata_state :
      (b : Str)
      → ((n status : ℕ) (json : Json)
          → env.reply n (get_metadata b) ≡ response status (some json)
          → json.ledger_state ≡ some (str "conflicting"))
      → (w : World) {m : BlockMetadata} → (get_block_metadata env b w).0 ≡ ok m
      → m.ledger_inclusion_state ≡ some (str "conflicting")
  unfolding get_block_metadata send request checked_json
  metadata_state b always w {m} h =
      let went = bind-Goes (ensure_connected env) _ w h in
      let h1 = ap (λ o. o.0) (sym went.rest) ∙ h in
      of (ensure_connected env w).1 (env.reply (ensure_connected env w).1.calls (get_metadata b))
        refl h1
    where
      of :
          (v : World) (r : Reply)
          → env.reply v.calls (get_metadata b) ≡ r
          → (read_metadata env b v).0 ≡ ok m
          → m.ledger_inclusion_state ≡ some (str "conflicting")
      of v transport_failure e h = absurd (ground arith)
      of v (response status none) e h = absurd (ground arith)
      of v (response status (some json)) e h = ground (arith, always v.calls status json e)

  -- A round that reads a conflicting block is followed by another.
  never_polled :
      (b : Str)
      → ((n status : ℕ) (json : Json)
          → env.reply n (get_metadata b) ≡ response status (some json)
          → json.ledger_state ≡ some (str "conflicting"))
      → (w : World) (m : BlockMetadata) → (poll env b w).0 ≢ ok (some m)
  unfolding poll is_state
  never_polled b always w m h = elim (Result-cases (get_block_metadata env b w).0) [
    | inl (r, e) ↦
        let state = metadata_state b always w {m = r} e in
        let other : is_state (str "included") r.ledger_inclusion_state ≡ false = rw state refl in
        ground arith
    | inr (x, e) ↦ ground arith
  ]

  never_returned :
      (b : Str)
      → ((n status : ℕ) (json : Json)
          → env.reply n (get_metadata b) ≡ response status (some json)
          → json.ledger_state ≡ some (str "conflicting"))
      → (rounds timeout start_time : ℕ) (w : World) (m : BlockMetadata)
      → (wait_rounds env rounds b timeout start_time w).0 ≢ ok m
  unfolding wait_rounds
  never_returned b always zero timeout start_time w m h = absurd (ground arith)
  never_returned b always (suc rounds) timeout start_time w m h =
      elim (Bool-cases (leb (seconds timeout) (w.now - start_time))) [
        | inl late ↦ ground arith
        | inr early ↦
            of (λ v. never_returned b always rounds timeout start_time v m) (poll env b w).0 refl
              (subst
                (λ (c : Bool).
                  ((if c
                      then raise confirmation_error
                      else (poll env b >>= (λ outcome. elim outcome [
                        | some m ↦ pure m
                        | none ↦ wait_rounds env rounds b timeout start_time
                      ])))
                    w).0
                  ≡ ok m)
                early h)
      ]
    where
      of :
          ((v : World) → (wait_rounds env rounds b timeout start_time v).0 ≢ ok m)
          → (r : Result (Option BlockMetadata)) → (poll env b w).0 ≡ r
          → (continue r
              (λ outcome. elim outcome [
                | some m ↦ pure m
                | none ↦ wait_rounds env rounds b timeout start_time
              ])
              (poll env b w).1).0
            ≡ ok m
          → ⊥
      of later (ok none) e h = later (poll env b w).1 h
      of later (ok (some m')) e h = never_polled b always w m' e
      of later (err x) e h = absurd (ground arith)

  module _ (positive : 0 < env.settings.confirmation_poll_interval) where
    -- Where every reply about a block that has a body in JSON has the state "conflicting", the wait returns
    -- nothing: it raises `ConfirmationError` only when the whole timeout has passed, or `ValueError` for a
    -- reply that is no JSON.
    pub conflicting_waits :
        (b : Str) (timeout : ℕ) (w : World)
        → ((n status : ℕ) (json : Json)
            → env.reply n (get_metadata b) ≡ response status (some json)
            → json.ledger_state ≡ some (str "conflicting"))
        → (e : Exception) × ((wait_for_confirmation env b timeout w).0 ≡ err e)
          × (((e ≡ confirmation_error)
                × (w.now + seconds timeout ≤ (wait_for_confirmation env b timeout w).1.now))
              ⊎ (e ≡ value_error))
    unfolding wait_for_confirmation
    conflicting_waits b timeout w always =
        of (wait_for_confirmation env b timeout w).0
          (wait_for_confirmation-Ends env positive b timeout w) refl
      where
        of :
            (r : Result BlockMetadata)
            → Ends env b timeout w.now (r, (wait_for_confirmation env b timeout w).1)
            → (wait_for_confirmation env b timeout w).0 ≡ r
            → (e : Exception) × (r ≡ err e)
              × (((e ≡ confirmation_error)
                    × (w.now + seconds timeout ≤ (wait_for_confirmation env b timeout w).1.now))
                  ⊎ (e ≡ value_error))
        of (err e) ends h = (e, refl, ends)
        of (ok m) ends h = absurd (never_returned b always (suc timeout) timeout w.now w m h)

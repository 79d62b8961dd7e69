-- ===== src/Iota/Inclusion.antt =====
-- `_wait_for_confirmation` of src/app/services/iota_client.py when the node comes to include the block.
use ared_edge_iota_anchor.Prelude.{
  ℕ, zero, suc, ◌+◌, ◌-◌, ◌*◌, ◌≤◌, ◌<◌, ◌≡◌, ◌∙◌, ◌⊎◌, inl, inr, refl, true, false, none, some,
  Option, ok, Result, leb, Bool-cases, arith,
}
use ared_edge_iota_anchor.Text.{Str, str}
use ared_edge_iota_anchor.World.Types.{
  World, Env, Exec, Reply, transport_failure, response, Json, get_metadata,
}
use ared_edge_iota_anchor.World.Exec.{seconds, continue, pure, sleep, request}
use ared_edge_iota_anchor.Iota.Confirmation.{poll_included}
use ared_edge_iota_anchor.Iota.Client.{
  BlockMetadata, is_state, is_connected, get_block_metadata, poll, wait_rounds,
  wait_for_confirmation,
}

-- A reply that has a body in JSON, or fails with a status or on the way.
pub data IsReadable (env : Env) : Reply → Type 0 where
  lost : IsReadable env transport_failure
  failing :
      (status : ℕ) (body : Option Json)
      → env.raises_for_status status ≡ true
      → IsReadable env (response status body)
  readable :
      (status : ℕ) (json : Json)
      → env.raises_for_status status ≡ false
      → IsReadable env (response status (some json))

-- A reply that says the block is included.
pub record IsIncluded (env : Env) (r : Reply) : Type 0 where
  pub status : ℕ
  pub json : Json
  pub same : r ≡ response status (some json)
  pub passes : env.raises_for_status status ≡ false
  pub state : json.ledger_state ≡ some (str "included")

module _ (env : Env) (b : Str) where
  -- The world after a round that goes on.
  record Again (w w' : World) : Type 0 where
    calls : w'.calls ≡ w.calls + 2
    now :
        w'.now
        ≡ w.now
          + env.took w.calls
          + seconds env.settings.confirmation_poll_interval
          + env.took (suc w.calls)
    connected : is_connected w' ≡ is_connected w

  poll_round :
      (w : World)
      → is_connected w ≡ true
      → (r : Reply) → env.reply w.calls (get_metadata b) ≡ r
      → IsReadable env r
      → ((m : BlockMetadata) × ((poll env b w).0 ≡ ok (some m)))
        ⊎ (((poll env b w).0 ≡ ok none) × Again w (poll env b w).1)
  unfolding poll get_block_metadata request sleep
  poll_round w up _ e lost =
      rw (up, e) (inr (refl, record { calls = omega arith; now = omega arith; connected = refl }))
  poll_round w up _ e (failing status body h) =
      rw (up, e, h)
        (inr (refl, record { calls = omega arith; now = omega arith; connected = refl }))
  poll_round w up _ e (readable status json h) =
      elim (Bool-cases (is_state (str "included") json.ledger_state)) [
        | inl included ↦ rw (up, e, h, included) (inl (_, refl))
        | inr other ↦ elim (Bool-cases (is_state (str "conflicting") json.ledger_state)) [
          | inl conflicting ↦
              rw (up, e, h, other, conflicting)
                (inr (refl, record { calls = omega arith; now = omega arith; connected = refl }))
          | inr going ↦
              rw (up, e, h, other, going)
                (inr (refl, record { calls = omega arith; now = omega arith; connected = refl }))
        ]
      ]

  poll_last :
      (w : World)
      → is_connected w ≡ true
      → IsIncluded env (env.reply w.calls (get_metadata b))
      → (m : BlockMetadata) × ((poll env b w).0 ≡ ok (some m))
  unfolding poll get_block_metadata is_state
  poll_last w up i = rw (up, i.same, i.passes, i.state) (_, refl)

  -- The wait returns a block that is included.
  abbrev pub Arrives : Result BlockMetadata → Type 0
  Arrives r =
      (m : BlockMetadata) × (r ≡ ok m)
      × (is_state (str "included") m.ledger_inclusion_state ≡ true)
      × (m.block_id ≡ b)

  module _ (from longest : ℕ) (bounded : (n : ℕ) → env.took n ≤ longest)
      (answered : (n : ℕ) → IsReadable env (env.reply n (get_metadata b)))
      (included : (n : ℕ) → from ≤ n → IsIncluded env (env.reply n (get_metadata b))) where
    abbrev pub round_time : ℕ
    round_time = longest + longest + seconds env.settings.confirmation_poll_interval

    round-Arrives :
        (again : Exec BlockMetadata) (w : World)
        → ((m : BlockMetadata) × ((poll env b w).0 ≡ ok (some m)))
          ⊎ (((poll env b w).0 ≡ ok none) × Arrives (again (poll env b w).1).0)
        → Arrives
            (continue
              (poll env b w).0
              (λ outcome. elim outcome [ some m ↦ pure m | none ↦ again ])
              (poll env b w).1).0
    round-Arrives again w (inl (m, e)) =
        rw e (m, refl, (poll_included env b w {m = m} e).0, (poll_included env b w {m = m} e).1)
    round-Arrives again w (inr (e, rest)) = rw e rest

    wait_rounds-Arrives :
        (k rounds timeout start_time : ℕ) (w : World)
        → is_connected w ≡ true
        → start_time ≤ w.now
        → from ≤ w.calls + 2 * k
        → k ≤ rounds
        → w.now + k * round_time < start_time + seconds timeout
        → Arrives (wait_rounds env (suc rounds) b timeout start_time w).0
    unfolding wait_rounds
    wait_rounds-Arrives zero rounds timeout start_time w up begun near enough early =
        let on_time : leb (seconds timeout) (w.now - start_time) ≡ false = ground arith in
        rw on_time (round-Arrives _ w (inl (poll_last w up (included w.calls (omega arith)))))
    wait_rounds-Arrives (suc k) (suc rounds) timeout start_time w up begun near enough early =
        let on_time : leb (seconds timeout) (w.now - start_time) ≡ false = ground arith in
        rw on_time (
          round-Arrives _ w (elim (poll_round w up _ refl (answered w.calls)) [
            | inl arrived ↦ inl arrived
            | inr (e, again) ↦ inr (
              e,
              wait_rounds-Arrives k rounds timeout start_time (poll env b w).1
                  (again.connected ∙ up) (omega (arith, again.now)) (omega (arith, again.calls))
                  (omega arith) (omega (arith, again.now, bounded w.calls, bounded (suc w.calls))),
            )
          ]))
    wait_rounds-Arrives (suc k) zero timeout start_time w up begun near enough early =
        absurd (omega arith)

    -- Where no reply about a block has a body that is no JSON, each call takes a bounded time, and from
    -- some call on the node says that the block is included: a client that is connected and whose timeout
    -- is longer than the rounds up to that call returns metadata of the block in state "included".
    pub wait_for_confirmation-Arrives :
        (k timeout : ℕ) (w : World)
        → is_connected w ≡ true
        → from ≤ w.calls + 2 * k
        → k ≤ timeout
        → k * round_time < seconds timeout
        → Arrives (wait_for_confirmation env b timeout w).0
    unfolding wait_for_confirmation
    wait_for_confirmation-Arrives k timeout w up near enough early =
        wait_rounds-Arrives k timeout timeout w.now w up (omega arith) near enough (omega arith)

-- ===== src/System/Probing.antt =====
-- The answers of the probes of src/app/main.py.
use ared_edge_iota_anchor.Prelude.{
  ◌≡◌, refl, true, false, Bool-cases, inl, inr, Option, some, none, ok, if◌then◌else◌,
}
use ared_edge_iota_anchor.World.Types.{World, Env}
use ared_edge_iota_anchor.World.Exec.{gets, pure, ◌>>=◌, ◌>>◌}
use ared_edge_iota_anchor.World.Frame.{Respects, Quiet}
use ared_edge_iota_anchor.World.Returns.{
  Returns, Anything, Returns-pure, Returns-bind, Returns-if, Returns-caught,
}
use ared_edge_iota_anchor.Iota.Client.{is_connected, check_health, get_node_info}
use ared_edge_iota_anchor.Iota.Quiet.{client_rules, check_health-Quiet, get_node_info-Quiet}
use ared_edge_iota_anchor.Service.Anchors.{get_node_status, NodeStatus}
use ared_edge_iota_anchor.System.Session.{touch}
use ared_edge_iota_anchor.System.Jobs.{App}
use ared_edge_iota_anchor.System.Probes.{IotaStatus, failing, health, ready, status}

module _ (env : Env) where
  node-Quiet : Respects Quiet (get_node_status env)
  unfolding get_node_status
  node-Quiet = search (client_rules, check_health-Quiet, get_node_info-Quiet) depth 9

  node-Returns : Returns Anything (get_node_status env)
  unfolding get_node_status
  node-Returns =
      Returns-bind Anything {Q = Anything} (gets is_connected) _
        (record { at = λ w. (is_connected w, refl, tt) })
        (λ up.
          Returns-if Anything up _ _
            (Returns-caught
              (do
                get_node_info env
                healthy ← check_health env
                pure (record { connected = true; is_healthy = some healthy; error = none }))
              (λ e. record { connected = false; is_healthy = none; error = some (env.describe e) }))
            (Returns-pure Anything (record { connected = false; is_healthy = none; error = none })
              tt))

  health-Returns : (app : App) → Returns Anything (health env app)
  unfolding health
  health-Returns app =
      Returns-if Anything app.has_service _ _
        (Returns-caught _ (λ e. (failing, record app { node_connected = 0 })))
        (Returns-pure Anything _ tt)

  health-Quiet : (app : App) → Respects Quiet (health env app)
  unfolding health
  health-Quiet app = search (client_rules, node-Quiet)

  status-Returns : (app : App) → Returns Anything (status env app)
  unfolding status
  status-Returns app =
      Returns-if Anything app.has_service _ _
        (Returns-bind Anything _ _ node-Returns (λ node. Returns-pure Anything (some node) tt))
        (Returns-pure Anything none tt)

  status-Quiet : (app : App) → Respects Quiet (status env app)
  unfolding status
  status-Quiet app = search (client_rules, node-Quiet)

  ready-answers :
      (w : World)
      → ((ready env w).0 ≡ ok (if env.fault w.calls then 503 else 200))
        × ((ready env w).1.committed ≡ w.committed)
  unfolding ready touch
  ready-answers w = elim (Bool-cases (env.fault w.calls)) [
    | inl fails ↦ rw fails (refl, refl)
    | inr runs ↦ rw runs (refl, refl)
  ]

  -- The probes never raise: `/ready` is 200 where its statement is answered and 503 where it is not,
  -- `/health` and `/status` answer whatever the node does, and none of them changes the stored tables.
  pub probes_return :
      (app : App) (w : World)
      → ((ready env w).0 ≡ ok (if env.fault w.calls then 503 else 200))
        × ((ready env w).1.committed ≡ w.committed)
        × ((h : IotaStatus × App) × ((health env app w).0 ≡ ok h))
        × ((health env app w).1.committed ≡ w.committed)
        × ((s : Option NodeStatus) × ((status env app w).0 ≡ ok s))
        × ((status env app w).1.committed ≡ w.committed)
  probes_return app w =
      let (is_ready, kept) = ready-answers w in
      let (h, healthy, _) = (health-Returns app).at w in
      let (s, told, _) = (status-Returns app).at w in
      (
        is_ready,
        kept,
        (h, healthy),
        ((health-Quiet app).at w).same_committed,
        (s, told),
        ((status-Quiet app).at w).same_committed,
      )

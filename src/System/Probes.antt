-- ===== src/System/Probes.antt =====
-- The probes of `create_application` in src/app/main.py.
use ared_edge_iota_anchor.Prelude.{ℕ, Bool, true, false, Option, none, some, if◌then◌else◌}
use ared_edge_iota_anchor.World.Types.{Env, Exec}
use ared_edge_iota_anchor.World.Exec.{◌>>=◌, ◌>>◌, pure, try_except, with_session}
use ared_edge_iota_anchor.Service.Anchors.{NodeStatus, get_node_status}
use ared_edge_iota_anchor.System.Session.{touch}
use ared_edge_iota_anchor.System.Jobs.{App}

-- `iota_status` of the answer of `/health`.
pub data IotaStatus : Type 0 where
  unknown connected disconnected failing : IotaStatus

abbrev status_of : Bool → IotaStatus
status_of true = connected
status_of false = disconnected

abbrev gauge_of : Bool → ℕ
gauge_of true = 1
gauge_of false = 0

module _ (env : Env) where
  -- The answer is always "healthy"; what varies is the node's status, and the gauge.
  unfoldable pub health : App → Exec (IotaStatus × App)
  health app =
      if app.has_service
      then try_except
          (do
            node ← get_node_status env
            pure
                (status_of node.connected, record app { node_connected = gauge_of node.connected }))
          (λ e. pure (failing, record app { node_connected = 0 }))
      else pure (unknown, app)

  -- The status code.
  unfoldable pub ready : Exec ℕ
  unfolding with_session
  ready = try_except (do with_session (touch env); pure 200) (λ e. pure 503)

  unfoldable pub live : Exec ℕ
  live = pure 200

  -- `none`: the answer says that the service is not initialized.
  unfoldable pub status : App → Exec (Option NodeStatus)
  status app =
      if app.has_service then (do node ← get_node_status env; pure (some node)) else pure none

-- ===== src/System/Keeping.antt =====
-- Which actions keep the tables intact, in the session and as they are stored.
use ared_edge_iota_anchor.Prelude.{
  ℕ, ◌≡◌, refl, sym, subst, Bool-cases, inl, inr, List, Option, Result, arith,
}
use ared_edge_iota_anchor.Text.{Str}
use ared_edge_iota_anchor.Anchor.{AnchorRecord, AnchorStatus, to_row}
use ared_edge_iota_anchor.World.Types.{ItemRow, World, Tables, Env, Exec}
use ared_edge_iota_anchor.World.Exec.{
  execute, commit, try_advisory_lock, advisory_unlock, with_session, uuid4,
}
use ared_edge_iota_anchor.World.Frame.{
  uuid4-Quiet, IsPreorder, Respects, Quiet, frame_rules, Respects-bind, Respects-pure,
  Respects-lift, Respects-gets, Respects-try, Respects-finally, Respects-if,
}
use ared_edge_iota_anchor.Repository.Anchors.{
  save_anchor, find_anchor_by_digest_and_window, update_anchor_status, list_anchors,
}
use ared_edge_iota_anchor.Repository.Items.{save_anchor_item, stored_proof, insert_item}
use ared_edge_iota_anchor.Repository.Integrity.{Intact, Keeps, upsert-Keeps, insert_item-Keeps}
use ared_edge_iota_anchor.Repository.Statuses.{update-Keeps}
use ared_edge_iota_anchor.Consumer.{Position, fetch_events_for_window, get_last_anchor_time}

-- The tables are intact, in the session and as they are stored.
pub record Whole (w : World) : Type 0 where
  pub session : Intact w.tables
  pub stored : Intact w.committed

pub record Keeping (w w' : World) : Type 0 where
  pub whole : Whole w → Whole w'

pub Keeping-IsPreorder : IsPreorder Keeping
Keeping-IsPreorder = record {
  refl_lem = λ w. record { whole = λ h. h };
  trans_lem = λ u v w p q. record { whole = λ h. q.whole (p.whole h) };
}

-- Worlds with the same tables.
pub same-Keeping : (w w' : World) → w'.tables ≡ w.tables → w'.committed ≡ w.committed → Keeping w w'
same-Keeping w w' e1 e2 = record {
  whole = λ h. record {
    session = subst Intact (sym e1) h.session;
    stored = subst Intact (sym e2) h.stored;
  };
}

pub Quiet-Keeping : {A : Type 0} (m : Exec A) → Respects Quiet m → Respects Keeping m
Quiet-Keeping m h = record {
  at = λ w. same-Keeping w (m w).1 (h.at w).same_tables (h.at w).same_committed;
}

module _ (env : Env) where
  pub execute-Keeping :
      {A : Type 0} (query : Tables → Result A × Tables)
      → Keeps query
      → Respects Keeping (execute env query)
  unfolding execute
  execute-Keeping query k = record {
    at = λ w. record {
      whole = λ h. elim (Bool-cases (env.fault w.calls)) [
        | inl fails ↦ rw fails (record { session = h.session; stored = h.stored })
        | inr runs ↦ rw runs (record { session = k w.tables h.session; stored = h.stored })
      ];
    };
  }

  pub commit-Keeping : Respects Keeping (commit env)
  unfolding commit
  commit-Keeping = record {
    at = λ w. record {
      whole = λ h. elim (Bool-cases (env.fault w.calls)) [
        | inl fails ↦ rw fails (record { session = h.session; stored = h.stored })
        | inr runs ↦ rw runs (record { session = h.session; stored = h.session })
      ];
    };
  }

  pub lock-Keeping : Respects Keeping (try_advisory_lock env)
  unfolding try_advisory_lock
  lock-Keeping = record { at = λ w. same-Keeping w _ (ground arith) (ground arith) }

  pub unlock-Keeping : Respects Keeping (advisory_unlock env)
  unfolding advisory_unlock
  unlock-Keeping = record { at = λ w. same-Keeping w _ (ground arith) (ground arith) }

pub session-Keeping :
    {A : Type 0} (m : Exec A) → Respects Keeping m → Respects Keeping (with_session m)
unfolding with_session
session-Keeping m h = record {
  at = λ w. record {
    whole = λ v.
        let after =
          (h.at (record w { tables = w.committed })).whole
            (record { session = v.stored; stored = v.stored }) in
        record { session = after.stored; stored = after.stored };
  };
}

pub ruleset keeping_rules = (frame_rules, Keeping-IsPreorder, execute-Keeping, commit-Keeping)

module _ (env : Env) where
  pub save_anchor-Keeping : (a : AnchorRecord) → Respects Keeping (save_anchor env a)
  unfolding save_anchor to_row
  save_anchor-Keeping a = execute-Keeping env _ (upsert-Keeps (to_row a) (a.status, refl))

  pub save_item-Keeping :
      (anchor_id : ℕ) (event_hash : Str) (position : ℕ) (event_id : Option ℕ)
      (path : Option (List Str))
      → Respects Keeping (save_anchor_item env anchor_id event_hash position event_id path)
  unfolding save_anchor_item
  save_item-Keeping anchor_id event_hash position event_id path =
      Respects-bind Keeping-IsPreorder _ _ (Quiet-Keeping (uuid4 env) (uuid4-Quiet env)) (λ id.
        Respects-bind Keeping-IsPreorder _ _ (Respects-gets Keeping-IsPreorder (λ w. w.now))
          (λ now. execute-Keeping env (insert_item (new id now)) (insert_item-Keeps (new id now))))
    where
      new : (id now : ℕ) → ItemRow
      new id now = record {
        id = id;
        anchor_id = anchor_id;
        event_id = event_id;
        event_hash = event_hash;
        position_in_merkle = position;
        merkle_proof = stored_proof path;
        created_at = now;
      }

  pub update-Keeping :
      (anchor_id : ℕ) (status : AnchorStatus) (block error_message : Option Str)
      → Respects Keeping (update_anchor_status env anchor_id status block error_message)
  unfolding update_anchor_status
  update-Keeping anchor_id status block error_message = search (keeping_rules, update-Keeps)

  pub find-Keeping :
      (digest : Str) (start_time end_time : ℕ)
      → Respects Keeping (find_anchor_by_digest_and_window env digest start_time end_time)
  unfolding find_anchor_by_digest_and_window
  find-Keeping digest start_time end_time = search keeping_rules

  pub list-Keeping :
      (status : Option Str) (limit offset : ℕ)
      → Respects Keeping (list_anchors env status limit offset)
  unfolding list_anchors
  list-Keeping status limit offset = search keeping_rules

  pub fetch-Keeping :
      (position : Position) (start_time end_time : ℕ) (pallets : List Str)
      → Respects Keeping (fetch_events_for_window env position start_time end_time pallets)
  unfolding fetch_events_for_window
  fetch-Keeping position start_time end_time pallets = search keeping_rules

  pub last-Keeping : Respects Keeping (get_last_anchor_time env)
  unfolding get_last_anchor_time
  last-Keeping = search keeping_rules

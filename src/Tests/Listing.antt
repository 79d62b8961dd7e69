-- ===== src/Tests/Listing.antt =====
-- The theorems on listings, fetched events and delays at concrete inputs.
use ared_edge_iota_anchor.Prelude.{
  ℕ, arith, ◌+◌, ◌≤◌, ◌≡◌, refl, map, true, List, [], ◌∷◌, ◌++◌, none, some, ok, false, ltb, take,
  drop, length, All,
}
use ared_edge_iota_anchor.Text.{str, str_eq}
use ared_edge_iota_anchor.Anchor.{confirmed, to_row}
use ared_edge_iota_anchor.World.Types.{World, IndexedEvent}
use ared_edge_iota_anchor.Repository.Anchors.{has_window, has_id}
use ared_edge_iota_anchor.Repository.Integrity.{Intact}
use ared_edge_iota_anchor.Consumer.{fetch_unanchored_events}
use ared_edge_iota_anchor.Workflow.Job.{anchor_window}
use ared_edge_iota_anchor.Workflow.Refetch.{stored_window_leaves}
use ared_edge_iota_anchor.Reconciliation.Retry.{calculate_backoff}
use ared_edge_iota_anchor.Reconciliation.Backoff.{doubled, calculate_backoff-doubles}
use ared_edge_iota_anchor.Api.Queries.{list_anchors_endpoint}
use ared_edge_iota_anchor.Api.Paging.{page_of, row_response, listed, list_anchors_endpoint-page}
use ared_edge_iota_anchor.Tests.Fixture.{
  some_anchor, toy_env, toy_world, toy_tables, toy_retrying-IsRetrying, event_of,
}
use ared_edge_iota_anchor.Text.{split_once}
use ared_edge_iota_anchor.Text.Hex.{hexlify, IsByte}
use ared_edge_iota_anchor.Iota.Message.{to_bytes}
use ared_edge_iota_anchor.Service.Posting.{message, rest, posted_digest}
use ared_edge_iota_anchor.Tests.Runs.{some_window, some_tree, window_run}

calculate_backoff-doubles_example :
    (calculate_backoff toy_env 3 ≡ doubled toy_env 3)
    × (calculate_backoff toy_env 3 ≤ 3600)
    × (calculate_backoff toy_env 3 ≤ calculate_backoff toy_env 4)
calculate_backoff-doubles_example = calculate_backoff-doubles toy_env 3

-- Two anchors are stored.
abbrev stored_world : World
stored_world = record toy_world {
  committed = record toy_tables {
    anchors = to_row some_anchor ∷ to_row (record some_anchor { id = 8; digest = str "cd" }) ∷ [];
  };
}

stored_world-Intact : Intact stored_world.committed
unfolding has_window str_eq to_row has_id
stored_world-Intact = record {
  windows = ((refl, tt), (tt, tt));
  ids = ((refl, tt), (tt, tt));
  readable = ((confirmed, refl), ((confirmed, refl), tt));
  owned = tt;
}

list_anchors_endpoint-page_example :
    (list_anchors_endpoint toy_env (some (str "confirmed")) 1 0 stored_world).0
    ≡ page_of
        (map row_response
          (take 1 (drop 0 (listed (some (str "confirmed")) stored_world.committed))))
        (length (listed (some (str "confirmed")) stored_world.committed))
        1
        0
        (ltb (0 + 1) (length (listed (some (str "confirmed")) stored_world.committed)))
list_anchors_endpoint-page_example =
    list_anchors_endpoint-page toy_env (some (str "confirmed")) 1 0 stored_world stored_world-Intact
      (λ n. refl)

-- A world whose items are the stored ones.
abbrev later_world : World
later_world = record toy_world {
  tables = record toy_tables {
    items =
        (anchor_window toy_env 5000 1000 2000 true some_window some_tree.0
          toy_world).1.committed.items
        ++ [];
  };
}

fetched_later :
    (events : List IndexedEvent) × ((fetch_unanchored_events toy_env none 10 later_world).0
      ≡ ok events)
unfolding fetch_unanchored_events
fetched_later = (_, refl)

stored_window_leaves_example :
    All (λ (f : IndexedEvent). str_eq (event_of 2).event_hash f.event_hash ≡ false) fetched_later.0
stored_window_leaves_example =
    stored_window_leaves toy_env toy_retrying-IsRetrying 2 refl 5000 1000 2000 true some_window
      some_tree.0 toy_world none 10 later_world [] 1 (event_of 2) some_tree.1 window_run.1 refl
      fetched_later.1 refl

two_bytes : All IsByte (0xde ∷ 0xad ∷ [])
two_bytes = (omega arith, (omega arith, tt))

posted_digest_example :
    let m = message (0xde ∷ 0xad ∷ []) two_bytes 2 100 200 300 in
    (posted : List ℕ) × (to_bytes m ≡ ok posted)
    × (split_once b'"' (drop 11 posted)
        ≡ some (str "dead", rest (0xde ∷ 0xad ∷ []) two_bytes 2 100 200 300))
unfolding hexlify
posted_digest_example = posted_digest (0xde ∷ 0xad ∷ []) two_bytes 2 100 200 300

-- ===== src/Tests/Stores.antt =====
-- The theorems on the repository, the event consumer and the retries at concrete inputs.
use ared_edge_iota_anchor.Prelude.{
  All, ◌==◌, inl, arith, ◌≡◌, refl, Bool, [], none, some, ok, Option, length, keep, true, false,
  find, ◌⊎◌,
}
use ared_edge_iota_anchor.Anchor.{
  AnchorRecord, to_row, from_row, parse_status, AnchorRow, confirmed,
}
use ared_edge_iota_anchor.World.Types.{IndexedEvent, World}
use ared_edge_iota_anchor.Text.{str, str_eq}
use ared_edge_iota_anchor.Repository.Updated.{HasStatus, updated_row}
use ared_edge_iota_anchor.Repository.Anchors.{
  has_id, update_anchor_status, save_anchor, find_anchor_by_digest_and_window,
}
use ared_edge_iota_anchor.Repository.Saved.{find_anchor-save_anchor}
use ared_edge_iota_anchor.Consumer.{EventWindow, Position, fetch_events_for_window}
use ared_edge_iota_anchor.Consumer.Wanted.{Ordered, IsWanted}
use ared_edge_iota_anchor.Consumer.Window.{fetched_window}
use ared_edge_iota_anchor.Reconciliation.Retry.{
  gave_up, process_pending_anchor, get_retry_count, get_last_attempt_time, try_again, retry_anchor,
  record_failure,
}
use ared_edge_iota_anchor.Reconciliation.Failures.{failing_retry_uncounted}
use ared_edge_iota_anchor.Tests.Fixture.{
  toy_env, down_env, toy_world, some_anchor, toy_retrying-IsRetrying,
}
use ared_edge_iota_anchor.Service.Anchors.{create_anchor, post_record, posting_failed}
use ared_edge_iota_anchor.Iota.Client.{post_anchor, ensure_connected}

saved : (save_anchor toy_env some_anchor toy_world).0 ≡ ok 7
unfolding save_anchor to_row
saved = refl

searched :
    (found : Option AnchorRecord) × ((find_anchor_by_digest_and_window toy_env some_anchor.digest
        some_anchor.start_time some_anchor.end_time
        (save_anchor toy_env some_anchor toy_world).1).0
      ≡ ok found)
unfolding save_anchor find_anchor_by_digest_and_window str_eq to_row from_row parse_status
searched = (_, refl)

find_anchor-save_anchor_example :
    (b : AnchorRecord) × (searched.0 ≡ some b)
    × (b.id ≡ 7)
    × (b.status ≡ some_anchor.status)
    × (b.iota_block_id ≡ some_anchor.iota_block_id)
    × (b.posted_at ≡ some_anchor.posted_at)
    × (b.confirmed_at ≡ some_anchor.confirmed_at)
find_anchor-save_anchor_example =
    find_anchor-save_anchor toy_env some_anchor toy_world saved searched.1

abbrev at_start : Position
at_start = record { last_block = none; last_timestamp = none }

fetched_events :
    (fetched : EventWindow × Position) × ((fetch_events_for_window toy_env at_start 1000 1003 []
        toy_world).0
      ≡ ok fetched)
unfolding fetch_events_for_window
fetched_events = (_, refl)

-- The events of the second 1001.
abbrev at_1001 : IndexedEvent → Bool
at_1001 e = e.timestamp == 1001

fetched_window_example :
    Ordered fetched_events.0.0.events
    × All (IsWanted 1000 1003 []) fetched_events.0.0.events
    × (length (keep at_1001 fetched_events.0.0.events)
        ≡ length (keep at_1001 toy_world.tables.events))
fetched_window_example =
    fetched_window toy_env at_start 1000 1003 [] toy_world at_1001
      (λ e h. (ground arith, ground arith, inl refl)) fetched_events.1

failing : (process_pending_anchor down_env some_anchor toy_world).0 ≡ ok gave_up
unfolding process_pending_anchor get_retry_count get_last_attempt_time try_again retry_anchor
    create_anchor post_record post_anchor ensure_connected posting_failed record_failure
    update_anchor_status
failing = refl

failing_retry_uncounted_example :
    (process_pending_anchor down_env some_anchor toy_world).1.tables.retries
    ≡ toy_world.tables.retries
failing_retry_uncounted_example =
    failing_retry_uncounted down_env toy_retrying-IsRetrying 2 refl some_anchor toy_world failing

abbrev stored_world : World
stored_world = (save_anchor toy_env some_anchor toy_world).1

updated : (update_anchor_status toy_env 7 confirmed (some (str "b2")) none stored_world).0 ≡ ok true
unfolding update_anchor_status save_anchor to_row
updated = refl

updated_row_example :
    let w' = (update_anchor_status toy_env 7 confirmed (some (str "b2")) none stored_world).1 in
    ((row : AnchorRow) × (true ≡ true)
      × (find (has_id 7) stored_world.tables.anchors ≡ some row)
      × ((row' : AnchorRow) × (find (has_id 7) w'.committed.anchors ≡ some row')
          × HasStatus confirmed (some (str "b2")) none stored_world.now row row'))
    ⊎ ((true ≡ false) × (w'.committed.anchors ≡ stored_world.tables.anchors))
updated_row_example = updated_row toy_env 7 confirmed (some (str "b2")) none stored_world updated

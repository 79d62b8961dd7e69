-- ===== src/Consumer.antt =====
-- `EventWindow` and `EventConsumer` of src/app/services/event_consumer.py, on the tables
-- `indexed_events`, `anchor_items` and `anchors`.
pub mod Wanted
pub mod Window
use ared_edge_iota_anchor.Prelude.{
  ℕ, Bool, true, false, ◌&&◌, ◌||◌, not, List, [], ◌∷◌, map, Option, none, some, ok, consumer_error,
  length, take, keep, sort_by, ltb, leb, ◌==◌,
}
use ared_edge_iota_anchor.Text.{Str, str_eq}
use ared_edge_iota_anchor.Anchor.{AnchorRow, status_value, posted, confirmed}
use ared_edge_iota_anchor.World.Types.{IndexedEvent, ItemRow, Env, Exec}
use ared_edge_iota_anchor.World.Exec.{pure, raise, ◌>>=◌, try_except, execute}

pub record EventWindow : Type 0 where
  pub start_time : ℕ
  pub end_time : ℕ
  pub events : List IndexedEvent

unfoldable pub event_count : EventWindow → ℕ
event_count window = length window.events

unfoldable pub event_hashes : EventWindow → List Str
event_hashes window = map (λ (e : IndexedEvent). e.event_hash) window.events

unfoldable pub is_empty : EventWindow → Bool
is_empty window = length window.events == 0

-- The fields `_last_block` and `_last_timestamp`.
pub record Position : Type 0 where
  pub last_block : Option ℕ
  pub last_timestamp : Option ℕ

abbrev last_event : List IndexedEvent → Option IndexedEvent
last_event [] = none
last_event (e ∷ []) = some e
last_event (e ∷ f ∷ es) = last_event (f ∷ es)

-- The position moves only where there are events.
unfoldable pub advance : Position → List IndexedEvent → Position
advance position events = elim (last_event events) [
  | none ↦ position
  | some e ↦ record { last_block = some e.block_number; last_timestamp = some e.timestamp }
]

-- `ORDER BY block_number, event_index`.
unfoldable pub in_order : IndexedEvent → IndexedEvent → Bool
in_order a b =
    ltb a.block_number b.block_number
    || ((a.block_number == b.block_number) && leb a.event_index b.event_index)

unfoldable pub member : List Str → Str → Bool
member [] s = false
member (p ∷ ps) s = str_eq p s || member ps s

-- `if pallets:` an empty list is no filter.
unfoldable pub in_pallets : List Str → IndexedEvent → Bool
unfolding member
in_pallets [] e = true
in_pallets (p ∷ ps) e = member (p ∷ ps) e.pallet

-- The WHERE clause: the window holds its start and not its end.
unfoldable pub in_window : (start_time end_time : ℕ) → List Str → IndexedEvent → Bool
unfolding in_pallets
in_window start_time end_time pallets e =
    leb start_time e.timestamp && (ltb e.timestamp end_time && in_pallets pallets e)

unfoldable pub anchored : List ItemRow → Str → Bool
anchored [] h = false
anchored (item ∷ items) h = str_eq item.event_hash h || anchored items h

abbrev pub after_start : Option ℕ → IndexedEvent → Bool
after_start none e = true
after_start (some since) e = leb since e.timestamp

-- `status IN ('posted', 'confirmed')`.
unfoldable pub is_anchored_row : AnchorRow → Bool
is_anchored_row row =
    str_eq row.status (status_value posted) || str_eq row.status (status_value confirmed)

abbrev first_end : List AnchorRow → Option ℕ
first_end [] = none
first_end (row ∷ rows) = some row.end_time

module _ (env : Env) where
  unfoldable pub fetch_events_for_window :
      Position → (start_time end_time : ℕ) (pallets : List Str) → Exec (EventWindow × Position)
  unfolding in_window in_order advance execute
  fetch_events_for_window position start_time end_time pallets =
      try_except
        (do
          events ← execute env (λ t.
              (ok (sort_by in_order (keep (in_window start_time end_time pallets) t.events)), t))
          pure (
            record { start_time = start_time; end_time = end_time; events = events },
            advance position events,
          ))
        (λ e. raise consumer_error)

  unfoldable pub fetch_unanchored_events : (since : Option ℕ) (limit : ℕ) → Exec (List IndexedEvent)
  unfolding in_order anchored execute
  fetch_unanchored_events since limit =
      try_except
        (execute env (λ t. (
          ok (
              take limit (
                sort_by in_order (
                  keep (λ e. not (anchored t.items e.event_hash) && after_start since e)
                    t.events))),
          t,
        )))
        (λ e. raise consumer_error)

  -- Any failure reads as "no anchor".
  unfoldable pub get_last_anchor_time : Exec (Option ℕ)
  unfolding is_anchored_row execute
  get_last_anchor_time =
      try_except
        (execute env (λ t. (
          ok (
              first_end (
                sort_by (λ (a : AnchorRow) (b : AnchorRow). leb b.end_time a.end_time)
                  (keep is_anchored_row t.anchors))),
          t,
        )))
        (λ e. pure none)

  unfoldable pub get_event_count_since : (since : ℕ) → Exec ℕ
  unfolding execute
  get_event_count_since since =
      try_except
        (execute env
          (λ t. (ok (length (keep (λ (e : IndexedEvent). leb since e.timestamp) t.events)), t)))
        (λ e. pure 0)

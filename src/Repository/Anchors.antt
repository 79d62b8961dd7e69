-- ===== src/Repository/Anchors.antt =====
-- The methods of `AnchorRepository` on the table `anchors`. A SQL statement is a function of the
-- tables; it raises where a constraint of the schema fails, and where `Env.fault` says so.
use ared_edge_iota_anchor.Prelude.{
  ℕ, Bool, true, false, ◌&&◌, List, [], ◌∷◌, ◌++◌, Option, none, some, Result, ok, err,
  database_error, length, take, drop, keep, find, update_where, sort_by, leb, ◌==◌,
}
use ared_edge_iota_anchor.Text.{Str, str_eq}
use ared_edge_iota_anchor.Anchor.{
  AnchorRecord, AnchorRow, AnchorStatus, pending, posted, confirmed, failed, status_value, to_row,
  from_row,
}
use ared_edge_iota_anchor.World.Types.{Tables, Env, Exec}
use ared_edge_iota_anchor.World.Exec.{◌>>=◌, ◌>>◌, pure, lift, utcnow, execute, commit}

unfoldable pub has_window : (digest : Str) (start_time end_time : ℕ) → AnchorRow → Bool
has_window digest start_time end_time row =
    str_eq row.digest digest && (row.start_time == start_time) && (row.end_time == end_time)

unfoldable pub has_id : ℕ → AnchorRow → Bool
has_id id row = row.id == id

-- `ON CONFLICT (digest, start_time, end_time) DO UPDATE SET`: what the old row takes from the new one.
unfoldable pub excluded : AnchorRow → AnchorRow → AnchorRow
excluded new old = record old {
  status = new.status;
  iota_block_id = new.iota_block_id;
  iota_network = new.iota_network;
  explorer_url = new.explorer_url;
  error_message = new.error_message;
  posted_at = new.posted_at;
  confirmed_at = new.confirmed_at;
}

-- The INSERT of `save_anchor`: the window is unique, and so is the id.
unfoldable pub upsert : AnchorRow → Tables → Result ℕ × Tables
unfolding has_window has_id excluded
upsert row t = elim (find (has_window row.digest row.start_time row.end_time) t.anchors) [
  | some old ↦ (
    ok old.id,
    record t {
      anchors =
          update_where (has_window row.digest row.start_time row.end_time) (excluded row) t.anchors;
    },
  )
  | none ↦ elim (find (has_id row.id) t.anchors) [
    | some other ↦ (err database_error, t)
    | none ↦ (ok row.id, record t { anchors = t.anchors ++ row ∷ [] })
  ]
]

abbrev pub optional : {A B : Type 0} → (A → Result B) → Option A → Result (Option B)
optional f none = ok none
optional f (some a) = elim (f a) [ ok b ↦ ok (some b) | err e ↦ err e ]

unfoldable pub from_rows : List AnchorRow → Result (List AnchorRecord)
from_rows [] = ok []
from_rows (row ∷ rows) = elim (from_row row) [
  | err e ↦ err e
  | ok a ↦ elim (from_rows rows) [ err e ↦ err e | ok as' ↦ ok (a ∷ as') ]
]

-- Python's truth of an optional text.
abbrev pub truthy : Option Str → Option Str
truthy (some (c ∷ s)) = some (c ∷ s)
truthy _ = none

-- `ORDER BY created_at DESC`.
unfoldable pub newest_first : AnchorRow → AnchorRow → Bool
newest_first a b = leb b.created_at a.created_at

unfoldable pub with_filter : Option Str → List AnchorRow → List AnchorRow
with_filter none rows = rows
with_filter (some status) rows = keep (λ (row : AnchorRow). str_eq row.status status) rows

-- The SET list of `update_anchor_status` at the clock's reading `now`.
unfoldable pub set_status : AnchorStatus → Option Str → Option Str → ℕ → AnchorRow → AnchorRow
set_status posted (some (c ∷ block)) error_message now row = record row {
  status = status_value posted;
  iota_block_id = some (c ∷ block);
  posted_at = some now;
}
set_status confirmed iota_block_id error_message now row = record row {
  status = status_value confirmed;
  confirmed_at = some now;
}
set_status failed iota_block_id (some (c ∷ text)) now row = record row {
  status = status_value failed;
  error_message = some (c ∷ text);
}
set_status status iota_block_id error_message now row = record row { status = status_value status }

module _ (env : Env) where
  unfoldable pub save_anchor : AnchorRecord → Exec ℕ
  unfolding upsert execute
  save_anchor anchor = execute env (upsert (to_row anchor))

  unfoldable pub find_anchor_by_digest_and_window :
      (digest : Str) (start_time end_time : ℕ) → Exec (Option AnchorRecord)
  unfolding has_window execute
  find_anchor_by_digest_and_window digest start_time end_time = do
    row ← execute env (λ t. (ok (find (has_window digest start_time end_time) t.anchors), t))
    lift (optional from_row row)

  unfoldable pub get_anchor : ℕ → Exec (Option AnchorRecord)
  unfolding has_id execute
  get_anchor anchor_id = do
    row ← execute env (λ t. (ok (find (has_id anchor_id) t.anchors), t))
    lift (optional from_row row)

  unfoldable pub list_anchors : (status : Option Str) (limit offset : ℕ) → Exec (List AnchorRecord)
  unfolding newest_first with_filter from_rows execute
  list_anchors status limit offset = do
    rows ← execute env (λ t. (
      ok (take limit (drop offset (sort_by newest_first (with_filter (truthy status) t.anchors)))),
      t,
    ))
    lift (from_rows rows)

  unfoldable pub update_anchor_status :
      (anchor_id : ℕ) (status : AnchorStatus) (iota_block_id error_message : Option Str) → Exec Bool
  unfolding set_status has_id execute commit
  update_anchor_status anchor_id status iota_block_id error_message = do
    now ← utcnow
    row ← execute env (λ t. (
      ok (find (has_id anchor_id) t.anchors),
      record t {
        anchors =
            update_where (has_id anchor_id) (set_status status iota_block_id error_message now)
              t.anchors;
      },
    ))
    commit env
    pure (elim row [ none ↦ false | some _ ↦ true ])

  unfoldable pub get_pending_anchors : Exec (List AnchorRecord)
  unfolding list_anchors
  get_pending_anchors = list_anchors (some (status_value pending)) 100 0

  unfoldable pub get_failed_anchors : Exec (List AnchorRecord)
  unfolding list_anchors
  get_failed_anchors = list_anchors (some (status_value failed)) 100 0

  unfoldable pub count_anchors : (status : Option Str) → Exec ℕ
  unfolding with_filter execute
  count_anchors status = execute env (λ t. (ok (length (with_filter (truthy status) t.anchors)), t))

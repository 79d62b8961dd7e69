-- ===== src/Repository/Reading.antt =====
-- The statements of src/app/db/repository.py that read records, on intact tables.
use ared_edge_iota_anchor.Prelude.{
  ℕ, ◌≡◌, refl, Bool, false, List, [], ◌∷◌, Option, none, some, ok, All, find,
}
use ared_edge_iota_anchor.Text.{Str}
use ared_edge_iota_anchor.Anchor.{AnchorRecord, AnchorRow, with_status, from_row}
use ared_edge_iota_anchor.World.Types.{World, Env}
use ared_edge_iota_anchor.World.Exec.{execute}
use ared_edge_iota_anchor.Repository.Anchors.{
  has_window, has_id, with_filter, truthy, optional, from_rows, newest_first, get_anchor,
  find_anchor_by_digest_and_window, list_anchors,
}
use ared_edge_iota_anchor.Repository.Saved.{from_row_of, optional_of}
use ared_edge_iota_anchor.Repository.Rows.{keep-All, take-All, drop-All, sort-All, find-All}
use ared_edge_iota_anchor.Repository.Integrity.{IsReadable, Intact}

from_row-IsReadable :
    (row : AnchorRow) → IsReadable row → (a : AnchorRecord) × (from_row row ≡ ok a)
from_row-IsReadable row (s, e) = (with_status row s, from_row_of row s e)

from_rows-IsReadable :
    (rows : List AnchorRow)
    → All IsReadable rows
    → (as' : List AnchorRecord) × (from_rows rows ≡ ok as')
unfolding from_rows
from_rows-IsReadable [] h = ([], refl)
from_rows-IsReadable (row ∷ rows) h =
    let (a, e) = from_row-IsReadable row h.0 in
    let (as', es) = from_rows-IsReadable rows h.1 in (a ∷ as', rw (e, es, from_rows) refl)

pub filter-IsReadable :
    (status : Option Str) (rows : List AnchorRow)
    → All IsReadable rows
    → All IsReadable (with_filter status rows)
unfolding with_filter
filter-IsReadable none rows h = h
filter-IsReadable (some status) rows h = keep-All IsReadable _ rows h

optional-IsReadable :
    (p : AnchorRow → Bool) (rows : List AnchorRow)
    → All IsReadable rows
    → (found : Option AnchorRecord) × (optional from_row (find p rows) ≡ ok found)
optional-IsReadable p rows h = of (find p rows) refl
  where
    of :
        (row : Option AnchorRow)
        → find p rows ≡ row
        → (found : Option AnchorRecord) × (optional from_row row ≡ ok found)
    of none e = (none, refl)
    of (some row) e =
        let (a, read) = from_row-IsReadable row (find-All IsReadable p rows h e) in
        (some a, optional_of from_row read)

module _ (env : Env) (w : World) (intact : Intact w.tables) (runs : env.fault w.calls ≡ false) where
  -- A listing is read.
  pub list_anchors-reads :
      (status : Option Str) (limit offset : ℕ)
      → (as' : List AnchorRecord) × ((list_anchors env status limit offset w).0 ≡ ok as')
  unfolding list_anchors execute
  list_anchors-reads status limit offset =
      let (as', e) = from_rows-IsReadable _ (
        take-All IsReadable limit _ (
          drop-All IsReadable offset _ (
            sort-All IsReadable newest_first _
              (filter-IsReadable (truthy status) w.tables.anchors intact.readable)))) in
      (as', rw runs e)

  pub get_anchor-reads :
      (anchor_id : ℕ) → (found : Option AnchorRecord) × ((get_anchor env anchor_id w).0 ≡ ok found)
  unfolding get_anchor execute
  get_anchor-reads anchor_id =
      let (found, e) = optional-IsReadable (has_id anchor_id) w.tables.anchors intact.readable in
      (found, rw runs e)

  pub find_anchor-reads :
      (digest : Str) (start_time end_time : ℕ)
      → (found : Option AnchorRecord) × ((find_anchor_by_digest_and_window env digest start_time
            end_time w).0
          ≡ ok found)
  unfolding find_anchor_by_digest_and_window execute
  find_anchor-reads digest start_time end_time =
      let (found, e) =
        optional-IsReadable (has_window digest start_time end_time) w.tables.anchors
          intact.readable in
      (found, rw runs e)

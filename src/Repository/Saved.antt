-- ===== src/Repository/Saved.antt =====
-- What `save_anchor` stores, and `find_anchor_by_digest_and_window` finds, in src/app/db/repository.py.
use ared_edge_iota_anchor.Prelude.{
  ℕ, ◌≡◌, refl, ap, sym, ◌∙◌, Bool, Bool-cases, true, List, [], ◌∷◌, ◌++◌, Option, none, some,
  Result, ok, err, arith, find, update_where, find-append, database_error, ok_injective, inl, inr,
}
use ared_edge_iota_anchor.Text.{str_eq_refl}
use ared_edge_iota_anchor.Anchor.{
  AnchorRecord, AnchorRow, AnchorStatus, with_status, to_row, from_row, status_value,
  parse_status-status_value,
}
use ared_edge_iota_anchor.World.Types.{World, Tables, Env}
use ared_edge_iota_anchor.World.Exec.{lift, execute}
use ared_edge_iota_anchor.World.Steps.{bind-Goes, execute-Runs}
use ared_edge_iota_anchor.Repository.Anchors.{
  has_window, has_id, excluded, upsert, optional, save_anchor, find_anchor_by_digest_and_window,
}

-- A change that keeps the test keeps the first row that passes, changed.
pub find-update_where :
    {A : Type 0} (p : A → Bool) (f : A → A)
    → ((x : A) → p (f x) ≡ p x)
    → (l : List A) {y : A} → find p l ≡ some y
    → find p (update_where p f l) ≡ some (f y)
find-update_where p f keeps [] h = absurd (ground arith)
find-update_where p f keeps (x ∷ l) {y} h = elim (Bool-cases (p x)) [
  | inl passes ↦ ground (arith, keeps x)
  | inr fails ↦
      let found : find p l ≡ some y = ground arith in
      let later = find-update_where p f keeps l found in ground (arith, later)
]

has_window-own : (row : AnchorRow) → has_window row.digest row.start_time row.end_time row ≡ true
unfolding has_window
has_window-own row = ground (arith, str_eq_refl row.digest)

-- After the upsert the first row of the window has the id that the upsert returns, and the new values
-- in the columns that a conflict updates.
upsert-find :
    (row : AnchorRow) (t : Tables) {id : ℕ}
    → (upsert row t).0 ≡ ok id
    → (stored : AnchorRow) × (find
          (has_window row.digest row.start_time row.end_time)
          (upsert row t).1.anchors
        ≡ some stored)
      × (stored.id ≡ id)
      × (excluded row stored ≡ stored)
unfolding upsert
upsert-find row t {id} h =
    go (find (has_window row.digest row.start_time row.end_time) t.anchors)
      (find (has_id row.id) t.anchors) refl h
  where
    window : AnchorRow → Bool
    window = has_window row.digest row.start_time row.end_time

    go :
        (old other : Option AnchorRow)
        → find window t.anchors ≡ old
        → let o = elim old as (λ _. Result ℕ × Tables) [
          | some old ↦
              (ok old.id, record t { anchors = update_where window (excluded row) t.anchors })
          | none ↦ elim other as (λ _. Result ℕ × Tables) [
            | some other ↦ (err database_error, t)
            | none ↦ (ok row.id, record t { anchors = t.anchors ++ row ∷ [] })
          ]
        ] in
          o.0 ≡ ok id
          → (stored : AnchorRow) × (find window o.1.anchors ≡ some stored)
            × (stored.id ≡ id)
            × (excluded row stored ≡ stored)
    go (some old) other e h = (
      excluded row old,
      find-update_where window (excluded row) (λ x. refl) t.anchors e,
      ok_injective h,
      refl,
    )
    go none (some other) e h = absurd (ground arith)
    go none none e h =
        (row, find-append window t.anchors row e (has_window-own row), ok_injective h, refl)

pub from_row_of :
    (row : AnchorRow) (s : AnchorStatus)
    → row.status ≡ status_value s
    → from_row row ≡ ok (with_status row s)
unfolding from_row
from_row_of row s h = rw (h, parse_status-status_value s) refl

pub optional_of :
    {A B : Type 0} (f : A → Result B) {a : A} {b : B}
    → f a ≡ ok b
    → optional f (some a) ≡ ok (some b)
optional_of f h = rw (h, optional) refl

module _ (env : Env) where
  -- A record that `save_anchor` stores without an exception is what a later search for its digest and
  -- window finds, where the search raises nothing: it has the id that `save_anchor` returned, and the
  -- status, the block and the times of posting and of confirmation of the record.
  pub find_anchor-save_anchor :
      (a : AnchorRecord) (w : World) {id : ℕ} {found : Option AnchorRecord}
      → (save_anchor env a w).0 ≡ ok id
      → (find_anchor_by_digest_and_window env a.digest a.start_time a.end_time
          (save_anchor env a w).1).0
        ≡ ok found
      → (b : AnchorRecord) × (found ≡ some b)
        × (b.id ≡ id)
        × (b.status ≡ a.status)
        × (b.iota_block_id ≡ a.iota_block_id)
        × (b.posted_at ≡ a.posted_at)
        × (b.confirmed_at ≡ a.confirmed_at)
  unfolding save_anchor find_anchor_by_digest_and_window to_row with_status excluded
  find_anchor-save_anchor a w {id} {found} saved searched =
      let row = to_row a in
      let w1 = (execute env (upsert row) w).1 in
      let ran = execute-Runs env (upsert row) id w saved in
      let (stored, at, same_id, new) = upsert-find row w.tables ran.value in
      let query : Tables → Result (Option AnchorRow) × Tables =
        λ t. (ok (find (has_window a.digest a.start_time a.end_time) t.anchors), t) in
      let went = bind-Goes (execute env query) (λ row. lift (optional from_row row)) w1 searched in
      let looked = execute-Runs env query went.value w1 went.first in
      let value =
        sym (ok_injective looked.value)
        ∙ ap (λ (t : Tables). find (has_window a.digest a.start_time a.end_time) t.anchors)
            ran.tables
        ∙ at in
      let read = ap (λ o. o.0) (sym went.rest) ∙ searched in
      let whole = from_row_of stored a.status (ap (λ (r : AnchorRow). r.status) (sym new)) in
      let known = ap (optional from_row) value ∙ optional_of from_row whole in
      (
        with_status stored a.status,
        ok_injective (sym read ∙ known),
        same_id,
        refl,
        ap (λ (r : AnchorRow). r.iota_block_id) (sym new),
        ap (λ (r : AnchorRow). r.posted_at) (sym new),
        ap (λ (r : AnchorRow). r.confirmed_at) (sym new),
      )

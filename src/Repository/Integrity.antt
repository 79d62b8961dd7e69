-- ===== src/Repository/Integrity.antt =====
-- What the statements of src/app/db/repository.py keep true of the tables `anchors` and
-- `anchor_items`: the keys of their schema, and statuses that the code reads back.
use ared_edge_iota_anchor.Prelude.{
  ℕ, ◌≡◌, refl, Bool, List, [], ◌∷◌, ◌++◌, Option, none, some, Result, ok, err, All, find,
  update_where, database_error,
}
use ared_edge_iota_anchor.Anchor.{AnchorRow, AnchorStatus, status_value}
use ared_edge_iota_anchor.World.Types.{Tables, ItemRow}
use ared_edge_iota_anchor.Repository.Anchors.{has_window, has_id, excluded, upsert}
use ared_edge_iota_anchor.Repository.Items.{insert_item}
use ared_edge_iota_anchor.Repository.Rows.{
  Unique, find-none-All, append-All, append-Unique, find-append_some, update-All, update-Unique,
  find-update_some,
}

-- `UNIQUE (digest, start_time, end_time)` and `PRIMARY KEY`.
abbrev pub same_window : AnchorRow → AnchorRow → Bool
same_window a b = has_window b.digest b.start_time b.end_time a

abbrev pub same_id : AnchorRow → AnchorRow → Bool
same_id a b = has_id b.id a

-- A status that `AnchorStatus(row.status)` accepts.
abbrev pub IsReadable : AnchorRow → Type 0
IsReadable row = (s : AnchorStatus) × (row.status ≡ status_value s)

-- `REFERENCES anchors(id)`.
abbrev pub IsOwned : List AnchorRow → ItemRow → Type 0
IsOwned anchors item = (row : AnchorRow) × (find (has_id item.anchor_id) anchors ≡ some row)

pub record Intact (t : Tables) : Type 0 where
  pub windows : Unique same_window t.anchors
  pub ids : Unique same_id t.anchors
  pub readable : All IsReadable t.anchors
  pub owned : All (IsOwned t.anchors) t.items

window-left : (row x y : AnchorRow) → same_window (excluded row x) y ≡ same_window x y
unfolding has_window excluded
window-left row x y = refl

excluded-IsReadable : (row x : AnchorRow) → IsReadable row → IsReadable (excluded row x)
unfolding excluded
excluded-IsReadable row x h = h

-- A statement keeps the tables intact.
abbrev pub Keeps : {A : Type 0} → (Tables → Result A × Tables) → Type 0
Keeps query = (t : Tables) → Intact t → Intact (query t).1

items-append :
    (xs ys : List AnchorRow) (items : List ItemRow)
    → All (IsOwned xs) items
    → All (IsOwned (xs ++ ys)) items
items-append xs ys [] h = tt
items-append xs ys (i ∷ items) h =
    ((h.0.0, find-append_some (has_id i.anchor_id) xs ys h.0.1), items-append xs ys items h.1)

items-update :
    (p : AnchorRow → Bool) (f : AnchorRow → AnchorRow)
    → ((i : ℕ) (x : AnchorRow) → has_id i (f x) ≡ has_id i x)
    → (xs : List AnchorRow) (items : List ItemRow) → All (IsOwned xs) items
    → All (IsOwned (update_where p f xs)) items
items-update p f k xs [] h = tt
items-update p f k xs (i ∷ items) h = (
  find-update_some p f (has_id i.anchor_id) xs (k i.anchor_id) h.0.1,
  items-update p f k xs items h.1,
)

-- An update of rows that keeps their windows and ids, and leaves their status readable.
pub update-Intact :
    (p : AnchorRow → Bool) (f : AnchorRow → AnchorRow)
    → ((x : AnchorRow) → (f x).digest ≡ x.digest)
    → ((x : AnchorRow) → (f x).start_time ≡ x.start_time)
    → ((x : AnchorRow) → (f x).end_time ≡ x.end_time)
    → ((x : AnchorRow) → (f x).id ≡ x.id)
    → ((x : AnchorRow) → IsReadable x → IsReadable (f x))
    → (t : Tables) → Intact t
    → Intact (record t { anchors = update_where p f t.anchors })
unfolding has_window has_id
update-Intact p f digest start end' id readable t h = record {
  windows =
      update-Unique p f same_window (λ x y. rw (digest x, start x, end' x) refl)
        (λ x y. rw (digest y, start y, end' y) refl) t.anchors h.windows;
  ids = update-Unique p f same_id (λ x y. rw (id x) refl) (λ x y. rw (id y) refl) t.anchors h.ids;
  readable = update-All p f IsReadable t.anchors readable h.readable;
  owned = items-update p f (λ i x. rw (id x) refl) t.anchors t.items h.owned;
}

-- `save_anchor`: a row of a window that is there is updated, any other is added where its id is new.
pub upsert-Keeps : (row : AnchorRow) → IsReadable row → Keeps (upsert row)
unfolding upsert
upsert-Keeps row readable t h =
    go (find window t.anchors) (find (has_id row.id) t.anchors) refl refl
  where
    window : AnchorRow → Bool
    window = has_window row.digest row.start_time row.end_time

    go :
        (old other : Option AnchorRow)
        → find window t.anchors ≡ old
        → find (has_id row.id) t.anchors ≡ other
        → Intact
            (elim old as (λ _. Result ℕ × Tables) [
              | some old ↦
                  (ok old.id, record t { anchors = update_where window (excluded row) t.anchors })
              | none ↦ elim other as (λ _. Result ℕ × Tables) [
                | some other ↦ (err database_error, t)
                | none ↦ (ok row.id, record t { anchors = t.anchors ++ row ∷ [] })
              ]
            ]).1
    go (some old) other e1 e2 =
        update-Intact window (excluded row) (λ x. refl) (λ x. refl) (λ x. refl) (λ x. refl)
          (λ x _. excluded-IsReadable row x readable) t h
    go none (some other) e1 e2 = h
    go none none e1 e2 = record {
      windows =
          append-Unique same_window t.anchors row h.windows (find-none-All window t.anchors e1);
      ids = append-Unique same_id t.anchors row h.ids (find-none-All (has_id row.id) t.anchors e2);
      readable = append-All IsReadable t.anchors row h.readable readable;
      owned = items-append t.anchors (row ∷ []) t.items h.owned;
    }

-- `save_anchor_item`: an item is added where its anchor is there.
pub insert_item-Keeps : (item : ItemRow) → Keeps (insert_item item)
unfolding insert_item
insert_item-Keeps item t h = go (find (has_id item.anchor_id) t.anchors) refl
  where
    go :
        (owner : Option AnchorRow)
        → find (has_id item.anchor_id) t.anchors ≡ owner
        → Intact
            (elim owner as (λ _. Result ℕ × Tables) [
              | none ↦ (err database_error, t)
              | some _ ↦ (ok item.id, record t { items = t.items ++ item ∷ [] })
            ]).1
    go none e = h
    go (some row) e = record {
      windows = h.windows;
      ids = h.ids;
      readable = h.readable;
      owned = append-All (IsOwned t.anchors) t.items item h.owned (row, e);
    }

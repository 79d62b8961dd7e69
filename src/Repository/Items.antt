-- ===== src/Repository/Items.antt =====
-- The methods of `AnchorRepository` on the table `anchor_items`.
use ared_edge_iota_anchor.Prelude.{
  ℕ, Bool, true, false, ◌&&◌, List, [], ◌∷◌, ◌++◌, map, Option, none, some, Result, ok, err,
  database_error, length, take, drop, keep, find, sort_by, leb, ◌==◌, if◌then◌else◌,
}
use ared_edge_iota_anchor.Text.{Str, str_eq}
use ared_edge_iota_anchor.Anchor.{AnchorRecord, AnchorRow, from_row}
use ared_edge_iota_anchor.World.Types.{Tables, ItemRow, Env, Exec}
use ared_edge_iota_anchor.World.Exec.{◌>>=◌, pure, lift, gets, uuid4, execute}
use ared_edge_iota_anchor.Repository.Anchors.{has_id, optional, truthy}

-- The dictionaries that the methods build from a row; `none` also where a method leaves a key out.
pub record ItemDict : Type 0 where
  pub id : ℕ
  pub anchor_id : Option ℕ
  pub event_id : Option ℕ
  pub event_hash : Str
  pub position : ℕ
  pub merkle_proof : Option (List Str)
  pub created_at : Option ℕ

unfoldable pub item_dict : ItemRow → ItemDict
item_dict row = record {
  id = row.id;
  anchor_id = none;
  event_id = row.event_id;
  event_hash = row.event_hash;
  position = row.position_in_merkle;
  merkle_proof = row.merkle_proof;
  created_at = none;
}

unfoldable pub of_anchor : ℕ → ItemRow → Bool
of_anchor anchor_id row = row.anchor_id == anchor_id

unfoldable pub of_hash : Str → ItemRow → Bool
of_hash event_hash row = str_eq row.event_hash event_hash

-- `ORDER BY position_in_merkle`.
unfoldable pub by_position : ItemRow → ItemRow → Bool
by_position a b = leb a.position_in_merkle b.position_in_merkle

-- `json.dumps(merkle_proof) if merkle_proof else None`: an empty proof is stored as NULL.
unfoldable pub stored_proof : Option (List Str) → Option (List Str)
stored_proof (some (e ∷ path)) = some (e ∷ path)
stored_proof _ = none

-- The INSERT, with the foreign key to `anchors`.
unfoldable pub insert_item : ItemRow → Tables → Result ℕ × Tables
unfolding has_id
insert_item row t = elim (find (has_id row.anchor_id) t.anchors) [
  | none ↦ (err database_error, t)
  | some _ ↦ (ok row.id, record t { items = t.items ++ row ∷ [] })
]

-- `INNER JOIN anchor_items ... WHERE event_hash = :event_hash LIMIT 1`.
unfoldable pub join_hash : Str → List ItemRow → List AnchorRow → Option AnchorRow
unfolding of_hash has_id
join_hash event_hash [] anchors = none
join_hash event_hash (item ∷ items) anchors =
    let later = join_hash event_hash items anchors in
    if of_hash event_hash item
    then elim (find (has_id item.anchor_id) anchors) [ none ↦ later | some row ↦ some row ]
    else later

-- `LEFT JOIN events e ON ai.event_id = e.id ... e.device_id = :device_id`. The table `events` belongs
-- to another service: `device_of` is its column.
unfoldable pub of_device : (ℕ → Option Str) → Option Str → ItemRow → Bool
of_device device_of none row = true
of_device device_of (some device_id) row = elim row.event_id [
  | none ↦ false
  | some e ↦ elim (device_of e) [ none ↦ false | some d ↦ str_eq d device_id ]
]

module _ (env : Env) where
  -- The server draws the row's id and reads its clock.
  unfoldable pub save_anchor_item :
      (anchor_id : ℕ) (event_hash : Str) (position : ℕ) (event_id : Option ℕ)
      (merkle_proof : Option (List Str))
      → Exec ℕ
  unfolding uuid4 execute insert_item stored_proof
  save_anchor_item anchor_id event_hash position event_id merkle_proof = do
    id ← uuid4 env
    now ← gets (λ w. w.now)
    execute env (
        insert_item (record {
          id = id;
          anchor_id = anchor_id;
          event_id = event_id;
          event_hash = event_hash;
          position_in_merkle = position;
          merkle_proof = stored_proof merkle_proof;
          created_at = now;
        }))

  unfoldable pub get_anchor_items : ℕ → Exec (List ItemDict)
  unfolding of_anchor by_position item_dict execute
  get_anchor_items anchor_id =
      execute env
        (λ t. (ok (map item_dict (sort_by by_position (keep (of_anchor anchor_id) t.items))), t))

  unfoldable pub find_anchor_by_event_hash : Str → Exec (Option AnchorRecord)
  unfolding join_hash of_hash has_id execute
  find_anchor_by_event_hash event_hash = do
    row ← execute env (λ t. (ok (join_hash event_hash t.items t.anchors), t))
    lift (optional from_row row)

  abbrev pub with_anchor_id : ItemRow → ItemDict
  with_anchor_id row = record (item_dict row) { anchor_id = some row.anchor_id }

  unfoldable pub get_anchor_item_by_hash : ℕ → Str → Exec (Option ItemDict)
  unfolding of_anchor of_hash item_dict execute
  get_anchor_item_by_hash anchor_id event_hash = execute env (λ t. (
    elim (find (λ row. of_anchor anchor_id row && of_hash event_hash row) t.items) [
      | none ↦ ok none
      | some row ↦ ok (some (with_anchor_id row))
    ],
    t,
  ))

  unfoldable pub find_anchor_item_by_hash : Str → Exec (Option ItemDict)
  unfolding of_hash item_dict execute
  find_anchor_item_by_hash event_hash = execute env (λ t. (
    elim (find (of_hash event_hash) t.items) [
      | none ↦ ok none
      | some row ↦ ok (some (with_anchor_id row))
    ],
    t,
  ))

  -- The rows that the query and its count run over.
  unfoldable pub item_rows : (ℕ → Option Str) → ℕ → Option Str → Tables → List ItemRow
  unfolding of_anchor of_device
  item_rows device_of anchor_id device_id t =
      keep (λ row. of_anchor anchor_id row && of_device device_of (truthy device_id) row) t.items

  unfoldable pub get_anchor_items_paginated :
      (device_of : ℕ → Option Str) (anchor_id limit offset : ℕ) (device_id : Option Str)
      → Exec (List ItemDict × ℕ)
  unfolding item_rows by_position item_dict execute
  get_anchor_items_paginated device_of anchor_id limit offset device_id = do
    rows ← execute env (λ t. (
      ok (
          take limit
            (drop offset (sort_by by_position (item_rows device_of anchor_id device_id t)))),
      t,
    ))
    total ← execute env (λ t. (ok (length (item_rows device_of anchor_id device_id t)), t))
    pure (map (λ row. record (item_dict row) { created_at = some row.created_at }) rows, total)

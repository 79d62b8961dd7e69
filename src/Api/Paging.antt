-- ===== src/Api/Paging.antt =====
-- The pages of `list_anchors` in src/app/api/v1/endpoints/anchors.py.
use ared_edge_iota_anchor.Prelude.{
  ℕ, suc, ◌+◌, ◌≤◌, ◌≡◌, refl, sym, ap, ◌∙◌, Bool, Bool-cases, false, List, [], ◌∷◌, map, Option,
  ok, All, arith, ltb, take, drop, length, length-map, sort_by, length-sort_by, take-take, take-all,
  next_page, ltb-drop, map-take, inl, inr, if◌then◌else◌,
}
use ared_edge_iota_anchor.Text.{Str}
use ared_edge_iota_anchor.Anchor.{AnchorRecord, AnchorRow, with_status, to_row, from_row}
use ared_edge_iota_anchor.World.Types.{World, Tables, Env}
use ared_edge_iota_anchor.World.Exec.{execute}
use ared_edge_iota_anchor.Repository.Anchors.{
  with_filter, truthy, newest_first, from_rows, list_anchors, count_anchors,
}
use ared_edge_iota_anchor.Repository.Saved.{from_row_of}
use ared_edge_iota_anchor.Repository.Rows.{take-All, drop-All, sort-All}
use ared_edge_iota_anchor.Repository.Integrity.{IsReadable, Intact}
use ared_edge_iota_anchor.Repository.Reading.{filter-IsReadable}
use ared_edge_iota_anchor.Api.Answer.{Answer, answer}
use ared_edge_iota_anchor.Api.Responses.{AnchorResponse, record_to_response}
use ared_edge_iota_anchor.Api.Queries.{AnchorListResponse, list_anchors_endpoint}

read-row :
    (row : AnchorRow)
    → IsReadable row
    → (a : AnchorRecord) × (from_row row ≡ ok a) × (to_row a ≡ row)
unfolding with_status to_row
read-row row (s, e) = (with_status row s, from_row_of row s e, ap (with_status row) (sym e))

read-rows :
    (rows : List AnchorRow)
    → All IsReadable rows
    → (as' : List AnchorRecord) × (from_rows rows ≡ ok as') × (map to_row as' ≡ rows)
unfolding from_rows
read-rows [] h = ([], refl, refl)
read-rows (row ∷ rows) h =
    let (a, e, same) = read-row row h.0 in
    let (as', es, rest) = read-rows rows h.1 in
    (a ∷ as', rw (e, es, from_rows) refl, rw (same, rest) refl)

-- The rows that a listing goes through, newest first.
abbrev pub listed : Option Str → Tables → List AnchorRow
listed status t = sort_by newest_first (with_filter (truthy status) t.anchors)

one_more : (limit : ℕ) (xs : List AnchorRow) → take (limit + 1) xs ≡ take (suc limit) xs
one_more limit xs = let same : limit + 1 ≡ suc limit = omega arith in ap (λ (n : ℕ). take n xs) same

page-items :
    (limit : ℕ) (xs : List AnchorRow) (as' : List AnchorRecord)
    → map to_row as' ≡ take (limit + 1) xs
    → map to_row (if ltb limit (length as') then take limit as' else as') ≡ take limit xs
page-items limit xs as' e' =
    let e = e' ∙ one_more limit xs in
    elim (Bool-cases (ltb limit (length as'))) [
      | inl more ↦ rw more (map-take to_row limit as' ∙ ap (take limit) e ∙ take-take limit xs)
      | inr last ↦
          let short : length (map to_row as') ≤ limit = ground (arith, length-map to_row as') in
          rw last
            (sym (take-all limit (map to_row as') short) ∙ ap (take limit) e ∙ take-take limit xs)
    ]

page-more :
    (limit offset : ℕ) (xs : List AnchorRow) (as' : List AnchorRecord)
    → map to_row as' ≡ take (limit + 1) (drop offset xs)
    → ltb limit (length as') ≡ ltb (offset + limit) (length xs)
page-more limit offset xs as' e =
    ap (ltb limit) (sym (length-map to_row as') ∙ ap length (e ∙ one_more limit (drop offset xs)))
    ∙ next_page limit (drop offset xs)
    ∙ ltb-drop offset limit xs

-- A row as the endpoint shows it.
unfoldable pub row_response : AnchorRow → AnchorResponse
row_response row = record {
  id = row.id;
  digest = row.digest;
  method = row.method;
  start_time = row.start_time;
  end_time = row.end_time;
  iota_message_id = row.iota_block_id;
  iota_network = row.iota_network;
  explorer_url = row.explorer_url;
  status = row.status;
  item_count = row.item_count;
  created_at = row.created_at;
  posted_at = row.posted_at;
  confirmed_at = row.confirmed_at;
  error_message = row.error_message;
}

map-record_to_response :
    (as' : List AnchorRecord) → map record_to_response as' ≡ map row_response (map to_row as')
unfolding record_to_response row_response to_row with_status
map-record_to_response [] = refl
map-record_to_response (a ∷ as') =
    ap (λ (l : List AnchorResponse). record_to_response a ∷ l) (map-record_to_response as')

abbrev pub page_of :
    List AnchorResponse → (total limit offset : ℕ) → Bool → Answer AnchorListResponse
page_of items total limit offset has_more =
    answer
      (record { items = items; total = total; limit = limit; offset = offset; has_more = has_more })

same_answer :
    (limit offset : ℕ) {items items' : List AnchorResponse} {total total' : ℕ} {more more' : Bool}
    → items ≡ items'
    → total ≡ total'
    → more ≡ more'
    → page_of items total limit offset more ≡ page_of items' total' limit offset more'
same_answer limit offset p q r = rw (p, q, r) refl

module _ (env : Env) where
  -- On intact tables, and where its two statements do not fail, the endpoint answers with the page of the
  -- rows of that status, newest first, that starts at `offset` and has `limit` rows at most; the total is
  -- their number, and `has_more` is true exactly where rows follow the page.
  pub list_anchors_endpoint-page :
      (status : Option Str) (limit offset : ℕ) (w : World)
      → Intact w.committed
      → ((n : ℕ) → env.fault n ≡ false)
      → (list_anchors_endpoint env status limit offset w).0
        ≡ page_of
            (map row_response (take limit (drop offset (listed status w.committed))))
            (length (listed status w.committed))
            limit
            offset
            (ltb (offset + limit) (length (listed status w.committed)))
  unfolding list_anchors_endpoint list_anchors count_anchors execute
  list_anchors_endpoint-page status limit offset w intact up =
      let rows = listed status w.committed in
      let (as', read, same) = read-rows (take (limit + 1) (drop offset rows)) (
        take-All IsReadable (limit + 1) _ (
          drop-All IsReadable offset _ (
            sort-All IsReadable newest_first _
              (filter-IsReadable (truthy status) w.committed.anchors intact.readable)))) in
      rw (up w.calls, read, up (suc w.calls))
        (same_answer limit offset
          (map-record_to_response (if ltb limit (length as') then take limit as' else as')
            ∙ ap (map row_response) (page-items limit (drop offset rows) as' same))
          (sym (length-sort_by newest_first (with_filter (truthy status) w.committed.anchors)))
          (page-more limit offset rows as' same))

-- ===== src/Repository/Updated.antt =====
-- What `update_anchor_status` of src/app/db/repository.py leaves in the table.
use ared_edge_iota_anchor.Prelude.{
  ◌≢◌, ℕ, ◌≡◌, refl, ap, sym, ◌∙◌, Bool, true, false, List, [], ◌∷◌, Option, Option-cases, none,
  some, Result, ok, arith, find, update_where, ok_injective, ◌⊎◌, inl, inr, ◌==◌,
}
use ared_edge_iota_anchor.Text.{Str}
use ared_edge_iota_anchor.Anchor.{
  AnchorRow, AnchorStatus, pending, building, posting, posted, confirming, confirmed, failed,
  status_value,
}
use ared_edge_iota_anchor.World.Types.{World, Tables, Env}
use ared_edge_iota_anchor.World.Exec.{execute, commit}
use ared_edge_iota_anchor.World.Steps.{bind-Goes, execute-Runs, commit-tables}
use ared_edge_iota_anchor.Repository.Anchors.{has_id, set_status, update_anchor_status}
use ared_edge_iota_anchor.Repository.Saved.{find-update_where}

-- The row with the status set at `now`: the block and the time of posting are written where the status is
-- "posted" and a block is named, the time of confirmation where it is "confirmed", the text where it is
-- "failed" and there is one; every other column is kept.
pub record HasStatus (status : AnchorStatus) (block error_message : Option Str) (now : ℕ)
    (row row' : AnchorRow) : Type 0 where
  pub status_is : row'.status ≡ status_value status
  pub posting :
      ((status ≡ posted)
        × (block ≢ none)
        × (block ≢ some [])
        × (row'.iota_block_id ≡ block)
        × (row'.posted_at ≡ some now))
      ⊎ (((status ≢ posted) ⊎ ((block ≡ none) ⊎ (block ≡ some [])))
          × (row'.iota_block_id ≡ row.iota_block_id)
          × (row'.posted_at ≡ row.posted_at))
  pub confirming :
      ((status ≡ confirmed) × (row'.confirmed_at ≡ some now))
      ⊎ ((status ≢ confirmed) × (row'.confirmed_at ≡ row.confirmed_at))
  pub failing :
      ((status ≡ failed)
        × (error_message ≢ none)
        × (error_message ≢ some [])
        × (row'.error_message ≡ error_message))
      ⊎ (((status ≢ failed) ⊎ ((error_message ≡ none) ⊎ (error_message ≡ some [])))
          × (row'.error_message ≡ row.error_message))
  pub kept :
      (row'.id ≡ row.id)
      × (row'.digest ≡ row.digest)
      × (row'.method ≡ row.method)
      × (row'.start_time ≡ row.start_time)
      × (row'.end_time ≡ row.end_time)
      × (row'.item_count ≡ row.item_count)
      × (row'.iota_network ≡ row.iota_network)
      × (row'.explorer_url ≡ row.explorer_url)
      × (row'.created_at ≡ row.created_at)

same_columns :
    (status : AnchorStatus) (block e : Option Str) (now : ℕ) (row : AnchorRow)
    → ((status ≢ posted) ⊎ ((block ≡ none) ⊎ (block ≡ some [])))
    → status ≢ confirmed
    → ((status ≢ failed) ⊎ ((e ≡ none) ⊎ (e ≡ some [])))
    → HasStatus status block e now row (record row { status = status_value status })
same_columns status block e now row not_posted not_confirmed not_failed = record {
  status_is = refl;
  posting = inr (not_posted, refl, refl);
  confirming = inr (not_confirmed, refl);
  failing = inr (not_failed, refl);
  kept = (refl, refl, refl, refl, refl, refl, refl, refl, refl);
}

set_status-HasStatus :
    (status : AnchorStatus) (block e : Option Str) (now : ℕ) (row : AnchorRow)
    → HasStatus status block e now row (set_status status block e now row)
unfolding set_status
set_status-HasStatus pending block e now row =
    same_columns pending block e now row (inl (λ q. cc)) (λ q. cc) (inl (λ q. cc))
set_status-HasStatus building block e now row =
    same_columns building block e now row (inl (λ q. cc)) (λ q. cc) (inl (λ q. cc))
set_status-HasStatus posting block e now row =
    same_columns posting block e now row (inl (λ q. cc)) (λ q. cc) (inl (λ q. cc))
set_status-HasStatus confirming block e now row =
    same_columns confirming block e now row (inl (λ q. cc)) (λ q. cc) (inl (λ q. cc))
set_status-HasStatus posted none e now row =
    same_columns posted none e now row (inr (inl refl)) (λ q. cc) (inl (λ q. cc))
set_status-HasStatus posted (some []) e now row =
    same_columns posted (some []) e now row (inr (inr refl)) (λ q. cc) (inl (λ q. cc))
set_status-HasStatus posted (some (c ∷ s)) e now row = record {
  status_is = refl;
  posting = inl (refl, (λ q. cc), (λ q. cc), refl, refl);
  confirming = inr ((λ q. cc), refl);
  failing = inr (inl (λ q. cc), refl);
  kept = (refl, refl, refl, refl, refl, refl, refl, refl, refl);
}
set_status-HasStatus confirmed block e now row = record {
  status_is = refl;
  posting = inr (inl (λ q. cc), refl, refl);
  confirming = inl (refl, refl);
  failing = inr (inl (λ q. cc), refl);
  kept = (refl, refl, refl, refl, refl, refl, refl, refl, refl);
}
set_status-HasStatus failed block none now row =
    same_columns failed block none now row (inl (λ q. cc)) (λ q. cc) (inr (inl refl))
set_status-HasStatus failed block (some []) now row =
    same_columns failed block (some []) now row (inl (λ q. cc)) (λ q. cc) (inr (inr refl))
set_status-HasStatus failed block (some (c ∷ s)) now row = record {
  status_is = refl;
  posting = inr (inl (λ q. cc), refl, refl);
  confirming = inr ((λ q. cc), refl);
  failing = inl (refl, (λ q. cc), (λ q. cc), refl);
  kept = (refl, refl, refl, refl, refl, refl, refl, refl, refl);
}

pub set_status-id :
    (status : AnchorStatus) (block error_message : Option Str) (now : ℕ) (row : AnchorRow)
    → (set_status status block error_message now row).id ≡ row.id
unfolding set_status
set_status-id pending block e now row = refl
set_status-id building block e now row = refl
set_status-id posting block e now row = refl
set_status-id posted none e now row = refl
set_status-id posted (some []) e now row = refl
set_status-id posted (some (c ∷ s)) e now row = refl
set_status-id confirming block e now row = refl
set_status-id confirmed block e now row = refl
set_status-id failed block none now row = refl
set_status-id failed block (some []) now row = refl
set_status-id failed block (some (c ∷ s)) now row = refl

set_status-has_id :
    (anchor_id : ℕ) (status : AnchorStatus) (block error_message : Option Str) (now : ℕ)
    (row : AnchorRow)
    → has_id anchor_id (set_status status block error_message now row) ≡ has_id anchor_id row
unfolding has_id
set_status-has_id anchor_id status block e now row =
    ap (λ (i : ℕ). i == anchor_id) (set_status-id status block e now row)

no_row :
    (p : AnchorRow → Bool) (f : AnchorRow → AnchorRow) (l : List AnchorRow)
    → find p l ≡ none
    → update_where p f l ≡ l
no_row p f [] h = refl
no_row p f (x ∷ l) h = ground (arith, no_row p f l)

module _ (env : Env) where
  -- Where `update_anchor_status` returns, it returns whether a row has the id. The first such row that is
  -- committed is the one that was there with its status set, a block and its time only where it is posted,
  -- the time of confirmation only where it is confirmed, and a message only where it has failed. Without
  -- such a row the table is kept.
  pub updated_row :
      (anchor_id : ℕ) (status : AnchorStatus) (block error_message : Option Str) (w : World)
      {b : Bool}
      → (update_anchor_status env anchor_id status block error_message w).0 ≡ ok b
      → let w' = (update_anchor_status env anchor_id status block error_message w).1 in
        ((row : AnchorRow) × (b ≡ true)
          × (find (has_id anchor_id) w.tables.anchors ≡ some row)
          × ((row' : AnchorRow) × (find (has_id anchor_id) w'.committed.anchors ≡ some row')
              × HasStatus status block error_message w.now row row'))
        ⊎ ((b ≡ false) × (w'.committed.anchors ≡ w.tables.anchors))
  unfolding update_anchor_status
  updated_row anchor_id status block error_message w {b} h =
      let change = set_status status block error_message w.now in
      let query : Tables → Result (Option AnchorRow) × Tables = λ t. (
        ok (find (has_id anchor_id) t.anchors),
        record t { anchors = update_where (has_id anchor_id) change t.anchors },
      ) in
      let went = bind-Goes (execute env query) _ w h in
      let w1 = (execute env query w).1 in
      let ran = execute-Runs env query went.value w went.first in
      let h1 = ap (λ o. o.0) (sym went.rest) ∙ h in
      let done = bind-Goes (commit env) _ w1 h1 in
      let kept = commit-tables env w1 done.first in
      let last = ap (λ o. o.0) (sym done.rest) ∙ h1 in
      let world = ap (λ o. o.1) (went.rest ∙ done.rest) in
      let stored =
        ap (λ (v : World). v.committed.anchors) world
        ∙ ap (λ (t : Tables). t.anchors) (kept.0 ∙ ran.tables) in
      let answer =
        λ (v : Option AnchorRow). elim v as (λ _. Bool) [ none ↦ false | some _ ↦ true ] in
      elim (Option-cases went.value) [
        | inr (row, there) ↦
            let found = ok_injective ran.value ∙ there in
            inl (
              row,
              sym (ok_injective last) ∙ ap answer there,
              found,
              (
                change row,
                ap (find (has_id anchor_id)) stored
                    ∙ find-update_where (has_id anchor_id) change
                        (set_status-has_id anchor_id status block error_message w.now)
                        w.tables.anchors found,
                set_status-HasStatus status block error_message w.now row,
              ),
            )
        | inl gone ↦ inr (
          sym (ok_injective last) ∙ ap answer gone,
          stored
              ∙ no_row (has_id anchor_id) change w.tables.anchors (ok_injective ran.value ∙ gone),
        )
      ]

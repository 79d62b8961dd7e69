-- ===== src/Service/Pending.antt =====
-- The pending anchors while `create_anchor` of src/app/services/anchor_service.py runs.
use ared_edge_iota_anchor.Prelude.{
  ℕ, ◌≡◌, ◌≢◌, inl, inr, refl, ap, ◌∙◌, false, Bool, Bool-cases, List, [], ◌∷◌, keep, All, none, ok,
  err, Result, Exception, arith, suc, if◌then◌else◌,
}
use ared_edge_iota_anchor.Text.{Str}
use ared_edge_iota_anchor.Anchor.{AnchorRecord, AnchorStatus}
use ared_edge_iota_anchor.World.Types.{World, Env}
use ared_edge_iota_anchor.World.Exec.{pure, continue, rescue, utcnow, ◌>>=◌, ◌>>◌}
use ared_edge_iota_anchor.World.Frame.{Quiet}
use ared_edge_iota_anchor.Iota.Client.{BlockMetadata, is_client_error, post_anchor}
use ared_edge_iota_anchor.Iota.Submission.{IsRetrying, post_anchor-Quiet}
use ared_edge_iota_anchor.Service.Anchors.{
  other_id, put_pending, pop_pending, post_record, posting_failed, create_anchor, with_block,
  make_message,
}

-- The record that `create_anchor` begins with.
abbrev pub new_record :
    (id : ℕ) (digest : Str) (count start_time end_time : ℕ) (method : Str) (now : ℕ) → AnchorRecord
new_record id digest count start_time end_time method now = record {
  id = id;
  digest = digest;
  method = method;
  start_time = start_time;
  end_time = end_time;
  item_count = count;
  status = AnchorStatus.pending;
  iota_block_id = none;
  iota_network = none;
  explorer_url = none;
  created_at = now;
  posted_at = none;
  confirmed_at = none;
  error_message = none;
}

keep-keep :
    (id : ℕ) (l : List AnchorRecord)
    → keep (other_id id) (keep (other_id id) l) ≡ keep (other_id id) l
keep-keep id [] = refl
keep-keep id (a ∷ l) = ground (arith, keep-keep id l)

pub keep_fresh :
    (id : ℕ) (l : List AnchorRecord)
    → All (λ (a : AnchorRecord). a.id ≢ id) l
    → keep (other_id id) l ≡ l
keep_fresh id [] h = refl
keep_fresh id (a ∷ l) h = ground (arith, keep_fresh id l h.1)

-- The data is as it was, but for the pending anchor of one id.
pub record Except (id : ℕ) (w w' : World) : Type 0 where
  pub same_tables : w'.tables ≡ w.tables
  pub same_committed : w'.committed ≡ w.committed
  pub same_lock : w'.lock_count ≡ w.lock_count
  pub others : keep (other_id id) w'.pending_anchors ≡ keep (other_id id) w.pending_anchors

module _ (id : ℕ) where
  Except-refl : (w : World) → Except id w w
  Except-refl w = record {
    same_tables = refl;
    same_committed = refl;
    same_lock = refl;
    others = refl;
  }

  -- A write of the pending anchor.
  put-Except :
      (a : AnchorRecord) (w w1 : World)
      → a.id ≡ id
      → Except id w w1
      → Except id w (record w1 { pending_anchors = a ∷ keep (other_id a.id) w1.pending_anchors })
  put-Except a w w1 same h = record {
    same_tables = h.same_tables;
    same_committed = h.same_committed;
    same_lock = h.same_lock;
    others =
        ap
          (λ (d : Bool).
            if d
            then a ∷ keep (other_id id) (keep (other_id a.id) w1.pending_anchors)
            else keep (other_id id) (keep (other_id a.id) w1.pending_anchors))
          own
        ∙ ap (λ (i : ℕ). keep (other_id id) (keep (other_id i) w1.pending_anchors)) same
        ∙ keep-keep id w1.pending_anchors
        ∙ h.others;
  }
    where
      own : other_id id a ≡ false
      own = ground arith

  Quiet-Except : (w w1 w2 : World) → Except id w w1 → Quiet w1 w2 → Except id w w2
  Quiet-Except w w1 w2 h q = record {
    same_tables = q.same_tables ∙ h.same_tables;
    same_committed = q.same_committed ∙ h.same_committed;
    same_lock = q.same_lock ∙ h.same_lock;
    others = ap (keep (other_id id)) q.same_pending ∙ h.others;
  }

module _ (env : Env) (rt : IsRetrying env.retrying) (attempts : ℕ)
    (positive : env.settings.retry_count ≡ suc attempts) where
  -- The rest of the `try` block, from what `post_anchor` gave.
  posted-Except :
      (a : AnchorRecord) (r : Result BlockMetadata) (w w1 : World)
      → Except a.id w w1
      → Except a.id w
          (continue r
            (λ block. (do
              later ← utcnow
              put_pending (with_block env a block later)
              pure (with_block env a block later)))
            w1).1
  unfolding with_block
  posted-Except a (ok block) w w1 h = put-Except a.id (with_block env a block w1.now) w w1 refl h
  posted-Except a (err e) w w1 h = h

  post_record-Except :
      (a : AnchorRecord) (wait : Bool) (w w1 : World)
      → Except a.id w w1
      → Except a.id w (post_record env a wait w1).1
  unfolding post_record
  post_record-Except a wait w w1 h =
      let w2 : World = (put_pending (record a { status = AnchorStatus.building }) w1).1 in
      let w3 : World = (put_pending (record a { status = AnchorStatus.posting }) w2).1 in
      let message = make_message a.digest a.item_count a.start_time a.end_time a.method w1.now in
      let sent = (post_anchor-Quiet env rt attempts positive message wait).at w3 in
      posted-Except a (post_anchor env message wait w3).0 w (post_anchor env message wait w3).1 (
        Quiet-Except a.id w w3 (post_anchor env message wait w3).1
          (put-Except a.id _ w w2 refl (put-Except a.id _ w w1 refl h)) sent)

  posting_failed-Except :
      (a : AnchorRecord) (e : Exception) (w w1 : World)
      → Except a.id w w1
      → Except a.id w (posting_failed env a e w1).1
  unfolding posting_failed
  posting_failed-Except a e w w1 h = elim (Bool-cases (is_client_error e)) [
    | inl caught ↦ rw caught (put-Except a.id _ w w1 refl h)
    | inr not_caught ↦ rw not_caught h
  ]

  rescued-Except :
      (a : AnchorRecord) (r : Result AnchorRecord) (w w1 : World)
      → Except a.id w w1
      → Except a.id w (rescue r (posting_failed env a) w1).1
  rescued-Except a (ok b) w w1 h = h
  rescued-Except a (err e) w w1 h = posting_failed-Except a e w w1 h

  -- Where `create_anchor` ends: `w1` is the world before its `finally` block.
  pub ended :
      (digest : Str) (count start_time end_time : ℕ) (method : Str) (wait : Bool) (w : World)
      → (w1 : World) × Except (env.uuid4 w.draws) w w1
        × ((create_anchor env digest count start_time end_time method wait w).1
            ≡ (pop_pending (env.uuid4 w.draws) w1).1)
  unfolding create_anchor
  ended digest count start_time end_time method wait w =
      let a = new_record (env.uuid4 w.draws) digest count start_time end_time method w.now in
      let w1 : World = record w { draws = suc w.draws } in
      let w2 : World = (put_pending a w1).1 in
      let tried = post_record env a wait w2 in
      (
        (rescue tried.0 (posting_failed env a) tried.1).1,
        rescued-Except a tried.0 w tried.1 (
            post_record-Except a wait w w2 (
              put-Except a.id a w w1 refl (record {
                same_tables = refl;
                same_committed = refl;
                same_lock = refl;
                others = refl;
              }))),
        refl,
      )

  pub create_anchor_data :
      (digest : Str) (count start_time end_time : ℕ) (method : Str) (wait : Bool) (w : World)
      → let w' = (create_anchor env digest count start_time end_time method wait w).1 in
        (w'.tables ≡ w.tables) × (w'.committed ≡ w.committed) × (w'.lock_count ≡ w.lock_count)
  create_anchor_data digest count start_time end_time method wait w =
      let (w1, h, e) = ended digest count start_time end_time method wait w in
      (
        ap (λ (v : World). v.tables) e ∙ h.same_tables,
        ap (λ (v : World). v.committed) e ∙ h.same_committed,
        ap (λ (v : World). v.lock_count) e ∙ h.same_lock,
      )

-- ===== src/Service/Creation.antt =====
-- `create_anchor` of src/app/services/anchor_service.py: what it returns, raises and leaves behind.
use ared_edge_iota_anchor.Prelude.{
  false, some, true, ℕ, ◌≡◌, ◌≢◌, ◌⊎◌, refl, ap, ◌∙◌, Bool, All, none, ok, err, Result, Exception,
  value_error, service_error, posting_error, connection_error, arith, suc,
}
use ared_edge_iota_anchor.Text.{Str}
use ared_edge_iota_anchor.Anchor.{AnchorRecord, AnchorStatus, posted, confirmed}
use ared_edge_iota_anchor.World.Types.{World, Env}
use ared_edge_iota_anchor.World.Exec.{pure, continue, rescue, utcnow, ◌>>=◌, ◌>>◌}
use ared_edge_iota_anchor.Iota.Client.{
  get_explorer_url, BlockMetadata, is_client_error, post_anchor,
}
use ared_edge_iota_anchor.Iota.Submission.{IsRetrying, post_anchor_errors}
use ared_edge_iota_anchor.Service.Anchors.{
  put_pending, post_record, posting_failed, create_anchor, with_block, make_message,
}
use ared_edge_iota_anchor.Service.Pending.{new_record, keep_fresh, ended, create_anchor_data}

module _ (env : Env) where
  -- The world in which `create_anchor` posts its message: only an id is drawn, and the anchor is among the
  -- pending ones.
  abbrev pub posting_world : Str → (count start_time end_time : ℕ) → Str → World → World
  posting_world digest count start_time end_time method w =
      let a = new_record (env.uuid4 w.draws) digest count start_time end_time method w.now in
      let w1 : World = (put_pending a (record w { draws = suc w.draws })).1 in
      let w2 : World = (put_pending (record a { status = AnchorStatus.building }) w1).1 in
      (put_pending (record a { status = AnchorStatus.posting }) w2).1

  -- What `post_anchor` gives for the message of the arguments.
  abbrev pub sent :
      Str
      → (count start_time end_time : ℕ) → Str
      → (wait : Bool) → World
      → Result BlockMetadata × World
  sent digest count start_time end_time method wait w =
      post_anchor env (make_message digest count start_time end_time method w.now) wait
        (posting_world digest count start_time end_time method w)

  -- What `create_anchor` promises: a record of its arguments with the id, the network and the address of
  -- the block that `post_anchor` returned, confirmed where a milestone references the block and posted
  -- elsewhere; or the service's error.
  abbrev pub Creates :
      Str
      → (count start_time end_time : ℕ) → Str
      → (wait : Bool) → World
      → Result AnchorRecord
      → Type 0
  Creates digest count start_time end_time method wait w (ok a) =
      (block : BlockMetadata) × ((sent digest count start_time end_time method wait w).0 ≡ ok block)
      × (a.id ≡ env.uuid4 w.draws)
      × (a.digest ≡ digest)
      × (a.item_count ≡ count)
      × (a.start_time ≡ start_time)
      × (a.end_time ≡ end_time)
      × (a.method ≡ method)
      × (a.iota_block_id ≡ some block.block_id)
      × (a.iota_network ≡ some block.network)
      × (a.explorer_url ≡ some (get_explorer_url env block.block_id))
      × (a.posted_at ≡ some (sent digest count start_time end_time method wait w).1.now)
      × (((block.referenced_by_milestone ≡ false) × (a.status ≡ posted) × (a.confirmed_at ≡ none))
          ⊎ ((block.referenced_by_milestone ≡ true)
              × (a.status ≡ confirmed)
              × (a.confirmed_at ≡ a.posted_at)))
  Creates digest count start_time end_time method wait w (err e) =
      (e ≡ service_error) ⊎ (e ≡ value_error)

module _ (env : Env) (rt : IsRetrying env.retrying) (attempts : ℕ)
    (positive : env.settings.retry_count ≡ suc attempts) where
  -- With a retry count above zero, whatever `create_anchor` returns or raises, it leaves no pending
  -- anchor of its own behind, where the drawn id is not that of another pending anchor, and leaves
  -- the tables alone.
  pub create_anchor_leaves :
      (digest : Str) (count start_time end_time : ℕ) (method : Str) (wait : Bool) (w : World)
      → All (λ (a : AnchorRecord). a.id ≢ env.uuid4 w.draws) w.pending_anchors
      → let w' = (create_anchor env digest count start_time end_time method wait w).1 in
        (w'.pending_anchors ≡ w.pending_anchors)
        × (w'.tables ≡ w.tables)
        × (w'.committed ≡ w.committed)
  create_anchor_leaves digest count start_time end_time method wait w fresh =
      let (w1, h, e) =
        ended env rt attempts positive digest count start_time end_time method wait w in
      let (same_tables, same_committed, _) =
        create_anchor_data env rt attempts positive digest count start_time end_time method wait
          w in
      (
        ap (λ (v : World). v.pending_anchors) e
            ∙ h.others
            ∙ keep_fresh (env.uuid4 w.draws) w.pending_anchors fresh,
        same_tables,
        same_committed,
      )

  Creates-from :
      (digest : Str) (count start_time end_time : ℕ) (method : Str) (wait : Bool) (w : World)
      (r : Result BlockMetadata)
      → (sent env digest count start_time end_time method wait w).0 ≡ r
      → ((e : Exception)
          → r ≡ err e
          → (e ≡ connection_error) ⊎ ((e ≡ value_error) ⊎ (e ≡ posting_error)))
      → let a = new_record (env.uuid4 w.draws) digest count start_time end_time method w.now in
        let tried =
          continue r
            (λ block. (do
              later ← utcnow
              put_pending (with_block env a block later)
              pure (with_block env a block later)))
            (sent env digest count start_time end_time method wait w).1 in
        Creates env digest count start_time end_time method wait w
          (rescue tried.0 (posting_failed env a) tried.1).0
  unfolding with_block posting_failed is_client_error
  Creates-from digest count start_time end_time method wait w (ok block) e errors =
      (block, e, refl, refl, refl, refl, refl, refl, refl, refl, refl, refl, ground arith)
  Creates-from digest count start_time end_time method wait w (err e) h errors =
      ground (arith, errors e)

  -- With a retry count above zero `create_anchor` returns a record with its arguments, the drawn id, the
  -- id, the network and the address of the block that `post_anchor` returned for its message, and the time
  -- of posting, in status confirmed (from the time of posting on) where a milestone references the block
  -- and in status posted elsewhere; or it raises
  -- `AnchorServiceError`, or the `ValueError` of a reply that is no JSON.
  pub create_anchor-Creates :
      (digest : Str) (count start_time end_time : ℕ) (method : Str) (wait : Bool) (w : World)
      → Creates env digest count start_time end_time method wait w
          (create_anchor env digest count start_time end_time method wait w).0
  unfolding create_anchor post_record
  create_anchor-Creates digest count start_time end_time method wait w =
      let answer = sent env digest count start_time end_time method wait w in
      Creates-from digest count start_time end_time method wait w answer.0 refl (λ e h.
        post_anchor_errors env rt attempts positive
          (make_message digest count start_time end_time method w.now) wait
          (posting_world env digest count start_time end_time method w) {e = e} h)

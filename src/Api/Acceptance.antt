-- ===== src/Api/Acceptance.antt =====
-- `verify_inclusion` of src/app/api/v1/endpoints/anchors.py on what the workflow stores.
use ared_edge_iota_anchor.Prelude.{
  suc, find, ◌≢◌, ◌&&◌, ℕ, ◌≡◌, refl, sym, ◌∙◌, true, false, Bool, List, [], ◌∷◌, map, Option, some,
  none, Result, ok, err, arith, if◌then◌else◌, ◌⊎◌, inl, inr,
}
use ared_edge_iota_anchor.Text.{Str, str_eq, split_once}
use ared_edge_iota_anchor.Merkle.Node.{MerkleProof, ProofElement, ProofDirection, left, right}
use ared_edge_iota_anchor.Merkle.Verify.{verify_proof}
use ared_edge_iota_anchor.Merkle.Compact.{to_compact, to_compact_item, direction_value}
use ared_edge_iota_anchor.Anchor.{AnchorRecord, AnchorRow, from_row}
use ared_edge_iota_anchor.World.Types.{World, Env, Exec, IndexedEvent, ItemRow}
use ared_edge_iota_anchor.World.Exec.{
  pure, continue, rescue, ◌>>=◌, try_except, execute, with_session,
}
use ared_edge_iota_anchor.Repository.Anchors.{truthy, has_id, get_anchor}
use ared_edge_iota_anchor.Repository.Items.{
  ItemDict, stored_proof, item_dict, with_anchor_id, of_anchor, of_hash, get_anchor_item_by_hash,
  find_anchor_item_by_hash,
}
use ared_edge_iota_anchor.Service.Anchors.{verify_anchor_on_tangle}
use ared_edge_iota_anchor.Workflow.Anchoring.{Proved}
use ared_edge_iota_anchor.Repository.Saved.{optional_of}
use ared_edge_iota_anchor.Api.Answer.{answer, respond}
use ared_edge_iota_anchor.Api.Verify.{
  VerifyRequest, VerifyResponse, no_proof, verification_successful, direction_of, parse_path,
  chosen_path, no_path, both, check_tangle, verify_path, verify_found, look_up, verify_inclusion,
}

parse_item :
    (e : ProofElement) (path : List ProofElement) (items : List Str)
    → parse_path items ≡ ok path
    → parse_path (to_compact_item e ∷ items) ≡ ok (e ∷ path)
unfolding parse_path to_compact_item direction_value direction_of split_once str_eq
parse_item e path items h = of e.hash e.direction
  where
    of :
        (s : Str) (d : ProofDirection)
        → parse_path (to_compact_item (record { hash = s; direction = d }) ∷ items)
          ≡ ok (record { hash = s; direction = d } ∷ path)
    of s left = rw h refl
    of s right = rw h refl

-- The endpoint's own parser reads back every compact proof.
pub parse_path-to_compact :
    (path : List ProofElement) → parse_path (map to_compact_item path) ≡ ok path
unfolding parse_path
parse_path-to_compact [] = refl
parse_path-to_compact (e ∷ path) =
    parse_item e path (map to_compact_item path) (parse_path-to_compact path)

module _ (env : Env) where
  -- The check on the Tangle never raises.
  check_tangle_returns :
      (has_service : Bool) (req : VerifyRequest) (anchor : AnchorRecord) (w : World)
      → (there : Option Bool) × ((check_tangle env has_service req anchor w).0 ≡ ok there)
  unfolding check_tangle
  check_tangle_returns has_service req anchor w =
      go (truthy anchor.iota_block_id) (req.verify_on_tangle && has_service)
    where
      rescued :
          (r : Result Bool) (w1 : World)
          → (there : Option Bool) × ((rescue
                (continue r (λ (b : Bool). pure (some b)) w1).0
                (λ _. pure none)
                (continue r (λ (b : Bool). pure (some b)) w1).1).0
              ≡ ok there)
      rescued (ok b) w1 = (some b, refl)
      rescued (err e) w1 = (none, refl)

      go :
          (block : Option Str) (asked : Bool)
          → (there : Option Bool) × ((elim block as (λ _. Exec (Option Bool)) [
            | none ↦ pure none
            | some block_id ↦
                if asked
                then try_except
                    (do there ← verify_anchor_on_tangle env block_id; pure (some there))
                    (λ e. pure none)
                else pure none
          ]
                w).0
              ≡ ok there)
      go none asked = (none, refl)
      go (some block_id) true = let (r, w1) = verify_anchor_on_tangle env block_id w in rescued r w1
      go (some block_id) false = (none, refl)

  same_verdict :
      (p : MerkleProof) (leaf root : Str) (i n : ℕ)
      → leaf ≡ p.leaf_hash
      → root ≡ p.root_hash
      → verify_proof env.sha256 (record {
        leaf_hash = leaf;
        leaf_index = i;
        proof_path = p.proof_path;
        root_hash = root;
        tree_size = n;
      })
        ≡ verify_proof env.sha256 p
  unfolding verify_proof
  same_verdict p leaf root i n of_leaf of_root = rw (of_leaf, of_root) refl

  verify_path_accepts :
      (has_service : Bool) (req : VerifyRequest) (item : ItemDict) (anchor : AnchorRecord)
      (p : MerkleProof) (w : World)
      → req.event_hash ≡ p.leaf_hash
      → anchor.digest ≡ p.root_hash
      → verify_proof env.sha256 p ≡ ok true
      → (response : VerifyResponse) × ((verify_path env has_service req item anchor
            (to_compact p)
            w).0
          ≡ ok response)
        × (response.verified ≡ true)
        × (response.message ≡ verification_successful)
  unfolding verify_path to_compact
  verify_path_accepts has_service req item anchor p w of_leaf of_root accepted =
      let (there, e) = check_tangle_returns has_service req anchor w in
      (
        record {
          verified = true;
          event_hash = req.event_hash;
          anchor_id = some anchor.id;
          anchor_digest = some anchor.digest;
          iota_message_id = anchor.iota_block_id;
          explorer_url = anchor.explorer_url;
          tangle_verified = there;
          message = verification_successful;
          proof_path = some (map to_compact_item p.proof_path);
        },
        rw
            (
              parse_path-to_compact p.proof_path,
              same_verdict p req.event_hash anchor.digest item.position anchor.item_count of_leaf
                  of_root,
              accepted,
              e,
            )
            refl,
        refl,
        refl,
      )

  -- The answer on an item that was found.
  abbrev pub Told : VerifyResponse → MerkleProof → Type 0
  Told response proof =
      ((proof.proof_path ≡ []) × (response.verified ≡ false) × (response.message ≡ no_proof))
      ⊎ ((proof.proof_path ≢ [])
          × (response.verified ≡ true)
          × (response.message ≡ verification_successful))

  found_answer :
      (has_service : Bool) (req : VerifyRequest) (item : ItemDict) (proof : MerkleProof)
      (anchor : AnchorRecord) (w : World)
      → item.merkle_proof ≡ stored_proof (some (to_compact proof))
      → req.event_hash ≡ proof.leaf_hash
      → anchor.digest ≡ proof.root_hash
      → verify_proof env.sha256 proof ≡ ok true
      → req.merkle_proof ≡ none
      → (response : VerifyResponse) × ((verify_found env has_service req (both item anchor) w).0
          ≡ ok (answer response))
        × Told response proof
  unfolding verify_found stored_proof no_path chosen_path to_compact
  found_answer has_service req item proof anchor w kept of_event of_digest accepted no_own =
      go proof.proof_path refl
    where
      go :
          (path : List ProofElement)
          → proof.proof_path ≡ path
          → (response : VerifyResponse) × ((verify_found env has_service req (both item anchor) w).0
              ≡ ok (answer response))
            × Told response proof
      go [] q =
          let none_chosen : chosen_path req.merkle_proof item.merkle_proof ≡ none =
            rw (no_own, kept, q) refl in
          (no_path req anchor, rw (none_chosen, verify_found) refl, inl (q, refl, refl))
      go (e ∷ path) q =
          let own_chosen : chosen_path req.merkle_proof item.merkle_proof
              ≡ some (to_compact proof) =
            rw (no_own, kept, q) refl in
          let (response, e1, agreed, said) =
            verify_path_accepts has_service req item anchor proof w of_event of_digest accepted in
          (
            response,
            rw (own_chosen, e1, verify_found) refl,
            inr ((λ h. absurd (ground arith)), agreed, said),
          )

  -- The request finds the row: it names the row's anchor, or it names none and the row is the first with
  -- its hash.
  abbrev pub Asks : VerifyRequest → ItemRow → List ItemRow → Type 0
  Asks req row items =
      ((req.anchor_id ≡ some row.anchor_id)
        × (find (λ r. of_anchor row.anchor_id r && of_hash req.event_hash r) items ≡ some row))
      ⊎ ((req.anchor_id ≡ none) × (find (of_hash req.event_hash) items ≡ some row))

  looked_up :
      (req : VerifyRequest) (row : ItemRow) (anchor_row : AnchorRow) (anchor : AnchorRecord)
      (w : World)
      → ((n : ℕ) → env.fault n ≡ false)
      → Asks req row w.tables.items
      → find (has_id row.anchor_id) w.tables.anchors ≡ some anchor_row
      → from_row anchor_row ≡ ok anchor
      → (item : ItemDict) × (item.merkle_proof ≡ row.merkle_proof)
        × ((look_up env req w).0 ≡ ok (both item anchor))
  unfolding look_up get_anchor get_anchor_item_by_hash find_anchor_item_by_hash execute item_dict
  looked_up req row anchor_row anchor w up (inl (named, there)) stored read = (
    with_anchor_id env row,
    refl,
    rw (named, up w.calls, stored, optional_of from_row read, up (suc w.calls), there) refl,
  )
  looked_up req row anchor_row anchor w up (inr (unnamed, there)) stored read = (
    with_anchor_id env row,
    refl,
    rw (unnamed, up w.calls, there, up (suc w.calls), stored, optional_of from_row read) refl,
  )

  -- For a stored row that the workflow filled, with the anchor of its digest, where no statement fails:
  -- a request for its hash that brings no path of its own is answered by the endpoint that the event is
  -- verified; unless the proof is the empty one of a tree with one leaf: that is stored as NULL, and the
  -- answer is that there is no proof.
  pub stored_event_answer :
      (has_service : Bool) (req : VerifyRequest) {digest : Str} {i : ℕ} {event : IndexedEvent}
      {row : ItemRow} (p : Proved env digest i event row) (anchor_row : AnchorRow)
      (anchor : AnchorRecord) (w : World)
      → ((n : ℕ) → env.fault n ≡ false)
      → Asks req row w.committed.items
      → find (has_id row.anchor_id) w.committed.anchors ≡ some anchor_row
      → from_row anchor_row ≡ ok anchor
      → anchor.digest ≡ digest
      → req.event_hash ≡ event.event_hash
      → req.merkle_proof ≡ none
      → (response : VerifyResponse) × ((verify_inclusion env has_service req w).0 ≡ answer response)
        × Told response p.proof
  unfolding verify_inclusion respond with_session
  stored_event_answer has_service req {row} p anchor_row anchor w up asks stored read of_digest
        of_event no_own =
      let begun : World = record w { tables = w.committed } in
      let (item, kept, found) = looked_up req row anchor_row anchor begun up asks stored read in
      let (response, said, told) =
        found_answer has_service req item p.proof anchor (look_up env req begun).1 (kept ∙ p.kept)
          (of_event ∙ sym (p.of_leaf ∙ p.hashed)) (of_digest ∙ sym p.of_digest) p.verified no_own in
      (response, rw (found, said) refl, told)

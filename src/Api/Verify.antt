-- ===== src/Api/Verify.antt =====
-- `verify_inclusion` of src/app/api/v1/endpoints/anchors.py.
use ared_edge_iota_anchor.Prelude.{
  ℕ, Bool, false, ◌&&◌, List, [], ◌∷◌, Option, none, some, Result, ok, err, value_error,
  if◌then◌else◌,
}
use ared_edge_iota_anchor.Text.{Str, str, str_eq, split_once}
use ared_edge_iota_anchor.Merkle.Node.{ProofElement, ProofDirection, left, right}
use ared_edge_iota_anchor.Merkle.Verify.{verify_proof}
use ared_edge_iota_anchor.Anchor.{AnchorRecord}
use ared_edge_iota_anchor.World.Types.{World, Env, Exec}
use ared_edge_iota_anchor.World.Exec.{pure, lift, ◌>>=◌, try_except}
use ared_edge_iota_anchor.Repository.Anchors.{get_anchor, truthy}
use ared_edge_iota_anchor.Repository.Items.{
  ItemDict, get_anchor_item_by_hash, find_anchor_item_by_hash,
}
use ared_edge_iota_anchor.Service.Anchors.{verify_anchor_on_tangle}
use ared_edge_iota_anchor.Api.Answer.{Answer, answer, refused, respond}

-- The framework has checked that `event_hash` has 64 characters.
pub record VerifyRequest : Type 0 where
  pub event_hash : Str
  pub anchor_id : Option ℕ
  pub merkle_proof : Option (List Str)
  pub verify_on_tangle : Bool

pub data Message : Type 0 where
  not_found no_proof verification_successful verification_failed : Message

pub record VerifyResponse : Type 0 where
  pub verified : Bool
  pub event_hash : Str
  pub anchor_id : Option ℕ
  pub anchor_digest : Option Str
  pub iota_message_id : Option Str
  pub explorer_url : Option Str
  pub tangle_verified : Option Bool
  pub message : Message
  pub proof_path : Option (List Str)

-- The endpoint hands the text on as it is, and `verify_proof` compares it with "L": every other
-- text counts as "R".
unfoldable pub direction_of : Str → ProofDirection
unfolding str_eq
direction_of s = if str_eq s (str "L") then left else right

unfoldable pub parse_path : List Str → Result (List ProofElement)
unfolding direction_of split_once
parse_path [] = ok []
parse_path (item ∷ items) = elim (split_once b':' item) [
  | none ↦ err value_error
  | some (direction, hash_value) ↦ elim (parse_path items) [
    | err e ↦ err e
    | ok es ↦ ok (record { hash = hash_value; direction = direction_of direction } ∷ es)
  ]
]

-- `request.merkle_proof or item.get("merkle_proof")`, and `not proof_path`.
unfoldable pub chosen_path : Option (List Str) → Option (List Str) → Option (List Str)
chosen_path (some (p ∷ ps)) stored = some (p ∷ ps)
chosen_path _ (some (p ∷ ps)) = some (p ∷ ps)
chosen_path _ _ = none

unfoldable pub no_item : VerifyRequest → VerifyResponse
no_item req = record {
  verified = false;
  event_hash = req.event_hash;
  anchor_id = none;
  anchor_digest = none;
  iota_message_id = none;
  explorer_url = none;
  tangle_verified = none;
  message = not_found;
  proof_path = none;
}

unfoldable pub no_path : VerifyRequest → AnchorRecord → VerifyResponse
no_path req anchor = record {
  verified = false;
  event_hash = req.event_hash;
  anchor_id = some anchor.id;
  anchor_digest = some anchor.digest;
  iota_message_id = anchor.iota_block_id;
  explorer_url = none;
  tangle_verified = none;
  message = no_proof;
  proof_path = none;
}

-- What the lookup finds: a missing anchor is a 404 only where the request names it.
pub data Found : Type 0 where
  missing_anchor nothing : Found
  both : ItemDict → AnchorRecord → Found

abbrev join_found : Option ItemDict → Option AnchorRecord → Found
join_found (some item) (some anchor) = both item anchor
join_found _ _ = nothing

abbrev or_zero : Option ℕ → ℕ
or_zero none = 0
or_zero (some n) = n

module _ (env : Env) where
  unfoldable pub look_up : VerifyRequest → Exec Found
  look_up req = elim req.anchor_id [
    | some id ↦ (do
      anchor ← get_anchor env id
      elim anchor [
        | none ↦ pure missing_anchor
        | some a ↦ (do
          item ← get_anchor_item_by_hash env id req.event_hash
          pure (join_found item (some a)))
      ])
    | none ↦ (do
      item ← find_anchor_item_by_hash env req.event_hash
      elim item [
        | none ↦ pure nothing
        | some i ↦ (do
          anchor ← get_anchor env (or_zero i.anchor_id)
          pure (join_found (some i) anchor))
      ])
  ]

  -- `has_service`: the application's state holds the anchor service.
  unfoldable pub check_tangle :
      (has_service : Bool) → VerifyRequest → AnchorRecord → Exec (Option Bool)
  check_tangle has_service req anchor = elim (truthy anchor.iota_block_id) [
    | none ↦ pure none
    | some block_id ↦
        if req.verify_on_tangle && has_service
        then try_except (do there ← verify_anchor_on_tangle env block_id; pure (some there))
            (λ e. pure none)
        else pure none
  ]

  unfoldable pub verify_path :
      (has_service : Bool)
      → VerifyRequest
      → ItemDict
      → AnchorRecord
      → List Str
      → Exec VerifyResponse
  verify_path has_service req item anchor path = do
    elements ← lift (parse_path path)
    verified ← lift (
        verify_proof env.sha256 (record {
          leaf_hash = req.event_hash;
          leaf_index = item.position;
          proof_path = elements;
          root_hash = anchor.digest;
          tree_size = anchor.item_count;
        }))
    tangle_verified ← check_tangle has_service req anchor
    pure (record {
      verified = verified;
      event_hash = req.event_hash;
      anchor_id = some anchor.id;
      anchor_digest = some anchor.digest;
      iota_message_id = anchor.iota_block_id;
      explorer_url = anchor.explorer_url;
      tangle_verified = tangle_verified;
      message = if verified then verification_successful else verification_failed;
      proof_path = some path;
    })

  unfoldable pub verify_found :
      (has_service : Bool) → VerifyRequest → Found → Exec (Answer VerifyResponse)
  verify_found has_service req missing_anchor = pure (refused 404)
  verify_found has_service req nothing = pure (answer (no_item req))
  verify_found has_service req (both item anchor) =
      elim (chosen_path req.merkle_proof item.merkle_proof) [
        | none ↦ pure (answer (no_path req anchor))
        | some path ↦ (do
          response ← verify_path has_service req item anchor path
          pure (answer response))
      ]

  unfoldable pub verify_inclusion :
      (has_service : Bool) → VerifyRequest → World → Answer VerifyResponse × World
  unfolding respond
  verify_inclusion has_service req =
      respond (do found ← look_up req; verify_found has_service req found)

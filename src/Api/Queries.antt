-- ===== src/Api/Queries.antt =====
-- The other endpoints of src/app/api/v1/endpoints/anchors.py.
use ared_edge_iota_anchor.Prelude.{
  ℕ, ◌+◌, Bool, true, false, List, map, Option, none, some, ltb, take, length, if◌then◌else◌,
}
use ared_edge_iota_anchor.Text.{Str}
use ared_edge_iota_anchor.World.Types.{World, Env}
use ared_edge_iota_anchor.World.Exec.{pure, ◌>>=◌}
use ared_edge_iota_anchor.Repository.Anchors.{list_anchors, count_anchors, get_anchor}
use ared_edge_iota_anchor.Repository.Items.{get_anchor_items, get_anchor_items_paginated}
use ared_edge_iota_anchor.Workflow.Job.{AnchorResult, run_anchor_job}
use ared_edge_iota_anchor.Api.Responses.{
  AnchorResponse, record_to_response, AnchorItemResponse, item_response, AnchorEventResponse,
  event_response,
}
use ared_edge_iota_anchor.Api.Answer.{Answer, answer, refused, respond}

pub record AnchorListResponse : Type 0 where
  pub items : List AnchorResponse
  pub total : ℕ
  pub limit : ℕ
  pub offset : ℕ
  pub has_more : Bool

pub record AnchorDetailResponse : Type 0 where
  pub anchor : AnchorResponse
  pub items : List AnchorItemResponse

pub record AnchorEventsListResponse : Type 0 where
  pub items : List AnchorEventResponse
  pub total : ℕ
  pub limit : ℕ
  pub offset : ℕ
  pub has_more : Bool
  pub anchor_id : ℕ
  pub anchor_digest : Str

pub data AnchorJobResponse : Type 0 where
  job_completed : AnchorResult → AnchorJobResponse
  job_queued : AnchorJobResponse

module _ (env : Env) where
  unfoldable pub list_anchors_endpoint :
      (status_filter : Option Str) (limit offset : ℕ) → World → Answer AnchorListResponse × World
  unfolding respond
  list_anchors_endpoint status_filter limit offset = respond (do
    anchors ← list_anchors env status_filter (limit + 1) offset
    total ← count_anchors env status_filter
    pure (
        answer (record {
          items =
              map record_to_response
                (if ltb limit (length anchors) then take limit anchors else anchors);
          total = total;
          limit = limit;
          offset = offset;
          has_more = ltb limit (length anchors);
        })))

  unfoldable pub get_anchor_endpoint : (anchor_id : ℕ) → World → Answer AnchorDetailResponse × World
  unfolding respond
  get_anchor_endpoint anchor_id = respond (do
    found ← get_anchor env anchor_id
    elim found [
      | none ↦ pure (refused 404)
      | some a ↦ (do
        items ← get_anchor_items env anchor_id
        pure (answer (record { anchor = record_to_response a; items = map item_response items })))
    ])

  unfoldable pub list_anchor_events :
      (device_of : ℕ → Option Str) (anchor_id : ℕ) (device_id : Option Str) (limit offset : ℕ)
      → World
      → Answer AnchorEventsListResponse × World
  unfolding respond
  list_anchor_events device_of anchor_id device_id limit offset = respond (do
    found ← get_anchor env anchor_id
    elim found [
      | none ↦ pure (refused 404)
      | some a ↦ (do
        page ← get_anchor_items_paginated env device_of anchor_id limit offset device_id
        pure (
            answer (record {
              items = map event_response page.0;
              total = page.1;
              limit = limit;
              offset = offset;
              has_more = ltb (offset + length page.0) page.1;
              anchor_id = a.id;
              anchor_digest = a.digest;
            })))
    ])

  -- With `wait_for_completion` the job runs in the request; without, it is queued.
  unfoldable pub create_anchor_endpoint :
      (has_service : Bool) (start_time end_time : Option ℕ) (wait_for_completion : Bool)
      → World
      → Answer AnchorJobResponse × World
  unfolding respond
  create_anchor_endpoint false start_time end_time wait_for_completion w = (refused 503, w)
  create_anchor_endpoint true start_time end_time false w = respond (pure (answer job_queued)) w
  create_anchor_endpoint true start_time end_time true w =
      respond
        (do
          result ← run_anchor_job env start_time end_time true
          pure (if result.success then answer (job_completed result) else refused 500))
        w

-- ===== src/Metrics/Recording.antt =====
-- The methods of `AnchorMetrics` in src/app/metrics/anchor_metrics.py, as the calls that they make.
use ared_edge_iota_anchor.Prelude.{
  ℕ, zero, suc, Bool, true, false, List, [], ◌∷◌, ◌++◌, Option, some,
}
use ared_edge_iota_anchor.Text.{Str, str}
use ared_edge_iota_anchor.Metrics.Metric.{Metric}
use ared_edge_iota_anchor.Metrics.Anchoring.{
  anchors_posted, anchors_failed, posting_duration, posting_retries, posting_in_progress,
  confirmation_latency, confirmations_total, pending_confirmations, merkle_build_duration,
  merkle_tree_size, merkle_verifications,
}
use ared_edge_iota_anchor.Metrics.Upkeep.{
  events_aggregated, aggregation_duration, events_per_anchor, last_aggregation_timestamp,
  reconciliation_runs, reconciliation_duration, failed_anchors_recovered, anchors_marked_review,
  retry_queue_size, service_info, iota_node_info,
}

-- `inc`: the keywords and the values of `labels`, and the amount.
pub data MetricCall : Type 0 where
  inc : Metric → (labels : List (Str × Str)) (amount : ℕ) → MetricCall
  observe : Metric → ℕ → MetricCall
  assign : Metric → ℕ → MetricCall
  set_info : Metric → (pairs : List (Str × Str)) → MetricCall

abbrev pub choose : Bool → Str → Str → Str
choose true a b = a
choose false a b = b

unfoldable pub record_anchor_posted : (duration events_count : ℕ) → List MetricCall
record_anchor_posted duration events_count =
    inc anchors_posted [] 1
    ∷ observe posting_duration duration
    ∷ observe events_per_anchor events_count
    ∷ []

unfoldable pub record_anchor_failed : (reason : Str) → List MetricCall
record_anchor_failed reason = inc anchors_failed ((str "reason", reason) ∷ []) 1 ∷ []

unfoldable pub record_posting_retry : List MetricCall
record_posting_retry = inc posting_retries [] 1 ∷ []

-- A latency of zero is false too.
unfoldable pub observed_latency : (success : Bool) (latency : Option ℕ) → List MetricCall
observed_latency true (some (suc n)) = observe confirmation_latency (suc n) ∷ []
observed_latency success latency = []

unfoldable pub record_confirmation : (success : Bool) (latency : Option ℕ) → List MetricCall
unfolding observed_latency
record_confirmation success latency =
    inc confirmations_total ((str "status", choose success (str "confirmed") (str "failed")) ∷ []) 1
    ∷ observed_latency success latency

unfoldable pub record_merkle_build : (duration tree_size : ℕ) → List MetricCall
record_merkle_build duration tree_size =
    observe merkle_build_duration duration ∷ observe merkle_tree_size tree_size ∷ []

unfoldable pub record_merkle_verification : (valid : Bool) → List MetricCall
record_merkle_verification valid =
    inc merkle_verifications ((str "result", choose valid (str "valid") (str "invalid")) ∷ []) 1
    ∷ []

-- `now`: `time.time()`.
unfoldable pub record_aggregation : (now events_count duration : ℕ) → List MetricCall
record_aggregation now events_count duration =
    inc events_aggregated [] events_count
    ∷ observe aggregation_duration duration
    ∷ assign last_aggregation_timestamp now
    ∷ []

abbrev pub inc_positive : Metric → ℕ → List MetricCall
inc_positive m zero = []
inc_positive m (suc n) = inc m [] (suc n) ∷ []

unfoldable pub record_reconciliation :
    (success : Bool) (duration recovered marked_review : ℕ) → List MetricCall
record_reconciliation success duration recovered marked_review =
    inc reconciliation_runs ((str "result", choose success (str "success") (str "failed")) ∷ []) 1
    ∷ observe reconciliation_duration duration
    ∷ (inc_positive failed_anchors_recovered recovered
        ++ inc_positive anchors_marked_review marked_review)

unfoldable pub update_pending_confirmations : (count : ℕ) → List MetricCall
update_pending_confirmations count = assign pending_confirmations count ∷ []

unfoldable pub update_retry_queue : (size : ℕ) → List MetricCall
update_retry_queue size = assign retry_queue_size size ∷ []

unfoldable pub set_posting_in_progress : (count : ℕ) → List MetricCall
set_posting_in_progress count = assign posting_in_progress count ∷ []

unfoldable pub set_service_info : (version environment schedule : Str) → List MetricCall
set_service_info version environment schedule =
    set_info service_info (
      (str "version", version) ∷ (str "environment", environment) ∷ (str "schedule", schedule) ∷ [])
    ∷ []

unfoldable pub set_iota_node_info : (node_url network : Str) → List MetricCall
set_iota_node_info node_url network =
    set_info iota_node_info ((str "node_url", node_url) ∷ (str "network", network) ∷ []) ∷ []

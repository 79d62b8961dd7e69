-- ===== src/Metrics/Registered.antt =====
-- The calls of `AnchorMetrics` against the metrics that its `__init__` registers.
use ared_edge_iota_anchor.Prelude.{
  ℕ, zero, suc, ◌≡◌, refl, Bool, true, false, ◌&&◌, ◌||◌, List, [], ◌∷◌, Option, none, some, All,
  length, ◌==◌,
}
use ared_edge_iota_anchor.Text.{Str, str_eq}
use ared_edge_iota_anchor.Metrics.Metric.{Metric, MetricKind, counter, gauge, histogram, info}
use ared_edge_iota_anchor.Metrics.Upkeep.{registered}
use ared_edge_iota_anchor.Metrics.Recording.{
  MetricCall, inc, observe, assign, set_info, record_anchor_posted, record_anchor_failed,
  record_posting_retry, record_confirmation, record_merkle_build, record_merkle_verification,
  record_aggregation, record_reconciliation, update_pending_confirmations, update_retry_queue,
  set_posting_in_progress, set_service_info, set_iota_node_info,
}

-- A method of `AnchorMetrics` with its arguments, and the calls that it makes.
pub data Recorded : List MetricCall → Type 0 where
  posted : (duration events_count : ℕ) → Recorded (record_anchor_posted duration events_count)
  failed : (reason : Str) → Recorded (record_anchor_failed reason)
  retry : Recorded record_posting_retry
  confirmation :
      (success : Bool) (latency : Option ℕ) → Recorded (record_confirmation success latency)
  merkle_build : (duration tree_size : ℕ) → Recorded (record_merkle_build duration tree_size)
  merkle_verification : (valid : Bool) → Recorded (record_merkle_verification valid)
  aggregation :
      (now events_count duration : ℕ) → Recorded (record_aggregation now events_count duration)
  reconciliation :
      (success : Bool) (duration recovered marked_review : ℕ)
      → Recorded (record_reconciliation success duration recovered marked_review)
  pending : (count : ℕ) → Recorded (update_pending_confirmations count)
  retry_queue : (size : ℕ) → Recorded (update_retry_queue size)
  in_progress : (count : ℕ) → Recorded (set_posting_in_progress count)
  service :
      (version environment schedule : Str)
      → Recorded (set_service_info version environment schedule)
  node : (node_url network : Str) → Recorded (set_iota_node_info node_url network)

abbrev pub has_name : Str → List Metric → Bool
has_name name [] = false
has_name name (m ∷ ms) = str_eq m.name name || has_name name ms

abbrev pub is_counter : MetricKind → Bool
is_counter counter = true
is_counter _ = false

abbrev pub is_gauge : MetricKind → Bool
is_gauge gauge = true
is_gauge _ = false

abbrev pub is_histogram : MetricKind → Bool
is_histogram histogram = true
is_histogram _ = false

abbrev pub is_info : MetricKind → Bool
is_info info = true
is_info _ = false

abbrev pub names_are : List (Str × Str) → List Str → Bool
names_are [] [] = true
names_are ((name, value) ∷ rest) (label ∷ labels) = str_eq name label && names_are rest labels
names_are _ _ = false

-- prometheus_client takes the call: the metric is registered, its kind has the operation, and the keywords of
-- `labels` are the names of its labels.
abbrev pub accepted : MetricCall → Bool
accepted (inc m given amount) =
    has_name m.name registered && (is_counter m.kind && names_are given m.labels)
accepted (observe m value) =
    has_name m.name registered && (is_histogram m.kind && (length m.labels == 0))
accepted (assign m value) =
    has_name m.name registered && (is_gauge m.kind && (length m.labels == 0))
accepted (set_info m pairs) =
    has_name m.name registered && (is_info m.kind && (length m.labels == 0))

abbrev pub IsAccepted : MetricCall → Type 0
IsAccepted call = accepted call ≡ true

-- Whatever its arguments, every call that a method of `AnchorMetrics` makes is on a metric that its
-- `__init__` registers, with an operation of that metric's kind and the names of its labels as the keywords.
pub calls-IsAccepted : {calls : List MetricCall} → Recorded calls → All IsAccepted calls
unfolding registered str_eq record_anchor_posted record_anchor_failed record_posting_retry
    record_confirmation record_merkle_build record_merkle_verification record_aggregation
    record_reconciliation update_pending_confirmations update_retry_queue set_posting_in_progress
    set_service_info set_iota_node_info
calls-IsAccepted (posted duration events_count) = (refl, (refl, (refl, tt)))
calls-IsAccepted (failed reason) = (refl, tt)
calls-IsAccepted retry = (refl, tt)
calls-IsAccepted (confirmation true (some (suc n))) = (refl, (refl, tt))
calls-IsAccepted (confirmation true (some zero)) = (refl, tt)
calls-IsAccepted (confirmation true none) = (refl, tt)
calls-IsAccepted (confirmation false latency) = (refl, tt)
calls-IsAccepted (merkle_build duration tree_size) = (refl, (refl, tt))
calls-IsAccepted (merkle_verification valid) = (refl, tt)
calls-IsAccepted (aggregation now events_count duration) = (refl, (refl, (refl, tt)))
calls-IsAccepted (reconciliation success duration zero zero) = (refl, (refl, tt))
calls-IsAccepted (reconciliation success duration (suc r) zero) = (refl, (refl, (refl, tt)))
calls-IsAccepted (reconciliation success duration zero (suc m)) = (refl, (refl, (refl, tt)))
calls-IsAccepted (reconciliation success duration (suc r) (suc m)) =
    (refl, (refl, (refl, (refl, tt))))
calls-IsAccepted (pending count) = (refl, tt)
calls-IsAccepted (retry_queue size) = (refl, tt)
calls-IsAccepted (in_progress count) = (refl, tt)
calls-IsAccepted (service version environment schedule) = (refl, tt)
calls-IsAccepted (node node_url network) = (refl, tt)

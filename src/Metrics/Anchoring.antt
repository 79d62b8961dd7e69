-- ===== src/Metrics/Anchoring.antt =====
-- The metrics of posting, confirmation and Merkle trees in src/app/metrics/anchor_metrics.py.
use ared_edge_iota_anchor.Prelude.{List, [], ◌∷◌}
use ared_edge_iota_anchor.Text.{str}
use ared_edge_iota_anchor.Metrics.Metric.{Metric, counter, gauge, histogram}

unfoldable pub anchors_posted : Metric
anchors_posted = record {
  name = str "ared_anchor_posted_total";
  kind = counter;
  labels = [];
  buckets = [];
}

unfoldable pub anchors_failed : Metric
anchors_failed = record {
  name = str "ared_anchor_failed_total";
  kind = counter;
  labels = str "reason" ∷ [];
  buckets = [];
}

unfoldable pub posting_duration : Metric
posting_duration = record {
  name = str "ared_anchor_posting_duration_seconds";
  kind = histogram;
  labels = [];
  buckets = 500000 ∷ 1000000 ∷ 2500000 ∷ 5000000 ∷ 10000000 ∷ 30000000 ∷ 60000000 ∷ 120000000 ∷ [];
}

unfoldable pub posting_retries : Metric
posting_retries = record {
  name = str "ared_anchor_posting_retries_total";
  kind = counter;
  labels = [];
  buckets = [];
}

unfoldable pub posting_in_progress : Metric
posting_in_progress = record {
  name = str "ared_anchor_posting_in_progress";
  kind = gauge;
  labels = [];
  buckets = [];
}

unfoldable pub init_posting_metrics : List Metric
unfolding anchors_posted anchors_failed posting_duration posting_retries posting_in_progress
init_posting_metrics =
    anchors_posted ∷ anchors_failed ∷ posting_duration ∷ posting_retries ∷ posting_in_progress ∷ []

unfoldable pub confirmation_latency : Metric
confirmation_latency = record {
  name = str "ared_anchor_confirmation_latency_seconds";
  kind = histogram;
  labels = [];
  buckets =
      1000000 ∷ 5000000 ∷ 10000000 ∷ 30000000 ∷ 60000000 ∷ 120000000 ∷ 300000000 ∷ 600000000 ∷ [];
}

unfoldable pub confirmations_total : Metric
confirmations_total = record {
  name = str "ared_anchor_confirmations_total";
  kind = counter;
  labels = str "status" ∷ [];
  buckets = [];
}

unfoldable pub pending_confirmations : Metric
pending_confirmations = record {
  name = str "ared_anchor_pending_confirmations";
  kind = gauge;
  labels = [];
  buckets = [];
}

unfoldable pub confirmation_timeout : Metric
confirmation_timeout = record {
  name = str "ared_anchor_confirmation_timeout_total";
  kind = counter;
  labels = [];
  buckets = [];
}

unfoldable pub init_confirmation_metrics : List Metric
unfolding confirmation_latency confirmations_total pending_confirmations confirmation_timeout
init_confirmation_metrics =
    confirmation_latency ∷ confirmations_total ∷ pending_confirmations ∷ confirmation_timeout ∷ []

unfoldable pub merkle_build_duration : Metric
merkle_build_duration = record {
  name = str "ared_anchor_merkle_build_duration_seconds";
  kind = histogram;
  labels = [];
  buckets = 1000 ∷ 5000 ∷ 10000 ∷ 50000 ∷ 100000 ∷ 500000 ∷ 1000000 ∷ 5000000 ∷ [];
}

unfoldable pub merkle_tree_size : Metric
merkle_tree_size = record {
  name = str "ared_anchor_merkle_tree_size";
  kind = histogram;
  labels = [];
  buckets = 10 ∷ 50 ∷ 100 ∷ 500 ∷ 1000 ∷ 5000 ∷ 10000 ∷ 50000 ∷ [];
}

unfoldable pub merkle_proof_generation : Metric
merkle_proof_generation = record {
  name = str "ared_anchor_merkle_proof_duration_seconds";
  kind = histogram;
  labels = [];
  buckets = 100 ∷ 500 ∷ 1000 ∷ 5000 ∷ 10000 ∷ [];
}

unfoldable pub merkle_verifications : Metric
merkle_verifications = record {
  name = str "ared_anchor_merkle_verifications_total";
  kind = counter;
  labels = str "result" ∷ [];
  buckets = [];
}

unfoldable pub init_merkle_metrics : List Metric
unfolding merkle_build_duration merkle_tree_size merkle_proof_generation merkle_verifications
init_merkle_metrics =
    merkle_build_duration ∷ merkle_tree_size ∷ merkle_proof_generation ∷ merkle_verifications ∷ []

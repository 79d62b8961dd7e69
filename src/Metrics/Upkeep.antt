-- ===== src/Metrics/Upkeep.antt =====
-- The metrics of aggregation and reconciliation, and the texts, in src/app/metrics/anchor_metrics.py; and all
-- that it registers.
use ared_edge_iota_anchor.Prelude.{List, [], ◌∷◌, ◌++◌}
use ared_edge_iota_anchor.Text.{str}
use ared_edge_iota_anchor.Metrics.Metric.{Metric, counter, gauge, histogram, info}
use ared_edge_iota_anchor.Metrics.Anchoring.{
  init_posting_metrics, init_confirmation_metrics, init_merkle_metrics,
}

unfoldable pub events_aggregated : Metric
events_aggregated = record {
  name = str "ared_anchor_events_aggregated_total";
  kind = counter;
  labels = [];
  buckets = [];
}

unfoldable pub aggregation_duration : Metric
aggregation_duration = record {
  name = str "ared_anchor_aggregation_duration_seconds";
  kind = histogram;
  labels = [];
  buckets = 100000 ∷ 500000 ∷ 1000000 ∷ 5000000 ∷ 10000000 ∷ 30000000 ∷ [];
}

unfoldable pub aggregation_window_size : Metric
aggregation_window_size = record {
  name = str "ared_anchor_aggregation_window_seconds";
  kind = gauge;
  labels = [];
  buckets = [];
}

unfoldable pub events_per_anchor : Metric
events_per_anchor = record {
  name = str "ared_anchor_events_per_anchor";
  kind = histogram;
  labels = [];
  buckets = 1 ∷ 10 ∷ 50 ∷ 100 ∷ 500 ∷ 1000 ∷ 5000 ∷ 10000 ∷ [];
}

unfoldable pub last_aggregation_timestamp : Metric
last_aggregation_timestamp = record {
  name = str "ared_anchor_last_aggregation_timestamp";
  kind = gauge;
  labels = [];
  buckets = [];
}

unfoldable pub init_aggregation_metrics : List Metric
unfolding events_aggregated aggregation_duration aggregation_window_size events_per_anchor
    last_aggregation_timestamp
init_aggregation_metrics =
    events_aggregated ∷ aggregation_duration ∷ aggregation_window_size ∷ events_per_anchor
    ∷ last_aggregation_timestamp ∷ []

unfoldable pub reconciliation_runs : Metric
reconciliation_runs = record {
  name = str "ared_anchor_reconciliation_runs_total";
  kind = counter;
  labels = str "result" ∷ [];
  buckets = [];
}

unfoldable pub reconciliation_duration : Metric
reconciliation_duration = record {
  name = str "ared_anchor_reconciliation_duration_seconds";
  kind = histogram;
  labels = [];
  buckets = 1000000 ∷ 5000000 ∷ 10000000 ∷ 30000000 ∷ 60000000 ∷ 120000000 ∷ [];
}

unfoldable pub failed_anchors_recovered : Metric
failed_anchors_recovered = record {
  name = str "ared_anchor_failed_recovered_total";
  kind = counter;
  labels = [];
  buckets = [];
}

unfoldable pub anchors_marked_review : Metric
anchors_marked_review = record {
  name = str "ared_anchor_marked_review_total";
  kind = counter;
  labels = [];
  buckets = [];
}

unfoldable pub retry_queue_size : Metric
retry_queue_size = record {
  name = str "ared_anchor_retry_queue_size";
  kind = gauge;
  labels = [];
  buckets = [];
}

unfoldable pub init_reconciliation_metrics : List Metric
unfolding reconciliation_runs reconciliation_duration failed_anchors_recovered anchors_marked_review
    retry_queue_size
init_reconciliation_metrics =
    reconciliation_runs ∷ reconciliation_duration ∷ failed_anchors_recovered ∷ anchors_marked_review
    ∷ retry_queue_size ∷ []

unfoldable pub service_info : Metric
service_info = record { name = str "ared_anchor_service"; kind = info; labels = []; buckets = [] }

unfoldable pub iota_node_info : Metric
iota_node_info = record {
  name = str "ared_anchor_iota_node";
  kind = info;
  labels = [];
  buckets = [];
}

unfoldable pub last_anchor_digest : Metric
last_anchor_digest = record {
  name = str "ared_anchor_last_digest_timestamp";
  kind = gauge;
  labels = [];
  buckets = [];
}

unfoldable pub init_info_metrics : List Metric
unfolding service_info iota_node_info last_anchor_digest
init_info_metrics = service_info ∷ iota_node_info ∷ last_anchor_digest ∷ []

-- What `__init__` registers.
unfoldable pub registered : List Metric
unfolding init_posting_metrics init_confirmation_metrics init_merkle_metrics
    init_aggregation_metrics init_reconciliation_metrics init_info_metrics
registered =
    init_posting_metrics
    ++ (init_confirmation_metrics
        ++ (init_merkle_metrics
            ++ (init_aggregation_metrics ++ (init_reconciliation_metrics ++ (init_info_metrics)))))

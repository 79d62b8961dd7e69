-- ===== src/Metrics/Metric.antt =====
-- A metric as src/app/metrics/anchor_metrics.py registers it.
use ared_edge_iota_anchor.Prelude.{ℕ, List}
use ared_edge_iota_anchor.Text.{Str}

pub data MetricKind : Type 0 where
  counter gauge histogram info : MetricKind

-- A metric, with the names of its labels and the bounds of its buckets.
pub record Metric : Type 0 where
  pub name : Str
  pub kind : MetricKind
  pub labels : List Str
  pub buckets : List ℕ

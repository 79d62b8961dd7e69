-- ===== src/Reconciliation/Counters.antt =====
-- The counters of `run_reconciliation` in src/app/services/reconciliation.py.
use ared_edge_iota_anchor.Prelude.{
  ap, sym, ◌∙◌, ok_injective, ℕ, suc, Option, ◌+◌, ◌≤◌, ◌≡◌, refl, List, [], ◌∷◌, some, Result, ok,
  err, length, take, drop, sort_by, length-take-le, arith,
}
use ared_edge_iota_anchor.Text.{Str}
use ared_edge_iota_anchor.Anchor.{
  AnchorRecord, AnchorRow, AnchorStatus, from_row, pending, posted, status_value,
}
use ared_edge_iota_anchor.World.Types.{World, Env, Exec, Tables}
use ared_edge_iota_anchor.World.Exec.{execute, lift}
use ared_edge_iota_anchor.World.Steps.{bind-Goes, execute-Runs}
use ared_edge_iota_anchor.Repository.Anchors.{
  list_anchors, from_rows, newest_first, with_filter, truthy,
}
use ared_edge_iota_anchor.Reconciliation.Retry.{
  Outcome, retried, gave_up, review, not_yet, waiting, now_confirmed, process_pending_anchor,
  process_failed_anchor, confirm_anchor,
}
use ared_edge_iota_anchor.Reconciliation.Run.{
  ReconciliationResult, Progress, count_pending, count_posted, count_failed, process_all,
  get_anchors_by_status, phase, finish, zeros, run_reconciliation,
}

-- What the counters other than `processed` add up to.
abbrev pub outcomes : ReconciliationResult → ℕ
outcomes c = c.retried + c.confirmed + c.failed + c.marked_for_review

-- One outcome is counted at most once.
abbrev CountsOnce : (Outcome → ReconciliationResult → ReconciliationResult) → Type 0
CountsOnce count =
    (o : Outcome) (c : ReconciliationResult)
    → ((count o c).processed ≡ c.processed) × (outcomes (count o c) ≤ outcomes c + 1)

pending-CountsOnce : CountsOnce count_pending
unfolding count_pending
pending-CountsOnce retried c = (refl, omega arith)
pending-CountsOnce gave_up c = (refl, omega arith)
pending-CountsOnce review c = (refl, omega arith)
pending-CountsOnce not_yet c = (refl, omega arith)
pending-CountsOnce waiting c = (refl, omega arith)
pending-CountsOnce now_confirmed c = (refl, omega arith)

posted-CountsOnce : CountsOnce count_posted
unfolding count_posted
posted-CountsOnce retried c = (refl, omega arith)
posted-CountsOnce gave_up c = (refl, omega arith)
posted-CountsOnce review c = (refl, omega arith)
posted-CountsOnce not_yet c = (refl, omega arith)
posted-CountsOnce waiting c = (refl, omega arith)
posted-CountsOnce now_confirmed c = (refl, omega arith)

failed-CountsOnce : CountsOnce count_failed
unfolding count_failed
failed-CountsOnce retried c = (refl, omega arith)
failed-CountsOnce gave_up c = (refl, omega arith)
failed-CountsOnce review c = (refl, omega arith)
failed-CountsOnce not_yet c = (refl, omega arith)
failed-CountsOnce waiting c = (refl, omega arith)
failed-CountsOnce now_confirmed c = (refl, omega arith)

-- The counters after loops over at most `n` anchors.
record Counted (n : ℕ) (c : ReconciliationResult) : Type 0 where
  few : c.processed ≤ n
  covered : outcomes c ≤ c.processed

process_all-Counted :
    (process : AnchorRecord → Exec Outcome)
    (count : Outcome → ReconciliationResult → ReconciliationResult)
    → CountsOnce count
    → (n : ℕ) (c : ReconciliationResult) (anchors : List AnchorRecord) (w : World) → Counted n c
    → Counted (n + length anchors) (process_all process count c anchors w).0.0
unfolding process_all
process_all-Counted process count once n c [] w h = record {
  few = omega (arith, h.few);
  covered = h.covered;
}
process_all-Counted process count once n c (a ∷ anchors) w h =
    after (process a w).0
      (λ o hs. process_all-Counted process count once (n + 1) (count o started) anchors w' hs)
  where
    started : ReconciliationResult
    started = record c { processed = c.processed + 1 }

    w' : World
    w' = (process a w).1

    after :
        (r : Result Outcome)
        → ((o : Outcome)
            → Counted (n + 1) (count o started)
            → Counted
                (n + 1 + length anchors)
                (process_all process count (count o started) anchors w').0.0)
        → Counted
            (n + length (a ∷ anchors))
            (elim r as (λ _. Progress × World) [
              | ok outcome ↦ process_all process count (count outcome started) anchors w'
              | err e ↦ ((started, err e), w')
            ]).0.0
    after (ok o) rest =
        let (same, one) = once o started in
        let next = rest o (record {
          few = omega (arith, same, h.few);
          covered = omega (arith, same, one, h.covered);
        }) in
        record { few = omega (arith, next.few); covered = next.covered }
    after (err e) rest = record { few = omega (arith, h.few); covered = omega (arith, h.covered) }

length-from_rows :
    (rows : List AnchorRow) {l : List AnchorRecord} → from_rows rows ≡ ok l → length l ≡ length rows
unfolding from_rows
length-from_rows [] h = ground arith
length-from_rows (row ∷ rows) {l} h =
    go (from_row row) (from_rows rows) (λ as' q. length-from_rows rows {l = as'} q) h
  where
    go :
        (x : Result AnchorRecord) (xs : Result (List AnchorRecord))
        → ((as' : List AnchorRecord) → xs ≡ ok as' → length as' ≡ length rows)
        → elim x as (λ _. Result (List AnchorRecord)) [
          | err e ↦ err e
          | ok a ↦ elim xs as (λ _. Result (List AnchorRecord)) [
            | err e ↦ err e
            | ok as' ↦ ok (a ∷ as')
          ]
        ]
          ≡ ok l
        → length l ≡ suc (length rows)
    go (err e) xs q h = absurd (ground arith)
    go (ok a) (err e) q h = absurd (ground arith)
    go (ok a) (ok as') q h = ground (arith, q as' refl)

module _ (env : Env) where
  -- A page of `list_anchors` has at most `limit` anchors.
  pub list_anchors_limit :
      (status : Option Str) (limit offset : ℕ) (w : World) {l : List AnchorRecord}
      → (list_anchors env status limit offset w).0 ≡ ok l
      → length l ≤ limit
  unfolding list_anchors execute
  list_anchors_limit status limit offset w {l} h =
      let found =
        drop offset (sort_by newest_first (with_filter (truthy status) w.tables.anchors)) in
      let query : Tables → Result (List AnchorRow) × Tables = λ t. (
        ok (
            take limit
              (drop offset (sort_by newest_first (with_filter (truthy status) t.anchors)))),
        t,
      ) in
      let went = bind-Goes (execute env query) (λ rows. lift (from_rows rows)) w h in
      let ran = execute-Runs env query went.value w went.first in
      let rows = ok_injective ran.value in
      let read = length-from_rows went.value (ap (λ o. o.0) (sym went.rest) ∙ h) in
      let size = ap (λ (l : List AnchorRow). length l) rows in
      omega (arith, read, size, length-take-le limit found)

  phase-Counted :
      (status : AnchorStatus) (process : AnchorRecord → Exec Outcome)
      (count : Outcome → ReconciliationResult → ReconciliationResult)
      → CountsOnce count
      → (n : ℕ) (p : Progress × World) → Counted n p.0.0
      → Counted (n + 100) (phase env status process count p).0.0
  unfolding phase get_anchors_by_status
  phase-Counted status process count once n ((c, err e), w) h = record {
    few = omega (arith, h.few);
    covered = h.covered;
  }
  phase-Counted status process count once n ((c, ok u), w) h =
      go (get_anchors_by_status env status w).0 refl
    where
      w' : World
      w' = (get_anchors_by_status env status w).1

      go :
          (r : Result (List AnchorRecord))
          → (get_anchors_by_status env status w).0 ≡ r
          → Counted
              (n + 100)
              (elim r as (λ _. Progress × World) [
                | ok anchors ↦ process_all process count c anchors w'
                | err e ↦ ((c, err e), w')
              ]).0.0
      go (ok anchors) q =
          let loop = process_all-Counted process count once n c anchors w' h in
          record {
            few =
                omega (arith, loop.few, list_anchors_limit (some (status_value status)) 100 0 w q);
            covered = loop.covered;
          }
      go (err e) q = record { few = omega (arith, h.few); covered = h.covered }

  finish-bounds :
      (p : Progress × World)
      → Counted 300 p.0.0
      → let c = (finish env p).0 in (c.processed ≤ 300) × (outcomes c ≤ c.processed + 1)
  unfolding finish
  finish-bounds ((c, ok u), w) h = (h.few, omega (arith, h.covered))
  finish-bounds ((c, err e), w) h = (h.few, omega (arith, h.covered))

  -- Whatever fails on the way, a run processes at most 300 anchors, and its counters `retried`,
  -- `confirmed`, `failed` and `marked_for_review` add up to at most one more than `processed`: each
  -- anchor is counted once at most, and the exception that ends a run once.
  pub run_reconciliation_bounds :
      (w : World)
      → let c = (run_reconciliation env w).0 in (c.processed ≤ 300) × (outcomes c ≤ c.processed + 1)
  unfolding run_reconciliation
  run_reconciliation_bounds w =
      let start : Counted 0 (zeros env) = record { few = omega arith; covered = omega arith } in
      let one =
        phase-Counted pending (process_pending_anchor env) count_pending pending-CountsOnce 0
          ((zeros env, ok tt), w) start in
      let two =
        phase-Counted posted (confirm_anchor env) count_posted posted-CountsOnce 100 _ one in
      finish-bounds _ (
        phase-Counted AnchorStatus.failed (process_failed_anchor env) count_failed failed-CountsOnce
          200 _ two)

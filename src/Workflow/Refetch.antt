-- ===== src/Workflow/Refetch.antt =====
-- `fetch_unanchored_events` of src/app/services/event_consumer.py after `run_anchor_job` of
-- src/app/services/anchor_workflow.py.
use ared_edge_iota_anchor.Prelude.{
  ℕ, zero, suc, ◌≡◌, refl, sym, subst, Bool, Bool-cases, true, false, not, ◌&&◌, List, [], ◌∷◌,
  ◌++◌, Option, some, ok, All, arith, inl, inr, get_elem?, keep, take, sort_by, some_injective,
}
use ared_edge_iota_anchor.Text.{Str, str_eq, str_eq_refl, str_eq_sound}
use ared_edge_iota_anchor.Merkle.Node.{MerkleTree}
use ared_edge_iota_anchor.Merkle.Tree.{from_raw_hashes}
use ared_edge_iota_anchor.World.Types.{World, Env, IndexedEvent, ItemRow}
use ared_edge_iota_anchor.World.Exec.{execute}
use ared_edge_iota_anchor.Repository.Rows.{take-All, sort-All}
use ared_edge_iota_anchor.Iota.Submission.{IsRetrying}
use ared_edge_iota_anchor.Consumer.{
  EventWindow, event_hashes, anchored, after_start, in_order, fetch_unanchored_events,
}
use ared_edge_iota_anchor.Workflow.Job.{AnchorResult, anchor_window}
use ared_edge_iota_anchor.Workflow.Anchoring.{anchor_window_stores}

anchored-left :
    (xs ys : List ItemRow) (h : Str) → anchored xs h ≡ true → anchored (xs ++ ys) h ≡ true
unfolding anchored
anchored-left [] ys h e = absurd (ground arith)
anchored-left (x ∷ xs) ys h e = ground (arith, anchored-left xs ys h)

anchored-right :
    (xs ys : List ItemRow) (h : Str) → anchored ys h ≡ true → anchored (xs ++ ys) h ≡ true
unfolding anchored
anchored-right [] ys h e = e
anchored-right (x ∷ xs) ys h e = ground (arith, anchored-right xs ys h e)

anchored-get :
    (rows : List ItemRow) (i : ℕ) {row : ItemRow}
    → get_elem? rows i ≡ some row
    → anchored rows row.event_hash ≡ true
unfolding anchored
anchored-get [] i e = absurd (ground arith)
anchored-get (x ∷ rows) zero {row} e =
    let same : x ≡ row = some_injective e in rw (sym same, str_eq_refl x.event_hash) refl
anchored-get (x ∷ rows) (suc i) {row} e = ground (arith, anchored-get rows i {row = row} e)

module _ {A : Type 0} where
  keep-holds : (p : A → Bool) (xs : List A) → All (λ x. p x ≡ true) (keep p xs)
  keep-holds p [] = tt
  keep-holds p (x ∷ xs) = elim (Bool-cases (p x)) [
    | inl passes ↦ rw passes (passes, keep-holds p xs)
    | inr fails ↦ rw fails (keep-holds p xs)
  ]

  weaken : (P Q : A → Type 0) (xs : List A) → ((x : A) → P x → Q x) → All P xs → All Q xs
  weaken P Q [] k h = tt
  weaken P Q (x ∷ xs) k h = (k x h.0, weaken P Q xs k h.1)

module _ (env : Env) where
  -- What is fetched has no item.
  fetched-unanchored :
      (since : Option ℕ) (limit : ℕ) (w : World) {events : List IndexedEvent}
      → (fetch_unanchored_events env since limit w).0 ≡ ok events
      → All (λ (e : IndexedEvent). anchored w.tables.items e.event_hash ≡ false) events
  unfolding fetch_unanchored_events execute
  fetched-unanchored since limit w {events} h = elim (Bool-cases (env.fault w.calls)) [
    | inl fails ↦ absurd (ground arith)
    | inr runs ↦
        let same : take limit (sort_by in_order (keep wanted w.tables.events)) ≡ events =
          ground arith in
        subst (All (λ (e : IndexedEvent). anchored w.tables.items e.event_hash ≡ false)) same (
          take-All _ limit _ (
            sort-All _ in_order _ (
              weaken (λ e. wanted e ≡ true) _ (keep wanted w.tables.events) (λ e p. ground arith)
                (keep-holds wanted w.tables.events))))
  ]
    where
      wanted : IndexedEvent → Bool
      wanted e = not (anchored w.tables.items e.event_hash) && after_start since e

module _ (env : Env) (rt : IsRetrying env.retrying) (attempts : ℕ)
    (positive : env.settings.retry_count ≡ suc attempts) where
  -- Once steps 4 and 5 of the job have ended without an exception, no event of the window is fetched as
  -- unanchored again, in any world whose items begin with the stored ones: what is fetched there has
  -- other hashes.
  pub stored_window_leaves :
      (job_start start_time end_time : ℕ) (wait : Bool) (window : EventWindow) (tree : MerkleTree)
      (w : World) {res : AnchorResult} (since : Option ℕ) (limit : ℕ) (later : World)
      (more : List ItemRow) {events : List IndexedEvent} (i : ℕ) (e : IndexedEvent)
      → from_raw_hashes env.sha256 (event_hashes window) ≡ ok tree
      → (anchor_window env job_start start_time end_time wait window tree w).0 ≡ ok res
      → later.tables.items
        ≡ (anchor_window env job_start start_time end_time wait window tree w).1.committed.items
          ++ more
      → (fetch_unanchored_events env since limit later).0 ≡ ok events
      → get_elem? window.events i ≡ some e
      → All (λ (f : IndexedEvent). str_eq e.event_hash f.event_hash ≡ false) events
  stored_window_leaves job_start start_time end_time wait window tree w {res} since limit later more
        {events} i e built done kept fetched there =
      weaken _ _ events apart (fetched-unanchored env since limit later fetched)
    where
      has_item : anchored later.tables.items e.event_hash ≡ true
      has_item =
          let stored =
            anchor_window_stores env rt attempts positive job_start start_time end_time wait window
              tree w {res = res} built done in
          let (row, at, _, proved) = stored.proofs i e there in
          rw (kept, stored.items)
            (anchored-left (w.tables.items ++ stored.rows) more e.event_hash (
              anchored-right w.tables.items stored.rows e.event_hash (
                subst (λ h. anchored stored.rows h ≡ true) proved.hashed
                  (anchored-get stored.rows i at))))

      apart :
          (f : IndexedEvent)
          → anchored later.tables.items f.event_hash ≡ false
          → str_eq e.event_hash f.event_hash ≡ false
      apart f absent = elim (Bool-cases (str_eq e.event_hash f.event_hash)) [
        | inl same ↦
            let hash = str_eq_sound e.event_hash f.event_hash same in
            let clash : anchored later.tables.items f.event_hash ≡ true =
              subst (λ h. anchored later.tables.items h ≡ true) hash has_item in
            absurd (ground arith)
        | inr other ↦ other
      ]

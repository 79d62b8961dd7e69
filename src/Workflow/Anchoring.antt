-- ===== src/Workflow/Anchoring.antt =====
-- Steps 4 and 5 of `run_anchor_job` in src/app/services/anchor_workflow.py: what they store.
use ared_edge_iota_anchor.Prelude.{
  ℕ, zero, suc, ◌+◌, ◌<◌, ◌≡◌, refl, ap, sym, subst, ◌∙◌, true, false, Bool, List, [], ◌∷◌, ◌++◌,
  map, some, ok, Result, arith, get_elem?, length, get_elem?-map, ok_injective, some_injective,
}
use ared_edge_iota_anchor.Text.{Str, str}
use ared_edge_iota_anchor.Merkle.Node.{MerkleTree, MerkleProof}
use ared_edge_iota_anchor.Merkle.Tree.{from_raw_hashes, root_hash}
use ared_edge_iota_anchor.Merkle.Compact.{to_compact}
use ared_edge_iota_anchor.Merkle.Verify.{verify_proof}
use ared_edge_iota_anchor.Merkle.Completeness.{get_proof-verifies}
use ared_edge_iota_anchor.Anchor.{AnchorRecord, AnchorRow, to_row}
use ared_edge_iota_anchor.World.Types.{World, Tables, Env, IndexedEvent, ItemRow}
use ared_edge_iota_anchor.World.Exec.{pure, commit, execute}
use ared_edge_iota_anchor.World.Steps.{bind-Goes, execute-Runs, commit-tables}
use ared_edge_iota_anchor.Repository.Anchors.{save_anchor, upsert}
use ared_edge_iota_anchor.Repository.Items.{stored_proof}
use ared_edge_iota_anchor.Iota.Submission.{IsRetrying}
use ared_edge_iota_anchor.Service.Anchors.{create_anchor}
use ared_edge_iota_anchor.Service.Creation.{Creates, create_anchor-Creates}
use ared_edge_iota_anchor.Service.Pending.{create_anchor_data}
use ared_edge_iota_anchor.Consumer.{EventWindow, event_count, event_hashes}
use ared_edge_iota_anchor.Workflow.Job.{
  AnchorResult, completed, store_from, store_anchor_items, anchor_window,
}
use ared_edge_iota_anchor.Workflow.Storage.{IsItem, AreItems, Filled, store_from-Filled}

module _ (env : Env) where
  -- What a row of `anchor_items` says of the event at its index: its proof, read back with the row's
  -- hash and the anchor's digest, is one that `verify_proof` accepts.
  pub record Proved (digest : Str) (i : ℕ) (event : IndexedEvent) (row : ItemRow) : Type 0 where
    pub of_event : row.event_id ≡ some event.id
    pub hashed : row.event_hash ≡ event.event_hash
    pub at_index : row.position_in_merkle ≡ i
    pub proof : MerkleProof
    pub kept : row.merkle_proof ≡ stored_proof (some (to_compact proof))
    pub of_leaf : proof.leaf_hash ≡ row.event_hash
    pub of_digest : proof.root_hash ≡ digest
    pub verified : verify_proof env.sha256 proof ≡ ok true

  length-AreItems :
      (anchor_id : ℕ) (tree : MerkleTree) (start : ℕ) (events : List IndexedEvent)
      (rows : List ItemRow)
      → AreItems env anchor_id tree start events rows
      → length rows ≡ length events
  length-AreItems anchor_id tree start [] [] h = refl
  length-AreItems anchor_id tree start [] (row ∷ rows) h = elim h [ ]
  length-AreItems anchor_id tree start (x ∷ events) [] h = elim h [ ]
  length-AreItems anchor_id tree start (x ∷ events) (row ∷ rows) h =
      ap suc (length-AreItems anchor_id tree (start + 1) events rows h.1)

  AreItems-at :
      (anchor_id : ℕ) (tree : MerkleTree) (start i : ℕ) (events : List IndexedEvent)
      (rows : List ItemRow) (e : IndexedEvent)
      → AreItems env anchor_id tree start events rows
      → get_elem? events i ≡ some e
      → (row : ItemRow) × (get_elem? rows i ≡ some row)
        × IsItem env anchor_id tree (start + i) e row
  AreItems-at anchor_id tree start i [] rows e h found = absurd (ground arith)
  AreItems-at anchor_id tree start i (x ∷ events) [] e h found = elim h [ ]
  AreItems-at anchor_id tree start zero (x ∷ events) (row ∷ rows) e h found =
      let here : start ≡ start + 0 = omega arith in
      (
        row,
        refl,
        subst (λ j. IsItem env anchor_id tree j e row) here
            (subst (λ x. IsItem env anchor_id tree start x row) (some_injective found) h.0),
      )
  AreItems-at anchor_id tree start (suc i) (x ∷ events) (row ∷ rows) e h found =
      let (row', at, is_item) = AreItems-at anchor_id tree (start + 1) i events rows e h.1 found in
      let there : start + 1 + i ≡ start + suc i = omega arith in
      (row', at, subst (λ j. IsItem env anchor_id tree j e row') there is_item)

  -- The rows of a window whose tree was built from its hashes.
  AreItems-Proved :
      (anchor_id : ℕ) (tree : MerkleTree) (window : EventWindow) (rows : List ItemRow) (i : ℕ)
      (e : IndexedEvent)
      → from_raw_hashes env.sha256 (event_hashes window) ≡ ok tree
      → AreItems env anchor_id tree 0 window.events rows
      → get_elem? window.events i ≡ some e
      → (row : ItemRow) × (get_elem? rows i ≡ some row)
        × (row.anchor_id ≡ anchor_id)
        × Proved (root_hash tree) i e row
  unfolding event_hashes
  AreItems-Proved anchor_id tree window rows i e built items found =
      let hashes = map (λ (e : IndexedEvent). e.event_hash) window.events in
      let (row, at, is_item) = AreItems-at anchor_id tree 0 i window.events rows e items found in
      let here : 0 + i ≡ i = omega arith in
      let own = subst (λ j. IsItem env anchor_id tree j e row) here is_item in
      let named = get_elem?-map (λ (e : IndexedEvent). e.event_hash) window.events i found in
      let (h, proof, known, proves) =
        get_proof-verifies env.sha256 hashes tree i built (in_range hashes i named) in
      let same : proof ≡ own.proof = ok_injective (sym proves.returned ∙ own.made) in
      (
        row,
        at,
        own.of_anchor,
        record {
          of_event = own.of_event;
          hashed = own.hashed;
          at_index = own.at_index;
          proof = proof;
          kept = own.kept ∙ ap (λ p. stored_proof (some (to_compact p))) (sym same);
          of_leaf = proves.of_leaf ∙ some_injective (sym known ∙ named) ∙ sym own.hashed;
          of_digest = proves.to_root;
          verified = proves.verified;
        },
      )
    where
      in_range : (l : List Str) (j : ℕ) {x : Str} → get_elem? l j ≡ some x → j < length l
      in_range [] j h = absurd (ground arith)
      in_range (y ∷ l) zero h = omega arith
      in_range (y ∷ l) (suc j) h = omega (arith, in_range l j h)

  -- The upsert changes no item.
  items-upsert : (row : AnchorRow) (t : Tables) → (upsert row t).1.items ≡ t.items
  unfolding upsert
  items-upsert row t = ground arith

  items_stored :
      (anchor_id : ℕ) (tree : MerkleTree) (events : List IndexedEvent) (w : World)
      → (store_anchor_items env anchor_id tree events false w).0 ≡ ok tt
      → Filled env anchor_id tree 0 events w
          (store_anchor_items env anchor_id tree events false w).1
  unfolding store_anchor_items
  items_stored anchor_id tree events w h =
      let went = bind-Goes (store_from env anchor_id tree 0 events) (λ _. pure tt) w h in
      subst (λ (o : Result (Unit {0}) × World). Filled env anchor_id tree 0 events w o.1)
        (sym went.rest) (store_from-Filled env anchor_id tree 0 events w went.first)

  -- What is stored when a window has been anchored.
  pub record Anchored (start_time end_time : ℕ) (wait : Bool) (window : EventWindow)
      (tree : MerkleTree) (w w' : World) (res : AnchorResult) : Type 0 where
    pub anchor : AnchorRecord
    pub created :
        Creates env
          (root_hash tree)
          (event_count window)
          start_time
          end_time
          (str "merkle_sha256")
          wait
          w
          (ok anchor)
    pub reported :
        (res.success ≡ true)
        × (res.anchor_id ≡ some anchor.id)
        × (res.digest ≡ some (root_hash tree))
    pub anchors : w'.committed.anchors ≡ (upsert (to_row anchor) w.tables).1.anchors
    pub rows : List ItemRow
    pub items : w'.committed.items ≡ w.tables.items ++ rows
    pub as_many : length rows ≡ length window.events
    pub proofs :
        (i : ℕ) (e : IndexedEvent)
        → get_elem? window.events i ≡ some e
        → (row : ItemRow) × (get_elem? rows i ≡ some row)
          × (row.anchor_id ≡ anchor.id)
          × Proved (root_hash tree) i e row

module _ (env : Env) (rt : IsRetrying env.retrying) (attempts : ℕ)
    (positive : env.settings.retry_count ≡ suc attempts) where
  pub anchor_window_stores :
      (job_start start_time end_time : ℕ) (wait : Bool) (window : EventWindow) (tree : MerkleTree)
      (w : World) {res : AnchorResult}
      → from_raw_hashes env.sha256 (event_hashes window) ≡ ok tree
      → (anchor_window env job_start start_time end_time wait window tree w).0 ≡ ok res
      → Anchored env start_time end_time wait window tree w
          (anchor_window env job_start start_time end_time wait window tree w).1
          res
  unfolding anchor_window save_anchor completed
  anchor_window_stores job_start start_time end_time wait window tree w {res} built h =
      let method = str "merkle_sha256" in
      let made =
        bind-Goes
          (create_anchor env (root_hash tree) (event_count window) start_time end_time method wait)
          _ w h in
      let a = made.value in
      let w1 =
        (create_anchor env (root_hash tree) (event_count window) start_time end_time method wait
          w).1 in
      let h1 = ap (λ o. o.0) (sym made.rest) ∙ h in
      let (same_tables, _, _) =
        create_anchor_data env rt attempts positive (root_hash tree) (event_count window) start_time
          end_time method wait w in
      let put = bind-Goes (execute env (upsert (to_row a))) _ w1 h1 in
      let w2 = (execute env (upsert (to_row a)) w1).1 in
      let h2 = ap (λ o. o.0) (sym put.rest) ∙ h1 in
      let ran = execute-Runs env (upsert (to_row a)) put.value w1 put.first in
      let filled = bind-Goes (store_anchor_items env a.id tree window.events false) _ w2 h2 in
      let w3 = (store_anchor_items env a.id tree window.events false w2).1 in
      let h3 = ap (λ o. o.0) (sym filled.rest) ∙ h2 in
      let stored = items_stored env a.id tree window.events w2 filled.first in
      let done = bind-Goes (commit env) _ w3 h3 in
      let h4 = ap (λ o. o.0) (sym done.rest) ∙ h3 in
      let finish = commit-tables env w3 done.first in
      let to_end = made.rest ∙ put.rest ∙ filled.rest ∙ done.rest in
      let before = ran.tables ∙ ap (λ (t : Tables). (upsert (to_row a) t).1) same_tables in
      let stored_items =
        ap (λ (t : Tables). t.items) before ∙ items-upsert env (to_row a) w.tables in
      subst
        (λ (o : Result AnchorResult × World).
          Anchored env start_time end_time wait window tree w o.1 res)
        (sym to_end)
        (record {
          anchor = a;
          created =
              subst
                (Creates env (root_hash tree) (event_count window) start_time end_time method wait
                  w)
                made.first
                (create_anchor-Creates env rt attempts positive (root_hash tree)
                  (event_count window) start_time end_time method wait w);
          reported = ground (arith, ap (λ o. o.0) (sym to_end), h4);
          anchors =
              ap (λ (t : Tables). t.anchors) (finish.0 ∙ stored.tables)
              ∙ ap (λ (t : Tables). t.anchors) before;
          rows = stored.rows;
          items =
              ap (λ (t : Tables). t.items) (finish.0 ∙ stored.tables)
              ∙ ap (λ (l : List ItemRow). l ++ stored.rows) stored_items;
          as_many = length-AreItems env a.id tree 0 window.events stored.rows stored.are_items;
          proofs = λ i e found.
              AreItems-Proved env a.id tree window stored.rows i e built stored.are_items found;
        })

-- ===== src/Workflow/Storage.antt =====
-- What `_store_anchor_items` of src/app/services/anchor_workflow.py writes.
use ared_edge_iota_anchor.Prelude.{
  ℕ, ◌+◌, ◌≡◌, refl, ap, sym, subst, ◌∙◌, List, [], ◌∷◌, ◌++◌, some, ok, Result, arith,
}
use ared_edge_iota_anchor.Merkle.Node.{MerkleTree, MerkleProof}
use ared_edge_iota_anchor.Merkle.Proof.{get_proof}
use ared_edge_iota_anchor.Merkle.Compact.{to_compact}
use ared_edge_iota_anchor.World.Types.{World, Tables, Env, IndexedEvent, ItemRow}
use ared_edge_iota_anchor.World.Exec.{lift}
use ared_edge_iota_anchor.World.Steps.{bind-Goes}
use ared_edge_iota_anchor.Repository.Items.{stored_proof, save_anchor_item}
use ared_edge_iota_anchor.Workflow.Job.{store_from}
use mathlib.Core.List.{append_assoc, append-nil}

module _ (env : Env) where
  -- The row of one event at index `i`.
  pub record IsItem (anchor_id : ℕ) (tree : MerkleTree) (i : ℕ) (event : IndexedEvent)
      (row : ItemRow) : Type 0 where
    pub of_anchor : row.anchor_id ≡ anchor_id
    pub of_event : row.event_id ≡ some event.id
    pub hashed : row.event_hash ≡ event.event_hash
    pub at_index : row.position_in_merkle ≡ i
    pub proof : MerkleProof
    pub made : get_proof env.sha256 tree i ≡ ok proof
    pub kept : row.merkle_proof ≡ stored_proof (some (to_compact proof))

  -- A row for each event, in the order of the tree.
  abbrev pub AreItems : ℕ → MerkleTree → ℕ → List IndexedEvent → List ItemRow → Type 0
  AreItems anchor_id tree i [] [] = Unit
  AreItems anchor_id tree i (e ∷ es) (row ∷ rows) =
      IsItem anchor_id tree i e row × AreItems anchor_id tree (i + 1) es rows
  AreItems anchor_id tree i _ _ = ⊥

  -- One INSERT.
  record Inserted (anchor_id : ℕ) (tree : MerkleTree) (i : ℕ) (e : IndexedEvent) (w w' : World)
      : Type 0 where
    pub row : ItemRow
    pub is_item : IsItem anchor_id tree i e row
    pub tables : w'.tables ≡ record w.tables { items = w.tables.items ++ row ∷ [] }
    pub committed : w'.committed ≡ w.committed
    pub lock : w'.lock_count ≡ w.lock_count

  saved :
      (anchor_id : ℕ) (tree : MerkleTree) (i : ℕ) (e : IndexedEvent) (proof : MerkleProof)
      (w : World) (id : ℕ)
      → get_proof env.sha256 tree i ≡ ok proof
      → (save_anchor_item env anchor_id e.event_hash i (some e.id) (some (to_compact proof)) w).0
        ≡ ok id
      → Inserted anchor_id tree i e w
          (save_anchor_item env anchor_id e.event_hash i (some e.id) (some (to_compact proof)) w).1
  unfolding save_anchor_item
  saved anchor_id tree i e proof w id made h = record {
    row = record {
      id = env.uuid4 w.draws;
      anchor_id = anchor_id;
      event_id = some e.id;
      event_hash = e.event_hash;
      position_in_merkle = i;
      merkle_proof = stored_proof (some (to_compact proof));
      created_at = w.now;
    };
    is_item = record {
      of_anchor = refl;
      of_event = refl;
      hashed = refl;
      at_index = refl;
      proof = proof;
      made = made;
      kept = refl;
    };
    tables = ground arith;
    committed = ground arith;
    lock = ground arith;
  }

  -- What the loop has done where it does not raise.
  pub record Filled (anchor_id : ℕ) (tree : MerkleTree) (i : ℕ) (events : List IndexedEvent)
      (w w' : World) : Type 0 where
    pub rows : List ItemRow
    pub are_items : AreItems anchor_id tree i events rows
    pub tables : w'.tables ≡ record w.tables { items = w.tables.items ++ rows }
    pub committed : w'.committed ≡ w.committed
    pub lock : w'.lock_count ≡ w.lock_count

  extended :
      (anchor_id : ℕ) (tree : MerkleTree) (i : ℕ) (e : IndexedEvent) (es : List IndexedEvent)
      (w w1 w2 : World)
      → Inserted anchor_id tree i e w w1
      → Filled anchor_id tree (i + 1) es w1 w2
      → Filled anchor_id tree i (e ∷ es) w w2
  extended anchor_id tree i e es w w1 w2 one later = record {
    rows = one.row ∷ later.rows;
    are_items = (one.is_item, later.are_items);
    tables =
        later.tables
        ∙ ap (λ (t : Tables). record t { items = t.items ++ later.rows }) one.tables
        ∙ ap (λ (rows : List ItemRow). record w.tables { items = rows })
            (append_assoc w.tables.items (one.row ∷ []) later.rows);
    committed = later.committed ∙ one.committed;
    lock = later.lock ∙ one.lock;
  }

  pub store_from-Filled :
      (anchor_id : ℕ) (tree : MerkleTree) (i : ℕ) (events : List IndexedEvent) (w : World)
      → (store_from env anchor_id tree i events w).0 ≡ ok tt
      → Filled anchor_id tree i events w (store_from env anchor_id tree i events w).1
  unfolding store_from
  store_from-Filled anchor_id tree i [] w h = record {
    rows = [];
    are_items = tt;
    tables = λ k. record w.tables { items = sym (append-nil w.tables.items) k };
    committed = refl;
    lock = refl;
  }
  store_from-Filled anchor_id tree i (e ∷ es) w h =
      let got = bind-Goes (lift (get_proof env.sha256 tree i)) _ w h in
      let proof = got.value in
      let h1 = ap (λ o. o.0) (sym got.rest) ∙ h in
      let put =
        bind-Goes
          (save_anchor_item env anchor_id e.event_hash i (some e.id) (some (to_compact proof))) _ w
          h1 in
      let one = saved anchor_id tree i e proof w put.value got.first put.first in
      let w1 =
        (save_anchor_item env anchor_id e.event_hash i (some e.id) (some (to_compact proof)) w).1 in
      let h2 = ap (λ o. o.0) (sym put.rest) ∙ h1 in
      let later = store_from-Filled anchor_id tree (i + 1) es w1 h2 in
      subst (λ (o : Result (Unit {0}) × World). Filled anchor_id tree i (e ∷ es) w o.1)
        (sym (got.rest ∙ put.rest)) (extended anchor_id tree i e es w w1 _ one later)

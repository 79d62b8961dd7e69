-- ===== src/Repository/Refinement.antt =====
-- The table `anchors` of src/app/db/repository.py as a map from windows to rows, which forgets the order
-- of the rows, and what `save_anchor` and `update_anchor_status` do to that map.
use mathlib.Core.Path.{fun_ext}
use ared_edge_iota_anchor.Prelude.{
  ℕ, ◌≡◌, refl, sym, ap, ◌∙◌, Bool, Bool-cases, true, false, List, [], ◌∷◌, ◌++◌, Option, none,
  some, Result, ok, err, database_error, find, update_where, find-append, arith, inl, inr,
  if◌then◌else◌, subst, Exception, Result-cases, ◌⊎◌,
}
use ared_edge_iota_anchor.Text.{Str, str_eq_sound, str_eq_refl}
use ared_edge_iota_anchor.Anchor.{AnchorRecord, AnchorRow, to_row}
use ared_edge_iota_anchor.World.Types.{World, Tables, Env}
use ared_edge_iota_anchor.World.Exec.{execute}
use ared_edge_iota_anchor.Repository.Anchors.{has_window, has_id, excluded, upsert, save_anchor}

-- A digest, a start and an end.
abbrev pub Window : Type 0
Window = Str × ℕ × ℕ

abbrev pub AnchorMap : Type 0
AnchorMap = Window → Option AnchorRow

abbrev pub at_window : Window → AnchorRow → Bool
at_window (digest, start_time, end_time) = has_window digest start_time end_time

abbrev pub view : Tables → AnchorMap
view t k = find (at_window k) t.anchors

abbrev pub merged : AnchorRow → Option AnchorRow → AnchorRow
merged row none = row
merged row (some old) = excluded row old

-- The row goes to its window, merged with what is there; other windows are left alone.
abbrev pub put : AnchorRow → AnchorMap → AnchorMap
put row m k = if at_window k row then some (merged row (m k)) else m k

window-eq :
    (k : Window) (x : AnchorRow) → at_window k x ≡ true → (x.digest, x.start_time, x.end_time) ≡ k
unfolding has_window
window-eq (digest, start_time, end_time) x h =
    let e1 : x.digest ≡ digest = str_eq_sound x.digest digest (ground arith) in
    let e2 : x.start_time ≡ start_time = ground arith in
    let e3 : x.end_time ≡ end_time = ground arith in cc

abbrev own_window : AnchorRow → Window
own_window x = (x.digest, x.start_time, x.end_time)

module _ {A : Type 0} (p q : A → Bool) (f : A → A) (kept : (x : A) → q (f x) ≡ q x) where
  abbrev changed : Option A → Option A
  changed none = none
  changed (some x) = some (if p x then f x else x)

  find-update : (xs : List A) → find q (update_where p f xs) ≡ changed (find q xs)
  find-update [] = refl
  find-update (x ∷ xs) = elim (Bool-cases (p x)) [
    | inl passes ↦ elim (Bool-cases (q x)) [
      | inl found ↦ rw (passes, kept x, found, passes) refl
      | inr not_found ↦ rw (passes, kept x, not_found) (find-update xs)
    ]
    | inr fails ↦ elim (Bool-cases (q x)) [
      | inl found ↦ rw (fails, found, fails) refl
      | inr not_found ↦ rw (fails, not_found) (find-update xs)
    ]
  ]

find-holds : {A : Type 0} (q : A → Bool) (xs : List A) {x : A} → find q xs ≡ some x → q x ≡ true
find-holds q [] h = absurd (ground arith)
find-holds q (y ∷ xs) {x} h = elim (Bool-cases (q y)) [
  | inl found ↦ let same : y ≡ x = ground arith in subst (λ z. q z ≡ true) same found
  | inr other ↦ let rest : find q xs ≡ some x = ground arith in find-holds q xs rest
]

find-append_other :
    {A : Type 0} (q : A → Bool) (xs : List A) (y : A)
    → q y ≡ false
    → find q (xs ++ y ∷ []) ≡ find q xs
find-append_other q [] y h = ground arith
find-append_other q (x ∷ xs) y h = ground (arith, find-append_other q xs y h)

module _ (row : AnchorRow) where
  abbrev own : Window
  own = own_window row

  own-holds : at_window own row ≡ true
  unfolding has_window
  own-holds = ground (arith, str_eq_refl row.digest)

  -- A row of another window is none that the statement changes.
  others :
      (k : Window) (x : AnchorRow)
      → at_window k x ≡ true
      → at_window k row ≡ false
      → at_window own x ≡ false
  others k x there apart = elim (Bool-cases (at_window own x)) [
    | inl same ↦
        let e : own ≡ k = sym (window-eq own x same) ∙ window-eq k x there in
        absurd (ground (arith, subst (λ (v : Window). at_window v row ≡ true) e own-holds))
    | inr other ↦ other
  ]

  update-view :
      (anchors : List AnchorRow) (k : Window) {old : AnchorRow}
      → find (at_window own) anchors ≡ some old
      → find (at_window k) (update_where (at_window own) (excluded row) anchors) ≡ (
          if at_window k row
          then some (merged row (find (at_window k) anchors))
          else find (at_window k) anchors)
  unfolding has_window excluded
  update-view anchors k {old} e =
      find-update (at_window own) (at_window k) (excluded row) (λ x. refl) anchors
      ∙ of (at_window k row) (find (at_window k) anchors) refl refl
    where
      of :
          (there : Bool) (found : Option AnchorRow)
          → at_window k row ≡ there
          → find (at_window k) anchors ≡ found
          → changed (at_window own) (at_window k) (excluded row) (λ x. refl) found
            ≡ (if there then some (merged row found) else found)
      of true none e1 e2 =
          let there = ap (λ (v : Window). find (at_window v) anchors) (window-eq k row e1) in
          let clash : none ≡ some old = sym e2 ∙ sym there ∙ e in absurd (ground arith)
      of true (some x) e1 e2 =
          let p : at_window own x ≡ true =
            subst (λ (v : Window). at_window v x ≡ true) (sym (window-eq k row e1))
              (find-holds (at_window k) anchors e2) in
          rw p refl
      of false none e1 e2 = refl
      of false (some x) e1 e2 = rw (others k x (find-holds (at_window k) anchors e2) e1) refl

  append-view :
      (anchors : List AnchorRow) (k : Window)
      → find (at_window own) anchors ≡ none
      → find (at_window k) (anchors ++ row ∷ []) ≡ (
          if at_window k row
          then some (merged row (find (at_window k) anchors))
          else find (at_window k) anchors)
  append-view anchors k e = elim (Bool-cases (at_window k row)) [
    | inl there ↦
        let absent : find (at_window k) anchors ≡ none =
          subst (λ (v : Window). find (at_window v) anchors ≡ none) (window-eq k row there) e in
        rw (there, absent) (find-append (at_window k) anchors row absent there)
    | inr other ↦ rw other (find-append_other (at_window k) anchors row other)
  ]

  upsert-view :
      (t : Tables) {id : ℕ} → (upsert row t).0 ≡ ok id → view (upsert row t).1 ≡ put row (view t)
  unfolding upsert
  upsert-view t {id} h = of (find (at_window own) t.anchors) (find (has_id row.id) t.anchors) refl h
    where
      of :
          (old other : Option AnchorRow)
          → find (at_window own) t.anchors ≡ old
          → let o = elim old as (λ _. Result ℕ × Tables) [
            | some old ↦ (
              ok old.id,
              record t { anchors = update_where (at_window own) (excluded row) t.anchors },
            )
            | none ↦ elim other as (λ _. Result ℕ × Tables) [
              | some other ↦ (err database_error, t)
              | none ↦ (ok row.id, record t { anchors = t.anchors ++ row ∷ [] })
            ]
          ] in
            o.0 ≡ ok id → view o.1 ≡ put row (view t)
      of (some old) other e h = fun_ext (λ k. update-view t.anchors k e)
      of none (some other) e h = absurd (ground arith)
      of none none e h = fun_ext (λ k. append-view t.anchors k e)

  -- A statement that raises has changed nothing.
  upsert-raises : (t : Tables) {e : Exception} → (upsert row t).0 ≡ err e → (upsert row t).1 ≡ t
  unfolding upsert
  upsert-raises t h = of (find (at_window own) t.anchors) (find (has_id row.id) t.anchors) h
    where
      of :
          (old other : Option AnchorRow) {e : Exception}
          → let o = elim old as (λ _. Result ℕ × Tables) [
            | some old ↦ (
              ok old.id,
              record t { anchors = update_where (at_window own) (excluded row) t.anchors },
            )
            | none ↦ elim other as (λ _. Result ℕ × Tables) [
              | some other ↦ (err database_error, t)
              | none ↦ (ok row.id, record t { anchors = t.anchors ++ row ∷ [] })
            ]
          ] in
            o.0 ≡ err e → o.1 ≡ t
      of (some old) other h = absurd (ground arith)
      of none (some other) h = refl
      of none none h = absurd (ground arith)

module _ (env : Env) where
  -- Read as a map from windows to rows, what `save_anchor` does where it returns is one entry: the window
  -- of the record has the record's row, merged with the row that was there, and every other window is as
  -- it was. Where it raises, the map is as it was.
  pub save_anchor-refines :
      (a : AnchorRecord) (w : World)
      → ((id : ℕ) × ((save_anchor env a w).0 ≡ ok id)
          × (view (save_anchor env a w).1.tables ≡ put (to_row a) (view w.tables)))
        ⊎ ((e : Exception) × ((save_anchor env a w).0 ≡ err e)
            × (view (save_anchor env a w).1.tables ≡ view w.tables))
  unfolding save_anchor execute
  save_anchor-refines a w = elim (Bool-cases (env.fault w.calls)) [
    | inl fails ↦ rw fails (inr (_, refl, refl))
    | inr runs ↦ rw runs (elim (Result-cases (upsert (to_row a) w.tables).0) [
      | inl (id, e) ↦ inl (id, e, upsert-view (to_row a) w.tables e)
      | inr (x, e) ↦ inr (x, e, ap view (upsert-raises (to_row a) w.tables e))
    ])
  ]

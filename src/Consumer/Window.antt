-- ===== src/Consumer/Window.antt =====
-- What `fetch_events_for_window` of src/app/services/event_consumer.py returns.
use ared_edge_iota_anchor.Prelude.{
  All, consumer_error, ℕ, ◌≡◌, refl, ap, ◌∙◌, sym, subst, length, Bool, Bool-cases, true, false,
  List, [], ◌∷◌, Result, ok, err, Exception, arith, keep, sort_by, insert_by, inl, inr,
  if◌then◌else◌, ok_injective,
}
use ared_edge_iota_anchor.Text.{Str}
use ared_edge_iota_anchor.World.Types.{World, Tables, Env, IndexedEvent, Exec}
use ared_edge_iota_anchor.World.Exec.{execute, try_except, rescue, pure, raise, ◌>>=◌}
use ared_edge_iota_anchor.World.Steps.{bind-Goes, execute-Runs}
use ared_edge_iota_anchor.Consumer.{
  EventWindow, Position, in_order, in_window, fetch_events_for_window, advance,
}
use ared_edge_iota_anchor.Consumer.Wanted.{
  Before, Ordered, IsWanted, in_order-Before, kept-IsWanted, length-keep_wanted,
}

insert-All :
    (P : IndexedEvent → Type 0) (x : IndexedEvent) (es : List IndexedEvent)
    → P x
    → All P es
    → All P (insert_by in_order x es)
insert-All P x [] h hs = (h, tt)
insert-All P x (y ∷ es) h hs = elim (Bool-cases (in_order x y)) [
  | inl before ↦ rw before (h, hs)
  | inr after ↦ rw after (hs.0, insert-All P x es h hs.1)
]

sort-All :
    (P : IndexedEvent → Type 0) (es : List IndexedEvent) → All P es → All P (sort_by in_order es)
sort-All P [] h = tt
sort-All P (e ∷ es) h = insert-All P e (sort_by in_order es) h.0 (sort-All P es h.1)

in_order_total : (a b : IndexedEvent) → in_order a b ≡ false → Before b a
unfolding in_order
in_order_total a b h = ground arith

insert-Ordered :
    (x : IndexedEvent) (es : List IndexedEvent) → Ordered es → Ordered (insert_by in_order x es)
insert-Ordered x [] h = tt
insert-Ordered x (y ∷ []) h = elim (Bool-cases (in_order x y)) [
  | inl before ↦ rw before (in_order-Before x y before, tt)
  | inr after ↦ rw after (in_order_total x y after, tt)
]
insert-Ordered x (y ∷ z ∷ es) h = elim (Bool-cases (in_order x y)) [
  | inl before ↦ rw before (in_order-Before x y before, h)
  | inr after ↦ elim (Bool-cases (in_order x z)) [
    | inl then_before ↦
        rw (after, then_before) (in_order_total x y after, (in_order-Before x z then_before, h.1))
    | inr then_after ↦
        let rest : Ordered (z ∷ insert_by in_order x es) =
          subst (λ b. Ordered (if b then x ∷ z ∷ es else z ∷ insert_by in_order x es)) then_after
            (insert-Ordered x (z ∷ es) h.1) in
        rw (after, then_after) (h.0, rest)
  ]
]

sort-Ordered : (es : List IndexedEvent) → Ordered (sort_by in_order es)
sort-Ordered [] = tt
sort-Ordered (e ∷ es) = insert-Ordered e (sort_by in_order es) (sort-Ordered es)

module _ (p : IndexedEvent → Bool) where
  length-keep-insert :
      (x : IndexedEvent) (es : List IndexedEvent)
      → length (keep p (insert_by in_order x es)) ≡ length (keep p (x ∷ es))
  length-keep-insert x [] = refl
  length-keep-insert x (y ∷ es) = ground (arith, length-keep-insert x es)

  length-keep-sort :
      (es : List IndexedEvent) → length (keep p (sort_by in_order es)) ≡ length (keep p es)
  length-keep-sort [] = refl
  length-keep-sort (e ∷ es) =
      ground (arith, length-keep-insert e (sort_by in_order es), length-keep-sort es)

not_rescued :
    {A : Type 0} (m : Exec A) (x : Exception) (w : World) {a : A}
    → (try_except m (λ _. raise x) w).0 ≡ ok a
    → (m w).0 ≡ ok a
not_rescued {A} m x w {a} h = of (m w).0 h
  where
    of : (r : Result A) → (rescue r (λ _. raise x) (m w).1).0 ≡ ok a → r ≡ ok a
    of (ok b) h = h
    of (err e) h = absurd (ground arith)

module _ (env : Env) where
  -- Where `fetch_events_for_window` returns, the events of its window are in the order of block and
  -- index, each is from `start_time` on, before `end_time` and in one of the pallets, if there are any, and
  -- of each kind of such events there are as many as in the table: none is lost, added or repeated.
  pub fetched_window :
      (position : Position) (start_time end_time : ℕ) (pallets : List Str) (w : World)
      {fetched : EventWindow × Position} (kind : IndexedEvent → Bool)
      → ((e : IndexedEvent) → kind e ≡ true → IsWanted start_time end_time pallets e)
      → (fetch_events_for_window env position start_time end_time pallets w).0 ≡ ok fetched
      → Ordered fetched.0.events
        × All (IsWanted start_time end_time pallets) fetched.0.events
        × (length (keep kind fetched.0.events) ≡ length (keep kind w.tables.events))
  unfolding fetch_events_for_window
  fetched_window position start_time end_time pallets w {fetched} kind wanted h =
      let query : Tables → Result (List IndexedEvent) × Tables =
        λ t. (ok (sort_by in_order (keep (in_window start_time end_time pallets) t.events)), t) in
      let answer : List IndexedEvent → Exec (EventWindow × Position) = λ events. pure (
        record { start_time = start_time; end_time = end_time; events = events },
        advance position events,
      ) in
      let returned = not_rescued (execute env query >>= answer) consumer_error w h in
      let went = bind-Goes (execute env query) answer w returned in
      let ran = execute-Runs env query went.value w went.first in
      let whole = ok_injective (ap (λ o. o.0) (sym went.rest) ∙ returned) in
      let events = ok_injective ran.value ∙ ap (λ (f : EventWindow × Position). f.0.events) whole in
      let found = keep (in_window start_time end_time pallets) w.tables.events in
      (
        subst Ordered events (sort-Ordered found),
        subst (All (IsWanted start_time end_time pallets)) events (
            sort-All (IsWanted start_time end_time pallets) found
              (kept-IsWanted start_time end_time pallets w.tables.events)),
        ap (λ (es : List IndexedEvent). length (keep kind es)) (sym events)
            ∙ length-keep-sort kind found
            ∙ length-keep_wanted start_time end_time pallets kind wanted w.tables.events,
      )

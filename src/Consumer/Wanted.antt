-- ===== src/Consumer/Wanted.antt =====
-- The rows that `fetch_events_for_window` of src/app/services/event_consumer.py asks for, and their order.
use ared_edge_iota_anchor.Prelude.{
  All, ◌<◌, ◌≤◌, ◌⊎◌, ℕ, ◌≡◌, refl, subst, length, Bool, Bool-cases, true, List, [], ◌∷◌, arith,
  keep, inl, inr,
}
use ared_edge_iota_anchor.Text.{Str, str_eq, str_eq_refl, str_eq_sound}
use ared_edge_iota_anchor.World.Types.{IndexedEvent}
use ared_edge_iota_anchor.Consumer.{in_order, in_window, in_pallets, member}

-- A row comes before a later one: by its block, and in one block by its index.
abbrev pub Before : IndexedEvent → IndexedEvent → Type 0
Before a b =
    (a.block_number < b.block_number)
    ⊎ ((a.block_number ≡ b.block_number) × (a.event_index ≤ b.event_index))

-- Each row comes before the next one.
abbrev pub Ordered : List IndexedEvent → Type 0
Ordered [] = Unit {0}
Ordered (a ∷ []) = Unit {0}
Ordered (a ∷ b ∷ es) = Before a b × Ordered (b ∷ es)

abbrev pub Among : Str → List Str → Type 0
Among s [] = ⊥
Among s (p ∷ ps) = (p ≡ s) ⊎ Among s ps

-- An event from `start_time` to before `end_time`, in one of the pallets where there are any.
abbrev pub IsWanted : (start_time end_time : ℕ) → List Str → IndexedEvent → Type 0
IsWanted start_time end_time pallets e =
    (start_time ≤ e.timestamp)
    × (e.timestamp < end_time)
    × ((pallets ≡ []) ⊎ Among e.pallet pallets)

pub in_order-Before : (a b : IndexedEvent) → in_order a b ≡ true → Before a b
unfolding in_order
in_order-Before a b h = ground arith

member-Among : (ps : List Str) (s : Str) → member ps s ≡ true → Among s ps
unfolding member
member-Among [] s h = absurd (ground arith)
member-Among (p ∷ ps) s h = elim (Bool-cases (str_eq p s)) [
  | inl same ↦ inl (str_eq_sound p s same)
  | inr other ↦ inr (member-Among ps s (ground arith))
]

Among-member : (ps : List Str) (s : Str) → Among s ps → member ps s ≡ true
unfolding member
Among-member [] s h = absurd h
Among-member (p ∷ ps) s (inl same) =
    let equal : str_eq p s ≡ true = subst (λ t. str_eq p t ≡ true) same (str_eq_refl p) in
    ground arith
Among-member (p ∷ ps) s (inr later) = let found = Among-member ps s later in ground (arith, found)

in_pallets-Among :
    (ps : List Str) (e : IndexedEvent) → in_pallets ps e ≡ true → (ps ≡ []) ⊎ Among e.pallet ps
unfolding in_pallets
in_pallets-Among [] e h = inl refl
in_pallets-Among (p ∷ ps) e h = inr (member-Among (p ∷ ps) e.pallet h)

Among-in_pallets :
    (ps : List Str) (e : IndexedEvent) → (ps ≡ []) ⊎ Among e.pallet ps → in_pallets ps e ≡ true
unfolding in_pallets
Among-in_pallets [] e h = refl
Among-in_pallets (p ∷ ps) e (inl h) = absurd (ground arith)
Among-in_pallets (p ∷ ps) e (inr h) = Among-member (p ∷ ps) e.pallet h

module _ (start_time end_time : ℕ) (pallets : List Str) where
  in_window-IsWanted :
      (e : IndexedEvent)
      → in_window start_time end_time pallets e ≡ true
      → IsWanted start_time end_time pallets e
  unfolding in_window
  in_window-IsWanted e h = (ground arith, ground arith, in_pallets-Among pallets e (ground arith))

  IsWanted-in_window :
      (e : IndexedEvent)
      → IsWanted start_time end_time pallets e
      → in_window start_time end_time pallets e ≡ true
  unfolding in_window
  IsWanted-in_window e (late, early, placed) =
      let inside = Among-in_pallets pallets e placed in ground (arith, inside)

  pub kept-IsWanted :
      (es : List IndexedEvent)
      → All (IsWanted start_time end_time pallets) (keep (in_window start_time end_time pallets) es)
  kept-IsWanted [] = tt
  kept-IsWanted (e ∷ es) = elim (Bool-cases (in_window start_time end_time pallets e)) [
    | inl here ↦ rw here (in_window-IsWanted e here, kept-IsWanted es)
    | inr gone ↦ rw gone (kept-IsWanted es)
  ]

  -- A kind of wanted events is as frequent among the kept ones.
  pub length-keep_wanted :
      (kind : IndexedEvent → Bool)
      → ((e : IndexedEvent) → kind e ≡ true → IsWanted start_time end_time pallets e)
      → (es : List IndexedEvent)
      → length (keep kind (keep (in_window start_time end_time pallets) es)) ≡ length (keep kind es)
  length-keep_wanted kind wanted [] = refl
  length-keep_wanted kind wanted (e ∷ es) = elim (Bool-cases (kind e)) [
    | inl asked ↦
        let here = IsWanted-in_window e (wanted e asked) in
        ground (arith, here, length-keep_wanted kind wanted es)
    | inr other ↦ ground (arith, length-keep_wanted kind wanted es)
  ]

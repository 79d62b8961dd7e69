-- ===== src/Repository/Rows.antt =====
-- Lists of rows under the two ways in which src/app/db/repository.py writes them: a row added behind the
-- others, and a change of the rows that pass a test.
use ared_edge_iota_anchor.Prelude.{
  ◌≡◌, refl, ◌∙◌, sym, Bool, false, Bool-cases, List, [], ◌∷◌, ◌++◌, none, some, All, find,
  update_where, arith, inl, inr, if◌then◌else◌, ℕ, zero, suc, keep, take, drop, insert_by, sort_by,
  subst,
}

-- No two rows of a list are alike.
abbrev pub Unique {ℓ} : {A : Type ℓ} → (A → A → Bool) → List A → Type 0
Unique same [] = Unit {0}
Unique same (x ∷ xs) = All (λ y. same x y ≡ false) xs × Unique same xs

module _ {A : Type 0} where
  pub find-none-All : (p : A → Bool) (xs : List A) → find p xs ≡ none → All (λ x. p x ≡ false) xs
  find-none-All p [] h = tt
  find-none-All p (x ∷ xs) h = ground (arith, find-none-All p xs)

  pub append-All : (P : A → Type 0) (xs : List A) (y : A) → All P xs → P y → All P (xs ++ y ∷ [])
  append-All P [] y h k = (k, tt)
  append-All P (x ∷ xs) y h k = (h.0, append-All P xs y h.1 k)

  pub append-Unique :
      (same : A → A → Bool) (xs : List A) (y : A)
      → Unique same xs
      → All (λ x. same x y ≡ false) xs
      → Unique same (xs ++ y ∷ [])
  append-Unique same [] y h k = (tt, tt)
  append-Unique same (x ∷ xs) y h k = (append-All _ xs y h.0 k.0, append-Unique same xs y h.1 k.1)

  pub find-append_some :
      (p : A → Bool) (xs ys : List A) {x : A} → find p xs ≡ some x → find p (xs ++ ys) ≡ some x
  find-append_some p [] ys h = absurd (ground arith)
  find-append_some p (x ∷ xs) ys {x = found} h = elim (Bool-cases (p x)) [
    | inl passes ↦ ground arith
    | inr fails ↦
        let rest : find p xs ≡ some found = ground arith in
        let later = find-append_some p xs ys rest in ground (arith, later)
  ]

  module _ (p : A → Bool) (f : A → A) where
    abbrev changed : A → A
    changed x = if p x then f x else x

    pub update-All :
        (P : A → Type 0) (xs : List A)
        → ((x : A) → P x → P (f x))
        → All P xs
        → All P (update_where p f xs)
    update-All P [] k h = tt
    update-All P (x ∷ xs) k h = elim (Bool-cases (p x)) [
      | inl yes' ↦ (rw yes' (k x h.0), update-All P xs k h.1)
      | inr no' ↦ (rw no' h.0, update-All P xs k h.1)
    ]

    module _ (same : A → A → Bool) (left : (x y : A) → same (f x) y ≡ same x y)
        (right : (x y : A) → same x (f y) ≡ same x y) where
      same_changed : (x y : A) → same (changed x) (changed y) ≡ same x y
      same_changed x y = elim (Bool-cases (p x)) [
        | inl px ↦ elim (Bool-cases (p y)) [
          | inl py ↦ rw (px, py) (left x (f y) ∙ right x y)
          | inr py ↦ rw (px, py) (left x y)
        ]
        | inr px ↦ elim (Bool-cases (p y)) [
          | inl py ↦ rw (px, py) (right x y)
          | inr py ↦ rw (px, py) refl
        ]
      ]

      pub update-others :
          (x : A) (ys : List A)
          → All (λ y. same x y ≡ false) ys
          → All (λ y. same (changed x) y ≡ false) (update_where p f ys)
      update-others x [] h = tt
      update-others x (y ∷ ys) h = (same_changed x y ∙ h.0, update-others x ys h.1)

      pub update-Unique : (xs : List A) → Unique same xs → Unique same (update_where p f xs)
      update-Unique [] h = tt
      update-Unique (x ∷ xs) h = (update-others x xs h.0, update-Unique xs h.1)

    pub find-update_some :
        (q : A → Bool) (xs : List A) {x : A}
        → ((x : A) → q (f x) ≡ q x)
        → find q xs ≡ some x
        → (y : A) × (find q (update_where p f xs) ≡ some y)
    find-update_some q [] k h = absurd (ground arith)
    find-update_some q (z ∷ xs) {x} k h = elim (Bool-cases (q (changed z))) [
      | inl passes ↦ (changed z, rw passes refl)
      | inr fails ↦
          let before : q z ≡ false =
            sym (elim (Bool-cases (p z)) [ inl pz ↦ rw pz (k z) | inr pz ↦ rw pz refl ]) ∙ fails in
          let rest : find q xs ≡ some x = ground arith in
          let (y, e) = find-update_some q xs k rest in (y, rw fails e)
    ]

module _ {ℓ} {A : Type 0} (P : A → Type ℓ) where
  pub keep-All : (p : A → Bool) (xs : List A) → All P xs → All P (keep p xs)
  keep-All p [] h = tt
  keep-All p (x ∷ xs) h = elim (Bool-cases (p x)) [
    | inl passes ↦ rw passes (h.0, keep-All p xs h.1)
    | inr fails ↦ rw fails (keep-All p xs h.1)
  ]

  pub take-All : (n : ℕ) (xs : List A) → All P xs → All P (take n xs)
  take-All zero xs h = tt
  take-All (suc n) [] h = tt
  take-All (suc n) (x ∷ xs) h = (h.0, take-All n xs h.1)

  pub drop-All : (n : ℕ) (xs : List A) → All P xs → All P (drop n xs)
  drop-All zero xs h = h
  drop-All (suc n) [] h = tt
  drop-All (suc n) (x ∷ xs) h = drop-All n xs h.1

  insert-All :
      (before : A → A → Bool) (x : A) (xs : List A) → P x → All P xs → All P (insert_by before x xs)
  insert-All before x [] h k = (h, tt)
  insert-All before x (y ∷ ys) h k = elim (Bool-cases (before x y)) [
    | inl first ↦ rw first (h, k)
    | inr later ↦ rw later (k.0, insert-All before x ys h k.1)
  ]

  pub sort-All : (before : A → A → Bool) (xs : List A) → All P xs → All P (sort_by before xs)
  sort-All before [] h = tt
  sort-All before (x ∷ xs) h = insert-All before x (sort_by before xs) h.0 (sort-All before xs h.1)

  pub find-All : (p : A → Bool) (xs : List A) {x : A} → All P xs → find p xs ≡ some x → P x
  find-All p [] h e = absurd (ground arith)
  find-All p (x ∷ xs) {x = found} h e = elim (Bool-cases (p x)) [
    | inl passes ↦ let same : x ≡ found = ground arith in subst P same h.0
    | inr fails ↦ let rest : find p xs ≡ some found = ground arith in find-All p xs h.1 rest
  ]

-- ===== src/Prelude/Pages.antt =====
-- Pages of a list: `take` and `drop` together.
use Prim.Native.Nat.{ℕ, zero, suc, ◌+◌, ◌≤◌}
use mathlib.Core.Path.{◌≡◌, refl, ap}
use mathlib.Core.List.{List, [], ◌∷◌, map}
use native.Mathlib.Omega.{arith}
use ared_edge_iota_anchor.Prelude.Tests.{ltb}
use ared_edge_iota_anchor.Prelude.Lists.{length, take, drop}

module _ {ℓ} {A : Type ℓ} where
  pub take-take : (n : ℕ) (xs : List A) → take n (take (suc n) xs) ≡ take n xs
  take-take zero xs = refl
  take-take (suc n) [] = refl
  take-take (suc n) (x ∷ xs) = ap (λ (l : List A). x ∷ l) (take-take n xs)

  pub take-all : (n : ℕ) (xs : List A) → length xs ≤ n → take n xs ≡ xs
  take-all zero [] h = refl
  take-all zero (x ∷ xs) h = absurd (omega arith)
  take-all (suc n) [] h = refl
  take-all (suc n) (x ∷ xs) h = ap (λ (l : List A). x ∷ l) (take-all n xs (omega arith))

  -- One row more than a page tells whether there is a next page.
  pub next_page : (n : ℕ) (xs : List A) → ltb n (length (take (suc n) xs)) ≡ ltb n (length xs)
  next_page zero [] = refl
  next_page zero (x ∷ xs) = ground arith
  next_page (suc n) [] = refl
  next_page (suc n) (x ∷ xs) = ground (arith, next_page n xs)

  pub ltb-drop : (m n : ℕ) (xs : List A) → ltb n (length (drop m xs)) ≡ ltb (m + n) (length xs)
  ltb-drop zero n xs = ground arith
  ltb-drop (suc m) n [] = ground arith
  ltb-drop (suc m) n (x ∷ xs) = ground (arith, ltb-drop m n xs)

module _ {ℓ κ} {A : Type ℓ} {B : Type κ} where
  pub map-take : (f : A → B) (n : ℕ) (xs : List A) → map f (take n xs) ≡ take n (map f xs)
  map-take f zero xs = refl
  map-take f (suc n) [] = refl
  map-take f (suc n) (x ∷ xs) = ap (λ (l : List B). f x ∷ l) (map-take f n xs)

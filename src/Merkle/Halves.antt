-- ===== src/Merkle/Halves.antt =====
-- The levels of src/app/crypto/merkle.py above a list in two parts, of which the first has a power of two
-- of hashes.
use native.Mathlib.Nat.{pow-suc}
use ared_edge_iota_anchor.Prelude.{
  ℕ, zero, suc, ◌+◌, ◌^◌, ◌≤◌, ◌<◌, ◌≡◌, refl, ap, sym, subst, ◌∙◌, List, [], ◌∷◌, ◌++◌, ok, err,
  index_error, arith, bind-ok, bind_returned, ok_injective, length,
}
use ared_edge_iota_anchor.Text.{Str}
use ared_edge_iota_anchor.Merkle.Hash.{compute_parent_hash}
use ared_edge_iota_anchor.Merkle.Levels.{level_hashes, root_of}

pub double : (j : ℕ) → 2 ^ suc j ≡ 2 ^ j + 2 ^ j
double j = rw (pow-suc) (omega arith)

pub pow_positive : (j : ℕ) → 0 < 2 ^ j
pow_positive zero = omega arith
pow_positive (suc j) = omega (arith, double j, pow_positive j)

module _ (sha256 : List ℕ → List ℕ) where
  -- The level above `a ++ b`, where `a` has an even length.
  record Levels (j : ℕ) (a b next : List Str) : Type 0 where
    na : List Str
    nb : List Str
    of_a : level_hashes sha256 a ≡ ok na
    of_b : level_hashes sha256 b ≡ ok nb
    whole : next ≡ na ++ nb
    size : length na ≡ j

  level_hashes-append :
      (j : ℕ) (a b next : List Str)
      → length a ≡ j + j
      → level_hashes sha256 (a ++ b) ≡ ok next
      → Levels j a b next
  unfolding level_hashes
  level_hashes-append zero [] b next h e = record {
    na = [];
    nb = next;
    of_a = refl;
    of_b = e;
    whole = refl;
    size = refl;
  }
  level_hashes-append zero (x ∷ a) b next h e = absurd (omega arith)
  level_hashes-append (suc j) [] b next h e = absurd (omega arith)
  level_hashes-append (suc j) (x ∷ []) b next h e = absurd (omega arith)
  level_hashes-append (suc j) (x ∷ y ∷ a) b next h e =
      let (p, e1, e2) = bind_returned (compute_parent_hash sha256 x y) _ e in
      let (rest, e3, e4) = bind_returned (level_hashes sha256 (a ++ b)) _ e2 in
      let v = level_hashes-append j a b rest (omega arith) e3 in
      record {
        na = p ∷ v.na;
        nb = v.nb;
        of_a = bind-ok _ e1 (bind-ok _ v.of_a refl);
        of_b = v.of_b;
        whole = sym (ok_injective e4) ∙ ap (λ (l : List Str). p ∷ l) v.whole;
        size = omega (arith, v.size);
      }

  level_hashes_half :
      (b nb : List Str)
      → level_hashes sha256 b ≡ ok nb
      → (length nb + length nb ≤ length b + 1) × (length b ≤ length nb + length nb)
  unfolding level_hashes
  level_hashes_half [] nb e = ground arith
  level_hashes_half (x ∷ []) nb e = ground arith
  level_hashes_half (x ∷ y ∷ b) nb e =
      let (p, e1, e2) = bind_returned (compute_parent_hash sha256 x y) _ e in
      let (rest, e3, e4) = bind_returned (level_hashes sha256 b) _ e2 in
      let size = ap (λ (l : List Str). length l) (ok_injective e4) in
      omega (arith, size, level_hashes_half b rest e3)

  -- The roots of the two parts of a list.
  pub record Parts (fuel : ℕ) (a b : List Str) (root : Str) : Type 0 where
    pub left : Str
    pub right : Str
    pub of_a : root_of sha256 fuel a ≡ ok left
    pub of_b : root_of sha256 fuel b ≡ ok right
    pub parent : compute_parent_hash sha256 left right ≡ ok root

  -- The root of the level above is the root.
  root_of-level :
      (fuel : ℕ) (b nb : List Str) (root : Str)
      → 0 < length b
      → level_hashes sha256 b ≡ ok nb
      → root_of sha256 fuel nb ≡ ok root
      → root_of sha256 (suc fuel) b ≡ ok root
  unfolding root_of level_hashes
  root_of-level fuel [] nb root pos e h = elim pos [ ]
  root_of-level zero (x ∷ []) nb root pos e h =
      subst (λ l. root_of sha256 zero l ≡ ok root) (sym (ok_injective e)) h
  root_of-level (suc fuel) (x ∷ []) nb root pos e h =
      subst (λ l. root_of sha256 (suc fuel) l ≡ ok root) (sym (ok_injective e)) h
  root_of-level fuel (x ∷ y ∷ b) nb root pos e h = bind-ok _ e h

  pub root_of_none : (fuel : ℕ) → root_of sha256 fuel [] ≡ err index_error
  unfolding root_of
  root_of_none zero = refl
  root_of_none (suc fuel) = refl

  pub root_of_one : (fuel : ℕ) (h : Str) → root_of sha256 fuel (h ∷ []) ≡ ok h
  unfolding root_of
  root_of_one zero h = refl
  root_of_one (suc fuel) h = refl

  pub root_of-append :
      (k fuel : ℕ) (a b : List Str) (root : Str)
      → length a ≡ 2 ^ k
      → 0 < length b
      → length b ≤ 2 ^ k
      → root_of sha256 fuel (a ++ b) ≡ ok root
      → Parts fuel a b root
  unfolding root_of level_hashes
  root_of-append k fuel [] b root h pos le e = absurd (omega (arith, pow_positive k))
  root_of-append k fuel (x ∷ a) [] root h pos le e = elim pos [ ]
  root_of-append k zero (x ∷ []) (y ∷ b) root h pos le e = absurd (ground arith)
  root_of-append k zero (x ∷ z ∷ a) (y ∷ b) root h pos le e = absurd (ground arith)
  root_of-append zero (suc fuel) (x ∷ []) (y ∷ []) root h pos le e =
      let (next, e1, e2) = bind_returned (level_hashes sha256 (x ∷ y ∷ [])) _ e in
      let (p, e3, e4) = bind_returned (compute_parent_hash sha256 x y) _ e1 in
      let top = subst (λ l. root_of sha256 fuel l ≡ ok root) (sym (ok_injective e4)) e2 in
      let same = ok_injective (sym (root_of_one fuel p) ∙ top) in
      record { left = x; right = y; of_a = refl; of_b = refl; parent = e3 ∙ ap ok same }
  root_of-append zero (suc fuel) (x ∷ z ∷ a) (y ∷ b) root h pos le e = absurd (omega arith)
  root_of-append zero (suc fuel) (x ∷ []) (y ∷ z ∷ b) root h pos le e = absurd (omega arith)
  root_of-append (suc k) (suc fuel) (x ∷ []) (y ∷ b) root h pos le e =
      absurd (omega (arith, double k, pow_positive k))
  root_of-append (suc k) (suc fuel) (x ∷ z ∷ a) (y ∷ b) root h pos le e =
      let (next, e1, e2) = bind_returned (level_hashes sha256 (x ∷ z ∷ (a ++ y ∷ b))) _ e in
      let v = level_hashes-append (2 ^ k) (x ∷ z ∷ a) (y ∷ b) next (omega (arith, double k)) e1 in
      let half = level_hashes_half (y ∷ b) v.nb v.of_b in
      let up = subst (λ l. root_of sha256 fuel l ≡ ok root) v.whole e2 in
      let w =
        root_of-append k fuel v.na v.nb root v.size (omega (arith, half))
          (omega (arith, half, double k)) up in
      record {
        left = w.left;
        right = w.right;
        of_a = bind-ok _ v.of_a w.of_a;
        of_b = root_of-level fuel (y ∷ b) v.nb w.right pos v.of_b w.of_b;
        parent = w.parent;
      }

-- ===== src/Merkle/Binding.antt =====
-- What a path of `compute_root_from_proof` in src/app/crypto/merkle.py binds its leaf to.
use ared_edge_iota_anchor.Prelude.{
  ℕ, suc, Option, none, get_elem?, ok_injective, ◌≡◌, ◌≢◌, ◌⊎◌, inl, inr, refl, ap, sym, subst, ◌∙◌,
  true, false, Bool-cases, List, [], ◌∷◌, ◌++◌, map, some, ok, arith, bind_returned, length, All,
}
use ared_edge_iota_anchor.Text.{Str, str_eq, str_eq_refl, str_eq_sound}
use ared_edge_iota_anchor.Text.Hex.{fromhex, hexlify, fromhex-hexlify}
use ared_edge_iota_anchor.Merkle.Node.{ProofElement, ProofDirection, left, right}
use ared_edge_iota_anchor.Merkle.Hash.{compute_parent_hash, IsSha256}
use ared_edge_iota_anchor.Merkle.Verify.{climb, compute_root_from_proof}

-- The text of 32 bytes.
abbrev pub Is32 : Str → Type 0
Is32 h = (bytes : List ℕ) × (fromhex h ≡ some bytes) × (length bytes ≡ 32)

abbrev pub Siblings32 : List ProofElement → Type 0
Siblings32 path = All (λ (e : ProofElement). Is32 e.hash) path

abbrev pub directions : List ProofElement → List ProofDirection
directions path = map (λ (e : ProofElement). e.direction) path

append_cancel : (a b c d : List ℕ) → length a ≡ length b → a ++ c ≡ b ++ d → (a ≡ b) × (c ≡ d)
append_cancel [] [] c d le e = (refl, e)
append_cancel [] (y ∷ b) c d le e = absurd (omega arith)
append_cancel (x ∷ a) [] c d le e = absurd (omega arith)
append_cancel (x ∷ a) (y ∷ b) c d le e =
    let heads : x ≡ y = ground arith in
    let (same, rest) = append_cancel a b c d (omega arith) (ground arith) in (ground arith, rest)

-- The bytes of a hexadecimal text.
abbrev pub decoded : Option (List ℕ) → List ℕ
decoded none = []
decoded (some bytes) = bytes

abbrev pub bytes_of : Str → List ℕ
bytes_of h = decoded (fromhex h)

-- The text of an inner node: its two children behind the prefix of a node, the sibling on its side.
abbrev pub node_text : ProofDirection → (sibling current : List ℕ) → List ℕ
node_text left sibling current = 1 ∷ (sibling ++ current)
node_text right sibling current = 1 ∷ (current ++ sibling)

-- The texts that are hashed on the way up from some bytes along a path, in their order.
unfoldable pub path_texts : (sha256 : List ℕ → List ℕ) → List ℕ → List ProofElement → List (List ℕ)
path_texts sha256 current [] = []
path_texts sha256 current (e ∷ path) =
    node_text e.direction (bytes_of e.hash) current
    ∷ path_texts sha256 (sha256 (node_text e.direction (bytes_of e.hash) current)) path

module _ (sha256 : List ℕ → List ℕ) where
  -- Two lists of texts collide: at one position they have two texts with one digest.
  abbrev pub Collide : List (List ℕ) → List (List ℕ) → Type 0
  Collide front back =
      (i : ℕ) × (a : List ℕ) × (b : List ℕ) × (get_elem? front i ≡ some a)
      × (get_elem? back i ≡ some b)
      × (a ≢ b)
      × (sha256 a ≡ sha256 b)

  later-Collide :
      (a b : List ℕ) (front back : List (List ℕ))
      → Collide front back
      → Collide (a ∷ front) (b ∷ back)
  later-Collide a b front back (i, x, y, at, at', other, same) = (suc i, x, y, at, at', other, same)

  one_preimage :
      (a b : List ℕ) (front back : List (List ℕ))
      → sha256 a ≡ sha256 b
      → (a ≡ b) ⊎ Collide (a ∷ front) (b ∷ back)
  one_preimage a b front back e = elim (Bool-cases (str_eq a b)) [
    | inl same ↦ inl (str_eq_sound a b same)
    | inr other ↦ inr (0, a, b, refl, refl, (λ eq. differ eq other), e)
  ]
    where
      differ : a ≡ b → str_eq a b ≡ false → ⊥
      differ eq other =
          let own : str_eq a b ≡ true = subst (λ c. str_eq a c ≡ true) eq (str_eq_refl a) in
          absurd (ground arith)

  module _ (sha : IsSha256 sha256) where
    -- A parent hash with the bytes of its children.
    parent_digest :
        (l r h : Str) (bl br : List ℕ)
        → fromhex l ≡ some bl
        → fromhex r ≡ some br
        → compute_parent_hash sha256 l r ≡ ok h
        → fromhex h ≡ some (sha256 (1 ∷ (bl ++ br)))
    unfolding compute_parent_hash
    parent_digest l r h bl br el er e =
        let value : h ≡ hexlify (sha256 (1 ∷ (bl ++ br))) = ok_injective (sym e ∙ rw (el, er)) in
        rw value (fromhex-hexlify _ (sha.bytes_lem _))

    pub parent_32 : (l r h : Str) → Is32 l → Is32 r → compute_parent_hash sha256 l r ≡ ok h → Is32 h
    parent_32 l r h (a, ea, na) (b, eb, nb) e =
        (sha256 (1 ∷ (a ++ b)), parent_digest l r h a b ea eb e, sha.length_lem _)

    climb_32 :
        (d : ProofDirection) (s x y : Str) → Is32 s → Is32 x → climb sha256 d s x ≡ ok y → Is32 y
    unfolding climb
    climb_32 left s x y hs hx e = parent_32 s x y hs hx e
    climb_32 right s x y hs hx e = parent_32 x s y hx hs e

    -- A step of the loop hashes the text of the node.
    climb_digest :
        (d : ProofDirection) (s x y : Str)
        → Is32 s
        → Is32 x
        → climb sha256 d s x ≡ ok y
        → bytes_of y ≡ sha256 (node_text d (bytes_of s) (bytes_of x))
    unfolding climb
    climb_digest left s x y (a, ea, na) (b, eb, nb) e =
        rw (parent_digest s x y a b ea eb e, ea, eb) refl
    climb_digest right s x y (a, ea, na) (b, eb, nb) e =
        rw (parent_digest x s y b a eb ea e, ea, eb) refl

    decoded_text :
        (d : ProofDirection) (s x : Str) {a b : List ℕ}
        → fromhex s ≡ some a
        → fromhex x ≡ some b
        → node_text d (bytes_of s) (bytes_of x) ≡ node_text d a b
    decoded_text d s x {a} {b} ea eb =
        ap (λ o. node_text d (decoded o) (bytes_of x)) ea ∙ ap (λ o. node_text d a (decoded o)) eb

    text_binding :
        (d : ProofDirection) (s x s' x' : Str)
        → Is32 s
        → Is32 x
        → Is32 s'
        → Is32 x'
        → node_text d (bytes_of s) (bytes_of x) ≡ node_text d (bytes_of s') (bytes_of x')
        → fromhex x ≡ fromhex x'
    text_binding left s x s' x' (a, ea, na) (b, eb, nb) (a', ea', na') (b', eb', nb') e =
        let same : 1 ∷ (a ++ b) ≡ 1 ∷ (a' ++ b') =
          sym (decoded_text left s x ea eb) ∙ e ∙ decoded_text left s' x' ea' eb' in
        eb ∙ ap some (append_cancel a a' b b' (na ∙ sym na') (ground arith)).1 ∙ sym eb'
    text_binding right s x s' x' (a, ea, na) (b, eb, nb) (a', ea', na') (b', eb', nb') e =
        let same : 1 ∷ (b ++ a) ≡ 1 ∷ (b' ++ a') =
          sym (decoded_text right s x ea eb) ∙ e ∙ decoded_text right s' x' ea' eb' in
        eb ∙ ap some (append_cancel b b' a a' (nb ∙ sym nb') (ground arith)).0 ∙ sym eb'

    -- Two paths with the same directions that lead from 32-byte hashes, by 32-byte siblings, to one
    -- root start at the same bytes, or at one height the texts that they hash differ and have one
    -- digest.
    pub path_binding :
        (p p' : List ProofElement) (x x' root : Str)
        → Is32 x
        → Is32 x'
        → Siblings32 p
        → Siblings32 p'
        → directions p ≡ directions p'
        → compute_root_from_proof sha256 x p ≡ ok root
        → compute_root_from_proof sha256 x' p' ≡ ok root
        → (fromhex x ≡ fromhex x')
          ⊎ Collide (path_texts sha256 (bytes_of x) p) (path_texts sha256 (bytes_of x') p')
    unfolding compute_root_from_proof path_texts
    path_binding [] [] x x' root hx hx' h h' ds e e' = inl (ground arith)
    path_binding [] (f ∷ q) x x' root hx hx' h h' ds e e' = absurd (ground arith)
    path_binding (f ∷ q) [] x x' root hx hx' h h' ds e e' = absurd (ground arith)
    path_binding (f ∷ q) (f' ∷ q') x x' root hx hx' h h' ds e e' =
        let (y, e1, e2) = bind_returned (climb sha256 f.direction f.hash x) _ e in
        let (y', e1', e2') = bind_returned (climb sha256 f'.direction f'.hash x') _ e' in
        let turn : f'.direction ≡ f.direction = ground arith in
        let text = node_text f.direction (bytes_of f.hash) (bytes_of x) in
        let text' = node_text f'.direction (bytes_of f'.hash) (bytes_of x') in
        let up = climb_digest f.direction f.hash x y h.0 hx e1 in
        let up' = climb_digest f'.direction f'.hash x' y' h'.0 hx' e1' in
        elim (path_binding q q' y y' root (climb_32 f.direction f.hash x y h.0 hx e1)
          (climb_32 f'.direction f'.hash x' y' h'.0 hx' e1') h.1 h'.1 (ground arith) e2 e2') [
            | inl same ↦
                let digests : sha256 text ≡ sha256 text' = sym up ∙ ap decoded same ∙ up' in
                elim (one_preimage text text' (path_texts sha256 (sha256 text) q)
                  (path_texts sha256 (sha256 text') q') digests) [
                    | inl eq ↦ inl (
                        text_binding f.direction f.hash x f'.hash x' h.0 hx h'.0 hx'
                          (eq ∙ ap (λ d. node_text d (bytes_of f'.hash) (bytes_of x')) turn))
                    | inr found ↦ inr found
                  ]
            | inr found ↦ inr (
                later-Collide text text' (path_texts sha256 (sha256 text) q)
                  (path_texts sha256 (sha256 text') q')
                  (subst (λ b. Collide (path_texts sha256 (sha256 text) q) (path_texts sha256 b q'))
                    up'
                    (subst
                      (λ b. Collide (path_texts sha256 b q) (path_texts sha256 (bytes_of y') q')) up
                      found)))
          ]

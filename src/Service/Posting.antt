-- ===== src/Service/Posting.antt =====
-- The message that `create_anchor` of src/app/services/anchor_service.py posts for a Merkle root, as the
-- bytes of src/app/services/iota_client.py.
use ared_edge_iota_anchor.Prelude.{
  ℕ, ◌<◌, ◌/◌, ◌%◌, ◌≡◌, ◌==◌, false, refl, ap, ◌∙◌, true, List, [], ◌∷◌, ◌++◌, drop, some, ok, All,
  arith,
}
use ared_edge_iota_anchor.Text.{Str, str, split_once, contains, starts_with}
use ared_edge_iota_anchor.Text.Hex.{hex_digit, hexlify, IsByte}
use ared_edge_iota_anchor.Text.Utf8.{cons_ascii, is_ascii, is_ascii-append}
use ared_edge_iota_anchor.Text.Json.{
  json_text, escaped, escape_char, escaped-hexlify, decimal_ascii, hexlify_ascii,
}
use ared_edge_iota_anchor.Text.Quote.{split_once-left}
use ared_edge_iota_anchor.World.Types.{AnchorMessage}
use ared_edge_iota_anchor.Iota.Message.{
  later_fields, members, members_ascii, message_text, to_bytes, to_bytes-ascii,
}
use ared_edge_iota_anchor.Service.Anchors.{make_message}

json_text-hexlify :
    (bs : List ℕ) → All IsByte bs → json_text (hexlify bs) ≡ b'"' ∷ (hexlify bs ++ b'"' ∷ [])
unfolding json_text
json_text-hexlify bs h = rw (escaped-hexlify bs h) refl

regroup : (x u v : Str) (q : ℕ) → ((x ++ q ∷ []) ++ u) ++ v ≡ x ++ q ∷ (u ++ v)
regroup [] u v q = refl
regroup (c ∷ x) u v q = ap (λ (l : Str). c ∷ l) (regroup x u v q)

digit-unquoted : (n : ℕ) → n < 16 → (hex_digit n == b'"') ≡ false
unfolding hex_digit
digit-unquoted n h = ground arith

hexlify-unquoted : (bs : List ℕ) → All IsByte bs → All (λ c. (c == b'"') ≡ false) (hexlify bs)
unfolding hexlify
hexlify-unquoted [] h = tt
hexlify-unquoted (b ∷ bs) h = (
  digit-unquoted (b / 16) (omega (arith, h.0)),
  (digit-unquoted (b % 16) (omega arith), hexlify-unquoted bs h.1),
)

quoted_ascii : (bs : List ℕ) → All IsByte bs → is_ascii (json_text (hexlify bs)) ≡ true
unfolding is_ascii
quoted_ascii bs h =
    ap is_ascii (json_text-hexlify bs h)
    ∙ cons_ascii b'"' (hexlify bs ++ b'"' ∷ []) (omega arith) (
        is_ascii-append (hexlify bs) (b'"' ∷ []) (hexlify_ascii bs h)
          (cons_ascii b'"' [] (omega arith) refl))

module _ (bs : List ℕ) (bytes : All IsByte bs) (count start_time end_time now : ℕ) where
  abbrev pub message : AnchorMessage
  message = make_message (hexlify bs) count start_time end_time (str "merkle_sha256") now

  -- What follows the digest.
  abbrev pub rest : Str
  rest = (b',' ∷ members (later_fields message)) ++ b'}' ∷ []

  fields_ascii :
      is_ascii (members ((str "digest", json_text message.digest) ∷ later_fields message)) ≡ true
  unfolding make_message contains starts_with json_text escaped escape_char is_ascii
  fields_ascii = members_ascii ((str "digest", json_text message.digest) ∷ later_fields message) (
    (refl, quoted_ascii bs bytes),
    (
      (refl, refl),
      (
        (refl, refl),
        (
          (refl, decimal_ascii 20 message.timestamp),
          (
            (refl, decimal_ascii 20 message.event_count),
            (
              (refl, decimal_ascii 20 message.start_time),
              ((refl, decimal_ascii 20 message.end_time), ((refl, refl), tt)),
            ),
          ),
        ),
      ),
    ),
  )

  message_ascii : is_ascii (message_text message) ≡ true
  unfolding message_text is_ascii
  message_ascii =
      cons_ascii b'{'
        (members ((str "digest", json_text message.digest) ∷ later_fields message) ++ b'}' ∷ [])
        (omega arith)
        (is_ascii-append (members ((str "digest", json_text message.digest) ∷ later_fields message))
          (b'}' ∷ []) fields_ascii (cons_ascii b'}' [] (omega arith) refl))

  message_digest : drop 11 (message_text message) ≡ hexlify bs ++ b'"' ∷ rest
  unfolding message_text members json_text escaped escape_char make_message
  message_digest =
      ap (λ (x : Str). ((x ++ b'"' ∷ []) ++ (b',' ∷ members (later_fields message))) ++ b'}' ∷ [])
        (escaped-hexlify bs bytes)
      ∙ regroup (hexlify bs) (b',' ∷ members (later_fields message)) (b'}' ∷ []) b'"'

  -- The bytes that are posted for a Merkle root: they are there whatever the counts and times, and the text
  -- between the quotes after the first eleven bytes is the root.
  pub posted_digest :
      (posted : List ℕ) × (to_bytes message ≡ ok posted)
      × (split_once b'"' (drop 11 posted) ≡ some (hexlify bs, rest))
  posted_digest = (
    message_text message,
    to_bytes-ascii message message_ascii,
    ap (split_once b'"') message_digest
        ∙ split_once-left b'"' (hexlify bs) rest (hexlify-unquoted bs bytes),
  )

-- ===== src/Iota/Message.antt =====
-- The bytes of an `AnchorMessage` of src/app/services/iota_client.py, as `_submit_tagged_data_block` posts
-- them. The service leaves `metadata` empty.
use ared_edge_iota_anchor.Prelude.{
  ℕ, ◌≡◌, refl, ap, true, List, [], ◌∷◌, ◌++◌, none, some, Result, ok, err, value_error, All, arith,
}
use ared_edge_iota_anchor.Text.{Str, str}
use ared_edge_iota_anchor.Text.Hex.{hexlify}
use ared_edge_iota_anchor.Text.Utf8.{encode, encode-ascii, cons_ascii, is_ascii, is_ascii-append}
use ared_edge_iota_anchor.Text.Json.{json_text, decimal_from}
use ared_edge_iota_anchor.World.Types.{AnchorMessage}

-- `json.dumps` of an object with the separators "," and ":".
unfoldable pub members : List (Str × Str) → Str
members [] = []
members ((key, value) ∷ []) = json_text key ++ (b':' ∷ value)
members ((key, value) ∷ next ∷ rest) =
    json_text key ++ (b':' ∷ (value ++ (b',' ∷ members (next ∷ rest))))

-- Python writes a number of any size; a second of `datetime` has at most twelve digits, and a count is the
-- length of a list, so that twenty are enough.
abbrev pub number : ℕ → Str
number n = decimal_from 20 n

abbrev pub later_fields : AnchorMessage → List (Str × Str)
later_fields m =
    (str "algorithm", json_text m.digest_algorithm)
    ∷ (str "type", json_text m.anchor_type)
    ∷ (str "ts", number m.timestamp)
    ∷ (str "count", number m.event_count)
    ∷ (str "start", number m.start_time)
    ∷ (str "end", number m.end_time)
    ∷ (str "v", json_text m.version)
    ∷ []

unfoldable pub message_text : AnchorMessage → Str
unfolding members json_text
message_text m = b'{' ∷ (members ((str "digest", json_text m.digest) ∷ later_fields m) ++ b'}' ∷ [])

unfoldable pub to_bytes : AnchorMessage → Result (List ℕ)
unfolding encode message_text
to_bytes m = elim (encode (message_text m)) [ none ↦ err value_error | some bytes ↦ ok bytes ]

unfoldable pub compute_hash : (sha256 : List ℕ → List ℕ) → AnchorMessage → Result Str
unfolding to_bytes
compute_hash sha256 m = elim (to_bytes m) [ err e ↦ err e | ok bytes ↦ ok (hexlify (sha256 bytes)) ]

pub members_ascii :
    (fields : List (Str × Str))
    → All (λ (f : Str × Str). (is_ascii (json_text f.0) ≡ true) × (is_ascii f.1 ≡ true)) fields
    → is_ascii (members fields) ≡ true
unfolding members is_ascii
members_ascii [] h = refl
members_ascii ((k, v) ∷ []) h =
    is_ascii-append (json_text k) (b':' ∷ v) h.0.0 (cons_ascii b':' v (omega arith) h.0.1)
members_ascii ((k, v) ∷ next ∷ rest) h = is_ascii-append (json_text k) _ h.0.0 (
    cons_ascii b':' (v ++ (b',' ∷ members (next ∷ rest))) (omega arith) (
      is_ascii-append v (b',' ∷ members (next ∷ rest)) h.0.1
        (cons_ascii b',' (members (next ∷ rest)) (omega arith) (members_ascii (next ∷ rest) h.1))))

pub to_bytes-ascii :
    (m : AnchorMessage) → is_ascii (message_text m) ≡ true → to_bytes m ≡ ok (message_text m)
unfolding to_bytes
to_bytes-ascii m h =
    ap (λ e. elim e [ none ↦ err value_error | some bytes ↦ ok bytes ])
      (encode-ascii (message_text m) h)

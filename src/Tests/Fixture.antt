-- ===== src/Tests/Fixture.antt =====
-- A small environment: a digest function, a node that accepts every block, and no faults.
use ared_edge_iota_anchor.Prelude.{
  ℕ, zero, suc, ◌+◌, ◌*◌, ◌%◌, ◌<◌, ◌≡◌, refl, Bool, true, false, List, [], ◌∷◌, none, some, ok,
  err, Exception, All, arith, if◌then◌else◌,
}
use ared_edge_iota_anchor.Text.{Str, str}
use ared_edge_iota_anchor.Text.Hex.{IsByte, hexlify}
use ared_edge_iota_anchor.Merkle.Hash.{IsSha256}
use ared_edge_iota_anchor.World.Types.{
  transport_failure, World, Env, Exec, Tables, Request, Reply, Json, IndexedEvent, response,
  get_health, get_info, get_tips, get_metadata, post_block,
}
use ared_edge_iota_anchor.Anchor.{AnchorRecord, confirmed}
use ared_edge_iota_anchor.World.Exec.{passed}
use ared_edge_iota_anchor.Iota.Submission.{IsRetrying}

abbrev pub copies : ℕ → ℕ → List ℕ
copies zero b = []
copies (suc n) b = b ∷ copies n b

abbrev checksum : ℕ → List ℕ → ℕ
checksum acc [] = acc % 251
checksum acc (b ∷ bs) = checksum ((acc * 31 + b + 7) % 251) bs

-- 32 times a checksum.
abbrev pub toy_digest : List ℕ → List ℕ
toy_digest bs = copies 32 (checksum 0 bs)

pub copies-IsByte : (n b : ℕ) → b < 256 → All IsByte (copies n b)
copies-IsByte zero b h = tt
copies-IsByte (suc n) b h = (h, copies-IsByte n b h)

checksum-IsByte : (acc : ℕ) (bs : List ℕ) → checksum acc bs < 256
checksum-IsByte acc [] = omega arith
checksum-IsByte acc (b ∷ bs) = checksum-IsByte ((acc * 31 + b + 7) % 251) bs

pub toy_digest-IsSha256 : IsSha256 toy_digest
toy_digest-IsSha256 = record {
  length_lem = λ bs. refl;
  bytes_lem = λ bs. copies-IsByte 32 (checksum 0 bs) (checksum-IsByte 0 bs);
}

-- Attempts without a wait between them.
unfoldable pub toy_retrying : ℕ → (Exception → Bool) → Exec Str → Exec Str
toy_retrying zero p m w = m w
toy_retrying (suc zero) p m w = m w
toy_retrying (suc (suc n)) p m w =
    let (r, w') = m w in
    let later = toy_retrying (suc n) p m (passed 0 w') in
    elim r [ ok a ↦ (ok a, w') | err e ↦ if p e then later else (err e, w') ]

pub toy_retrying-IsRetrying : IsRetrying toy_retrying
unfolding toy_retrying
toy_retrying-IsRetrying = record {
  returned = λ n p m w a e. returned n p m w a e;
  refused = λ n p m w x e over. refused n p m w x e over;
  stopped = λ p m w x e. refl;
  again = λ n p m w x e retry. (0, rw (e, retry, toy_retrying) refl);
}
  where
    returned :
        (n : ℕ) (p : Exception → Bool) (m : Exec Str) (w : World) (a : Str)
        → (m w).0 ≡ ok a
        → toy_retrying (suc n) p m w ≡ m w
    returned zero p m w a e = refl
    returned (suc n) p m w a e = rw (e, toy_retrying) refl

    refused :
        (n : ℕ) (p : Exception → Bool) (m : Exec Str) (w : World) (x : Exception)
        → (m w).0 ≡ err x
        → p x ≡ false
        → toy_retrying (suc n) p m w ≡ m w
    refused zero p m w x e over = refl
    refused (suc n) p m w x e over = rw (e, over, toy_retrying) refl

abbrev no_json : Json
no_json = record {
  is_solid = none;
  milestone = none;
  ledger_state = none;
  block_id = none;
  tips = none;
}

-- A node that takes every block and includes it.
abbrev toy_reply : ℕ → Request → Reply
toy_reply n get_health = response 200 none
toy_reply n get_info = response 200 (some no_json)
toy_reply n get_tips = response 200 (some no_json)
toy_reply n (get_metadata b) =
    response 200
      (some (record no_json { is_solid = some true; ledger_state = some (str "included") }))
toy_reply n (post_block tag message) =
    response 201 (some (record no_json { block_id = some (str "b1") }))

abbrev pub toy_env : Env
toy_env = record {
  sha256 = toy_digest;
  reply = toy_reply;
  fault = λ _. false;
  took = λ _. 1;
  uuid4 = λ n. 100 + n;
  other_holds = λ _. false;
  raises_for_status = λ _. false;
  describe = λ _. str "error";
  retrying = toy_retrying;
  settings = record {
    network = str "testnet";
    tag = str "ARED";
    explorer_url = str "https://explorer";
    retry_count = 3;
    confirmation_timeout = 60;
    confirmation_poll_interval = 5;
    max_retries = 5;
    retry_delay_base = 60;
    retry_delay_max = 3600;
  };
}

abbrev pub event_of : ℕ → IndexedEvent
event_of n = record {
  id = n;
  block_number = n;
  block_hash = str "0x00";
  event_index = 0;
  pallet = str "energy";
  event_name = str "Measured";
  event_hash = hexlify (copies 32 n);
  timestamp = 1000 + n;
}

abbrev pub three_events : List IndexedEvent
three_events = event_of 1 ∷ event_of 2 ∷ event_of 3 ∷ []

abbrev pub toy_tables : Tables
toy_tables = record { anchors = []; items = []; retries = []; events = three_events }

abbrev pub toy_world : World
toy_world = record {
  tables = toy_tables;
  committed = toy_tables;
  lock_count = 0;
  calls = 0;
  draws = 0;
  now = 5000;
  has_client = false;
  connected = false;
  pending_anchors = [];
}

-- An anchor as it is stored.
abbrev pub some_anchor : AnchorRecord
some_anchor = record {
  id = 7;
  digest = str "ab";
  method = str "merkle_sha256";
  start_time = 1000;
  end_time = 2000;
  item_count = 3;
  status = confirmed;
  iota_block_id = some (str "b1");
  iota_network = some (str "testnet");
  explorer_url = none;
  created_at = 5000;
  posted_at = some 5001;
  confirmed_at = some 5002;
  error_message = none;
}

-- A node that does not answer.
abbrev pub down_env : Env
down_env = record toy_env { reply = λ _ _. transport_failure }

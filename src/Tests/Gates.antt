-- ===== src/Tests/Gates.antt =====
-- The theorems on the settings, the API key and the metrics at concrete inputs.
use ared_edge_iota_anchor.Prelude.{
  ℕ, ◌≡◌, ◌⊎◌, ◌<◌, refl, List, [], ◌∷◌, drop, none, some, ok, err, true, false, type_error, arith,
  All, length,
}
use ared_edge_iota_anchor.Text.{Str, str, str_eq, starts_with, split_once}
use ared_edge_iota_anchor.Text.Strip.{one_of, strip, lstrip, rstrip}
use ared_edge_iota_anchor.Text.Quote.{quote_plus}
use ared_edge_iota_anchor.Text.Hex.{fromhex-hexlify}
use ared_edge_iota_anchor.World.Types.{Exec}
use ared_edge_iota_anchor.Merkle.Node.{MerkleTree}
use ared_edge_iota_anchor.Merkle.Tree.{from_raw_hashes, root_hash}
use ared_edge_iota_anchor.Merkle.Totality.{IsHash}
use ared_edge_iota_anchor.Merkle.Reference.{tree_hash, from_raw_hashes-tree_hash}
use ared_edge_iota_anchor.Api.Answer.{Answer, refused}
use ared_edge_iota_anchor.Api.Queries.{AnchorJobResponse, create_anchor_endpoint}
use ared_edge_iota_anchor.Core.Config.{
  Config, default_config, get_settings, guarded_environments, database_url, host_part, no_key,
}
use ared_edge_iota_anchor.Core.Auth.{HttpRequest, is_public, write_methods, key_text, dispatch}
use ared_edge_iota_anchor.Core.Guarded.{guarded_write, database_url-splits}
use ared_edge_iota_anchor.Metrics.Recording.{record_reconciliation}
use ared_edge_iota_anchor.Metrics.Registered.{IsAccepted, reconciliation, calls-IsAccepted}
use ared_edge_iota_anchor.Tests.Fixture.{
  copies, copies-IsByte, toy_env, toy_world, toy_digest, toy_digest-IsSha256, event_of,
}

abbrev production : Config
production = record default_config { env = str "production"; api_key = some (str " secret ") }

abbrev checked : Config
checked = record production { api_key = some (str "secret") }

production_accepted : get_settings production ≡ ok checked
unfolding get_settings strip str_eq rstrip lstrip
production_accepted = refl

abbrev post : HttpRequest
post = record { path = str "/api/v1/anchors"; method = str "POST"; api_key = some (str "guess") }

abbrev run_job : Exec (Answer AnchorJobResponse)
run_job w = let (a, w') = create_anchor_endpoint toy_env true none none true w in (ok a, w')

is_guarded : one_of guarded_environments production.env ≡ true
unfolding one_of str_eq
is_guarded = refl

is_private : is_public post.path ≡ false
unfolding is_public str_eq starts_with
is_private = refl

is_write : one_of write_methods post.method ≡ true
unfolding one_of str_eq
is_write = refl

guarded_write_example :
    ((key_text post.api_key ≡ key_text checked.api_key)
      × (no_key checked.api_key ≡ false)
      × (dispatch checked post run_job toy_world ≡ run_job toy_world))
    ⊎ ((dispatch checked post run_job toy_world ≡ (ok (refused 401), toy_world))
        ⊎ (dispatch checked post run_job toy_world ≡ (err type_error, toy_world)))
guarded_write_example =
    guarded_write production checked post run_job toy_world is_guarded production_accepted
      is_private is_write

abbrev with_password : Config
with_password = record default_config { db_password = str "p@ss:w/rd" }

some_url : (url : Str) × (database_url with_password ≡ ok url)
unfolding database_url quote_plus
some_url = (_, refl)

database_url-splits_example :
    (user : Str) × (password : Str) × (rest : Str) × (quote_plus with_password.db_user ≡ ok user)
    × (quote_plus with_password.db_password ≡ ok password)
    × (split_once b':' (drop 21 some_url.0) ≡ some (user, rest))
    × (split_once b'@' rest ≡ some (password, host_part with_password))
database_url-splits_example = database_url-splits with_password some_url.1

calls-IsAccepted_example : All IsAccepted (record_reconciliation true 1500 2 0)
calls-IsAccepted_example = calls-IsAccepted (reconciliation true 1500 2 0)

abbrev five_hashes : List Str
five_hashes =
    (event_of 1).event_hash
    ∷ (event_of 2).event_hash
    ∷ (event_of 3).event_hash
    ∷ (event_of 4).event_hash
    ∷ (event_of 5).event_hash
    ∷ []

five_hashes-IsHash : All IsHash five_hashes
five_hashes-IsHash =
    let of : (n : ℕ) → n < 256 → IsHash (event_of n).event_hash =
      λ n h. (copies 32 n, fromhex-hexlify (copies 32 n) (copies-IsByte 32 n h)) in
    (
      of 1 (omega arith),
      (of 2 (omega arith), (of 3 (omega arith), (of 4 (omega arith), (of 5 (omega arith), tt)))),
    )

from_raw_hashes-tree_hash_example :
    (t : MerkleTree) × (from_raw_hashes toy_digest five_hashes ≡ ok t)
    × (tree_hash toy_digest (length five_hashes) five_hashes ≡ ok (root_hash t))
from_raw_hashes-tree_hash_example =
    from_raw_hashes-tree_hash toy_digest toy_digest-IsSha256 five_hashes (omega arith)
      five_hashes-IsHash

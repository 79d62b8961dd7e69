-- ===== src/Core/Config.antt =====
-- src/app/core/config.py: the settings that have a validator or are joined to a text.
use ared_edge_iota_anchor.Prelude.{
  ℕ, Bool, true, false, ◌&&◌, not, List, [], ◌∷◌, ◌++◌, Option, none, some, Result, ok, err,
  value_error, ◌>>=◌, if◌then◌else◌,
}
use ared_edge_iota_anchor.Text.{Str, str}
use ared_edge_iota_anchor.Text.Strip.{strip, lower, one_of}
use ared_edge_iota_anchor.Text.Quote.{quote_plus}
use ared_edge_iota_anchor.Text.Json.{decimal_from}

-- The fields of `Settings`.
pub record Config : Type 0 where
  pub env : Str
  pub db_host : Str
  pub db_port : ℕ
  pub db_name : Str
  pub db_user : Str
  pub db_password : Str
  pub iota_network : Str
  pub iota_tag_prefix : Str
  pub iota_tag_version : Str
  pub api_key : Option Str
  pub api_auth_enabled : Bool

-- Their defaults.
abbrev pub default_config : Config
default_config = record {
  env = str "development";
  db_host = str "localhost";
  db_port = 5432;
  db_name = str "ared_edge";
  db_user = str "ared";
  db_password = [];
  iota_network = str "testnet";
  iota_tag_prefix = str "ARED_ANCHOR";
  iota_tag_version = str "v1";
  api_key = none;
  api_auth_enabled = true;
}

abbrev pub valid_networks : List Str
valid_networks = str "mainnet" ∷ str "shimmer" ∷ str "testnet" ∷ str "devnet" ∷ []

unfoldable pub validate_network : Str → Result Str
unfolding lower one_of
validate_network v = if not (one_of valid_networks (lower v)) then err value_error else ok (lower v)

unfoldable pub strip_api_key : Option Str → Option Str
unfolding strip
strip_api_key none = none
strip_api_key (some v) = some (strip v)

-- `not self.API_KEY`.
unfoldable pub no_key : Option Str → Bool
no_key none = true
no_key (some []) = true
no_key (some (c ∷ s)) = false

abbrev pub guarded_environments : List Str
guarded_environments = str "production" ∷ str "staging" ∷ []

unfoldable pub enforce_production_secrets : Config → Result Config
unfolding one_of no_key
enforce_production_secrets config =
    if one_of guarded_environments config.env
    then (if config.api_auth_enabled && no_key config.api_key
        then err value_error
        else if not config.api_auth_enabled
        then err value_error
        else ok config)
    else ok config

-- The validators in the order in which pydantic runs them; an exception of one is its `ValidationError`,
-- a `ValueError`.
unfoldable pub get_settings : Config → Result Config
unfolding validate_network strip_api_key enforce_production_secrets
get_settings raw = do
  network ← validate_network raw.iota_network
  enforce_production_secrets
      (record raw { iota_network = network; api_key = strip_api_key raw.api_key })

unfoldable pub iota_tag : Config → Str
iota_tag config = config.iota_tag_prefix ++ str "_" ++ config.iota_tag_version

abbrev pub scheme : Str
scheme = str "postgresql+asyncpg://"

-- A port has at most five digits.
unfoldable pub host_part : Config → Str
unfolding decimal_from
host_part config = config.db_host ++ b':' ∷ (decimal_from 5 config.db_port ++ b'/' ∷ config.db_name)

unfoldable pub database_url : Config → Result Str
unfolding host_part
database_url config = do
  user ← quote_plus config.db_user
  password ← quote_plus config.db_password
  ok (scheme ++ (user ++ b':' ∷ (password ++ b'@' ∷ host_part config)))

-- ===== src/Core/Auth.antt =====
-- src/app/core/auth.py. Of a request the middleware reads the path, the method and one header.
use ared_edge_iota_anchor.Prelude.{
  Bool, false, ◌||◌, not, List, [], ◌∷◌, Option, none, some, Result, ok, err, type_error,
  if◌then◌else◌,
}
use ared_edge_iota_anchor.Text.{Str, str, str_eq, starts_with}
use ared_edge_iota_anchor.Text.Utf8.{is_ascii}
use ared_edge_iota_anchor.Text.Strip.{one_of}
use ared_edge_iota_anchor.World.Types.{Exec}
use ared_edge_iota_anchor.World.Exec.{◌>>=◌, pure, lift}
use ared_edge_iota_anchor.Api.Answer.{Answer, refused}
use ared_edge_iota_anchor.Core.Config.{Config, no_key}

-- `api_key`: the header `X-API-Key`.
pub record HttpRequest : Type 0 where
  pub path : Str
  pub method : Str
  pub api_key : Option Str

abbrev pub public_paths : List Str
public_paths =
    str "/health"
    ∷ str "/ready"
    ∷ str "/live"
    ∷ str "/status"
    ∷ str "/metrics"
    ∷ str "/docs"
    ∷ str "/redoc"
    ∷ str "/openapi.json"
    ∷ []

abbrev pub public_prefixes : List Str
public_prefixes = str "/metrics/" ∷ []

abbrev pub write_methods : List Str
write_methods = str "POST" ∷ str "PUT" ∷ str "PATCH" ∷ str "DELETE" ∷ []

unfoldable pub any_prefix : List Str → Str → Bool
any_prefix [] path = false
any_prefix (p ∷ ps) path = starts_with p path || any_prefix ps path

unfoldable pub is_public : Str → Bool
unfolding one_of any_prefix
is_public path = one_of public_paths path || any_prefix public_prefixes path

-- `secrets.compare_digest` on two texts raises `TypeError` unless both are ASCII.
unfoldable pub compare_digest : Str → Str → Result Bool
unfolding is_ascii
compare_digest a b =
    if is_ascii a then (if is_ascii b then ok (str_eq a b) else err type_error) else err type_error

abbrev pub key_text : Option Str → Str
key_text none = []
key_text (some s) = s

unfoldable pub dispatch :
    {A : Type 0} → Config → HttpRequest → (call_next : Exec (Answer A)) → Exec (Answer A)
unfolding is_public no_key one_of compare_digest
dispatch config request call_next =
    if is_public request.path
    then call_next
    else if not config.api_auth_enabled || no_key config.api_key
    then call_next
    else if not (one_of write_methods request.method)
    then call_next
    else if no_key request.api_key
    then pure (refused 401)
    else (do
      same ← lift (compare_digest (key_text request.api_key) (key_text config.api_key))
      if not same then pure (refused 401) else call_next)

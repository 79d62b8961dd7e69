-- ===== src/Core/Guarded.antt =====
-- What the settings that src/app/core/config.py accepts, and the middleware of src/app/core/auth.py, do
-- together; and the text of `DATABASE_URL`.
use ared_edge_iota_anchor.Prelude.{
  ℕ, ◌≡◌, ◌==◌, refl, sym, ap, ◌∙◌, Bool, true, false, [], ◌∷◌, ◌++◌, drop, some, ok, err,
  type_error, All, arith, ◌⊎◌, inl, inr, bind_returned, ok_injective,
}
use ared_edge_iota_anchor.Text.{Str, str_eq, str_eq_sound, split_once}
use ared_edge_iota_anchor.Text.Strip.{one_of}
use ared_edge_iota_anchor.Text.Utf8.{is_ascii}
use ared_edge_iota_anchor.Text.Quote.{quote_plus, quote_plus-IsPlain, split_once-left, IsPlain}
use ared_edge_iota_anchor.World.Types.{World, Exec}
use ared_edge_iota_anchor.Api.Answer.{Answer, refused}
use ared_edge_iota_anchor.Core.Config.{
  Config, no_key, guarded_environments, validate_network, enforce_production_secrets, get_settings,
  host_part, database_url,
}
use ared_edge_iota_anchor.Core.Auth.{
  HttpRequest, write_methods, is_public, compare_digest, key_text, dispatch,
}

-- Settings with a key that is asked for.
record IsLocked (config : Config) : Type 0 where
  enabled : config.api_auth_enabled ≡ true
  key : no_key config.api_key ≡ false

enforced :
    (config accepted : Config)
    → one_of guarded_environments config.env ≡ true
    → enforce_production_secrets config ≡ ok accepted
    → IsLocked accepted
unfolding enforce_production_secrets
enforced config accepted guarded h = of config.api_auth_enabled (no_key config.api_key) refl refl h
  where
    of :
        (enabled missing : Bool)
        → config.api_auth_enabled ≡ enabled
        → no_key config.api_key ≡ missing
        → enforce_production_secrets config ≡ ok accepted
        → IsLocked accepted
    of true true e1 e2 h = absurd (ground arith)
    of false missing e1 e2 h = absurd (ground arith)
    of true false e1 e2 h =
        let same : config ≡ accepted = ground arith in
        rw (sym same) (record { enabled = e1; key = e2 })

locked :
    (raw config : Config)
    → one_of guarded_environments raw.env ≡ true
    → get_settings raw ≡ ok config
    → IsLocked config
unfolding get_settings
locked raw config guarded h =
    let (network, e1, e2) = bind_returned (validate_network raw.iota_network) _ h in
    enforced _ config guarded e2

-- What a comparison says.
data Compared (a b : Str) : Type 0 where
  equal : a ≡ b → compare_digest a b ≡ ok true → Compared a b
  different : compare_digest a b ≡ ok false → Compared a b
  raises : compare_digest a b ≡ err type_error → Compared a b

compare-cases : (a b : Str) → Compared a b
unfolding compare_digest
compare-cases a b = of (is_ascii a) (is_ascii b) (str_eq a b) refl refl refl
  where
    of :
        (left right same : Bool)
        → is_ascii a ≡ left
        → is_ascii b ≡ right
        → str_eq a b ≡ same
        → Compared a b
    of false right same e1 e2 e3 = raises (rw e1 refl)
    of true false same e1 e2 e3 = raises (rw (e1, e2) refl)
    of true true true e1 e2 e3 = equal (str_eq_sound a b e3) (rw (e1, e2, e3) refl)
    of true true false e1 e2 e3 = different (rw (e1, e2, e3) refl)

-- In settings that are accepted with `ENV` production or staging, a request with a write method and a
-- path that is not public goes to its handler where its header is the configured key, which is not empty;
-- any other such request is answered 401, or raises a `TypeError`, and the world is unchanged.
pub guarded_write :
    {A : Type 0} (raw config : Config) (request : HttpRequest) (call_next : Exec (Answer A))
    (w : World)
    → one_of guarded_environments raw.env ≡ true
    → get_settings raw ≡ ok config
    → is_public request.path ≡ false
    → one_of write_methods request.method ≡ true
    → ((key_text request.api_key ≡ key_text config.api_key)
        × (no_key config.api_key ≡ false)
        × (dispatch config request call_next w ≡ call_next w))
      ⊎ ((dispatch config request call_next w ≡ (ok (refused 401), w))
          ⊎ (dispatch config request call_next w ≡ (err type_error, w)))
unfolding dispatch
guarded_write {A} raw config request call_next w guarded accepted private write =
    of (compare-cases (key_text request.api_key) (key_text config.api_key)) (no_key request.api_key)
      refl
  where
    lock : IsLocked config
    lock = locked raw config guarded accepted

    of :
        Compared (key_text request.api_key) (key_text config.api_key)
        → (missing : Bool) → no_key request.api_key ≡ missing
        → ((key_text request.api_key ≡ key_text config.api_key)
            × (no_key config.api_key ≡ false)
            × (dispatch config request call_next w ≡ call_next w))
          ⊎ ((dispatch config request call_next w ≡ (ok (refused 401), w))
              ⊎ (dispatch config request call_next w ≡ (err type_error, w)))
    of c true e = inr (inl (rw (private, lock.enabled, lock.key, write, e) refl))
    of (equal same answers) false e =
        inl (same, lock.key, rw (private, lock.enabled, lock.key, write, e, answers) refl)
    of (different answers) false e =
        inr (inl (rw (private, lock.enabled, lock.key, write, e, answers) refl))
    of (raises answers) false e =
        inr (inr (rw (private, lock.enabled, lock.key, write, e, answers) refl))

-- The part of `DATABASE_URL` after its scheme is split at the first colon into the quoted user and the
-- rest, and the rest at the first at-sign into the quoted password and the host, the port and the name,
-- whatever characters the user and the password have.
pub database_url-splits :
    (config : Config) {url : Str}
    → database_url config ≡ ok url
    → (user : Str) × (password : Str) × (rest : Str) × (quote_plus config.db_user ≡ ok user)
      × (quote_plus config.db_password ≡ ok password)
      × (split_once b':' (drop 21 url) ≡ some (user, rest))
      × (split_once b'@' rest ≡ some (password, host_part config))
unfolding database_url
database_url-splits config {url} h =
    let (user, e1, h1) = bind_returned (quote_plus config.db_user) _ h in
    let (password, e2, h2) = bind_returned (quote_plus config.db_password) _ h1 in
    let whole = ok_injective h2 in
    let rest : Str = password ++ b'@' ∷ host_part config in
    (
      user,
      password,
      rest,
      e1,
      e2,
      ap (λ (u : Str). split_once b':' (drop 21 u)) (sym whole)
          ∙ split_once-left b':' user rest
              (without b':' user (λ c p. p.0) (quote_plus-IsPlain config.db_user e1)),
      split_once-left b'@' password (host_part config)
          (without b'@' password (λ c p. p.2) (quote_plus-IsPlain config.db_password e2)),
    )
  where
    without :
        (sep : ℕ) (s : Str)
        → ((c : ℕ) → IsPlain c → (c == sep) ≡ false)
        → All IsPlain s
        → All (λ c. (c == sep) ≡ false) s
    without sep [] k h = tt
    without sep (c ∷ s) k h = (k c h.0, without sep s k h.1)

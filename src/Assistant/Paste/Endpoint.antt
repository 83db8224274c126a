-- ===== src/Assistant/Paste/Endpoint.antt =====
-- paste_core.py: the endpoint of a provider, and whether a call to it needs consent.
use alertmind.Prelude.{
  ℕ, zero, suc, Bool, false, not, ◌&&◌, ◌||◌, List, [], ◌∷◌, ◌++◌, Option, none, some, all, leb,
  nat_eq, length, is_empty, or_else, if◌then◌else◌,
}
use alertmind.Text.{Text, text, text_eq, split_on, nat_text}
use alertmind.Platform.{Platform, lower}
use alertmind.Result.{Result, ok, err}

-- `urlsplit(endpoint)`: `p.hostname or ""`, and `p.port`, which raises where it is no number.
pub record Url : Type 0 where
  pub scheme : Text
  pub host : Text
  pub port : Result (Option ℕ)
  pub path : Text

-- What the code takes from the process and from `urllib.parse`.
pub record Surroundings : Type 0 where
  -- `os.environ`
  pub env : Text → Option Text
  -- `urlsplit`, none where it raises, and `urlunsplit((scheme, host, path, "", ""))`
  pub split_url : Text → Option Url
  pub join_url : Text → Text → Text → Text
  -- `int(part)` where `part.isdigit()`, none where that is false or `int` raises
  pub digits_value : Text → Option ℕ

unfoldable pub default_endpoint : Text → Text
unfolding text text_eq
default_endpoint provider =
    if text_eq provider (text "mock")
    then text "local://mock"
    else (if text_eq provider (text "ollama")
        then text "http://localhost:11434/v1"
        else (if text_eq provider (text "openai")
            then text "https://api.openai.com/v1"
            else (if text_eq provider (text "anthropic")
                then text "https://api.anthropic.com/v1"
                else [])))

-- `host.rstrip(".")`
abbrev rstrip_dots : Text → Text
rstrip_dots [] = []
rstrip_dots (c ∷ s) =
    let rest = rstrip_dots s in if is_empty rest && nat_eq c b'.' then [] else c ∷ rest

abbrev with_port : Text → Option ℕ → Text
with_port host none = host
with_port host (some zero) = host
with_port host (some (suc n)) = host ++ b':' ∷ nat_text (suc n)

module _ ⦃p : Platform⦄ (io : Surroundings) where
  unfoldable pub provider_endpoint : Text → Text
  unfolding default_endpoint text text_eq
  provider_endpoint provider =
      if text_eq provider (text "ollama")
      then or_else (io.env (text "OLLAMA_BASE_URL")) (default_endpoint provider)
      else (if text_eq provider (text "openai")
          then or_else (io.env (text "OPENAI_BASE_URL")) (default_endpoint provider)
          else default_endpoint provider)

  abbrev shown_url : Url → Result (Option ℕ) → Text
  shown_url u (ok port) = io.join_url u.scheme (with_port u.host port) u.path
  shown_url u (err _) = text "(invalid endpoint)"

  abbrev shown_split : Option Url → Text
  shown_split none = text "(invalid endpoint)"
  shown_split (some u) = shown_url u u.port

  unfoldable pub display_endpoint : Text → Text
  unfolding text nat_text
  display_endpoint endpoint = shown_split (io.split_url endpoint)

  abbrev is_octet : Option ℕ → Bool
  is_octet none = false
  is_octet (some n) = leb n 255

  abbrev first_is : Text → List Text → Bool
  first_is a [] = false
  first_is a (b ∷ _) = text_eq a b

  -- `127.x.y.z`
  unfoldable pub is_loopback_address : Text → Bool
  unfolding split_on text text_eq
  is_loopback_address host =
      let parts = split_on b'.' host in
      nat_eq (length parts) 4
      && (first_is (text "127") parts && all (λ part. is_octet (io.digits_value part)) parts)

  abbrev loopback_url : Text → Option Url → Bool
  loopback_url endpoint none = false
  loopback_url endpoint (some u) =
      let host = rstrip_dots (lower u.host) in
      if text_eq u.scheme (text "http") || text_eq u.scheme (text "https")
      then text_eq host (text "localhost")
        || (text_eq host (text "::1") || is_loopback_address host)
      else text_eq endpoint (text "local://mock")

  unfoldable pub is_loopback_endpoint : Text → Bool
  unfolding is_loopback_address text text_eq lower
  is_loopback_endpoint endpoint = loopback_url endpoint (io.split_url endpoint)

  unfoldable pub requires_egress_consent : Text → Text → Bool
  unfolding is_loopback_endpoint provider_endpoint text text_eq
  requires_egress_consent provider endpoint =
      if text_eq provider (text "mock")
      then false
      else not (
          is_loopback_endpoint (if is_empty endpoint then provider_endpoint provider else endpoint))

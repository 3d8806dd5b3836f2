-- ===== src/OAuth/Uris.antt =====
-- The checks of URIs in oauth/service.ts: `normalizeRedirectUri`, `normalizeResource` and
-- `validateResource`.
use fullwell.Prelude.{String, Bool, not, ◌&&◌, ◌||◌, none, some, List, [], ◌∷◌, ◌==◌, if◌then◌else◌}
use fullwell.Prelude.Exec.{Result, ok, err}
use fullwell.OAuth.Types.{OAuthError, protocol, malformed, invalid_request}
use fullwell.OAuth.Platform.{Platform, Url}

-- https, or http to this machine
unfoldable pub is_secure : Url → Bool
is_secure url =
    url.protocol == "https:"
    || url.protocol == "http:" && (url.hostname == "127.0.0.1" || url.hostname == "localhost")

-- no fragment and no credentials
unfoldable pub is_bare : Url → Bool
is_bare url = url.hash == "" && url.username == "" && url.password == ""

module _ (P : Platform) where
  unfoldable pub normalize_redirect_uri : String → Result OAuthError String
  normalize_redirect_uri value = elim (P.parse_url value) [
    | none ↦ err malformed
    | some url ↦
        if not (is_bare url)
        then err (protocol invalid_request 400)
        else if not (is_secure url)
        then err (protocol invalid_request 400)
        else ok (P.href url)
  ]

  -- value.map(normalizeRedirectUri)
  unfoldable pub normalize_all : List String → Result OAuthError (List String)
  normalize_all [] = ok []
  normalize_all (value ∷ rest) = elim (normalize_redirect_uri value) [
    | err e ↦ err e
    | ok uri ↦ elim (normalize_all rest) [ err e ↦ err e | ok uris ↦ ok (uri ∷ uris) ]
  ]

  unfoldable pub normalize_resource : String → Result OAuthError String
  normalize_resource value = elim (P.parse_url value) [
    | none ↦ err malformed
    | some url ↦ ok (P.href (record url { hash = "" }))
  ]

  -- `expected` is the text of the configured resource.
  unfoldable pub validate_resource : String → String → Result OAuthError String
  validate_resource expected value = elim (normalize_resource value) [
    | err e ↦ err e
    | ok resource ↦ elim (normalize_resource expected) [
      | err e ↦ err e
      | ok wanted ↦ if resource == wanted then ok resource else err (protocol invalid_request 400)
    ]
  ]

-- ===== src/OAuth/Service.antt =====
-- oauth/service.ts: `OAuthService` over the memory store. A method is an action on the server: the
-- store with the counts of the readings of the clock and of the random draws.
pub mod Codes
pub mod Refresh
pub mod Rotation
pub mod Approval
use fullwell.Prelude.{
  ℕ, ◌+◌, String, Bool, true, false, not, ◌&&◌, ◌||◌, Option, none, some, List, [], ◌∷◌, ◌==◌,
  if◌then◌else◌, is_none, leb, nat_eq, any, map, ◌*◌, length, all,
}
use fullwell.Prelude.Exec.{
  Result, ok, err, Exec, pure, throw, lift, gets, ◌>>=◌, ◌>>◌, require, some_or,
}
use fullwell.Prelude.Text.{every_char, has_length, is_alnum}
use fullwell.OAuth.Types.{
  Instant, OAuthScope, oauth_scopes, OAuthClient, OAuthGrant, OAuthTokenRecord, authorization_code,
  access, refresh, OAuthAccessIdentity, AuthorizationRequest, TokenResponse, OAuthError, protocol,
  malformed, invalid_request, invalid_client, invalid_grant, invalid_scope,
}
use fullwell.OAuth.Store
use fullwell.OAuth.Store.{OAuthStore, Consumed, rotated, reuse, invalid, RotationResult}
use fullwell.OAuth.Scopes.{parse_scopes, has_same_scopes, join_scopes}
use fullwell.OAuth.Platform.{Platform, Url}
use fullwell.OAuth.Uris.{normalize_redirect_uri, normalize_all, validate_resource}

pub record Server : Type 0 where
  pub store : OAuthStore
  pub reads : ℕ
  pub draws : ℕ

abbrev pub Action : Type 0 → Type 0
Action A = Exec OAuthError Server A

abbrev pub refuse_grant : OAuthError
refuse_grant = protocol invalid_grant 400

-- A call of a store method, one that changes the store and one that does not.
abbrev pub on_store : {A : Type 0} → (OAuthStore → A × OAuthStore) → Action A
on_store f s = (ok (f s.store).0, record s { store = (f s.store).1 })

abbrev pub update_store : (OAuthStore → OAuthStore) → Action (Unit {0})
update_store f s = (ok tt, record s { store = f s.store })

-- addSeconds(date, seconds).
abbrev pub add_seconds : Instant → ℕ → Instant
add_seconds date seconds = date + seconds * 1000

unfoldable pub is_inactive : OAuthTokenRecord → Instant → Bool
is_inactive t now = not (is_none t.revoked_at) || not (is_none t.used_at) || leb t.expires_at now

-- /^[A-Za-z0-9._~-]{43,128}$/
unfoldable pub is_verifier : String → Bool
is_verifier value =
    has_length 43 128 value
    && every_char
        (λ c. is_alnum c || nat_eq c b'.' || nat_eq c b'_' || nat_eq c b'~' || nat_eq c b'-') value

-- /^[A-Za-z0-9_-]{43}$/
unfoldable pub is_challenge : String → Bool
is_challenge value =
    has_length 43 43 value && every_char (λ c. is_alnum c || nat_eq c b'_' || nat_eq c b'-') value

-- The fields of a registration that reach the client record. The others are checked by the schema
-- alone and dropped.
pub record Registration : Type 0 where
  pub client_name : String
  pub redirect_uris : List String

pub record AuthorizationInput : Type 0 where
  pub response_type : String
  pub client_id : String
  pub redirect_uri : String
  pub scope : String
  pub state : String
  pub code_challenge : String
  pub code_challenge_method : String
  pub resource : String

pub record CodeExchange : Type 0 where
  pub code : String
  pub client_id : String
  pub redirect_uri : String
  pub code_verifier : String
  pub resource : Option String

pub record RefreshExchange : Type 0 where
  pub refresh_token : String
  pub client_id : String
  pub scope : Option String
  pub resource : Option String

pub record TokenPair : Type 0 where
  pub access : OAuthTokenRecord
  pub refresh : OAuthTokenRecord
  pub response : TokenResponse

-- `resource` is the text of the configured resource URL.
module _ (P : Platform) (resource : String) where
  unfoldable pub read_clock : Action Instant
  read_clock s = (ok (P.now_at s.reads), record s { reads = s.reads + 1 })

  unfoldable pub draw_token : ℕ → Action String
  draw_token bytes s = (ok (P.token_at s.draws bytes), record s { draws = s.draws + 1 })

  unfoldable pub draw_id : String → Action String
  draw_id prefix s = (ok (P.opaque_id_at s.draws prefix), record s { draws = s.draws + 1 })

  -- ClientRegistrationSchema, for the fields kept
  unfoldable pub is_registration : Registration → Bool
  is_registration i =
      has_length 1 200 (P.trim i.client_name)
      && leb 1 (length i.redirect_uris)
      && leb (length i.redirect_uris) 20
      && all (λ uri. P.is_url uri && has_length 0 4096 uri) i.redirect_uris

  unfoldable pub register_client : Registration → Action OAuthClient
  register_client i = do
    require (is_registration i) malformed
    client_id ← draw_id "client"
    uris ← lift (normalize_all P i.redirect_uris)
    let client : OAuthClient = record {
      client_id = client_id;
      name = P.trim i.client_name;
      redirect_uris = uris;
    }
    update_store (Store.register_client client)
    pure client

  -- AuthorizationInputSchema
  unfoldable pub is_authorization_input : AuthorizationInput → Bool
  is_authorization_input i =
      i.response_type == "code"
      && has_length 1 2048 i.client_id
      && P.is_url i.redirect_uri
      && has_length 0 4096 i.redirect_uri
      && has_length 1 512 i.scope
      && has_length 16 1024 i.state
      && is_challenge i.code_challenge
      && i.code_challenge_method == "S256"
      && P.is_url i.resource
      && has_length 0 4096 i.resource

  unfoldable pub validate_authorization_request : AuthorizationInput → Action AuthorizationRequest
  validate_authorization_request i = do
    require (is_authorization_input i) malformed
    found ← gets (λ s. Store.get_client i.client_id s.store)
    client ← some_or found (protocol invalid_client 401)
    uri ← lift (normalize_redirect_uri P i.redirect_uri)
    require (any (λ u. u == uri) client.redirect_uris) (protocol invalid_request 400)
    valid ← lift (validate_resource P resource i.resource)
    scopes ← lift (parse_scopes i.scope)
    pure (record {
      client_id = client.client_id;
      client_name = client.name;
      redirect_uri = uri;
      state = i.state;
      code_challenge = i.code_challenge;
      scopes = scopes;
      resource = valid;
    })

  -- The redirect URL with the code and the state in its query.
  unfoldable pub redirect_with : AuthorizationRequest → String → Result OAuthError Url
  redirect_with request code = elim (P.parse_url request.redirect_uri) [
    | none ↦ err malformed
    | some url ↦ ok (P.with_param (P.with_param url "code" code) "state" request.state)
  ]

  unfoldable pub approve : AuthorizationRequest → String → Action Url
  approve request user_id = do
    now ← read_clock
    grant_id ← draw_id "grant"
    let grant : OAuthGrant = record {
      id = grant_id;
      user_id = user_id;
      client_id = request.client_id;
      scopes = request.scopes;
      resource = request.resource;
      revoked_at = none;
    }
    update_store (Store.save_grant grant)
    code ← draw_token 32
    id ← draw_id "oauth"
    let token : OAuthTokenRecord = record {
      id = id;
      grant_id = grant_id;
      kind = authorization_code;
      token_hash = P.hash code;
      family_id = none;
      parent_id = none;
      pkce_challenge = some request.code_challenge;
      redirect_uri = some request.redirect_uri;
      audience = request.resource;
      expires_at = add_seconds now 300;
      used_at = none;
      revoked_at = none;
    }
    update_store (Store.save_token token)
    lift (redirect_with request code)

  -- `scopes` of the response: those of the grant.
  unfoldable pub build_token_pair :
      String → String → String → Option String → List OAuthScope → Action TokenPair
  build_token_pair grant_id audience family_id parent_id scopes = do
    now ← read_clock
    access_raw ← draw_token 32
    refresh_raw ← draw_token 48
    access_id ← draw_id "oauth"
    refresh_id ← draw_id "oauth"
    pure (record {
      access = record {
        id = access_id;
        grant_id = grant_id;
        kind = access;
        token_hash = P.hash access_raw;
        family_id = some family_id;
        parent_id = none;
        pkce_challenge = none;
        redirect_uri = none;
        audience = audience;
        expires_at = add_seconds now 900;
        used_at = none;
        revoked_at = none;
      };
      refresh = record {
        id = refresh_id;
        grant_id = grant_id;
        kind = refresh;
        token_hash = P.hash refresh_raw;
        family_id = some family_id;
        parent_id = parent_id;
        pkce_challenge = none;
        redirect_uri = none;
        audience = audience;
        expires_at = add_seconds now 2592000;
        used_at = none;
        revoked_at = none;
      };
      response = record {
        access_token = access_raw;
        expires_in = 900;
        refresh_token = refresh_raw;
        scope = join_scopes scopes;
      };
    })

  -- The caller passes no family, so a new one is drawn.
  unfoldable pub issue_token_pair : String → List OAuthScope → String → Action TokenResponse
  issue_token_pair grant_id scopes audience = do
    family_id ← draw_id "family"
    pair ← build_token_pair grant_id audience family_id none scopes
    update_store (Store.save_token pair.access)
    update_store (Store.save_token pair.refresh)
    pure pair.response

  -- `if (input.resource !== undefined) validateResource(input.resource, this.resource)`
  unfoldable pub check_resource : Option String → Action (Unit {0})
  check_resource none = pure tt
  check_resource (some value) = do valid ← lift (validate_resource P resource value); pure tt

  unfoldable pub code_input : CodeExchange → String → Instant → Store.CodeInput
  code_input i uri now = record {
    token_hash = P.hash i.code;
    client_id = i.client_id;
    redirect_uri = uri;
    pkce_challenge = P.sha256_base64url i.code_verifier;
    used_at = now;
  }

  -- The code is spent even where it turns out to have expired.
  unfoldable pub redeem : Instant → Consumed → Action TokenResponse
  redeem now none = throw refuse_grant
  redeem now (some (t, g)) =
      if is_inactive t now
      then throw refuse_grant
      else issue_token_pair t.grant_id g.scopes t.audience

  unfoldable pub exchange_authorization_code : CodeExchange → Action TokenResponse
  exchange_authorization_code i = do
    require (is_verifier i.code_verifier) refuse_grant
    check_resource i.resource
    now ← read_clock
    uri ← lift (normalize_redirect_uri P i.redirect_uri)
    consumed ← on_store (Store.consume_authorization_code (code_input i uri now))
    redeem now consumed

  -- `if (input.scope !== undefined && !hasSameScopes(…)) throw …`
  unfoldable pub check_scope : Option String → List OAuthScope → Action (Unit {0})
  check_scope none granted = pure tt
  check_scope (some value) granted = do
    scopes ← lift (parse_scopes value)
    require (has_same_scopes scopes granted) (protocol invalid_scope 400)

  -- What follows the rotation; a token that another request has used meanwhile is a reuse.
  unfoldable pub finish_rotation :
      String → Instant → TokenResponse → RotationResult → Action TokenResponse
  finish_rotation family now response rotated = pure response
  finish_rotation family now response reuse = do
    update_store (Store.revoke_family family now)
    throw refuse_grant
  finish_rotation family now response invalid = throw refuse_grant

  -- A refresh token that is current, of the family `family`.
  unfoldable pub refresh_active :
      RefreshExchange → Instant → OAuthTokenRecord → String → Action TokenResponse
  refresh_active i now t family = do
    found ← gets (λ s. Store.get_grant t.grant_id s.store)
    grant ← some_or found refuse_grant
    require (grant.client_id == i.client_id && is_none grant.revoked_at) refuse_grant
    check_scope i.scope grant.scopes
    pair ← build_token_pair t.grant_id t.audience family (some t.id) grant.scopes
    result ← on_store (
        Store.rotate_refresh_token (record {
          token_hash = P.hash i.refresh_token;
          used_at = now;
          access = pair.access;
          refresh = pair.refresh;
        }))
    finish_rotation family now pair.response result

  -- A token of a family that is no current refresh token: one that was used revokes the family.
  unfoldable pub refuse_token : Instant → OAuthTokenRecord → String → Action TokenResponse
  refuse_token now t family =
      if is_none t.used_at
      then throw refuse_grant
      else (do update_store (Store.revoke_family family now); throw refuse_grant)

  unfoldable pub refresh_found :
      RefreshExchange → Instant → Option OAuthTokenRecord → Action TokenResponse
  refresh_found i now none = throw refuse_grant
  refresh_found i now (some t) = elim t.family_id [
    | none ↦ throw refuse_grant
    | some family ↦
        if not (Store.is_refresh t.kind) || is_inactive t now
        then refuse_token now t family
        else refresh_active i now t family
  ]

  unfoldable pub exchange_refresh_token : RefreshExchange → Action TokenResponse
  exchange_refresh_token i = do
    check_resource i.resource
    now ← read_clock
    existing ← gets (λ s. Store.get_token (P.hash i.refresh_token) s.store)
    refresh_found i now existing

  unfoldable pub revoke : String → Action (Unit {0})
  revoke raw = do now ← read_clock; update_store (Store.revoke_token (P.hash raw) now)

  unfoldable pub authenticate : String → Action (Option OAuthAccessIdentity)
  authenticate raw = do
    now ← read_clock
    gets (λ s. Store.resolve_access_token (P.hash raw) now s.store)

-- ===== src/OAuth/Service/Approval.antt =====
-- `approve` followed by `exchangeAuthorizationCode`: the code that an approval sends is good.
use fullwell.Prelude.{
  ℕ, ◌+◌, ◌<◌, String, ◌≡◌, refl, ◌∙◌, Option, none, some, arith, eq_refl, true, Option-cases, inl,
  inr,
}
use fullwell.Prelude.Exec.{ok}
use fullwell.Dict.Laws.{get-set}
use fullwell.OAuth.Types.{
  OAuthGrant, OAuthTokenRecord, TokenResponse, AuthorizationRequest, authorization_code,
}
use fullwell.OAuth.Store.{save_grant, save_token, consume_authorization_code, is_consumable}
use fullwell.OAuth.Scopes.{join_scopes}
use fullwell.OAuth.Platform.{Platform, Url}
use fullwell.OAuth.Uris.{normalize_redirect_uri}
use fullwell.OAuth.Service.{
  Server, CodeExchange, add_seconds, is_inactive, read_clock, draw_token, draw_id, approve,
  is_verifier, check_resource, code_input, redirect_with, redeem, issue_token_pair,
  build_token_pair, exchange_authorization_code,
}
use fullwell.OAuth.Service.Codes.{check_resource_state}

module _ (P : Platform) (resource : String) where
  -- The grant and the code that an approval stores.
  unfoldable pub grant_of : AuthorizationRequest → String → Server → OAuthGrant
  grant_of request user_id w = record {
    id = P.opaque_id_at w.draws "grant";
    user_id = user_id;
    client_id = request.client_id;
    scopes = request.scopes;
    resource = request.resource;
    revoked_at = none;
  }

  unfoldable pub code_of : AuthorizationRequest → Server → OAuthTokenRecord
  code_of request w = record {
    id = P.opaque_id_at (w.draws + 1 + 1) "oauth";
    grant_id = P.opaque_id_at w.draws "grant";
    kind = authorization_code;
    token_hash = P.hash (P.token_at (w.draws + 1) 32);
    family_id = none;
    parent_id = none;
    pkce_challenge = some request.code_challenge;
    redirect_uri = some request.redirect_uri;
    audience = request.resource;
    expires_at = add_seconds (P.now_at w.reads) 300;
    used_at = none;
    revoked_at = none;
  }

  approve_lem :
      (request : AuthorizationRequest) (user_id : String) (w : Server)
      → (approve P resource request user_id w).1.store
        ≡ save_token (code_of request w) (save_grant (grant_of request user_id w) w.store)
  unfolding approve read_clock draw_token draw_id grant_of code_of
  approve_lem request user_id w = refl

  -- url.searchParams.get("code") on a URL on which the code and then the state were set is the code.
  abbrev pub ReadsCode : (Url → Option String) → Type 0
  ReadsCode code_in =
      (u : Url) (code state : String)
      → code_in (P.with_param (P.with_param u "code" code) "state" state) ≡ some code

  -- What the client of a request asks of the exchange, once the approval has sent it a URL.
  pub record IsAnswer (code_in : Url → Option String) (request : AuthorizationRequest)
      (user_id : String) (w : Server) (i : CodeExchange) : Type 0 where
    pub url : Url
    pub sent : (approve P resource request user_id w).0 ≡ ok url
    pub code : code_in url ≡ some i.code
    pub client : i.client_id ≡ request.client_id
    pub verifier : is_verifier i.code_verifier ≡ true
    pub challenge : P.sha256_base64url i.code_verifier ≡ request.code_challenge
    pub redirect : normalize_redirect_uri P i.redirect_uri ≡ ok request.redirect_uri

  -- The code in the URL that an approval sends is the one under whose hash the approval stores it.
  sent_code :
      (code_in : Url → Option String) (request : AuthorizationRequest) (user_id : String)
      (w : Server) (url : Url) (code : String)
      → ReadsCode code_in
      → (approve P resource request user_id w).0 ≡ ok url
      → code_in url ≡ some code
      → code ≡ P.token_at (w.draws + 1) 32
  unfolding approve read_clock draw_token draw_id redirect_with
  sent_code code_in request user_id w url code reads sent read =
      elim (Option-cases (P.parse_url request.redirect_uri)) [
        | inl malformed ↦ absurd (ground arith)
        | inr (u, parsed) ↦
            ground (arith, parsed, reads u (P.token_at (w.draws + 1) 32) request.state)
      ]

  consume_approved :
      (code_in : Url → Option String) (request : AuthorizationRequest) (user_id : String)
      (w : Server) (i : CodeExchange) (now : ℕ)
      → ReadsCode code_in
      → IsAnswer code_in request user_id w i
      → (consume_authorization_code
          (code_input P resource i request.redirect_uri now)
          (save_token (code_of request w) (save_grant (grant_of request user_id w) w.store))).0
        ≡ some (code_of request w, grant_of request user_id w)
  unfolding consume_authorization_code is_consumable save_token save_grant code_input grant_of
      code_of
  consume_approved code_in request user_id w i now reads h =
      let code = code_of request w in
      let grant = grant_of request user_id w in
      ground (
        arith,
        sent_code code_in request user_id w h.url i.code reads h.sent h.code,
        h.client,
        h.challenge,
        eq_refl request.client_id,
        eq_refl request.redirect_uri,
        eq_refl request.code_challenge,
        eq_refl grant.id,
        eq_refl code.token_hash,
        get-set w.store.grants grant.id grant.id grant,
        get-set w.store.tokens code.token_hash code.token_hash code,
      )

  -- The code in the URL that an approval sends back is good for an answer: within five minutes the
  -- client of the request, with that code, the verifier of its challenge and the redirect URI of the
  -- request, gets tokens, with the scopes that were approved. The store is as the approval left it,
  -- and the exchange names no resource or one that is accepted. Condition: a URL gives back the code
  -- that was set on it.
  pub exchange-approve :
      (code_in : Url → Option String) (request : AuthorizationRequest) (user_id : String)
      (w : Server) (i : CodeExchange)
      → ReadsCode code_in
      → IsAnswer code_in request user_id w i
      → (w' : Server) → w'.store ≡ (approve P resource request user_id w).1.store
      → (check_resource P resource i.resource w').0 ≡ ok tt
      → P.now_at w'.reads < P.now_at w.reads + 300000
      → (r : TokenResponse) × ((exchange_authorization_code P resource i w').0 ≡ ok r)
        × (r.scope ≡ join_scopes request.scopes)
  unfolding exchange_authorization_code read_clock redeem is_inactive issue_token_pair
      build_token_pair draw_token draw_id grant_of code_of
  exchange-approve code_in request user_id w i reads h w' same passed early =
      let s = save_token (code_of request w) (save_grant (grant_of request user_id w) w.store) in
      let stored : w'.store ≡ s = same ∙ approve_lem request user_id w in
      let answered = consume_approved code_in request user_id w i (P.now_at w'.reads) reads h in
      (
        record {
          access_token = P.token_at (w'.draws + 1) 32;
          expires_in = 900;
          refresh_token = P.token_at (w'.draws + 1 + 1) 48;
          scope = join_scopes request.scopes;
        },
        ground (
          arith,
          check_resource_state P resource i.resource w',
          h.verifier,
          h.redirect,
          stored,
          answered,
        ),
        refl,
      )

-- ===== src/OAuth/Service/Codes.antt =====
-- `exchangeAuthorizationCode`: what a redeemed code had to be, and that it is redeemed once.
use fullwell.Prelude.{
  ◌+◌, ◌<◌, String, ◌≡◌, ◌≢◌, refl, true, false, Option, none, some, arith, eq_iff, inl, inr,
  is_text, List,
}
use fullwell.Prelude.Exec.{ok, Result-cases}
use fullwell.Dict
use fullwell.OAuth.Types.{
  Instant, OAuthScope, OAuthGrant, OAuthTokenRecord, authorization_code, TokenResponse,
}
use fullwell.OAuth.Store.{OAuthStore, Consumed, is_consumable, consume_authorization_code}
use fullwell.OAuth.Store.Codes.{consume_lem, consume_spends}
use fullwell.OAuth.Store.Steps.{IsNewHash, is_spent, Reach, save_token_ne-is_spent, Reach-is_spent}
use fullwell.OAuth.Scopes.{join_scopes}
use fullwell.OAuth.Platform.{Platform}
use fullwell.OAuth.Uris.{normalize_redirect_uri}
use fullwell.OAuth.Service.{
  Server, CodeExchange, is_verifier, is_inactive, read_clock, draw_token, draw_id, check_resource,
  code_input, redeem, issue_token_pair, build_token_pair, exchange_authorization_code,
}

module _ (P : Platform) (resource : String) where
  pub check_resource_state :
      (o : Option String) (w : Server) → (check_resource P resource o w).1 ≡ w
  unfolding check_resource
  check_resource_state none w = refl
  check_resource_state (some v) w = ground arith

  -- A code that was redeemed: the token and the grant of the code, and all that was checked.
  pub record IsRedeemed (i : CodeExchange) (w : Server) (r : TokenResponse) : Type 0 where
    pub token : OAuthTokenRecord
    pub grant : OAuthGrant
    pub uri : String
    pub at_hash : Dict.get w.store.tokens (P.hash i.code) ≡ some token
    pub at_grant : Dict.get w.store.grants token.grant_id ≡ some grant
    pub kind : token.kind ≡ authorization_code
    pub unused : token.used_at ≡ none
    pub unrevoked : token.revoked_at ≡ none
    pub unexpired : P.now_at w.reads < token.expires_at
    pub verifier : is_verifier i.code_verifier ≡ true
    pub challenge : token.pkce_challenge ≡ some (P.sha256_base64url i.code_verifier)
    pub normalized : normalize_redirect_uri P i.redirect_uri ≡ ok uri
    pub redirect : token.redirect_uri ≡ some uri
    pub client : grant.client_id ≡ i.client_id
    pub grant_unrevoked : grant.revoked_at ≡ none
    pub scope : r.scope ≡ join_scopes grant.scopes

  is_text→some : (o : Option String) (s : String) → is_text o s ≡ true → o ≡ some s
  is_text→some none s h = cc
  is_text→some (some t) s h = ground (arith, eq_iff t s)

  -- The response of a pair names the scopes that it was given.
  scope-issue :
      (grant_id audience : String) (scopes : List OAuthScope) (w : Server) (r : TokenResponse)
      → (issue_token_pair P resource grant_id scopes audience w).0 ≡ ok r
      → r.scope ≡ join_scopes scopes
  unfolding issue_token_pair build_token_pair draw_id draw_token read_clock
  scope-issue grant_id audience scopes w r e = ground arith

  -- What the store answers to the exchange, and the server after that.
  abbrev answer : CodeExchange → String → Server → Consumed × OAuthStore
  answer i uri w =
      consume_authorization_code (code_input P resource i uri (P.now_at w.reads)) w.store

  abbrev after_answer : CodeExchange → String → Server → Server
  after_answer i uri w = record w { store = (answer i uri w).1; reads = w.reads + 1 }

  -- A successful exchange comes down to the redemption of what the store answers.
  exchange_lem :
      (i : CodeExchange) (w : Server) (r : TokenResponse)
      → (exchange_authorization_code P resource i w).0 ≡ ok r
      → (uri : String) × (is_verifier i.code_verifier ≡ true)
        × (normalize_redirect_uri P i.redirect_uri ≡ ok uri)
        × (exchange_authorization_code P resource i w
            ≡ redeem P resource (P.now_at w.reads) (answer i uri w).0 (after_answer i uri w))
  unfolding exchange_authorization_code read_clock
  exchange_lem i w r e = elim (Result-cases (normalize_redirect_uri P i.redirect_uri)) [
    | inl (x, bad) ↦ absurd (ground (arith, check_resource_state i.resource w))
    | inr (uri, good) ↦ (uri, ground arith, good, ground (arith, check_resource_state i.resource w))
  ]

  -- A redemption succeeds only for a token that is active.
  redeem_lem :
      (now : Instant) (c : Consumed) (w : Server) (r : TokenResponse)
      → (redeem P resource now c w).0 ≡ ok r
      → (t : OAuthTokenRecord) × (g : OAuthGrant) × (c ≡ some (t, g))
        × (is_inactive t now ≡ false)
        × (redeem P resource now c w ≡ issue_token_pair P resource t.grant_id g.scopes t.audience w)
  unfolding redeem
  redeem_lem now none w r e = absurd (ground arith)
  redeem_lem now (some (t, g)) w r e = (t, g, refl, ground arith, ground arith)

  consumable_lem :
      (i : CodeExchange) (uri : String) (w : Server) (t : OAuthTokenRecord) (g : OAuthGrant)
      → is_consumable (code_input P resource i uri (P.now_at w.reads)) t g ≡ true
      → (t.kind ≡ authorization_code)
        × (t.used_at ≡ none)
        × (t.revoked_at ≡ none)
        × (t.redirect_uri ≡ some uri)
        × (t.pkce_challenge ≡ some (P.sha256_base64url i.code_verifier))
        × (g.client_id ≡ i.client_id)
        × (g.revoked_at ≡ none)
  unfolding is_consumable code_input
  consumable_lem i uri w t g h = ground (
    arith,
    is_text→some t.redirect_uri uri,
    is_text→some t.pkce_challenge (P.sha256_base64url i.code_verifier),
    eq_iff g.client_id i.client_id,
  )

  -- A response is given only for a stored authorization code that has not been used, revoked or
  -- outlived, to the client of its grant, with the redirect URI of its request and the verifier of
  -- its challenge; the scopes are those of the grant.
  pub exchange_authorization_code-IsRedeemed :
      (i : CodeExchange) (w : Server) (r : TokenResponse)
      → (exchange_authorization_code P resource i w).0 ≡ ok r
      → IsRedeemed i w r
  unfolding is_inactive code_input
  exchange_authorization_code-IsRedeemed i w r e =
      let (uri, verified, normalized, same) = exchange_lem i w r e in
      let (t, g, answered, active, issued) =
        redeem_lem (P.now_at w.reads) (answer i uri w).0 (after_answer i uri w) r (rw same at e) in
      let (found, at, consumable, after) =
        consume_lem (code_input P resource i uri (P.now_at w.reads)) w.store t g answered in
      let c = consumable_lem i uri w t g consumable in
      record {
        token = t;
        grant = g;
        uri = uri;
        at_hash = found;
        at_grant = at;
        kind = c.0;
        unused = c.1;
        unrevoked = c.2;
        unexpired = ground arith;
        verifier = verified;
        challenge = c.4;
        normalized = normalized;
        redirect = c.3;
        client = c.5;
        grant_unrevoked = c.6;
        scope = ground (arith, scope-issue t.grant_id t.audience g.scopes (after_answer i uri w) r);
      }

  -- The hashes of the two tokens that an exchange issues are new to the store.
  pub record AreNewTokens (w : Server) : Type 0 where
    pub access : IsNewHash (P.hash (P.token_at (w.draws + 1) 32)) w.store
    pub refresh : IsNewHash (P.hash (P.token_at (w.draws + 1 + 1) 48)) w.store

  issue-is_spent :
      (grant_id audience hash : String) (scopes : List OAuthScope) (w : Server)
      → P.hash (P.token_at (w.draws + 1) 32) ≢ hash
      → P.hash (P.token_at (w.draws + 1 + 1) 48) ≢ hash
      → is_spent hash w.store ≡ true
      → is_spent hash (issue_token_pair P resource grant_id scopes audience w).1.store ≡ true
  unfolding issue_token_pair build_token_pair draw_id draw_token read_clock
  issue-is_spent grant_id audience hash scopes w na nr spent =
      save_token_ne-is_spent _ _ hash nr (save_token_ne-is_spent _ _ hash na spent)

  -- A code that was redeemed is not redeemed again, whatever calls of the store come between and
  -- whatever else a second request says. The tokens issued must have hashes that the store did not
  -- hold.
  pub exchange_once :
      (i : CodeExchange) (w : Server) (r : TokenResponse)
      → AreNewTokens w
      → (exchange_authorization_code P resource i w).0 ≡ ok r
      → (w' : Server) → Reach (exchange_authorization_code P resource i w).1.store w'.store
      → (j : CodeExchange) (r' : TokenResponse) → j.code ≡ i.code
      → (exchange_authorization_code P resource j w').0 ≢ ok r'
  unfolding code_input
  exchange_once i w r new e w' reach j r' same again =
      let (uri, verified, normalized, lands) = exchange_lem i w r e in
      let (t, g, answered, active, issued) =
        redeem_lem (P.now_at w.reads) (answer i uri w).0 (after_answer i uri w) r (rw lands at e) in
      let (found, at, consumable, after) =
        consume_lem (code_input P resource i uri (P.now_at w.reads)) w.store t g answered in
      let spent =
        consume_spends (code_input P resource i uri (P.now_at w.reads)) w.store t g answered in
      let kept =
        issue-is_spent t.grant_id t.audience (P.hash i.code) g.scopes (after_answer i uri w)
          (λ same_hash. ground (arith, new.access, found))
          (λ same_hash. ground (arith, new.refresh, found)) spent in
      let later = Reach-is_spent (P.hash i.code) reach (rw (lands, issued) kept) in
      let h = exchange_authorization_code-IsRedeemed j w' r' again in
      ground (arith, h.at_hash, h.unused, h.unrevoked)

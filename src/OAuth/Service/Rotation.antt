-- ===== src/OAuth/Service/Rotation.antt =====
-- `exchangeRefreshToken` where it succeeds: what the presented token had to be, what is stored, and
-- that the tokens of the answer work.
use fullwell.Prelude.{
  ◌+◌, ◌<◌, String, ◌≡◌, ◌≢◌, refl, ap, ◌∙◌, true, false, Option, none, some, arith, eq_iff,
  Option-cases, inl, inr, List,
}
use fullwell.Prelude.Exec.{Result, ok}
use fullwell.Dict
use fullwell.OAuth.Types.{
  Instant, OAuthScope, OAuthGrant, OAuthTokenRecord, TokenResponse, OAuthError, refresh, access,
  Identity,
}
use fullwell.OAuth.Store.{
  Rotation, rotated, rotate_refresh_token, get_grant, resolve_access_token, is_refresh, is_live,
}
use fullwell.OAuth.Store.Codes.{rotate_lem, with_rotation, rotation_spends, get-with_rotation}
use fullwell.OAuth.Store.Steps.{Reach, Reach-is_spent}
use fullwell.OAuth.Scopes.{join_scopes}
use fullwell.OAuth.Platform.{Platform}
use fullwell.OAuth.Service.{
  Server, RefreshExchange, TokenPair, is_inactive, read_clock, draw_token, draw_id, check_resource,
  check_scope, build_token_pair, finish_rotation, refresh_active, refuse_token, refresh_found,
  exchange_refresh_token, add_seconds, authenticate,
}
use fullwell.OAuth.Service.Refresh.{refresh_lem}

module _ (P : Platform) (resource : String) where
  check_scope_state :
      (o : Option String) (scopes : List OAuthScope) (w : Server)
      → (check_scope P resource o scopes w).1 ≡ w
  unfolding check_scope
  check_scope_state none scopes w = refl
  check_scope_state (some v) scopes w = ground arith

  -- The pair that the draws of the server give.
  unfoldable pub pair_of :
      String → String → String → Option String → List OAuthScope → Server → TokenPair
  pair_of grant_id audience family_id parent_id scopes w = record {
    access = record {
      id = P.opaque_id_at (w.draws + 1 + 1) "oauth";
      grant_id = grant_id;
      kind = access;
      token_hash = P.hash (P.token_at w.draws 32);
      family_id = some family_id;
      parent_id = none;
      pkce_challenge = none;
      redirect_uri = none;
      audience = audience;
      expires_at = add_seconds (P.now_at w.reads) 900;
      used_at = none;
      revoked_at = none;
    };
    refresh = record {
      id = P.opaque_id_at (w.draws + 1 + 1 + 1) "oauth";
      grant_id = grant_id;
      kind = refresh;
      token_hash = P.hash (P.token_at (w.draws + 1) 48);
      family_id = some family_id;
      parent_id = parent_id;
      pkce_challenge = none;
      redirect_uri = none;
      audience = audience;
      expires_at = add_seconds (P.now_at w.reads) 2592000;
      used_at = none;
      revoked_at = none;
    };
    response = record {
      access_token = P.token_at w.draws 32;
      expires_in = 900;
      refresh_token = P.token_at (w.draws + 1) 48;
      scope = join_scopes scopes;
    };
  }

  build_lem :
      (grant_id audience family_id : String) (parent_id : Option String) (scopes : List OAuthScope)
      (w : Server)
      → build_token_pair P resource grant_id audience family_id parent_id scopes w ≡ (
        ok (pair_of grant_id audience family_id parent_id scopes w),
        record w { reads = w.reads + 1; draws = w.draws + 1 + 1 + 1 + 1 },
      )
  unfolding build_token_pair read_clock draw_token draw_id pair_of
  build_lem grant_id audience family_id parent_id scopes w = refl

  -- An answer comes from a stored refresh token of a family, of which it is the current one.
  found_lem :
      (i : RefreshExchange) (now : Instant) (o : Option OAuthTokenRecord) (w : Server)
      (r : TokenResponse)
      → (refresh_found P resource i now o w).0 ≡ ok r
      → (t : OAuthTokenRecord) × (family : String) × (o ≡ some t)
        × (t.family_id ≡ some family)
        × (is_refresh t.kind ≡ true)
        × (is_inactive t now ≡ false)
        × (refresh_found P resource i now o w ≡ refresh_active P resource i now t family w)
  unfolding refresh_found refuse_token
  found_lem i now none w r e = absurd (ground arith)
  found_lem i now (some t) w r e = elim (Option-cases t.family_id) [
    | inl absent ↦ absurd (ground arith)
    | inr (family, member) ↦ (t, family, refl, member, ground arith, ground arith, ground arith)
  ]

  -- The rotation that the exchange asks the store for.
  unfoldable pub rotation_of :
      RefreshExchange → Instant → OAuthTokenRecord → String → OAuthGrant → Server → Rotation
  unfolding pair_of
  rotation_of i now t family g w =
      let pair = pair_of t.grant_id t.audience family (some t.id) g.scopes w in
      record {
        token_hash = P.hash i.refresh_token;
        used_at = now;
        access = pair.access;
        refresh = pair.refresh;
      }

  active_lem :
      (i : RefreshExchange) (now : Instant) (t : OAuthTokenRecord) (family : String) (w : Server)
      (r : TokenResponse)
      → (refresh_active P resource i now t family w).0 ≡ ok r
      → (g : OAuthGrant) × (Dict.get w.store.grants t.grant_id ≡ some g)
        × (g.client_id ≡ i.client_id)
        × (g.revoked_at ≡ none)
        × ((check_scope P resource i.scope g.scopes w).0 ≡ ok tt)
        × ((rotate_refresh_token (rotation_of i now t family g w) w.store).0 ≡ rotated)
        × ((refresh_active P resource i now t family w).1.store
            ≡ (rotate_refresh_token (rotation_of i now t family g w) w.store).1)
        × (r ≡ (pair_of t.grant_id t.audience family (some t.id) g.scopes w).response)
  unfolding refresh_active get_grant finish_rotation rotation_of
  active_lem i now t family w r e = elim (Option-cases (Dict.get w.store.grants t.grant_id)) [
    | inl absent ↦ absurd (ground arith)
    | inr (g, at) ↦
        let scope_kept = check_scope_state i.scope g.scopes w in
        let built = build_lem t.grant_id t.audience family (some t.id) g.scopes w in
        let same = eq_iff g.client_id i.client_id in
        (
          g,
          at,
          ground (arith, same),
          ground arith,
          ground (arith, scope_kept),
          ground (arith, scope_kept, built),
          ground (arith, scope_kept, built),
          ground (arith, scope_kept, built),
        )
  ]

  -- An answer is given only if the requested resource was accepted.
  passed_lem :
      (i : RefreshExchange) (w : Server) (r : TokenResponse)
      → (exchange_refresh_token P resource i w).0 ≡ ok r
      → (check_resource P resource i.resource w).0 ≡ ok tt
  unfolding exchange_refresh_token
  passed_lem i w r e = ground arith

  -- A refresh token that was exchanged: the token, its family and its grant, all that was checked,
  -- and what the exchange stores and answers.
  pub record IsRefreshed (i : RefreshExchange) (w : Server) (r : TokenResponse) : Type 0 where
    pub token : OAuthTokenRecord
    pub family : String
    pub grant : OAuthGrant
    pub at_hash : Dict.get w.store.tokens (P.hash i.refresh_token) ≡ some token
    pub member : token.family_id ≡ some family
    pub kind : is_refresh token.kind ≡ true
    pub active : is_inactive token (P.now_at w.reads) ≡ false
    pub at_grant : Dict.get w.store.grants token.grant_id ≡ some grant
    pub client : grant.client_id ≡ i.client_id
    pub grant_unrevoked : grant.revoked_at ≡ none
    pub after :
        (exchange_refresh_token P resource i w).1.store
        ≡ with_rotation
            (rotation_of i (P.now_at w.reads) token family grant (record w { reads = w.reads + 1 }))
            token
            w.store
    pub answer :
        r
        ≡ (pair_of token.grant_id token.audience family
            (some token.id)
            grant.scopes
            (record w { reads = w.reads + 1 })).response

  -- A refresh succeeds only for a stored refresh token of a family that has not been used, revoked
  -- or outlived, for the client of its grant, while the grant stands. It marks that token used and
  -- stores a new access and a new refresh token of the same family, grant and audience, the
  -- refresh token with the old one as its parent, which the answer returns with the grant's scopes.
  pub exchange_refresh_token-IsRefreshed :
      (i : RefreshExchange) (w : Server) (r : TokenResponse)
      → (exchange_refresh_token P resource i w).0 ≡ ok r
      → IsRefreshed i w r
  unfolding rotation_of
  exchange_refresh_token-IsRefreshed i w r e =
      let w1 : Server = record w { reads = w.reads + 1 } in
      let now = P.now_at w.reads in
      let lands = refresh_lem P resource i w (passed_lem i w r e) in
      let (t, family, found, member, kind, active, lands1) =
        found_lem i now (Dict.get w.store.tokens (P.hash i.refresh_token)) w1 r (rw lands at e) in
      let (g, at, client, unrevoked, scope, rotates, after, answer) =
        active_lem i now t family w1 r (rw (lands, lands1) at e) in
      let (t', found', kind', unused, live, stored) =
        rotate_lem (rotation_of i now t family g w1) w.store rotates in
      let same : t' ≡ t = cc (found, found') in
      record {
        token = t;
        family = family;
        grant = g;
        at_hash = found;
        member = member;
        kind = kind;
        active = active;
        at_grant = at;
        client = client;
        grant_unrevoked = unrevoked;
        after =
            ap (λ (x : Result OAuthError TokenResponse × Server). x.1.store) (lands ∙ lands1)
            ∙ (after
                ∙ stored
                ∙ ap (λ x. with_rotation (rotation_of i now t family g w1) x w.store) same);
        answer = answer;
      }

  -- The hashes of the two new tokens differ from that of the presented one.
  pub record AreOtherTokens (i : RefreshExchange) (w : Server) : Type 0 where
    pub access : P.hash (P.token_at w.draws 32) ≢ P.hash i.refresh_token
    pub refresh : P.hash (P.token_at (w.draws + 1) 48) ≢ P.hash i.refresh_token

  -- A refresh token is exchanged once: after it has been, no request with it gets an answer,
  -- whatever calls of the store come between. The new tokens must have other hashes.
  pub exchange_refresh_once :
      (i : RefreshExchange) (w : Server) (r : TokenResponse)
      → AreOtherTokens i w
      → (exchange_refresh_token P resource i w).0 ≡ ok r
      → (w' : Server) → Reach (exchange_refresh_token P resource i w).1.store w'.store
      → (j : RefreshExchange) (r' : TokenResponse) → j.refresh_token ≡ i.refresh_token
      → (exchange_refresh_token P resource j w').0 ≢ ok r'
  unfolding rotation_of is_inactive pair_of
  exchange_refresh_once i w r other e w' reach j r' same again =
      let h = exchange_refresh_token-IsRefreshed i w r e in
      let k = exchange_refresh_token-IsRefreshed j w' r' again in
      let spent =
        rotation_spends
          (rotation_of i (P.now_at w.reads) h.token h.family h.grant
            (record w { reads = w.reads + 1 }))
          w.store h.token other.access other.refresh in
      let later = Reach-is_spent (P.hash i.refresh_token) reach (rw (h.after) spent) in
      ground (arith, k.at_hash, k.active)

  -- In the store that a refresh left, with no revocation or other change since, the access token of
  -- its answer gives access until it expires, fifteen minutes after it was issued: to the user of
  -- the grant, for the client and with the scopes of the grant. The user is known, the grant is for
  -- the audience of the token, and the new tokens have different hashes.
  pub authenticate-exchange_refresh_token :
      (i : RefreshExchange) (w : Server) (r : TokenResponse) (d : IsRefreshed i w r) (u : Identity)
      → Dict.get w.store.identities d.grant.user_id ≡ some u
      → d.grant.resource ≡ d.token.audience
      → P.hash (P.token_at (w.draws + 1) 48) ≢ P.hash (P.token_at w.draws 32)
      → (w' : Server) → w'.store ≡ (exchange_refresh_token P resource i w).1.store
      → P.now_at w'.reads < P.now_at (w.reads + 1) + 900000
      → (authenticate P resource r.access_token w').0
        ≡ ok (
            some (record {
              user_id = u.user_id;
              actor_id = u.actor_id;
              display_name = u.display_name;
              client_id = d.grant.client_id;
              scopes = d.grant.scopes;
            }))
  unfolding authenticate read_clock rotation_of pair_of resolve_access_token is_live
  authenticate-exchange_refresh_token i w r d u known audience differ w' same early =
      let rot =
        rotation_of i (P.now_at w.reads) d.token d.family d.grant
          (record w { reads = w.reads + 1 }) in
      let stored = get-with_rotation rot d.token w.store differ in
      ground (
        arith,
        same,
        d.after,
        d.answer,
        d.at_grant,
        d.grant_unrevoked,
        stored,
        eq_iff d.grant.resource d.token.audience,
      )

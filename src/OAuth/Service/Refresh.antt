-- ===== src/OAuth/Service/Refresh.antt =====
-- `exchangeRefreshToken`: rotation, and the revocation of the family on reuse.
use fullwell.Prelude.{◌+◌, String, ◌≡◌, ◌≢◌, none, some, arith}
use fullwell.Prelude.Exec.{ok, err}
use fullwell.Dict
use fullwell.OAuth.Types.{Instant, OAuthTokenRecord}
use fullwell.OAuth.Store.{get_token, revoke_family, resolve_access_token}
use fullwell.OAuth.Store.Revocation.{resolve-revoke_family}
use fullwell.OAuth.Platform.{Platform}
use fullwell.OAuth.Service.{
  Server, RefreshExchange, is_inactive, read_clock, check_resource, refuse_token, refresh_found,
  exchange_refresh_token, refuse_grant,
}
use fullwell.OAuth.Service.Codes.{check_resource_state}

module _ (P : Platform) (resource : String) where
  -- After the requested resource has been accepted, the answer is that of `refresh_found`.
  pub refresh_lem :
      (i : RefreshExchange) (w : Server)
      → (check_resource P resource i.resource w).0 ≡ ok tt
      → exchange_refresh_token P resource i w
        ≡ refresh_found P resource i
            (P.now_at w.reads)
            (Dict.get w.store.tokens (P.hash i.refresh_token))
            (record w { reads = w.reads + 1 })
  unfolding exchange_refresh_token read_clock get_token
  refresh_lem i w passed = ground (arith, check_resource_state P resource i.resource w)

  -- A refresh token that has been used before is refused, and its whole family is revoked.
  reuse_lem :
      (i : RefreshExchange) (now : Instant) (t : OAuthTokenRecord) (family : String) (w : Server)
      → t.family_id ≡ some family
      → t.used_at ≢ none
      → refresh_found P resource i now (some t) w
        ≡ (err refuse_grant, record w { store = revoke_family family now w.store })
  unfolding refresh_found refuse_token is_inactive
  reuse_lem i now t family w member used = ground arith

  -- A stored refresh token of a family that has been used before is refused when it is presented
  -- again with no resource or with one that is accepted, and in the store that this leaves none of
  -- the tokens of its family that were stored gives access, at any time.
  pub exchange_refresh_token-reuse :
      (i : RefreshExchange) (w : Server) (t : OAuthTokenRecord) (family : String)
      → (check_resource P resource i.resource w).0 ≡ ok tt
      → Dict.get w.store.tokens (P.hash i.refresh_token) ≡ some t
      → t.family_id ≡ some family
      → t.used_at ≢ none
      → ((exchange_refresh_token P resource i w).0 ≡ err refuse_grant)
        × ((hash : String) (u : OAuthTokenRecord) (later : Instant)
            → Dict.get w.store.tokens hash ≡ some u
            → u.family_id ≡ some family
            → resolve_access_token hash later (exchange_refresh_token P resource i w).1.store
              ≡ none)
  exchange_refresh_token-reuse i w t family passed found member used =
      let e = refresh_lem i w passed in
      let w' : Server = record w { reads = w.reads + 1 } in
      let r = reuse_lem i (P.now_at w.reads) t family w' member used in
      (
        rw (e, found, r),
        λ hash u later at same.
            rw (e, found, r)
              (resolve-revoke_family family (P.now_at w.reads) later w.store hash u at same),
      )

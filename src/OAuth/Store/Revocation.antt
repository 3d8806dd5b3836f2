-- ===== src/OAuth/Store/Revocation.antt =====
-- What a revocation does to access: `resolveAccessToken` after `revokeFamily`,
-- `revokeGrantForUser` and `revokeUserAccess`.

use fullwell.Prelude.{
  String, ◌≡◌, ◌≢◌, ◌<◌, true, none, some, arith, ◌==◌, eq_iff, eq_refl, Option-cases, inl, inr,
  if◌then◌else◌, [], ◌∷◌, is_text, any, filter, map,
}
use fullwell.Dict
use fullwell.Dict.{Dict, values}
use fullwell.Dict.Laws.{get-update_all}
use fullwell.OAuth.Types.{
  Instant, OAuthGrant, OAuthTokenRecord, Identity, OAuthAccessIdentity, access,
}
use fullwell.OAuth.Store.{
  OAuthStore, is_live, resolve_access_token, revoke_grant_for_user, revoke_user_access,
  revoke_family, revoke_once, has, grant_ids,
}
use fullwell.OAuth.Store.Keys.{AreKeyed, get-revoke_keys}

-- Why a token resolves to an identity: the token, its grant and the user are stored, the token is
-- an access token that is not revoked and has not expired, its grant is not revoked and is for the
-- audience of the token.
pub record IsResolved (hash : String) (now : Instant) (s : OAuthStore) (r : OAuthAccessIdentity)
    : Type 0 where
  pub token : OAuthTokenRecord
  pub grant : OAuthGrant
  pub identity : Identity
  pub at_hash : Dict.get s.tokens hash ≡ some token
  pub at_grant : Dict.get s.grants token.grant_id ≡ some grant
  pub at_user : Dict.get s.identities grant.user_id ≡ some identity
  pub kind : token.kind ≡ access
  pub unrevoked : token.revoked_at ≡ none
  pub unexpired : now < token.expires_at
  pub grant_unrevoked : grant.revoked_at ≡ none
  pub audience : grant.resource ≡ token.audience
  pub user : r.user_id ≡ identity.user_id
  pub actor : r.actor_id ≡ identity.actor_id
  pub client : r.client_id ≡ grant.client_id
  pub scopes : r.scopes ≡ grant.scopes

-- A token resolves only for the reasons above.
pub resolve_access_token-IsResolved :
    (hash : String) (now : Instant) (s : OAuthStore) (r : OAuthAccessIdentity)
    → resolve_access_token hash now s ≡ some r
    → IsResolved hash now s r
unfolding resolve_access_token is_live
resolve_access_token-IsResolved hash now s r e = elim (Option-cases (Dict.get s.tokens hash)) [
  | inl absent ↦ absurd (ground arith)
  | inr (t, found) ↦ elim (Option-cases (Dict.get s.grants t.grant_id)) [
    | inl absent ↦ absurd (ground arith)
    | inr (g, at) ↦ elim (Option-cases (Dict.get s.identities g.user_id)) [
      | inl absent ↦ absurd (ground arith)
      | inr (i, known) ↦ record {
        token = t;
        grant = g;
        identity = i;
        at_hash = found;
        at_grant = at;
        at_user = known;
        kind = ground arith;
        unrevoked = ground arith;
        unexpired = ground arith;
        grant_unrevoked = ground arith;
        audience = ground (arith, eq_iff g.resource t.audience);
        user = ground arith;
        actor = ground arith;
        client = ground arith;
        scopes = ground arith;
      }
    ]
  ]
]

-- After a family is revoked every token of it is revoked, and any other token is as it was.
pub revoke_family_lem :
    (family_id : String) (now : Instant) (s : OAuthStore) (hash : String) (t : OAuthTokenRecord)
    → Dict.get s.tokens hash ≡ some t
    → Dict.get (revoke_family family_id now s).tokens hash
      ≡ some (if is_text t.family_id family_id then record t { revoked_at = some now } else t)
unfolding revoke_family
revoke_family_lem family_id now s hash t found = rw (
  get-update_all
      (λ t. if is_text t.family_id family_id then record t { revoked_at = some now } else t)
      s.tokens hash,
  found,
)

-- No access token of a revoked family gives access, at any time.
pub resolve-revoke_family :
    (family_id : String) (at now : Instant) (s : OAuthStore) (hash : String) (t : OAuthTokenRecord)
    → Dict.get s.tokens hash ≡ some t
    → t.family_id ≡ some family_id
    → resolve_access_token hash now (revoke_family family_id at s) ≡ none
resolve-revoke_family family_id at now s hash t found family =
    elim (Option-cases (resolve_access_token hash now (revoke_family family_id at s))) [
      | inl refused ↦ refused
      | inr (r, resolved) ↦
          let h =
            resolve_access_token-IsResolved hash now (revoke_family family_id at s) r resolved in
          absurd (
            ground (
              arith,
              h.at_hash,
              h.unrevoked,
              eq_refl family_id,
              revoke_family_lem family_id at s hash t found,
            ))
    ]

-- The tokens of a grant after its revocation.
get-revoke_grant :
    (user_id grant_id : String) (at : Instant) (s : OAuthStore) (hash : String)
    (t : OAuthTokenRecord)
    → (revoke_grant_for_user user_id grant_id at s).0 ≡ true
    → Dict.get s.tokens hash ≡ some t
    → Dict.get (revoke_grant_for_user user_id grant_id at s).1.tokens hash
      ≡ some (if t.grant_id == grant_id then revoke_once at t else t)
unfolding revoke_grant_for_user
get-revoke_grant user_id grant_id at s hash t done found = ground (
  arith,
  get-update_all (λ t. if t.grant_id == grant_id then revoke_once at t else t) s.tokens hash,
)

-- The revocation of a grant ends the access of every token issued under it.
pub resolve-revoke_grant :
    (user_id grant_id : String) (at now : Instant) (s : OAuthStore) (hash : String)
    (t : OAuthTokenRecord)
    → (revoke_grant_for_user user_id grant_id at s).0 ≡ true
    → Dict.get s.tokens hash ≡ some t
    → t.grant_id ≡ grant_id
    → resolve_access_token hash now (revoke_grant_for_user user_id grant_id at s).1 ≡ none
resolve-revoke_grant user_id grant_id at now s hash t done found same =
    let s' : OAuthStore = (revoke_grant_for_user user_id grant_id at s).1 in
    elim (Option-cases (resolve_access_token hash now s')) [
      | inl refused ↦ refused
      | inr (r, resolved) ↦
          let h = resolve_access_token-IsResolved hash now s' r resolved in
          absurd (
            ground (
              arith,
              h.at_hash,
              h.unrevoked,
              eq_refl grant_id,
              get-revoke_grant user_id grant_id at s hash t done found,
            ))
    ]

has_own :
    (user_id k : String) (m : Dict OAuthGrant) (g : OAuthGrant)
    → Dict.get m k ≡ some g
    → g.user_id ≡ user_id
    → has (map (λ g. g.id) (filter (λ g. g.user_id == user_id) (values m))) g.id ≡ true
unfolding Dict.get has any filter
has_own user_id k [] g found own = ground arith
has_own user_id k ((j, f) ∷ m) g found own = ground (
  arith,
  has_own user_id k m g,
  eq_iff j k,
  eq_iff g.user_id user_id,
  eq_iff f.user_id user_id,
  eq_iff f.id g.id,
)

-- The grants of the user are among `grantIds`.
has-grant_ids :
    (user_id k : String) (s : OAuthStore) (g : OAuthGrant)
    → Dict.get s.grants k ≡ some g
    → g.user_id ≡ user_id
    → has (grant_ids user_id s) g.id ≡ true
unfolding grant_ids
has-grant_ids user_id k s g found own = has_own user_id k s.grants g found own

-- After `revokeUserAccess` no token gives access to the user, at any time: one that still resolves
-- belongs to somebody else. The maps of the store are keyed by the identifiers.
pub resolve-revoke_user_access :
    (user_id : String) (at now : Instant) (s : OAuthStore) (hash : String) (r : OAuthAccessIdentity)
    → AreKeyed s
    → resolve_access_token hash now (revoke_user_access user_id at s) ≡ some r
    → r.user_id ≢ user_id
unfolding revoke_user_access
resolve-revoke_user_access user_id at now s hash r keyed resolved own =
    let h = resolve_access_token-IsResolved hash now (revoke_user_access user_id at s) r resolved in
    let ids = grant_ids user_id s in
    elim (Option-cases (Dict.get s.grants h.token.grant_id)) [
      | inl absent ↦
          absurd (ground (arith, h.at_grant, get-revoke_keys ids at s.grants h.token.grant_id))
      | inr (g, found) ↦ absurd (
          ground (
            arith,
            h.at_grant,
            h.at_user,
            h.user,
            h.grant_unrevoked,
            get-revoke_keys ids at s.grants h.token.grant_id,
            keyed.grants h.token.grant_id g found,
            keyed.identities h.grant.user_id h.identity,
            has-grant_ids user_id h.token.grant_id s g found,
          ))
    ]

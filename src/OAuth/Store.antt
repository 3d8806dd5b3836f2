-- ===== src/OAuth/Store.antt =====
-- oauth/memory-store.ts: `MemoryOAuthStore`. A method returns the new store beside its result.
pub mod Codes
pub mod Steps
pub mod Keys
pub mod Revocation
use fullwell.Prelude.{
  String, Option, none, some, Bool, true, false, not, ◌&&◌, ◌||◌, List, map, ◌==◌, if◌then◌else◌,
  is_none, is_text, leb, filter, any, get_or,
}
use mathlib.Core.Option
use fullwell.Dict
use fullwell.Dict.{Dict, values}
use fullwell.OAuth.Types.{
  Instant, OAuthClient, OAuthGrant, OAuthGrantSummary, TokenKind, authorization_code, access,
  refresh, OAuthTokenRecord, Identity, OAuthAccessIdentity,
}

pub record OAuthStore : Type 0 where
  pub clients : Dict OAuthClient
  pub grants : Dict OAuthGrant
  pub tokens : Dict OAuthTokenRecord
  pub identities : Dict Identity

abbrev pub is_code : TokenKind → Bool
is_code authorization_code = true
is_code _ = false

abbrev pub is_access : TokenKind → Bool
is_access access = true
is_access _ = false

abbrev pub is_refresh : TokenKind → Bool
is_refresh refresh = true
is_refresh _ = false

unfoldable pub add_identity : Identity → OAuthStore → OAuthStore
add_identity i s = record s { identities = Dict.set s.identities i.user_id i }

unfoldable pub get_client : String → OAuthStore → Option OAuthClient
get_client client_id s = Dict.get s.clients client_id

unfoldable pub register_client : OAuthClient → OAuthStore → OAuthStore
register_client c s = record s { clients = Dict.set s.clients c.client_id c }

unfoldable pub save_grant : OAuthGrant → OAuthStore → OAuthStore
save_grant g s = record s { grants = Dict.set s.grants g.id g }

unfoldable pub get_grant : String → OAuthStore → Option OAuthGrant
get_grant grant_id s = Dict.get s.grants grant_id

unfoldable pub save_token : OAuthTokenRecord → OAuthStore → OAuthStore
save_token t s = record s { tokens = Dict.set s.tokens t.token_hash t }

unfoldable pub get_token : String → OAuthStore → Option OAuthTokenRecord
get_token hash s = Dict.get s.tokens hash

-- `t` as it is once revoked: the first time of revocation is kept.
abbrev pub revoke_once : Instant → OAuthTokenRecord → OAuthTokenRecord
revoke_once now t = if is_none t.revoked_at then record t { revoked_at = some now } else t

unfoldable pub revoke_grant_for_user : String → String → Instant → OAuthStore → Bool × OAuthStore
revoke_grant_for_user user_id grant_id now s = elim (Dict.get s.grants grant_id) [
  | none ↦ (false, s)
  | some g ↦ if not (g.user_id == user_id) || not (is_none g.revoked_at) then (false, s) else (
    true,
    record s {
      grants = Dict.set s.grants grant_id (record g { revoked_at = some now });
      tokens =
          Dict.update_all (λ t. if t.grant_id == grant_id then revoke_once now t else t) s.tokens;
    },
  )
]

-- `grantIds`, the grants of the user
unfoldable pub grant_ids : String → OAuthStore → List String
grant_ids user_id s = map (λ g. g.id) (filter (λ g. g.user_id == user_id) (values s.grants))

unfoldable pub has : List String → String → Bool
has ids id = any (λ i. i == id) ids

-- The loop over the grants tests each by its key.
unfoldable pub revoke_keys : List String → Instant → Dict OAuthGrant → Dict OAuthGrant
unfolding has
revoke_keys ids now = map (λ e.
    if has ids e.0 && is_none e.1.revoked_at
    then (e.0, record (e.1) { revoked_at = some now })
    else e)

unfoldable pub revoke_user_access : String → Instant → OAuthStore → OAuthStore
unfolding grant_ids has revoke_keys
revoke_user_access user_id now s =
    let ids = grant_ids user_id s in
    record s {
      grants = revoke_keys ids now s.grants;
      tokens = Dict.update_all (λ t. if has ids t.grant_id then revoke_once now t else t) s.tokens;
    }

pub record CodeInput : Type 0 where
  pub token_hash : String
  pub client_id : String
  pub redirect_uri : String
  pub pkce_challenge : String
  pub used_at : Instant

-- The guard of `consumeAuthorizationCode`: the code can be consumed.
unfoldable pub is_consumable : CodeInput → OAuthTokenRecord → OAuthGrant → Bool
is_consumable i t g =
    is_code t.kind
    && is_none t.used_at
    && is_none t.revoked_at
    && is_text t.redirect_uri i.redirect_uri
    && is_text t.pkce_challenge i.pkce_challenge
    && g.client_id == i.client_id
    && is_none g.revoked_at

abbrev pub Consumed : Type 0
Consumed = Option (OAuthTokenRecord × OAuthGrant)

unfoldable pub consume_authorization_code : CodeInput → OAuthStore → Consumed × OAuthStore
unfolding is_consumable
consume_authorization_code i s = elim (Dict.get s.tokens i.token_hash) [
  | none ↦ (none, s)
  | some t ↦ elim (Dict.get s.grants t.grant_id) [
    | none ↦ (none, s)
    | some g ↦
        if is_consumable i t g
        then (
          some (t, g),
          record s {
            tokens = Dict.set s.tokens i.token_hash (record t { used_at = some i.used_at });
          },
        )
        else (none, s)
  ]
]

pub record Rotation : Type 0 where
  pub token_hash : String
  pub used_at : Instant
  pub access : OAuthTokenRecord
  pub refresh : OAuthTokenRecord

pub data RotationResult : Type 0 where
  rotated reuse invalid : RotationResult

unfoldable pub rotate_refresh_token : Rotation → OAuthStore → RotationResult × OAuthStore
rotate_refresh_token i s = elim (Dict.get s.tokens i.token_hash) [
  | none ↦ (invalid, s)
  | some t ↦
      if not (is_refresh t.kind) || not (is_none t.revoked_at)
      then (invalid, s)
      else if not (is_none t.used_at)
      then (reuse, s)
      else (
        rotated,
        record s {
          tokens =
              Dict.set
                (Dict.set (Dict.set s.tokens i.token_hash (record t { used_at = some i.used_at }))
                  i.access.token_hash i.access)
                i.refresh.token_hash i.refresh;
        },
      )
]

unfoldable pub revoke_token : String → Instant → OAuthStore → OAuthStore
revoke_token hash now s = elim (Dict.get s.tokens hash) [
  | none ↦ s
  | some t ↦ record s { tokens = Dict.set s.tokens hash (record t { revoked_at = some now }) }
]

unfoldable pub revoke_family : String → Instant → OAuthStore → OAuthStore
revoke_family family_id now s = record s {
  tokens =
      Dict.update_all
        (λ t. if is_text t.family_id family_id then record t { revoked_at = some now } else t)
        s.tokens;
}

-- The guards of `resolveAccessToken` on the token and on its grant.
unfoldable pub is_live : Instant → OAuthTokenRecord → OAuthGrant → Bool
is_live now t g =
    is_access t.kind
    && is_none t.revoked_at
    && not (leb t.expires_at now)
    && is_none g.revoked_at
    && g.resource == t.audience

unfoldable pub resolve_access_token : String → Instant → OAuthStore → Option OAuthAccessIdentity
unfolding is_live
resolve_access_token hash now s = elim (Dict.get s.tokens hash) [
  | none ↦ none
  | some t ↦ elim (Dict.get s.grants t.grant_id) [
    | none ↦ none
    | some g ↦ elim (Dict.get s.identities g.user_id) [
      | none ↦ none
      | some i ↦
          if is_live now t g
          then some (record {
            user_id = i.user_id;
            actor_id = i.actor_id;
            display_name = i.display_name;
            client_id = g.client_id;
            scopes = g.scopes;
          })
          else none
    ]
  ]
]

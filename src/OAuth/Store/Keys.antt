-- ===== src/OAuth/Store/Keys.antt =====
-- Each map of the store keys a record by the record's own identifier.
use mathlib.Core.Option
use fullwell.Prelude.{
  String, ◌≡◌, refl, Bool, not, ◌&&◌, some, is_none, arith, ◌==◌, eq_iff, Option-cases, Bool-cases,
  ◌||◌, inl, inr, if◌then◌else◌, [], ◌∷◌, List, is_text,
}
use fullwell.Dict
use fullwell.Dict.{Dict}
use fullwell.Dict.Laws.{get-set, get-update_all}
use fullwell.OAuth.Types.{Instant, OAuthClient, OAuthGrant, OAuthTokenRecord, Identity}
use fullwell.OAuth.Store.{
  OAuthStore, add_identity, register_client, save_grant, save_token, revoke_grant_for_user,
  revoke_user_access, CodeInput, is_consumable, is_refresh, consume_authorization_code, Rotation,
  rotate_refresh_token, revoke_token, revoke_family, revoke_once, has, grant_ids, revoke_keys,
}
use fullwell.OAuth.Store.Steps.{
  Step, Reach, identified, registered, granted, saved, grant_revoked, access_revoked, consumed,
  rotation, token_revoked, family_revoked, here, next,
}

-- Every value stands under its own key.
abbrev pub IsKeyed : {V : Type 0} → (V → String) → Dict V → Type 0
IsKeyed {V} key m = (k : String) (v : V) → Dict.get m k ≡ some v → key v ≡ k

module _ {V : Type 0} (key : V → String) where
  set-IsKeyed :
      (m : Dict V) (k : String) (v : V) → IsKeyed key m → key v ≡ k → IsKeyed key (Dict.set m k v)
  set-IsKeyed m k v h e j w found = ground (arith, get-set m k j v, eq_iff k j, h j w)

  update_all-IsKeyed :
      (f : V → V) (m : Dict V)
      → ((v : V) → key (f v) ≡ key v)
      → IsKeyed key m
      → IsKeyed key (Dict.update_all f m)
  update_all-IsKeyed f m same h k w found = elim (Option-cases (Dict.get m k)) [
    | inl absent ↦ absurd (ground (arith, get-update_all f m k))
    | inr (v, at) ↦ ground (arith, get-update_all f m k, same v, h k v)
  ]

pub record AreKeyed (s : OAuthStore) : Type 0 where
  pub clients : IsKeyed (λ (c : OAuthClient). c.client_id) s.clients
  pub grants : IsKeyed (λ (g : OAuthGrant). g.id) s.grants
  pub tokens : IsKeyed (λ (t : OAuthTokenRecord). t.token_hash) s.tokens
  pub identities : IsKeyed (λ (i : Identity). i.user_id) s.identities

-- A grant after the loop of `revokeUserAccess`.
abbrev pub revoked_in : List String → Instant → String → OAuthGrant → OAuthGrant
revoked_in ids now k g =
    if has ids k && is_none g.revoked_at then record g { revoked_at = some now } else g

pub get-revoke_keys :
    (ids : List String) (now : Instant) (m : Dict OAuthGrant) (k : String)
    → Dict.get (revoke_keys ids now m) k ≡ Option.map (revoked_in ids now k) (Dict.get m k)
unfolding revoke_keys Dict.get
get-revoke_keys ids now [] k = refl
get-revoke_keys ids now ((j, g) ∷ m) k = ground (arith, get-revoke_keys ids now m k, eq_iff j k)

token_hash_lem :
    (b : Bool) (now : Instant) (t : OAuthTokenRecord)
    → (if b then revoke_once now t else t).token_hash ≡ t.token_hash
token_hash_lem b now t = ground arith

revoke_keys-IsKeyed :
    (ids : List String) (now : Instant) (m : Dict OAuthGrant)
    → IsKeyed (λ (g : OAuthGrant). g.id) m
    → IsKeyed (λ (g : OAuthGrant). g.id) (revoke_keys ids now m)
revoke_keys-IsKeyed ids now m h k w found = elim (Option-cases (Dict.get m k)) [
  | inl absent ↦ absurd (ground (arith, get-revoke_keys ids now m k))
  | inr (g, at) ↦ ground (arith, get-revoke_keys ids now m k, h k g)
]

abbrev hash_of : OAuthTokenRecord → String
hash_of t = t.token_hash

grant_revoked-AreKeyed :
    (user_id grant_id : String) (now : Instant) (s : OAuthStore)
    → AreKeyed s
    → AreKeyed (revoke_grant_for_user user_id grant_id now s).1
unfolding revoke_grant_for_user
grant_revoked-AreKeyed user_id grant_id now s h = elim (Option-cases (Dict.get s.grants grant_id)) [
  | inl absent ↦ rw (absent, revoke_grant_for_user) h
  | inr (g, found) ↦
      rw (found, revoke_grant_for_user)
        (elim (Bool-cases (not (g.user_id == user_id) || not (is_none g.revoked_at))) [
          | inl refused ↦ rw refused h
          | inr allowed ↦ rw allowed (record {
            clients = h.clients;
            grants =
                set-IsKeyed (λ g. g.id) s.grants grant_id (record g { revoked_at = some now })
                  h.grants (h.grants grant_id g found);
            tokens =
                update_all-IsKeyed hash_of
                  (λ t. if t.grant_id == grant_id then revoke_once now t else t) s.tokens
                  (λ t. token_hash_lem (t.grant_id == grant_id) now t) h.tokens;
            identities = h.identities;
          })
        ])
]

-- Only the tokens change.
tokens-AreKeyed :
    (s : OAuthStore) (m : Dict OAuthTokenRecord)
    → AreKeyed s
    → IsKeyed hash_of m
    → AreKeyed (record s { tokens = m })
tokens-AreKeyed s m h k = record {
  clients = h.clients;
  grants = h.grants;
  tokens = k;
  identities = h.identities;
}

consumed-AreKeyed :
    (i : CodeInput) (s : OAuthStore) → AreKeyed s → AreKeyed (consume_authorization_code i s).1
unfolding consume_authorization_code
consumed-AreKeyed i s h = elim (Option-cases (Dict.get s.tokens i.token_hash)) [
  | inl absent ↦ rw (absent, consume_authorization_code) h
  | inr (t, found) ↦
      rw (found, consume_authorization_code)
        (elim (Option-cases (Dict.get s.grants t.grant_id)) [
          | inl absent ↦ rw absent h
          | inr (g, at) ↦ rw at (elim (Bool-cases (is_consumable i t g)) [
            | inl passed ↦ rw passed (
                tokens-AreKeyed s _ h (
                  set-IsKeyed hash_of s.tokens i.token_hash (record t { used_at = some i.used_at })
                    h.tokens (h.tokens i.token_hash t found)))
            | inr refused ↦ rw refused h
          ])
        ])
]

rotation-AreKeyed :
    (i : Rotation) (s : OAuthStore) → AreKeyed s → AreKeyed (rotate_refresh_token i s).1
unfolding rotate_refresh_token
rotation-AreKeyed i s h = elim (Option-cases (Dict.get s.tokens i.token_hash)) [
  | inl absent ↦ rw (absent, rotate_refresh_token) h
  | inr (t, found) ↦
      rw (found, rotate_refresh_token)
        (elim (Bool-cases (not (is_refresh t.kind) || not (is_none t.revoked_at))) [
          | inl bad ↦ rw bad h
          | inr good ↦ rw good (elim (Bool-cases (not (is_none t.used_at))) [
            | inl old ↦ rw old h
            | inr new ↦ rw new (
                tokens-AreKeyed s _ h (
                  set-IsKeyed hash_of _ i.refresh.token_hash i.refresh
                    (set-IsKeyed hash_of _ i.access.token_hash i.access
                      (set-IsKeyed hash_of s.tokens i.token_hash
                        (record t { used_at = some i.used_at }) h.tokens
                        (h.tokens i.token_hash t found))
                      refl)
                    refl))
          ])
        ])
]

token_revoked-AreKeyed :
    (hash : String) (now : Instant) (s : OAuthStore)
    → AreKeyed s
    → AreKeyed (revoke_token hash now s)
unfolding revoke_token
token_revoked-AreKeyed hash now s h = elim (Option-cases (Dict.get s.tokens hash)) [
  | inl absent ↦ rw (absent, revoke_token) h
  | inr (t, found) ↦
      rw (found, revoke_token)
        (tokens-AreKeyed s _ h (
          set-IsKeyed hash_of s.tokens hash (record t { revoked_at = some now }) h.tokens
            (h.tokens hash t found)))
]

-- The maps stay keyed, whatever calls the store is given.
pub Step-AreKeyed : {s t : OAuthStore} → Step s t → AreKeyed s → AreKeyed t
unfolding add_identity register_client save_grant save_token revoke_user_access revoke_family
Step-AreKeyed (identified i s) h = record {
  clients = h.clients;
  grants = h.grants;
  tokens = h.tokens;
  identities = set-IsKeyed (λ i. i.user_id) s.identities i.user_id i h.identities refl;
}
Step-AreKeyed (registered c s) h = record {
  clients = set-IsKeyed (λ c. c.client_id) s.clients c.client_id c h.clients refl;
  grants = h.grants;
  tokens = h.tokens;
  identities = h.identities;
}
Step-AreKeyed (granted g s) h = record {
  clients = h.clients;
  grants = set-IsKeyed (λ g. g.id) s.grants g.id g h.grants refl;
  tokens = h.tokens;
  identities = h.identities;
}
Step-AreKeyed (saved t s new) h = record {
  clients = h.clients;
  grants = h.grants;
  tokens = set-IsKeyed hash_of s.tokens t.token_hash t h.tokens refl;
  identities = h.identities;
}
Step-AreKeyed (grant_revoked u g now s) h = grant_revoked-AreKeyed u g now s h
Step-AreKeyed (access_revoked u now s) h = record {
  clients = h.clients;
  grants = revoke_keys-IsKeyed (grant_ids u s) now s.grants h.grants;
  tokens =
      update_all-IsKeyed hash_of
        (λ t. if has (grant_ids u s) t.grant_id then revoke_once now t else t) s.tokens
        (λ t. token_hash_lem (has (grant_ids u s) t.grant_id) now t) h.tokens;
  identities = h.identities;
}
Step-AreKeyed (consumed i s) h = consumed-AreKeyed i s h
Step-AreKeyed (rotation i s fa fr) h = rotation-AreKeyed i s h
Step-AreKeyed (token_revoked k now s) h = token_revoked-AreKeyed k now s h
Step-AreKeyed (family_revoked f now s) h = record {
  clients = h.clients;
  grants = h.grants;
  tokens =
      update_all-IsKeyed hash_of
        (λ t. if is_text t.family_id f then record t { revoked_at = some now } else t) s.tokens
        (λ t. ground arith) h.tokens;
  identities = h.identities;
}

-- Each map of the store keys its values by their own identifier or hash, however many calls of the
-- store came before, if it did so at first.
pub Reach-AreKeyed : {s t : OAuthStore} → Reach s t → AreKeyed s → AreKeyed t
Reach-AreKeyed here h = h
Reach-AreKeyed (next r st) h = Step-AreKeyed st (Reach-AreKeyed r h)

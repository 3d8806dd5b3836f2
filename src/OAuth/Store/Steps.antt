-- ===== src/OAuth/Store/Steps.antt =====
-- The calls that other requests make on the store, in any order and number: what any interleaving
-- of requests does to the tokens. A token is saved under the hash of a new random text, so a saved
-- hash is one that the store does not hold.
use fullwell.Prelude.{
  String, is_text, ◌≡◌, Option, Bool, true, false, not, ◌&&◌, none, some, is_none, arith, ◌==◌,
  eq_iff, Option-cases, inl, inr, if◌then◌else◌, ◌≢◌,
}
use mathlib.Core.Option
use fullwell.Dict
use fullwell.Dict.{Dict}
use fullwell.Dict.Laws.{get-set, get-update_all}
use fullwell.OAuth.Types.{Instant, OAuthClient, OAuthGrant, OAuthTokenRecord, Identity}
use fullwell.OAuth.Store.{
  OAuthStore, add_identity, register_client, save_grant, save_token, revoke_grant_for_user,
  revoke_user_access, CodeInput, consume_authorization_code, Rotation, rotate_refresh_token,
  revoke_token, revoke_family, revoke_once, has, grant_ids,
}

-- No token is stored under the hash.
abbrev pub IsNewHash : String → OAuthStore → Type 0
IsNewHash hash s = Dict.get s.tokens hash ≡ none

pub data Step : OAuthStore → OAuthStore → Type 0 where
  identified : (i : Identity) (s : OAuthStore) → Step s (add_identity i s)
  registered : (c : OAuthClient) (s : OAuthStore) → Step s (register_client c s)
  granted : (g : OAuthGrant) (s : OAuthStore) → Step s (save_grant g s)
  saved :
      (t : OAuthTokenRecord) (s : OAuthStore) → IsNewHash t.token_hash s → Step s (save_token t s)
  grant_revoked :
      (user_id grant_id : String) (now : Instant) (s : OAuthStore)
      → Step s (revoke_grant_for_user user_id grant_id now s).1
  access_revoked :
      (user_id : String) (now : Instant) (s : OAuthStore)
      → Step s (revoke_user_access user_id now s)
  consumed : (i : CodeInput) (s : OAuthStore) → Step s (consume_authorization_code i s).1
  rotation :
      (i : Rotation) (s : OAuthStore)
      → IsNewHash i.access.token_hash s
      → IsNewHash i.refresh.token_hash s
      → Step s (rotate_refresh_token i s).1
  token_revoked :
      (hash : String) (now : Instant) (s : OAuthStore) → Step s (revoke_token hash now s)
  family_revoked :
      (family_id : String) (now : Instant) (s : OAuthStore) → Step s (revoke_family family_id now s)

pub data Reach (s : OAuthStore) : OAuthStore → Type 0 where
  here : Reach s s
  next : {t u : OAuthStore} → Reach s t → Step t u → Reach s u

-- The token has been used or revoked.
abbrev pub is_dead : OAuthTokenRecord → Bool
is_dead t = not (is_none t.used_at && is_none t.revoked_at)

abbrev pub holds_dead : Option OAuthTokenRecord → Bool
holds_dead none = false
holds_dead (some t) = is_dead t

-- The token under the hash has been used or revoked.
abbrev pub is_spent : String → OAuthStore → Bool
is_spent hash s = holds_dead (Dict.get s.tokens hash)

-- A change of all tokens that revives none.
update_all-spent :
    (f : OAuthTokenRecord → OAuthTokenRecord) (hash : String) (m : Dict OAuthTokenRecord)
    → ((t : OAuthTokenRecord) → is_dead t ≡ true → is_dead (f t) ≡ true)
    → holds_dead (Dict.get m hash) ≡ true
    → holds_dead (Dict.get (Dict.update_all f m) hash) ≡ true
update_all-spent f hash m keep h = rw (get-update_all f m hash) (kept (Dict.get m hash) h)
  where
    kept : (o : Option OAuthTokenRecord) → holds_dead o ≡ true → holds_dead (Option.map f o) ≡ true
    kept none e = e
    kept (some t) e = keep t e

pub save_token_ne-is_spent :
    (t : OAuthTokenRecord) (s : OAuthStore) (hash : String)
    → t.token_hash ≢ hash
    → is_spent hash s ≡ true
    → is_spent hash (save_token t s) ≡ true
unfolding save_token
save_token_ne-is_spent t s hash ne spent =
    ground (arith, get-set s.tokens t.token_hash hash t, eq_iff t.token_hash hash)

saved-is_spent :
    (hash : String) (t : OAuthTokenRecord) (s : OAuthStore)
    → IsNewHash t.token_hash s
    → is_spent hash s ≡ true
    → is_spent hash (save_token t s) ≡ true
unfolding save_token
saved-is_spent hash t s new h =
    ground (arith, get-set s.tokens t.token_hash hash t, eq_iff t.token_hash hash)

revoke_once-is_dead :
    (b : Bool) (now : Instant) (t : OAuthTokenRecord)
    → is_dead t ≡ true
    → is_dead (if b then revoke_once now t else t) ≡ true
revoke_once-is_dead b now t h = ground arith

grant_revoked-is_spent :
    (hash user_id grant_id : String) (now : Instant) (s : OAuthStore)
    → is_spent hash s ≡ true
    → is_spent hash (revoke_grant_for_user user_id grant_id now s).1 ≡ true
unfolding revoke_grant_for_user
grant_revoked-is_spent hash user_id grant_id now s h = ground (
  arith,
  update_all-spent (λ t. if t.grant_id == grant_id then revoke_once now t else t) hash s.tokens
      (λ t. revoke_once-is_dead (t.grant_id == grant_id) now t) h,
)

access_revoked-is_spent :
    (hash user_id : String) (now : Instant) (s : OAuthStore)
    → is_spent hash s ≡ true
    → is_spent hash (revoke_user_access user_id now s) ≡ true
unfolding revoke_user_access
access_revoked-is_spent hash user_id now s h =
    update_all-spent (λ t. if has (grant_ids user_id s) t.grant_id then revoke_once now t else t)
      hash s.tokens (λ t. revoke_once-is_dead (has (grant_ids user_id s) t.grant_id) now t) h

consumed-is_spent :
    (hash : String) (i : CodeInput) (s : OAuthStore)
    → is_spent hash s ≡ true
    → is_spent hash (consume_authorization_code i s).1 ≡ true
unfolding consume_authorization_code
consumed-is_spent hash i s h = elim (Option-cases (Dict.get s.tokens i.token_hash)) [
  | inl absent ↦ rw (absent, consume_authorization_code) h
  | inr (t, found) ↦ ground (
    arith,
    eq_iff i.token_hash hash,
    get-set s.tokens i.token_hash hash (record t { used_at = some i.used_at }),
  )
]

rotation-is_spent :
    (hash : String) (i : Rotation) (s : OAuthStore)
    → IsNewHash i.access.token_hash s
    → IsNewHash i.refresh.token_hash s
    → is_spent hash s ≡ true
    → is_spent hash (rotate_refresh_token i s).1 ≡ true
unfolding rotate_refresh_token
rotation-is_spent hash i s fa fr h = elim (Option-cases (Dict.get s.tokens i.token_hash)) [
  | inl absent ↦ rw (absent, rotate_refresh_token) h
  | inr (t, found) ↦
      let used : OAuthTokenRecord = record t { used_at = some i.used_at } in
      let m1 : Dict OAuthTokenRecord = Dict.set s.tokens i.token_hash used in
      let m2 : Dict OAuthTokenRecord = Dict.set m1 i.access.token_hash i.access in
      ground (
        arith,
        eq_iff i.token_hash hash,
        eq_iff i.access.token_hash hash,
        eq_iff i.refresh.token_hash hash,
        get-set s.tokens i.token_hash hash used,
        get-set m1 i.access.token_hash hash i.access,
        get-set m2 i.refresh.token_hash hash i.refresh,
      )
]

token_revoked-is_spent :
    (hash h : String) (now : Instant) (s : OAuthStore)
    → is_spent hash s ≡ true
    → is_spent hash (revoke_token h now s) ≡ true
unfolding revoke_token
token_revoked-is_spent hash h now s spent = elim (Option-cases (Dict.get s.tokens h)) [
  | inl absent ↦ rw (absent, revoke_token) spent
  | inr (t, found) ↦
      ground (arith, eq_iff h hash, get-set s.tokens h hash (record t { revoked_at = some now }))
]

family_revoked-is_spent :
    (hash f : String) (now : Instant) (s : OAuthStore)
    → is_spent hash s ≡ true
    → is_spent hash (revoke_family f now s) ≡ true
unfolding revoke_family
family_revoked-is_spent hash f now s spent =
    update_all-spent (λ t. if is_text t.family_id f then record t { revoked_at = some now } else t)
      hash s.tokens (λ t h. revoked (is_text t.family_id f) t h) spent
  where
    revoked :
        (b : Bool) (t : OAuthTokenRecord)
        → is_dead t ≡ true
        → is_dead (if b then record t { revoked_at = some now } else t) ≡ true
    revoked b t h = ground arith

Step-is_spent :
    {s t : OAuthStore} (hash : String) → Step s t → is_spent hash s ≡ true → is_spent hash t ≡ true
unfolding add_identity register_client save_grant
Step-is_spent hash (identified i s) h = h
Step-is_spent hash (registered c s) h = h
Step-is_spent hash (granted g s) h = h
Step-is_spent hash (saved t s new) h = saved-is_spent hash t s new h
Step-is_spent hash (grant_revoked u g now s) h = grant_revoked-is_spent hash u g now s h
Step-is_spent hash (access_revoked u now s) h = access_revoked-is_spent hash u now s h
Step-is_spent hash (consumed i s) h = consumed-is_spent hash i s h
Step-is_spent hash (rotation i s fa fr) h = rotation-is_spent hash i s fa fr h
Step-is_spent hash (token_revoked k now s) h = token_revoked-is_spent hash k now s h
Step-is_spent hash (family_revoked f now s) h = family_revoked-is_spent hash f now s h

-- A token that has been used or revoked stays so, whatever calls follow.
pub Reach-is_spent :
    {s t : OAuthStore} (hash : String) → Reach s t → is_spent hash s ≡ true → is_spent hash t ≡ true
Reach-is_spent hash here h = h
Reach-is_spent hash (next r st) h = Step-is_spent hash st (Reach-is_spent hash r h)

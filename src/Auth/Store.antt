-- ===== src/Auth/Store.antt =====
-- auth/memory-store.ts: `MemoryAuthStore`. The key `provider:subjectHash` of an identity is kept as
-- the pair of its parts, which it determines, since no provider's name has a colon.
use fullwell.Prelude.{
  ℕ, ◌+◌, String, Bool, true, false, not, ◌&&◌, ◌||◌, Option, none, some, List, [], ◌∷◌, map, ◌==◌,
  if◌then◌else◌, is_none, same_text, leb, nat_eq, filter, any, length, sort_by,
}
use fullwell.Prelude.Exec.{ok, err, Exec}
use fullwell.Dict
use fullwell.Dict.{Dict, values}
use fullwell.Auth.Types.{
  Instant, AuthChallengeKind, AuthUser, AuthChallenge, WebSession, ExternalIdentityProvider,
  MethodRemovalResult, removed, not_found, last_method, IdentityLinkResult, linked, already_linked,
  identity_in_use, user_not_found, PasskeyCredential, is_opaque_id,
}

-- An entry of the map `identities`.
pub record Identity : Type 0 where
  pub provider : ExternalIdentityProvider
  pub subject_hash : String
  pub user : AuthUser

pub record AuthStore : Type 0 where
  pub challenges : Dict AuthChallenge
  pub identities : List Identity
  pub users : Dict AuthUser
  pub passkeys : Dict PasskeyCredential
  pub sessions : Dict WebSession

-- The error of a schema.
pub data AuthStoreError : Type 0 where
  malformed_id : AuthStoreError

abbrev pub same_kind : AuthChallengeKind → AuthChallengeKind → Bool
same_kind AuthChallengeKind.magic_link AuthChallengeKind.magic_link = true
same_kind AuthChallengeKind.apple AuthChallengeKind.apple = true
same_kind AuthChallengeKind.webauthn_registration AuthChallengeKind.webauthn_registration = true
same_kind AuthChallengeKind.webauthn_authentication AuthChallengeKind.webauthn_authentication = true
same_kind _ _ = false

abbrev pub same_provider : ExternalIdentityProvider → ExternalIdentityProvider → Bool
same_provider ExternalIdentityProvider.apple ExternalIdentityProvider.apple = true
same_provider ExternalIdentityProvider.magic_link ExternalIdentityProvider.magic_link = true
same_provider ExternalIdentityProvider.reviewer ExternalIdentityProvider.reviewer = true
same_provider _ _ = false

unfoldable pub save_challenge : AuthChallenge → AuthStore → AuthStore
save_challenge c s = record s { challenges = Dict.set s.challenges c.token_hash c }

unfoldable pub consume_challenge :
    String
    → AuthChallengeKind
    → Option String
    → Instant
    → AuthStore
    → Option AuthChallenge × AuthStore
consume_challenge hash kind binding now s = elim (Dict.get s.challenges hash) [
  | none ↦ (none, s)
  | some c ↦
      if not (same_kind c.kind kind)
        || not (is_none c.consumed_at)
        || not (same_text c.browser_binding_hash binding)
      then (none, s)
      else (
        some c,
        record s { challenges = Dict.set s.challenges hash (record c { consumed_at = some now }) },
      )
]

abbrev pub is_identity : ExternalIdentityProvider → String → Identity → Bool
is_identity provider hash i = same_provider i.provider provider && i.subject_hash == hash

abbrev pub is_of_user : String → Identity → Bool
is_of_user user_id i = i.user.id == user_id

-- identities.get(key)
unfoldable pub find_identity : ExternalIdentityProvider → String → List Identity → Option AuthUser
find_identity provider hash [] = none
find_identity provider hash (i ∷ is) =
    if is_identity provider hash i then some i.user else find_identity provider hash is

-- identities.set(key, user), where the key is not there
abbrev pub add_identity :
    ExternalIdentityProvider → String → AuthUser → List Identity → List Identity
add_identity provider hash user [] =
    (record { provider = provider; subject_hash = hash; user = user }) ∷ []
add_identity provider hash user (i ∷ is) = i ∷ add_identity provider hash user is

pub record Candidate : Type 0 where
  pub provider : ExternalIdentityProvider
  pub subject_hash : String
  pub display_name : String
  pub user_id : String
  pub actor_id : String

unfoldable pub resolve_or_create_user : Candidate → Exec AuthStoreError AuthStore AuthUser
unfolding find_identity
resolve_or_create_user i s = elim (find_identity i.provider i.subject_hash s.identities) [
  | some user ↦ (ok user, s)
  | none ↦
      if is_opaque_id "usr_" i.user_id && is_opaque_id "act_" i.actor_id
      then (let user : AuthUser = record {
        id = i.user_id;
        actor_id = i.actor_id;
        display_name = i.display_name;
      } in
          (
            ok user,
            record s {
              users = Dict.set s.users user.id user;
              identities = add_identity i.provider i.subject_hash user s.identities;
            },
          ))
      else (err malformed_id, s)
]

unfoldable pub get_user_by_id : String → AuthStore → Option AuthUser
get_user_by_id user_id s = Dict.get s.users user_id

-- The loop of `updateUserDisplayName` over the identities.
unfoldable pub update_identities : String → AuthUser → List Identity → List Identity
update_identities user_id user [] = []
update_identities user_id user (i ∷ is) =
    (if is_of_user user_id i then record i { user = user } else i)
    ∷ update_identities user_id user is

unfoldable pub update_user_display_name : String → String → AuthStore → Option AuthUser × AuthStore
unfolding update_identities
update_user_display_name user_id name s = elim (Dict.get s.users user_id) [
  | none ↦ (none, s)
  | some user ↦
      (let updated : AuthUser = record user { display_name = name } in
        (
          some updated,
          record s {
            users = Dict.set s.users user_id updated;
            identities = update_identities user_id updated s.identities;
          },
        ))
]

unfoldable pub link_identity_method :
    String → ExternalIdentityProvider → String → AuthStore → IdentityLinkResult × AuthStore
unfolding find_identity
link_identity_method user_id provider hash s = elim (Dict.get s.users user_id) [
  | none ↦ (user_not_found, s)
  | some user ↦ elim (find_identity provider hash s.identities) [
    | some existing ↦ if existing.id == user_id then (already_linked, s) else (identity_in_use, s)
    | none ↦ (linked, record s { identities = add_identity provider hash user s.identities })
  ]
]

-- new Set(providers)
unfoldable pub unique : List ExternalIdentityProvider → List ExternalIdentityProvider
unique [] = []
unique (p ∷ ps) = let rest = unique ps in if any (same_provider p) rest then rest else p ∷ rest

unfoldable pub sign_in_method_count : String → AuthStore → ℕ
unfolding unique
sign_in_method_count user_id s =
    length (unique (map (λ i. i.provider) (filter (is_of_user user_id) s.identities)))
    + length (filter (λ c. c.user_id == user_id) (values s.passkeys))

-- An identity of the user by the provider.
abbrev pub is_method : String → ExternalIdentityProvider → Identity → Bool
is_method user_id provider i = same_provider i.provider provider && is_of_user user_id i

unfoldable pub remove_identity_method :
    String → ExternalIdentityProvider → AuthStore → MethodRemovalResult × AuthStore
unfolding sign_in_method_count
remove_identity_method user_id provider s =
    if not (any (is_method user_id provider) s.identities)
    then (not_found, s)
    else if leb (sign_in_method_count user_id s) 1
    then (last_method, s)
    else (
      removed,
      record s { identities = filter (λ i. not (is_method user_id provider i)) s.identities },
    )

unfoldable pub revoke_session_of : String → Instant → WebSession → WebSession
revoke_session_of user_id now session =
    if session.user_id == user_id then record session { revoked_at = some now } else session

unfoldable pub delete_user : String → Instant → AuthStore → Bool × AuthStore
unfolding revoke_session_of
delete_user user_id now s = elim (Dict.get s.users user_id) [
  | none ↦ (false, s)
  | some user ↦ (
    true,
    record s {
      users = Dict.delete s.users user_id;
      identities = filter (λ i. not (is_of_user user_id i)) s.identities;
      passkeys = Dict.delete_where (λ c. c.user_id == user_id) s.passkeys;
      sessions = Dict.update_all (revoke_session_of user_id now) s.sessions;
    },
  )
]

unfoldable pub save_passkey_credential : PasskeyCredential → AuthStore → Bool × AuthStore
save_passkey_credential c s =
    if not (is_none (Dict.get s.passkeys c.credential_id)) || is_none (Dict.get s.users c.user_id)
    then (false, s)
    else (true, record s { passkeys = Dict.set s.passkeys c.credential_id c })

unfoldable pub get_passkey_credential : String → AuthStore → Option PasskeyCredential
get_passkey_credential id s = Dict.get s.passkeys id

unfoldable pub list_passkey_credentials : String → AuthStore → List PasskeyCredential
list_passkey_credentials user_id s =
    sort_by (λ c. c.created_at) (filter (λ c. c.user_id == user_id) (values s.passkeys))

-- `newCounter === 0 ? counter !== 0 : newCounter <= counter`
abbrev pub is_replayed : ℕ → ℕ → Bool
is_replayed counter new_counter =
    if nat_eq new_counter 0 then not (nat_eq counter 0) else leb new_counter counter

unfoldable pub update_passkey_counter : String → ℕ → ℕ → Instant → AuthStore → Bool × AuthStore
update_passkey_counter id expected new_counter now s = elim (Dict.get s.passkeys id) [
  | none ↦ (false, s)
  | some c ↦
      if not (nat_eq c.counter expected) || is_replayed c.counter new_counter then (false, s) else (
        true,
        record s {
          passkeys =
              Dict.set s.passkeys id (record c { counter = new_counter; last_used_at = some now });
        },
      )
]

unfoldable pub revoke_passkey_credential :
    String → String → AuthStore → MethodRemovalResult × AuthStore
unfolding sign_in_method_count
revoke_passkey_credential id user_id s = elim (Dict.get s.passkeys id) [
  | none ↦ (not_found, s)
  | some c ↦
      if not (c.user_id == user_id)
      then (not_found, s)
      else if leb (sign_in_method_count user_id s) 1
      then (last_method, s)
      else (removed, record s { passkeys = Dict.delete s.passkeys id })
]

unfoldable pub save_session : WebSession → AuthStore → AuthStore
save_session session s = record s { sessions = Dict.set s.sessions session.token_hash session }

unfoldable pub get_session_by_token_hash : String → AuthStore → Option (WebSession × AuthUser)
get_session_by_token_hash hash s = elim (Dict.get s.sessions hash) [
  | none ↦ none
  | some session ↦ elim (Dict.get s.users session.user_id) [
    | none ↦ none
    | some user ↦ some (session, user)
  ]
]

unfoldable pub revoke_session : String → Instant → AuthStore → AuthStore
revoke_session hash now s = elim (Dict.get s.sessions hash) [
  | none ↦ s
  | some session ↦ record s {
    sessions = Dict.set s.sessions hash (record session { revoked_at = some now });
  }
]

unfoldable pub revoke_user_sessions : String → Instant → AuthStore → AuthStore
unfolding revoke_session_of
revoke_user_sessions user_id now s = record s {
  sessions = Dict.update_all (revoke_session_of user_id now) s.sessions;
}

-- ===== src/Auth/Tests.antt =====
-- Runs of the sign-in store on a small state, and the theorems at concrete inputs.
use fullwell.Prelude.{◌≤◌, ◌≡◌, refl, true, false, none, some, [], ◌∷◌, arith, filter, any}
use fullwell.Prelude.Exec.{ok}
use fullwell.Prelude.Text.{has_length, utf16_length, every_char}
use fullwell.Dict
use fullwell.Auth.Types.{
  AuthUser, AuthChallenge, AuthChallengeKind, ExternalIdentityProvider, PasskeyCredential,
  single_device, WebSession, is_opaque_id,
}
use fullwell.Auth.Store
use fullwell.Auth.Store.{AuthStore, Candidate}
use fullwell.Auth.Methods.{remove_identity_method_lem}
use fullwell.Auth.Accounts.{
  resolve_or_create_user_once, consume_challenge_once, update_passkey_counter_once, IsDeleted,
  delete_user_lem,
}

abbrev user : AuthUser
user = record {
  id = "usr_0123456789abcdef";
  actor_id = "act_0123456789abcdef";
  display_name = "Ada";
}

abbrev passkey : PasskeyCredential
passkey = record {
  credential_id = "key_1";
  user_id = "usr_0123456789abcdef";
  public_key = 1 ∷ 2 ∷ [];
  counter = 4;
  transports = [];
  device_type = single_device;
  backed_up = true;
  name = "Phone";
  created_at = 1;
  last_used_at = none;
}

abbrev challenge : AuthChallenge
challenge = record {
  id = "chl_1";
  kind = AuthChallengeKind.apple;
  token_hash = "#challenge";
  browser_binding_hash = some "#browser";
  payload = [];
  expires_at = 100;
  consumed_at = none;
}

abbrev session : WebSession
session = record {
  id = "ses_1";
  user_id = "usr_0123456789abcdef";
  token_hash = "#session";
  csrf_hash = "#csrf";
  pending_intent = none;
  authenticated_at = 5;
  expires_at = 1000;
  revoked_at = none;
}

abbrev store : AuthStore
store = record {
  challenges = ("#challenge", challenge) ∷ [];
  identities =
      (record { provider = ExternalIdentityProvider.apple; subject_hash = "#apple"; user = user })
      ∷ [];
  users = ("usr_0123456789abcdef", user) ∷ [];
  passkeys = ("key_1", passkey) ∷ [];
  sessions = ("#session", session) ∷ [];
}

-- What a run of the store opens.
running : Unit {0}
unfolding Store.consume_challenge Store.find_identity Store.resolve_or_create_user
    Store.link_identity_method Store.unique Store.sign_in_method_count Store.remove_identity_method
    Store.delete_user Store.update_passkey_counter Store.revoke_passkey_credential is_opaque_id
    has_length utf16_length every_char Dict.get Dict.set Dict.delete filter any
running = tt

remove_identity_method_lem_example :
    1
    ≤ Store.sign_in_method_count "usr_0123456789abcdef"
        (Store.remove_identity_method "usr_0123456789abcdef" ExternalIdentityProvider.apple store).1
unfolding running
remove_identity_method_lem_example =
    remove_identity_method_lem "usr_0123456789abcdef" ExternalIdentityProvider.apple store refl

abbrev newcomer : Candidate
newcomer = record {
  provider = ExternalIdentityProvider.magic_link;
  subject_hash = "#mail";
  display_name = "Bob";
  user_id = "usr_fedcba9876543210";
  actor_id = "act_fedcba9876543210";
}

abbrev bob : AuthUser
bob = record {
  id = "usr_fedcba9876543210";
  actor_id = "act_fedcba9876543210";
  display_name = "Bob";
}

resolve_or_create_user_once_example :
    Store.resolve_or_create_user
      (record newcomer { user_id = "usr_x"; display_name = "Robert" })
      (Store.resolve_or_create_user newcomer store).1
    ≡ (ok bob, (Store.resolve_or_create_user newcomer store).1)
unfolding running
resolve_or_create_user_once_example =
    resolve_or_create_user_once newcomer store bob refl
      (record newcomer { user_id = "usr_x"; display_name = "Robert" }) refl refl

abbrev consumed : AuthStore
consumed =
    (Store.consume_challenge "#challenge" AuthChallengeKind.apple (some "#browser") 7 store).1

consume_challenge_once_example :
    Store.consume_challenge "#challenge" AuthChallengeKind.apple (some "#browser") 8 consumed
    ≡ (none, consumed)
unfolding running
consume_challenge_once_example =
    consume_challenge_once "#challenge" AuthChallengeKind.apple (some "#browser") 7 store challenge
      refl AuthChallengeKind.apple (some "#browser") 8

abbrev used : AuthStore
used = (Store.update_passkey_counter "key_1" 4 9 20 store).1

update_passkey_counter_once_example :
    Store.update_passkey_counter "key_1" 9 9 21 used ≡ (false, used)
unfolding running
update_passkey_counter_once_example =
    update_passkey_counter_once "key_1" 4 9 20 store refl (omega arith) 9 9 21 (omega arith)

delete_user_lem_example :
    IsDeleted "usr_0123456789abcdef" 30 store (Store.delete_user "usr_0123456789abcdef" 30 store).1
unfolding running
delete_user_lem_example = delete_user_lem "usr_0123456789abcdef" 30 store refl

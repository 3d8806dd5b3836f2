-- ===== src/OAuth/Tests.antt =====
-- Runs of the authorization server on a small platform, and the theorems at concrete inputs.

use fullwell.Prelude.{
  ℕ, zero, suc, String, ◌≡◌, ◌≢◌, refl, true, none, some, [], ◌∷◌, arith, filter, any, all, eq_iff,
  ◌==◌, if◌then◌else◌,
}
use fullwell.Prelude.Exec.{ok, err}
use fullwell.Prelude.Text.{has_length, utf16_length, every_char, split_space, join_space}
use fullwell.Dict
use fullwell.OAuth.Types.{
  AuthorizationRequest, journal_read, journal_write, OAuthGrant, OAuthTokenRecord,
  authorization_code, access, refresh, Identity, TokenResponse, protocol, invalid_grant,
}
use fullwell.OAuth.Store
use fullwell.OAuth.Store.{OAuthStore}
use fullwell.OAuth.Store.Steps.{here, next, access_revoked}
use fullwell.OAuth.Store.Keys.{AreKeyed, Reach-AreKeyed}
use fullwell.OAuth.Store.Revocation.{resolve-revoke_user_access, resolve-revoke_grant}
use fullwell.OAuth.Scopes.{
  parse_scopes, join_scopes, scope_name, scope_of, unique_from, all_scopes, includes_text,
  has_same_scopes, includes_scope,
}
use fullwell.OAuth.Scopes.RoundTrip.{parse_scopes-join_scopes}
use fullwell.OAuth.Platform.{Platform, Url}
use fullwell.OAuth.Uris
use fullwell.OAuth.Service
use fullwell.OAuth.Service.{Server, CodeExchange, RefreshExchange}
use fullwell.OAuth.Service.Codes.{exchange_once, exchange_authorization_code-IsRedeemed, IsRedeemed}
use fullwell.OAuth.Service.Approval.{exchange-approve}
use fullwell.OAuth.Service.Refresh.{exchange_refresh_token-reuse}
use fullwell.OAuth.Service.Rotation.{
  exchange_refresh_token-IsRefreshed, exchange_refresh_once, authenticate-exchange_refresh_token,
  IsRefreshed, rotation_of, pair_of,
}

abbrev label : ℕ → String → String
label zero s = s
label (suc n) s = String.◌∷◌ "i" (label n s)

-- The n-th random text has n letters "i" in front; the clock stands at n milliseconds.
abbrev platform : Platform
platform = record {
  now_at = λ n. n;
  token_at = λ n bytes. label n "token";
  opaque_id_at = λ n prefix. label n prefix;
  hash = λ s. String.◌∷◌ "#" s;
  sha256_base64url = λ s. String.◌∷◌ "$" s;
  parse_url = λ s. some (record {
    protocol = "https:";
    hostname = s;
    username = "";
    password = "";
    hash = "";
    rest = "";
  });
  href = λ url. url.hostname;
  with_param = λ url name value. if name == "code" then record url { rest = value } else url;
  is_url = λ s. true;
  trim = λ s. s;
}

abbrev home : String
home = "https://fullwell.example"

abbrev verifier : String
verifier = "0123456789012345678901234567890123456789012"

abbrev code_record : OAuthTokenRecord
code_record = record {
  id = "oauth_1";
  grant_id = "grant_1";
  kind = authorization_code;
  token_hash = "#code";
  family_id = none;
  parent_id = none;
  pkce_challenge = some "$0123456789012345678901234567890123456789012";
  redirect_uri = some "https://agent.example";
  audience = home;
  expires_at = 300000;
  used_at = none;
  revoked_at = none;
}

abbrev grant : OAuthGrant
grant = record {
  id = "grant_1";
  user_id = "usr_1";
  client_id = "client_1";
  scopes = journal_read ∷ journal_write ∷ [];
  resource = home;
  revoked_at = none;
}

abbrev user : Identity
user = record { user_id = "usr_1"; actor_id = "act_1"; display_name = "Ada" }

abbrev server : Server
server = record {
  store = record {
    clients = [];
    grants = ("grant_1", grant) ∷ [];
    tokens = ("#code", code_record) ∷ [];
    identities = ("usr_1", user) ∷ [];
  };
  reads = 0;
  draws = 0;
}

abbrev code_exchange : CodeExchange
code_exchange = record {
  code = "code";
  client_id = "client_1";
  redirect_uri = "https://agent.example";
  code_verifier = verifier;
  resource = none;
}

abbrev first_answer : TokenResponse
first_answer = record {
  access_token = "itoken";
  expires_in = 900;
  refresh_token = "iitoken";
  scope = "journal:read journal:write";
}

-- What a run of the service opens.
program : Unit {0}
unfolding Service.exchange_authorization_code Service.is_verifier Service.check_resource
    Service.read_clock Service.code_input Service.redeem Service.issue_token_pair
    Service.build_token_pair Service.draw_token Service.draw_id Service.is_inactive
    Service.exchange_refresh_token Service.refresh_found Service.refresh_active Service.refuse_token
    Service.check_scope Service.finish_rotation Service.authenticate
    Store.consume_authorization_code Store.is_consumable Store.save_token Store.rotate_refresh_token
    Store.get_token Store.get_grant Store.is_live Store.resolve_access_token
    Uris.normalize_redirect_uri Uris.is_bare Uris.is_secure has_length utf16_length every_char
    split_space join_space join_scopes scope_name parse_scopes scope_of unique_from all_scopes
    includes_text has_same_scopes includes_scope Dict.get Dict.set
program = tt

first_exchange :
    (Service.exchange_authorization_code platform home code_exchange server).0 ≡ ok first_answer
unfolding program
first_exchange = refl

abbrev after_first : Server
after_first = (Service.exchange_authorization_code platform home code_exchange server).1

exchange_authorization_code-IsRedeemed_example :
    IsRedeemed platform home code_exchange server first_answer
exchange_authorization_code-IsRedeemed_example =
    exchange_authorization_code-IsRedeemed platform home code_exchange server first_answer
      first_exchange

exchange_once_example :
    (Service.exchange_authorization_code platform home code_exchange after_first).0
    ≢ ok first_answer
unfolding Dict.get
exchange_once_example =
    exchange_once platform home code_exchange server first_answer
      (record { access = refl; refresh = refl }) first_exchange after_first here code_exchange
      first_answer refl

abbrev refresh_exchange : RefreshExchange
refresh_exchange = record {
  refresh_token = "iitoken";
  client_id = "client_1";
  scope = some "journal:write journal:read";
  resource = some home;
}

abbrev second_answer : TokenResponse
second_answer = record {
  access_token = "iiiiitoken";
  expires_in = 900;
  refresh_token = "iiiiiitoken";
  scope = "journal:read journal:write";
}

-- `program`, and what a check of a resource opens.
refreshing : Unit {0}
unfolding program Uris.validate_resource Uris.normalize_resource filter any all
refreshing = tt

second_exchange :
    (Service.exchange_refresh_token platform home refresh_exchange after_first).0 ≡ ok second_answer
unfolding refreshing
second_exchange = refl

abbrev after_second : Server
after_second = (Service.exchange_refresh_token platform home refresh_exchange after_first).1

exchange_refresh_token-IsRefreshed_example :
    IsRefreshed platform home refresh_exchange after_first second_answer
exchange_refresh_token-IsRefreshed_example =
    exchange_refresh_token-IsRefreshed platform home refresh_exchange after_first second_answer
      second_exchange

exchange_refresh_once_example :
    (Service.exchange_refresh_token platform home refresh_exchange after_second).0
    ≢ ok second_answer
unfolding refreshing
exchange_refresh_once_example =
    exchange_refresh_once platform home refresh_exchange after_first second_answer
      (record {
        access = λ e. ground (arith, eq_iff "#iiiiitoken" "#iitoken");
        refresh = λ e. ground (arith, eq_iff "#iiiiiitoken" "#iitoken");
      })
      second_exchange after_second here refresh_exchange second_answer refl

-- The record of the refresh token that was rotated.
abbrev used_refresh : OAuthTokenRecord
used_refresh = record {
  id = "iiiioauth";
  grant_id = "grant_1";
  kind = refresh;
  token_hash = "#iitoken";
  family_id = some "family";
  parent_id = none;
  pkce_challenge = none;
  redirect_uri = none;
  audience = home;
  expires_at = 2592000001;
  used_at = some 2;
  revoked_at = none;
}

exchange_refresh_token-reuse_example :
    ((Service.exchange_refresh_token platform home refresh_exchange after_second).0
      ≡ err (protocol invalid_grant 400))
    × ((hash : String) (u : OAuthTokenRecord) (later : ℕ)
        → Dict.get after_second.store.tokens hash ≡ some u
        → u.family_id ≡ some "family"
        → Store.resolve_access_token hash later
            (Service.exchange_refresh_token platform home refresh_exchange after_second).1.store
          ≡ none)
unfolding refreshing
exchange_refresh_token-reuse_example =
    exchange_refresh_token-reuse platform home refresh_exchange after_second used_refresh "family"
      refl refl refl (λ e. ground arith)

-- The first refresh token, before its use.
abbrev first_refresh : OAuthTokenRecord
first_refresh = record used_refresh { used_at = none }

authenticate-exchange_refresh_token_example :
    (Service.authenticate platform home "iiiiitoken" after_second).0
    ≡ ok (
        some (record {
          user_id = "usr_1";
          actor_id = "act_1";
          display_name = "Ada";
          client_id = "client_1";
          scopes = journal_read ∷ journal_write ∷ [];
        }))
unfolding refreshing rotation_of pair_of
authenticate-exchange_refresh_token_example =
    authenticate-exchange_refresh_token platform home refresh_exchange after_first second_answer
      (record {
        token = first_refresh;
        family = "family";
        grant = grant;
        at_hash = refl;
        member = refl;
        kind = refl;
        active = refl;
        at_grant = refl;
        client = refl;
        grant_unrevoked = refl;
        after = refl;
        answer = refl;
      })
      user refl refl (λ e. ground (arith, eq_iff "#iiiiiitoken" "#iiiiitoken")) after_second refl
      (omega arith)

parse_scopes-join_scopes_example :
    parse_scopes (join_scopes (journal_write ∷ journal_read ∷ []))
    ≡ ok (journal_write ∷ journal_read ∷ [])
parse_scopes-join_scopes_example =
    parse_scopes-join_scopes (journal_write ∷ journal_read ∷ [])
      (((λ e. ground arith), tt), (tt, tt))

abbrev consume_input : Store.CodeInput
consume_input = record {
  token_hash = "#code";
  client_id = "client_1";
  redirect_uri = "https://agent.example";
  pkce_challenge = "$0123456789012345678901234567890123456789012";
  used_at = 5;
}

abbrev rotation : Store.Rotation
rotation = record {
  token_hash = "#iitoken";
  used_at = 7;
  access = record first_refresh { token_hash = "#a"; kind = access };
  refresh = record first_refresh { token_hash = "#r" };
}

server_keyed : AreKeyed server.store
unfolding Dict.get
server_keyed = record {
  clients = λ k v e. ground arith;
  grants = λ k v e. ground (arith, eq_iff "grant_1" k);
  tokens = λ k v e. ground (arith, eq_iff "#code" k);
  identities = λ k v e. ground (arith, eq_iff "usr_1" k);
}

Reach-AreKeyed_example : AreKeyed (Store.revoke_user_access "usr_1" 6 server.store)
Reach-AreKeyed_example =
    Reach-AreKeyed (next here (access_revoked "usr_1" 6 server.store)) server_keyed

-- Two users, each with a grant and an access token.
abbrev shared : OAuthStore
shared = record {
  clients = [];
  grants =
      ("grant_1", grant) ∷ ("grant_2", record grant { id = "grant_2"; user_id = "usr_2" }) ∷ [];
  tokens =
      ("#one", record first_refresh { token_hash = "#one"; kind = access })
      ∷ ("#two", record first_refresh { token_hash = "#two"; kind = access; grant_id = "grant_2" })
      ∷ [];
  identities = ("usr_1", user) ∷ ("usr_2", record user { user_id = "usr_2" }) ∷ [];
}

shared_keyed : AreKeyed shared
unfolding Dict.get
shared_keyed = record {
  clients = λ k v e. ground arith;
  grants = λ k v e. ground (arith, eq_iff "grant_1" k, eq_iff "grant_2" k);
  tokens = λ k v e. ground (arith, eq_iff "#one" k, eq_iff "#two" k);
  identities = λ k v e. ground (arith, eq_iff "usr_1" k, eq_iff "usr_2" k);
}

resolve-revoke_user_access_example : ◌≢◌ {A = String} "usr_2" "usr_1"
unfolding refreshing Store.revoke_user_access Store.grant_ids Store.has Store.revoke_keys
    Dict.update_all
resolve-revoke_user_access_example =
    resolve-revoke_user_access "usr_1" 8 9 shared "#two"
      (record {
        user_id = "usr_2";
        actor_id = "act_1";
        display_name = "Ada";
        client_id = "client_1";
        scopes = journal_read ∷ journal_write ∷ [];
      })
      shared_keyed refl

resolve-revoke_grant_example :
    Store.resolve_access_token "#one" 9 (Store.revoke_grant_for_user "usr_1" "grant_1" 8 shared).1
    ≡ none
unfolding refreshing Store.revoke_grant_for_user
resolve-revoke_grant_example =
    resolve-revoke_grant "usr_1" "grant_1" 8 9 shared "#one"
      (record first_refresh { token_hash = "#one"; kind = access }) refl refl refl

abbrev approval : AuthorizationRequest
approval = record {
  client_id = "client_1";
  client_name = "Agent";
  redirect_uri = "https://agent.example";
  state = "0123456789abcdef";
  code_challenge = "$0123456789012345678901234567890123456789012";
  scopes = journal_read ∷ journal_write ∷ [];
  resource = home;
}

abbrev after_approval : Server
after_approval = (Service.approve platform home approval "usr_1" server).1

-- Where the approval sends the browser.
abbrev approval_url : Url
approval_url = record {
  protocol = "https:";
  hostname = "https://agent.example";
  username = "";
  password = "";
  hash = "";
  rest = "itoken";
}

exchange-approve_example :
    (r : TokenResponse) × ((Service.exchange_authorization_code platform home
        (record code_exchange { code = "itoken" })
        after_approval).0
      ≡ ok r)
    × (r.scope ≡ join_scopes (journal_read ∷ journal_write ∷ []))
unfolding refreshing Service.approve Store.save_grant Service.redirect_with
exchange-approve_example =
    exchange-approve platform home (λ url. some url.rest) approval "usr_1" server
      (record code_exchange { code = "itoken" }) (λ u code state. refl)
      (record {
        url = approval_url;
        sent = refl;
        code = refl;
        client = refl;
        verifier = refl;
        challenge = refl;
        redirect = refl;
      })
      after_approval refl refl (omega arith)

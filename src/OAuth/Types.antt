-- ===== src/OAuth/Types.antt =====
-- oauth/types.ts and oauth/errors.ts, and the scopes of packages/contracts/src/common.ts. An
-- instant is its number of milliseconds: the program writes every instant by `toISOString`, whose
-- texts are ordered as the instants are.
use fullwell.Prelude.{ℕ, String, Option, List, [], ◌∷◌}

-- An instant, in milliseconds since 1970.
abbrev pub Instant : Type 0
Instant = ℕ

pub data OAuthScope : Type 0 where
  journal_read journal_write household_manage collection_share journal_export : OAuthScope
  runner_messages : OAuthScope

-- The scopes that a grant has when none are named.
abbrev pub oauth_scopes : List OAuthScope
oauth_scopes =
    journal_read ∷ journal_write ∷ household_manage ∷ collection_share ∷ journal_export ∷ []

pub record OAuthClient : Type 0 where
  pub client_id : String
  pub name : String
  pub redirect_uris : List String

pub record OAuthGrant : Type 0 where
  pub id : String
  pub user_id : String
  pub client_id : String
  pub scopes : List OAuthScope
  pub resource : String
  pub revoked_at : Option Instant

pub record OAuthGrantSummary : Type 0 where
  pub id : String
  pub client_id : String
  pub client_name : String
  pub scopes : List OAuthScope

pub data TokenKind : Type 0 where
  authorization_code access refresh : TokenKind

pub record OAuthTokenRecord : Type 0 where
  pub id : String
  pub grant_id : String
  pub kind : TokenKind
  pub token_hash : String
  pub family_id : Option String
  pub parent_id : Option String
  pub pkce_challenge : Option String
  pub redirect_uri : Option String
  pub audience : String
  pub expires_at : Instant
  pub used_at : Option Instant
  pub revoked_at : Option Instant

-- What the store keeps of a user: an access identity without its client and scopes.
pub record Identity : Type 0 where
  pub user_id : String
  pub actor_id : String
  pub display_name : String

pub record OAuthAccessIdentity : Type 0 where
  pub user_id : String
  pub actor_id : String
  pub display_name : String
  pub client_id : String
  pub scopes : List OAuthScope

pub record AuthorizationRequest : Type 0 where
  pub client_id : String
  pub client_name : String
  pub redirect_uri : String
  pub state : String
  pub code_challenge : String
  pub scopes : List OAuthScope
  pub resource : String

-- `token_type` is always "Bearer".
pub record TokenResponse : Type 0 where
  pub access_token : String
  pub expires_in : ℕ
  pub refresh_token : String
  pub scope : String

pub data OAuthErrorCode : Type 0 where
  invalid_request invalid_client invalid_grant invalid_scope : OAuthErrorCode
  unsupported_grant_type : OAuthErrorCode

-- `OAuthProtocolError` without its message, and the errors of a schema (`ZodError`) and of
-- `new URL` (`TypeError`), which carry no code.
pub data OAuthError : Type 0 where
  protocol : OAuthErrorCode → ℕ → OAuthError
  malformed : OAuthError

-- ===== src/Auth/Types.antt =====
-- auth/types.ts, and the identifiers of packages/contracts/src/ids.ts. Instants are milliseconds.
use Prim.Native.Char.{code}
use Prim.Native.String.{[], ◌∷◌}
use fullwell.Prelude.{ℕ, String, Bool, false, ◌&&◌, ◌||◌, Option, List, leb, nat_eq}
use fullwell.Prelude.Text.{has_length, every_char}
use fullwell.Dict.{Dict}

abbrev pub Instant : Type 0
Instant = ℕ

pub data AuthChallengeKind : Type 0 where
  magic_link apple webauthn_registration webauthn_authentication : AuthChallengeKind

pub record AuthUser : Type 0 where
  pub id : String
  pub actor_id : String
  pub display_name : String

pub record AuthChallenge : Type 0 where
  pub id : String
  pub kind : AuthChallengeKind
  pub token_hash : String
  pub browser_binding_hash : Option String
  pub payload : Dict String
  pub expires_at : Instant
  pub consumed_at : Option Instant

pub record WebSession : Type 0 where
  pub id : String
  pub user_id : String
  pub token_hash : String
  pub csrf_hash : String
  pub pending_intent : Option String
  pub authenticated_at : Instant
  pub expires_at : Instant
  pub revoked_at : Option Instant

pub data PasskeyTransport : Type 0 where
  ble cable hybrid internal nfc smart_card usb : PasskeyTransport

pub data PasskeyDeviceType : Type 0 where
  single_device multi_device : PasskeyDeviceType

-- The two methods that a user can link, and the one of a reviewer.
pub data ExternalIdentityProvider : Type 0 where
  apple magic_link reviewer : ExternalIdentityProvider

pub data MethodRemovalResult : Type 0 where
  removed not_found last_method : MethodRemovalResult

pub data IdentityLinkResult : Type 0 where
  linked already_linked identity_in_use user_not_found : IdentityLinkResult

pub record PasskeyCredential : Type 0 where
  pub credential_id : String
  pub user_id : String
  pub public_key : List ℕ
  pub counter : ℕ
  pub transports : List PasskeyTransport
  pub device_type : PasskeyDeviceType
  pub backed_up : Bool
  pub name : String
  pub created_at : Instant
  pub last_used_at : Option Instant

-- [0-9a-z]
abbrev pub is_base36 : ℕ → Bool
is_base36 c = leb b'0' c && leb c b'9' || leb b'a' c && leb c b'z'

-- ^prefix[0-9a-z]{16,64}$
unfoldable pub is_opaque_id : String → String → Bool
is_opaque_id [] s = has_length 16 64 s && every_char is_base36 s
is_opaque_id (p ∷ prefix) [] = false
is_opaque_id (p ∷ prefix) (c ∷ s) = nat_eq (code p) (code c) && is_opaque_id prefix s

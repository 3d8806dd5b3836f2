-- ===== src/Messaging/Types.antt =====
-- messaging/ports.ts, and the enumerations of packages/contracts/src/messaging.ts. Instants are
-- milliseconds, as in OAuth/Types.
use fullwell.Prelude.{ℕ, String, Option, Bool, true, false}

abbrev pub Instant : Type 0
Instant = ℕ

pub data MessageEnvelopeState : Type 0 where
  received queued leased awaiting_user response_ready : MessageEnvelopeState
  response_sent completed expired failed : MessageEnvelopeState

-- RunnerTerminalState["kind"]
pub data TerminalKind : Type 0 where
  completed needs_input blocked cancelled : TerminalKind

pub record RunnerDeviceRecord : Type 0 where
  pub id : String
  pub user_id : String
  pub household_id : String
  pub name : String
  pub last_seen_at : Option Instant
  pub revoked_at : Option Instant
  pub created_at : Instant
  pub updated_at : Instant

pub record ProviderLinkChallengeRecord : Type 0 where
  pub id : String
  pub user_id : String
  pub household_id : String
  pub runner_device_id : String
  pub token_hash : String
  pub browser_binding_hash : String
  pub expires_at : Instant
  pub consumed_at : Option Instant
  pub created_at : Instant

pub record ProviderIdentityLinkRecord : Type 0 where
  pub id : String
  pub user_id : String
  pub household_id : String
  pub runner_device_id : String
  pub provider_identity_hash : String
  pub destination_ciphertext : String
  pub browser_binding_hash : Option String
  pub confirmation_expires_at : Instant
  pub confirmed_at : Option Instant
  pub linked_at : Instant
  pub revoked_at : Option Instant
  pub updated_at : Instant

pub record MessageEnvelopeRecord : Type 0 where
  pub id : String
  pub request_id : String
  pub provider_link_id : String
  pub provider_message_hash : String
  pub state : MessageEnvelopeState
  pub inbound_ciphertext : String
  pub response_ciphertext : Option String
  pub host_session_ciphertext : Option String
  pub terminal_kind : Option TerminalKind
  pub received_at : Instant
  pub service_window_expires_at : Instant
  pub lease_id : Option String
  pub lease_device_id : Option String
  pub lease_expires_at : Option Instant
  pub attempt_count : ℕ
  pub failure_code : Option String
  pub response_sent_at : Option Instant
  pub expires_at : Instant
  pub created_at : Instant
  pub updated_at : Instant

pub data MessageDeliveryStatus : Type 0 where
  accepted sent delivered read failed : MessageDeliveryStatus

pub record MessageDeliveryReceiptRecord : Type 0 where
  pub id : String
  pub envelope_id : String
  pub provider_delivery_hash : String
  pub status : MessageDeliveryStatus
  pub occurred_at : Instant
  pub failure_code : Option String
  pub created_at : Instant

pub data EnqueueResult : Type 0 where
  created resumed duplicate : MessageEnvelopeRecord → EnqueueResult
  overloaded : EnqueueResult

pub record MessageQueueCapacity : Type 0 where
  pub per_link : ℕ
  pub global : ℕ

pub record MessagingOperationalSnapshot : Type 0 where
  pub open_messages : ℕ
  pub queued_messages : ℕ
  pub leased_messages : ℕ
  pub awaiting_user_messages : ℕ
  pub response_ready_messages : ℕ
  pub oldest_open_received_at : Option Instant
  pub active_runner_devices : ℕ
  pub online_runner_devices : ℕ

abbrev pub is_queued : MessageEnvelopeState → Bool
is_queued queued = true
is_queued _ = false

abbrev pub is_leased : MessageEnvelopeState → Bool
is_leased leased = true
is_leased _ = false

abbrev pub is_awaiting_user : MessageEnvelopeState → Bool
is_awaiting_user awaiting_user = true
is_awaiting_user _ = false

abbrev pub is_response_ready : MessageEnvelopeState → Bool
is_response_ready response_ready = true
is_response_ready _ = false

-- ===== src/Messaging/Service/Tests.antt =====
-- A small household on WhatsApp, and the theorems on the service at concrete inputs.
use Prim.Native.String
use fullwell.Prelude.{
  ◌+◌, ◌≤◌, ◌≡◌, ◌≢◌, ◌⊎◌, refl, true, false, none, some, String, [], ◌∷◌, filter, find, any,
  sort_by, insert_by, arith,
}
use fullwell.Prelude.Exec.{ok}
use fullwell.Prelude.Text.{has_length, utf16_length, every_char}
use fullwell.Dict
use fullwell.OAuth.Types.{runner_messages, journal_read}
use fullwell.OAuth.Scopes.{scope_name}
use fullwell.Auth.Types.{is_opaque_id}
use fullwell.Household.Types.{Principal}
use fullwell.Household.Authorization.{has_scope}
use fullwell.Messaging.Types.{
  TerminalKind, awaiting_user, RunnerDeviceRecord, ProviderIdentityLinkRecord,
}
use fullwell.Messaging.Store.{get_device, find_active_link_by_identity_hash, get_provider_link}
use fullwell.Messaging.Queue
use fullwell.Messaging.Claim
use fullwell.Messaging.Delivery
use fullwell.Messaging.Invariant.{IsValid}
use fullwell.Messaging.Service.World.{
  World, Platform, MessagingServiceOptions, is_accepted, pure, throw, ◌>>=◌, on_store, try_store,
  ask_store, ask, of_result, guard, require_some, option_case, read_clock, sleep, draw, draw_id,
  encrypt, decrypt, send_service_text, is_pre_cutoff, require_pre_cutoff, require_runner_scopes,
  require_membership, require_device, require_active_link,
}
use fullwell.Messaging.Service.Linking.{parse_link_token, after_prefix, is_link_token}
use fullwell.Messaging.Service.Inbound.{
  ProviderInboundText, InboundOutcome, check_time, envelope_of, send_pending, enqueue, take_text,
  handle_in_window, handle_open, handle_inbound_text,
}
use fullwell.Messaging.Service.Work.{
  RunnerCompletion, is_completion, encrypt_session, respond, complete, RunnerClaimRequest,
  out_of_fuel, work, decrypt_session, open_envelope, send_ready, attempt, claim_until,
  is_claim_request, claim,
}
use fullwell.Messaging.Service.Requests.{
  Serves, at_start, served, receives, claims, serve, Serves-IsValid,
}
use fullwell.Messaging.Service.Access.{IsEntitled, is_refused, serve-IsEntitled}
use fullwell.Messaging.Receipts
use fullwell.Messaging.Service.Sending
use fullwell.Messaging.Service.Answers.{IsIn, complete_answer}
use fullwell.Messaging.Service.Waiting.{claim_ends}

-- Ciphertexts that show what they hide; a clock that moves by one at each reading.
abbrev platform : Platform
platform = record {
  now_at = λ n slept. 1000 + n + slept;
  opaque_id_at = λ n prefix. String.◌++◌ prefix "_0123456789abcdef";
  token_at = λ n. "token";
  hash = λ s. s;
  encrypt_at = λ n text place. text;
  decrypt = λ ciphertext place. some ciphertext;
  deliver = λ sent text. some "delivery";
  contact_url_with = λ text. text;
  parse_date = λ text. some 900;
  trim = λ s. s;
}

abbrev options : MessagingServiceOptions
options = record {
  free_service_send_cutoff = 1790838000000;
  lease_milliseconds = 90000;
  retention_milliseconds = 604800000;
  intake_enabled = true;
  linking_enabled = true;
  runner_claims_enabled = true;
  service_replies_enabled = true;
  capacity = record { per_link = 8; global = 1000 };
}

abbrev device_id : String
device_id = "dev_0123456789abcdef"

abbrev device : RunnerDeviceRecord
device = record {
  id = device_id;
  user_id = "usr_1";
  household_id = "hsh_1";
  name = "Kitchen";
  last_seen_at = none;
  revoked_at = none;
  created_at = 0;
  updated_at = 0;
}

abbrev link : ProviderIdentityLinkRecord
link = record {
  id = "lnk_1";
  user_id = "usr_1";
  household_id = "hsh_1";
  runner_device_id = device_id;
  provider_identity_hash = "+15550100";
  destination_ciphertext = "+15550100";
  browser_binding_hash = none;
  confirmation_expires_at = 100;
  confirmed_at = some 5;
  linked_at = 1;
  revoked_at = none;
  updated_at = 5;
}

abbrev world : World
world = record {
  store = record {
    devices = (device_id, device) ∷ [];
    challenges = [];
    links = ("lnk_1", link) ∷ [];
    envelopes = [];
    provider_events = [];
    delivery_receipts = [];
  };
  is_active_member = λ user_id household_id. true;
  sent = [];
  reads = 0;
  slept = 0;
  draws = 0;
}

abbrev principal : Principal
principal = record {
  user_id = "usr_1";
  actor_id = "act_1";
  display_name = "Ada";
  scopes = runner_messages ∷ journal_read ∷ [];
  client = "runner";
}

abbrev inbound : ProviderInboundText
inbound = record {
  provider_message_id = "wamid.1";
  sender_identity = "+15550100";
  text = "buy milk";
  occurred_at = "2026-01-02T03:04:05Z";
}

abbrev claim_request : RunnerClaimRequest
claim_request = record { device_id = device_id; wait_seconds = 1; recover_saturated = false }

-- What a run of the service opens.
running : Unit {0}
unfolding is_accepted pure throw ◌>>=◌ on_store try_store ask_store ask of_result guard require_some
    option_case read_clock sleep draw draw_id encrypt decrypt send_service_text is_pre_cutoff
    require_pre_cutoff require_runner_scopes require_membership require_device require_active_link
    parse_link_token after_prefix is_link_token check_time envelope_of send_pending enqueue
    take_text handle_in_window handle_open handle_inbound_text decrypt_session open_envelope
    send_ready attempt claim_until is_claim_request claim has_scope scope_name is_opaque_id
    has_length utf16_length every_char get_device find_active_link_by_identity_hash
    get_provider_link Queue.enqueue_or_resume Queue.enqueue_new Queue.is_full Queue.open_envelopes
    Claim.claim Claim.prepare Claim.release_lapsed Claim.recover Claim.claimable Claim.is_served
    Claim.lease_first Delivery.get_response_ready_for_link Delivery.get_response_ready_for_device
    Dict.get Dict.set Dict.update_all filter find any sort_by insert_by
running = tt

first_text : (handle_inbound_text platform options inbound world).0 ≡ ok InboundOutcome.queued
unfolding running
first_text = refl

-- The text reaches the runner.
first_work :
    (claim platform options principal claim_request
      (handle_inbound_text platform options inbound world).1).0
    ≡ ok (
        work (record {
          envelope_id = "msg_0123456789abcdef";
          request_id = "req_0123456789abcdef";
          lease_id = "lse_0123456789abcdef";
          lease_expires_at = 91003;
          household_id = "hsh_1";
          text = "buy milk";
          received_at = 900;
          service_window_expires_at = 86400900;
          resume_session_id = none;
        }))
unfolding running
first_work = refl

world_IsValid : IsValid options.capacity world.store.envelopes
unfolding filter
world_IsValid = record {
  sound = tt;
  indexed = tt;
  room = omega arith;
  link_room = λ id. omega arith;
}

-- A text is received and claimed.
abbrev later : World
later =
    serve platform options (claims principal claim_request)
      (serve platform options (receives inbound) world)

history : Serves platform options world later
history = served (served at_start (receives inbound)) (claims principal claim_request)

-- Somebody else who asks for the work of this device.
abbrev stranger : Principal
stranger = record principal { user_id = "usr_2" }

serve-IsEntitled_example :
    IsEntitled platform options (claims stranger claim_request) later
    ⊎ ((is_refused platform options (claims stranger claim_request) later ≡ true)
        × ((serve platform options (claims stranger claim_request) later).store ≡ later.store))
serve-IsEntitled_example = serve-IsEntitled platform options (claims stranger claim_request) later

Serves-IsValid_example : IsValid options.capacity later.store.envelopes
Serves-IsValid_example = Serves-IsValid platform options history world_IsValid

claim_ends_example :
    ((claim platform options principal claim_request world).0 ≢ ok out_of_fuel)
    × ((claim platform options principal claim_request world).1.slept ≤ 1000)
claim_ends_example =
    claim_ends platform options principal claim_request world (λ n s k. omega arith)

abbrev completion : RunnerCompletion
completion = record {
  device_id = device_id;
  lease_id = "lse_0123456789abcdef";
  terminal_kind = TerminalKind.needs_input;
  message = "Which milk?";
  host_session_id = none;
}

first_answer :
    (complete platform options principal "msg_0123456789abcdef" completion later).0
    ≡ ok awaiting_user
unfolding running serve complete is_completion encrypt_session respond Delivery.complete_lease
    Delivery.valid_lease Sending.try_send_response Sending.may_send Sending.send_response
    Delivery.mark_response_sent Receipts.save_delivery_receipt
first_answer = refl

complete_answer_example :
    IsIn "msg_0123456789abcdef" awaiting_user
      (complete platform options principal "msg_0123456789abcdef" completion
        later).1.store.envelopes
complete_answer_example =
    complete_answer platform options principal "msg_0123456789abcdef" completion later awaiting_user
      (Serves-IsValid platform options history world_IsValid).indexed first_answer

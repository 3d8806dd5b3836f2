-- ===== src/Messaging/Service/Inbound.antt =====
-- messaging/service.ts: `handleInboundText`, from the provider's webhook to the queue.
use fullwell.Prelude.{
  ◌+◌, ◌*◌, String, Bool, false, ◌&&◌, Option, none, some, if◌then◌else◌, is_none, leb, ltb,
}
use fullwell.Prelude.Exec.{Result, ok, err}
use fullwell.Prelude.Text.{has_length}
use fullwell.Messaging.Types.{
  Instant, MessageEnvelopeState, ProviderIdentityLinkRecord, RunnerDeviceRecord,
  MessageEnvelopeRecord, EnqueueResult,
}
use fullwell.Messaging.Store.{get_device, find_active_link_by_identity_hash}
use fullwell.Messaging.Queue.{enqueue_or_resume}
use fullwell.Messaging.Delivery.{get_response_ready_for_link}
use fullwell.Messaging.Service.World.{
  ServiceError, validation_failed, MessagingServiceOptions, Platform, Action, ◌>>=◌, ◌>>◌, pure,
  ask, of_result, option_case, try_store, ask_store, parse, read_clock, draw_id, encrypt,
  is_pre_cutoff,
}
use fullwell.Messaging.Service.Sending.{inbound_associated_data, try_send_response}
use fullwell.Messaging.Service.Linking.{LinkOutcome, parse_link_token, consume_link_code}
use fullwell.Messaging.Service.Linking

pub record ProviderInboundText : Type 0 where
  pub provider_message_id : String
  pub sender_identity : String
  pub text : String
  pub occurred_at : String

pub data InboundOutcome : Type 0 where
  link_pending queued duplicate overloaded ignored channel_disabled : InboundOutcome

abbrev pub of_link : LinkOutcome → InboundOutcome
of_link Linking.link_pending = InboundOutcome.link_pending
of_link Linking.ignored = InboundOutcome.ignored

abbrev pub of_enqueue : EnqueueResult → InboundOutcome
of_enqueue EnqueueResult.overloaded = InboundOutcome.overloaded
of_enqueue (EnqueueResult.duplicate _) = InboundOutcome.duplicate
of_enqueue _ = InboundOutcome.queued

abbrev pub is_unrevoked : Option RunnerDeviceRecord → Bool
is_unrevoked none = false
is_unrevoked (some d) = is_none d.revoked_at

module _ (P : Platform) (o : MessagingServiceOptions) where
  -- A time that is a date and not more than five minutes ahead.
  unfoldable pub check_time : String → Instant → Result ServiceError Instant
  check_time occurred_at now = elim (P.parse_date occurred_at) [
    | none ↦ err validation_failed
    | some at ↦ if ltb (now + 5 * 60000) at then err validation_failed else ok at
  ]

  unfoldable pub envelope_of :
      ProviderInboundText
      → String
      → String
      → String
      → String
      → Instant
      → Instant
      → MessageEnvelopeRecord
  envelope_of i id request_id link_id ciphertext at now = record {
    id = id;
    request_id = request_id;
    provider_link_id = link_id;
    provider_message_hash = P.hash i.provider_message_id;
    state = MessageEnvelopeState.queued;
    inbound_ciphertext = ciphertext;
    response_ciphertext = none;
    host_session_ciphertext = none;
    terminal_kind = none;
    received_at = at;
    service_window_expires_at = at + 24 * 60 * 60000;
    lease_id = none;
    lease_device_id = none;
    lease_expires_at = none;
    attempt_count = 0;
    failure_code = none;
    response_sent_at = none;
    expires_at = now + o.retention_milliseconds;
    created_at = now;
    updated_at = now;
  }

  -- A response that is still to be sent goes out while the window is open.
  unfoldable pub send_pending :
      ProviderIdentityLinkRecord → Option MessageEnvelopeRecord → Instant → Action (Unit {0})
  unfolding try_send_response
  send_pending link ready now =
      option_case ready (pure tt) (λ e. try_send_response P o link e now >> pure tt)

  unfoldable pub enqueue :
      ProviderInboundText
      → String
      → ProviderIdentityLinkRecord
      → Instant
      → Instant
      → Action InboundOutcome
  unfolding send_pending draw_id encrypt envelope_of
  enqueue i text link at now = do
    response_ready ← ask_store (get_response_ready_for_link link.id)
    send_pending link response_ready now
    id ← draw_id P "msg" "msg_"
    request_id ← draw_id P "req" "req_"
    ciphertext ← encrypt P text (inbound_associated_data link.id)
    result ←
        try_store
          (enqueue_or_resume (envelope_of i id request_id link.id ciphertext at now) now o.capacity)
    pure (of_enqueue result)

  -- A text that is no link code.
  unfoldable pub take_text :
      ProviderInboundText → String → Instant → Instant → Action InboundOutcome
  unfolding enqueue
  take_text i text at now = do
    w ← ask (λ w. w)
    option_case (find_active_link_by_identity_hash (P.hash i.sender_identity) w.store)
        (pure InboundOutcome.ignored)
        (λ link.
          if w.is_active_member link.user_id link.household_id
            && is_unrevoked (get_device link.runner_device_id w.store)
          then enqueue i text link at now
          else pure InboundOutcome.ignored)

  unfoldable pub take_link_token :
      ProviderInboundText → String → Instant → Instant → Action InboundOutcome
  unfolding consume_link_code
  take_link_token i token at now =
      if o.linking_enabled
      then (consume_link_code P o i.sender_identity token now (at + 24 * 60 * 60000) >>= λ outcome.
          pure (of_link outcome))
      else pure InboundOutcome.channel_disabled

  unfoldable pub handle_in_window : ProviderInboundText → Instant → Instant → Action InboundOutcome
  unfolding has_length parse_link_token take_link_token take_text
  handle_in_window i at now = do
    parse (has_length 1 1024 (P.trim i.text))
    option_case (parse_link_token (P.trim i.text)) (take_text i (P.trim i.text) at now)
        (λ token. take_link_token i token at now)

  unfoldable pub handle_open : ProviderInboundText → Instant → Action InboundOutcome
  unfolding check_time handle_in_window
  handle_open i now = do
    at ← of_result (check_time i.occurred_at now)
    if leb (at + 24 * 60 * 60000) now
        then pure InboundOutcome.ignored
        else handle_in_window i at now

  unfoldable pub handle_inbound_text : ProviderInboundText → Action InboundOutcome
  unfolding read_clock is_pre_cutoff handle_open
  handle_inbound_text i = do
    now ← read_clock P
    if o.intake_enabled && is_pre_cutoff P o now
        then handle_open i now
        else pure InboundOutcome.channel_disabled

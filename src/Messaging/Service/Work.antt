-- ===== src/Messaging/Service/Work.antt =====
-- messaging/service.ts: a runner's work, `claim`, `heartbeat` and `complete`.
use fullwell.Prelude.{
  ℕ, zero, suc, ◌+◌, ◌-◌, ◌*◌, String, Bool, true, not, ◌&&◌, Option, none, some, if◌then◌else◌,
  is_none, leb,
}
use fullwell.Prelude.Text.{has_length}
use fullwell.Auth.Types.{is_opaque_id}
use fullwell.Household.Types.{Principal}
use fullwell.Messaging.Types.{
  Instant, TerminalKind, MessageEnvelopeState, response_ready, MessageEnvelopeRecord,
}
use fullwell.Messaging.Claim
use fullwell.Messaging.Delivery
use fullwell.Messaging.Delivery.{get_response_ready_for_device, state_after}
use fullwell.Messaging.Service.World.{
  channel_disabled, lease_conflict, internal_error, MessagingServiceOptions, Platform, Action,
  ◌>>=◌, ◌>>◌, pure, guard, require_some, option_case, on_store, ask_store, parse, read_clock,
  sleep, draw_id, encrypt, decrypt, require_pre_cutoff, require_runner_scopes, require_membership,
  require_device, require_active_link,
}
use fullwell.Messaging.Service.Sending.{
  inbound_associated_data, host_session_associated_data, response_associated_data,
  try_send_response,
}

-- RunnerClaimRequestSchema, with its defaults filled in
pub record RunnerClaimRequest : Type 0 where
  pub device_id : String
  pub wait_seconds : ℕ
  pub recover_saturated : Bool

-- ClaimedEnvelopeSchema
pub record ClaimedEnvelope : Type 0 where
  pub envelope_id : String
  pub request_id : String
  pub lease_id : String
  pub lease_expires_at : Instant
  pub household_id : String
  pub text : String
  pub received_at : Instant
  pub service_window_expires_at : Instant
  pub resume_session_id : Option String

-- `out_of_fuel` is what the loop of this model would answer if its fuel did not suffice.
pub data RunnerClaimResponse : Type 0 where
  empty out_of_fuel : RunnerClaimResponse
  work : ClaimedEnvelope → RunnerClaimResponse

-- RunnerCompletionSchema
pub record RunnerCompletion : Type 0 where
  pub device_id : String
  pub lease_id : String
  pub terminal_kind : TerminalKind
  pub message : String
  pub host_session_id : Option String

abbrev pub min : ℕ → ℕ → ℕ
min a b = if leb a b then a else b

abbrev pub max : ℕ → ℕ → ℕ
max a b = if leb a b then b else a

module _ (P : Platform) (o : MessagingServiceOptions) where
  unfoldable pub decrypt_session : MessageEnvelopeRecord → Action (Option String)
  unfolding decrypt
  decrypt_session e = option_case e.host_session_ciphertext (pure none) (λ ciphertext.
      decrypt P ciphertext (host_session_associated_data e.id) >>= λ session. pure (some session))

  -- What the runner gets to see of a claimed envelope.
  unfoldable pub open_envelope : String → MessageEnvelopeRecord → Action RunnerClaimResponse
  unfolding require_active_link decrypt decrypt_session
  open_envelope lease_id e = do
    link ← require_active_link e.provider_link_id
    lease_expires_at ← require_some e.lease_expires_at internal_error
    text ← decrypt P e.inbound_ciphertext (inbound_associated_data link.id)
    session ← decrypt_session e
    pure (
        work (record {
          envelope_id = e.id;
          request_id = e.request_id;
          lease_id = lease_id;
          lease_expires_at = lease_expires_at;
          household_id = link.household_id;
          text = text;
          received_at = e.received_at;
          service_window_expires_at = e.service_window_expires_at;
          resume_session_id = session;
        }))

  unfoldable pub send_ready : Option MessageEnvelopeRecord → Instant → Action (Unit {0})
  unfolding require_active_link try_send_response
  send_ready ready now = option_case ready (pure tt) (λ e. do
    link ← require_active_link e.provider_link_id
    try_send_response P o link e now
    pure tt)

  -- The first half of the loop's body: the envelope that is claimed, with its lease.
  unfoldable pub attempt :
      RunnerClaimRequest → Instant → Action (String × Option MessageEnvelopeRecord)
  unfolding send_ready draw_id
  attempt i now = do
    ready ← ask_store (get_response_ready_for_device i.device_id)
    (if o.service_replies_enabled then send_ready ready now else pure tt)
    lease_id ← draw_id P "lse" "lse_"
    envelope ←
        on_store
          (Claim.claim i.device_id lease_id now (now + o.lease_milliseconds) i.recover_saturated)
    pure (lease_id, envelope)

  -- How long the loop sleeps: Math.min(250, Math.max(1, deadline - now))
  abbrev pub pause : Instant → Instant → ℕ
  pause deadline now = min 250 (max 1 (deadline - now))

  unfoldable pub claim_until :
      ℕ → RunnerClaimRequest → Instant → Instant → Action RunnerClaimResponse
  unfolding attempt open_envelope read_clock sleep
  claim_until zero i deadline now = pure out_of_fuel
  claim_until (suc fuel) i deadline now =
      let rest = claim_until fuel i deadline in
      if leb now deadline
      then (attempt i now >>= λ claimed.
          option_case claimed.1
            (read_clock P >>= λ later.
              if leb deadline later
              then pure empty
              else (sleep P (pause deadline later) >> (read_clock P >>= rest)))
            (λ e. open_envelope claimed.0 e))
      else pure empty

  unfoldable pub is_claim_request : RunnerClaimRequest → Bool
  unfolding is_opaque_id
  is_claim_request i = is_opaque_id "dev_" i.device_id && leb i.wait_seconds 25

  unfoldable pub claim : Principal → RunnerClaimRequest → Action RunnerClaimResponse
  unfolding require_pre_cutoff require_runner_scopes is_claim_request require_device
      require_membership read_clock claim_until
  claim p i = do
    guard o.runner_claims_enabled channel_disabled
    require_pre_cutoff P o
    require_runner_scopes p
    parse (is_claim_request i)
    device ← require_device p i.device_id
    require_membership p device.household_id
    started ← read_clock P
    now ← read_clock P
    claim_until (i.wait_seconds * 1000 + 2) i (started + i.wait_seconds * 1000) now

  unfoldable pub heartbeat : Principal → String → String → String → Action Instant
  unfolding require_pre_cutoff require_runner_scopes is_opaque_id require_device read_clock
  heartbeat p envelope_id device_id lease_id = do
    require_pre_cutoff P o
    require_runner_scopes p
    parse (is_opaque_id "msg_" envelope_id)
    parse (is_opaque_id "dev_" device_id && is_opaque_id "lse_" lease_id)
    require_device p device_id
    now ← read_clock P
    envelope ←
        on_store
          (Delivery.heartbeat envelope_id device_id lease_id now (now + o.lease_milliseconds))
    guard (not (is_none envelope)) lease_conflict
    pure (now + o.lease_milliseconds)

  abbrev pub is_session_id : Option String → Bool
  is_session_id none = true
  is_session_id (some s) = has_length 1 256 s

  unfoldable pub is_completion : RunnerCompletion → Bool
  unfolding is_opaque_id has_length
  is_completion i =
      is_opaque_id "dev_" i.device_id
      && is_opaque_id "lse_" i.lease_id
      && has_length 1 480 (P.trim i.message)
      && is_session_id i.host_session_id

  unfoldable pub encrypt_session : String → Option String → Action (Option String)
  unfolding encrypt
  encrypt_session envelope_id session_id = option_case session_id (pure none) (λ session.
      encrypt P session (host_session_associated_data envelope_id) >>= λ ciphertext.
      pure (some ciphertext))

  -- What is answered: the state in which the envelope is now.
  unfoldable pub respond :
      RunnerCompletion → MessageEnvelopeRecord → Instant → Action MessageEnvelopeState
  unfolding require_active_link try_send_response
  respond i e now = do
    link ← require_active_link e.provider_link_id
    sent ← try_send_response P o link e now
    pure (if sent then state_after i.terminal_kind else response_ready)

  unfoldable pub complete : Principal → String → RunnerCompletion → Action MessageEnvelopeState
  unfolding require_runner_scopes is_opaque_id is_completion require_device read_clock encrypt
      encrypt_session respond
  complete p envelope_id i = do
    require_runner_scopes p
    parse (is_opaque_id "msg_" envelope_id)
    parse (is_completion i)
    require_device p i.device_id
    now ← read_clock P
    response ← encrypt P (P.trim i.message) (response_associated_data envelope_id)
    session ← encrypt_session envelope_id i.host_session_id
    completed ← on_store (
        Delivery.complete_lease (record {
          envelope_id = envelope_id;
          device_id = i.device_id;
          lease_id = i.lease_id;
          now = now;
          terminal_kind = i.terminal_kind;
          response_ciphertext = response;
          host_session_ciphertext = session;
        }))
    e ← require_some completed lease_conflict
    respond i e now

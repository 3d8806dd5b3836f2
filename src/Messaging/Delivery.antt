-- ===== src/Messaging/Delivery.antt =====
-- messaging/memory-store.ts: a leased envelope to its response. `heartbeat`, `completeLease`,
-- `markResponseSent` and the two lookups of a ready response.
use fullwell.Prelude.{
  String, Bool, not, ◌&&◌, Option, none, some, if◌then◌else◌, is_none, is_text, filter, sort_by,
  first,
}
use fullwell.Dict
use fullwell.Dict.{Dict, values}
use fullwell.Messaging.Types.{
  Instant, MessageEnvelopeState, awaiting_user, response_ready, is_leased, is_response_ready,
  TerminalKind, needs_input, MessageEnvelopeRecord,
}
use fullwell.Messaging.Store.{MessageStore}
use fullwell.Messaging.Queue.{is_of_link}
use fullwell.Messaging.Claim.{has_lapsed, is_served}

unfoldable pub valid_lease : MessageEnvelopeRecord → String → String → Instant → Bool
valid_lease e device_id lease_id now =
    is_leased e.state
    && is_text e.lease_device_id device_id
    && is_text e.lease_id lease_id
    && not (is_none e.lease_expires_at)
    && not (has_lapsed e.lease_expires_at now)

unfoldable pub heartbeat :
    String
    → String
    → String
    → Instant
    → Instant
    → MessageStore
    → Option MessageEnvelopeRecord × MessageStore
unfolding valid_lease
heartbeat envelope_id device_id lease_id now lease_expires_at s =
    elim (Dict.get s.envelopes envelope_id) [
      | none ↦ (none, s)
      | some e ↦
          if valid_lease e device_id lease_id now
          then (let e' : MessageEnvelopeRecord = record e {
            lease_expires_at = some lease_expires_at;
            updated_at = now;
          } in
              (some e', record s { envelopes = Dict.set s.envelopes envelope_id e' }))
          else (none, s)
    ]

pub record Completion : Type 0 where
  pub envelope_id : String
  pub device_id : String
  pub lease_id : String
  pub now : Instant
  pub terminal_kind : TerminalKind
  pub response_ciphertext : String
  pub host_session_ciphertext : Option String

unfoldable pub complete_lease :
    Completion → MessageStore → Option MessageEnvelopeRecord × MessageStore
unfolding valid_lease
complete_lease i s = elim (Dict.get s.envelopes i.envelope_id) [
  | none ↦ (none, s)
  | some e ↦
      if valid_lease e i.device_id i.lease_id i.now
      then (let e' : MessageEnvelopeRecord = record e {
        state = response_ready;
        response_ciphertext = some i.response_ciphertext;
        host_session_ciphertext = i.host_session_ciphertext;
        terminal_kind = some i.terminal_kind;
        lease_id = none;
        lease_device_id = none;
        lease_expires_at = none;
        updated_at = i.now;
      } in
          (some e', record s { envelopes = Dict.set s.envelopes i.envelope_id e' }))
      else (none, s)
]

unfoldable pub get_response_ready_for_link : String → MessageStore → Option MessageEnvelopeRecord
get_response_ready_for_link link_id s = first (
    sort_by (λ e. e.received_at)
      (filter (λ e. is_of_link link_id e && is_response_ready e.state) (values s.envelopes)))

unfoldable pub get_response_ready_for_device : String → MessageStore → Option MessageEnvelopeRecord
get_response_ready_for_device device_id s = first (
    sort_by (λ e. e.received_at)
      (filter (λ e. is_response_ready e.state && is_served s device_id e) (values s.envelopes)))

-- `terminalKind === "needs_input" ? "awaiting_user" : "completed"`
abbrev pub state_after : TerminalKind → MessageEnvelopeState
state_after needs_input = awaiting_user
state_after _ = MessageEnvelopeState.completed

unfoldable pub mark_response_sent :
    String → Instant → MessageStore → Option MessageEnvelopeRecord × MessageStore
mark_response_sent envelope_id now s = elim (Dict.get s.envelopes envelope_id) [
  | none ↦ (none, s)
  | some e ↦ if not (is_response_ready e.state) then (none, s) else elim e.terminal_kind [
    | none ↦ (none, s)
    | some kind ↦
        (let e' : MessageEnvelopeRecord = record e {
          response_sent_at = some now;
          response_ciphertext = none;
          state = state_after kind;
          updated_at = now;
        } in
          (some e', record s { envelopes = Dict.set s.envelopes envelope_id e' }))
  ]
]

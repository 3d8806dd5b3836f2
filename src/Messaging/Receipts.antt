-- ===== src/Messaging/Receipts.antt =====
-- messaging/memory-store.ts: delivery receipts, the operator's snapshot and the deletion of what
-- has expired.
use fullwell.Prelude.{
  ℕ, ◌+◌, String, Bool, true, false, ◌&&◌, Option, none, some, List, [], ◌∷◌, map, ◌==◌,
  if◌then◌else◌, is_none, leb, ltb, filter, length, sort_by, first,
}
use fullwell.Dict
use fullwell.Dict.{Dict, values}
use fullwell.Messaging.Types.{
  Instant, is_queued, is_leased, is_awaiting_user, is_response_ready, MessageEnvelopeRecord,
  MessageDeliveryStatus, MessageDeliveryReceiptRecord, MessagingOperationalSnapshot,
  RunnerDeviceRecord, ProviderIdentityLinkRecord,
}
use fullwell.Messaging.Store.{MessageStore}
use fullwell.Messaging.Queue.{open_envelopes}

-- The first receipt of a delivery stays.
unfoldable pub save_delivery_receipt : MessageDeliveryReceiptRecord → MessageStore → MessageStore
save_delivery_receipt r s = elim (Dict.get s.delivery_receipts r.provider_delivery_hash) [
  | some _ ↦ s
  | none ↦ record s { delivery_receipts = Dict.set s.delivery_receipts r.provider_delivery_hash r }
]

unfoldable pub update_delivery_status :
    String → MessageDeliveryStatus → Instant → Option String → MessageStore → Bool × MessageStore
update_delivery_status hash status at failure_code s = elim (Dict.get s.delivery_receipts hash) [
  | none ↦ (false, s)
  | some r ↦ if ltb at r.occurred_at then (false, s) else (
    true,
    record s {
      delivery_receipts =
          Dict.set s.delivery_receipts hash
            (record r { status = status; occurred_at = at; failure_code = failure_code });
    },
  )
]

-- `lastSeenAt !== null && lastSeenAt >= onlineSince`
abbrev pub is_online : Instant → RunnerDeviceRecord → Bool
is_online since d = elim d.last_seen_at [ none ↦ false | some at ↦ leb since at ]

unfoldable pub operator_snapshot : Instant → MessageStore → MessagingOperationalSnapshot
unfolding open_envelopes
operator_snapshot since s =
    let open_ones = open_envelopes s in
    let active = filter (λ d. is_none d.revoked_at) (values s.devices) in
    record {
      open_messages = length open_ones;
      queued_messages = length (filter (λ e. is_queued e.state) open_ones);
      leased_messages = length (filter (λ e. is_leased e.state) open_ones);
      awaiting_user_messages = length (filter (λ e. is_awaiting_user e.state) open_ones);
      response_ready_messages = length (filter (λ e. is_response_ready e.state) open_ones);
      oldest_open_received_at = first (sort_by (λ at. at) (map (λ e. e.received_at) open_ones));
      active_runner_devices = length active;
      online_runner_devices = length (filter (is_online since) active);
    }

abbrev pub is_expired : Instant → MessageEnvelopeRecord → Bool
is_expired now e = leb e.expires_at now

-- A confirmation that was not given in time.
abbrev pub is_stale : Instant → ProviderIdentityLinkRecord → Bool
is_stale now l = is_none l.confirmed_at && leb l.confirmation_expires_at now

-- The body of the loop over the expired envelopes.
unfoldable pub delete_envelope : MessageEnvelopeRecord → MessageStore → MessageStore
delete_envelope e s = record s {
  envelopes = Dict.delete s.envelopes e.id;
  delivery_receipts = Dict.delete_where (λ r. r.envelope_id == e.id) s.delivery_receipts;
  provider_events = Dict.delete_where (λ id. id == e.id) s.provider_events;
}

unfoldable pub delete_envelopes : List MessageEnvelopeRecord → MessageStore → MessageStore
unfolding delete_envelope
delete_envelopes [] s = s
delete_envelopes (e ∷ es) s = delete_envelopes es (delete_envelope e s)

unfoldable pub delete_expired : Instant → MessageStore → ℕ × MessageStore
unfolding delete_envelopes
delete_expired now s =
    let expired = filter (is_expired now) (values s.envelopes) in
    let challenges = filter (λ c. leb c.expires_at now) (values s.challenges) in
    let links = filter (is_stale now) (values s.links) in
    let s' = delete_envelopes expired s in
    (
      length expired + length challenges + length links,
      record s' {
        challenges = Dict.delete_where (λ c. leb c.expires_at now) s'.challenges;
        links = Dict.delete_where (is_stale now) s'.links;
      },
    )

-- ===== src/Messaging/Claim.antt =====
-- messaging/memory-store.ts: `claim`, by which a runner device leases the next envelope.
use fullwell.Prelude.{
  ◌+◌, String, Bool, false, not, ◌&&◌, ◌||◌, Option, none, some, List, ◌==◌, if◌then◌else◌, is_none,
  is_text, leb, filter, sort_by, first,
}
use fullwell.Dict
use fullwell.Dict.{Dict, values}
use fullwell.Messaging.Types.{
  Instant, queued, leased, is_queued, is_leased, MessageEnvelopeRecord, ProviderIdentityLinkRecord,
  RunnerDeviceRecord,
}
use fullwell.Messaging.Store.{MessageStore, is_active}

-- `lease_expires_at !== null && lease_expires_at <= now`
abbrev pub has_lapsed : Option Instant → Instant → Bool
has_lapsed none now = false
has_lapsed (some at) now = leb at now

-- An expired lease of the device goes back to the queue.
unfoldable pub release_lapsed : String → Instant → MessageEnvelopeRecord → MessageEnvelopeRecord
release_lapsed device_id now e =
    if is_leased e.state && is_text e.lease_device_id device_id && has_lapsed e.lease_expires_at now
    then record e {
      state = queued;
      lease_id = none;
      lease_device_id = none;
      lease_expires_at = none;
    }
    else e

-- `link?.runnerDeviceId === deviceId && link.confirmedAt !== null && link.revokedAt === null`
abbrev pub serves : Option ProviderIdentityLinkRecord → String → Bool
serves none device_id = false
serves (some link) device_id = link.runner_device_id == device_id && is_active link

unfoldable pub is_served : MessageStore → String → MessageEnvelopeRecord → Bool
is_served s device_id e = serves (Dict.get s.links e.provider_link_id) device_id

-- An envelope that used up its attempts starts again.
unfoldable pub recover :
    MessageStore → String → Instant → MessageEnvelopeRecord → MessageEnvelopeRecord
recover s device_id now e =
    if is_queued e.state && leb 20 e.attempt_count && is_served s device_id e
    then record e { attempt_count = 0; failure_code = none; updated_at = now }
    else e

-- What the device may claim: the queued envelopes of its links, by the time of their receipt.
unfoldable pub claimable : String → MessageStore → List MessageEnvelopeRecord
claimable device_id s =
    sort_by (λ e. e.received_at)
      (filter (is_served s device_id) (filter (λ e. is_queued e.state) (values s.envelopes)))

-- The store after the two loops of `claim`.
unfoldable pub prepare : String → Instant → Bool → MessageStore → MessageStore
prepare device_id now recover_saturated s =
    let released = Dict.update_all (release_lapsed device_id now) s.envelopes in
    record s {
      envelopes =
          if recover_saturated
          then Dict.update_all (recover s device_id now) released
          else released;
    }

unfoldable pub lease_first :
    String
    → RunnerDeviceRecord
    → String
    → Instant
    → Instant
    → MessageStore
    → Option MessageEnvelopeRecord × MessageStore
lease_first device_id device lease_id now lease_expires_at s =
    elim (first (claimable device_id s)) [
      | none ↦ (none, s)
      | some e ↦
          if leb e.expires_at now || leb 20 e.attempt_count
          then (none, s)
          else (let e' : MessageEnvelopeRecord = record e {
            state = leased;
            lease_id = some lease_id;
            lease_device_id = some device_id;
            lease_expires_at = some lease_expires_at;
            attempt_count = e.attempt_count + 1;
            updated_at = now;
          } in
              (
                some e',
                record s {
                  envelopes = Dict.set s.envelopes e.id e';
                  devices =
                      Dict.set s.devices device_id
                        (record device { last_seen_at = some now; updated_at = now });
                },
              ))
    ]

unfoldable pub claim :
    String
    → String
    → Instant
    → Instant
    → Bool
    → MessageStore
    → Option MessageEnvelopeRecord × MessageStore
claim device_id lease_id now lease_expires_at recover_saturated s =
    elim (Dict.get s.devices device_id) [
      | none ↦ (none, s)
      | some device ↦
          if not (is_none device.revoked_at)
          then (none, s)
          else lease_first device_id device lease_id now lease_expires_at
              (prepare device_id now recover_saturated s)
    ]

-- ===== src/Messaging/Events.antt =====
-- Every message that the store remembers has its envelope, so that an intake never meets a missing
-- one (messaging/memory-store.ts, `providerEvents`).
pub mod Steps
use fullwell.Prelude.{
  String, ◌≡◌, ◌≢◌, refl, Bool, true, false, not, ◌&&◌, ◌||◌, Option, none, some, List, [], ◌∷◌,
  arith, ◌==◌, eq_iff, eq_refl, if◌then◌else◌, is_none, is_text, leb, ltb, filter, find, All,
  All-map, Bool-cases, Option-cases, inl, inr, first,
}
use fullwell.Prelude.Exec.{Result, ok, err}
use fullwell.Dict
use fullwell.Dict.{Dict, values}
use fullwell.Dict.Laws.{
  get-set, has, has-set, has-set_same, has-update_all, has-delete, values-set-All,
  values-delete_where-All,
}
use fullwell.Messaging.Types.{
  Instant, MessageEnvelopeRecord, MessageQueueCapacity, EnqueueResult, created, resumed, duplicate,
  overloaded, is_awaiting_user, RunnerDeviceRecord, is_response_ready,
}
use fullwell.Messaging.Store.{
  MessageStore, StoreError, missing_envelope, save_device, revoke_device, save_link_challenge,
  consume_link_challenge, create_provider_link, confirm_provider_link, revoke_provider_link,
}
use fullwell.Messaging.Queue.{is_of_link, enqueue_new, enqueue_or_resume, resume_with, is_full}
use fullwell.Messaging.Claim.{release_lapsed, recover, claimable, prepare, lease_first, claim}
use fullwell.Messaging.Delivery.{
  valid_lease, heartbeat, Completion, complete_lease, mark_response_sent,
}
use fullwell.Messaging.Receipts.{
  save_delivery_receipt, update_delivery_status, delete_envelope, delete_envelopes, delete_expired,
  is_expired, is_stale,
}
use fullwell.Messaging.Invariant.Reach.{
  Step, device_saved, device_revoked, challenge_saved, challenge_consumed, link_created,
  link_confirmed, link_revoked, enqueued, claimed, beat, finished, answered, receipt_saved,
  status_updated, swept, Reach, here, next,
}

abbrev pub HaveEnvelopes : MessageStore → Type 0
HaveEnvelopes s = All (λ id. has s.envelopes id ≡ true) (values s.provider_events)

-- The same messages, and no envelope lost.
pub record Keeps (s t : MessageStore) : Type 0 where
  pub events : t.provider_events ≡ s.provider_events
  pub kept : (id : String) → has s.envelopes id ≡ true → has t.envelopes id ≡ true

pub Keeps-HaveEnvelopes : (s t : MessageStore) → Keeps s t → HaveEnvelopes s → HaveEnvelopes t
Keeps-HaveEnvelopes s t k h = rw (k.events) (All-map _ _ (values s.provider_events) k.kept h)

pub same_maps :
    (s t : MessageStore)
    → t.provider_events ≡ s.provider_events
    → t.envelopes ≡ s.envelopes
    → Keeps s t
same_maps s t events envelopes = record { events = events; kept = λ id h. rw envelopes h }

-- One envelope is written.
written :
    (s t : MessageStore) (k : String) (e : MessageEnvelopeRecord)
    → t.provider_events ≡ s.provider_events
    → t.envelopes ≡ Dict.set s.envelopes k e
    → Keeps s t
written s t k e events envelopes = record {
  events = events;
  kept = λ id h. rw envelopes (has-set s.envelopes k e id h);
}

pub heartbeat-Keeps :
    (id device_id lease_id : String) (now until : Instant) (s : MessageStore)
    → Keeps s (heartbeat id device_id lease_id now until s).1
unfolding heartbeat
heartbeat-Keeps id device_id lease_id now until s = elim (Option-cases (Dict.get s.envelopes id)) [
  | inl absent ↦ rw (absent, heartbeat) (same_maps s s refl refl)
  | inr (e, at) ↦
      rw (at, heartbeat)
        (elim (Bool-cases (valid_lease e device_id lease_id now)) [
          | inl holds ↦ rw holds (written s _ id _ refl refl)
          | inr lost ↦ rw lost (same_maps s s refl refl)
        ])
]

pub complete_lease-Keeps : (i : Completion) (s : MessageStore) → Keeps s (complete_lease i s).1
unfolding complete_lease
complete_lease-Keeps i s = elim (Option-cases (Dict.get s.envelopes i.envelope_id)) [
  | inl absent ↦ rw (absent, complete_lease) (same_maps s s refl refl)
  | inr (e, at) ↦
      rw (at, complete_lease)
        (elim (Bool-cases (valid_lease e i.device_id i.lease_id i.now)) [
          | inl holds ↦ rw holds (written s _ i.envelope_id _ refl refl)
          | inr lost ↦ rw lost (same_maps s s refl refl)
        ])
]

pub mark_response_sent-Keeps :
    (id : String) (now : Instant) (s : MessageStore) → Keeps s (mark_response_sent id now s).1
unfolding mark_response_sent
mark_response_sent-Keeps id now s = elim (Option-cases (Dict.get s.envelopes id)) [
  | inl absent ↦ rw (absent, mark_response_sent) (same_maps s s refl refl)
  | inr (e, at) ↦
      rw (at, mark_response_sent)
        (elim (Bool-cases (not (is_response_ready e.state))) [
          | inl unready ↦ rw unready (same_maps s s refl refl)
          | inr ready ↦ rw ready (elim (Option-cases e.terminal_kind) [
            | inl absent ↦ rw absent (same_maps s s refl refl)
            | inr (kind, known) ↦ rw known (written s _ id _ refl refl)
          ])
        ])
]

prepare-Keeps :
    (device_id : String) (now : Instant) (again : Bool) (s : MessageStore)
    → Keeps s (prepare device_id now again s)
unfolding prepare
prepare-Keeps device_id now false s = record {
  events = refl;
  kept = has-update_all (release_lapsed device_id now) s.envelopes;
}
prepare-Keeps device_id now true s = record {
  events = refl;
  kept = λ id h.
      has-update_all (recover s device_id now)
        (Dict.update_all (release_lapsed device_id now) s.envelopes) id
        (has-update_all (release_lapsed device_id now) s.envelopes id h);
}

lease_first-Keeps :
    (device_id : String) (d : RunnerDeviceRecord) (lease_id : String) (now until : Instant)
    (s : MessageStore)
    → Keeps s (lease_first device_id d lease_id now until s).1
unfolding lease_first
lease_first-Keeps device_id d lease_id now until s =
    elim (Option-cases (first (claimable device_id s))) [
      | inl empty ↦ rw (empty, lease_first) (same_maps s s refl refl)
      | inr (e, at) ↦
          rw (at, lease_first)
            (elim (Bool-cases (leb e.expires_at now || leb 20 e.attempt_count)) [
              | inl unfit ↦ rw unfit (same_maps s s refl refl)
              | inr fit ↦ rw fit (written s _ e.id _ refl refl)
            ])
    ]

pub claim-HaveEnvelopes :
    (device_id lease_id : String) (now until : Instant) (again : Bool) (s : MessageStore)
    → HaveEnvelopes s
    → HaveEnvelopes (claim device_id lease_id now until again s).1
unfolding claim
claim-HaveEnvelopes device_id lease_id now until again s h =
    elim (Option-cases (Dict.get s.devices device_id)) [
      | inl absent ↦ rw (absent, claim) h
      | inr (d, at) ↦
          rw (at, claim)
            (elim (Bool-cases (not (is_none d.revoked_at))) [
              | inl revoked ↦ rw revoked h
              | inr current ↦
                  let p : MessageStore = prepare device_id now again s in
                  rw current (
                    Keeps-HaveEnvelopes p _ (lease_first-Keeps device_id d lease_id now until p)
                      (Keeps-HaveEnvelopes s p (prepare-Keeps device_id now again s) h))
            ])
    ]

-- A message and its envelope are written.
recorded :
    (s : MessageStore) (hash k : String) (e : MessageEnvelopeRecord)
    → HaveEnvelopes s
    → All
        (λ id. has (Dict.set s.envelopes k e) id ≡ true)
        (values (Dict.set s.provider_events hash k))
recorded s hash k e h =
    values-set-All (λ id. has (Dict.set s.envelopes k e) id ≡ true) s.provider_events hash k
      (All-map _ _ (values s.provider_events) (has-set s.envelopes k e) h)
      (has-set_same s.envelopes k e)

enqueue_new-HaveEnvelopes :
    (input : MessageEnvelopeRecord) (c : MessageQueueCapacity) (s : MessageStore)
    → HaveEnvelopes s
    → HaveEnvelopes (enqueue_new input c s).1
unfolding enqueue_new
enqueue_new-HaveEnvelopes input c s h = elim (Bool-cases (is_full c input.provider_link_id s)) [
  | inl full ↦ rw (full, enqueue_new) h
  | inr free ↦ rw (free, enqueue_new) (recorded s input.provider_message_hash input.id input h)
]

pub enqueue_or_resume-HaveEnvelopes :
    (input : MessageEnvelopeRecord) (now : Instant) (c : MessageQueueCapacity) (s : MessageStore)
    → HaveEnvelopes s
    → HaveEnvelopes (enqueue_or_resume input now c s).1
unfolding enqueue_or_resume
enqueue_or_resume-HaveEnvelopes input now c s h =
    elim (Option-cases (Dict.get s.provider_events input.provider_message_hash)) [
      | inr (id, seen) ↦
          rw (seen, enqueue_or_resume)
            (elim (Option-cases (Dict.get s.envelopes id)) [
              | inl absent ↦ rw absent h
              | inr (e, at) ↦ rw at h
            ])
      | inl new ↦
          rw (new, enqueue_or_resume)
            (elim (Option-cases (
              find (λ e. is_of_link input.provider_link_id e && is_awaiting_user e.state)
                (values s.envelopes))) [
                  | inl none_pending ↦ rw none_pending (enqueue_new-HaveEnvelopes input c s h)
                  | inr (e, pending) ↦
                      rw pending
                        (recorded s input.provider_message_hash e.id (resume_with input now e) h)
                ])
    ]

-- ===== src/Messaging/Leases.antt =====
-- The lease of an envelope, from its claim to its response (messaging/memory-store.ts).
use fullwell.Prelude.{
  ◌+◌, ◌≤◌, ◌<◌, String, ◌≡◌, ◌≢◌, refl, ap, sym, ◌∙◌, Bool, true, false, not, ◌&&◌, none, some, [],
  ◌∷◌, arith, ◌==◌, eq_iff, eq_refl, if◌then◌else◌, is_none, leb, ltb, filter, All, All-map,
  Option-cases, inl, inr, first, first-least, filter-back,
}
use fullwell.Dict
use fullwell.Dict.{Dict, values}
use fullwell.Dict.Laws.{get-set, get-update_all}
use fullwell.Messaging.Types.{
  Instant, leased, is_queued, is_leased, response_ready, MessageEnvelopeRecord,
  MessageQueueCapacity, RunnerDeviceRecord,
}
use fullwell.Messaging.Store.{MessageStore}
use fullwell.Messaging.Claim.{
  has_lapsed, release_lapsed, is_served, recover, claimable, prepare, lease_first, claim,
}
use fullwell.Messaging.Delivery.{valid_lease, Completion, complete_lease}
use fullwell.Messaging.Invariant.{IsValid}
use fullwell.Messaging.Invariant.Steps.{prepare-IsValid, claimable-found, claim-IsValid}

-- The envelope `e` as the device gets it.
unfoldable pub with_lease :
    String → String → Instant → Instant → MessageEnvelopeRecord → MessageEnvelopeRecord
with_lease device_id lease_id now until e = record e {
  state = leased;
  lease_id = some lease_id;
  lease_device_id = some device_id;
  lease_expires_at = some until;
  attempt_count = e.attempt_count + 1;
  updated_at = now;
}

-- A successful claim takes the front of the claimable envelopes.
pub record IsClaimed (device_id lease_id : String) (now until : Instant) (p : MessageStore)
    (e : MessageEnvelopeRecord) (t : MessageStore) : Type 0 where
  pub front : MessageEnvelopeRecord
  pub at_front : first (claimable device_id p) ≡ some front
  pub unexpired : leb front.expires_at now ≡ false
  pub attempts : leb 20 front.attempt_count ≡ false
  pub lease : e ≡ with_lease device_id lease_id now until front
  pub after : t.envelopes ≡ Dict.set p.envelopes front.id e

lease_first_lem :
    (device_id : String) (d : RunnerDeviceRecord) (lease_id : String) (now until : Instant)
    (p : MessageStore) (e : MessageEnvelopeRecord)
    → (lease_first device_id d lease_id now until p).0 ≡ some e
    → IsClaimed device_id lease_id now until p e (lease_first device_id d lease_id now until p).1
unfolding lease_first with_lease
lease_first_lem device_id d lease_id now until p e h =
    elim (Option-cases (first (claimable device_id p))) [
      | inl empty ↦ absurd (ground arith)
      | inr (front, at) ↦ record {
        front = front;
        at_front = at;
        unexpired = ground arith;
        attempts = ground arith;
        lease = ground arith;
        after = ground arith;
      }
    ]

-- `claim` leases only to an unrevoked device.
pub claim_lem :
    (device_id lease_id : String) (now until : Instant) (again : Bool) (s : MessageStore)
    (e : MessageEnvelopeRecord)
    → (claim device_id lease_id now until again s).0 ≡ some e
    → (d : RunnerDeviceRecord) × (Dict.get s.devices device_id ≡ some d)
      × (d.revoked_at ≡ none)
      × IsClaimed device_id lease_id now until
          (prepare device_id now again s)
          e
          (claim device_id lease_id now until again s).1
unfolding claim
claim_lem device_id lease_id now until again s e h =
    elim (Option-cases (Dict.get s.devices device_id)) [
      | inl absent ↦ absurd (ground arith)
      | inr (d, at) ↦
          let current : not (is_none d.revoked_at) ≡ false = ground arith in
          (
            d,
            at,
            ground arith,
            rw (at, claim, current)
                (lease_first_lem device_id d lease_id now until (prepare device_id now again s) e
                  (rw (at, claim, current) at h)),
          )
    ]

-- What the device gets from `claim`. The counter of attempts is not that of all leases so far, since
-- a claim with `recoverSaturated` may start it anew.
pub record IsLease (device_id lease_id : String) (now until : Instant) (s : MessageStore)
    (e : MessageEnvelopeRecord) (t : MessageStore) : Type 0 where
  pub stored : Dict.get t.envelopes e.id ≡ some e
  pub state : is_leased e.state ≡ true
  pub lease : e.lease_id ≡ some lease_id
  pub holder : e.lease_device_id ≡ some device_id
  pub expiry : e.lease_expires_at ≡ some until
  pub unexpired : now < e.expires_at
  pub attempts : e.attempt_count ≤ 20
  pub served : is_served s device_id e ≡ true
  pub oldest :
      All
        (λ o.
          is_queued o.state ≡ true → is_served s device_id o ≡ true → e.received_at ≤ o.received_at)
        (values s.envelopes)

is_served-prepare :
    (device_id : String) (now : Instant) (again : Bool) (s : MessageStore)
    (e : MessageEnvelopeRecord)
    → is_served (prepare device_id now again s) device_id e ≡ is_served s device_id e
unfolding is_served prepare
is_served-prepare device_id now again s e = refl

-- What holds of the envelopes after the two loops holds of their images before.
update_all-back {κ} :
    (P : MessageEnvelopeRecord → Type κ) (f : MessageEnvelopeRecord → MessageEnvelopeRecord)
    (m : Dict MessageEnvelopeRecord)
    → All P (values (Dict.update_all f m))
    → All (λ e. P (f e)) (values m)
unfolding Dict.update_all
update_all-back P f [] h = tt
update_all-back P f ((k, e) ∷ m) (p, h) = (p, update_all-back P f m h)

prepare-back {κ} :
    (P : MessageEnvelopeRecord → Type κ) (device_id : String) (now : Instant) (again : Bool)
    (s : MessageStore)
    → All P (values (prepare device_id now again s).envelopes)
    → All
        (λ e. P (
          if again
          then recover s device_id now (release_lapsed device_id now e)
          else release_lapsed device_id now e))
        (values s.envelopes)
unfolding prepare
prepare-back P device_id now false s h =
    update_all-back P (release_lapsed device_id now) s.envelopes h
prepare-back P device_id now true s h =
    update_all-back (λ e. P (recover s device_id now e)) (release_lapsed device_id now) s.envelopes
      (update_all-back P (recover s device_id now)
        (Dict.update_all (release_lapsed device_id now) s.envelopes) h)

-- A queued envelope of the device stays as claimable as it was, with its time of receipt.
prepared-claimable :
    (device_id : String) (now : Instant) (again : Bool) (s : MessageStore)
    (o : MessageEnvelopeRecord) (at : Instant)
    → (is_queued
            (if again
              then recover s device_id now (release_lapsed device_id now o)
              else release_lapsed device_id now o).state
          ≡ true
        → is_served s device_id (
            if again
            then recover s device_id now (release_lapsed device_id now o)
            else release_lapsed device_id now o)
          ≡ true
        → at
          ≤ (if again
              then recover s device_id now (release_lapsed device_id now o)
              else release_lapsed device_id now o).received_at)
    → is_queued o.state ≡ true
    → is_served s device_id o ≡ true
    → at ≤ o.received_at
unfolding recover release_lapsed is_served
prepared-claimable device_id now again s o at h is_next serves = ground arith

-- The front of the claimable envelopes is the oldest of them.
front_oldest :
    (device_id : String) (p : MessageStore) (front e : MessageEnvelopeRecord)
    → first (claimable device_id p) ≡ some front
    → e.received_at ≡ front.received_at
    → All
        (λ o.
          is_queued o.state ≡ true → is_served p device_id o ≡ true → e.received_at ≤ o.received_at)
        (values p.envelopes)
unfolding claimable
front_oldest device_id p front e at same = rw same (
    filter-back (λ o. is_served p device_id o ≡ true → front.received_at ≤ o.received_at)
      (λ o. is_queued o.state) (values p.envelopes)
      (filter-back (λ o. front.received_at ≤ o.received_at) (is_served p device_id) _
        (first-least (λ o. o.received_at)
          (filter (is_served p device_id) (filter (λ o. is_queued o.state) (values p.envelopes)))
          front at)))

-- In a store whose envelopes are valid, a successful claim stores a lease of the right device,
-- with the given identifier and expiry, on an envelope of a confirmed link of the device that has
-- not expired and whose counter of attempts, this one counted, is at most twenty; no envelope that
-- was queued for the device is older.
pub claim-IsLease :
    (c : MessageQueueCapacity) (device_id lease_id : String) (now until : Instant) (again : Bool)
    (s : MessageStore) (e : MessageEnvelopeRecord)
    → IsValid c s.envelopes
    → (claim device_id lease_id now until again s).0 ≡ some e
    → IsLease device_id lease_id now until s e (claim device_id lease_id now until again s).1
unfolding with_lease is_served prepare
claim-IsLease c device_id lease_id now until again s e v h =
    let (d, at, current, x) = claim_lem device_id lease_id now until again s e h in
    let p : MessageStore = prepare device_id now again s in
    let found =
      claimable-found c device_id p x.front (prepare-IsValid c device_id now again s v)
        x.at_front in
    record {
      stored = ground (
        arith,
        x.after,
        x.lease,
        eq_refl x.front.id,
        get-set p.envelopes x.front.id x.front.id e,
      );
      state = ground (arith, x.lease);
      lease = ground (arith, x.lease);
      holder = ground (arith, x.lease);
      expiry = ground (arith, x.lease);
      unexpired = ground (arith, x.lease, x.unexpired);
      attempts = ground (arith, x.lease, x.attempts);
      served = ground (arith, x.lease, found.2, is_served-prepare device_id now again s x.front);
      oldest =
          All-map _ _ (values s.envelopes)
            (λ o. prepared-claimable device_id now again s o e.received_at)
            (prepare-back
              (λ o.
                is_queued o.state ≡ true
                → is_served s device_id o ≡ true
                → e.received_at ≤ o.received_at)
              device_id now again s
              (front_oldest device_id p x.front e x.at_front (ap (λ y. y.received_at) x.lease)));
    }

-- Two loops of `claim` leave an envelope alone whose lease has not lapsed.
get-prepare :
    (device_id : String) (now : Instant) (again : Bool) (s : MessageStore) (id : String)
    (e : MessageEnvelopeRecord)
    → Dict.get s.envelopes id ≡ some e
    → is_leased e.state ≡ true
    → has_lapsed e.lease_expires_at now ≡ false
    → Dict.get (prepare device_id now again s).envelopes id ≡ some e
unfolding prepare release_lapsed recover
get-prepare device_id now again s id e at lent current = ground (
  arith,
  get-update_all (release_lapsed device_id now) s.envelopes id,
  get-update_all (recover s device_id now)
      (Dict.update_all (release_lapsed device_id now) s.envelopes) id,
)

-- Leases exclude each other: in a store whose envelopes are valid, until the lease of a claim
-- expires, the next claim, by that device or another, does not get the same envelope.
pub claim_exclusive :
    (c : MessageQueueCapacity) (device_id lease_id : String) (now until : Instant) (again : Bool)
    (s : MessageStore) (e : MessageEnvelopeRecord)
    → IsValid c s.envelopes
    → (claim device_id lease_id now until again s).0 ≡ some e
    → (device_id' lease_id' : String) (now' until' : Instant) (again' : Bool)
      (e' : MessageEnvelopeRecord)
    → now' < until
    → (claim device_id' lease_id' now' until' again'
        (claim device_id lease_id now until again s).1).0
      ≡ some e'
    → e'.id ≢ e.id
unfolding with_lease
claim_exclusive c device_id lease_id now until again s e v h device_id' lease_id' now' until' again'
      e' early h' same =
    let t : MessageStore = (claim device_id lease_id now until again s).1 in
    let lease = claim-IsLease c device_id lease_id now until again s e v h in
    let v' = claim-IsValid c device_id lease_id now until again s v in
    let (d, at, current, x) = claim_lem device_id' lease_id' now' until' again' t e' h' in
    let p : MessageStore = prepare device_id' now' again' t in
    let found =
      claimable-found c device_id' p x.front (prepare-IsValid c device_id' now' again' t v')
        x.at_front in
    let kept =
      get-prepare device_id' now' again' t e.id e lease.stored lease.state
        (ground (arith, lease.expiry)) in
    let id : x.front.id ≡ e.id = ap (λ (y : MessageEnvelopeRecord). y.id) (sym x.lease) ∙ same in
    let front : x.front ≡ e = cc (found.0, kept, id) in ground (arith, found.1, lease.state, front)

-- The envelope `e` with the response of its device.
unfoldable pub with_response : Completion → MessageEnvelopeRecord → MessageEnvelopeRecord
with_response i e = record e {
  state = response_ready;
  response_ciphertext = some i.response_ciphertext;
  host_session_ciphertext = i.host_session_ciphertext;
  terminal_kind = some i.terminal_kind;
  lease_id = none;
  lease_device_id = none;
  lease_expires_at = none;
  updated_at = i.now;
}

-- Directly after a claim in a store whose envelopes are valid, a completion of the envelope is
-- accepted if and only if it comes from the device of the claim, with its lease, before the lease
-- expires. If not, it changes nothing.
pub complete_lease-claim :
    (c : MessageQueueCapacity) (device_id lease_id : String) (now until : Instant) (again : Bool)
    (s : MessageStore) (e : MessageEnvelopeRecord)
    → IsValid c s.envelopes
    → (claim device_id lease_id now until again s).0 ≡ some e
    → (i : Completion) → i.envelope_id ≡ e.id
    → let t = (claim device_id lease_id now until again s).1 in
      complete_lease i t ≡ (
        if i.device_id == device_id && i.lease_id == lease_id && ltb i.now until
        then (
          some (with_response i e),
          record t { envelopes = Dict.set t.envelopes e.id (with_response i e) },
        )
        else (none, t))
unfolding complete_lease valid_lease with_response
complete_lease-claim c device_id lease_id now until again s e v h i same =
    let lease = claim-IsLease c device_id lease_id now until again s e v h in
    ground (
      arith,
      lease.stored,
      lease.state,
      lease.expiry,
      lease.holder,
      lease.lease,
      same,
      eq_iff i.device_id device_id,
      eq_iff device_id i.device_id,
      eq_iff i.lease_id lease_id,
      eq_iff lease_id i.lease_id,
    )

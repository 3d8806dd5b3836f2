-- ===== src/Messaging/Invariant/Steps.antt =====
-- Each operation of the queue keeps the envelopes valid.
use fullwell.Prelude.{
  ◌≤◌, String, ◌≡◌, refl, Bool, true, false, not, ◌&&◌, ◌||◌, some, List, [], ◌∷◌, arith, eq_iff,
  if◌then◌else◌, is_none, leb, filter, find, length, All, Bool-cases, Option-cases, inl, inr,
  find-All, find_holds, filter_holds, filter-All, sort_by-All, first, first-All,
}
use fullwell.Dict
use fullwell.Dict.{Dict, values}
use fullwell.Dict.Laws.{values-set-All}
use fullwell.Dict.Indexed.{IsIndexed, set-IsIndexed, values-found}
use fullwell.Dict.Count.{count, count-set-le, count-set_out}
use fullwell.Messaging.Types.{
  Instant, is_queued, is_awaiting_user, MessageEnvelopeRecord, MessageQueueCapacity,
  RunnerDeviceRecord,
}
use fullwell.Messaging.Store.{MessageStore}
use fullwell.Messaging.Queue.{
  is_open, is_of_link, open_envelopes, resume_with, is_full, enqueue_new, enqueue_or_resume,
}
use fullwell.Messaging.Claim.{
  release_lapsed, is_served, recover, claimable, prepare, lease_first, claim,
}
use fullwell.Messaging.Invariant.{
  is_sound, envelope_id, is_open_of, IsValid, Follows, set-IsValid, update_all-IsValid,
}

-- A value of the map is found under its identifier.
find-found :
    (p : MessageEnvelopeRecord → Bool) (m : Dict MessageEnvelopeRecord) (e : MessageEnvelopeRecord)
    → IsIndexed envelope_id m
    → find p (values m) ≡ some e
    → Dict.get m e.id ≡ some e
find-found p m e h found =
    find-All (λ v. Dict.get m (envelope_id v) ≡ some v) p (values m) e
      (values-found envelope_id m h) found

length-filter-filter :
    (link_id : String) (es : List MessageEnvelopeRecord)
    → length (filter (is_of_link link_id) (filter is_open es))
      ≡ length (filter (is_open_of link_id) es)
unfolding filter
length-filter-filter link_id [] = refl
length-filter-filter link_id (e ∷ es) = ground (arith, length-filter-filter link_id es)

module _ (c : MessageQueueCapacity) where
  -- A queue that is not full takes one more envelope.
  enqueue_new-IsValid :
      (input : MessageEnvelopeRecord) (s : MessageStore)
      → is_sound input ≡ true
      → IsValid c s.envelopes
      → IsValid c (enqueue_new input c s).1.envelopes
  unfolding enqueue_new is_full open_envelopes
  enqueue_new-IsValid input s sound v = elim (Bool-cases (is_full c input.provider_link_id s)) [
    | inl full ↦ rw (full, enqueue_new) v
    | inr free ↦
        rw (free, enqueue_new)
          (record {
            sound =
                values-set-All (λ e. is_sound e ≡ true) s.envelopes input.id input v.sound sound;
            indexed = set-IsIndexed envelope_id s.envelopes input.id input v.indexed refl;
            room = ground (arith, count-set-le is_open s.envelopes input.id input);
            link_room = λ link_id. link_room link_id free;
          })
  ]
    where
      link_room :
          (link_id : String)
          → is_full c input.provider_link_id s ≡ false
          → count (is_open_of link_id) (Dict.set s.envelopes input.id input) ≤ c.per_link
      link_room link_id free = elim (Bool-cases (is_open_of link_id input)) [
        | inl own ↦ ground (
          arith,
          eq_iff input.provider_link_id link_id,
          count-set-le (is_open_of link_id) s.envelopes input.id input,
          length-filter-filter link_id (values s.envelopes),
        )
        | inr other ↦ omega (
          arith,
          count-set_out (is_open_of link_id) s.envelopes input.id input other,
          v.link_room link_id,
        )
      ]

  resume_with-Follows :
      (input e : MessageEnvelopeRecord) (now : Instant)
      → is_awaiting_user e.state ≡ true
      → is_sound e ≡ true
      → Follows e (resume_with input now e)
  resume_with-Follows input e now awaiting sound = record {
    id = refl;
    link = refl;
    opened = λ h. ground arith;
    sound = ground arith;
  }

  -- The intake of a sound envelope keeps the envelopes valid, whether it is new, resumes a
  -- conversation, is a duplicate or finds the queue full.
  pub enqueue_or_resume-IsValid :
      (input : MessageEnvelopeRecord) (now : Instant) (s : MessageStore)
      → is_sound input ≡ true
      → IsValid c s.envelopes
      → IsValid c (enqueue_or_resume input now c s).1.envelopes
  unfolding enqueue_or_resume
  enqueue_or_resume-IsValid input now s sound v =
      elim (Option-cases (Dict.get s.provider_events input.provider_message_hash)) [
        | inr (id, seen) ↦
            rw (seen, enqueue_or_resume)
              (elim (Option-cases (Dict.get s.envelopes id)) [
                | inl absent ↦ rw absent v
                | inr (e, at) ↦ rw at v
              ])
        | inl new ↦
            rw (new, enqueue_or_resume)
              (elim (Option-cases (
                find (λ e. is_of_link input.provider_link_id e && is_awaiting_user e.state)
                  (values s.envelopes))) [
                    | inl none_pending ↦ rw none_pending (enqueue_new-IsValid input s sound v)
                    | inr (e, pending) ↦ rw pending (
                        set-IsValid c s.envelopes e.id e (resume_with input now e) v
                          (find-found _ s.envelopes e v.indexed pending) refl
                          (resume_with-Follows input e now (awaiting e pending) (
                            find-All (λ e. is_sound e ≡ true) _ (values s.envelopes) e v.sound
                              pending)))
                  ])
      ]
    where
      awaiting :
          (e : MessageEnvelopeRecord)
          → find
              (λ e. is_of_link input.provider_link_id e && is_awaiting_user e.state)
              (values s.envelopes)
            ≡ some e
          → is_awaiting_user e.state ≡ true
      awaiting e pending = ground (
        arith,
        find_holds (λ e. is_of_link input.provider_link_id e && is_awaiting_user e.state)
            (values s.envelopes) e pending,
      )

  release_lapsed_sound :
      (device_id : String) (now : Instant) (e : MessageEnvelopeRecord)
      → is_sound e ≡ true
      → is_sound (release_lapsed device_id now e) ≡ true
  unfolding release_lapsed
  release_lapsed_sound device_id now e h = ground arith

  is_open-release_lapsed :
      (device_id : String) (now : Instant) (e : MessageEnvelopeRecord)
      → is_open (release_lapsed device_id now e) ≡ is_open e
  unfolding release_lapsed
  is_open-release_lapsed device_id now e = ground arith

  id-release_lapsed :
      (device_id : String) (now : Instant) (e : MessageEnvelopeRecord)
      → (release_lapsed device_id now e).id ≡ e.id
  unfolding release_lapsed
  id-release_lapsed device_id now e = ground arith

  link-release_lapsed :
      (device_id : String) (now : Instant) (e : MessageEnvelopeRecord)
      → (release_lapsed device_id now e).provider_link_id ≡ e.provider_link_id
  unfolding release_lapsed
  link-release_lapsed device_id now e = ground arith

  id-recover :
      (s : MessageStore) (device_id : String) (now : Instant) (e : MessageEnvelopeRecord)
      → (recover s device_id now e).id ≡ e.id
  unfolding recover
  id-recover s device_id now e = ground arith

  link-recover :
      (s : MessageStore) (device_id : String) (now : Instant) (e : MessageEnvelopeRecord)
      → (recover s device_id now e).provider_link_id ≡ e.provider_link_id
  unfolding recover
  link-recover s device_id now e = ground arith

  recover_sound :
      (s : MessageStore) (device_id : String) (now : Instant) (e : MessageEnvelopeRecord)
      → is_sound e ≡ true
      → is_sound (recover s device_id now e) ≡ true
  unfolding recover
  recover_sound s device_id now e h = ground arith

  is_open-recover :
      (s : MessageStore) (device_id : String) (now : Instant) (e : MessageEnvelopeRecord)
      → is_open (recover s device_id now e) ≡ is_open e
  unfolding recover
  is_open-recover s device_id now e = ground arith

  pub prepare-IsValid :
      (device_id : String) (now : Instant) (again : Bool) (s : MessageStore)
      → IsValid c s.envelopes
      → IsValid c (prepare device_id now again s).envelopes
  unfolding prepare
  prepare-IsValid device_id now again s v = recovered again
    where
      released : IsValid c (Dict.update_all (release_lapsed device_id now) s.envelopes)
      released =
          update_all-IsValid c (release_lapsed device_id now) s.envelopes v
            (release_lapsed_sound device_id now) (id-release_lapsed device_id now)
            (link-release_lapsed device_id now) (is_open-release_lapsed device_id now)

      recovered :
          (b : Bool)
          → IsValid c (
              if b
              then Dict.update_all
                  (recover s device_id now)
                  (Dict.update_all (release_lapsed device_id now) s.envelopes)
              else Dict.update_all (release_lapsed device_id now) s.envelopes)
      recovered false = released
      recovered true =
          update_all-IsValid c (recover s device_id now)
            (Dict.update_all (release_lapsed device_id now) s.envelopes) released
            (recover_sound s device_id now) (id-recover s device_id now)
            (link-recover s device_id now) (is_open-recover s device_id now)

  -- What is claimable is stored under its identifier, and queued.
  pub claimable-found :
      (device_id : String) (s : MessageStore) (e : MessageEnvelopeRecord)
      → IsValid c s.envelopes
      → first (claimable device_id s) ≡ some e
      → (Dict.get s.envelopes e.id ≡ some e)
        × (is_queued e.state ≡ true)
        × (is_served s device_id e ≡ true)
        × (is_sound e ≡ true)
  unfolding claimable
  claimable-found device_id s e v at =
      let es = filter (λ e. is_queued e.state) (values s.envelopes) in
      let served = filter (is_served s device_id) es in
      let all_found = values-found envelope_id s.envelopes v.indexed in
      (
        kept (λ e. Dict.get s.envelopes (envelope_id e) ≡ some e) all_found,
        from_served (λ e. is_queued e.state ≡ true)
            (filter-All (λ e. is_queued e.state ≡ true) (is_served s device_id) es
              (filter_holds (λ e. is_queued e.state) (values s.envelopes))),
        from_served (λ e. is_served s device_id e ≡ true) (filter_holds (is_served s device_id) es),
        kept (λ e. is_sound e ≡ true) v.sound,
      )
    where
      from_served :
          (Q : MessageEnvelopeRecord → Type 0)
          → All Q (
              filter (is_served s device_id) (filter (λ e. is_queued e.state) (values s.envelopes)))
          → Q e
      from_served Q h =
          first-All Q (claimable device_id s) e (sort_by-All Q (λ e. e.received_at) _ h) at

      kept : (Q : MessageEnvelopeRecord → Type 0) → All Q (values s.envelopes) → Q e
      kept Q h = from_served Q (
          filter-All Q (is_served s device_id) _
            (filter-All Q (λ e. is_queued e.state) (values s.envelopes) h))

  -- `claim` keeps the envelopes valid, whether or not it finds one to lease.
  pub claim-IsValid :
      (device_id lease_id : String) (now until : Instant) (again : Bool) (s : MessageStore)
      → IsValid c s.envelopes
      → IsValid c (claim device_id lease_id now until again s).1.envelopes
  unfolding claim lease_first
  claim-IsValid device_id lease_id now until again s v =
      elim (Option-cases (Dict.get s.devices device_id)) [
        | inl absent ↦ rw (absent, claim) v
        | inr (d, at) ↦
            rw (at, claim)
              (elim (Bool-cases (not (is_none d.revoked_at))) [
                | inl revoked ↦ rw revoked v
                | inr current ↦ rw current (
                    lease_first-IsValid d (prepare device_id now again s)
                      (prepare-IsValid device_id now again s v))
              ])
      ]
    where
      lease_first-IsValid :
          (d : RunnerDeviceRecord) (s' : MessageStore)
          → IsValid c s'.envelopes
          → IsValid c (lease_first device_id d lease_id now until s').1.envelopes
      lease_first-IsValid d s' w = elim (Option-cases (first (claimable device_id s'))) [
        | inl empty ↦ rw (empty, lease_first) w
        | inr (e, at) ↦
            rw (at, lease_first)
              (elim (Bool-cases (leb e.expires_at now || leb 20 e.attempt_count)) [
                | inl unfit ↦ rw unfit w
                | inr fit ↦
                    let found = claimable-found device_id s' e w at in
                    rw fit (
                      set-IsValid c s'.envelopes e.id e _ w found.0 refl (record {
                        id = refl;
                        link = refl;
                        opened = λ h. ground (arith, found.1);
                        sound = refl;
                      }))
              ])
      ]

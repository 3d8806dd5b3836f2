-- ===== src/Messaging/Invariant/Delivery.antt =====
-- The operations on a leased envelope and the deletion of what has expired keep the envelopes
-- valid.
use fullwell.Prelude.{
  String, ◌≡◌, refl, true, not, some, List, [], ◌∷◌, arith, filter, Bool-cases, Option-cases, inl,
  inr,
}
use fullwell.Dict
use fullwell.Dict.{Dict, values}
use fullwell.Dict.Laws.{get-All, values-delete-All}
use fullwell.Dict.Indexed.{delete-IsIndexed, IsIndexed-get}
use fullwell.Dict.Count.{count-delete-le}
use fullwell.Messaging.Types.{
  Instant, is_response_ready, MessageEnvelopeRecord, MessageQueueCapacity,
}
use fullwell.Messaging.Store.{MessageStore}
use fullwell.Messaging.Queue.{is_open}
use fullwell.Messaging.Delivery.{
  valid_lease, heartbeat, Completion, complete_lease, mark_response_sent,
}
use fullwell.Messaging.Receipts.{delete_envelope, delete_envelopes, delete_expired, is_expired}
use fullwell.Messaging.Invariant.{is_sound, envelope_id, is_open_of, IsValid, set-IsValid}

module _ (c : MessageQueueCapacity) where
  -- What is found under a key is sound and has the key as its identifier.
  pub found-IsValid :
      (m : Dict MessageEnvelopeRecord) (k : String) (e : MessageEnvelopeRecord)
      → IsValid c m
      → Dict.get m k ≡ some e
      → (is_sound e ≡ true) × (e.id ≡ k)
  found-IsValid m k e v at = (
    get-All (λ e. is_sound e ≡ true) m k e v.sound at,
    IsIndexed-get envelope_id m k e v.indexed at,
  )

  pub heartbeat-IsValid :
      (id device_id lease_id : String) (now until : Instant) (s : MessageStore)
      → IsValid c s.envelopes
      → IsValid c (heartbeat id device_id lease_id now until s).1.envelopes
  unfolding heartbeat
  heartbeat-IsValid id device_id lease_id now until s v =
      elim (Option-cases (Dict.get s.envelopes id)) [
        | inl absent ↦ rw (absent, heartbeat) v
        | inr (e, at) ↦
            rw (at, heartbeat)
              (elim (Bool-cases (valid_lease e device_id lease_id now)) [
                | inl holds ↦
                    let (sound, same) = found-IsValid s.envelopes id e v at in
                    rw holds (
                      set-IsValid c s.envelopes id e _ v at same
                        (record { id = refl; link = refl; opened = λ h. h; sound = ground arith }))
                | inr lost ↦ rw lost v
              ])
      ]

  pub complete_lease-IsValid :
      (i : Completion) (s : MessageStore)
      → IsValid c s.envelopes
      → IsValid c (complete_lease i s).1.envelopes
  unfolding complete_lease
  complete_lease-IsValid i s v = elim (Option-cases (Dict.get s.envelopes i.envelope_id)) [
    | inl absent ↦ rw (absent, complete_lease) v
    | inr (e, at) ↦
        rw (at, complete_lease)
          (elim (Bool-cases (valid_lease e i.device_id i.lease_id i.now)) [
            | inl holds ↦
                let (sound, same) = found-IsValid s.envelopes i.envelope_id e v at in
                rw holds (
                  set-IsValid c s.envelopes i.envelope_id e _ v at same
                    (record { id = refl; link = refl; opened = λ h. ground arith; sound = refl }))
            | inr lost ↦ rw lost v
          ])
  ]

  pub mark_response_sent-IsValid :
      (id : String) (now : Instant) (s : MessageStore)
      → IsValid c s.envelopes
      → IsValid c (mark_response_sent id now s).1.envelopes
  unfolding mark_response_sent
  mark_response_sent-IsValid id now s v = elim (Option-cases (Dict.get s.envelopes id)) [
    | inl absent ↦ rw (absent, mark_response_sent) v
    | inr (e, at) ↦
        rw (at, mark_response_sent)
          (elim (Bool-cases (not (is_response_ready e.state))) [
            | inl unready ↦ rw unready v
            | inr ready ↦ rw ready (elim (Option-cases e.terminal_kind) [
              | inl absent ↦ rw absent v
              | inr (kind, known) ↦
                  let (sound, same) = found-IsValid s.envelopes id e v at in
                  rw known (
                    set-IsValid c s.envelopes id e _ v at same (record {
                      id = refl;
                      link = refl;
                      opened = λ h. ground arith;
                      sound = ground arith;
                    }))
            ])
          ])
  ]

  delete-IsValid :
      (m : Dict MessageEnvelopeRecord) (k : String) → IsValid c m → IsValid c (Dict.delete m k)
  delete-IsValid m k v = record {
    sound = values-delete-All (λ e. is_sound e ≡ true) m k v.sound;
    indexed = delete-IsIndexed envelope_id m k v.indexed;
    room = omega (arith, count-delete-le is_open m k, v.room);
    link_room =
        λ link_id. omega (arith, count-delete-le (is_open_of link_id) m k, v.link_room link_id);
  }

  delete_envelopes-IsValid :
      (es : List MessageEnvelopeRecord) (s : MessageStore)
      → IsValid c s.envelopes
      → IsValid c (delete_envelopes es s).envelopes
  unfolding delete_envelopes delete_envelope
  delete_envelopes-IsValid [] s v = v
  delete_envelopes-IsValid (e ∷ es) s v =
      delete_envelopes-IsValid es (delete_envelope e s) (delete-IsValid s.envelopes e.id v)

  pub delete_expired-IsValid :
      (now : Instant) (s : MessageStore)
      → IsValid c s.envelopes
      → IsValid c (delete_expired now s).1.envelopes
  unfolding delete_expired
  delete_expired-IsValid now s v =
      delete_envelopes-IsValid (filter (is_expired now) (values s.envelopes)) s v

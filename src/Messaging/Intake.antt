-- ===== src/Messaging/Intake.antt =====
-- What the gateway may rely on when a provider delivers a message more than once
-- (messaging/memory-store.ts, `enqueueOrResume`).
use fullwell.Prelude.{◌≡◌, ◌&&◌, Option, none, some, arith, eq_refl, find, Option-cases, inl, inr}
use fullwell.Prelude.Exec.{Result, ok}
use fullwell.Dict
use fullwell.Dict.{Dict, values}
use fullwell.Dict.Laws.{get-set}
use fullwell.Messaging.Types.{
  Instant, MessageEnvelopeRecord, MessageQueueCapacity, EnqueueResult, created, resumed, duplicate,
  is_awaiting_user,
}
use fullwell.Messaging.Store.{MessageStore, StoreError}
use fullwell.Messaging.Queue.{is_of_link, enqueue_new, enqueue_or_resume, resume_with}

-- The envelope that an intake stored.
unfoldable pub taken_in : Result StoreError EnqueueResult → Option MessageEnvelopeRecord
taken_in (ok (created e)) = some e
taken_in (ok (resumed e)) = some e
taken_in _ = none

-- Directly after the intake of a message that was stored, as a new envelope or as the answer in a
-- pending one, another delivery of the same message is a duplicate: it reports the stored
-- envelope and changes nothing, whatever else it carries.
pub enqueue_once :
    (input : MessageEnvelopeRecord) (now : Instant) (c : MessageQueueCapacity) (s : MessageStore)
    (e : MessageEnvelopeRecord)
    → taken_in (enqueue_or_resume input now c s).0 ≡ some e
    → (again : MessageEnvelopeRecord) (now' : Instant)
    → again.provider_message_hash ≡ input.provider_message_hash
    → enqueue_or_resume again now' c (enqueue_or_resume input now c s).1
      ≡ (ok (duplicate e), (enqueue_or_resume input now c s).1)
unfolding taken_in enqueue_or_resume enqueue_new
enqueue_once input now c s e h again now' same =
    elim (Option-cases (Dict.get s.provider_events input.provider_message_hash)) [
      | inr (id, seen) ↦ elim (Option-cases (Dict.get s.envelopes id)) [
        | inl absent ↦ absurd (ground arith)
        | inr (e', at) ↦ absurd (ground arith)
      ]
      | inl new ↦
          elim (Option-cases (
            find (λ e. is_of_link input.provider_link_id e && is_awaiting_user e.state)
              (values s.envelopes))) [
                | inl none_pending ↦ ground (
                  arith,
                  same,
                  eq_refl input.id,
                  eq_refl input.provider_message_hash,
                  get-set s.provider_events input.provider_message_hash input.provider_message_hash
                      input.id,
                  get-set s.envelopes input.id input.id input,
                )
                | inr (e', pending) ↦ ground (
                  arith,
                  same,
                  eq_refl e'.id,
                  eq_refl input.provider_message_hash,
                  get-set s.provider_events input.provider_message_hash input.provider_message_hash
                      e'.id,
                  get-set s.envelopes e'.id e'.id (resume_with input now e'),
                )
              ]
    ]

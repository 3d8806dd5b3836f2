-- ===== src/Messaging/Events/Steps.antt =====
-- No call of the store separates a message that it remembers from its envelope.
use fullwell.Prelude.{
  String, ◌≡◌, true, Option, List, [], ◌∷◌, arith, ◌==◌, filter, Option-cases, inl, inr,
}
use fullwell.Prelude.Exec.{ok, Result-cases}
use fullwell.Dict
use fullwell.Dict.{Dict, values}
use fullwell.Dict.Laws.{has, has-delete, get-All, values-delete_where-All}
use fullwell.Messaging.Types.{
  Instant, MessageEnvelopeRecord, MessageQueueCapacity, EnqueueResult, RunnerDeviceRecord,
}
use fullwell.Messaging.Store.{
  MessageStore, save_device, revoke_device, save_link_challenge, consume_link_challenge,
  create_provider_link, confirm_provider_link, revoke_provider_link,
}
use fullwell.Messaging.Queue.{enqueue_new, enqueue_or_resume}
use fullwell.Messaging.Delivery.{heartbeat, complete_lease, mark_response_sent}
use fullwell.Messaging.Receipts.{
  save_delivery_receipt, update_delivery_status, delete_envelope, delete_envelopes, delete_expired,
  is_expired,
}
use fullwell.Messaging.Invariant.Reach.{
  Step, device_saved, device_revoked, challenge_saved, challenge_consumed, link_created,
  link_confirmed, link_revoked, enqueued, claimed, beat, finished, answered, receipt_saved,
  status_updated, swept, Reach, here, next,
}
use fullwell.Messaging.Types.{
  ProviderLinkChallengeRecord, ProviderIdentityLinkRecord, MessageDeliveryReceiptRecord,
  MessageDeliveryStatus,
}
use fullwell.Messaging.Invariant.Reach.{
  envelopes-save_device, envelopes-revoke_device, envelopes-save_link_challenge,
  envelopes-consume_link_challenge, envelopes-create_provider_link, envelopes-confirm_provider_link,
  envelopes-revoke_provider_link, envelopes-save_delivery_receipt, envelopes-update_delivery_status,
}
use fullwell.Messaging.Events.{
  HaveEnvelopes, Keeps-HaveEnvelopes, same_maps, heartbeat-Keeps, complete_lease-Keeps,
  mark_response_sent-Keeps, claim-HaveEnvelopes, enqueue_or_resume-HaveEnvelopes,
}

events-save_device :
    (d : RunnerDeviceRecord) (s : MessageStore)
    → (save_device d s).1.provider_events ≡ s.provider_events
unfolding save_device
events-save_device d s = ground arith

events-revoke_device :
    (user_id device_id : String) (now : Instant) (s : MessageStore)
    → (revoke_device user_id device_id now s).1.provider_events ≡ s.provider_events
unfolding revoke_device
events-revoke_device user_id device_id now s = ground arith

events-save_link_challenge :
    (l : ProviderLinkChallengeRecord) (s : MessageStore)
    → (save_link_challenge l s).provider_events ≡ s.provider_events
unfolding save_link_challenge
events-save_link_challenge l s = ground arith

events-consume_link_challenge :
    (hash : String) (now : Instant) (s : MessageStore)
    → (consume_link_challenge hash now s).1.provider_events ≡ s.provider_events
unfolding consume_link_challenge
events-consume_link_challenge hash now s = ground arith

events-create_provider_link :
    (l : ProviderIdentityLinkRecord) (s : MessageStore)
    → (create_provider_link l s).1.provider_events ≡ s.provider_events
unfolding create_provider_link
events-create_provider_link l s = ground arith

events-confirm_provider_link :
    (user_id link_id binding : String) (now : Instant) (s : MessageStore)
    → (confirm_provider_link user_id link_id binding now s).1.provider_events ≡ s.provider_events
unfolding confirm_provider_link
events-confirm_provider_link user_id link_id binding now s = ground arith

events-revoke_provider_link :
    (user_id : String) (now : Instant) (s : MessageStore)
    → (revoke_provider_link user_id now s).1.provider_events ≡ s.provider_events
unfolding revoke_provider_link
events-revoke_provider_link user_id now s = ground arith

events-save_delivery_receipt :
    (r : MessageDeliveryReceiptRecord) (s : MessageStore)
    → (save_delivery_receipt r s).provider_events ≡ s.provider_events
unfolding save_delivery_receipt
events-save_delivery_receipt r s = ground arith

events-update_delivery_status :
    (hash : String) (status : MessageDeliveryStatus) (at : Instant) (failure : Option String)
    (s : MessageStore)
    → (update_delivery_status hash status at failure s).1.provider_events ≡ s.provider_events
unfolding update_delivery_status
events-update_delivery_status hash status at failure s = ground arith

-- An envelope goes with its messages.
delete_envelopes-HaveEnvelopes :
    (es : List MessageEnvelopeRecord) (s : MessageStore)
    → HaveEnvelopes s
    → HaveEnvelopes (delete_envelopes es s)
unfolding delete_envelopes delete_envelope
delete_envelopes-HaveEnvelopes [] s h = h
delete_envelopes-HaveEnvelopes (e ∷ es) s h =
    delete_envelopes-HaveEnvelopes es (delete_envelope e s) (
      values-delete_where-All _ _ (λ id. id == e.id) s.provider_events
        (λ id ne present. has-delete s.envelopes e.id id ne present) h)

delete_expired-HaveEnvelopes :
    (now : Instant) (s : MessageStore) → HaveEnvelopes s → HaveEnvelopes (delete_expired now s).1
unfolding delete_expired
delete_expired-HaveEnvelopes now s h =
    delete_envelopes-HaveEnvelopes (filter (is_expired now) (values s.envelopes)) s h

module _ (c : MessageQueueCapacity) where
  Step-HaveEnvelopes : {s t : MessageStore} → Step c s t → HaveEnvelopes s → HaveEnvelopes t
  Step-HaveEnvelopes (device_saved d s) h =
      Keeps-HaveEnvelopes s ((save_device d s).1)
        (same_maps s ((save_device d s).1) (events-save_device d s) (envelopes-save_device d s)) h
  Step-HaveEnvelopes (device_revoked user_id device_id now s) h =
      Keeps-HaveEnvelopes s ((revoke_device user_id device_id now s).1)
        (same_maps s ((revoke_device user_id device_id now s).1)
          (events-revoke_device user_id device_id now s)
          (envelopes-revoke_device user_id device_id now s))
        h
  Step-HaveEnvelopes (challenge_saved l s) h =
      Keeps-HaveEnvelopes s ((save_link_challenge l s))
        (same_maps s ((save_link_challenge l s)) (events-save_link_challenge l s)
          (envelopes-save_link_challenge l s))
        h
  Step-HaveEnvelopes (challenge_consumed hash now s) h =
      Keeps-HaveEnvelopes s ((consume_link_challenge hash now s).1)
        (same_maps s ((consume_link_challenge hash now s).1)
          (events-consume_link_challenge hash now s) (envelopes-consume_link_challenge hash now s))
        h
  Step-HaveEnvelopes (link_created l s) h =
      Keeps-HaveEnvelopes s ((create_provider_link l s).1)
        (same_maps s ((create_provider_link l s).1) (events-create_provider_link l s)
          (envelopes-create_provider_link l s))
        h
  Step-HaveEnvelopes (link_confirmed user_id link_id binding now s) h =
      Keeps-HaveEnvelopes s ((confirm_provider_link user_id link_id binding now s).1)
        (same_maps s ((confirm_provider_link user_id link_id binding now s).1)
          (events-confirm_provider_link user_id link_id binding now s)
          (envelopes-confirm_provider_link user_id link_id binding now s))
        h
  Step-HaveEnvelopes (link_revoked user_id now s) h =
      Keeps-HaveEnvelopes s ((revoke_provider_link user_id now s).1)
        (same_maps s ((revoke_provider_link user_id now s).1)
          (events-revoke_provider_link user_id now s)
          (envelopes-revoke_provider_link user_id now s))
        h
  Step-HaveEnvelopes (receipt_saved r s) h =
      Keeps-HaveEnvelopes s ((save_delivery_receipt r s))
        (same_maps s ((save_delivery_receipt r s)) (events-save_delivery_receipt r s)
          (envelopes-save_delivery_receipt r s))
        h
  Step-HaveEnvelopes (status_updated hash status at failure s) h =
      Keeps-HaveEnvelopes s ((update_delivery_status hash status at failure s).1)
        (same_maps s ((update_delivery_status hash status at failure s).1)
          (events-update_delivery_status hash status at failure s)
          (envelopes-update_delivery_status hash status at failure s))
        h
  Step-HaveEnvelopes (enqueued input now s sound) h =
      enqueue_or_resume-HaveEnvelopes input now c s h
  Step-HaveEnvelopes (claimed device_id lease_id now until again s) h =
      claim-HaveEnvelopes device_id lease_id now until again s h
  Step-HaveEnvelopes (beat id device_id lease_id now until s) h =
      Keeps-HaveEnvelopes s (heartbeat id device_id lease_id now until s).1
        (heartbeat-Keeps id device_id lease_id now until s) h
  Step-HaveEnvelopes (finished i s) h =
      Keeps-HaveEnvelopes s (complete_lease i s).1 (complete_lease-Keeps i s) h
  Step-HaveEnvelopes (answered id now s) h =
      Keeps-HaveEnvelopes s (mark_response_sent id now s).1 (mark_response_sent-Keeps id now s) h
  Step-HaveEnvelopes (swept now s) h = delete_expired-HaveEnvelopes now s h

  Reach-HaveEnvelopes : {s t : MessageStore} → Reach c s t → HaveEnvelopes s → HaveEnvelopes t
  Reach-HaveEnvelopes here h = h
  Reach-HaveEnvelopes (next r step) h = Step-HaveEnvelopes step (Reach-HaveEnvelopes r h)

  -- An intake does not throw: after any sequence of calls on a store whose remembered messages all
  -- have their envelopes, as in an empty store, `enqueueOrResume` returns a result.
  pub enqueue_returns :
      {s t : MessageStore}
      → Reach c s t
      → HaveEnvelopes s
      → (input : MessageEnvelopeRecord) (now : Instant)
      → (result : EnqueueResult) × ((enqueue_or_resume input now c t).0 ≡ ok result)
  unfolding enqueue_or_resume enqueue_new
  enqueue_returns {t = t} r h input now =
      let events = Reach-HaveEnvelopes r h in
      elim (Result-cases (enqueue_or_resume input now c t).0) [
        | inr returned ↦ returned
        | inl (error, failed) ↦
            absurd (elim (Option-cases (Dict.get t.provider_events input.provider_message_hash)) [
              | inr (id, seen) ↦ ground (
                arith,
                get-All (λ id. has t.envelopes id ≡ true) t.provider_events
                    input.provider_message_hash id events seen,
              )
              | inl new ↦ ground arith
            ])
      ]

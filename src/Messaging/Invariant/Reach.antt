-- ===== src/Messaging/Invariant/Reach.antt =====
-- Any sequence of calls of the envelope store, by however many devices, keeps the envelopes valid.
use fullwell.Prelude.{String, ◌≡◌, Bool, true, Option, arith}
use fullwell.Dict.{Dict}
use fullwell.Messaging.Types.{
  Instant, MessageEnvelopeRecord, MessageQueueCapacity, RunnerDeviceRecord,
  ProviderLinkChallengeRecord, ProviderIdentityLinkRecord, MessageDeliveryReceiptRecord,
  MessageDeliveryStatus,
}
use fullwell.Messaging.Store.{
  MessageStore, save_device, revoke_device, save_link_challenge, consume_link_challenge,
  create_provider_link, confirm_provider_link, revoke_provider_link,
}
use fullwell.Messaging.Queue.{enqueue_or_resume}
use fullwell.Messaging.Claim.{claim}
use fullwell.Messaging.Delivery.{heartbeat, Completion, complete_lease, mark_response_sent}
use fullwell.Messaging.Receipts.{save_delivery_receipt, update_delivery_status, delete_expired}
use fullwell.Messaging.Invariant.{IsValid, is_sound}
use fullwell.Messaging.Invariant.Steps.{enqueue_or_resume-IsValid, claim-IsValid}
use fullwell.Messaging.Invariant.Delivery.{
  heartbeat-IsValid, complete_lease-IsValid, mark_response_sent-IsValid, delete_expired-IsValid,
}

-- The service passes the same capacity on each intake, and a sound envelope.
pub data Step (c : MessageQueueCapacity) : MessageStore → MessageStore → Type 0 where
  device_saved : (d : RunnerDeviceRecord) (s : MessageStore) → Step c s (save_device d s).1
  device_revoked :
      (user_id device_id : String) (now : Instant) (s : MessageStore)
      → Step c s (revoke_device user_id device_id now s).1
  challenge_saved :
      (l : ProviderLinkChallengeRecord) (s : MessageStore) → Step c s (save_link_challenge l s)
  challenge_consumed :
      (hash : String) (now : Instant) (s : MessageStore)
      → Step c s (consume_link_challenge hash now s).1
  link_created :
      (l : ProviderIdentityLinkRecord) (s : MessageStore) → Step c s (create_provider_link l s).1
  link_confirmed :
      (user_id link_id binding : String) (now : Instant) (s : MessageStore)
      → Step c s (confirm_provider_link user_id link_id binding now s).1
  link_revoked :
      (user_id : String) (now : Instant) (s : MessageStore)
      → Step c s (revoke_provider_link user_id now s).1
  enqueued :
      (input : MessageEnvelopeRecord) (now : Instant) (s : MessageStore)
      → is_sound input ≡ true
      → Step c s (enqueue_or_resume input now c s).1
  claimed :
      (device_id lease_id : String) (now until : Instant) (again : Bool) (s : MessageStore)
      → Step c s (claim device_id lease_id now until again s).1
  beat :
      (id device_id lease_id : String) (now until : Instant) (s : MessageStore)
      → Step c s (heartbeat id device_id lease_id now until s).1
  finished : (i : Completion) (s : MessageStore) → Step c s (complete_lease i s).1
  answered :
      (id : String) (now : Instant) (s : MessageStore) → Step c s (mark_response_sent id now s).1
  receipt_saved :
      (r : MessageDeliveryReceiptRecord) (s : MessageStore) → Step c s (save_delivery_receipt r s)
  status_updated :
      (hash : String) (status : MessageDeliveryStatus) (at : Instant) (failure : Option String)
      (s : MessageStore)
      → Step c s (update_delivery_status hash status at failure s).1
  swept : (now : Instant) (s : MessageStore) → Step c s (delete_expired now s).1

pub data Reach (c : MessageQueueCapacity) (s : MessageStore) : MessageStore → Type 0 where
  here : Reach c s s
  next : {t u : MessageStore} → Reach c s t → Step c t u → Reach c s u

-- The operations on devices, links, challenges and receipts leave the envelopes alone.
pub envelopes-save_device :
    (d : RunnerDeviceRecord) (s : MessageStore) → (save_device d s).1.envelopes ≡ s.envelopes
unfolding save_device
envelopes-save_device d s = ground arith

pub envelopes-revoke_device :
    (user_id device_id : String) (now : Instant) (s : MessageStore)
    → (revoke_device user_id device_id now s).1.envelopes ≡ s.envelopes
unfolding revoke_device
envelopes-revoke_device user_id device_id now s = ground arith

pub envelopes-save_link_challenge :
    (l : ProviderLinkChallengeRecord) (s : MessageStore)
    → (save_link_challenge l s).envelopes ≡ s.envelopes
unfolding save_link_challenge
envelopes-save_link_challenge l s = ground arith

pub envelopes-consume_link_challenge :
    (hash : String) (now : Instant) (s : MessageStore)
    → (consume_link_challenge hash now s).1.envelopes ≡ s.envelopes
unfolding consume_link_challenge
envelopes-consume_link_challenge hash now s = ground arith

pub envelopes-create_provider_link :
    (l : ProviderIdentityLinkRecord) (s : MessageStore)
    → (create_provider_link l s).1.envelopes ≡ s.envelopes
unfolding create_provider_link
envelopes-create_provider_link l s = ground arith

pub envelopes-confirm_provider_link :
    (user_id link_id binding : String) (now : Instant) (s : MessageStore)
    → (confirm_provider_link user_id link_id binding now s).1.envelopes ≡ s.envelopes
unfolding confirm_provider_link
envelopes-confirm_provider_link user_id link_id binding now s = ground arith

pub envelopes-revoke_provider_link :
    (user_id : String) (now : Instant) (s : MessageStore)
    → (revoke_provider_link user_id now s).1.envelopes ≡ s.envelopes
unfolding revoke_provider_link
envelopes-revoke_provider_link user_id now s = ground arith

pub envelopes-save_delivery_receipt :
    (r : MessageDeliveryReceiptRecord) (s : MessageStore)
    → (save_delivery_receipt r s).envelopes ≡ s.envelopes
unfolding save_delivery_receipt
envelopes-save_delivery_receipt r s = ground arith

pub envelopes-update_delivery_status :
    (hash : String) (status : MessageDeliveryStatus) (at : Instant) (failure : Option String)
    (s : MessageStore)
    → (update_delivery_status hash status at failure s).1.envelopes ≡ s.envelopes
unfolding update_delivery_status
envelopes-update_delivery_status hash status at failure s = ground arith

moved :
    {c : MessageQueueCapacity} {m m' : Dict MessageEnvelopeRecord}
    → m' ≡ m
    → IsValid c m
    → IsValid c m'
moved same v = rw same v

module _ (c : MessageQueueCapacity) where
  -- A step keeps the envelopes valid.
  pub Step-IsValid :
      {s t : MessageStore} → Step c s t → IsValid c s.envelopes → IsValid c t.envelopes
  Step-IsValid (device_saved d s) v = moved (envelopes-save_device d s) v
  Step-IsValid (device_revoked user_id device_id now s) v =
      moved (envelopes-revoke_device user_id device_id now s) v
  Step-IsValid (challenge_saved l s) v = moved (envelopes-save_link_challenge l s) v
  Step-IsValid (challenge_consumed hash now s) v =
      moved (envelopes-consume_link_challenge hash now s) v
  Step-IsValid (link_created l s) v = moved (envelopes-create_provider_link l s) v
  Step-IsValid (link_confirmed user_id link_id binding now s) v =
      moved (envelopes-confirm_provider_link user_id link_id binding now s) v
  Step-IsValid (link_revoked user_id now s) v =
      moved (envelopes-revoke_provider_link user_id now s) v
  Step-IsValid (enqueued input now s sound) v = enqueue_or_resume-IsValid c input now s sound v
  Step-IsValid (claimed device_id lease_id now until again s) v =
      claim-IsValid c device_id lease_id now until again s v
  Step-IsValid (beat id device_id lease_id now until s) v =
      heartbeat-IsValid c id device_id lease_id now until s v
  Step-IsValid (finished i s) v = complete_lease-IsValid c i s v
  Step-IsValid (answered id now s) v = mark_response_sent-IsValid c id now s v
  Step-IsValid (receipt_saved r s) v = moved (envelopes-save_delivery_receipt r s) v
  Step-IsValid (status_updated hash status at failure s) v =
      moved (envelopes-update_delivery_status hash status at failure s) v
  Step-IsValid (swept now s) v = delete_expired-IsValid c now s v

  -- Whatever sequence of calls leads from a store to another, each intake with the same capacity
  -- and a sound envelope, the second store's envelopes are valid if the first one's are: sound,
  -- under their identifiers, and the open ones within the capacity of the queue and of each link.
  pub Reach-IsValid :
      {s t : MessageStore} → Reach c s t → IsValid c s.envelopes → IsValid c t.envelopes
  Reach-IsValid here v = v
  Reach-IsValid (next r step) v = Step-IsValid step (Reach-IsValid r v)

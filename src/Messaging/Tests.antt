-- ===== src/Messaging/Tests.antt =====
-- Runs of the envelope store on a small state, and the theorems at concrete inputs.
use fullwell.Prelude.{
  ℕ, String, ◌≡◌, ◌≢◌, refl, true, false, none, some, [], ◌∷◌, arith, filter, any, sort_by,
  insert_by, find,
}
use fullwell.Prelude.Exec.{ok}
use fullwell.Dict
use fullwell.Messaging.Types.{
  MessageEnvelopeRecord, RunnerDeviceRecord, ProviderIdentityLinkRecord, MessageQueueCapacity,
  EnqueueResult, duplicate, queued, leased, TerminalKind,
}
use fullwell.Messaging.Store.{MessageStore}
use fullwell.Messaging.Queue
use fullwell.Messaging.Claim
use fullwell.Messaging.Delivery
use fullwell.Messaging.Invariant.{IsValid}
use fullwell.Messaging.Invariant.Reach.{here, next, enqueued, claimed, Reach-IsValid}
use fullwell.Messaging.Leases.{
  IsLease, with_response, claim-IsLease, claim_exclusive, complete_lease-claim,
}
use fullwell.Messaging.Receipts
use fullwell.Messaging.Expiry.{unexpired, get-delete_expired}
use fullwell.Messaging.Intake.{taken_in, enqueue_once}
use fullwell.Messaging.Events.Steps.{enqueue_returns}

abbrev capacity : MessageQueueCapacity
capacity = record { per_link = 5; global = 100 }

abbrev device : RunnerDeviceRecord
device = record {
  id = "dev_1";
  user_id = "usr_1";
  household_id = "hh_1";
  name = "Kitchen";
  last_seen_at = none;
  revoked_at = none;
  created_at = 0;
  updated_at = 0;
}

abbrev link : ProviderIdentityLinkRecord
link = record {
  id = "link_1";
  user_id = "usr_1";
  household_id = "hh_1";
  runner_device_id = "dev_1";
  provider_identity_hash = "#phone";
  destination_ciphertext = "$phone";
  browser_binding_hash = none;
  confirmation_expires_at = 100;
  confirmed_at = some 5;
  linked_at = 1;
  revoked_at = none;
  updated_at = 5;
}

-- The n-th message of the link.
abbrev message : String → String → ℕ → MessageEnvelopeRecord
message id hash at = record {
  id = id;
  request_id = "request";
  provider_link_id = "link_1";
  provider_message_hash = hash;
  state = queued;
  inbound_ciphertext = "$text";
  response_ciphertext = none;
  host_session_ciphertext = none;
  terminal_kind = none;
  received_at = at;
  service_window_expires_at = 86400000;
  lease_id = none;
  lease_device_id = none;
  lease_expires_at = none;
  attempt_count = 0;
  failure_code = none;
  response_sent_at = none;
  expires_at = 604800000;
  created_at = at;
  updated_at = at;
}

abbrev first_message : MessageEnvelopeRecord
first_message = message "msg_1" "#one" 20

abbrev second_message : MessageEnvelopeRecord
second_message = message "msg_2" "#two" 10

abbrev linked : MessageStore
linked = record {
  devices = ("dev_1", device) ∷ [];
  challenges = [];
  links = ("link_1", link) ∷ [];
  envelopes = [];
  provider_events = [];
  delivery_receipts = [];
}

abbrev one_message : MessageStore
one_message = (Queue.enqueue_or_resume first_message 30 capacity linked).1

abbrev two_messages : MessageStore
two_messages = (Queue.enqueue_or_resume second_message 31 capacity one_message).1

-- The second message is the older one.
abbrev leased_message : MessageEnvelopeRecord
leased_message = record second_message {
  state = leased;
  lease_id = some "lease_1";
  lease_device_id = some "dev_1";
  lease_expires_at = some 90;
  attempt_count = 1;
  updated_at = 40;
}

abbrev after_claim : MessageStore
after_claim = (Claim.claim "dev_1" "lease_1" 40 90 false two_messages).1

-- What a run of the store opens.
running : Unit {0}
unfolding Queue.enqueue_or_resume Queue.enqueue_new Queue.is_full Queue.open_envelopes Claim.claim
    Claim.prepare Claim.release_lapsed Claim.recover Claim.claimable Claim.is_served
    Claim.lease_first Delivery.valid_lease Delivery.complete_lease with_response taken_in Dict.get
    Dict.set Dict.update_all filter find any sort_by insert_by
running = tt

linked_IsValid : IsValid capacity linked.envelopes
unfolding filter
linked_IsValid = record {
  sound = tt;
  indexed = tt;
  room = omega arith;
  link_room = λ id. omega arith;
}

Reach-IsValid_example : IsValid capacity after_claim.envelopes
Reach-IsValid_example =
    Reach-IsValid capacity
      (next
        (next (next here (enqueued first_message 30 linked refl))
          (enqueued second_message 31 one_message refl))
        (claimed "dev_1" "lease_1" 40 90 false two_messages))
      linked_IsValid

two_messages_IsValid : IsValid capacity two_messages.envelopes
two_messages_IsValid =
    Reach-IsValid capacity
      (next (next here (enqueued first_message 30 linked refl))
        (enqueued second_message 31 one_message refl))
      linked_IsValid

claim_oldest : (Claim.claim "dev_1" "lease_1" 40 90 false two_messages).0 ≡ some leased_message
unfolding running
claim_oldest = refl

claim-IsLease_example : IsLease "dev_1" "lease_1" 40 90 two_messages leased_message after_claim
claim-IsLease_example =
    claim-IsLease capacity "dev_1" "lease_1" 40 90 false two_messages leased_message
      two_messages_IsValid claim_oldest

-- The next claim gets the other message.
abbrev other_leased : MessageEnvelopeRecord
other_leased = record first_message {
  state = leased;
  lease_id = some "lease_2";
  lease_device_id = some "dev_1";
  lease_expires_at = some 95;
  attempt_count = 1;
  updated_at = 45;
}

claim_exclusive_example : ◌≢◌ {A = String} "msg_1" "msg_2"
unfolding running
claim_exclusive_example =
    claim_exclusive capacity "dev_1" "lease_1" 40 90 false two_messages leased_message
      two_messages_IsValid claim_oldest "dev_1" "lease_2" 45 95 true other_leased (omega arith) refl

abbrev completion : Delivery.Completion
completion = record {
  envelope_id = "msg_2";
  device_id = "dev_1";
  lease_id = "lease_1";
  now = 60;
  terminal_kind = TerminalKind.completed;
  response_ciphertext = "$answer";
  host_session_ciphertext = none;
}

complete_lease-claim_example : Delivery.complete_lease completion after_claim ≡ (
  some (with_response completion leased_message),
  record after_claim {
    envelopes = Dict.set after_claim.envelopes "msg_2" (with_response completion leased_message);
  },
)
unfolding running
complete_lease-claim_example =
    complete_lease-claim capacity "dev_1" "lease_1" 40 90 false two_messages leased_message
      two_messages_IsValid claim_oldest completion refl

enqueue_once_example :
    Queue.enqueue_or_resume first_message 33 capacity one_message
    ≡ (ok (duplicate first_message), one_message)
unfolding running
enqueue_once_example =
    enqueue_once first_message 30 capacity linked first_message refl first_message 33 refl

enqueue_returns_example :
    (result : EnqueueResult) × ((Queue.enqueue_or_resume second_message 33 capacity one_message).0
      ≡ ok result)
enqueue_returns_example =
    enqueue_returns capacity (next here (enqueued first_message 30 linked refl)) tt second_message
      33

get-delete_expired_example :
    Dict.get (Receipts.delete_expired 700000000 two_messages).1.envelopes "msg_1"
    ≡ unexpired 700000000 (Dict.get two_messages.envelopes "msg_1")
get-delete_expired_example =
    get-delete_expired capacity 700000000 two_messages "msg_1" two_messages_IsValid

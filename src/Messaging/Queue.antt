-- ===== src/Messaging/Queue.antt =====
-- messaging/memory-store.ts: `enqueueOrResume`, the intake of the queue of envelopes.
use fullwell.Prelude.{
  String, Bool, ◌&&◌, ◌||◌, none, some, List, ◌==◌, if◌then◌else◌, leb, filter, find, length,
}
use fullwell.Prelude.Exec.{ok, err}
use fullwell.Dict
use fullwell.Dict.{Dict, values}
use fullwell.Messaging.Types.{
  Instant, queued, is_queued, is_leased, is_awaiting_user, is_response_ready, MessageEnvelopeRecord,
  EnqueueResult, created, resumed, duplicate, overloaded, MessageQueueCapacity,
}
use fullwell.Messaging.Store.{MessageStore, Method, missing_envelope}

-- The states in which an envelope takes up room.
abbrev pub is_open : MessageEnvelopeRecord → Bool
is_open e =
    is_queued e.state || is_leased e.state || is_awaiting_user e.state || is_response_ready e.state

abbrev pub is_of_link : String → MessageEnvelopeRecord → Bool
is_of_link link_id e = e.provider_link_id == link_id

-- [...this.envelopes.values()].filter(open)
unfoldable pub open_envelopes : MessageStore → List MessageEnvelopeRecord
open_envelopes s = filter is_open (values s.envelopes)

-- The envelope of the user's answer: the pending one with the new text.
abbrev pub resume_with :
    MessageEnvelopeRecord → Instant → MessageEnvelopeRecord → MessageEnvelopeRecord
resume_with input now pending = record pending {
  inbound_ciphertext = input.inbound_ciphertext;
  response_ciphertext = none;
  terminal_kind = none;
  received_at = input.received_at;
  service_window_expires_at = input.service_window_expires_at;
  state = queued;
  updated_at = now;
}

-- The queue has no room for one more envelope of the link.
unfoldable pub is_full : MessageQueueCapacity → String → MessageStore → Bool
unfolding open_envelopes
is_full capacity link_id s =
    leb capacity.global (length (open_envelopes s))
    || leb capacity.per_link (length (filter (is_of_link link_id) (open_envelopes s)))

unfoldable pub enqueue_new : MessageEnvelopeRecord → MessageQueueCapacity → Method EnqueueResult
unfolding is_full
enqueue_new input capacity s =
    if is_full capacity input.provider_link_id s then (ok overloaded, s) else (
      ok (created input),
      record s {
        envelopes = Dict.set s.envelopes input.id input;
        provider_events = Dict.set s.provider_events input.provider_message_hash input.id;
      },
    )

unfoldable pub enqueue_or_resume :
    MessageEnvelopeRecord → Instant → MessageQueueCapacity → Method EnqueueResult
enqueue_or_resume input now capacity s =
    elim (Dict.get s.provider_events input.provider_message_hash) [
      | some id ↦ elim (Dict.get s.envelopes id) [
        | none ↦ (err missing_envelope, s)
        | some e ↦ (ok (duplicate e), s)
      ]
      | none ↦
          elim (find (λ e. is_of_link input.provider_link_id e && is_awaiting_user e.state)
            (values s.envelopes)) [
              | some pending ↦
                  (let e : MessageEnvelopeRecord = resume_with input now pending in
                    (
                      ok (resumed e),
                      record s {
                        envelopes = Dict.set s.envelopes e.id e;
                        provider_events =
                            Dict.set s.provider_events input.provider_message_hash e.id;
                      },
                    ))
              | none ↦ enqueue_new input capacity s
            ]
    ]

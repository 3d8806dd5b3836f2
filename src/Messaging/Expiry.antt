-- ===== src/Messaging/Expiry.antt =====
-- What the deletion of expired envelopes leaves (messaging/memory-store.ts, `deleteExpired`).
use fullwell.Prelude.{
  String, ◌≡◌, refl, Bool, false, Option, none, some, List, [], ◌∷◌, arith, ◌==◌, eq_iff,
  if◌then◌else◌, filter, any,
}
use fullwell.Dict
use fullwell.Dict.{Dict, values}
use fullwell.Dict.Laws.{get-delete}
use fullwell.Dict.Indexed.{IsIndexed}
use fullwell.Messaging.Types.{Instant, MessageEnvelopeRecord, MessageQueueCapacity}
use fullwell.Messaging.Store.{MessageStore}
use fullwell.Messaging.Receipts.{is_expired, delete_envelope, delete_envelopes, delete_expired}
use fullwell.Messaging.Invariant.{envelope_id, IsValid}

get-delete_envelopes :
    (es : List MessageEnvelopeRecord) (s : MessageStore) (k : String)
    → Dict.get (delete_envelopes es s).envelopes k
      ≡ (if any (λ e. e.id == k) es then none else Dict.get s.envelopes k)
unfolding delete_envelopes delete_envelope any
get-delete_envelopes [] s k = refl
get-delete_envelopes (e ∷ es) s k =
    ground (arith, get-delete_envelopes es (delete_envelope e s) k, get-delete s.envelopes e.id k)

-- The envelope, if there is one and it has not expired.
abbrev pub unexpired : Instant → Option MessageEnvelopeRecord → Option MessageEnvelopeRecord
unexpired now none = none
unexpired now (some e) = if is_expired now e then none else some e

abbrev expired_at : Instant → Option MessageEnvelopeRecord → Bool
expired_at now none = false
expired_at now (some e) = is_expired now e

any-expired :
    (now : Instant) (m : Dict MessageEnvelopeRecord) (k : String)
    → IsIndexed envelope_id m
    → any (λ e. e.id == k) (filter (is_expired now) (values m)) ≡ expired_at now (Dict.get m k)
unfolding any filter Dict.get
any-expired now [] k h = refl
any-expired now ((j, e) ∷ m) k (same, absent, h) =
    ground (arith, eq_iff j k, same, any-expired now m k h)

-- The deletion of what has expired takes exactly the expired envelopes: each other one is found
-- under its identifier as before, in a store whose envelopes are valid.
pub get-delete_expired :
    (c : MessageQueueCapacity) (now : Instant) (s : MessageStore) (k : String)
    → IsValid c s.envelopes
    → Dict.get (delete_expired now s).1.envelopes k ≡ unexpired now (Dict.get s.envelopes k)
unfolding delete_expired
get-delete_expired c now s k v = ground (
  arith,
  get-delete_envelopes (filter (is_expired now) (values s.envelopes)) s k,
  any-expired now s.envelopes k v.indexed,
)

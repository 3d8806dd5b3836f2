-- ===== src/Messaging/Invariant.antt =====
-- What holds of the stored envelopes at any time: each has the fields of its state, each stands
-- under its identifier, and those that are open fit the capacity of the queue.
pub mod Steps
pub mod Delivery
pub mod Reach
use fullwell.Prelude.{
  ℕ, suc, ◌+◌, ◌≤◌, String, ◌≡◌, ◌∙◌, Bool, true, false, not, ◌&&◌, Option, none, some, List, [],
  ◌∷◌, arith, ◌==◌, eq_iff, if◌then◌else◌, is_none, filter, length, All, Bool-cases, inl, inr,
}
use fullwell.Dict
use fullwell.Dict.{Dict, values}
use fullwell.Dict.Laws.{values-set-All, values-update_all-All}
use fullwell.Dict.Indexed.{IsIndexed, set-IsIndexed, update_all-IsIndexed}
use fullwell.Dict.Count.{count, count-set_over, count-set_out, count-update_all-le}
use fullwell.Messaging.Types.{
  is_leased, is_awaiting_user, is_response_ready, TerminalKind, needs_input, MessageEnvelopeRecord,
  MessageQueueCapacity,
}
use fullwell.Messaging.Queue.{is_open, is_of_link}

abbrev is_needs_input : Option TerminalKind → Bool
is_needs_input (some needs_input) = true
is_needs_input _ = false

-- A lease, if and only if leased; a result and its text where a response is ready; a question to
-- the user where one is awaited.
abbrev pub is_sound : MessageEnvelopeRecord → Bool
is_sound e =
    if is_leased e.state
    then not (is_none e.lease_id)
      && not (is_none e.lease_device_id)
      && not (is_none e.lease_expires_at)
    else is_none e.lease_id
      && is_none e.lease_device_id
      && is_none e.lease_expires_at
      && (if is_response_ready e.state
          then not (is_none e.terminal_kind) && not (is_none e.response_ciphertext)
          else if is_awaiting_user e.state
          then is_needs_input e.terminal_kind
          else true)

abbrev pub envelope_id : MessageEnvelopeRecord → String
envelope_id e = e.id

abbrev pub is_open_of : String → MessageEnvelopeRecord → Bool
is_open_of link_id e = is_open e && is_of_link link_id e

pub record IsValid (c : MessageQueueCapacity) (m : Dict MessageEnvelopeRecord) : Type 0 where
  pub sound : All (λ e. is_sound e ≡ true) (values m)
  pub indexed : IsIndexed envelope_id m
  pub room : count is_open m ≤ c.global
  pub link_room : (link_id : String) → count (is_open_of link_id) m ≤ c.per_link

-- `e'` may take the place of `e`.
pub record Follows (e e' : MessageEnvelopeRecord) : Type 0 where
  pub id : e'.id ≡ e.id
  pub link : e'.provider_link_id ≡ e.provider_link_id
  pub opened : is_open e' ≡ true → is_open e ≡ true
  pub sound : is_sound e' ≡ true

is_open_of-Follows :
    (e e' : MessageEnvelopeRecord) (link_id : String)
    → Follows e e'
    → is_open_of link_id e' ≡ true
    → is_open_of link_id e ≡ true
is_open_of-Follows e e' link_id f h = elim (Bool-cases (is_open e')) [
  | inl yes_open ↦ ground (arith, f.link, f.opened yes_open)
  | inr not_open ↦ absurd (ground arith)
]

count-set_under :
    (p : MessageEnvelopeRecord → Bool) (m : Dict MessageEnvelopeRecord) (k : String)
    (e e' : MessageEnvelopeRecord)
    → Dict.get m k ≡ some e
    → (p e' ≡ true → p e ≡ true)
    → count p (Dict.set m k e') ≤ count p m
count-set_under p m k e e' found back = elim (Bool-cases (p e')) [
  | inl passes ↦ count-set_over p m k e' e found (back passes)
  | inr fails ↦ count-set_out p m k e' fails
]

-- A stored envelope is replaced.
pub set-IsValid :
    (c : MessageQueueCapacity) (m : Dict MessageEnvelopeRecord) (k : String)
    (e e' : MessageEnvelopeRecord)
    → IsValid c m
    → Dict.get m k ≡ some e
    → e.id ≡ k
    → Follows e e'
    → IsValid c (Dict.set m k e')
set-IsValid c m k e e' v found same f = record {
  sound = values-set-All (λ e. is_sound e ≡ true) m k e' v.sound f.sound;
  indexed = set-IsIndexed envelope_id m k e' v.indexed (f.id ∙ same);
  room = omega (arith, count-set_under is_open m k e e' found f.opened, v.room);
  link_room = λ link_id. omega (
    arith,
    count-set_under (is_open_of link_id) m k e e' found (is_open_of-Follows e e' link_id f),
    v.link_room link_id,
  );
}

-- All stored envelopes are changed.
pub update_all-IsValid :
    (c : MessageQueueCapacity) (f : MessageEnvelopeRecord → MessageEnvelopeRecord)
    (m : Dict MessageEnvelopeRecord)
    → IsValid c m
    → ((e : MessageEnvelopeRecord) → is_sound e ≡ true → is_sound (f e) ≡ true)
    → ((e : MessageEnvelopeRecord) → (f e).id ≡ e.id)
    → ((e : MessageEnvelopeRecord) → (f e).provider_link_id ≡ e.provider_link_id)
    → ((e : MessageEnvelopeRecord) → is_open (f e) ≡ is_open e)
    → IsValid c (Dict.update_all f m)
update_all-IsValid c f m v sound id link opened = record {
  sound = values-update_all-All (λ e. is_sound e ≡ true) f m sound v.sound;
  indexed = update_all-IsIndexed envelope_id f m id v.indexed;
  room = omega (arith, count-update_all-le is_open f m (λ e h. ground (arith, opened e)), v.room);
  link_room = λ link_id. omega (
    arith,
    count-update_all-le (is_open_of link_id) f m (λ e h. ground (arith, opened e, link e)),
    v.link_room link_id,
  );
}

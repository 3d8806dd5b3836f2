-- ===== src/Messaging/Service/Answers.antt =====
-- messaging/service.ts: what `complete` answers is what became of the message.
use fullwell.Prelude.{
  String, Option, none, some, Bool, true, false, ◌≡◌, refl, sym, ap, subst, ◌∙◌, if◌then◌else◌,
  eq_refl, arith, inl, inr, Bool-cases, Option-cases,
}
use fullwell.Prelude.Exec.{ok, Result-cases}
use fullwell.Dict
use fullwell.Dict.{Dict}
use fullwell.Dict.Laws.{get-set}
use fullwell.Dict.Indexed.{IsIndexed, IsIndexed-get}
use fullwell.Household.Types.{Principal}
use fullwell.Messaging.Types.{
  Instant, TerminalKind, MessageEnvelopeState, response_ready, MessageEnvelopeRecord,
  ProviderIdentityLinkRecord, MessageDeliveryReceiptRecord,
}
use fullwell.Messaging.Store.{MessageStore}
use fullwell.Messaging.Delivery.{
  Completion, valid_lease, complete_lease, mark_response_sent, state_after,
}
use fullwell.Messaging.Receipts.{save_delivery_receipt}
use fullwell.Messaging.Invariant.{envelope_id}
use fullwell.Messaging.Invariant.Reach.{envelopes-save_delivery_receipt}
use fullwell.Messaging.Service.World.{
  World, Platform, MessagingServiceOptions, Action, ◌>>=◌, pure, lease_conflict, require_some,
  option_case, on_store, read_clock, draw, encrypt, send_service_text, ServiceText,
}
use fullwell.Messaging.Service.Sending.{send_response, try_send_response}
use fullwell.Messaging.Service.Work.{RunnerCompletion, encrypt_session, respond, complete}
use fullwell.Messaging.Service.Along.{
  Along, along, Along-R, IsPreorder, >>=-Along, pure-Along, guard-Along, option_case-Along,
  decrypt-Along, require_runner_scopes-Along, require_device-Along, require_active_link-Along,
}

-- The same envelopes in both states.
abbrev HasSameEnvelopes : World → World → Type 0
HasSameEnvelopes u w = w.store.envelopes ≡ u.store.envelopes

instance HasSameEnvelopes-IsPreorder : IsPreorder HasSameEnvelopes
HasSameEnvelopes-IsPreorder = record { same = λ w. refl; chain = λ u v w h g. g ∙ h }

-- From a state in which `before` holds of the envelopes, an answer leaves one in which `after` does.
data Yields {A : Type 0} (before : Dict MessageEnvelopeRecord → Type 0) (m : Action A)
    (after : A → Dict MessageEnvelopeRecord → Type 0) : Type 0 where
  yields :
      ((w : World) (a : A)
        → before w.store.envelopes
        → (m w).0 ≡ ok a
        → after a (m w).1.store.envelopes)
      → Yields before m after

Yields-holds :
    {A : Type 0} {before : Dict MessageEnvelopeRecord → Type 0} {m : Action A}
    {after : A → Dict MessageEnvelopeRecord → Type 0}
    → Yields before m after
    → (w : World) (a : A) → before w.store.envelopes
    → (m w).0 ≡ ok a
    → after a (m w).1.store.envelopes
Yields-holds (yields h) = h

module _ {before : Dict MessageEnvelopeRecord → Type 0} where
  >>=-Yields :
      {A B : Type 0} (mid : A → Dict MessageEnvelopeRecord → Type 0)
      {after : B → Dict MessageEnvelopeRecord → Type 0} (m : Action A) (f : A → Action B)
      → Yields before m mid
      → ((a : A) → Yields (mid a) (f a) after)
      → Yields before (m >>= f) after
  unfolding ◌>>=◌
  >>=-Yields mid m f (yields h) g = yields (λ w b start given. elim (Result-cases (m w).0) [
    | inl (e, refused) ↦ absurd (ground (arith, refused))
    | inr (a, passed) ↦
        rw passed (Yields-holds (g a) (m w).1 b (h w a start passed) (rw passed at given))
  ])

  -- What leaves the envelopes alone comes first.
  after_same :
      {A B : Type 0} {after : B → Dict MessageEnvelopeRecord → Type 0} (m : Action A)
      (f : A → Action B)
      → Along HasSameEnvelopes m
      → ((a : A) → Yields before (f a) after)
      → Yields before (m >>= f) after
  after_same m f h g =
      >>=-Yields (λ a. before) m f
        (yields (λ w a start given. subst before (sym (Along-R h w)) start)) g

  pure-Yields :
      {A : Type 0} {after : A → Dict MessageEnvelopeRecord → Type 0} (a : A)
      → ((s : Dict MessageEnvelopeRecord) → before s → after a s)
      → Yields before (pure a) after
  unfolding pure
  pure-Yields {after} a h = yields (λ w b start given.
      let same : a ≡ b = ground (arith, given) in
      subst (λ x. after x w.store.envelopes) same (h w.store.envelopes start))

  if-Yields :
      {A : Type 0} {after : A → Dict MessageEnvelopeRecord → Type 0} (b : Bool) (m n : Action A)
      → Yields before m after
      → Yields before n after
      → Yields before (if b then m else n) after
  if-Yields true m n h g = h
  if-Yields false m n h g = g

  option_case-Yields :
      {A B : Type 0} {after : B → Dict MessageEnvelopeRecord → Type 0} (x : Option A)
      (absent : Action B) (present : A → Action B)
      → Yields before absent after
      → ((a : A) → Yields before (present a) after)
      → Yields before (option_case x absent present) after
  unfolding option_case
  option_case-Yields none absent present h g = h
  option_case-Yields (some a) absent present h g = g a

-- The envelope under the identifier is in the state.
abbrev pub IsIn : String → MessageEnvelopeState → Dict MessageEnvelopeRecord → Type 0
IsIn id st m = (e : MessageEnvelopeRecord) × (Dict.get m id ≡ some e) × (e.state ≡ st)

-- An envelope with a response of the kind.
abbrev IsAnswered : TerminalKind → MessageEnvelopeRecord → Type 0
IsAnswered kind e = (e.state ≡ response_ready) × (e.terminal_kind ≡ some kind)

abbrev IsStored : MessageEnvelopeRecord → Dict MessageEnvelopeRecord → Type 0
IsStored e m = Dict.get m e.id ≡ some e

module _ (P : Platform) (o : MessagingServiceOptions) where
  send_service_text-Same : (text : ServiceText) → Along HasSameEnvelopes (send_service_text P text)
  unfolding send_service_text
  send_service_text-Same text = along (λ w. refl)

  draw-Same : (prefix : String) → Along HasSameEnvelopes (draw P prefix)
  unfolding draw
  draw-Same prefix = along (λ w. refl)

  read_clock-Same : Along HasSameEnvelopes (read_clock P)
  unfolding read_clock
  read_clock-Same = along (λ w. refl)

  encrypt-Same : (text place : String) → Along HasSameEnvelopes (encrypt P text place)
  unfolding encrypt
  encrypt-Same text place = along (λ w. refl)

  encrypt_session-Same :
      (id : String) (session : Option String)
      → Along HasSameEnvelopes (encrypt_session P o id session)
  unfolding encrypt_session
  encrypt_session-Same id session =
      option_case-Along _ (pure-Along _) (λ s. >>=-Along (encrypt-Same _ _) (λ c. pure-Along _))

  abbrev completion : String → RunnerCompletion → Instant → String → Option String → Completion
  completion id i now response session = record {
    envelope_id = id;
    device_id = i.device_id;
    lease_id = i.lease_id;
    now = now;
    terminal_kind = i.terminal_kind;
    response_ciphertext = response;
    host_session_ciphertext = session;
  }

  receipt-Same :
      (r : MessageDeliveryReceiptRecord)
      → Along HasSameEnvelopes (on_store (λ s. (tt, save_delivery_receipt r s)))
  unfolding on_store
  receipt-Same r = along (λ w. envelopes-save_delivery_receipt r w.store)

  marked : TerminalKind → Instant → MessageEnvelopeRecord → MessageEnvelopeRecord
  marked kind now e = record e {
    response_sent_at = some now;
    response_ciphertext = none;
    state = state_after kind;
    updated_at = now;
  }

  mark_lem :
      (e : MessageEnvelopeRecord) (kind : TerminalKind) (now : Instant) (s : MessageStore)
      → IsAnswered kind e
      → IsStored e s.envelopes
      → (mark_response_sent e.id now s).1.envelopes ≡ Dict.set s.envelopes e.id (marked kind now e)
  unfolding mark_response_sent marked
  mark_lem e kind now s (ready, known) stored = ground (arith, stored, ready, known)

  mark-Yields :
      (e : MessageEnvelopeRecord) (kind : TerminalKind) (now : Instant)
      → IsAnswered kind e
      → Yields
          (IsStored e)
          (on_store (mark_response_sent e.id now))
          (λ marked. IsIn e.id (state_after kind))
  unfolding on_store marked
  mark-Yields e kind now is = yields (λ w a stored given.
      rw (mark_lem e kind now w.store is stored) (
        marked kind now e,
        ground (arith, get-set w.store.envelopes e.id e.id (marked kind now e), eq_refl e.id),
        refl,
      ))

  send_response-Yields :
      (l : ProviderIdentityLinkRecord) (e : MessageEnvelopeRecord) (kind : TerminalKind)
      (ciphertext : String) (now : Instant)
      → IsAnswered kind e
      → Yields
          (IsStored e)
          (send_response P o l e ciphertext now)
          (λ sent. IsIn e.id (if sent then state_after kind else response_ready))
  unfolding send_response
  send_response-Yields l e kind ciphertext now is =
      after_same _ _ (decrypt-Along P _ _) (λ response.
        after_same _ _ (decrypt-Along P _ _) (λ destination.
          after_same _ _ (send_service_text-Same _) (λ delivery_id.
            after_same _ _ (draw-Same _) (λ receipt_id. after_same _ _ (receipt-Same _) (λ x.
              >>=-Yields (λ marked. IsIn e.id (state_after kind)) _ _ (mark-Yields e kind now is)
                (λ marked. after_same _ _ (guard-Along _ _) (λ x. pure-Yields true (λ s h. h))))))))

  try_send_response-Yields :
      (l : ProviderIdentityLinkRecord) (e : MessageEnvelopeRecord) (kind : TerminalKind)
      (now : Instant)
      → IsAnswered kind e
      → Yields
          (IsStored e)
          (try_send_response P o l e now)
          (λ sent. IsIn e.id (if sent then state_after kind else response_ready))
  unfolding try_send_response
  try_send_response-Yields l e kind now (ready, known) =
      let unsent : Yields (IsStored e) (pure false)
          (λ sent. IsIn e.id (if sent then state_after kind else response_ready)) =
        pure-Yields false (λ s stored. (e, stored, ready)) in
      option_case-Yields _ _ _ unsent (λ ciphertext.
        if-Yields _ _ _ (send_response-Yields l e kind ciphertext now (ready, known)) unsent)

  respond-Yields :
      (i : RunnerCompletion) (e : MessageEnvelopeRecord) (now : Instant)
      → IsAnswered i.terminal_kind e
      → Yields (IsStored e) (respond P o i e now) (λ st. IsIn e.id st)
  unfolding respond
  respond-Yields i e now is = after_same _ _ (require_active_link-Along _) (λ l.
      >>=-Yields (λ sent. IsIn e.id (if sent then state_after i.terminal_kind else response_ready))
        _ _ (try_send_response-Yields l e i.terminal_kind now is)
        (λ sent. pure-Yields _ (λ s h. h)))

  -- A completed lease, where there is one.
  abbrev IsCompleted :
      Completion → Option MessageEnvelopeRecord → Dict MessageEnvelopeRecord → Type 0
  IsCompleted c x m =
      (e : MessageEnvelopeRecord)
      → x ≡ some e
      → (e.id ≡ c.envelope_id) × IsAnswered c.terminal_kind e × IsStored e m

  complete_lease_lem :
      (c : Completion) (s : MessageStore) (e : MessageEnvelopeRecord)
      → IsIndexed envelope_id s.envelopes
      → (complete_lease c s).0 ≡ some e
      → (e.id ≡ c.envelope_id)
        × IsAnswered c.terminal_kind e
        × IsStored e (complete_lease c s).1.envelopes
  unfolding complete_lease
  complete_lease_lem c s e indexed h = elim (Option-cases (Dict.get s.envelopes c.envelope_id)) [
    | inl absent ↦ absurd (ground (arith, absent))
    | inr (e0, there) ↦ elim (Bool-cases (valid_lease e0 c.device_id c.lease_id c.now)) [
      | inr invalid ↦ absurd (ground (arith, there, invalid))
      | inl valid ↦
          let id : e0.id ≡ c.envelope_id =
            IsIndexed-get envelope_id s.envelopes c.envelope_id e0 indexed there in
          let same : e.id ≡ c.envelope_id = ground (arith, there, valid, id) in
          (
            same,
            (ground (arith, there, valid), ground (arith, there, valid)),
            ground (
              arith,
              there,
              valid,
              same,
              get-set s.envelopes c.envelope_id c.envelope_id e,
              eq_refl c.envelope_id,
            ),
          )
    ]
  ]

  complete_lease-Yields :
      (c : Completion)
      → Yields (IsIndexed envelope_id) (on_store (complete_lease c)) (λ x. IsCompleted c x)
  unfolding on_store
  complete_lease-Yields c =
      yields (λ w x indexed given e at.
        complete_lease_lem c w.store e indexed (ground (arith, given, at)))

  respond_to :
      (i : RunnerCompletion) (c : Completion) (now : Instant) (x : Option MessageEnvelopeRecord)
      → c.terminal_kind ≡ i.terminal_kind
      → Yields
          (IsCompleted c x)
          (require_some x lease_conflict >>= λ e. respond P o i e now)
          (λ st. IsIn c.envelope_id st)
  unfolding require_some ◌>>=◌
  respond_to i c now none same = yields (λ w st is given. absurd (ground arith))
  respond_to i c now (some e) same = yields (λ w st is given.
      let (id, (ready, known), stored) = is e refl in
      subst (λ k. IsIn k st (respond P o i e now w).1.store.envelopes) id
        (Yields-holds (respond-Yields i e now (ready, known ∙ ap (λ k. some k) same)) w st stored
          given))

  complete-Yields :
      (p : Principal) (id : String) (i : RunnerCompletion)
      → Yields (IsIndexed envelope_id) (complete P o p id i) (λ st. IsIn id st)
  unfolding complete
  complete-Yields p id i = after_same _ _ (require_runner_scopes-Along p) (λ x.
      after_same _ _ (guard-Along _ _) (λ x. after_same _ _ (guard-Along _ _) (λ x.
        after_same _ _ (require_device-Along p _) (λ device. after_same _ _ read_clock-Same (λ now.
          after_same _ _ (encrypt-Same _ _) (λ response.
            after_same _ _ (encrypt_session-Same _ _) (λ session.
              >>=-Yields (λ x. IsCompleted (completion id i now response session) x) _ _
                (complete_lease-Yields (completion id i now response session))
                (λ x. respond_to i (completion id i now response session) now x refl))))))))

  -- Where `complete` answers with a state, the message is in that state now: waiting for its
  -- response to be sent, waiting for the user, or completed.
  -- Condition: each envelope is stored under its identifier.
  pub complete_answer :
      (p : Principal) (id : String) (i : RunnerCompletion) (w : World) (st : MessageEnvelopeState)
      → IsIndexed envelope_id w.store.envelopes
      → (complete P o p id i w).0 ≡ ok st
      → IsIn id st (complete P o p id i w).1.store.envelopes
  complete_answer p id i w st indexed given =
      Yields-holds (complete-Yields p id i) w st indexed given

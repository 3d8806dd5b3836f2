-- ===== src/Messaging/Service/Termination.antt =====
-- messaging/service.ts: the loop of `claim` has enough fuel.
use fullwell.Prelude.{
  ℕ, zero, suc, ◌+◌, ◌-◌, ◌*◌, ◌≤◌, ◌<◌, String, none, some, ◌≡◌, ◌≢◌, refl, ◌∙◌, if◌then◌else◌,
  leb, arith, inl, inr, Bool-cases,
}
use native.Mathlib.Numerals.{unary_clauses}
use fullwell.Prelude.Exec.{ok, Result-cases}
use fullwell.Household.Types.{Principal}
use fullwell.Messaging.Types.{Instant, MessageEnvelopeRecord, ProviderIdentityLinkRecord}
use fullwell.Messaging.Store.{MessageStore}
use fullwell.Messaging.Service.World.{
  World, Platform, MessagingServiceOptions, Action, ◌>>=◌, pure, option_case, on_store, read_clock,
  sleep, draw, draw_id, send_service_text,
}
use fullwell.Messaging.Service.Sending.{send_response, try_send_response}
use fullwell.Messaging.Service.Work.{
  RunnerClaimRequest, RunnerClaimResponse, empty, out_of_fuel, send_ready, attempt, pause,
  claim_until, claim, open_envelope,
}
use fullwell.Messaging.Service.Along.{
  Along, along, Along-R, IsPreorder, >>=-Along, pure-Along, ask_store-Along, guard-Along, if-Along,
  option_case-Along, decrypt-Along, require_active_link-Along,
}

-- Between the two states no time was read and none was slept.
abbrev pub IsUntimed : World → World → Type 0
IsUntimed u w = (w.reads ≡ u.reads) × (w.slept ≡ u.slept)

instance IsUntimed-IsPreorder : IsPreorder IsUntimed
IsUntimed-IsPreorder = record {
  same = λ w. (refl, refl);
  chain = λ u v w (a, b) (c, d). (c ∙ a, d ∙ b);
}

module _ (P : Platform) (o : MessagingServiceOptions) where
  on_store-IsUntimed :
      {A : Type 0} (f : MessageStore → A × MessageStore) → Along IsUntimed (on_store f)
  unfolding on_store
  on_store-IsUntimed f = along (λ w. (refl, refl))

  draw_id-IsUntimed : (prefix start : String) → Along IsUntimed (draw_id P prefix start)
  unfolding draw_id draw
  draw_id-IsUntimed prefix start =
      >>=-Along (along (λ w. (refl, refl))) (λ id. >>=-Along (guard-Along _ _) (λ x. pure-Along _))

  send_response-IsUntimed :
      (l : ProviderIdentityLinkRecord) (e : MessageEnvelopeRecord) (ciphertext : String)
      (now : Instant)
      → Along IsUntimed (send_response P o l e ciphertext now)
  unfolding send_response send_service_text draw
  send_response-IsUntimed l e ciphertext now = >>=-Along (decrypt-Along P _ _) (λ response.
      >>=-Along (decrypt-Along P _ _) (λ destination.
        >>=-Along (along (λ w. (refl, refl))) (λ delivery_id.
          >>=-Along (along (λ w. (refl, refl))) (λ receipt_id.
            >>=-Along (on_store-IsUntimed _) (λ x.
              >>=-Along (on_store-IsUntimed _)
                (λ marked. >>=-Along (guard-Along _ _) (λ x. pure-Along _)))))))

  pub attempt-IsUntimed :
      (i : RunnerClaimRequest) (now : Instant) → Along IsUntimed (attempt P o i now)
  unfolding attempt send_ready try_send_response
  attempt-IsUntimed i now = >>=-Along (ask_store-Along _) (λ ready.
      >>=-Along
        (if-Along _
          (option_case-Along _ (pure-Along _) (λ e. >>=-Along (require_active_link-Along _) (λ l.
            >>=-Along
              (option_case-Along _ (pure-Along _) (λ ciphertext.
                if-Along _ (send_response-IsUntimed l e ciphertext now) (pure-Along _)))
              (λ x. pure-Along _))))
          (pure-Along _))
        (λ x.
          >>=-Along (draw_id-IsUntimed "lse" "lse_")
            (λ lease_id. >>=-Along (on_store-IsUntimed _) (λ e. pure-Along _))))

  -- The clock does not go back, and a sleep takes no less time than it was asked to.
  abbrev pub IsClock : Type 0
  IsClock = (n s k : ℕ) → P.now_at n s + k ≤ P.now_at (n + 1) (s + k)

  pub now_or_later : (n s : ℕ) → IsClock → P.now_at n s ≤ P.now_at (n + 1) s
  now_or_later n s clock = simp unary_clauses (simp unary_clauses at (clock n s 0))

  -- The answer is not the one for a lack of fuel.
  data Answers (m : Action RunnerClaimResponse) : Type 0 where
    answers : ((w : World) → (m w).0 ≢ ok out_of_fuel) → Answers m

  Answers-ok : {m : Action RunnerClaimResponse} → Answers m → (w : World) → (m w).0 ≢ ok out_of_fuel
  Answers-ok (answers h) = h

  >>=-Answers :
      {A : Type 0} (m : Action A) (f : A → Action RunnerClaimResponse)
      → ((a : A) → Answers (f a))
      → Answers (m >>= f)
  unfolding ◌>>=◌
  >>=-Answers m f g = answers (λ w h. elim (Result-cases (m w).0) [
    | inl (e, refused) ↦ ground (arith, refused)
    | inr (a, passed) ↦ Answers-ok (g a) (m w).1 (rw passed at h)
  ])

  open_envelope-Answers :
      (lease_id : String) (e : MessageEnvelopeRecord) → Answers (open_envelope P o lease_id e)
  unfolding open_envelope pure
  open_envelope-Answers lease_id e = >>=-Answers _ _ (λ l.
      >>=-Answers _ _
        (λ at. >>=-Answers _ _ (λ text. >>=-Answers _ _ (λ s. answers (λ w h. ground arith)))))

  pause_positive : (deadline now : Instant) → 1 ≤ pause P o deadline now
  pause_positive deadline now = ground arith

  later_or_done :
      (fuel : ℕ) (i : RunnerClaimRequest) (deadline now : Instant) (w : World)
      → IsClock
      → now ≤ P.now_at w.reads w.slept
      → now ≤ deadline
      → deadline + 1 - now < suc fuel
      → ((next : Instant) (v : World)
          → next ≤ P.now_at v.reads v.slept
          → deadline + 1 - next < fuel
          → (claim_until P o fuel i deadline next v).0 ≢ ok out_of_fuel)
      → ((read_clock P >>= λ later.
            if leb deadline later
            then pure empty
            else (sleep P (pause P o deadline later) >>= λ x.
                (read_clock P >>= claim_until P o fuel i deadline)))
          w).0
        ≢ ok out_of_fuel
  unfolding ◌>>=◌ pure sleep read_clock
  later_or_done fuel i deadline now w clock started before enough rest h =
      let later = P.now_at w.reads w.slept in
      let pausing = pause P o deadline later in
      let next = P.now_at (w.reads + 1) (w.slept + pausing) in
      elim (Bool-cases (leb deadline later)) [
        | inl over ↦ ground (arith, over)
        | inr early ↦
            rest next (record w { reads = w.reads + 1 + 1; slept = w.slept + pausing })
              (now_or_later (w.reads + 1) (w.slept + pausing) clock)
              (ground (arith, clock w.reads w.slept pausing, pause_positive deadline later))
              (rw early at h)
      ]

  claim_until-Answers :
      (fuel : ℕ) (i : RunnerClaimRequest) (deadline now : Instant) (w : World)
      → IsClock
      → now ≤ P.now_at w.reads w.slept
      → deadline + 1 - now < fuel
      → (claim_until P o fuel i deadline now w).0 ≢ ok out_of_fuel
  unfolding claim_until ◌>>=◌ pure option_case
  claim_until-Answers zero i deadline now w clock before enough h = absurd (ground arith)
  claim_until-Answers (suc fuel) i deadline now w clock before enough h =
      let v = (attempt P o i now w).1 in
      let (reads, slept) = Along-R (attempt-IsUntimed i now) w in
      elim (Bool-cases (leb now deadline)) [
        | inr over ↦ ground (arith, over)
        | inl waiting ↦ elim (Result-cases (attempt P o i now w).0) [
          | inl (e, refused) ↦ ground (arith, waiting, refused)
          | inr ((lease_id, some e), found) ↦
              Answers-ok (open_envelope-Answers lease_id e) v (rw (waiting, found) at h)
          | inr ((lease_id, none), nothing) ↦
              later_or_done fuel i deadline now v clock (rw (reads, slept) before)
                (ground (arith, waiting)) enough
                (λ next u started less.
                  claim_until-Answers fuel i deadline next u clock started less)
                (rw (waiting, nothing) at h)
        ]
      ]

  start-Answers :
      (i : RunnerClaimRequest)
      → IsClock
      → Answers (
          read_clock P >>= λ started.
          (read_clock P
            >>= claim_until P o (i.wait_seconds * 1000 + 2) i (started + i.wait_seconds * 1000)))
  unfolding ◌>>=◌ read_clock
  start-Answers i clock = answers (λ w.
      claim_until-Answers (i.wait_seconds * 1000 + 2) i
        (P.now_at w.reads w.slept + i.wait_seconds * 1000) (P.now_at (w.reads + 1) w.slept)
        (record w { reads = w.reads + 1 + 1 }) clock (now_or_later (w.reads + 1) w.slept clock)
        (ground (arith, now_or_later w.reads w.slept clock)))

  -- `claim` does not run out of its fuel.
  pub claim-Answers :
      (p : Principal) (i : RunnerClaimRequest) (w : World)
      → IsClock
      → (claim P o p i w).0 ≢ ok out_of_fuel
  unfolding claim
  claim-Answers p i w clock =
      Answers-ok
        (>>=-Answers _ _ (λ x. >>=-Answers _ _ (λ x. >>=-Answers _ _ (λ x.
          >>=-Answers _ _
            (λ x. >>=-Answers _ _ (λ device. >>=-Answers _ _ (λ x. start-Answers i clock)))))))
        w

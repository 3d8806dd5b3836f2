-- ===== src/Messaging/Service/Waiting.antt =====
-- messaging/service.ts: `claim` ends, and how long it sleeps before it does.
use fullwell.Prelude.{
  ℕ, zero, suc, ◌+◌, ◌-◌, ◌*◌, ◌≤◌, String, none, some, ◌≡◌, ◌≢◌, refl, sym, ◌∙◌, leb, arith, inl,
  inr, Bool-cases, if◌then◌else◌,
}
use fullwell.Prelude.Exec.{ok, Result-cases}
use fullwell.Household.Types.{Principal}
use fullwell.Messaging.Types.{Instant, MessageEnvelopeRecord}
use fullwell.Messaging.Service.World.{
  World, Platform, MessagingServiceOptions, Action, ◌>>=◌, pure, option_case, read_clock, sleep,
  require_pre_cutoff,
}
use fullwell.Messaging.Service.Work.{
  RunnerClaimRequest, empty, out_of_fuel, attempt, pause, claim_until, claim, open_envelope,
  decrypt_session,
}
use fullwell.Messaging.Service.Along.{
  Along, along, Along-R, IsPreorder, >>=-Along, pure-Along, guard-Along, option_case-Along,
  decrypt-Along, require_active_link-Along, require_some-Along, require_runner_scopes-Along,
  require_device-Along, require_membership-Along,
}
use fullwell.Messaging.Service.Termination.{IsClock, now_or_later, attempt-IsUntimed, claim-Answers}

-- Between the two states none was slept.
abbrev IsAwake : World → World → Type 0
IsAwake u w = w.slept ≡ u.slept

instance IsAwake-IsPreorder : IsPreorder IsAwake
IsAwake-IsPreorder = record { same = λ w. refl; chain = λ u v w a b. b ∙ a }

-- The action sleeps for at most so many milliseconds.
data Sleeps {A : Type 0} (k : ℕ) (m : Action A) : Type 0 where
  sleeps : ((w : World) → (m w).1.slept ≤ w.slept + k) → Sleeps k m

Sleeps-slept :
    {A : Type 0} {k : ℕ} {m : Action A} → Sleeps k m → (w : World) → (m w).1.slept ≤ w.slept + k
Sleeps-slept (sleeps h) w = h w

>>=-Sleeps :
    {A B : Type 0} {k : ℕ} (m : Action A) (f : A → Action B)
    → Along IsAwake m
    → ((a : A) → Sleeps k (f a))
    → Sleeps k (m >>= f)
unfolding ◌>>=◌
>>=-Sleeps m f h g = sleeps (λ w. elim (Result-cases (m w).0) [
  | inl (e, refused) ↦ ground (arith, refused, Along-R h w)
  | inr (a, passed) ↦ ground (arith, passed, Along-R h w, Sleeps-slept (g a) (m w).1)
])

within : {a b c : ℕ} (d : ℕ) → b ≡ c → a ≤ b + d → a ≤ c + d
within d same h = rw (sym same) h

module _ (P : Platform) (o : MessagingServiceOptions) where
  read_clock-IsAwake : Along IsAwake (read_clock P)
  unfolding read_clock
  read_clock-IsAwake = along (λ w. refl)

  require_pre_cutoff-IsAwake : Along IsAwake (require_pre_cutoff P o)
  unfolding require_pre_cutoff
  require_pre_cutoff-IsAwake = >>=-Along read_clock-IsAwake (λ now. guard-Along _ _)

  open_envelope-IsAwake :
      (lease_id : String) (e : MessageEnvelopeRecord) → Along IsAwake (open_envelope P o lease_id e)
  unfolding open_envelope decrypt_session
  open_envelope-IsAwake lease_id e = >>=-Along (require_active_link-Along _) (λ l.
      >>=-Along (require_some-Along _ _) (λ at. >>=-Along (decrypt-Along P _ _) (λ text.
        >>=-Along
          (option_case-Along _ (pure-Along _)
            (λ c. >>=-Along (decrypt-Along P _ _) (λ x. pure-Along _)))
          (λ session. pure-Along _))))

  -- The loop sleeps no further than to the deadline.
  later_or_done :
      (fuel : ℕ) (i : RunnerClaimRequest) (deadline now : Instant) (w : World)
      → IsClock P o
      → now ≤ P.now_at w.reads w.slept
      → ((next : Instant) (v : World)
          → next ≤ P.now_at v.reads v.slept
          → (claim_until P o fuel i deadline next v).1.slept ≤ v.slept + (deadline - next))
      → ((read_clock P >>= λ later.
            if leb deadline later
            then pure empty
            else (sleep P (pause P o deadline later) >>= λ x.
                (read_clock P >>= claim_until P o fuel i deadline)))
          w).1.slept
        ≤ w.slept + (deadline - now)
  unfolding ◌>>=◌ pure sleep read_clock
  later_or_done fuel i deadline now w clock started rest =
      let later = P.now_at w.reads w.slept in
      let pausing = pause P o deadline later in
      let next = P.now_at (w.reads + 1) (w.slept + pausing) in
      let v : World = record w { reads = w.reads + 1 + 1; slept = w.slept + pausing } in
      elim (Bool-cases (leb deadline later)) [
        | inl over ↦ ground (arith, over)
        | inr early ↦ ground (
          arith,
          early,
          clock w.reads w.slept pausing,
          rest next v (now_or_later P o (w.reads + 1) (w.slept + pausing) clock),
        )
      ]

  claim_until-slept :
      (fuel : ℕ) (i : RunnerClaimRequest) (deadline now : Instant) (w : World)
      → IsClock P o
      → now ≤ P.now_at w.reads w.slept
      → (claim_until P o fuel i deadline now w).1.slept ≤ w.slept + (deadline - now)
  unfolding claim_until ◌>>=◌ pure option_case
  claim_until-slept zero i deadline now w clock before = omega arith
  claim_until-slept (suc fuel) i deadline now w clock before =
      let v = (attempt P o i now w).1 in
      let (reads, slept) = Along-R (attempt-IsUntimed P o i now) w in
      elim (Bool-cases (leb now deadline)) [
        | inr over ↦ ground (arith, over)
        | inl waiting ↦ elim (Result-cases (attempt P o i now w).0) [
          | inl (e, refused) ↦ ground (arith, waiting, refused, slept)
          | inr ((lease_id, some e), found) ↦
              ground (arith, waiting, found, slept, Along-R (open_envelope-IsAwake lease_id e) v)
          | inr ((lease_id, none), nothing) ↦
              let bound =
                later_or_done fuel i deadline now v clock (rw (reads, slept) before)
                  (λ next u started. claim_until-slept fuel i deadline next u clock started) in
              rw (waiting, nothing) (within (deadline - now) slept bound)
        ]
      ]

  start-Sleeps :
      (i : RunnerClaimRequest)
      → IsClock P o
      → Sleeps (i.wait_seconds * 1000) (
          read_clock P >>= λ started.
          (read_clock P
            >>= claim_until P o (i.wait_seconds * 1000 + 2) i (started + i.wait_seconds * 1000)))
  unfolding ◌>>=◌ read_clock
  start-Sleeps i clock = sleeps (λ w.
      let u : World = record w { reads = w.reads + 1 + 1 } in
      let started = P.now_at w.reads w.slept in
      let now = P.now_at (w.reads + 1) w.slept in
      ground (
        arith,
        claim_until-slept (i.wait_seconds * 1000 + 2) i (started + i.wait_seconds * 1000) now u
            clock (now_or_later P o (w.reads + 1) w.slept clock),
        now_or_later P o w.reads w.slept clock,
      ))

  claim-Sleeps :
      (p : Principal) (i : RunnerClaimRequest)
      → IsClock P o
      → Sleeps (i.wait_seconds * 1000) (claim P o p i)
  unfolding claim
  claim-Sleeps p i clock = >>=-Sleeps _ _ (guard-Along _ _) (λ x.
      >>=-Sleeps _ _ require_pre_cutoff-IsAwake (λ x.
        >>=-Sleeps _ _ (require_runner_scopes-Along p) (λ x. >>=-Sleeps _ _ (guard-Along _ _) (λ x.
          >>=-Sleeps _ _ (require_device-Along p i.device_id) (λ device.
            >>=-Sleeps _ _ (require_membership-Along p _) (λ x. start-Sleeps i clock))))))

  -- The loop of `claim` ends: the model's fuel suffices, and the sleeps of the loop together take no
  -- longer than the time for which the runner asked to wait. Condition: the clock does not go back,
  -- and a sleep takes no less time than it was asked to.
  pub claim_ends :
      (p : Principal) (i : RunnerClaimRequest) (w : World)
      → IsClock P o
      → ((claim P o p i w).0 ≢ ok out_of_fuel)
        × ((claim P o p i w).1.slept ≤ w.slept + i.wait_seconds * 1000)
  claim_ends p i w clock = (claim-Answers P o p i w clock, Sleeps-slept (claim-Sleeps p i clock) w)

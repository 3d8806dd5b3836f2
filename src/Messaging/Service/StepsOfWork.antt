-- ===== src/Messaging/Service/StepsOfWork.antt =====
-- messaging/service.ts: the steps of the store in a runner's work.
use fullwell.Prelude.{ℕ, zero, suc, String, Option}
use fullwell.Household.Types.{Principal}
use fullwell.Messaging.Types.{Instant, MessageQueueCapacity, MessageEnvelopeRecord}
use fullwell.Messaging.Invariant.Reach.{claimed, beat, finished}
use fullwell.Messaging.Service.World.{Platform, MessagingServiceOptions}
use fullwell.Messaging.Service.Work.{
  RunnerClaimRequest, RunnerCompletion, decrypt_session, open_envelope, send_ready, attempt,
  claim_until, claim, heartbeat, encrypt_session, respond, complete,
}
use fullwell.Messaging.Service.Along.{
  Along, >>=-Along, pure-Along, ask_store-Along, guard-Along, require_some-Along, if-Along,
  option_case-Along, decrypt-Along, require_runner_scopes-Along, require_membership-Along,
  require_device-Along, require_active_link-Along,
}
use fullwell.Messaging.Service.Steps.{
  Moves, Moves-IsPreorder, on_store-Along, read_clock-Along, sleep-Along, draw_id-Along,
  encrypt-Along, require_pre_cutoff-Along, try_send_response-Along,
}

module _ {c : MessageQueueCapacity} (P : Platform) (o : MessagingServiceOptions) where
  decrypt_session-Along : (e : MessageEnvelopeRecord) → Along (Moves c) (decrypt_session P o e)
  unfolding decrypt_session
  decrypt_session-Along e =
      option_case-Along _ (pure-Along _)
        (λ ciphertext. >>=-Along (decrypt-Along P _ _) (λ s. pure-Along _))

  open_envelope-Along :
      (lease_id : String) (e : MessageEnvelopeRecord)
      → Along (Moves c) (open_envelope P o lease_id e)
  unfolding open_envelope
  open_envelope-Along lease_id e = >>=-Along (require_active_link-Along _) (λ l.
      >>=-Along (require_some-Along _ _) (λ at.
        >>=-Along (decrypt-Along P _ _)
          (λ text. >>=-Along (decrypt_session-Along e) (λ s. pure-Along _))))

  send_ready-Along :
      (ready : Option MessageEnvelopeRecord) (now : Instant)
      → Along (Moves c) (send_ready P o ready now)
  unfolding send_ready
  send_ready-Along ready now = option_case-Along _ (pure-Along _) (λ e.
      >>=-Along (require_active_link-Along _)
        (λ l. >>=-Along (try_send_response-Along P o l e now) (λ x. pure-Along _)))

  attempt-Along : (i : RunnerClaimRequest) (now : Instant) → Along (Moves c) (attempt P o i now)
  unfolding attempt
  attempt-Along i now = >>=-Along (ask_store-Along _) (λ ready.
      >>=-Along (if-Along _ (send_ready-Along ready now) (pure-Along _)) (λ x.
        >>=-Along (draw_id-Along P "lse" "lse_") (λ lease_id.
          >>=-Along (on_store-Along _ (claimed i.device_id lease_id now _ i.recover_saturated))
            (λ e. pure-Along _))))

  claim_until-Along :
      (fuel : ℕ) (i : RunnerClaimRequest) (deadline now : Instant)
      → Along (Moves c) (claim_until P o fuel i deadline now)
  unfolding claim_until
  claim_until-Along zero i deadline now = pure-Along _
  claim_until-Along (suc fuel) i deadline now =
      if-Along _
        (>>=-Along (attempt-Along i now) (λ found.
          option_case-Along _
            (>>=-Along (read_clock-Along P) (λ later. if-Along _ (pure-Along _) (
              >>=-Along (sleep-Along P _) (λ x.
                >>=-Along (read_clock-Along P) (λ next. claim_until-Along fuel i deadline next)))))
            (λ e. open_envelope-Along _ e)))
        (pure-Along _)

  pub claim-Along : (p : Principal) (i : RunnerClaimRequest) → Along (Moves c) (claim P o p i)
  unfolding claim
  claim-Along p i = >>=-Along (guard-Along _ _) (λ x. >>=-Along (require_pre_cutoff-Along P o) (λ x.
      >>=-Along (require_runner_scopes-Along p) (λ x. >>=-Along (guard-Along _ _) (λ x.
        >>=-Along (require_device-Along p _) (λ device.
          >>=-Along (require_membership-Along p _) (λ x.
            >>=-Along (read_clock-Along P)
              (λ started. >>=-Along (read_clock-Along P) (λ now. claim_until-Along _ i _ now))))))))

  pub heartbeat-Along :
      (p : Principal) (id device_id lease_id : String)
      → Along (Moves c) (heartbeat P o p id device_id lease_id)
  unfolding heartbeat
  heartbeat-Along p id device_id lease_id = >>=-Along (require_pre_cutoff-Along P o) (λ x.
      >>=-Along (require_runner_scopes-Along p) (λ x. >>=-Along (guard-Along _ _) (λ x.
        >>=-Along (guard-Along _ _) (λ x. >>=-Along (require_device-Along p _) (λ device.
          >>=-Along (read_clock-Along P) (λ now.
            >>=-Along (on_store-Along _ (beat id device_id lease_id now _))
              (λ e. >>=-Along (guard-Along _ _) (λ x. pure-Along _))))))))

  encrypt_session-Along :
      (id : String) (session : Option String) → Along (Moves c) (encrypt_session P o id session)
  unfolding encrypt_session
  encrypt_session-Along id session =
      option_case-Along _ (pure-Along _) (λ s. >>=-Along (encrypt-Along P _ _) (λ s. pure-Along _))

  respond-Along :
      (i : RunnerCompletion) (e : MessageEnvelopeRecord) (now : Instant)
      → Along (Moves c) (respond P o i e now)
  unfolding respond
  respond-Along i e now =
      >>=-Along (require_active_link-Along _)
        (λ l. >>=-Along (try_send_response-Along P o l e now) (λ sent. pure-Along _))

  pub complete-Along :
      (p : Principal) (id : String) (i : RunnerCompletion) → Along (Moves c) (complete P o p id i)
  unfolding complete
  complete-Along p id i = >>=-Along (require_runner_scopes-Along p) (λ x.
      >>=-Along (guard-Along _ _) (λ x. >>=-Along (guard-Along _ _) (λ x.
        >>=-Along (require_device-Along p _) (λ device. >>=-Along (read_clock-Along P) (λ now.
          >>=-Along (encrypt-Along P _ _) (λ response.
            >>=-Along (encrypt_session-Along id _) (λ session.
              >>=-Along (on_store-Along _ (finished _)) (λ completed.
                >>=-Along (require_some-Along _ _) (λ e. respond-Along i e now)))))))))

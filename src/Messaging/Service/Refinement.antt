-- ===== src/Messaging/Service/Refinement.antt =====
-- messaging/service.ts: the service acts on its store by the steps of the store.
use fullwell.Prelude.{String, Option, refl}
use fullwell.Household.Types.{Principal}
use fullwell.Messaging.Types.{Instant, MessageEnvelopeRecord, ProviderIdentityLinkRecord}
use fullwell.Messaging.Invariant.Reach.{enqueued, status_updated, swept}
use fullwell.Messaging.Service.World.{Platform, MessagingServiceOptions}
use fullwell.Messaging.Service.Inbound.{
  ProviderInboundText, send_pending, enqueue, envelope_of, take_text, take_link_token,
  handle_in_window, handle_open, handle_inbound_text,
}
use fullwell.Messaging.Service.Health.{
  Setup, ProviderDeliveryStatus, link_status, setup_status, unlinked_status, enabled_status,
  account_status, cleanup, operator_health, handle_delivery_status,
}
use fullwell.Messaging.Service.Along.{
  Along, >>=-Along, pure-Along, ask-Along, ask_store-Along, of_result-Along, guard-Along,
  require_some-Along, if-Along, option_case-Along, require_membership-Along, require_device-Along,
}
use fullwell.Messaging.Service.Steps.{
  Moves, Moves-IsPreorder, on_store-Along, try_store-Along, read_clock-Along, draw_id-Along,
  encrypt-Along, try_send_response-Along,
}
use fullwell.Messaging.Service.StepsOfLinking.{consume_link_code-Along}

module _ (P : Platform) (o : MessagingServiceOptions) where
  send_pending-Along :
      (l : ProviderIdentityLinkRecord) (ready : Option MessageEnvelopeRecord) (now : Instant)
      → Along (Moves o.capacity) (send_pending P o l ready now)
  unfolding send_pending
  send_pending-Along l ready now =
      option_case-Along _ (pure-Along _)
        (λ e. >>=-Along (try_send_response-Along P o l e now) (λ x. pure-Along _))

  enqueue-Along :
      (i : ProviderInboundText) (text : String) (l : ProviderIdentityLinkRecord) (at now : Instant)
      → Along (Moves o.capacity) (enqueue P o i text l at now)
  unfolding enqueue envelope_of
  enqueue-Along i text l at now = >>=-Along (ask_store-Along _) (λ ready.
      >>=-Along (send_pending-Along l ready now) (λ x.
        >>=-Along (draw_id-Along P "msg" "msg_") (λ id.
          >>=-Along (draw_id-Along P "req" "req_") (λ request_id.
            >>=-Along (encrypt-Along P _ _) (λ ciphertext.
              >>=-Along
                (try_store-Along _ (λ s.
                  enqueued (envelope_of P o i id request_id l.id ciphertext at now) now s refl))
                (λ r. pure-Along _))))))

  take_text-Along :
      (i : ProviderInboundText) (text : String) (at now : Instant)
      → Along (Moves o.capacity) (take_text P o i text at now)
  unfolding take_text
  take_text-Along i text at now = >>=-Along (ask-Along _) (λ w.
      option_case-Along _ (pure-Along _)
        (λ l. if-Along _ (enqueue-Along i text l at now) (pure-Along _)))

  take_link_token-Along :
      (i : ProviderInboundText) (token : String) (at now : Instant)
      → Along (Moves o.capacity) (take_link_token P o i token at now)
  unfolding take_link_token
  take_link_token-Along i token at now =
      if-Along _ (>>=-Along (consume_link_code-Along P o _ token now _) (λ x. pure-Along _))
        (pure-Along _)

  pub handle_inbound_text-Along :
      (i : ProviderInboundText) → Along (Moves o.capacity) (handle_inbound_text P o i)
  unfolding handle_inbound_text handle_open handle_in_window
  handle_inbound_text-Along i = >>=-Along (read_clock-Along P) (λ now.
      if-Along _
        (>>=-Along (of_result-Along _) (λ at. if-Along _ (pure-Along _) (
          >>=-Along (guard-Along _ _) (λ x.
            option_case-Along _ (take_text-Along i _ at now)
              (λ token. take_link_token-Along i token at now)))))
        (pure-Along _))

  setup_status-Along :
      (p : Principal) (device_id household_id : String)
      → Along (Moves o.capacity) (setup_status P o p device_id household_id)
  unfolding setup_status
  setup_status-Along p device_id household_id = >>=-Along (guard-Along _ _) (λ x.
      >>=-Along (guard-Along _ _) (λ x. >>=-Along (require_device-Along p _) (λ d.
        >>=-Along (require_membership-Along p _)
          (λ x. >>=-Along (guard-Along _ _) (λ x. pure-Along _)))))

  pub account_status-Along :
      (p : Principal) (i : Setup) → Along (Moves o.capacity) (account_status P o p i)
  unfolding account_status enabled_status unlinked_status link_status
  account_status-Along p i =
      if-Along _
        (>>=-Along (read_clock-Along P) (λ now.
          if-Along _
            (>>=-Along (ask-Along _) (λ found.
              option_case-Along _
                (option_case-Along _ (pure-Along _)
                  (λ d. option_case-Along _ (pure-Along _) (λ h. setup_status-Along p d h)))
                (λ x.
                  option_case-Along _ (>>=-Along (read_clock-Along P) (λ later. pure-Along _))
                    (λ at. pure-Along _))))
            (pure-Along _)))
        (pure-Along _)

  pub cleanup-Along : Along (Moves o.capacity) (cleanup P o)
  unfolding cleanup
  cleanup-Along = >>=-Along (read_clock-Along P) (λ now. on_store-Along _ (swept now))

  pub operator_health-Along : Along (Moves o.capacity) (operator_health P o)
  unfolding operator_health
  operator_health-Along =
      >>=-Along (read_clock-Along P) (λ now. >>=-Along (ask_store-Along _) (λ x. pure-Along _))

  pub handle_delivery_status-Along :
      (i : ProviderDeliveryStatus) → Along (Moves o.capacity) (handle_delivery_status P o i)
  unfolding handle_delivery_status
  handle_delivery_status-Along i = >>=-Along (require_some-Along _ _) (λ at.
      >>=-Along (read_clock-Along P) (λ now.
        >>=-Along (guard-Along _ _)
          (λ x. on_store-Along _ (status_updated _ i.status at i.failure_code))))

-- ===== src/Messaging/Service/Requests.antt =====
-- messaging/service.ts: the service as a whole, a request at a time, against the steps of its
-- store.
use fullwell.Prelude.{String, Bool}
use fullwell.Household.Types.{Principal}
use fullwell.Messaging.Invariant.{IsValid}
use fullwell.Messaging.Invariant.Reach.{Reach, here, Reach-IsValid}
use fullwell.Messaging.Service.World.{World, Platform, MessagingServiceOptions}
use fullwell.Messaging.Service.Devices.{
  RunnerDeviceRegistration, register_device, revoke, revoke_runner, authorize_runner,
}
use fullwell.Messaging.Service.Linking.{WhatsAppLinkRequest, create_link_challenge, confirm_link}
use fullwell.Messaging.Service.Inbound.{ProviderInboundText, handle_inbound_text}
use fullwell.Messaging.Service.Work.{
  RunnerClaimRequest, RunnerCompletion, claim, heartbeat, complete,
}
use fullwell.Messaging.Service.Health.{
  Setup, ProviderDeliveryStatus, account_status, cleanup, operator_health, handle_delivery_status,
}
use fullwell.Messaging.Service.Along.{Along-R}
use fullwell.Messaging.Service.Steps.{
  joined_Reach, revoke-Along, revoke_runner-Along, register_device-Along, authorize_runner-Along,
}
use fullwell.Messaging.Service.StepsOfLinking.{create_link_challenge-Along, confirm_link-Along}
use fullwell.Messaging.Service.StepsOfWork.{claim-Along, heartbeat-Along, complete-Along}
use fullwell.Messaging.Service.Refinement.{
  handle_inbound_text-Along, account_status-Along, cleanup-Along, operator_health-Along,
  handle_delivery_status-Along,
}

-- The public methods of the service, with their arguments.
pub data Request : Type 0 where
  registers : Principal → RunnerDeviceRegistration → Request
  revokes revokes_runner : Principal → String → Request
  authorizes : Principal → String → String → Request
  challenges : Principal → String → WhatsAppLinkRequest → Request
  confirms : Principal → String → String → Request
  receives : ProviderInboundText → Request
  claims : Principal → RunnerClaimRequest → Request
  beats : Principal → String → String → String → Request
  completes : Principal → String → RunnerCompletion → Request
  asks_status : Principal → Setup → Request
  reports_delivery : ProviderDeliveryStatus → Request
  cleans_up asks_health : Request

module _ (P : Platform) (o : MessagingServiceOptions) where
  -- The state after a request, whether it is answered or refused.
  unfoldable pub serve : Request → World → World
  unfolding register_device revoke revoke_runner authorize_runner create_link_challenge confirm_link
      handle_inbound_text claim heartbeat complete account_status handle_delivery_status cleanup
      operator_health
  serve (registers p i) w = (register_device P o p i w).1
  serve (revokes p device_id) w = (revoke P o p device_id w).1
  serve (revokes_runner p device_id) w = (revoke_runner P o p device_id w).1
  serve (authorizes p device_id household_id) w =
      (authorize_runner P o p device_id household_id w).1
  serve (challenges p token i) w = (create_link_challenge P o p token i w).1
  serve (confirms p token link_id) w = (confirm_link P o p token link_id w).1
  serve (receives i) w = (handle_inbound_text P o i w).1
  serve (claims p i) w = (claim P o p i w).1
  serve (beats p id device_id lease_id) w = (heartbeat P o p id device_id lease_id w).1
  serve (completes p id i) w = (complete P o p id i w).1
  serve (asks_status p i) w = (account_status P o p i w).1
  serve (reports_delivery i) w = (handle_delivery_status P o i w).1
  serve cleans_up w = (cleanup P o w).1
  serve asks_health w = (operator_health P o w).1

  serve-Reach : (r : Request) (w : World) → Reach o.capacity w.store (serve r w).store
  unfolding serve
  serve-Reach (registers p i) w = Along-R (register_device-Along P o p i) w
  serve-Reach (revokes p device_id) w = Along-R (revoke-Along P o p device_id) w
  serve-Reach (revokes_runner p device_id) w = Along-R (revoke_runner-Along P o p device_id) w
  serve-Reach (authorizes p device_id household_id) w =
      Along-R (authorize_runner-Along P o p device_id household_id) w
  serve-Reach (challenges p token i) w = Along-R (create_link_challenge-Along P o p token i) w
  serve-Reach (confirms p token link_id) w = Along-R (confirm_link-Along P o p token link_id) w
  serve-Reach (receives i) w = Along-R (handle_inbound_text-Along P o i) w
  serve-Reach (claims p i) w = Along-R (claim-Along P o p i) w
  serve-Reach (beats p id device_id lease_id) w =
      Along-R (heartbeat-Along P o p id device_id lease_id) w
  serve-Reach (completes p id i) w = Along-R (complete-Along P o p id i) w
  serve-Reach (asks_status p i) w = Along-R (account_status-Along P o p i) w
  serve-Reach (reports_delivery i) w = Along-R (handle_delivery_status-Along P o i) w
  serve-Reach cleans_up w = Along-R (cleanup-Along P o) w
  serve-Reach asks_health w = Along-R (operator_health-Along P o) w

  -- A history of the service: requests in any order, between which memberships may change.
  pub data Serves (u : World) : World → Type 0 where
    at_start : Serves u u
    served : {w : World} → Serves u w → (r : Request) → Serves u (serve r w)
    joined_or_left :
        {w : World}
        → Serves u w
        → (f : String → String → Bool) → Serves u (record w { is_active_member = f })

  -- A history of the service is, on its store, a history of the store's steps.
  Serves-Reach : {u w : World} → Serves u w → Reach o.capacity u.store w.store
  Serves-Reach at_start = here
  Serves-Reach (served {w} h r) = joined_Reach (Serves-Reach h) (serve-Reach r w)
  Serves-Reach (joined_or_left h f) = Serves-Reach h

  -- When the envelopes are sound, stored under their identifiers and within the capacity of the
  -- queue, they still are after any history of the service.
  pub Serves-IsValid :
      {u w : World}
      → Serves u w
      → IsValid o.capacity u.store.envelopes
      → IsValid o.capacity w.store.envelopes
  Serves-IsValid h v = Reach-IsValid o.capacity (Serves-Reach h) v

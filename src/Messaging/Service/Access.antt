-- ===== src/Messaging/Service/Access.antt =====
-- messaging/service.ts: the service as a whole, a request at a time, against who may change what it
-- keeps.
use fullwell.Prelude.{Bool, true, false, ◌≡◌, ◌⊎◌, inl, inr}
use fullwell.Messaging.Service.World.{World, Platform, MessagingServiceOptions, Action}
use fullwell.Messaging.Service.Devices.{register_device, revoke, revoke_runner, authorize_runner}
use fullwell.Messaging.Service.Linking.{create_link_challenge, confirm_link}
use fullwell.Messaging.Service.Inbound.{handle_inbound_text}
use fullwell.Messaging.Service.Work.{claim, heartbeat, complete}
use fullwell.Messaging.Service.Health.{handle_delivery_status}
use fullwell.Messaging.Service.Along.{Along-R}
use fullwell.Messaging.Service.Guards.{Guarded, entitled, refused, is_err, IsRunner}
use fullwell.Messaging.Service.Entitlement.{
  MayRegister, register_device-Guarded, MayRevoke, revoke-Guarded, revoke_runner-Guarded, MayUse,
  authorize_runner-Guarded, MayLink, create_link_challenge-Guarded, MayClaim, claim-Guarded,
  MayBeat, heartbeat-Guarded, MayComplete, complete-Guarded, MayConfirm, confirm_link-Guarded,
}
use fullwell.Messaging.Service.Admission.{
  is_turned_away, admitted, turned_away, MayEnter, handle_inbound_text-Screened, status-IsStill,
  health-IsStill, MayReport, report-Guarded,
}
use fullwell.Messaging.Service.Requests.{
  Request, registers, revokes, revokes_runner, authorizes, challenges, confirms, receives, claims,
  beats, completes, asks_status, reports_delivery, cleans_up, asks_health, serve,
}

module _ (P : Platform) (o : MessagingServiceOptions) where
  -- What each request has to bring along. The status of an account and the operator's health change
  -- nothing; the cleanup is the operator's, who needs nothing.
  unfoldable pub IsEntitled : Request → World → Type 0
  unfolding serve
  IsEntitled (registers p i) w = MayRegister P o p i w
  IsEntitled (revokes p device_id) w = MayRevoke P o p device_id w
  IsEntitled (revokes_runner p device_id) w = IsRunner p × MayRevoke P o p device_id w
  IsEntitled (authorizes p device_id household_id) w = MayUse P o p device_id household_id w
  IsEntitled (challenges p token i) w = MayLink P o p i w
  IsEntitled (confirms p token link_id) w = MayConfirm P o p token link_id w
  IsEntitled (receives i) w = MayEnter P o i w
  IsEntitled (claims p i) w = MayClaim P o p i w
  IsEntitled (beats p id device_id lease_id) w = MayBeat P o p id device_id lease_id w
  IsEntitled (completes p id i) w = MayComplete P o p id i w
  IsEntitled (asks_status p i) w = (serve P o (asks_status p i) w).store ≡ w.store
  IsEntitled (reports_delivery i) w = MayReport P o i w
  IsEntitled cleans_up w = Unit {0}
  IsEntitled asks_health w = (serve P o asks_health w).store ≡ w.store

  -- The answer is a refusal: an error, or for a text also that it is ignored or the channel closed.
  unfoldable pub is_refused : Request → World → Bool
  is_refused (registers p i) w = is_err (register_device P o p i w).0
  is_refused (revokes p device_id) w = is_err (revoke P o p device_id w).0
  is_refused (revokes_runner p device_id) w = is_err (revoke_runner P o p device_id w).0
  is_refused (authorizes p device_id household_id) w =
      is_err (authorize_runner P o p device_id household_id w).0
  is_refused (challenges p token i) w = is_err (create_link_challenge P o p token i w).0
  is_refused (confirms p token link_id) w = is_err (confirm_link P o p token link_id w).0
  is_refused (receives i) w = is_turned_away (handle_inbound_text P o i w).0
  is_refused (claims p i) w = is_err (claim P o p i w).0
  is_refused (beats p id device_id lease_id) w = is_err (heartbeat P o p id device_id lease_id w).0
  is_refused (completes p id i) w = is_err (complete P o p id i w).0
  is_refused (reports_delivery i) w = is_err (handle_delivery_status P o i w).0
  is_refused _ w = false

  decided :
      {A : Type 0} {Q : Type 0} {m : Action A} {w : World}
      → Guarded Q m w
      → Q ⊎ ((is_err (m w).0 ≡ true) × ((m w).1.store ≡ w.store))
  decided (entitled q) = inl q
  decided (refused e kept) = inr (e, kept)

  -- A request either brings along what it needs, or it is refused and changes nothing in the store.
  -- A runner needs its scopes and, but to register or revoke, an unrevoked device of its user; to
  -- register, to claim or to be authorized also the membership of the household, and for the last
  -- the active link of the device and the household; for a heartbeat or a completion it must hold
  -- the envelope's lease, not lapsed. A request for a link needs the membership and a device of that
  -- household; its confirmation a link of the user that waits for it, the membership of its
  -- household, and the browser that asked for it. A revocation needs an own device or link. A text
  -- needs a date in time, and a link code or an active link of its sender; a report of a delivery
  -- needs a date. Registrations, requests for a link, claims, texts and the link codes among them
  -- must be switched on, and all but registrations, revocations, completions and reports come before
  -- the cutoff. The status of an account and the operator's health change nothing, and the cleanup
  -- needs nothing.
  pub serve-IsEntitled :
      (r : Request) (w : World)
      → IsEntitled r w ⊎ ((is_refused r w ≡ true) × ((serve P o r w).store ≡ w.store))
  unfolding serve IsEntitled is_refused
  serve-IsEntitled (registers p i) w = decided (register_device-Guarded P o p i w)
  serve-IsEntitled (revokes p device_id) w = decided (revoke-Guarded P o p device_id w)
  serve-IsEntitled (revokes_runner p device_id) w =
      decided (revoke_runner-Guarded P o p device_id w)
  serve-IsEntitled (authorizes p device_id household_id) w =
      decided (authorize_runner-Guarded P o p device_id household_id w)
  serve-IsEntitled (challenges p token i) w =
      decided (create_link_challenge-Guarded P o p token i w)
  serve-IsEntitled (confirms p token link_id) w =
      decided (confirm_link-Guarded P o p token link_id w)
  serve-IsEntitled (receives i) w = elim (handle_inbound_text-Screened P o i w) [
    | admitted h ↦ inl h
    | turned_away e kept ↦ inr (e, kept)
  ]
  serve-IsEntitled (claims p i) w = decided (claim-Guarded P o p i w)
  serve-IsEntitled (beats p id device_id lease_id) w =
      decided (heartbeat-Guarded P o p id device_id lease_id w)
  serve-IsEntitled (completes p id i) w = decided (complete-Guarded P o p id i w)
  serve-IsEntitled (asks_status p i) w = inl (Along-R (status-IsStill P o p i) w)
  serve-IsEntitled (reports_delivery i) w = decided (report-Guarded P o i w)
  serve-IsEntitled cleans_up w = inl tt
  serve-IsEntitled asks_health w = inl (Along-R (health-IsStill P o) w)

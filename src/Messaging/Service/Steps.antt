-- ===== src/Messaging/Service/Steps.antt =====
-- messaging/service.ts: each operation of the service moves the store by calls of the store.
use fullwell.Prelude.{ℕ, String}
use fullwell.Prelude.Exec.{Exec}
use fullwell.Household.Types.{Principal}
use fullwell.Messaging.Types.{
  Instant, MessageQueueCapacity, MessageEnvelopeRecord, ProviderIdentityLinkRecord,
}
use fullwell.Messaging.Store.{MessageStore, StoreError}
use fullwell.Messaging.Invariant.Reach.{
  Step, Reach, here, next, device_saved, device_revoked, link_revoked, answered, receipt_saved,
}
use fullwell.Messaging.Service.World.{
  World, Platform, MessagingServiceOptions, ServiceText, on_store, try_store, read_clock, sleep,
  draw, draw_token, draw_id, encrypt, send_service_text, require_pre_cutoff,
}
use fullwell.Messaging.Service.Sending.{send_response, try_send_response}
use fullwell.Messaging.Service.Devices.{
  RunnerDeviceRegistration, register_device, revoke, revoke_runner, authorize_runner,
}
use fullwell.Messaging.Service.Along.{
  Along, along, IsPreorder, >>=-Along, pure-Along, ask_store-Along, guard-Along, if-Along,
  option_case-Along, decrypt-Along, require_runner_scopes-Along, require_membership-Along,
  require_device-Along,
}

-- Calls of the store lead from one state to the other.
abbrev pub Moves : MessageQueueCapacity → World → World → Type 0
Moves c u w = Reach c u.store w.store

pub joined_Reach :
    {c : MessageQueueCapacity} {s t u : MessageStore} → Reach c s t → Reach c t u → Reach c s u
joined_Reach h here = h
joined_Reach h (next g step) = next (joined_Reach h g) step

module _ {c : MessageQueueCapacity} where
  instance pub Moves-IsPreorder : IsPreorder (Moves c)
  Moves-IsPreorder = record { same = λ w. here; chain = λ u v w h g. joined_Reach h g }

  pub on_store-Along :
      {A : Type 0} (f : MessageStore → A × MessageStore)
      → ((s : MessageStore) → Step c s (f s).1)
      → Along (Moves c) (on_store f)
  unfolding on_store
  on_store-Along f h = along (λ w. next here (h w.store))

  pub try_store-Along :
      {A : Type 0} (m : Exec StoreError MessageStore A)
      → ((s : MessageStore) → Step c s (m s).1)
      → Along (Moves c) (try_store m)
  unfolding try_store
  try_store-Along m h = along (λ w. next here (h w.store))

module _ {c : MessageQueueCapacity} (P : Platform) where
  pub read_clock-Along : Along (Moves c) (read_clock P)
  unfolding read_clock
  read_clock-Along = along (λ w. here)

  pub sleep-Along : (n : ℕ) → Along (Moves c) (sleep P n)
  unfolding sleep
  sleep-Along n = along (λ w. here)

  pub draw-Along : (prefix : String) → Along (Moves c) (draw P prefix)
  unfolding draw
  draw-Along prefix = along (λ w. here)

  pub draw_token-Along : Along (Moves c) (draw_token P)
  unfolding draw_token
  draw_token-Along = along (λ w. here)

  pub draw_id-Along : (prefix start : String) → Along (Moves c) (draw_id P prefix start)
  unfolding draw_id
  draw_id-Along prefix start =
      >>=-Along (draw-Along prefix) (λ id. >>=-Along (guard-Along _ _) (λ x. pure-Along _))

  pub encrypt-Along : (text place : String) → Along (Moves c) (encrypt P text place)
  unfolding encrypt
  encrypt-Along text place = along (λ w. here)

  pub send_service_text-Along : (text : ServiceText) → Along (Moves c) (send_service_text P text)
  unfolding send_service_text
  send_service_text-Along text = along (λ w. here)

  pub require_pre_cutoff-Along :
      (o : MessagingServiceOptions) → Along (Moves c) (require_pre_cutoff P o)
  unfolding require_pre_cutoff
  require_pre_cutoff-Along o = >>=-Along read_clock-Along (λ now. guard-Along _ _)

module _ {c : MessageQueueCapacity} (P : Platform) (o : MessagingServiceOptions) where
  pub revoke-Along : (p : Principal) (device_id : String) → Along (Moves c) (revoke P o p device_id)
  unfolding revoke
  revoke-Along p device_id = >>=-Along (guard-Along _ _) (λ x.
      >>=-Along (read_clock-Along P) (λ now.
        >>=-Along (on_store-Along _ (device_revoked p.user_id device_id now))
          (λ d. >>=-Along (on_store-Along _ (link_revoked p.user_id now)) (λ l. guard-Along _ _))))

  pub revoke_runner-Along :
      (p : Principal) (device_id : String) → Along (Moves c) (revoke_runner P o p device_id)
  unfolding revoke_runner
  revoke_runner-Along p device_id =
      >>=-Along (require_runner_scopes-Along p) (λ x. revoke-Along p device_id)

  pub register_device-Along :
      (p : Principal) (i : RunnerDeviceRegistration) → Along (Moves c) (register_device P o p i)
  unfolding register_device
  register_device-Along p i = >>=-Along (guard-Along _ _) (λ x.
      >>=-Along (require_runner_scopes-Along p) (λ x. >>=-Along (guard-Along _ _) (λ x.
        >>=-Along (require_membership-Along p _) (λ x. >>=-Along (read_clock-Along P) (λ now.
          >>=-Along (draw_id-Along P "dev" "dev_")
            (λ id. >>=-Along (try_store-Along _ (device_saved _)) (λ x. pure-Along _)))))))

  pub authorize_runner-Along :
      (p : Principal) (device_id household_id : String)
      → Along (Moves c) (authorize_runner P o p device_id household_id)
  unfolding authorize_runner
  authorize_runner-Along p device_id household_id = >>=-Along (require_pre_cutoff-Along P o) (λ x.
      >>=-Along (require_runner_scopes-Along p) (λ x. >>=-Along (guard-Along _ _) (λ x.
        >>=-Along (guard-Along _ _) (λ x. >>=-Along (require_device-Along p _) (λ d.
          >>=-Along (guard-Along _ _) (λ x.
            >>=-Along (require_membership-Along p _)
              (λ x. >>=-Along (ask_store-Along _) (λ l. guard-Along _ _))))))))

  send_response-Along :
      (l : ProviderIdentityLinkRecord) (e : MessageEnvelopeRecord) (ciphertext : String)
      (now : Instant)
      → Along (Moves c) (send_response P o l e ciphertext now)
  unfolding send_response
  send_response-Along l e ciphertext now = >>=-Along (decrypt-Along P _ _) (λ response.
      >>=-Along (decrypt-Along P _ _) (λ destination.
        >>=-Along (send_service_text-Along P _) (λ delivery_id.
          >>=-Along (draw-Along P _) (λ receipt_id.
            >>=-Along (on_store-Along _ (receipt_saved _)) (λ x.
              >>=-Along (on_store-Along _ (answered e.id now))
                (λ marked. >>=-Along (guard-Along _ _) (λ x. pure-Along _)))))))

  pub try_send_response-Along :
      (l : ProviderIdentityLinkRecord) (e : MessageEnvelopeRecord) (now : Instant)
      → Along (Moves c) (try_send_response P o l e now)
  unfolding try_send_response
  try_send_response-Along l e now =
      option_case-Along _ (pure-Along _)
        (λ ciphertext. if-Along _ (send_response-Along l e ciphertext now) (pure-Along _))

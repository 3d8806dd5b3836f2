-- ===== src/Messaging/Service/StepsOfLinking.antt =====
-- messaging/service.ts: the steps of the store in the linking of an identity.
use fullwell.Prelude.{String}
use fullwell.Household.Types.{Principal}
use fullwell.Messaging.Types.{Instant, MessageQueueCapacity, ProviderLinkChallengeRecord}
use fullwell.Messaging.Invariant.Reach.{
  Reach, challenge_saved, challenge_consumed, link_created, link_confirmed, link_revoked,
}
use fullwell.Messaging.Service.World.{Platform, MessagingServiceOptions}
use fullwell.Messaging.Service.Linking.{
  WhatsAppLinkRequest, clear_current, create_link_challenge, greet, link_identity,
  consume_link_code, require_pending_link, confirm_link,
}
use fullwell.Messaging.Service.Along.{
  Along, along, >>=-Along, pure-Along, throw-Along, ask-Along, ask_store-Along, guard-Along,
  if-Along, option_case-Along, require_membership-Along, require_device-Along,
}
use fullwell.Messaging.Service.Steps.{
  Moves, Moves-IsPreorder, on_store-Along, try_store-Along, read_clock-Along, draw-Along,
  draw_token-Along, draw_id-Along, encrypt-Along, send_service_text-Along, require_pre_cutoff-Along,
}

module _ {c : MessageQueueCapacity} (P : Platform) (o : MessagingServiceOptions) where
  clear_current-Along : (p : Principal) (now : Instant) → Along (Moves c) (clear_current P o p now)
  unfolding clear_current
  clear_current-Along p now = >>=-Along (ask_store-Along _) (λ existing.
      option_case-Along _ (pure-Along _) (λ l.
        if-Along _ (>>=-Along (on_store-Along _ (link_revoked p.user_id now)) (λ x. pure-Along _))
          (throw-Along _)))

  pub create_link_challenge-Along :
      (p : Principal) (token : String) (i : WhatsAppLinkRequest)
      → Along (Moves c) (create_link_challenge P o p token i)
  unfolding create_link_challenge
  create_link_challenge-Along p token i = >>=-Along (guard-Along _ _) (λ x.
      >>=-Along (require_pre_cutoff-Along P o) (λ x. >>=-Along (guard-Along _ _) (λ x.
        >>=-Along (require_membership-Along p _) (λ x.
          >>=-Along (require_device-Along p _) (λ device. >>=-Along (guard-Along _ _) (λ x.
            >>=-Along (read_clock-Along P) (λ now. >>=-Along (clear_current-Along p now) (λ x.
              >>=-Along (draw_token-Along P) (λ t. >>=-Along (guard-Along _ _) (λ x.
                >>=-Along (draw-Along P _) (λ id.
                  >>=-Along (on_store-Along _ (challenge_saved _)) (λ x. pure-Along _))))))))))))

  greet-Along : (sender : String) → Along (Moves c) (greet P o sender)
  unfolding greet
  greet-Along sender =
      >>=-Along (draw_id-Along P "req" "req_")
        (λ id. >>=-Along (send_service_text-Along P _) (λ x. pure-Along _))

  link_identity-Along :
      (sender : String) (challenge : ProviderLinkChallengeRecord) (now until : Instant)
      → Along (Moves c) (link_identity P o sender challenge now until)
  unfolding link_identity
  link_identity-Along sender challenge now until = >>=-Along (draw_id-Along P "lnk" "lnk_") (λ id.
      >>=-Along (encrypt-Along P _ _) (λ destination.
        >>=-Along (try_store-Along _ (link_created _))
          (λ x. >>=-Along (if-Along _ (greet-Along sender) (pure-Along _)) (λ x. pure-Along _))))

  pub consume_link_code-Along :
      (sender token : String) (now until : Instant)
      → Along (Moves c) (consume_link_code P o sender token now until)
  unfolding consume_link_code
  consume_link_code-Along sender token now until =
      >>=-Along (on_store-Along _ (challenge_consumed (P.hash token) now)) (λ challenge.
        >>=-Along (ask-Along _) (λ w.
          option_case-Along _ (pure-Along _)
            (λ c. if-Along _ (link_identity-Along sender c now until) (pure-Along _))))

  require_pending_link-Along :
      (p : Principal) (link_id : String) → Along (Moves c) (require_pending_link P o p link_id)
  unfolding require_pending_link
  require_pending_link-Along p link_id = along (λ w. Reach.here)

  pub confirm_link-Along :
      (p : Principal) (token link_id : String) → Along (Moves c) (confirm_link P o p token link_id)
  unfolding confirm_link
  confirm_link-Along p token link_id = >>=-Along (require_pre_cutoff-Along P o) (λ x.
      >>=-Along (guard-Along _ _) (λ x. >>=-Along (require_pending_link-Along p link_id) (λ l.
        >>=-Along (require_membership-Along p _) (λ x. >>=-Along (read_clock-Along P) (λ now.
          >>=-Along (on_store-Along _ (link_confirmed p.user_id link_id (P.hash token) now))
            (λ confirmed. guard-Along _ _))))))

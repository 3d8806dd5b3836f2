-- ===== src/Messaging/Service/Entitlement.antt =====
-- messaging/service.ts: which requests may change the store, from the guards of each.
use fullwell.Prelude.{
  ◌+◌, String, true, not, ◌||◌, Option, some, none, ◌≡◌, refl, ap, sym, ◌∙◌, arith, ◌⊎◌, inl, inr,
  eq_iff, Option-cases, is_none,
}
use fullwell.Prelude.Exec.{ok}
use fullwell.Dict
use fullwell.Household.Types.{Principal}
use fullwell.Messaging.Types.{
  Instant, RunnerDeviceRecord, ProviderIdentityLinkRecord, MessageEnvelopeRecord,
}
use fullwell.Messaging.Store.{
  MessageStore, revoke_device, revoke_provider_link, find_current_link_for_user,
  find_active_link_for_user, confirm_provider_link, get_provider_link,
}
use fullwell.Messaging.Delivery
use fullwell.Messaging.Delivery.{Completion, complete_lease}
use fullwell.Messaging.Service.World.{
  ServiceError, World, Platform, MessagingServiceOptions, Action, ◌>>=◌, ◌>>◌, pure, guard,
  require_some, on_store, option_case, read_clock, encrypt, ask_store, not_found, lease_conflict,
  forbidden,
}
use fullwell.Messaging.Service.Devices.{
  RunnerDeviceRegistration, register_device, revoke, revoke_runner, authorize_runner, is_link_of,
}
use fullwell.Messaging.Service.Linking.{
  WhatsAppLinkRequest, create_link_challenge, confirm_link, require_pending_link,
}
use fullwell.Messaging.Service.Work.{
  RunnerClaimRequest, RunnerCompletion, claim, heartbeat, complete, encrypt_session,
}
use fullwell.Messaging.Service.Guards.{
  Guarded, entitled, refused, map-Guarded, last_test, through, test, IsRunner, scopes, IsMember,
  member, IsOwned, owned, IsEarly, tick, early,
}
use fullwell.Messaging.Service.Finds.{
  Finds, revoke_device-cases, revoke_provider_link-cases, HoldsLease, heartbeat-Finds,
  complete_lease-Finds, IsPending, confirm-Finds, from_store,
}

mapped :
    {A : Type 0} {Q R : Type 0} (f : MessageStore → Option A × MessageStore) (s : MessageStore)
    → (Q → R)
    → Finds Q f s
    → Finds R f s
unfolding Finds
mapped f s g (inl x) = inl x
mapped f s g (inr q) = inr (g q)

module _ (P : Platform) (o : MessagingServiceOptions) where
  abbrev pub MayRegister : Principal → RunnerDeviceRegistration → World → Type 0
  MayRegister p i w = (o.linking_enabled ≡ true) × IsRunner p × IsMember p i.household_id w

  pub register_device-Guarded :
      (p : Principal) (i : RunnerDeviceRegistration) (w : World)
      → Guarded (MayRegister p i w) (register_device P o p i) w
  unfolding register_device
  register_device-Guarded p i w = test _ _ _ w (λ linking. scopes p _ w (λ runner.
      test _ _ _ w (λ valid. member p _ _ w (λ belongs. entitled (linking, runner, belongs)))))

  -- The device is the principal's, or the principal has a link.
  abbrev pub MayRevoke : Principal → String → World → Type 0
  MayRevoke p device_id w =
      ((d : RunnerDeviceRecord) × IsOwned p device_id d w.store)
      ⊎ ((l : ProviderIdentityLinkRecord) × (find_current_link_for_user p.user_id w.store ≡ some l))

  revoke_both :
      (p : Principal) (device_id : String) (now : Instant) (w : World)
      → Guarded
          (MayRevoke p device_id w)
          (do
            device_revoked ← on_store (revoke_device p.user_id device_id now)
            link_revoked ← on_store (revoke_provider_link p.user_id now)
            guard (device_revoked || link_revoked) not_found)
          w
  unfolding on_store ◌>>=◌ guard
  revoke_both p device_id now w = elim (revoke_device-cases p device_id now w.store) [
    | inr (d, owns) ↦ entitled (inl (d, owns))
    | inl unowned ↦ elim (revoke_provider_link-cases p.user_id now w.store) [
      | inr (l, has) ↦ entitled (inr (l, has))
      | inl neither ↦ refused (rw (unowned, neither) refl) (rw (unowned, neither) refl)
    ]
  ]

  pub revoke-Guarded :
      (p : Principal) (device_id : String) (w : World)
      → Guarded (MayRevoke p device_id w) (revoke P o p device_id) w
  unfolding revoke read_clock
  revoke-Guarded p device_id w = test _ _ _ w (λ valid.
      through (read_clock P) _ w refl (λ now passed. revoke_both p device_id now (tick P o w)))

  pub revoke_runner-Guarded :
      (p : Principal) (device_id : String) (w : World)
      → Guarded (IsRunner p × MayRevoke p device_id w) (revoke_runner P o p device_id) w
  unfolding revoke_runner
  revoke_runner-Guarded p device_id w =
      scopes p _ w (λ runner. map-Guarded (λ h. (runner, h)) (revoke-Guarded p device_id w))

  -- The link is the user's, of the device and the household.
  abbrev pub MayUse : Principal → String → String → World → Type 0
  MayUse p device_id household_id w =
      IsEarly P o w
      × IsRunner p
      × IsMember p household_id w
      × ((d : RunnerDeviceRecord) × IsOwned p device_id d w.store × (d.household_id ≡ household_id))
      × (is_link_of device_id household_id (find_active_link_for_user p.user_id w.store) ≡ true)

  pub authorize_runner-Guarded :
      (p : Principal) (device_id household_id : String) (w : World)
      → Guarded
          (MayUse p device_id household_id w)
          (authorize_runner P o p device_id household_id)
          w
  unfolding authorize_runner ask_store
  authorize_runner-Guarded p device_id household_id w = early P o _ w (λ soon.
      let v : World = tick P o w in
      scopes p _ v (λ runner. test _ _ _ v (λ valid. test _ _ _ v (λ valid'.
        owned p _ _ v (λ d owns. test _ _ _ v (λ here. member p _ _ v (λ belongs.
          through (ask_store (find_active_link_for_user p.user_id)) _ v refl (λ link found.
            last_test _ _ v (λ linked. (
              soon,
              runner,
              belongs,
              (d, owns, ground (arith, eq_iff d.household_id household_id)),
              ground arith,
            ))))))))))

  abbrev pub MayLink : Principal → WhatsAppLinkRequest → World → Type 0
  MayLink p i w =
      (o.linking_enabled ≡ true)
      × IsEarly P o w
      × IsMember p i.household_id w
      × ((d : RunnerDeviceRecord) × IsOwned p i.device_id d w.store
          × (d.household_id ≡ i.household_id))

  pub create_link_challenge-Guarded :
      (p : Principal) (token : String) (i : WhatsAppLinkRequest) (w : World)
      → Guarded (MayLink p i w) (create_link_challenge P o p token i) w
  unfolding create_link_challenge
  create_link_challenge-Guarded p token i w = test _ _ _ w (λ linking. early P o _ w (λ soon.
      let v : World = tick P o w in
      test _ _ _ v (λ valid. member p _ _ v (λ belongs. owned p _ _ v (λ d owns.
        test _ _ _ v (λ here. entitled (
          linking,
          soon,
          belongs,
          (d, owns, ground (arith, eq_iff d.household_id i.household_id)),
        )))))))

  abbrev pub MayClaim : Principal → RunnerClaimRequest → World → Type 0
  MayClaim p i w =
      (o.runner_claims_enabled ≡ true)
      × IsEarly P o w
      × IsRunner p
      × ((d : RunnerDeviceRecord) × IsOwned p i.device_id d w.store × IsMember p d.household_id w)

  pub claim-Guarded :
      (p : Principal) (i : RunnerClaimRequest) (w : World)
      → Guarded (MayClaim p i w) (claim P o p i) w
  unfolding claim
  claim-Guarded p i w = test _ _ _ w (λ claims. early P o _ w (λ soon.
      let v : World = tick P o w in
      scopes p _ v (λ runner. test _ _ _ v (λ valid. owned p _ _ v (λ d owns.
        member p _ _ v (λ belongs. entitled (claims, soon, runner, (d, owns, belongs))))))))

  -- The lease as it stands when the request reads the clock for the n-th time.
  abbrev pub MayBeat : Principal → String → String → String → World → Type 0
  MayBeat p envelope_id device_id lease_id w =
      IsEarly P o w
      × IsRunner p
      × ((d : RunnerDeviceRecord) × IsOwned p device_id d w.store)
      × HoldsLease envelope_id device_id lease_id (P.now_at (w.reads + 1) w.slept) w.store

  -- The call of the store and what follows on it.
  beat_lease :
      (envelope_id device_id lease_id : String) (now : Instant) (w : World)
      → Guarded
          (HoldsLease envelope_id device_id lease_id now w.store)
          (do
            envelope ←
                on_store (
                  Delivery.heartbeat envelope_id device_id lease_id now
                    (now + o.lease_milliseconds))
            guard (not (is_none envelope)) lease_conflict
            pure (now + o.lease_milliseconds))
          w
  unfolding guard ◌>>=◌ pure
  beat_lease envelope_id device_id lease_id now w =
      from_store _ _ w
        (heartbeat-Finds envelope_id device_id lease_id now (now + o.lease_milliseconds) w.store)
        (λ u. (refl, refl))

  pub heartbeat-Guarded :
      (p : Principal) (envelope_id device_id lease_id : String) (w : World)
      → Guarded
          (MayBeat p envelope_id device_id lease_id w)
          (heartbeat P o p envelope_id device_id lease_id)
          w
  unfolding heartbeat read_clock
  heartbeat-Guarded p envelope_id device_id lease_id w = early P o _ w (λ soon.
      let v : World = tick P o w in
      scopes p _ v (λ runner. test _ _ _ v (λ valid. test _ _ _ v (λ valid'.
        owned p _ _ v (λ d owns. through (read_clock P) _ v refl (λ now passed.
          let same : now ≡ P.now_at v.reads v.slept = ground arith in
          map-Guarded (λ h. (soon, runner, (d, owns), rw (sym same) h))
            (beat_lease envelope_id device_id lease_id now (tick P o v))))))))

  abbrev pub MayComplete : Principal → String → RunnerCompletion → World → Type 0
  MayComplete p envelope_id i w =
      IsRunner p
      × ((d : RunnerDeviceRecord) × IsOwned p i.device_id d w.store)
      × HoldsLease envelope_id i.device_id i.lease_id (P.now_at w.reads w.slept) w.store

  encrypt_session_store :
      (envelope_id : String) (session : Option String) (w : World)
      → (encrypt_session P o envelope_id session w).1.store ≡ w.store
  unfolding encrypt_session option_case pure encrypt ◌>>=◌
  encrypt_session_store envelope_id none w = refl
  encrypt_session_store envelope_id (some session) w = refl

  complete_held :
      (i : Completion) (e : ServiceError) {B : Type 0} (f : MessageEnvelopeRecord → Action B)
      (w : World)
      → Guarded
          (HoldsLease i.envelope_id i.device_id i.lease_id i.now w.store)
          (on_store (complete_lease i) >>= λ completed. (require_some completed e >>= f))
          w
  unfolding require_some ◌>>=◌
  complete_held i e f w = from_store _ _ w (complete_lease-Finds i w.store) (λ u. (refl, refl))

  pub complete-Guarded :
      (p : Principal) (envelope_id : String) (i : RunnerCompletion) (w : World)
      → Guarded (MayComplete p envelope_id i w) (complete P o p envelope_id i) w
  unfolding complete read_clock encrypt
  complete-Guarded p envelope_id i w = scopes p _ w (λ runner. test _ _ _ w (λ valid.
      test _ _ _ w (λ valid'. owned p _ _ w (λ d owns.
        through (read_clock P) _ w refl (λ now passed.
          let same : now ≡ P.now_at w.reads w.slept = ground arith in
          let v : World = tick P o w in
          through (encrypt P _ _) _ v refl (λ response passed'.
            let u : World = record v { draws = v.draws + 1 } in
            let kept = encrypt_session_store envelope_id i.host_session_id u in
            through (encrypt_session P o envelope_id i.host_session_id) _ u kept
              (λ session passed''.
                map-Guarded (λ h. (runner, (d, owns), rw (sym same) (rw kept at h)))
                  (complete_held _ _ _ _))))))))

  abbrev pub MayConfirm : Principal → String → String → World → Type 0
  MayConfirm p token link_id w =
      IsEarly P o w
      × ((l : ProviderIdentityLinkRecord) × IsPending p.user_id link_id (P.hash token)
            (P.now_at (w.reads + 1) w.slept) w.store l
          × IsMember p l.household_id w)

  confirm_held :
      (user_id link_id binding : String) (now : Instant) (w : World)
      → Guarded
          ((l : ProviderIdentityLinkRecord) × IsPending user_id link_id binding now w.store l)
          (on_store (confirm_provider_link user_id link_id binding now) >>= λ confirmed.
            guard (not (is_none confirmed)) forbidden)
          w
  unfolding guard
  confirm_held user_id link_id binding now w =
      from_store _ _ w (confirm-Finds user_id link_id binding now w.store) (λ u. (refl, refl))

  pending_stored :
      (p : Principal) (link_id : String) (l : ProviderIdentityLinkRecord) (w : World)
      → (require_pending_link P o p link_id w).0 ≡ ok l
      → Dict.get w.store.links link_id ≡ some l
  unfolding require_pending_link get_provider_link
  pending_stored p link_id l w h = elim (Option-cases (Dict.get w.store.links link_id)) [
    | inl absent ↦ absurd (ground arith)
    | inr (x, found) ↦ let same : x ≡ l = ground arith in found ∙ ap some same
  ]

  pub confirm_link-Guarded :
      (p : Principal) (token link_id : String) (w : World)
      → Guarded (MayConfirm p token link_id w) (confirm_link P o p token link_id) w
  unfolding confirm_link read_clock require_pending_link
  confirm_link-Guarded p token link_id w = early P o _ w (λ soon.
      let v : World = tick P o w in
      test _ _ _ v (λ valid. through (require_pending_link P o p link_id) _ v refl (λ l found.
        member p _ _ v (λ belongs. through (read_clock P) _ v refl (λ now passed.
          let same : now ≡ P.now_at v.reads v.slept = ground arith in
          map-Guarded
            (λ (x, pending).
              let link : l ≡ x =
                ground (arith, pending_stored p link_id l v found, pending.stored) in
              (
                soon,
                (
                  x,
                  rw (sym same) pending,
                  rw (ap (λ (y : ProviderIdentityLinkRecord). y.household_id) link) at belongs,
                ),
              ))
            (confirm_held p.user_id link_id (P.hash token) now (tick P o v)))))))

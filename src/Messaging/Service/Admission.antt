-- ===== src/Messaging/Service/Admission.antt =====
-- messaging/service.ts: what a text or a report has to bring along to change the store, and that
-- the status and the health change nothing.
use fullwell.Prelude.{
  ◌+◌, ◌*◌, String, Bool, true, false, ◌&&◌, Option, some, none, ◌≡◌, refl, ap, sym, ◌∙◌, arith,
  ◌<◌, ◌≤◌, ◌⊎◌, inl, inr, Option-cases, Bool-cases, if◌then◌else◌, leb, ltb,
}
use fullwell.Prelude.Exec.{Result, ok, err, Result-cases}
use fullwell.Prelude.Text.{has_length}
use fullwell.Household.Types.{Principal}
use fullwell.Messaging.Types.{Instant, ProviderIdentityLinkRecord}
use fullwell.Messaging.Store.{get_device, find_active_link_by_identity_hash}
use fullwell.Messaging.Service.World.{
  World, ServiceError, Platform, MessagingServiceOptions, Action, ◌>>=◌, pure, guard, ask,
  of_result, read_clock, option_case, is_pre_cutoff, require_some,
}
use fullwell.Messaging.Service.Linking.{parse_link_token}
use fullwell.Messaging.Service.Inbound.{
  ProviderInboundText, InboundOutcome, is_unrevoked, check_time, take_text, take_link_token,
  handle_in_window, handle_open, handle_inbound_text,
}
use fullwell.Messaging.Service.Health.{
  Setup, ProviderDeliveryStatus, account_status, enabled_status, unlinked_status, setup_status,
  link_status, operator_health, handle_delivery_status,
}
use fullwell.Messaging.Service.Along.{
  Along, along, IsPreorder, >>=-Along, pure-Along, ask-Along, ask_store-Along, guard-Along,
  if-Along, option_case-Along, require_membership-Along, require_device-Along,
}
use fullwell.Messaging.Service.Guards.{Guarded, entitled, through, test, IsEarly, tick}

-- A text that is not taken in: it is refused, or answered as ignored or as sent to a closed channel.
abbrev pub is_turned_away : Result ServiceError InboundOutcome → Bool
is_turned_away (err e) = true
is_turned_away (ok InboundOutcome.ignored) = true
is_turned_away (ok InboundOutcome.channel_disabled) = true
is_turned_away (ok _) = false

-- Either `Q` holds, or the text is turned away and the store stays as it is.
pub data Screened (Q : Type 0) (m : Action InboundOutcome) (w : World) : Type 0 where
  admitted : Q → Screened Q m w
  turned_away : is_turned_away (m w).0 ≡ true → (m w).1.store ≡ w.store → Screened Q m w

screened :
    {A : Type 0} {Q : Type 0} (m : Action A) (f : A → Action InboundOutcome) (w : World)
    → (m w).1.store ≡ w.store
    → ((a : A) → (m w).0 ≡ ok a → Screened Q (f a) (m w).1)
    → Screened Q (m >>= f) w
unfolding ◌>>=◌
screened m f w same rest = elim (Result-cases (m w).0) [
  | inl (e, thrown) ↦ turned_away (rw thrown refl) (rw thrown same)
  | inr (a, passed) ↦ elim (rest a passed) [
    | admitted q ↦ admitted q
    | turned_away e kept ↦ turned_away (rw passed e) (rw passed (kept ∙ same))
  ]
]

provided :
    {Q : Type 0} (b : Bool) (m : Action InboundOutcome) (a : InboundOutcome) (w : World)
    → is_turned_away (ok a) ≡ true
    → (b ≡ true → Screened Q m w)
    → Screened Q (if b then m else pure a) w
unfolding pure
provided true m a w away rest = rest refl
provided false m a w away rest = turned_away away refl

unless :
    {Q : Type 0} (b : Bool) (m : Action InboundOutcome) (a : InboundOutcome) (w : World)
    → is_turned_away (ok a) ≡ true
    → (b ≡ false → Screened Q m w)
    → Screened Q (if b then pure a else m) w
unfolding pure
unless true m a w away rest = turned_away away refl
unless false m a w away rest = rest refl

-- No change of the store.
abbrev pub IsStill : World → World → Type 0
IsStill u w = w.store ≡ u.store

instance IsStill-IsPreorder : IsPreorder IsStill
IsStill-IsPreorder = record { same = λ w. refl; chain = λ u v w a b. b ∙ a }

module _ (P : Platform) (o : MessagingServiceOptions) where
  -- Where a text comes from: it is a link code and linking is on, or its sender has an active link
  -- whose user is a member of the household and whose device is not revoked.
  abbrev pub IsFrom : ProviderInboundText → World → Type 0
  IsFrom i w =
      ((token : String) × (parse_link_token (P.trim i.text) ≡ some token)
        × (o.linking_enabled ≡ true))
      ⊎ ((l : ProviderIdentityLinkRecord) × (find_active_link_by_identity_hash
              (P.hash i.sender_identity) w.store
            ≡ some l)
          × (w.is_active_member l.user_id l.household_id ≡ true)
          × (is_unrevoked (get_device l.runner_device_id w.store) ≡ true))

  take_text-Screened :
      (i : ProviderInboundText) (text : String) (at now : Instant) (w : World)
      → Screened (IsFrom i w) (take_text P o i text at now) w
  unfolding take_text ask ◌>>=◌ option_case pure
  take_text-Screened i text at now w =
      elim (Option-cases (find_active_link_by_identity_hash (P.hash i.sender_identity) w.store)) [
        | inl stranger ↦ turned_away (rw stranger refl) (rw stranger refl)
        | inr (l, found) ↦
            elim (Bool-cases (
              w.is_active_member l.user_id l.household_id
              && is_unrevoked (get_device l.runner_device_id w.store))) [
                | inl may ↦ admitted (inr (l, found, ground arith, ground arith))
                | inr may_not ↦ turned_away (rw (found, may_not) refl) (rw (found, may_not) refl)
              ]
      ]

  text-Screened :
      (i : ProviderInboundText) (at now : Instant) (w : World) (token : Option String)
      → parse_link_token (P.trim i.text) ≡ token
      → Screened
          (IsFrom i w)
          (option_case token
            (take_text P o i (P.trim i.text) at now)
            (λ token. take_link_token P o i token at now))
          w
  unfolding option_case take_link_token pure
  text-Screened i at now w none parsed = take_text-Screened i (P.trim i.text) at now w
  text-Screened i at now w (some token) parsed = elim (Bool-cases o.linking_enabled) [
    | inl linking ↦ admitted (inl (token, parsed, linking))
    | inr off ↦ turned_away (rw off refl) (rw off refl)
  ]

  check_time_lem :
      (occurred_at : String) (now at : Instant)
      → check_time P o occurred_at now ≡ ok at
      → (P.parse_date occurred_at ≡ some at) × (at ≤ now + 5 * 60000)
  unfolding check_time
  check_time_lem occurred_at now at h = elim (Option-cases (P.parse_date occurred_at)) [
    | inl undated ↦ absurd (ground arith)
    | inr (x, dated) ↦ let same : x ≡ at = ground arith in (dated ∙ ap some same, ground arith)
  ]

  -- A text that is looked at at the time `now`.
  abbrev pub IsOpen : ProviderInboundText → Instant → World → Type 0
  IsOpen i now w =
      ((at : Instant) × (P.parse_date i.occurred_at ≡ some at)
        × (at ≤ now + 5 * 60000)
        × (now < at + 24 * 60 * 60000))
      × (has_length 1 1024 (P.trim i.text) ≡ true)
      × IsFrom i w

  handle_open-Screened :
      (i : ProviderInboundText) (now : Instant) (w : World)
      → Screened (IsOpen i now w) (handle_open P o i now) w
  unfolding handle_open handle_in_window guard of_result
  handle_open-Screened i now w = screened (of_result _) _ w refl (λ at passed.
      let (dated, soon) = check_time_lem i.occurred_at now at passed in
      unless (leb (at + 24 * 60 * 60000) now) _ _ w refl (λ fresh.
        screened (guard _ _) _ w refl (λ x right.
          elim (text-Screened i at now w (parse_link_token (P.trim i.text)) refl) [
            | admitted h ↦ admitted ((at, dated, soon, ground arith), ground arith, h)
            | turned_away e kept ↦ turned_away e kept
          ])))

  -- What a text has to bring along: the intake is on, it is before the cutoff, the text has a date
  -- that is at most five minutes ahead and less than a day ago, and it is of the right length.
  abbrev pub MayEnter : ProviderInboundText → World → Type 0
  MayEnter i w = (o.intake_enabled ≡ true) × IsEarly P o w × IsOpen i (P.now_at w.reads w.slept) w

  pub handle_inbound_text-Screened :
      (i : ProviderInboundText) (w : World) → Screened (MayEnter i w) (handle_inbound_text P o i) w
  unfolding handle_inbound_text read_clock is_pre_cutoff
  handle_inbound_text-Screened i w = screened (read_clock P) _ w refl (λ now passed.
      let same : now ≡ P.now_at w.reads w.slept = ground arith in
      provided (o.intake_enabled && ltb now o.free_service_send_cutoff) _ _ (tick P o w) refl
        (λ may. elim (handle_open-Screened i now (tick P o w)) [
          | admitted h ↦
              let h' : IsOpen i (P.now_at w.reads w.slept) w = rw (sym same) h in
              admitted (ground arith, ground (arith, same), h')
          | turned_away e kept ↦ turned_away e kept
        ]))

  pub status-IsStill : (p : Principal) (i : Setup) → Along IsStill (account_status P o p i)
  unfolding account_status enabled_status unlinked_status setup_status link_status read_clock
  status-IsStill p i =
      if-Along _
        (>>=-Along (along (λ w. refl)) (λ now.
          if-Along _
            (>>=-Along (ask-Along _) (λ found.
              option_case-Along _
                (option_case-Along _ (pure-Along _) (λ d. option_case-Along _ (pure-Along _) (λ h.
                  >>=-Along (guard-Along _ _) (λ x. >>=-Along (guard-Along _ _) (λ x.
                    >>=-Along (require_device-Along p _) (λ e.
                      >>=-Along (require_membership-Along p _)
                        (λ x. >>=-Along (guard-Along _ _) (λ x. pure-Along _))))))))
                (λ x.
                  option_case-Along _ (>>=-Along (along (λ w. refl)) (λ later. pure-Along _))
                    (λ at. pure-Along _))))
            (pure-Along _)))
        (pure-Along _)

  pub health-IsStill : Along IsStill (operator_health P o)
  unfolding operator_health read_clock
  health-IsStill =
      >>=-Along (along (λ w. refl)) (λ now. >>=-Along (ask_store-Along _) (λ x. pure-Along _))

  -- A report of a delivery has a date that is at most five minutes ahead.
  abbrev pub MayReport : ProviderDeliveryStatus → World → Type 0
  MayReport i w =
      (at : Instant) × (P.parse_date i.occurred_at ≡ some at)
      × (at ≤ P.now_at w.reads w.slept + 5 * 60000)

  found_lem :
      {A : Type 0} (x : Option A) (a : A) (e : ServiceError) (w : World)
      → (require_some x e w).0 ≡ ok a
      → x ≡ some a
  unfolding require_some
  found_lem none a e w h = absurd (ground arith)
  found_lem (some b) a e w h = let same : b ≡ a = ground arith in ap some same

  pub report-Guarded :
      (i : ProviderDeliveryStatus) (w : World)
      → Guarded (MayReport i w) (handle_delivery_status P o i) w
  unfolding handle_delivery_status read_clock require_some
  report-Guarded i w = through (require_some _ _) _ w refl (λ at dated.
      through (read_clock P) _ w refl (λ now passed.
        test _ _ _ (tick P o w) (λ soon. entitled (at, found_lem _ at _ w dated, ground arith))))

-- ===== src/Household/Onboarding.antt =====
-- domain/onboarding.ts: the steps of onboarding.
use fullwell.Prelude.{
  ℕ, ◌+◌, String, Bool, true, false, not, ◌&&◌, ◌||◌, Option, none, some, nat_eq, if◌then◌else◌,
  is_none,
}
use fullwell.Prelude.Exec.{Result, ok, err}
use fullwell.Household.Types.{
  Instant, OnboardingSection, OnboardingSkipReason, not_now, no_sources, user_declined,
  OnboardingProgress, in_progress, skipped, OnboardingRecord, AppError, revision_conflict,
  validation_failed,
}
use fullwell.Household.Store.{revision_of}

pub data OnboardingAction : Type 0 where
  start resume : OnboardingAction
  skip : OnboardingSkipReason → OnboardingAction

pub record TransitionInput : Type 0 where
  pub user_id : String
  pub household_id : String
  pub section : OnboardingSection
  pub transition : OnboardingAction
  pub expected_revision : ℕ
  pub occurred_at : Instant

-- `current?.status === "skipped"`
abbrev pub is_skipped : Option OnboardingRecord → Bool
is_skipped none = false
is_skipped (some r) = elim r.progress [ in_progress ↦ false | skipped reason ↦ true ]

abbrev pub record_with : TransitionInput → OnboardingProgress → OnboardingRecord
record_with i progress = record {
  user_id = i.user_id;
  household_id = i.household_id;
  section = i.section;
  progress = progress;
  revision = i.expected_revision + 1;
  updated_at = i.occurred_at;
}

unfoldable pub act :
    Option OnboardingRecord → TransitionInput → OnboardingAction → Result AppError OnboardingRecord
act current i start =
    if not (is_none current) then err validation_failed else ok (record_with i in_progress)
act current i resume =
    if not (is_skipped current) then err validation_failed else ok (record_with i in_progress)
act current i (skip reason) =
    if is_skipped current then err validation_failed else ok (record_with i (skipped reason))

unfoldable pub transition_onboarding :
    Option OnboardingRecord → TransitionInput → Result AppError OnboardingRecord
unfolding act
transition_onboarding current i =
    if not (nat_eq (revision_of current) i.expected_revision)
    then err revision_conflict
    else act current i i.transition

pub record SkipInput : Type 0 where
  pub user_id : String
  pub household_id : String
  pub section : OnboardingSection
  pub reason : OnboardingSkipReason
  pub expected_revision : ℕ
  pub occurred_at : Instant

abbrev pub same_reason : OnboardingSkipReason → OnboardingSkipReason → Bool
same_reason not_now not_now = true
same_reason no_sources no_sources = true
same_reason user_declined user_declined = true
same_reason _ _ = false

-- The skip is there already, before or after the expected revision.
abbrev pub is_skip_done : Option OnboardingRecord → SkipInput → Bool
is_skip_done none i = false
is_skip_done (some r) i = elim r.progress [
  | in_progress ↦ false
  | skipped reason ↦
      same_reason reason i.reason
      && (nat_eq r.revision i.expected_revision || nat_eq r.revision (i.expected_revision + 1))
]

abbrev pub skip_transition : SkipInput → TransitionInput
skip_transition i = record {
  user_id = i.user_id;
  household_id = i.household_id;
  section = i.section;
  transition = skip i.reason;
  expected_revision = i.expected_revision;
  occurred_at = i.occurred_at;
}

unfoldable pub next_onboarding_skip :
    Option OnboardingRecord → SkipInput → Result AppError (Option OnboardingRecord)
unfolding transition_onboarding
next_onboarding_skip current i =
    if is_skip_done current i
    then ok none
    else elim (transition_onboarding current (skip_transition i)) [
      | err e ↦ err e
      | ok r ↦ ok (some r)
    ]

-- ===== src/Household/Tests.antt =====
-- Runs on a small household, and the theorems at concrete inputs.
use fullwell.Prelude.{
  ◌+◌, ◌≤◌, String, ◌≡◌, refl, true, false, none, some, List, [], ◌∷◌, arith, filter, find, any,
  All,
}
use fullwell.Prelude.Exec.{ok}
use fullwell.Dict
use fullwell.Dict.{values}
use fullwell.Household.Exports.{run_cleanup}
use fullwell.Household.Exports.Cleanup.{is_reclaimable, run_cleanup_lem}
use fullwell.Household.Types.{
  owner, editor, ready, MembershipRecord, snacks, not_now, in_progress, skipped, OnboardingRecord,
  ExportDownloadRecord, Principal,
}
use fullwell.Household.Store
use fullwell.Household.Store.{OperationalStore, MembershipEntry}
use fullwell.Household.Onboarding.{
  start, TransitionInput, act, transition_onboarding, SkipInput, next_onboarding_skip,
}
use fullwell.Household.Authorization.{require_membership}
use fullwell.Household.Mutations.{
  received, git_committed, MutationRecord, MutationUpdate, has_key, get_mutation, save_mutation,
  moved, transition_mutation,
}
use fullwell.Household.Mutations.Laws.{transition_mutation-save_mutation}
use fullwell.Household.Members.{
  leave_membership_lem, IsAuthorized, require_membership-IsAuthorized,
  compare_and_set_onboarding-transition_onboarding,
}

abbrev member : MembershipRecord
member = record {
  household_id = "hsh_1";
  user_id = "usr_1";
  actor_id = "act_1";
  role = owner;
  projection_head = "h";
  removed_at = none;
}

abbrev entry_1 : MembershipEntry
entry_1 = record { household_key = "hsh_1"; user_key = "usr_1"; membership = member }

abbrev entry_2 : MembershipEntry
entry_2 = record {
  household_key = "hsh_1";
  user_key = "usr_2";
  membership = record member { user_id = "usr_2" };
}

abbrev download : ExportDownloadRecord
download = record {
  id = "exp_1";
  household_id = "hsh_1";
  requested_by = "usr_1";
  format = "git_bundle";
  token_hash = "#export";
  object_path = "exports/1";
  content_hash = "#content";
  repository_head = "h";
  expires_at = 100;
  downloaded_at = none;
  created_at = 1;
}

abbrev store : OperationalStore
store = record {
  households =
      (
        "hsh_1",
        record {
          id = "hsh_1";
          name = "Home";
          repository_head = "h";
          provisioning_state = ready;
          created_at = 0;
        },
      )
      ∷ [];
  memberships = entry_1 ∷ entry_2 ∷ [];
  default_households = ("usr_1", "hsh_1") ∷ [];
  onboarding = [];
  export_downloads = ("#export", download) ∷ [];
}

-- What a run of the store opens.
running : Unit {0}
unfolding Store.put_membership Store.stored_membership Store.get_membership Store.get_household
    Store.active_owner_count Store.leave_membership Store.claim_export_download
    Store.compare_and_set_onboarding act transition_onboarding next_onboarding_skip
    require_membership Dict.get Dict.set Dict.delete filter find
running = tt

leave_membership_lem_example :
    1 ≤ Store.active_owner_count "hsh_1" (Store.leave_membership "usr_1" "hsh_1" 9 store).1
unfolding running
leave_membership_lem_example = leave_membership_lem "usr_1" "hsh_1" 9 store refl (omega arith)

abbrev principal : Principal
principal = record {
  user_id = "usr_1";
  actor_id = "act_1";
  display_name = "Ada";
  scopes = [];
  client = "codex";
}

require_membership-IsAuthorized_example : IsAuthorized principal "hsh_1" editor store member
unfolding running
require_membership-IsAuthorized_example =
    require_membership-IsAuthorized principal "hsh_1" editor store member refl

abbrev claimed : OperationalStore
claimed = (Store.claim_export_download "#export" "usr_1" 7 store).1

abbrev step : TransitionInput
step = record {
  user_id = "usr_1";
  household_id = "hsh_1";
  section = snacks;
  transition = start;
  expected_revision = 0;
  occurred_at = 3;
}

abbrev started : OnboardingRecord
started = record {
  user_id = "usr_1";
  household_id = "hsh_1";
  section = snacks;
  progress = in_progress;
  revision = 1;
  updated_at = 3;
}

compare_and_set_onboarding-transition_onboarding_example :
    ((Store.compare_and_set_onboarding started 0 store).0 ≡ true)
    × (1 ≡ 0 + 1)
    × (find
          (Store.same_onboarding started)
          (Store.compare_and_set_onboarding started 0 store).1.onboarding
        ≡ some started)
unfolding running
compare_and_set_onboarding-transition_onboarding_example =
    compare_and_set_onboarding-transition_onboarding step store none started refl refl

abbrev skip_input : SkipInput
skip_input = record {
  user_id = "usr_1";
  household_id = "hsh_1";
  section = snacks;
  reason = not_now;
  expected_revision = 1;
  occurred_at = 4;
}

abbrev skipped_record : OnboardingRecord
skipped_record = record started { progress = skipped not_now; revision = 2; updated_at = 4 }

-- One download has expired, and its object can be removed.
run_cleanup_lem_example :
    ((run_cleanup (λ path. true) 200 store).0.removed
        + (run_cleanup (λ path. true) 200 store).0.failed
      ≡ (run_cleanup (λ path. true) 200 store).0.checked)
    × All
        (λ r. is_reclaimable 200 r ≡ true → true ≡ false)
        (values (run_cleanup (λ path. true) 200 store).1.export_downloads)
run_cleanup_lem_example = run_cleanup_lem (λ path. true) 200 store

abbrev mutation : MutationRecord String
mutation = record {
  request_id = "req_1";
  user_id = "usr_1";
  tool = "record";
  idempotency_key = "key_1";
  household_id = some "hsh_1";
  state = received;
  commit_id = none;
  response = none;
  failure = none;
  created_at = 1;
  updated_at = 1;
}

abbrev commit_found : MutationUpdate String
commit_found = record { commit_id = some "h"; response = none; failure = none }

abbrev transitioned : List (MutationRecord String)
transitioned =
    (transition_mutation "req_1" git_committed commit_found 5 (save_mutation mutation [])).1

transition_mutation-save_mutation_example :
    ((transition_mutation "req_1" git_committed commit_found 5 (save_mutation mutation [])).0
      ≡ ok tt)
    × (get_mutation "usr_1" "record" "key_1" transitioned
        ≡ some (moved git_committed commit_found 5 mutation))
    × ((again : MutationRecord String)
        → has_key "usr_1" "record" "key_1" again ≡ true
        → save_mutation again transitioned ≡ transitioned)
unfolding any
transition_mutation-save_mutation_example =
    transition_mutation-save_mutation mutation [] refl refl git_committed commit_found 5

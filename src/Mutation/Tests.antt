-- ===== src/Mutation/Tests.antt =====
-- Runs of one request, and the theorems at concrete inputs.
use fullwell.Prelude.{◌≡◌, refl, true, none, some, String, List, [], ◌∷◌, find, any, filter, arith}
use Prim.Native.String
use fullwell.Prelude.Text.{has_length, utf16_length, every_char}
use fullwell.Prelude.Exec.{ok, err, pure}
use fullwell.Dict
use fullwell.OAuth.Types.{journal_write}
use fullwell.OAuth.Scopes.{scope_name}
use fullwell.Auth.Types.{is_opaque_id}
use fullwell.Household.Types.{AppError, owner, editor, ready, MembershipRecord}
use fullwell.Household.Store
use fullwell.Household.Store.{OperationalStore, MembershipEntry}
use fullwell.Household.Authorization.{has_scope, require_scope, require_membership}
use fullwell.Household.Mutations.{
  get_mutation, save_mutation, move_first, moved, transition_mutation,
}
use fullwell.Repository.Memory.{
  head, commit, committed, audit_path, audit_event, take_chars, check_changes, write_changes,
  write_revisions, find_commit_by_request_id,
}
use fullwell.Repository.Paths.{is_repository_path, has_double, ends_with, has_path_chars}
use fullwell.Mutation.World.{World, app, Platform}
use fullwell.Mutation.Request.{
  MutationOptions, Answer, strict, enforces_fingerprint, fingerprint_of, replay_record, replay,
  read_clock, draw_request_id, transition, new_record, receive,
}
use fullwell.Mutation.Commit.{
  check_head, check_member, check_shape, metadata, commit_new, known_commit,
}
use fullwell.Mutation.Runner.{
  advance, stored_response, project, fail_after_commit, after_commit, finish, settle,
  commit_and_project, work, replay_or_work, under_lock, conclude, start, run,
}
use fullwell.Mutation.Finish.{IsWellBehaved}
use fullwell.Mutation.Replay.{run_again}
use fullwell.Mutation.Rollback.{IsRolledBack, run-IsRolledBack}

abbrev joined : List String → String
joined [] = ""
joined (s ∷ ss) = String.◌++◌ s (joined ss)

abbrev platform : Platform String
platform = record {
  now_at = λ n. 1000;
  wall_at = λ n. 2000;
  opaque_id_at = λ n prefix. "req_0123456789abcdef";
  iso = λ now. "2026-01-02T03:04:05.000Z";
  of_text = λ s. s;
  as_text = λ v. some v;
  as_text-of_text = λ s. refl;
  repository = record { digest = joined; json = λ s. s; stable_json = λ e. e.request_id };
}

abbrev member : MembershipRecord
member = record {
  household_id = "hsh_1";
  user_id = "usr_1";
  actor_id = "act_1";
  role = owner;
  projection_head = "h";
  removed_at = none;
}

abbrev store : OperationalStore
store = record {
  households =
      (
        "hsh_1",
        record {
          id = "hsh_1";
          name = "Home";
          repository_head = "h";
          provisioning_state = ready;
          created_at = 0;
        },
      )
      ∷ [];
  memberships = (record { household_key = "hsh_1"; user_key = "usr_1"; membership = member }) ∷ [];
  default_households = [];
  onboarding = [];
  export_downloads = [];
}

abbrev world : World String
world = record {
  store = store;
  mutations = [];
  repositories = ("hsh_1", record { head = "h"; files = []; revisions = []; commits = [] }) ∷ [];
  reads = 0;
  draws = 0;
}

abbrev options : MutationOptions String
options = record {
  principal = record {
    user_id = "usr_1";
    actor_id = "act_1";
    display_name = "Ada";
    scopes = journal_write ∷ [];
    client = "codex";
  };
  tool = "record_meal";
  household_id = "hsh_1";
  idempotency_key = "key-1";
  request_fingerprint = "#1";
  minimum_role = some editor;
  required_scope = journal_write;
  summary = "A meal";
  recovery_data = [];
  enforce_on_replay = true;
  policy = strict (some "h");
  build_changes =
      λ id now. pure ((record { path = "meals/1.md"; content = "soup"; append_only = true }) ∷ []);
  apply_projection = λ commit_id id now. pure (("meal", "soup") ∷ []);
}

abbrev answer : Answer String
answer = record {
  data_ = ("meal", "soup") ∷ [];
  head = "hreq_0123456789abcdefmeals/1.mdsoup";
  request_id = "req_0123456789abcdef";
}

-- What a run opens.
running : Unit {0}
unfolding run start conclude under_lock replay_or_work work commit_and_project settle finish
    after_commit fail_after_commit project stored_response advance known_commit commit_new metadata
    check_shape check_member check_head receive new_record transition draw_request_id read_clock
    replay replay_record fingerprint_of enforces_fingerprint is_opaque_id has_length utf16_length
    every_char has_scope require_scope require_membership get_mutation save_mutation move_first
    moved transition_mutation head commit committed audit_path audit_event take_chars check_changes
    write_changes write_revisions find_commit_by_request_id is_repository_path has_double ends_with
    has_path_chars Store.put_membership Store.stored_membership Store.get_membership
    Store.get_household Store.upsert_membership Store.update_household_head
    Store.list_household_memberships scope_name Dict.get Dict.set Dict.delete find any filter
running = tt

first_run : (run platform options world).0 ≡ ok answer
unfolding running
first_run = refl

well_behaved : IsWellBehaved options
well_behaved = record {
  builds = λ id now w. (refl, refl);
  projects = λ head id now w. (refl, refl);
}

run_again_example :
    run platform options (run platform options world).1
    ≡ (ok answer, (run platform options world).1)
unfolding running
run_again_example =
    run_again platform options world answer well_behaved
      ((λ r at. absurd (ground arith)), λ absent. refl) first_run refl

-- The caller saw another head.
abbrev stale : MutationOptions String
stale = record options { policy = strict (some "g") }

old_head_refused : (run platform stale world).0 ≡ err (app AppError.revision_conflict)
unfolding running
old_head_refused = refl

run-IsRolledBack_example :
    IsRolledBack platform (app AppError.revision_conflict) world (run platform stale world).1
run-IsRolledBack_example =
    run-IsRolledBack platform stale world (app AppError.revision_conflict)
      (record { builds = λ id now w. (refl, refl); projects = λ head id now w. (refl, refl) })
      old_head_refused

-- ===== src/Mutation/Runner.antt =====
-- services/mutation-runner.ts: `MutationRunner.run`. The lock of a household lets one operation run
-- at a time, so what runs under it is one function of the world.
use fullwell.Prelude.{String, Option, none, some, List, [], ◌∷◌, if◌then◌else◌}
use fullwell.Prelude.Exec.{Result, ok, err, ◌>>=◌, ◌>>◌, pure, throw, lift, gets, modify, some_or}
use fullwell.Dict
use fullwell.Dict.{Dict}
use fullwell.Household.Types.{Instant, AppError, MembershipRecord, internal_error}
use fullwell.Household.Store.{
  OperationalStore, update_household_head, list_household_memberships, upsert_membership,
}
use fullwell.Household.Authorization.{require_scope}
use fullwell.Household.Mutations.{
  MutationRecord, MutationUpdate, locked, git_committed, projections_applied, completed,
  failed_before_commit, reconciliation_required,
}
use fullwell.Mutation.World.{Failure, app, Platform, Action, on_store, catch}
use fullwell.Mutation.Request.{
  MutationOptions, Answer, Outcome, done, failed, fingerprint_key, no_update, failure_update,
  enforces_fingerprint, replay_record, replay, receive, transition, get_own,
}
use fullwell.Mutation.Commit.{commit_new, known_commit}

unfoldable pub advance : String → List MembershipRecord → OperationalStore → OperationalStore
advance head [] s = s
advance head (m ∷ ms) s =
    advance head ms (upsert_membership (record m { projection_head = head }) s)

abbrev pub response_update : {J : Type 0} → Dict J → MutationUpdate J
response_update response = record { commit_id = none; response = some response; failure = none }

module _ {J : Type 0} (P : Platform J) where
  unfoldable pub stored_response : MutationOptions J → Dict J → Dict J
  unfolding enforces_fingerprint
  stored_response o response =
      if enforces_fingerprint P o
      then Dict.set response fingerprint_key (P.of_text o.request_fingerprint)
      else response

  -- The inner `try` block.
  unfoldable pub project : MutationOptions J → String → String → Instant → Action J (Outcome J)
  unfolding advance stored_response transition
  project o commit_id request_id now = do
    response ← o.apply_projection commit_id request_id now
    on_store (update_household_head o.household_id commit_id)
    modify (λ w. record w {
      store = advance commit_id (list_household_memberships o.household_id w.store) w.store;
    })
    transition P request_id projections_applied (response_update (stored_response o response))
    transition P request_id completed (response_update (stored_response o response))
    pure (done (record { data_ = response; head = commit_id; request_id = request_id }))

  unfoldable pub fail_after_commit : String → MutationUpdate J → Action J (Outcome J)
  unfolding transition
  fail_after_commit request_id u = do
    transition P request_id reconciliation_required u
    pure (failed (app AppError.reconciliation_required))

  -- What follows on a commit, in the outer `try` block.
  unfoldable pub after_commit : MutationOptions J → String → String → Instant → Action J (Outcome J)
  unfolding transition project fail_after_commit
  after_commit o commit_id request_id now = do
    transition P request_id git_committed
        (record { commit_id = some commit_id; response = none; failure = none })
    catch (project o commit_id request_id now)
        (λ e. fail_after_commit request_id (failure_update none e))

  -- The outer `try` block with a commit, and its `catch` block.
  unfoldable pub finish : MutationOptions J → String → Instant → String → Action J (Outcome J)
  unfolding after_commit fail_after_commit
  finish o request_id now commit_id =
      catch (after_commit o commit_id request_id now)
        (λ e. fail_after_commit request_id (failure_update (some commit_id) e))

  -- The same where there was no commit before, from what became of the attempt to make one.
  unfoldable pub settle :
      MutationOptions J → String → Instant → Result Failure String → Action J (Outcome J)
  unfolding finish transition
  settle o request_id now (ok commit_id) = finish o request_id now commit_id
  settle o request_id now (err e) = do
    transition P request_id failed_before_commit (failure_update none e)
    pure (failed e)

  unfoldable pub commit_and_project :
      MutationOptions J → Option String → String → Instant → Action J (Outcome J)
  unfolding commit_new finish settle
  commit_and_project o (some commit_id) request_id now w = finish o request_id now commit_id w
  commit_and_project o none request_id now w =
      let (r, w') = commit_new P o request_id now w in settle o request_id now r w'

  -- What runs under the lock, with the record that is found there.
  unfoldable pub work : MutationOptions J → MutationRecord J → Action J (Outcome J)
  unfolding known_commit commit_and_project transition
  work o r = do
    transition P r.request_id locked no_update
    commit_id ← known_commit P o r
    commit_and_project o commit_id r.request_id r.created_at

  unfoldable pub replay_or_work :
      MutationOptions J → MutationRecord J → Option (Answer J) → Action J (Outcome J)
  unfolding work
  replay_or_work o r (some a) = pure (done a)
  replay_or_work o r none = work o r

  unfoldable pub under_lock : MutationOptions J → Action J (Outcome J)
  unfolding replay_record replay_or_work
  under_lock o = do
    existing ← gets (get_own P o)
    r ← some_or existing (app internal_error)
    replayed ← lift (replay_record P o r)
    replay_or_work o r replayed

  unfoldable pub conclude : Outcome J → Action J (Answer J)
  conclude (done a) = pure a
  conclude (failed e) = throw e

  unfoldable pub start :
      MutationOptions J → Option (MutationRecord J) → Option (Answer J) → Action J (Answer J)
  unfolding receive under_lock conclude
  start o existing (some a) = pure a
  start o existing none = do receive P o existing; outcome ← under_lock o; conclude outcome

  unfoldable pub run : MutationOptions J → Action J (Answer J)
  unfolding replay start
  run o = do
    lift (elim (require_scope o.principal o.required_scope) [ ok _ ↦ ok tt | err e ↦ err (app e) ])
    existing ← gets (get_own P o)
    replayed ← lift (replay P o existing)
    start o existing replayed

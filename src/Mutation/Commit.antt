-- ===== src/Mutation/Commit.antt =====
-- services/mutation-runner.ts: the commit that `MutationRunner.run` makes for a request.
use fullwell.Prelude.{
  String, Bool, false, not, ◌&&◌, Option, none, some, List, [], ◌∷◌, ◌==◌, if◌then◌else◌,
}
use fullwell.Prelude.Exec.{Result, ok, err, ◌>>=◌, ◌>>◌, pure, lift, gets}
use fullwell.Household.Types.{Instant, revision_conflict, internal_error, projection_drift}
use fullwell.Household.Authorization.{require_membership}
use fullwell.Household.Mutations.{MutationRecord}
use fullwell.Repository.Memory.{RepositoryChange, CommitMetadata, find_commit_by_request_id, commit}
use fullwell.Repository.Memory
use fullwell.Mutation.World.{World, Failure, app, Platform, Action, on_repositories}
use fullwell.Mutation.Request.{ConflictPolicy, strict, append, MutationOptions, is_append}

module _ {J : Type 0} (P : Platform J) where
  -- The guard on the head that the caller saw.
  unfoldable pub check_head : ConflictPolicy → String → Result Failure (Unit {0})
  check_head append current = ok tt
  check_head (strict none) current = ok tt
  check_head (strict (some expected)) current =
      if current == expected then ok tt else err (app revision_conflict)

  unfoldable pub check_member : MutationOptions J → String → World J → Result Failure (Unit {0})
  check_member o current w = elim o.minimum_role [
    | none ↦ ok tt
    | some minimum ↦ elim (require_membership o.principal o.household_id minimum w.store) [
      | err e ↦ err (app e)
      | ok m ↦ if m.projection_head == current then ok tt else err (app projection_drift)
    ]
  ]

  -- changes.length === 1 && changes[0].appendOnly
  abbrev pub is_one_append : List RepositoryChange → Bool
  is_one_append (c ∷ []) = c.append_only
  is_one_append _ = false

  unfoldable pub check_shape : ConflictPolicy → List RepositoryChange → Result Failure (Unit {0})
  check_shape policy changes =
      if is_append policy && not (is_one_append changes) then err (app internal_error) else ok tt

  unfoldable pub metadata : MutationOptions J → String → Instant → CommitMetadata
  metadata o request_id now = record {
    request_id = request_id;
    household_id = o.household_id;
    actor_id = o.principal.actor_id;
    tool = o.tool;
    client = o.principal.client;
    summary = o.summary;
    occurred_at = P.iso now;
  }

  -- repository.head(householdId)
  abbrev pub current_head : MutationOptions J → Action J String
  current_head o = on_repositories (λ s. (Memory.head o.household_id s, s))

  -- The commit of a request that has none yet.
  unfoldable pub commit_new : MutationOptions J → String → Instant → Action J String
  unfolding check_head check_member check_shape metadata
  commit_new o request_id now = do
    current ← current_head o
    lift (check_head o.policy current)
    w ← gets (λ w. w)
    lift (check_member o current w)
    changes ← o.build_changes request_id now
    lift (check_shape o.policy changes)
    on_repositories (commit P.repository o.household_id current changes (metadata o request_id now))

  -- lockedExisting.commitId ?? await repository.findCommitByRequestId(…)
  unfoldable pub known_commit : MutationOptions J → MutationRecord J → Action J (Option String)
  known_commit o r = elim r.commit_id [
    | some commit_id ↦ pure (some commit_id)
    | none ↦ on_repositories (λ s. (find_commit_by_request_id o.household_id r.request_id s, s))
  ]

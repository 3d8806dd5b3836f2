-- ===== src/Mutation/Work.antt =====
-- What is logged when a request is worked on under the lock (services/mutation-runner.ts).
use fullwell.Prelude.{
  String, ◌≡◌, refl, ap, ◌∙◌, Option, none, some, List, arith, inl, inr, Option-cases,
}
use fullwell.Prelude.Exec.{Result, ok, err, Result-cases, ◌>>=◌, >>=-eq-ok, continue}
use fullwell.Household.Types.{Instant}
use fullwell.Household.Mutations.{MutationRecord, locked, failed_before_commit, moved}
use fullwell.Mutation.World.{World, Failure, Platform}
use fullwell.Mutation.Request.{MutationOptions, Answer, done, no_update, failure_update}
use fullwell.Mutation.Commit.{
  current_head, check_head, check_member, check_shape, commit_new, known_commit,
}
use fullwell.Mutation.Runner.{settle, commit_and_project, work}
use fullwell.Mutation.Log.{IsLogged, move_first-IsLogged, after_transition, transition_lem}
use fullwell.Mutation.Finish.{IsWellBehaved, IsFinished, moved-IsFinished, finish_lem}

module _ {J : Type 0} (P : Platform J) where
  -- The log has the record of a request that was answered by `a`; `r` is its record before.
  abbrev pub IsAnswered :
      MutationOptions J → MutationRecord J → Answer J → List (MutationRecord J) → Type 0
  IsAnswered o r a s =
      (r' : MutationRecord J) × (r'.commit_id ≡ some a.head) × IsFinished P o r a r' × IsLogged r' s

  -- An attempt to commit leaves the log alone.
  pub commit_new-mutations :
      (o : MutationOptions J) (id : String) (now : Instant) (w : World J)
      → IsWellBehaved o
      → (commit_new P o id now w).1.mutations ≡ w.mutations
  unfolding commit_new
  commit_new-mutations o id now w well =
      let current = (current_head P o w).0 in
      let kept = (well.builds id now w).0 in
      elim (Result-cases current) [
        | inl (e, refused) ↦ rw refused refl
        | inr (head, at) ↦ elim (Result-cases (check_head P o.policy head)) [
          | inl (e, refused) ↦ rw (at, refused) refl
          | inr (_, passed) ↦ elim (Result-cases (check_member P o head w)) [
            | inl (e, refused) ↦ rw (at, passed, refused) refl
            | inr (_, allowed) ↦ elim (Result-cases (o.build_changes id now w).0) [
              | inl (e, refused) ↦ rw (at, passed, allowed, refused) kept
              | inr (changes, built) ↦ elim (Result-cases (check_shape P o.policy changes)) [
                | inl (e, refused) ↦ rw (at, passed, allowed, built, refused) kept
                | inr (_, shaped) ↦ rw (at, passed, allowed, built, shaped) kept
              ]
            ]
          ]
        ]
      ]

  settle_lem :
      (o : MutationOptions J) (now : Instant) (c : Result Failure String) (r : MutationRecord J)
      (w : World J) (a : Answer J)
      → IsWellBehaved o
      → IsLogged r w.mutations
      → (settle P o r.request_id now c w).0 ≡ ok (done a)
      → IsAnswered o r a (settle P o r.request_id now c w).1.mutations
  unfolding settle
  settle_lem o now (ok commit_id) r w a well logged h =
      let (r', head, kept, finished, logged') = finish_lem P o commit_id now r w a well logged h in
      (r', rw head kept, finished, logged')
  settle_lem o now (err e) r w a well logged h =
      absurd
        (ground (arith, transition_lem P r failed_before_commit (failure_update none e) w logged))

  commit_and_project_lem :
      (o : MutationOptions J) (known : Option String) (now : Instant) (r : MutationRecord J)
      (w : World J) (a : Answer J)
      → IsWellBehaved o
      → IsLogged r w.mutations
      → (commit_and_project P o known r.request_id now w).0 ≡ ok (done a)
      → IsAnswered o r a (commit_and_project P o known r.request_id now w).1.mutations
  unfolding commit_and_project settle
  commit_and_project_lem o (some commit_id) now r w a well logged h =
      settle_lem o now (ok commit_id) r w a well logged h
  commit_and_project_lem o none now r w a well logged h =
      let attempt = commit_new P o r.request_id now w in
      settle_lem o now attempt.0 r attempt.1 a well
        (rw (commit_new-mutations o r.request_id now w well) logged) h

  pub known_commit_same :
      (o : MutationOptions J) (r : MutationRecord J) (w : World J) → (known_commit P o r w).1 ≡ w
  unfolding known_commit
  known_commit_same o r w = elim (Option-cases r.commit_id) [
    | inl absent ↦ rw absent refl
    | inr (commit_id, at) ↦ rw at refl
  ]

  pub work_lem :
      (o : MutationOptions J) (r : MutationRecord J) (w : World J) (a : Answer J)
      → IsWellBehaved o
      → IsLogged r w.mutations
      → (work P o r w).0 ≡ ok (done a)
      → IsAnswered o r a (work P o r w).1.mutations
  unfolding work moved after_transition known_commit
  work_lem o r w a well logged h =
      let w1 = after_transition P r.request_id locked no_update w in
      let r1 : MutationRecord J = moved locked no_update (P.wall_at w.reads) r in
      let logged1 = move_first-IsLogged r locked no_update (P.wall_at w.reads) w.mutations logged in
      let lands : work P o r w
          ≡ (known_commit P o r >>= λ known. commit_and_project P o known r.request_id r.created_at)
              w1 =
        ap
          (λ p.
            continue p.0
              (λ x. known_commit P o r >>= λ known.
                commit_and_project P o known r.request_id r.created_at)
              p.1)
          (transition_lem P r locked no_update w logged) in
      let (known, _, rest, there) =
        >>=-eq-ok (known_commit P o r)
          (λ known. commit_and_project P o known r.request_id r.created_at) w1 (rw lands at h) in
      let (r', kept, finished, logged') =
        commit_and_project_lem o known r.created_at r1 (known_commit P o r w1).1 a well
          (rw (known_commit_same o r w1) logged1) rest in
      (
        r',
        kept,
        moved-IsFinished P o locked no_update (P.wall_at w.reads) r r' a finished,
        rw (lands ∙ there) logged',
      )

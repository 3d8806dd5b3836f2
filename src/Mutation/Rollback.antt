-- ===== src/Mutation/Rollback.antt =====
-- A request that fails (services/mutation-runner.ts).
use fullwell.Prelude.{
  String, ◌≡◌, refl, ap, sym, subst, ◌∙◌, ◌⊎◌, Bool, true, Option, none, some, List, [], ◌∷◌, arith,
  eq_refl, inl, inr, Option-cases, Bool-cases, find, any,
}
use fullwell.Prelude.Exec.{Result, ok, err, Result-cases, ◌>>=◌, >>=-ok}
use fullwell.Auth.Types.{is_opaque_id}
use fullwell.Household.Types.{Instant, AppError}
use fullwell.Household.Authorization.{require_scope}
use fullwell.Household.Mutations.{
  MutationRecord, locked, failed_before_commit, has_request, has_key, get_mutation,
}
use fullwell.Repository.Memory.{commit}
use fullwell.Repository.Commits.{commit_atomic}
use fullwell.Mutation.World.{World, Failure, app, Platform, Action}
use fullwell.Mutation.Request.{
  MutationOptions, Answer, Outcome, done, failed, failure_update, no_update, replay_record, replay,
  receive, get_own, transition, draw_request_id, read_clock,
}
use fullwell.Mutation.Commit.{
  current_head, check_head, check_member, check_shape, metadata, commit_new, known_commit,
}
use fullwell.Mutation.Runner.{
  finish, settle, commit_and_project, work, replay_or_work, under_lock, conclude, start, run,
}
use fullwell.Mutation.Log.{after_transition, transition_passes}
use fullwell.Mutation.Finish.{IsWellBehaved}
use fullwell.Mutation.Work.{commit_new-mutations, known_commit_same}
use fullwell.Mutation.Settled.{IsThere, any-move_first, IsSettled, finish-IsSettled}

module _ {J : Type 0} (P : Platform J) where
  abbrev FailsWith : Failure → Result Failure (Outcome J) → Type 0
  FailsWith e x = (x ≡ err e) ⊎ (x ≡ ok (failed e))

  IsSettled-FailsWith :
      (x : Result Failure (Outcome J)) (e : Failure)
      → IsSettled P x
      → FailsWith e x
      → e ≡ app AppError.reconciliation_required
  IsSettled-FailsWith x e (inl (a, h)) (inl g) = absurd (ground arith)
  IsSettled-FailsWith x e (inl (a, h)) (inr g) = absurd (ground arith)
  IsSettled-FailsWith x e (inr h) (inl g) = absurd (ground arith)
  IsSettled-FailsWith x e (inr h) (inr g) = ground arith

  -- Nothing was committed, or the caller is told that the request has to be reconciled.
  abbrev pub IsRolledBack : Failure → World J → World J → Type 0
  IsRolledBack e w w' =
      (w'.repositories ≡ w.repositories) ⊎ (e ≡ app AppError.reconciliation_required)

  settle_lem :
      (o : MutationOptions J) (id : String) (now : Instant) (c : Result Failure String)
      (w : World J) (e : Failure)
      → IsWellBehaved o
      → IsThere id w
      → FailsWith e (settle P o id now c w).0
      → ((e0 : Failure) × (c ≡ err e0) × ((settle P o id now c w).1.repositories ≡ w.repositories))
        ⊎ (e ≡ app AppError.reconciliation_required)
  unfolding settle after_transition
  settle_lem o id now (err e0) w e well there fails = inl (
    e0,
    refl,
    rw (transition_passes P id failed_before_commit (failure_update none e0) w there) refl,
  )
  settle_lem o id now (ok commit_id) w e well there fails = inr (
      IsSettled-FailsWith (finish P o id now commit_id w).0 e
        (finish-IsSettled P o id now commit_id w well there) fails)

  commit_new-repositories :
      (o : MutationOptions J) (id : String) (now : Instant) (w : World J) (e : Failure)
      → IsWellBehaved o
      → (commit_new P o id now w).0 ≡ err e
      → (commit_new P o id now w).1.repositories ≡ w.repositories
  unfolding commit_new
  commit_new-repositories o id now w e well h =
      let current = (current_head P o w).0 in
      let kept = (well.builds id now w).1 in
      elim (Result-cases current) [
        | inl (e0, refused) ↦ rw refused refl
        | inr (head, at) ↦ elim (Result-cases (check_head P o.policy head)) [
          | inl (e0, refused) ↦ rw (at, refused) refl
          | inr (_, passed) ↦ elim (Result-cases (check_member P o head w)) [
            | inl (e0, refused) ↦ rw (at, passed, refused) refl
            | inr (_, allowed) ↦ elim (Result-cases (o.build_changes id now w).0) [
              | inl (e0, refused) ↦ rw (at, passed, allowed, refused) kept
              | inr (changes, built) ↦ elim (Result-cases (check_shape P o.policy changes)) [
                | inl (e0, refused) ↦ rw (at, passed, allowed, built, refused) kept
                | inr (_, shaped) ↦
                    let v = (o.build_changes id now w).1 in
                    let m = metadata P o id now in
                    elim (Result-cases
                      (commit P.repository o.household_id head changes m v.repositories).0) [
                        | inl (e0, refused) ↦
                            rw
                              (
                                at,
                                passed,
                                allowed,
                                built,
                                shaped,
                                commit_atomic P.repository o.household_id head changes m
                                    v.repositories e0 refused,
                              )
                              kept
                        | inr (_, made) ↦
                            absurd (ground (arith, at, passed, allowed, built, shaped, made))
                      ]
              ]
            ]
          ]
        ]
      ]

  commit_and_project_lem :
      (o : MutationOptions J) (known : Option String) (id : String) (now : Instant) (w : World J)
      (e : Failure)
      → IsWellBehaved o
      → IsThere id w
      → FailsWith e (commit_and_project P o known id now w).0
      → IsRolledBack e w (commit_and_project P o known id now w).1
  unfolding commit_and_project
  commit_and_project_lem o (some commit_id) id now w e well there fails = inr (
      IsSettled-FailsWith (finish P o id now commit_id w).0 e
        (finish-IsSettled P o id now commit_id w well there) fails)
  commit_and_project_lem o none id now w e well there fails =
      let attempt = commit_new P o id now w in
      elim (settle_lem o id now attempt.0 attempt.1 e well
        (rw (commit_new-mutations P o id now w well) there) fails) [
          | inl (e0, refused, kept) ↦
              inl (kept ∙ commit_new-repositories o id now w e0 well refused)
          | inr told ↦ inr told
        ]

  -- The search for a commit changes nothing.
  known_commit_then :
      (o : MutationOptions J) (r : MutationRecord J) (go : Option String → Action J (Outcome J))
      (w : World J) (e : Failure)
      → ((known : Option String) (v : World J)
          → IsThere r.request_id v
          → FailsWith e (go known v).0
          → IsRolledBack e v (go known v).1)
      → IsThere r.request_id w
      → FailsWith e ((known_commit P o r >>= go) w).0
      → IsRolledBack e w ((known_commit P o r >>= go) w).1
  known_commit_then o r go w e rest there fails =
      let same = known_commit_same P o r w in
      elim (Result-cases (known_commit P o r w).0) [
        | inl (e0, refused) ↦ rw refused (inl (ap (λ v. v.repositories) same))
        | inr (known, found) ↦
            let lands =
              >>=-ok (known_commit P o r) go w w known
                (rw (found) (ap (λ v. (ok known, v)) same)) in
            subst (λ p. IsRolledBack e w p.1) (sym lands)
              (rest known w there (subst (λ p. FailsWith e p.0) lands fails))
      ]

  work_lem :
      (o : MutationOptions J) (r : MutationRecord J) (w : World J) (e : Failure)
      → IsWellBehaved o
      → IsThere r.request_id w
      → FailsWith e (work P o r w).0
      → IsRolledBack e w (work P o r w).1
  unfolding work after_transition
  work_lem o r w e well there fails =
      let id = r.request_id in
      let w1 = after_transition P id locked no_update w in
      let there1 : IsThere id w1 =
        any-move_first id id locked no_update (P.wall_at w.reads) w.mutations ∙ there in
      let go : Option String → Action J (Outcome J) =
        λ known. commit_and_project P o known id r.created_at in
      let lands =
        >>=-ok (transition P id locked no_update) (λ x. known_commit P o r >>= go) w w1 tt
          (transition_passes P id locked no_update w there) in
      subst (λ p. IsRolledBack e w p.1) (sym lands)
        (known_commit_then o r go w1 e
          (λ known v there2. commit_and_project_lem o known id r.created_at v e well there2) there1
          (subst (λ p. FailsWith e p.0) lands fails))

  found-any :
      (p q : MutationRecord J → Bool) (s : List (MutationRecord J)) (r : MutationRecord J)
      → find p s ≡ some r
      → q r ≡ true
      → any q s ≡ true
  unfolding find any
  found-any p q [] r found holds = absurd (ground arith)
  found-any p q (x ∷ s) r found holds = elim (Bool-cases (p x)) [
    | inl here ↦ ground (arith, here)
    | inr later ↦ ground (arith, later, found-any p q s r)
  ]

  under_lock_lem :
      (o : MutationOptions J) (w : World J) (e : Failure)
      → IsWellBehaved o
      → FailsWith e (under_lock P o w).0
      → IsRolledBack e w (under_lock P o w).1
  unfolding under_lock replay_or_work get_mutation
  under_lock_lem o w e well fails = elim (Option-cases (get_own P o w)) [
    | inl absent ↦ rw absent (inl refl)
    | inr (r, at) ↦ elim (Result-cases (replay_record P o r)) [
      | inl (e0, refused) ↦ rw (at, refused) (inl refl)
      | inr (some a, replays) ↦ rw (at, replays) (inl refl)
      | inr (none, replays) ↦
          rw (at, replays)
            (work_lem o r w e well
              (found-any (has_key o.principal.user_id o.tool o.idempotency_key)
                (λ x. has_request r.request_id x) w.mutations r at (eq_refl r.request_id))
              (rw (at, replays) at fails))
    ]
  ]

  conclude_fails :
      (m : Action J (Outcome J)) (w : World J) (e : Failure)
      → ((m >>= conclude P) w).0 ≡ err e
      → FailsWith e (m w).0 × (((m >>= conclude P) w).1 ≡ (m w).1)
  unfolding conclude
  conclude_fails m w e h = elim (Result-cases (m w).0) [
    | inl (e0, refused) ↦ (inl (ground (arith, refused)), rw refused refl)
    | inr (done a, passed) ↦ absurd (ground (arith, passed))
    | inr (failed e0, passed) ↦ (inr (ground (arith, passed)), rw passed refl)
  ]

  receive-repositories :
      (o : MutationOptions J) (existing : Option (MutationRecord J)) (w : World J)
      → (receive P o existing w).1.repositories ≡ w.repositories
  unfolding receive read_clock draw_request_id
  receive-repositories o (some r) w = refl
  receive-repositories o none w =
      elim (Bool-cases (is_opaque_id "req_" (P.opaque_id_at w.draws "req"))) [
        | inl valid ↦ rw valid refl
        | inr invalid ↦ rw invalid refl
      ]

  start_lem :
      (o : MutationOptions J) (existing : Option (MutationRecord J)) (replayed : Option (Answer J))
      (w : World J) (e : Failure)
      → IsWellBehaved o
      → (start P o existing replayed w).0 ≡ err e
      → IsRolledBack e w (start P o existing replayed w).1
  unfolding start
  start_lem o existing (some a) w e well h = absurd (ground arith)
  start_lem o existing none w e well h =
      let kept = receive-repositories o existing w in
      let v = (receive P o existing w).1 in
      elim (Result-cases (receive P o existing w).0) [
        | inl (e0, refused) ↦ rw refused (inl kept)
        | inr (_, received) ↦
            let (fails, lands) = conclude_fails (under_lock P o) v e (rw received at h) in
            rw (received, lands)
              (elim (under_lock_lem o v e well fails) [
                | inl same ↦ inl (same ∙ kept)
                | inr told ↦ inr told
              ])
      ]

  -- When a run fails, the repositories are as they were, or the error is `reconciliation_required`.
  -- Condition: the callbacks leave the log and the repositories alone.
  pub run-IsRolledBack :
      (o : MutationOptions J) (w : World J) (e : Failure)
      → IsWellBehaved o
      → (run P o w).0 ≡ err e
      → IsRolledBack e w (run P o w).1
  unfolding run
  run-IsRolledBack o w e well h = elim (Result-cases (require_scope o.principal o.required_scope)) [
    | inl (e0, refused) ↦ rw refused (inl refl)
    | inr (_, scope) ↦ elim (Result-cases (replay P o (get_own P o w))) [
      | inl (e0, refused) ↦ rw (scope, refused) (inl refl)
      | inr (replayed, replays) ↦
          rw (scope, replays)
            (start_lem o (get_own P o w) replayed w e well (rw (scope, replays) at h))
    ]
  ]

-- ===== src/Mutation/Settled.antt =====
-- After a commit a request is answered or marked for reconciliation (services/mutation-runner.ts).
use fullwell.Prelude.{
  String, ◌≡◌, refl, ap, sym, subst, ◌∙◌, ◌⊎◌, true, none, some, List, [], ◌∷◌, arith, inl, inr,
  any,
}
use fullwell.Prelude.Exec.{Result, ok, Result-cases, ◌>>=◌, ◌>>◌, pure, modify, >>=-eq-ok, >>=-ok}
use fullwell.Dict.{Dict}
use fullwell.Household.Types.{Instant, AppError}
use fullwell.Household.Store.{update_household_head, list_household_memberships}
use fullwell.Household.Mutations.{
  MutationState, MutationRecord, MutationUpdate, git_committed, projections_applied, completed,
  reconciliation_required, moved, move_first, has_request, transition_mutation,
}
use fullwell.Mutation.World.{World, Failure, app, Platform, Action, on_store, catch}
use fullwell.Mutation.Request.{
  MutationOptions, Answer, Outcome, done, failed, failure_update, transition,
}
use fullwell.Mutation.Runner.{
  advance, stored_response, response_update, project, fail_after_commit, after_commit, finish,
}
use fullwell.Mutation.Log.{after_transition, transition_passes}
use fullwell.Mutation.Finish.{IsWellBehaved}

module _ {J : Type 0} where
  -- The log has a record of the request.
  abbrev pub IsThere : String → World J → Type 0
  IsThere id w = any (has_request id) w.mutations ≡ true

  abbrev Keeps : {A : Type 0} → String → Action J A → Type 0
  Keeps id m = (w : World J) → IsThere id w → IsThere id (m w).1

  >>=-Keeps :
      {A B : Type 0} (id : String) (m : Action J A) (f : A → Action J B)
      → Keeps id m
      → ((a : A) → Keeps id (f a))
      → Keeps id (m >>= f)
  >>=-Keeps id m f h g w there = elim (Result-cases (m w).0) [
    | inl (e, refused) ↦ rw refused (h w there)
    | inr (a, passed) ↦ rw passed (g a (m w).1 (h w there))
  ]

  -- An outcome without a throw is an answer.
  abbrev Gives : Action J (Outcome J) → Type 0
  Gives m = (w : World J) (out : Outcome J) → (m w).0 ≡ ok out → (a : Answer J) × (out ≡ done a)

  >>=-Gives :
      {A : Type 0} (m : Action J A) (f : A → Action J (Outcome J))
      → ((a : A) → Gives (f a))
      → Gives (m >>= f)
  >>=-Gives m f g w out given = let (a, _, rest, _) = >>=-eq-ok m f w given in g a (m w).1 out rest

  pub any-move_first :
      (id j : String) (st : MutationState) (u : MutationUpdate J) (now : Instant)
      (s : List (MutationRecord J))
      → any (has_request j) (move_first id st u now s) ≡ any (has_request j) s
  unfolding any move_first moved
  any-move_first id j st u now [] = refl
  any-move_first id j st u now (r ∷ rs) = ground (arith, any-move_first id j st u now rs)

module _ {J : Type 0} (P : Platform J) where
  transition-Keeps :
      (j id : String) (st : MutationState) (u : MutationUpdate J) → Keeps id (transition P j st u)
  unfolding transition transition_mutation
  transition-Keeps j id st u w there =
      ground (arith, any-move_first j id st u (P.wall_at w.reads) w.mutations)

  project_lem :
      (o : MutationOptions J) (commit_id id : String) (now : Instant)
      → IsWellBehaved o
      → Keeps id (project P o commit_id id now) × Gives (project P o commit_id id now)
  unfolding project
  project_lem o commit_id id now well =
      let u : Dict J → MutationUpdate J =
        λ response. response_update (stored_response P o response) in
      let a : Dict J → Answer J =
        λ response. record { data_ = response; head = commit_id; request_id = id } in
      let last : Dict J → Action J (Outcome J) = λ response. pure (done (a response)) in
      let complete : Dict J → Action J (Outcome J) =
        λ response. transition P id completed (u response) >> last response in
      let apply : Dict J → Action J (Outcome J) =
        λ response. transition P id projections_applied (u response) >> complete response in
      let members : Action J (Unit {0}) = modify (λ w. record w {
        store = advance commit_id (list_household_memberships o.household_id w.store) w.store;
      }) in
      let head : Action J (Unit {0}) = on_store (update_household_head o.household_id commit_id) in
      (
        >>=-Keeps id (o.apply_projection commit_id id now)
            (λ response. head >> (members >> apply response))
            (λ w there. rw ((well.projects commit_id id now w).0) there)
            (λ response.
              >>=-Keeps id head (λ x. members >> apply response) (λ w there. there)
                (λ x.
                  >>=-Keeps id members (λ y. apply response) (λ w there. there)
                    (λ y.
                      >>=-Keeps id (transition P id projections_applied (u response))
                        (λ z. complete response)
                        (transition-Keeps id id projections_applied (u response))
                        (λ z.
                          >>=-Keeps id (transition P id completed (u response)) (λ v. last response)
                            (transition-Keeps id id completed (u response))
                            (λ v w there. there))))),
        >>=-Gives (o.apply_projection commit_id id now)
            (λ response. head >> (members >> apply response))
            (λ response.
              >>=-Gives head (λ x. members >> apply response)
                (λ x.
                  >>=-Gives members (λ y. apply response)
                    (λ y.
                      >>=-Gives (transition P id projections_applied (u response))
                        (λ z. complete response)
                        (λ z.
                          >>=-Gives (transition P id completed (u response)) (λ v. last response)
                            (λ v w out given. (a response, ground (arith, given))))))),
      )

  fail_after_commit_passes :
      (id : String) (u : MutationUpdate J) (w : World J)
      → IsThere id w
      → (fail_after_commit P id u w).0 ≡ ok (failed (app AppError.reconciliation_required))
  unfolding fail_after_commit
  fail_after_commit_passes id u w there =
      rw (transition_passes P id reconciliation_required u w there) refl

  -- After a commit a request is answered, or it has to be reconciled.
  abbrev pub IsSettled : Result Failure (Outcome J) → Type 0
  IsSettled x =
      ((a : Answer J) × (x ≡ ok (done a)))
      ⊎ (x ≡ ok (failed (app AppError.reconciliation_required)))

  handled-IsSettled :
      (m : Action J (Outcome J)) (handle : Failure → Action J (Outcome J)) (w : World J)
      → Gives m
      → ((e : Failure) → (handle e (m w).1).0 ≡ ok (failed (app AppError.reconciliation_required)))
      → IsSettled (catch m handle w).0
  handled-IsSettled m handle w gives h = elim (Result-cases (m w).0) [
    | inl (e, refused) ↦ inr (rw refused (h e))
    | inr (out, passed) ↦
        let (a, is_done) = gives w out passed in inl (a, rw passed (ap (λ x. ok x) is_done))
  ]

  IsSettled-catch :
      (m : Action J (Outcome J)) (handle : Failure → Action J (Outcome J)) (w : World J)
      → IsSettled (m w).0
      → IsSettled (catch m handle w).0
  IsSettled-catch m handle w (inl (a, passed)) = inl (a, rw passed refl)
  IsSettled-catch m handle w (inr failed_there) = inr (rw failed_there refl)

  after_commit-IsSettled :
      (o : MutationOptions J) (id : String) (now : Instant) (commit_id : String) (w : World J)
      → IsWellBehaved o
      → IsThere id w
      → IsSettled (after_commit P o commit_id id now w).0
  unfolding after_commit after_transition
  after_commit-IsSettled o id now commit_id w well there =
      let u : MutationUpdate J = record {
        commit_id = some commit_id;
        response = none;
        failure = none;
      } in
      let w1 = after_transition P id git_committed u w in
      let there1 : IsThere id w1 =
        any-move_first id id git_committed u (P.wall_at w.reads) w.mutations ∙ there in
      let (keeps, gives) = project_lem o commit_id id now well in
      let handle : Failure → Action J (Outcome J) =
        λ e. fail_after_commit P id (failure_update none e) in
      let settled = handled-IsSettled (project P o commit_id id now) handle w1 gives (λ e.
        fail_after_commit_passes id (failure_update none e) (project P o commit_id id now w1).1
          (keeps w1 there1)) in
      let lands =
        >>=-ok (transition P id git_committed u) (λ x. catch (project P o commit_id id now) handle)
          w w1 tt (transition_passes P id git_committed u w there) in
      subst (λ p. IsSettled p.0) (sym lands) settled

  pub finish-IsSettled :
      (o : MutationOptions J) (id : String) (now : Instant) (commit_id : String) (w : World J)
      → IsWellBehaved o
      → IsThere id w
      → IsSettled (finish P o id now commit_id w).0
  unfolding finish
  finish-IsSettled o id now commit_id w well there =
      IsSettled-catch (after_commit P o commit_id id now)
        (λ e. fail_after_commit P id (failure_update (some commit_id) e)) w
        (after_commit-IsSettled o id now commit_id w well there)

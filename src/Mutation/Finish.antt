-- ===== src/Mutation/Finish.antt =====
-- What is logged when a request is finished (services/mutation-runner.ts).
use fullwell.Prelude.{◌+◌, String, ◌≡◌, ◌≢◌, refl, ap, ◌∙◌, none, some, arith, inl, inr}
use fullwell.Prelude.Exec.{ok, Result-cases, ◌>>◌, pure, modify, >>=-eq-ok, continue}
use fullwell.Dict.{Dict}
use fullwell.Household.Types.{Instant}
use fullwell.Household.Store.{OperationalStore, update_household_head, list_household_memberships}
use fullwell.Household.Mutations.{
  MutationState, MutationRecord, MutationUpdate, git_committed, projections_applied, completed,
  reconciliation_required, moved,
}
use fullwell.Mutation.World.{World, Failure, Platform, Action, on_store, catch}
use fullwell.Mutation.Request.{MutationOptions, Answer, Outcome, done, failure_update, transition}
use fullwell.Mutation.Runner.{
  advance, stored_response, response_update, project, fail_after_commit, after_commit, finish,
}
use fullwell.Mutation.Log.{IsLogged, move_first-IsLogged, after_transition, transition_lem}

-- The callbacks of a request leave the log of mutations and the repositories to the runner.
pub record IsWellBehaved {J : Type 0} (o : MutationOptions J) : Type 0 where
  pub builds :
      (id : String) (now : Instant) (w : World J)
      → ((o.build_changes id now w).1.mutations ≡ w.mutations)
        × ((o.build_changes id now w).1.repositories ≡ w.repositories)
  pub projects :
      (head id : String) (now : Instant) (w : World J)
      → ((o.apply_projection head id now w).1.mutations ≡ w.mutations)
        × ((o.apply_projection head id now w).1.repositories ≡ w.repositories)

module _ {J : Type 0} (P : Platform J) where
  -- `r'` is the record of a request that was answered by `a`; `r` is its record before.
  pub record IsFinished (o : MutationOptions J) (r : MutationRecord J) (a : Answer J)
      (r' : MutationRecord J) : Type 0 where
    pub user : r'.user_id ≡ r.user_id
    pub tool : r'.tool ≡ r.tool
    pub key : r'.idempotency_key ≡ r.idempotency_key
    pub request : r'.request_id ≡ r.request_id
    pub answered : a.request_id ≡ r.request_id
    pub state : r'.state ≡ completed
    pub response : r'.response ≡ some (stored_response P o a.data_)

  -- A transition before makes no difference.
  pub moved-IsFinished :
      (o : MutationOptions J) (st : MutationState) (u : MutationUpdate J) (now : Instant)
      (r r' : MutationRecord J) (a : Answer J)
      → IsFinished o (moved st u now r) a r'
      → IsFinished o r a r'
  unfolding moved
  moved-IsFinished o st u now r r' a h = record {
    user = h.user;
    tool = h.tool;
    key = h.key;
    request = h.request;
    answered = h.answered;
    state = h.state;
    response = h.response;
  }

  -- The part of the inner `try` block after the callback.
  rest_of_project : MutationOptions J → String → String → Dict J → Action J (Outcome J)
  rest_of_project o commit_id request_id response = do
    on_store (update_household_head o.household_id commit_id)
    modify (λ w. record w {
      store = advance commit_id (list_household_memberships o.household_id w.store) w.store;
    })
    transition P request_id projections_applied (response_update (stored_response P o response))
    transition P request_id completed (response_update (stored_response P o response))
    pure (done (record { data_ = response; head = commit_id; request_id = request_id }))

  rest_lem :
      (o : MutationOptions J) (commit_id : String) (r : MutationRecord J) (response : Dict J)
      (w : World J) (out : Outcome J)
      → IsLogged r w.mutations
      → (rest_of_project o commit_id r.request_id response w).0 ≡ ok out
      → (a : Answer J) × (r' : MutationRecord J) × (out ≡ done a)
        × (a.head ≡ commit_id)
        × (r'.commit_id ≡ r.commit_id)
        × IsFinished o r a r'
        × IsLogged r' (rest_of_project o commit_id r.request_id response w).1.mutations
  unfolding rest_of_project moved after_transition
  rest_lem o commit_id r response w out logged h =
      elim (Result-cases (update_household_head o.household_id commit_id w.store).0) [
        | inl (e, refused) ↦ absurd (ground (arith, refused))
        | inr (_, passed) ↦
            let u : MutationUpdate J = response_update (stored_response P o response) in
            let s : OperationalStore = (update_household_head o.household_id commit_id w.store).1 in
            let w2 : World J = record w {
              store = advance commit_id (list_household_memberships o.household_id s) s;
            } in
            let w3 = after_transition P r.request_id projections_applied u w2 in
            let r1 : MutationRecord J = moved projections_applied u (P.wall_at w.reads) r in
            let logged1 =
              move_first-IsLogged r projections_applied u (P.wall_at w.reads) w.mutations logged in
            let first = transition_lem P r projections_applied u w2 logged in
            let second = transition_lem P r1 completed u w3 logged1 in
            let lands : rest_of_project o commit_id r.request_id response w ≡ (
              ok (done (record { data_ = response; head = commit_id; request_id = r.request_id })),
              after_transition P r.request_id completed u w3,
            ) =
              ground (arith, passed, first, second) in
            (
              record { data_ = response; head = commit_id; request_id = r.request_id },
              moved completed u (P.wall_at (w.reads + 1)) r1,
              ground (arith, lands),
              refl,
              refl,
              record {
                user = refl;
                tool = refl;
                key = refl;
                request = refl;
                answered = refl;
                state = refl;
                response = refl;
              },
              rw lands (
                  move_first-IsLogged r1 completed u (P.wall_at (w.reads + 1)) w3.mutations
                    logged1),
            )
      ]

  project_lem :
      (o : MutationOptions J) (commit_id : String) (now : Instant) (r : MutationRecord J)
      (w : World J) (out : Outcome J)
      → IsWellBehaved o
      → IsLogged r w.mutations
      → (project P o commit_id r.request_id now w).0 ≡ ok out
      → (a : Answer J) × (r' : MutationRecord J) × (out ≡ done a)
        × (a.head ≡ commit_id)
        × (r'.commit_id ≡ r.commit_id)
        × IsFinished o r a r'
        × IsLogged r' (project P o commit_id r.request_id now w).1.mutations
  unfolding project rest_of_project
  project_lem o commit_id now r w out well logged h =
      let (response, built, rest, lands) =
        >>=-eq-ok (o.apply_projection commit_id r.request_id now)
          (rest_of_project o commit_id r.request_id) w h in
      let kept = (well.projects commit_id r.request_id now w).0 in
      rw lands (
        rest_lem o commit_id r response (o.apply_projection commit_id r.request_id now w).1 out
          (rw kept logged) rest)

  fail_after_commit_lem :
      (id : String) (u : MutationUpdate J) (w : World J) (a : Answer J)
      → (fail_after_commit P id u w).0 ≢ ok (done a)
  unfolding fail_after_commit
  fail_after_commit_lem id u w a h =
      elim (Result-cases (transition P id reconciliation_required u w).0) [
        | inl (e, refused) ↦ ground (arith, refused)
        | inr (_, passed) ↦ ground (arith, passed)
      ]

  -- An answer does not come from a handler that gives none.
  catch-done :
      (m : Action J (Outcome J)) (handle : Failure → Action J (Outcome J)) (w : World J)
      (a : Answer J)
      → ((e : Failure) (v : World J) → (handle e v).0 ≢ ok (done a))
      → (catch m handle w).0 ≡ ok (done a)
      → ((m w).0 ≡ ok (done a)) × (catch m handle w ≡ m w)
  catch-done m handle w a gives_none h = elim (Result-cases (m w).0) [
    | inl (e, refused) ↦ absurd (gives_none e (m w).1 (rw refused at h))
    | inr (out, passed) ↦ (rw passed (rw passed at h), rw passed refl)
  ]

  -- A finished request has its record completed, with the commit and the stored response.
  pub finish_lem :
      (o : MutationOptions J) (commit_id : String) (now : Instant) (r : MutationRecord J)
      (w : World J) (a : Answer J)
      → IsWellBehaved o
      → IsLogged r w.mutations
      → (finish P o r.request_id now commit_id w).0 ≡ ok (done a)
      → (r' : MutationRecord J) × (a.head ≡ commit_id)
        × (r'.commit_id ≡ some commit_id)
        × IsFinished o r a r'
        × IsLogged r' (finish P o r.request_id now commit_id w).1.mutations
  unfolding finish after_commit moved after_transition
  finish_lem o commit_id now r w a well logged h =
      let u : MutationUpdate J = record {
        commit_id = some commit_id;
        response = none;
        failure = none;
      } in
      let w1 = after_transition P r.request_id git_committed u w in
      let r1 : MutationRecord J = moved git_committed u (P.wall_at w.reads) r in
      let first = transition_lem P r git_committed u w logged in
      let logged1 = move_first-IsLogged r git_committed u (P.wall_at w.reads) w.mutations logged in
      let lands : after_commit P o commit_id r.request_id now w
          ≡ catch (project P o commit_id r.request_id now)
              (λ e. fail_after_commit P r.request_id (failure_update none e)) w1 =
        ap
          (λ p.
            continue p.0
              (λ x.
                catch (project P o commit_id r.request_id now)
                  (λ e. fail_after_commit P r.request_id (failure_update none e)))
              p.1)
          first in
      let (outer, same) =
        catch-done (after_commit P o commit_id r.request_id now)
          (λ e. fail_after_commit P r.request_id (failure_update (some commit_id) e)) w a
          (λ e v. fail_after_commit_lem r.request_id (failure_update (some commit_id) e) v a) h in
      let (inner, same1) =
        catch-done (project P o commit_id r.request_id now)
          (λ e. fail_after_commit P r.request_id (failure_update none e)) w1 a
          (λ e v. fail_after_commit_lem r.request_id (failure_update none e) v a)
          (rw lands at outer) in
      let (a', r', is_done, head, kept, finished, logged') =
        project_lem o commit_id now r1 w1 (done a) well logged1 inner in
      let same_answer : a ≡ a' = ground (arith, is_done) in
      (
        r',
        rw same_answer head,
        kept,
        rw same_answer (moved-IsFinished o git_committed u (P.wall_at w.reads) r r' a' finished),
        rw (same ∙ lands ∙ same1) logged',
      )

-- ===== src/Mutation/Answered.antt =====
-- The replay of an answered request, and the work on a request that has no answer yet
-- (services/mutation-runner.ts).
use fullwell.Prelude.{
  String, ◌≡◌, ◌≢◌, refl, ap, ◌∙◌, none, some, arith, eq_iff, eq_refl, inl, inr, Bool-cases, find,
  find_holds,
}
use fullwell.Prelude.Exec.{ok, Result-cases, ◌>>=◌}
use fullwell.Dict
use fullwell.Dict.{Dict}
use fullwell.Dict.Laws.{get-set, delete-set}
use fullwell.Household.Types.{Instant}
use fullwell.Household.Authorization.{require_scope}
use fullwell.Household.Mutations.{MutationRecord, get_mutation, has_key}
use fullwell.Mutation.World.{World, Platform}
use fullwell.Mutation.Request.{
  MutationOptions, Answer, done, failed, fingerprint_key, enforces_fingerprint, fingerprint_of,
  replay_record, replay, get_own, new_record,
}
use fullwell.Mutation.Runner.{stored_response, replay_or_work, under_lock, conclude, start, run}
use fullwell.Mutation.Log.{IsLogged}
use fullwell.Mutation.Finish.{IsWellBehaved, IsFinished}
use fullwell.Mutation.Work.{IsAnswered, work_lem}

module _ {J : Type 0} (P : Platform J) where
  replay_record_lem :
      (o : MutationOptions J) (r r' : MutationRecord J) (a : Answer J)
      → IsFinished P o r a r'
      → r'.commit_id ≡ some a.head
      → Dict.get a.data_ fingerprint_key ≡ none
      → replay_record P o r' ≡ ok (some a)
  unfolding replay_record fingerprint_of stored_response
  replay_record_lem o r r' a h kept clean = elim (Bool-cases (enforces_fingerprint P o)) [
    | inl enforces ↦
        let response : r'.response
            ≡ some (Dict.set a.data_ fingerprint_key (P.of_text o.request_fingerprint)) =
          ground (arith, h.response, enforces) in
        rw
          (
            response,
            kept,
            h.state,
            h.request,
            enforces,
            fingerprint_of,
            get-set a.data_ fingerprint_key fingerprint_key (P.of_text o.request_fingerprint),
            eq_refl fingerprint_key,
            P.as_text-of_text o.request_fingerprint,
            eq_refl o.request_fingerprint,
            delete-set a.data_ fingerprint_key (P.of_text o.request_fingerprint) clean,
          )
          (ground (arith, h.answered))
    | inr lax ↦
        let response : r'.response ≡ some a.data_ = ground (arith, h.response, lax) in
        rw (response, kept, h.state, h.request, lax, fingerprint_of, clean)
          (ground (arith, h.answered))
  ]

  pub run_once_answered :
      (o : MutationOptions J) (w : World J) (r : MutationRecord J) (a : Answer J)
      → require_scope o.principal o.required_scope ≡ ok tt
      → get_own P o w ≡ some r
      → replay_record P o r ≡ ok (some a)
      → run P o w ≡ (ok a, w)
  unfolding run replay start
  run_once_answered o w r a scope at replays = rw (scope, at, replays) refl

  pub new_record-replay :
      (o : MutationOptions J) (id : String) (now : Instant) (a : Answer J)
      → replay_record P o (new_record P o id now) ≢ ok (some a)
  unfolding replay_record new_record
  new_record-replay o id now a h = ground (arith)

  under_lock_lem :
      (o : MutationOptions J) (r : MutationRecord J) (w : World J) (a : Answer J)
      → IsWellBehaved o
      → get_own P o w ≡ some r
      → IsLogged r w.mutations
      → replay_record P o r ≢ ok (some a)
      → (under_lock P o w).0 ≡ ok (done a)
      → IsAnswered P o r a (under_lock P o w).1.mutations
  unfolding under_lock replay_or_work
  under_lock_lem o r w a well at logged fresh h = elim (Result-cases (replay_record P o r)) [
    | inl (e, refused) ↦ absurd (ground (arith, at, refused))
    | inr (some b, replays) ↦ absurd (ground (arith, at, replays))
    | inr (none, replays) ↦
        rw (at, replays) (work_lem P o r w a well logged (rw (at, replays) at h))
  ]

  -- A record that is found under the request's key has that key.
  pub key_of_own :
      (o : MutationOptions J) (w : World J) (r : MutationRecord J)
      → get_own P o w ≡ some r
      → has_key {J = J} o.principal.user_id o.tool o.idempotency_key
        ≡ has_key r.user_id r.tool r.idempotency_key
  unfolding get_mutation
  key_of_own o w r at =
      let holds =
        find_holds (has_key o.principal.user_id o.tool o.idempotency_key) w.mutations r at in
      let user : r.user_id ≡ o.principal.user_id =
        ground (arith, holds, eq_iff r.user_id o.principal.user_id) in
      let tool : r.tool ≡ o.tool = ground (arith, holds, eq_iff r.tool o.tool) in
      let key : r.idempotency_key ≡ o.idempotency_key =
        ground (arith, holds, eq_iff r.idempotency_key o.idempotency_key) in
      rw (user, tool, key) refl

  -- What is logged under the key of a request is found again.
  get_own-IsFinished :
      (o : MutationOptions J) (w v : World J) (r r' : MutationRecord J) (a : Answer J)
      → get_own P o w ≡ some r
      → IsFinished P o r a r'
      → IsLogged r' v.mutations
      → get_own P o v ≡ some r'
  unfolding get_mutation
  get_own-IsFinished o w v r r' a at h (found, _) =
      ap (λ p. find p v.mutations) (key_of_own o w r at ∙ rw (h.user, h.tool, h.key) refl) ∙ found

  -- What a request that was not answered before does from its record on.
  pub worked_once :
      (o : MutationOptions J) (r : MutationRecord J) (w : World J) (a : Answer J)
      → IsWellBehaved o
      → require_scope o.principal o.required_scope ≡ ok tt
      → get_own P o w ≡ some r
      → IsLogged r w.mutations
      → replay_record P o r ≢ ok (some a)
      → Dict.get a.data_ fingerprint_key ≡ none
      → ((under_lock P o >>= conclude P) w).0 ≡ ok a
      → run P o ((under_lock P o >>= conclude P) w).1
        ≡ (ok a, ((under_lock P o >>= conclude P) w).1)
  unfolding conclude
  worked_once o r w a well scope at logged fresh clean h =
      elim (Result-cases (under_lock P o w).0) [
        | inl (e, refused) ↦ absurd (ground (arith, refused))
        | inr (failed e, passed) ↦ absurd (ground (arith, passed))
        | inr (done b, passed) ↦
            let v = (under_lock P o w).1 in
            let same : b ≡ a = ground (arith, passed) in
            let answered : (under_lock P o w).0 ≡ ok (done a) = rw⁻¹ same passed in
            let (r', kept, finished, logged') =
              under_lock_lem o r w a well at logged fresh answered in
            rw (answered, conclude)
              (run_once_answered o v r' a scope
                (get_own-IsFinished o w v r r' a at finished logged')
                (replay_record_lem o r r' a finished kept clean))
      ]

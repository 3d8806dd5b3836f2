-- ===== src/Mutation/Replay.antt =====
-- A request that is sent again (services/mutation-runner.ts).
use fullwell.Prelude.{
  ◌+◌, ◌≡◌, ◌≢◌, refl, ap, sym, ◌∙◌, Bool, false, none, some, List, [], ◌∷◌, arith, inl, inr,
  Option-cases, Bool-cases, find, any,
}
use fullwell.Prelude.Exec.{ok, err, Result-cases, ◌>>=◌, lift, continue}
use fullwell.Dict
use fullwell.Dict.{Dict}
use fullwell.Auth.Types.{is_opaque_id}
use fullwell.Household.Types.{AppError}
use fullwell.Household.Authorization.{require_scope}
use fullwell.Household.Mutations.{MutationRecord, has_request, get_mutation, save_mutation, has_key}
use fullwell.Mutation.World.{World, Failure, Platform}
use fullwell.Mutation.Request.{
  MutationOptions, Answer, fingerprint_key, replay_record, replay, receive, get_own, new_record,
  read_clock, draw_request_id,
}
use fullwell.Mutation.Runner.{under_lock, conclude, start, run}
use fullwell.Mutation.Log.{IsLogged, save_mutation-IsLogged}
use fullwell.Mutation.Finish.{IsWellBehaved}
use fullwell.Mutation.Answered.{run_once_answered, new_record-replay, worked_once, key_of_own}

module _ {J : Type 0} (P : Platform J) where
  -- The record under the request's key, if there is one, is the one that has its request
  -- identifier; if there is none, the next identifier that is drawn is a new one.
  abbrev pub IsReady : MutationOptions J → World J → Type 0
  IsReady o w =
      ((r : MutationRecord J)
        → get_own P o w ≡ some r
        → find (has_request r.request_id) w.mutations ≡ some r)
      × (get_own P o w ≡ none
          → any (has_request (P.opaque_id_at w.draws "req")) w.mutations ≡ false)

  run_allowed :
      (o : MutationOptions J) (w : World J)
      → require_scope o.principal o.required_scope ≡ ok tt
      → run P o w ≡ (lift (replay P o (get_own P o w)) >>= start P o (get_own P o w)) w
  unfolding run
  run_allowed o w scope = rw scope refl

  -- A run of a request without an answer goes on under the lock, from its record or a new one.
  run_resumed :
      (o : MutationOptions J) (w : World J) (r : MutationRecord J)
      → require_scope o.principal o.required_scope ≡ ok tt
      → get_own P o w ≡ some r
      → replay_record P o r ≡ ok none
      → run P o w ≡ (under_lock P o >>= conclude P) w
  unfolding run replay start receive
  run_resumed o w r scope at replays =
      run_allowed o w scope
      ∙ ap (λ e. (lift (replay P o e) >>= start P o e) w) at
      ∙ ap (λ q. continue q (start P o (some r)) w) replays

  -- The world after the receipt of a new request.
  unfoldable after_receipt : MutationOptions J → World J → World J
  after_receipt o w = record w {
    mutations =
        save_mutation (new_record P o (P.opaque_id_at w.draws "req") (P.now_at w.reads))
          w.mutations;
    reads = w.reads + 1;
    draws = w.draws + 1;
  }

  run_received :
      (o : MutationOptions J) (w : World J) (a : Answer J)
      → require_scope o.principal o.required_scope ≡ ok tt
      → get_own P o w ≡ none
      → (run P o w).0 ≡ ok a
      → run P o w ≡ (under_lock P o >>= conclude P) (after_receipt o w)
  unfolding run replay start receive read_clock draw_request_id after_receipt
  run_received o w a scope absent h =
      elim (Bool-cases (is_opaque_id "req_" (P.opaque_id_at w.draws "req"))) [
        | inl valid ↦ rw (scope, absent, valid) refl
        | inr invalid ↦ absurd (ground (arith, scope, absent, invalid))
      ]

  any_absent :
      (p : MutationRecord J → Bool) (s : List (MutationRecord J))
      → find p s ≡ none
      → any p s ≡ false
  unfolding find any
  any_absent p [] h = refl
  any_absent p (x ∷ s) h = ground (arith, any_absent p s)

  receipt-IsLogged :
      (o : MutationOptions J) (w : World J)
      → IsReady o w
      → get_own P o w ≡ none
      → let r = new_record P o (P.opaque_id_at w.draws "req") (P.now_at w.reads) in
        (get_own P o (after_receipt o w) ≡ some r) × IsLogged r (after_receipt o w).mutations
  unfolding after_receipt get_mutation new_record
  receipt-IsLogged o w (_, unused) absent =
      let id = P.opaque_id_at w.draws "req" in
      let r = new_record P o id (P.now_at w.reads) in
      let new_key : any (has_key o.principal.user_id o.tool o.idempotency_key) w.mutations ≡ false =
        any_absent (has_key o.principal.user_id o.tool o.idempotency_key) w.mutations absent in
      let logged = save_mutation-IsLogged r w.mutations new_key (unused absent) in
      (logged.0, logged)

  found_own :
      (o : MutationOptions J) (w : World J) (r : MutationRecord J)
      → get_own P o w ≡ some r
      → find (has_key r.user_id r.tool r.idempotency_key) w.mutations ≡ some r
  unfolding get_mutation
  found_own o w r at = ap (λ p. find p w.mutations) (sym (key_of_own P o w r at)) ∙ at

  run_refused :
      (o : MutationOptions J) (w : World J) (a : Answer J) (e : AppError)
      → require_scope o.principal o.required_scope ≡ err e
      → (run P o w).0 ≢ ok a
  unfolding run
  run_refused o w a e refused h = ground (arith, refused)

  replay_refused :
      (o : MutationOptions J) (w : World J) (a : Answer J) (r : MutationRecord J) (e : Failure)
      → require_scope o.principal o.required_scope ≡ ok tt
      → get_own P o w ≡ some r
      → replay_record P o r ≡ err e
      → (run P o w).0 ≢ ok a
  unfolding run replay
  replay_refused o w a r e scope at refused h = ground (arith, scope, at, refused)

  -- A request whose run succeeded is answered the same when it is sent again, and the second run
  -- changes nothing. Conditions: the callbacks leave the log and the repositories alone; before
  -- the first run the record under the request's key, if there is one, is the one that has its
  -- request identifier, and if there is none, the next identifier drawn is not in the log; and
  -- the answer has no entry of its own under the key of the fingerprint.
  pub run_again :
      (o : MutationOptions J) (w : World J) (a : Answer J)
      → IsWellBehaved o
      → IsReady o w
      → (run P o w).0 ≡ ok a
      → Dict.get a.data_ fingerprint_key ≡ none
      → run P o (run P o w).1 ≡ (ok a, (run P o w).1)
  run_again o w a well ready h clean =
      elim (Result-cases (require_scope o.principal o.required_scope)) [
        | inl (e, refused) ↦ absurd (run_refused o w a e refused h)
        | inr (_, scope) ↦ elim (Option-cases (get_own P o w)) [
          | inl absent ↦
              let lands = run_received o w a scope absent h in
              let (at, logged) = receipt-IsLogged o w ready absent in
              rw lands (
                worked_once P o (new_record P o (P.opaque_id_at w.draws "req") (P.now_at w.reads))
                  (after_receipt o w) a well scope at logged
                  (new_record-replay P o (P.opaque_id_at w.draws "req") (P.now_at w.reads) a) clean
                  (rw lands at h))
          | inr (r, at) ↦ elim (Result-cases (replay_record P o r)) [
            | inl (e, refused) ↦ absurd (replay_refused o w a r e scope at refused h)
            | inr (some b, replays) ↦
                let once = run_once_answered P o w r b scope at replays in
                let same : b ≡ a = ground (arith, once) in
                let again : run P o w ≡ (ok a, w) = once ∙ ap (λ x. (ok x, w)) same in
                ap (λ p. run P o p.1) again ∙ again ∙ ap (λ p. (ok a, p.1)) (sym again)
            | inr (none, replays) ↦
                let lands = run_resumed o w r scope at replays in
                rw lands (
                  worked_once P o r w a well scope at (found_own o w r at, ready.0 r at)
                    (λ e. ground (arith, replays)) clean (rw lands at h))
          ]
        ]
      ]

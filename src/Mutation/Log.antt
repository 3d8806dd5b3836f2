-- ===== src/Mutation/Log.antt =====
-- The record of a request in the log of mutations, through its transitions.
use fullwell.Prelude.{
  ◌+◌, String, ◌≡◌, refl, Bool, true, false, some, List, [], ◌∷◌, arith, eq_refl, find, any,
  find_holds, Bool-cases, inl, inr,
}
use fullwell.Prelude.Exec.{ok}
use fullwell.Household.Types.{Instant}
use fullwell.Household.Mutations.{
  MutationState, MutationRecord, MutationUpdate, has_key, has_request, moved, move_first,
  transition_mutation, save_mutation,
}
use fullwell.Household.Mutations.Laws.{find-append}
use fullwell.Mutation.World.{World, Platform}
use fullwell.Mutation.Request.{transition}

module _ {J : Type 0} where
  -- `r` is what is found under its key, and under its request.
  abbrev pub IsLogged : MutationRecord J → List (MutationRecord J) → Type 0
  IsLogged r s =
      (find (has_key r.user_id r.tool r.idempotency_key) s ≡ some r)
      × (find (has_request r.request_id) s ≡ some r)

  pub any-find :
      (p : MutationRecord J → Bool) (s : List (MutationRecord J)) (r : MutationRecord J)
      → find p s ≡ some r
      → any p s ≡ true
  unfolding find any
  any-find p [] r h = ground arith
  any-find p (x ∷ s) r h = ground (arith, any-find p s r)

  -- What is found by two tests is at one place: it moves for both.
  find-move_first :
      (p : MutationRecord J → Bool) (id : String) (st : MutationState) (u : MutationUpdate J)
      (now : Instant) (s : List (MutationRecord J)) (r : MutationRecord J)
      → ((x : MutationRecord J) → p (moved st u now x) ≡ p x)
      → find p s ≡ some r
      → find (has_request id) s ≡ some r
      → find p (move_first id st u now s) ≡ some (moved st u now r)
  unfolding find move_first
  find-move_first p id st u now [] r same f g = ground arith
  find-move_first p id st u now (x ∷ s) r same f g = elim (Bool-cases (has_request id x)) [
    | inl own ↦ elim (Bool-cases (p x)) [
      | inl passes ↦ ground (arith, own, passes, same x)
      | inr fails ↦ absurd (ground (arith, own, fails, find_holds p s r))
    ]
    | inr foreign ↦ elim (Bool-cases (p x)) [
      | inl passes ↦ absurd (ground (arith, foreign, passes, find_holds (has_request id) s r))
      | inr fails ↦ ground (arith, foreign, fails, find-move_first p id st u now s r same)
    ]
  ]

  pub move_first-IsLogged :
      (r : MutationRecord J) (st : MutationState) (u : MutationUpdate J) (now : Instant)
      (s : List (MutationRecord J))
      → IsLogged r s
      → IsLogged (moved st u now r) (move_first r.request_id st u now s)
  unfolding moved
  move_first-IsLogged r st u now s (f, g) = (
    find-move_first (has_key r.user_id r.tool r.idempotency_key) r.request_id st u now s r
        (λ x. refl) f g,
    find-move_first (has_request r.request_id) r.request_id st u now s r (λ x. refl) g g,
  )

  -- The world after a transition.
  unfoldable pub after_transition :
      Platform J → String → MutationState → MutationUpdate J → World J → World J
  after_transition P id st u w = record w {
    mutations = move_first id st u (P.wall_at w.reads) w.mutations;
    reads = w.reads + 1;
  }

  -- A transition of a request that is there succeeds.
  pub transition_passes :
      (P : Platform J) (id : String) (st : MutationState) (u : MutationUpdate J) (w : World J)
      → any (has_request id) w.mutations ≡ true
      → transition P id st u w ≡ (ok tt, after_transition P id st u w)
  unfolding transition transition_mutation after_transition
  transition_passes P id st u w there = rw there refl

  pub transition_lem :
      (P : Platform J) (r : MutationRecord J) (st : MutationState) (u : MutationUpdate J)
      (w : World J)
      → IsLogged r w.mutations
      → transition P r.request_id st u w ≡ (ok tt, after_transition P r.request_id st u w)
  transition_lem P r st u w (f, g) =
      transition_passes P r.request_id st u w (any-find (has_request r.request_id) w.mutations r g)

  -- A new record under a new key, with a new request, is logged.
  pub save_mutation-IsLogged :
      (r : MutationRecord J) (s : List (MutationRecord J))
      → any (has_key r.user_id r.tool r.idempotency_key) s ≡ false
      → any (has_request r.request_id) s ≡ false
      → IsLogged r (save_mutation r s)
  unfolding save_mutation
  save_mutation-IsLogged r s new_key new_request =
      rw (new_key, save_mutation)
        (
          find-append (has_key r.user_id r.tool r.idempotency_key) s r new_key
              (ground (arith, eq_refl r.user_id, eq_refl r.tool, eq_refl r.idempotency_key)),
          find-append (has_request r.request_id) s r new_request (eq_refl r.request_id),
        )

-- ===== src/Household/Mutations/Laws.antt =====
-- A mutation from its receipt to its transitions (adapters/memory.ts).
use fullwell.Prelude.{
  String, ◌≡◌, Bool, true, false, some, List, [], ◌∷◌, ◌++◌, arith, eq_iff, eq_refl, find, any,
}
use fullwell.Prelude.Exec.{ok}
use fullwell.Household.Types.{Instant}
use fullwell.Household.Mutations.{
  MutationState, MutationRecord, MutationUpdate, has_key, get_mutation, save_mutation, has_request,
  moved, move_first, transition_mutation,
}

module _ {J : Type 0} where
  pub find-append :
      (p : MutationRecord J → Bool) (rs : List (MutationRecord J)) (r : MutationRecord J)
      → any p rs ≡ false
      → p r ≡ true
      → find p (rs ++ r ∷ []) ≡ some r
  unfolding find any
  find-append p [] r absent own = ground (arith, own)
  find-append p (x ∷ rs) r absent own = ground (arith, find-append p rs r)

  -- A transition of a request whose record is the last one changes that record.
  move_first-append :
      (request_id : String) (state : MutationState) (u : MutationUpdate J) (now : Instant)
      (rs : List (MutationRecord J)) (r : MutationRecord J)
      → any (has_request request_id) rs ≡ false
      → has_request request_id r ≡ true
      → move_first request_id state u now (rs ++ r ∷ []) ≡ rs ++ moved state u now r ∷ []
  unfolding move_first any
  move_first-append request_id state u now [] r absent own = ground (arith, own)
  move_first-append request_id state u now (x ∷ rs) r absent own =
      ground (arith, move_first-append request_id state u now rs r)

  any-append :
      (p : MutationRecord J → Bool) (rs : List (MutationRecord J)) (r : MutationRecord J)
      → p r ≡ true
      → any p (rs ++ r ∷ []) ≡ true
  unfolding any
  any-append p [] r own = ground (arith, own)
  any-append p (x ∷ rs) r own = ground (arith, any-append p rs r)

  -- A mutation that was received under a new key, with a new request, is the one that its
  -- transition changes: the transition succeeds, and the record with the new state, and what the
  -- transition sets, is found under the key. A second receipt under the key changes nothing.
  pub transition_mutation-save_mutation :
      (r : MutationRecord J) (s : List (MutationRecord J))
      → any (has_key r.user_id r.tool r.idempotency_key) s ≡ false
      → any (has_request r.request_id) s ≡ false
      → (state : MutationState) (u : MutationUpdate J) (now : Instant)
      → let t = transition_mutation r.request_id state u now (save_mutation r s) in
        (t.0 ≡ ok tt)
        × (get_mutation r.user_id r.tool r.idempotency_key t.1 ≡ some (moved state u now r))
        × ((again : MutationRecord J)
            → has_key r.user_id r.tool r.idempotency_key again ≡ true
            → save_mutation again t.1 ≡ t.1)
  unfolding transition_mutation save_mutation get_mutation moved
  transition_mutation-save_mutation r s new_key new_request state u now =
      let p : MutationRecord J → Bool = has_key r.user_id r.tool r.idempotency_key in
      let q : MutationRecord J → Bool = has_request r.request_id in
      let same : has_request r.request_id r ≡ true = eq_refl r.request_id in
      let r' : MutationRecord J = moved state u now r in
      let own : has_key r.user_id r.tool r.idempotency_key r' ≡ true =
        ground (arith, eq_refl r.user_id, eq_refl r.tool, eq_refl r.idempotency_key) in
      let there = any-append q s r same in
      let lands = move_first-append r.request_id state u now s r new_request same in
      (
        ground (arith, new_key, there),
        ground (arith, new_key, there, lands, find-append p s r' new_key own),
        λ again keyed. ground (
          arith,
          new_key,
          there,
          lands,
          any-append p s r' own,
          eq_iff again.user_id r.user_id,
          eq_iff again.tool r.tool,
          eq_iff again.idempotency_key r.idempotency_key,
        ),
      )

-- ===== src/Household/Mutations.antt =====
-- adapters/memory.ts: the mutations that `MemoryOperationalStore` keeps, each under its user, tool
-- and idempotency key. Those are fields of the record, so the map is a list of records of which no
-- two have the same three. `J` is the type of the JSON values in a response.
pub mod Laws
use fullwell.Prelude.{
  String, Bool, true, false, ◌&&◌, ◌||◌, Option, none, some, List, [], ◌∷◌, ◌++◌, ◌==◌,
  if◌then◌else◌, is_none, is_text, filter, find, any,
}
use fullwell.Prelude.Exec.{Result, ok, err, Exec}
use fullwell.Dict.{Dict}
use fullwell.Household.Types.{Instant, AppError, internal_error}

pub data MutationState : Type 0 where
  received locked git_committed projections_applied completed : MutationState
  failed_before_commit reconciliation_required quarantined : MutationState

pub record MutationRecord (J : Type 0) : Type 0 where
  pub request_id : String
  pub user_id : String
  pub tool : String
  pub idempotency_key : String
  pub household_id : Option String
  pub state : MutationState
  pub commit_id : Option String
  pub response : Option (Dict J)
  pub failure : Option String
  pub created_at : Instant
  pub updated_at : Instant

-- The fields that a transition may set; `none` leaves a field alone.
pub record MutationUpdate (J : Type 0) : Type 0 where
  pub commit_id : Option String
  pub response : Option (Dict J)
  pub failure : Option String

abbrev pub or_else {ℓ} : {A : Type ℓ} → Option A → Option A → Option A
or_else none old = old
or_else (some new) old = some new

-- received, locked, git_committed or reconciliation_required
abbrev pub is_reconcilable : MutationState → Bool
is_reconcilable received = true
is_reconcilable locked = true
is_reconcilable git_committed = true
is_reconcilable reconciliation_required = true
is_reconcilable _ = false

module _ {J : Type 0} where
  abbrev pub has_key : String → String → String → MutationRecord J → Bool
  has_key user_id tool key r = r.user_id == user_id && r.tool == tool && r.idempotency_key == key

  unfoldable pub get_mutation :
      String → String → String → List (MutationRecord J) → Option (MutationRecord J)
  get_mutation user_id tool key s = find (has_key user_id tool key) s

  -- The first record of a key stays.
  unfoldable pub save_mutation :
      MutationRecord J → List (MutationRecord J) → List (MutationRecord J)
  save_mutation r s = if any (has_key r.user_id r.tool r.idempotency_key) s then s else s ++ r ∷ []

  abbrev pub has_request : String → MutationRecord J → Bool
  has_request request_id r = r.request_id == request_id

  -- The record after a transition at the given time.
  unfoldable pub moved :
      MutationState → MutationUpdate J → Instant → MutationRecord J → MutationRecord J
  moved state u now r = record r {
    state = state;
    commit_id = or_else u.commit_id r.commit_id;
    response = or_else u.response r.response;
    failure = or_else u.failure r.failure;
    updated_at = now;
  }

  unfoldable pub move_first :
      String
      → MutationState
      → MutationUpdate J
      → Instant
      → List (MutationRecord J)
      → List (MutationRecord J)
  unfolding moved
  move_first request_id state u now [] = []
  move_first request_id state u now (r ∷ rs) =
      let rest = move_first request_id state u now rs in
      if has_request request_id r then moved state u now r ∷ rs else r ∷ rest

  unfoldable pub transition_mutation :
      String
      → MutationState
      → MutationUpdate J
      → Instant
      → Exec AppError (List (MutationRecord J)) (Unit {0})
  unfolding move_first
  transition_mutation request_id state u now s =
      if any (has_request request_id) s
      then (ok tt, move_first request_id state u now s)
      else (err internal_error, s)

  unfoldable pub list_mutations_for_reconciliation :
      String → List (MutationRecord J) → List (MutationRecord J)
  list_mutations_for_reconciliation household_id s =
      filter (λ r. is_text r.household_id household_id && is_reconcilable r.state) s

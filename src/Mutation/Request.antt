-- ===== src/Mutation/Request.antt =====
-- services/mutation-runner.ts: the options of a run, its replay and the receipt of a request.
-- Telemetry is left out.
use fullwell.Prelude.{
  ◌+◌, String, Bool, true, false, not, ◌&&◌, ◌||◌, Option, none, some, List, [], ◌∷◌, ◌==◌,
  if◌then◌else◌, is_none,
}
use fullwell.Prelude.Exec.{Result, ok, err, ◌>>=◌, pure, modify}
use fullwell.Dict
use fullwell.Dict.{Dict}
use fullwell.OAuth.Types.{OAuthScope}
use fullwell.Auth.Types.{is_opaque_id}
use fullwell.Household.Types.{Instant, AppError, Role, Principal, revision_conflict}
use fullwell.Household.Mutations.{
  MutationState, MutationRecord, MutationUpdate, received, completed, quarantined, get_mutation,
  save_mutation, transition_mutation,
}
use fullwell.Repository.Memory.{RepositoryChange}
use fullwell.Mutation.World.{World, Failure, app, other, error_name, Platform, Action}

-- `strict_expected_head`, with the head that the caller saw, if any, or `append_to_current_head`.
pub data ConflictPolicy : Type 0 where
  strict : Option String → ConflictPolicy
  append : ConflictPolicy

pub record MutationOptions (J : Type 0) : Type 0 where
  pub principal : Principal
  pub tool : String
  pub household_id : String
  pub idempotency_key : String
  pub request_fingerprint : String
  pub minimum_role : Option Role
  pub required_scope : OAuthScope
  pub summary : String
  pub recovery_data : Dict J
  pub enforce_on_replay : Bool
  pub policy : ConflictPolicy
  -- The callbacks get the request's identifier and the time of its receipt.
  pub build_changes : String → Instant → Action J (List RepositoryChange)
  pub apply_projection : String → String → Instant → Action J (Dict J)

-- What `run` returns.
pub record Answer (J : Type 0) : Type 0 where
  pub data_ : Dict J
  pub head : String
  pub request_id : String

-- MutationOutcome
pub data Outcome (J : Type 0) : Type 0 where
  done : Answer J → Outcome J
  failed : Failure → Outcome J

abbrev pub fingerprint_key : String
fingerprint_key = "_request_fingerprint"

abbrev pub is_append : ConflictPolicy → Bool
is_append append = true
is_append (strict _) = false

abbrev pub is_completed : MutationState → Bool
is_completed completed = true
is_completed _ = false

abbrev pub is_quarantined : MutationState → Bool
is_quarantined quarantined = true
is_quarantined _ = false

-- { ...entries }, later entries over earlier ones
abbrev pub spread : {J : Type 0} → Dict J → Dict J → Dict J
spread m [] = m
spread m ((k, v) ∷ entries) = spread (Dict.set m k v) entries

abbrev pub no_update : {J : Type 0} → MutationUpdate J
no_update = record { commit_id = none; response = none; failure = none }

abbrev pub failure_update : {J : Type 0} → Option String → Failure → MutationUpdate J
failure_update commit_id e = record {
  commit_id = commit_id;
  response = none;
  failure = some (error_name e);
}

module _ {J : Type 0} (P : Platform J) where
  unfoldable pub enforces_fingerprint : MutationOptions J → Bool
  enforces_fingerprint o = o.enforce_on_replay || is_append o.policy

  -- `existing?.response?._request_fingerprint`, where it is a text
  unfoldable pub fingerprint_of : MutationRecord J → Option String
  fingerprint_of r = elim r.response [
    | none ↦ none
    | some response ↦ elim (Dict.get response fingerprint_key) [
      | none ↦ none
      | some v ↦ P.as_text v
    ]
  ]

  -- A text that is there and is another one.
  abbrev pub differs : Option String → String → Bool
  differs none s = false
  differs (some t) s = not (t == s)

  unfoldable pub replay_record :
      MutationOptions J → MutationRecord J → Result Failure (Option (Answer J))
  unfolding enforces_fingerprint fingerprint_of
  replay_record o r =
      if differs (fingerprint_of r) o.request_fingerprint
        && (enforces_fingerprint o || not (is_completed r.state))
      then err (app revision_conflict)
      else if is_completed r.state && not (is_none r.response) && not (is_none r.commit_id)
      then elim r.response [
        | none ↦ ok none
        | some response ↦ elim r.commit_id [
          | none ↦ ok none
          | some head ↦ ok (
              some (record {
                data_ =
                    if enforces_fingerprint o
                    then Dict.delete response fingerprint_key
                    else response;
                head = head;
                request_id = r.request_id;
              }))
        ]
      ]
      else if is_quarantined r.state
      then err (app AppError.reconciliation_required)
      else ok none

  unfoldable pub replay :
      MutationOptions J → Option (MutationRecord J) → Result Failure (Option (Answer J))
  unfolding replay_record
  replay o none = ok none
  replay o (some r) = replay_record o r

  unfoldable pub read_clock : Action J Instant
  read_clock w = (ok (P.now_at w.reads), record w { reads = w.reads + 1 })

  -- RequestIdSchema.parse(random.opaqueId("req"))
  unfoldable pub draw_request_id : Action J String
  draw_request_id w =
      let id = P.opaque_id_at w.draws "req" in
      (
        if is_opaque_id "req_" id then ok id else err (other "ZodError"),
        record w { draws = w.draws + 1 },
      )

  -- store.transitionMutation(requestId, state, update)
  unfoldable pub transition : String → MutationState → MutationUpdate J → Action J (Unit {0})
  transition request_id state u w =
      let (r, s) = transition_mutation request_id state u (P.wall_at w.reads) w.mutations in
      (
        elim r [ ok a ↦ ok a | err e ↦ err (app e) ],
        record w { mutations = s; reads = w.reads + 1 },
      )

  -- store.getMutation(…)
  abbrev pub get_own : MutationOptions J → World J → Option (MutationRecord J)
  get_own o w = get_mutation o.principal.user_id o.tool o.idempotency_key w.mutations

  -- The record of a new request.
  unfoldable pub new_record : MutationOptions J → String → Instant → MutationRecord J
  new_record o request_id now = record {
    request_id = request_id;
    user_id = o.principal.user_id;
    tool = o.tool;
    idempotency_key = o.idempotency_key;
    household_id = some o.household_id;
    state = received;
    commit_id = none;
    response =
        some (spread ((fingerprint_key, P.of_text o.request_fingerprint) ∷ []) o.recovery_data);
    failure = none;
    created_at = now;
    updated_at = now;
  }

  -- What is done before the lock: an existing record is left as it is.
  unfoldable pub receive : MutationOptions J → Option (MutationRecord J) → Action J (Unit {0})
  unfolding read_clock draw_request_id new_record
  receive o (some r) = pure tt
  receive o none = do
    now ← read_clock
    request_id ← draw_request_id
    modify (λ w. record w { mutations = save_mutation (new_record o request_id now) w.mutations })

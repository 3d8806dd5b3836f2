-- ===== src/Mutation/World.antt =====
-- What `MutationRunner` acts on: the operational store, the repositories, and its platform. `J` is
-- the type of JSON values.
use fullwell.Prelude.{ℕ, String, ◌≡◌, Option, some, List}
use fullwell.Prelude.Exec.{Result, ok, err, Exec}
use fullwell.Household.Types.{Instant, AppError}
use fullwell.Household.Store.{OperationalStore}
use fullwell.Household.Mutations.{MutationRecord}
use fullwell.Repository.Memory.{Repositories, RepositoryError, RepositoryPlatform}

pub record World (J : Type 0) : Type 0 where
  pub store : OperationalStore
  pub mutations : List (MutationRecord J)
  pub repositories : Repositories
  -- The readings of a clock and the draws of a random text so far.
  pub reads : ℕ
  pub draws : ℕ

-- What is thrown: an `AppError`, or an error of another class, by its name.
pub data Failure : Type 0 where
  app : AppError → Failure
  other : String → Failure

-- errorName(error)
abbrev pub error_name : Failure → String
error_name (app e) = "AppError"
error_name (other name) = name

-- The repositories throw an `AppError` too.
abbrev pub of_repository : RepositoryError → Failure
of_repository RepositoryError.not_found = app AppError.not_found
of_repository RepositoryError.revision_conflict = app AppError.revision_conflict
of_repository RepositoryError.validation_failed = app AppError.validation_failed

pub record Platform (J : Type 0) : Type 0 where
  -- clock.now(), and `new Date()` in the store
  pub now_at : ℕ → Instant
  pub wall_at : ℕ → Instant
  -- random.opaqueId(prefix)
  pub opaque_id_at : ℕ → String → String
  -- date.toISOString()
  pub iso : Instant → String
  -- A text as a JSON value, and the text that a JSON value is.
  pub of_text : String → J
  pub as_text : J → Option String
  pub as_text-of_text : (s : String) → as_text (of_text s) ≡ some s
  pub repository : RepositoryPlatform

abbrev pub Action : Type 0 → Type 0 → Type 0
Action J A = Exec Failure (World J) A

module _ {J : Type 0} {A : Type 0} where
  -- A call of the operational store.
  abbrev pub on_store : Exec AppError OperationalStore A → Action J A
  on_store m w =
      let (r, s) = m w.store in
      (elim r [ ok a ↦ ok a | err e ↦ err (app e) ], record w { store = s })

  -- A call of the repositories.
  abbrev pub on_repositories : Exec RepositoryError Repositories A → Action J A
  on_repositories m w =
      let (r, s) = m w.repositories in
      (elim r [ ok a ↦ ok a | err e ↦ err (of_repository e) ], record w { repositories = s })

  -- try { m } catch (error) { handle(error) }
  abbrev pub recover : Result Failure A → (Failure → Action J A) → Action J A
  recover (ok a) handle w = (ok a, w)
  recover (err e) handle w = handle e w

  abbrev pub catch : Action J A → (Failure → Action J A) → Action J A
  catch m handle w = recover (m w).0 handle (m w).1

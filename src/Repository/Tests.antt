-- ===== src/Repository/Tests.antt =====
-- Runs of the repositories on a small platform, and the theorems at concrete inputs.
use Prim.Native.String
use fullwell.Prelude.{String, ◌≡◌, ◌≢◌, refl, true, some, List, [], ◌∷◌, arith, find, eq_iff}
use fullwell.Prelude.Exec.{ok, err}
use fullwell.Prelude.Text.{every_char, utf16_length}
use fullwell.Dict
use fullwell.Repository.Paths.{is_repository_path, has_double, ends_with, has_path_chars}
use fullwell.Repository.Memory.{
  RepositoryPlatform, Repositories, RepositoryChange, CommitMetadata, revision_conflict, commit,
  committed, audit_path, audit_event, take_chars, check_changes, write_changes, write_revisions,
  read, find_commit_by_request_id,
}
use fullwell.Repository.Commits.{
  IsCommitted, commit-IsCommitted, commit_conflict, read-commit, find_commit_by_request_id-commit,
  commit_request_once,
}

abbrev joined : List String → String
joined [] = ""
joined (s ∷ ss) = String.◌++◌ s (joined ss)

abbrev platform : RepositoryPlatform
platform = record { digest = joined; json = λ s. s; stable_json = λ e. e.request_id }

abbrev repositories : Repositories
repositories =
    (
      "hsh_1",
      record {
        head = "h";
        files = ("household.md", "Home") ∷ [];
        revisions = ("household.md", "h") ∷ [];
        commits = [];
      },
    )
    ∷ []

abbrev changes : List RepositoryChange
changes = (record { path = "evidence/1.md"; content = "eaten"; append_only = true }) ∷ []

abbrev metadata : CommitMetadata
metadata = record {
  request_id = "req_1";
  household_id = "hsh_1";
  actor_id = "act_1";
  tool = "record";
  client = "codex";
  summary = "A meal";
  occurred_at = "2026-01-02T03:04:05.000Z";
}

abbrev after : Repositories
after = (commit platform "hsh_1" "h" changes metadata repositories).1

-- What a run opens.
running : Unit {0}
unfolding commit committed audit_path audit_event take_chars check_changes write_changes
    write_revisions read find_commit_by_request_id is_repository_path has_double ends_with
    has_path_chars every_char utf16_length Dict.get Dict.set find
running = tt

abbrev new_head : String
new_head = "hreq_1evidence/1.mdeaten"

first_commit : (commit platform "hsh_1" "h" changes metadata repositories).0 ≡ ok new_head
unfolding running
first_commit = refl

commit-IsCommitted_example :
    IsCommitted platform "hsh_1" "h" changes metadata repositories new_head after
commit-IsCommitted_example =
    commit-IsCommitted platform "hsh_1" "h" changes metadata repositories new_head first_commit

commit_conflict_example :
    commit platform "hsh_1" "h" [] (record metadata { request_id = "req_2" }) after
    ≡ (err revision_conflict, after)
commit_conflict_example =
    commit_conflict platform "hsh_1" "h" changes metadata repositories new_head first_commit
      (λ e. ground (arith, eq_iff new_head "h")) [] (record metadata { request_id = "req_2" })

read-commit_example : read "hsh_1" "household.md" after ≡ ok (some "Home")
unfolding running
read-commit_example =
    read-commit platform "hsh_1" "h" changes metadata repositories new_head first_commit (refl, tt)
      "household.md" "Home" refl

find_commit_by_request_id-commit_example :
    find_commit_by_request_id "hsh_1" "req_1" after ≡ ok (some new_head)
unfolding running
find_commit_by_request_id-commit_example =
    find_commit_by_request_id-commit platform "hsh_1" "h" changes metadata repositories new_head
      first_commit refl

commit_request_once_example : (commit platform "hsh_1" new_head [] metadata after).0 ≢ ok "another"
commit_request_once_example =
    commit_request_once platform "hsh_1" "h" changes metadata repositories new_head first_commit
      new_head [] metadata "another" refl refl

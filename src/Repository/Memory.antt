-- ===== src/Repository/Memory.antt =====
-- adapters/memory.ts: `MemoryHouseholdRepository`, its provisioning, commits and reads. What it
-- takes from its platform is a parameter: the digest of a list of texts (SHA-256 of their
-- concatenation with separators) and JSON texts.
use Prim.Native.String
use fullwell.Prelude.{
  ℕ, zero, suc, String, Bool, not, ◌&&◌, Option, none, some, List, [], ◌∷◌, ◌++◌, map, ◌==◌,
  if◌then◌else◌, find,
}
use fullwell.Prelude.Exec.{Result, ok, err, Exec}
use fullwell.Dict
use fullwell.Dict.{Dict}
use fullwell.Dict.Laws.{has}
use fullwell.Repository.Paths.{is_repository_path}

-- The codes of the errors that a repository throws.
pub data RepositoryError : Type 0 where
  not_found revision_conflict validation_failed : RepositoryError

pub record RepositoryChange : Type 0 where
  pub path : String
  pub content : String
  pub append_only : Bool

-- `occurred_at` is the text of an instant.
pub record CommitMetadata : Type 0 where
  pub request_id : String
  pub household_id : String
  pub actor_id : String
  pub tool : String
  pub client : String
  pub summary : String
  pub occurred_at : String

pub record Commit : Type 0 where
  pub head : String
  pub metadata : CommitMetadata
  pub paths : List String

pub record MemoryRepository : Type 0 where
  pub head : String
  pub files : Dict String
  pub revisions : Dict String
  pub commits : List Commit

-- What is written for an audit event; `schema_version` is always 1.
pub record AuditEvent : Type 0 where
  pub actor_id : String
  pub affected_paths : List String
  pub occurred_at : String
  pub operation : String
  pub parent_head : String
  pub request_id : String

pub record RepositoryPlatform : Type 0 where
  -- digest(parts)
  pub digest : List String → String
  -- JSON.stringify(name)
  pub json : String → String
  -- stableJson(event)
  pub stable_json : AuditEvent → String

abbrev pub Repositories : Type 0
Repositories = Dict MemoryRepository

pub record RepositoryFile : Type 0 where
  pub path : String
  pub content : String
  pub revision : String

pub record RepositorySnapshot : Type 0 where
  pub head : String
  pub files : List RepositoryFile

-- text.slice(0, n), for a text in which each character is one code unit
unfoldable pub take_chars : ℕ → String → String
take_chars zero s = ""
take_chars (suc n) String.[] = ""
take_chars (suc n) (String.◌∷◌ c s) = String.◌∷◌ c (take_chars n s)

-- audit/<year>/<request>.json
unfoldable pub audit_path : CommitMetadata → String
unfolding take_chars
audit_path m =
    String.◌++◌ "audit/" (
      String.◌++◌ (take_chars 4 m.occurred_at) (String.◌++◌ "/" (String.◌++◌ m.request_id ".json")))

unfoldable pub head : String → Repositories → Result RepositoryError String
head id s = elim (Dict.get s id) [ none ↦ err not_found | some r ↦ ok r.head ]

unfoldable pub find_commit_by_request_id :
    String → String → Repositories → Result RepositoryError (Option String)
find_commit_by_request_id id request_id s = elim (Dict.get s id) [
  | none ↦ err not_found
  | some r ↦ elim (find (λ c. c.metadata.request_id == request_id) r.commits) [
    | none ↦ ok none
    | some c ↦ ok (some c.head)
  ]
]

abbrev pub get_or_head : Option String → String → String
get_or_head none h = h
get_or_head (some v) h = v

unfoldable pub snapshot : String → Repositories → Result RepositoryError RepositorySnapshot
snapshot id s = elim (Dict.get s id) [
  | none ↦ err not_found
  | some r ↦ ok (record {
    head = r.head;
    files =
        map
          (λ f. record {
            path = f.0;
            content = f.1;
            revision = get_or_head (Dict.get r.revisions f.0) r.head;
          })
          r.files;
  })
]

unfoldable pub read : String → String → Repositories → Result RepositoryError (Option String)
read id path s =
    if not (is_repository_path path)
    then err validation_failed
    else elim (Dict.get s id) [ none ↦ err not_found | some r ↦ ok (Dict.get r.files path) ]

-- The loop of `commit` that may throw.
unfoldable pub check_changes :
    List RepositoryChange → Dict String → Result RepositoryError (Unit {0})
check_changes [] files = ok tt
check_changes (c ∷ cs) files =
    if not (is_repository_path c.path)
    then err validation_failed
    else if c.append_only && has files c.path
    then err revision_conflict
    else check_changes cs files

unfoldable pub write_changes : List RepositoryChange → Dict String → Dict String
write_changes [] files = files
write_changes (c ∷ cs) files = write_changes cs (Dict.set files c.path c.content)

unfoldable pub write_revisions : String → List RepositoryChange → Dict String → Dict String
write_revisions h [] revisions = revisions
write_revisions h (c ∷ cs) revisions = write_revisions h cs (Dict.set revisions c.path h)

-- changes.flatMap((change) => [change.path, change.content])
abbrev pub change_texts : List RepositoryChange → List String
change_texts [] = []
change_texts (c ∷ cs) = c.path ∷ c.content ∷ change_texts cs

-- [...files.entries()].flat()
abbrev pub file_texts : Dict String → List String
file_texts [] = []
file_texts ((path, content) ∷ files) = path ∷ content ∷ file_texts files

abbrev pub with_revision : String → Dict String → Dict String
with_revision h files = map (λ f. (f.0, h)) files

module _ (P : RepositoryPlatform) where
  unfoldable pub audit_event : String → List RepositoryChange → CommitMetadata → String
  audit_event parent changes m = P.stable_json (record {
    actor_id = m.actor_id;
    affected_paths = map (λ c. c.path) changes;
    occurred_at = m.occurred_at;
    operation = m.tool;
    parent_head = parent;
    request_id = m.request_id;
  })

  -- The repository after a commit.
  unfoldable pub committed :
      List RepositoryChange → CommitMetadata → MemoryRepository → MemoryRepository
  unfolding audit_path write_changes write_revisions audit_event
  committed changes m r =
      let h = P.digest (r.head ∷ m.request_id ∷ change_texts changes) in
      record {
        head = h;
        files =
            Dict.set (write_changes changes r.files) (audit_path m) (audit_event r.head changes m);
        revisions = Dict.set (write_revisions h changes r.revisions) (audit_path m) h;
        commits =
            r.commits
            ++ (record {
              head = h;
              metadata = m;
              paths = map (λ c. c.path) changes ++ audit_path m ∷ [];
            })
              ∷ [];
      }

  unfoldable pub commit :
      String
      → String
      → List RepositoryChange
      → CommitMetadata
      → Exec RepositoryError Repositories String
  unfolding check_changes audit_path committed
  commit id expected changes m s = elim (Dict.get s id) [
    | none ↦ (err not_found, s)
    | some r ↦
        if not (r.head == expected)
        then (err revision_conflict, s)
        else elim (check_changes changes r.files) [
          | err e ↦ (err e, s)
          | ok _ ↦
              if has r.files (audit_path m)
              then (err revision_conflict, s)
              else (ok (committed changes m r).head, Dict.set s id (committed changes m r))
        ]
  ]

  -- The files of a new household.
  unfoldable pub first_files : String → String → Dict String
  first_files name actor_id =
      ("FORMAT_VERSION", "1\n")
      ∷ (
        "household.md",
        String.◌++◌ "---\nname: " (String.◌++◌ (P.json name) "\nschema_version: 1\n---\n"),
      )
      ∷ (
        String.◌++◌ "members/" (String.◌++◌ actor_id ".md"),
        "---\nrole: owner\nschema_version: 1\n---\n",
      )
      ∷ []

  unfoldable pub provision : String → String → String → Repositories → String × Repositories
  unfolding first_files
  provision id name actor_id s = elim (Dict.get s id) [
    | some r ↦ (r.head, s)
    | none ↦
        let files = first_files name actor_id in
        let h = P.digest (file_texts files) in
        (
          h,
          Dict.set s id
              (record { head = h; files = files; revisions = with_revision h files; commits = [] }),
        )
  ]

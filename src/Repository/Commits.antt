-- ===== src/Repository/Commits.antt =====
-- What a commit promises to its caller and to those who committed before (adapters/memory.ts,
-- `commit`).
use fullwell.Prelude.{
  String, ◌≡◌, ◌≢◌, refl, ◌∙◌, true, false, none, some, List, [], ◌∷◌, ◌++◌, map, arith, ◌==◌,
  eq_iff, eq_refl, find, All, Option-cases, inl, inr,
}
use fullwell.Prelude.Exec.{ok, err, Result-cases}
use fullwell.Dict
use fullwell.Dict.{Dict}
use fullwell.Dict.Laws.{get-set, has}
use fullwell.Repository.Paths.{is_repository_path}
use fullwell.Repository.Memory.{
  RepositoryError, revision_conflict, RepositoryChange, CommitMetadata, Commit, MemoryRepository,
  RepositoryPlatform, Repositories, audit_path, find_commit_by_request_id, read, check_changes,
  write_changes, audit_event, committed, commit,
}

-- Each change is to a valid path, and one that only appends is to a new one.
abbrev pub AreAllowed : List RepositoryChange → Dict String → Type 0
AreAllowed cs files =
    All
      (λ c. (is_repository_path c.path ≡ true) × (c.append_only ≡ true → has files c.path ≡ false))
      cs

check_changes-AreAllowed :
    (cs : List RepositoryChange) (files : Dict String)
    → check_changes cs files ≡ ok tt
    → AreAllowed cs files
unfolding check_changes
check_changes-AreAllowed [] files h = tt
check_changes-AreAllowed (c ∷ cs) files h =
    ((ground arith, λ appends. ground arith), check_changes-AreAllowed cs files (ground arith))

module _ (P : RepositoryPlatform) where
  -- What a commit found, and what it left.
  pub record IsCommitted (id expected : String) (changes : List RepositoryChange)
      (m : CommitMetadata) (s : Repositories) (h : String) (t : Repositories) : Type 0 where
    pub before : MemoryRepository
    pub at_id : Dict.get s id ≡ some before
    pub current : before.head ≡ expected
    pub allowed : AreAllowed changes before.files
    pub unaudited : has before.files (audit_path m) ≡ false
    pub answer : h ≡ (committed P changes m before).head
    pub after : Dict.get t id ≡ some (committed P changes m before)
    pub others : (other : String) → (id == other) ≡ false → Dict.get t other ≡ Dict.get s other

  -- A commit is accepted only on the current head of the repository, with valid paths, with no
  -- append-only change to a file that exists, and for a request that has no audit event yet. It
  -- answers with the new head and leaves the other households' repositories alone.
  pub commit-IsCommitted :
      (id expected : String) (changes : List RepositoryChange) (m : CommitMetadata)
      (s : Repositories) (h : String)
      → (commit P id expected changes m s).0 ≡ ok h
      → IsCommitted id expected changes m s h (commit P id expected changes m s).1
  unfolding commit
  commit-IsCommitted id expected changes m s h e = elim (Option-cases (Dict.get s id)) [
    | inl absent ↦ absurd (ground arith)
    | inr (r, at) ↦ elim (Result-cases (check_changes changes r.files)) [
      | inl (error, refused) ↦ absurd (ground arith)
      | inr (_, passed) ↦ record {
        before = r;
        at_id = at;
        current = ground (arith, eq_iff r.head expected);
        allowed = check_changes-AreAllowed changes r.files passed;
        unaudited = ground arith;
        answer = ground arith;
        after = ground (arith, eq_refl id, get-set s id id (committed P changes m r));
        others = λ other ne. ground (arith, get-set s id other (committed P changes m r));
      }
    ]
  ]

  -- A refused commit changes nothing.
  pub commit_atomic :
      (id expected : String) (changes : List RepositoryChange) (m : CommitMetadata)
      (s : Repositories) (error : RepositoryError)
      → (commit P id expected changes m s).0 ≡ err error
      → (commit P id expected changes m s).1 ≡ s
  unfolding commit
  commit_atomic id expected changes m s error e = elim (Option-cases (Dict.get s id)) [
    | inl absent ↦ ground arith
    | inr (r, at) ↦ elim (Result-cases (check_changes changes r.files)) [
      | inl (refusal, refused) ↦ ground arith
      | inr (_, passed) ↦ ground arith
    ]
  ]

  stale :
      (id expected : String) (changes : List RepositoryChange) (m : CommitMetadata)
      (t : Repositories) (r : MemoryRepository)
      → Dict.get t id ≡ some r
      → r.head ≢ expected
      → commit P id expected changes m t ≡ (err revision_conflict, t)
  unfolding commit
  stale id expected changes m t r at differs = ground (arith, eq_iff r.head expected)

  -- No update is lost: of two commits in a row that were prepared on the same head, the second is
  -- refused with a conflict and changes nothing. The new head must differ from the old one.
  pub commit_conflict :
      (id expected : String) (changes : List RepositoryChange) (m : CommitMetadata)
      (s : Repositories) (h : String)
      → (commit P id expected changes m s).0 ≡ ok h
      → h ≢ expected
      → (changes' : List RepositoryChange) (m' : CommitMetadata)
      → commit P id expected changes' m' (commit P id expected changes m s).1
        ≡ (err revision_conflict, (commit P id expected changes m s).1)
  commit_conflict id expected changes m s h e ne changes' m' =
      let d = commit-IsCommitted id expected changes m s h e in
      stale id expected changes' m' (commit P id expected changes m s).1
        (committed P changes m d.before) d.after (λ same. ne (d.answer ∙ same))

  get-write_changes :
      (cs : List RepositoryChange) (files : Dict String) (path : String)
      → All (λ c. (c.path == path) ≡ false) cs
      → Dict.get (write_changes cs files) path ≡ Dict.get files path
  unfolding write_changes
  get-write_changes [] files path h = refl
  get-write_changes (c ∷ cs) files path (ne, h) = ground (
    arith,
    get-write_changes cs (Dict.set files c.path c.content) path h,
    get-set files c.path path c.content,
  )

  -- An append-only change is not to a file that is there.
  new_paths :
      (cs : List RepositoryChange) (files : Dict String) (path : String)
      → AreAllowed cs files
      → All (λ c. c.append_only ≡ true) cs
      → has files path ≡ true
      → All (λ c. (c.path == path) ≡ false) cs
  new_paths [] files path allowed appends there = tt
  new_paths (c ∷ cs) files path ((valid, fresh), allowed) (append, appends) there = (
    ground (arith, fresh append, eq_iff c.path path),
    new_paths cs files path allowed appends there,
  )

  -- History stays: a commit of append-only changes leaves the contents of every file as it was.
  pub read-commit :
      (id expected : String) (changes : List RepositoryChange) (m : CommitMetadata)
      (s : Repositories) (h : String)
      → (commit P id expected changes m s).0 ≡ ok h
      → All (λ c. c.append_only ≡ true) changes
      → (path content : String) → read id path s ≡ ok (some content)
      → read id path (commit P id expected changes m s).1 ≡ ok (some content)
  unfolding read committed
  read-commit id expected changes m s h e appends path content readable =
      let d = commit-IsCommitted id expected changes m s h e in
      let found : Dict.get d.before.files path ≡ some content = ground (arith, d.at_id) in
      let ne = new_paths changes d.before.files path d.allowed appends (ground (arith, found)) in
      let event = audit_event P d.before.head changes m in
      ground (
        arith,
        d.at_id,
        d.after,
        d.unaudited,
        eq_iff (audit_path m) path,
        get-write_changes changes d.before.files path ne,
        get-set (write_changes changes d.before.files) (audit_path m) path event,
      )

  find-append :
      (request_id : String) (cs : List Commit) (c : Commit)
      → find (λ x. x.metadata.request_id == request_id) cs ≡ none
      → (c.metadata.request_id == request_id) ≡ true
      → find (λ x. x.metadata.request_id == request_id) (cs ++ c ∷ []) ≡ some c
  unfolding find
  find-append request_id [] c absent same = ground (arith, same)
  find-append request_id (x ∷ cs) c absent same = ground (arith, find-append request_id cs c)

  -- A commit is found again by its request: if no commit had the request's identifier, the head
  -- that is found for it is the answer of the commit.
  pub find_commit_by_request_id-commit :
      (id expected : String) (changes : List RepositoryChange) (m : CommitMetadata)
      (s : Repositories) (h : String)
      → (commit P id expected changes m s).0 ≡ ok h
      → find_commit_by_request_id id m.request_id s ≡ ok none
      → find_commit_by_request_id id m.request_id (commit P id expected changes m s).1 ≡ ok (some h)
  unfolding find_commit_by_request_id committed
  find_commit_by_request_id-commit id expected changes m s h e absent =
      let d = commit-IsCommitted id expected changes m s h e in
      let none_yet : find (λ x. x.metadata.request_id == m.request_id) d.before.commits ≡ none =
        ground (arith, d.at_id) in
      let c : Commit = record {
        head = h;
        metadata = m;
        paths = map (λ x. x.path) changes ++ audit_path m ∷ [];
      } in
      ground (
        arith,
        d.after,
        d.answer,
        find-append m.request_id d.before.commits c none_yet (eq_refl m.request_id),
      )

  -- A request is committed once: the next commit for the same request and time of occurrence, on
  -- whatever head and with whatever changes, is not accepted.
  pub commit_request_once :
      (id expected : String) (changes : List RepositoryChange) (m : CommitMetadata)
      (s : Repositories) (h : String)
      → (commit P id expected changes m s).0 ≡ ok h
      → (expected' : String) (changes' : List RepositoryChange) (m' : CommitMetadata) (h' : String)
      → m'.request_id ≡ m.request_id
      → m'.occurred_at ≡ m.occurred_at
      → (commit P id expected' changes' m' (commit P id expected changes m s).1).0 ≢ ok h'
  unfolding committed audit_path
  commit_request_once id expected changes m s h e expected' changes' m' h' request year again =
      let t = (commit P id expected changes m s).1 in
      let d = commit-IsCommitted id expected changes m s h e in
      let d' = commit-IsCommitted id expected' changes' m' t h' again in
      ground (
        arith,
        d.after,
        d'.at_id,
        d'.unaudited,
        eq_refl (audit_path m),
        request,
        year,
        get-set (write_changes changes d.before.files) (audit_path m) (audit_path m)
            (audit_event P d.before.head changes m),
      )

-- ===== src/Account/Service.antt =====
-- account/service.ts: `AccountService`, but for `summary`.
use Prim.Native.String
use fullwell.Prelude.{
  ℕ, ◌+◌, String, Bool, true, false, not, ◌&&◌, ◌||◌, none, some, List, [], ◌∷◌, ◌==◌,
  if◌then◌else◌, is_none, leb, filter, length, map,
}
use fullwell.Prelude.Exec.{Result, ok, err, Exec, ◌>>=◌, ◌>>◌, pure, gets, modify, require, some_or}
use fullwell.Prelude.Text.{has_length}
use fullwell.OAuth.Store.{OAuthStore, revoke_grant_for_user, revoke_user_access}
use fullwell.Auth.Types.{
  AuthUser, ExternalIdentityProvider, MethodRemovalResult, removed, is_opaque_id,
}
use fullwell.Auth.Store.{
  AuthStore, get_user_by_id, update_user_display_name, remove_identity_method, delete_user,
}
use fullwell.Auth.Types
use fullwell.Household.Types.{Instant, AppError, MembershipRecord, HouseholdRecord}
use fullwell.Household.Store.{
  OperationalStore, is_owner, all_memberships, get_household, get_membership,
  list_household_memberships, upsert_membership, update_household_head, LeaveResult, left,
  leave_membership,
}
use fullwell.Repository.Memory.{Repositories, RepositoryError, RepositoryPlatform, commit}
use fullwell.Repository.Memory

-- The codes of the `AppError`s that are thrown, a `ZodError`, and what the stores throw.
pub data AccountError : Type 0 where
  auth_required not_found validation_failed reconciliation_required schema_violated : AccountError
  by_repository : RepositoryError → AccountError
  by_store : AppError → AccountError

-- What `leaveHousehold` writes to.
pub record Home : Type 0 where
  pub operational : OperationalStore
  pub repositories : Repositories
  -- The readings of the clock and the draws of random identifiers so far.
  pub reads : ℕ
  pub draws : ℕ

pub record World : Type 0 where
  pub auth : AuthStore
  pub oauth : OAuthStore
  pub home : Home

pub record Platform : Type 0 where
  -- clock.now()
  pub now_at : ℕ → Instant
  -- random.opaqueId("req")
  pub request_id_at : ℕ → String
  -- date.toISOString()
  pub iso : Instant → String
  -- text.trim()
  pub trim : String → String
  -- [...households].sort((left, right) => left.id.localeCompare(right.id))
  pub sort_ids : List String → List String
  pub repository : RepositoryPlatform

abbrev pub HomeAction : Type 0 → Type 0
HomeAction A = Exec AccountError Home A

abbrev pub Action : Type 0 → Type 0
Action A = Exec AccountError World A

abbrev pub on_home : {A : Type 0} → HomeAction A → Action A
on_home m w = let (r, h) = m w.home in (r, record w { home = h })

abbrev pub on_operational : {A : Type 0} → Exec AppError OperationalStore A → HomeAction A
on_operational m h =
    let (r, s) = m h.operational in
    (elim r [ ok a ↦ ok a | err e ↦ err (by_store e) ], record h { operational = s })

abbrev pub on_repositories : {A : Type 0} → Exec RepositoryError Repositories A → HomeAction A
on_repositories m h =
    let (r, s) = m h.repositories in
    (elim r [ ok a ↦ ok a | err e ↦ err (by_repository e) ], record h { repositories = s })

-- The households of active memberships of the user, each with the membership.
unfoldable pub with_households :
    String → List MembershipRecord → OperationalStore → List (HouseholdRecord × MembershipRecord)
with_households user_id [] s = []
with_households user_id (m ∷ ms) s =
    let rest = with_households user_id ms s in
    if m.user_id == user_id && is_none m.removed_at
    then elim (get_household m.household_id s) [ none ↦ rest | some h ↦ (h, m) ∷ rest ]
    else rest

-- store.listMemberships(userId)
unfoldable pub list_memberships :
    String → OperationalStore → List (HouseholdRecord × MembershipRecord)
unfolding with_households
list_memberships user_id s = with_households user_id (all_memberships s) s

-- The only owner of those who are members.
unfoldable pub is_sole_owner : MembershipRecord → List MembershipRecord → Bool
is_sole_owner m members = is_owner m.role && leb (length (filter (λ x. is_owner x.role) members)) 1

-- markdownDocument({ actor_id, former_member: true, removed_at, schema_version: 1 }, "")
unfoldable pub former_member_document : Platform → String → Instant → String
former_member_document P actor_id removed_at = String.◌++◌ "---\nactor_id: " (
    String.◌++◌ (P.repository.json actor_id) (
      String.◌++◌ "\nformer_member: true\nremoved_at: "
        (String.◌++◌ (P.repository.json (P.iso removed_at)) "\nschema_version: 1\n---\n\n")))

-- The loop over those who were members.
unfoldable pub update_members :
    String → String → Instant → List MembershipRecord → OperationalStore → OperationalStore
update_members user_id head removed_at [] s = s
update_members user_id head removed_at (m ∷ ms) s = update_members user_id head removed_at ms (
    upsert_membership
      (if m.user_id == user_id
        then record m { projection_head = head; removed_at = some removed_at }
        else record m { projection_head = head })
      s)

module _ (P : Platform) where
  unfoldable pub read_clock : HomeAction Instant
  read_clock h = (ok (P.now_at h.reads), record h { reads = h.reads + 1 })

  unfoldable pub draw_request_id : HomeAction String
  draw_request_id h = (
    if is_opaque_id "req_" (P.request_id_at h.draws)
        then ok (P.request_id_at h.draws)
        else err schema_violated,
    record h { draws = h.draws + 1 },
  )

  -- The commit that makes the user a former member.
  unfoldable pub commit_leave : AuthUser → String → MembershipRecord → Instant → HomeAction String
  unfolding draw_request_id former_member_document
  commit_leave user household_id m removed_at = do
    expected ← on_repositories (λ s. (Memory.head household_id s, s))
    request_id ← draw_request_id
    on_repositories (
        commit P.repository household_id expected
          ((record {
            path = String.◌++◌ "members/" (String.◌++◌ m.actor_id ".md");
            content = former_member_document P m.actor_id removed_at;
            append_only = false;
          })
            ∷ [])
          (record {
            request_id = request_id;
            household_id = household_id;
            actor_id = user.actor_id;
            tool = "hfj_remove_member";
            client = "web";
            summary = "members: leave household";
            occurred_at = P.iso removed_at;
          }))

  abbrev pub is_left : LeaveResult → Bool
  is_left left = true
  is_left _ = false

  -- What runs under the lock of the household.
  unfoldable pub leave_as : AuthUser → String → String → HomeAction (Unit {0})
  unfolding is_sole_owner read_clock commit_leave update_members
  leave_as user user_id household_id = do
    h ← gets (λ h. h)
    m ← some_or (get_membership household_id user_id h.operational) not_found
    require (not (is_sole_owner m (list_household_memberships household_id h.operational)))
        validation_failed
    removed_at ← read_clock
    head ← commit_leave user household_id m removed_at
    result ←
        on_operational
          (λ s. let (r, s') = leave_membership user_id household_id removed_at s in (ok r, s'))
    require (is_left result) reconciliation_required
    modify (λ h'. record h' {
      operational =
          update_members user_id head removed_at
            (list_household_memberships household_id h.operational) h'.operational;
    })
    on_operational (update_household_head household_id head)

  unfoldable pub leave_household : String → String → Action (Unit {0})
  unfolding leave_as
  leave_household user_id household_id w = elim (get_user_by_id user_id w.auth) [
    | none ↦ (err auth_required, w)
    | some user ↦ on_home (leave_as user user_id household_id) w
  ]

  unfoldable pub leave_all : String → List String → Action (Unit {0})
  unfolding leave_household
  leave_all user_id [] = pure tt
  leave_all user_id (id ∷ ids) = leave_household user_id id >> leave_all user_id ids

  -- The loop that refuses to leave a household without an owner.
  unfoldable pub owns_alone : OperationalStore → List (HouseholdRecord × MembershipRecord) → Bool
  unfolding is_sole_owner
  owns_alone s [] = false
  owns_alone s ((h, m) ∷ ms) =
      is_sole_owner m (list_household_memberships h.id s) || owns_alone s ms

  unfoldable pub delete_account : String → Action (Unit {0})
  unfolding list_memberships owns_alone leave_all read_clock
  delete_account user_id = do
    w ← gets (λ w. w)
    some_or (get_user_by_id user_id w.auth) auth_required
    require (not (owns_alone w.home.operational (list_memberships user_id w.home.operational)))
        validation_failed
    leave_all user_id (P.sort_ids (map (λ x. x.0.id) (list_memberships user_id w.home.operational)))
    deleted_at ← on_home read_clock
    modify (λ w. record w { oauth = revoke_user_access user_id deleted_at w.oauth })
    deleted ←
        (λ w. let (b, s) = delete_user user_id deleted_at w.auth in (ok b, record w { auth = s }))
    require deleted auth_required

  unfoldable pub rename : String → String → Action AuthUser
  unfolding has_length read_clock
  rename user_id display_name = do
    require (has_length 1 120 (P.trim display_name)) schema_violated
    now ← on_home read_clock
    user ← (λ w.
        let (u, s) = update_user_display_name user_id (P.trim display_name) w.auth in
        (ok u, record w { auth = s }))
    some_or user auth_required

  abbrev pub removal_of : MethodRemovalResult → Result AccountError (Unit {0})
  removal_of removed = ok tt
  removal_of Types.not_found = err AccountError.not_found
  removal_of Types.last_method = err validation_failed

  unfoldable pub remove_method : String → ExternalIdentityProvider → Action (Unit {0})
  remove_method user_id provider w =
      let (r, s) = remove_identity_method user_id provider w.auth in
      (removal_of r, record w { auth = s })

  unfoldable pub revoke_grant : String → String → Action (Unit {0})
  unfolding read_clock
  revoke_grant user_id grant_id = do
    now ← on_home read_clock
    revoked ← (λ w.
        let (b, s) = revoke_grant_for_user user_id grant_id now w.oauth in
        (ok b, record w { oauth = s }))
    require revoked AccountError.not_found

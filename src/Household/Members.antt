-- ===== src/Household/Members.antt =====
-- Members, onboarding and downloads: what the operations promise (adapters/memory.ts and domain).
use fullwell.Prelude.{
  ◌+◌, ◌≤◌, String, ◌≡◌, Bool, true, false, Option, none, some, List, [], ◌∷◌, map, arith, eq_iff,
  eq_refl, if◌then◌else◌, filter, find, length, Option-cases, inl, inr,
}
use fullwell.Prelude.Exec.{ok}
use fullwell.Dict
use fullwell.Dict.Laws.{get-set}
use fullwell.Household.Types.{
  Instant, Role, HouseholdRecord, MembershipRecord, OnboardingRecord, ExportDownloadRecord,
  Principal,
}
use fullwell.Household.Store.{
  MembershipEntry, OperationalStore, is_membership, put_membership, stored_membership,
  get_membership, get_household, is_active_owner, active_owner_count, left, leave_membership,
  same_onboarding, revision_of, put_by, compare_and_set_onboarding, claim_export_download,
}
use fullwell.Household.Onboarding.{
  TransitionInput, act, transition_onboarding, SkipInput, next_onboarding_skip,
}
use fullwell.Household.Authorization.{rank, is_ready, require_membership}

-- The write of a membership that is no active owner's takes one active owner at most, and only if
-- the membership was one.
count-put_membership :
    (p : MembershipRecord → Bool) (household_id user_id : String) (m' : MembershipRecord)
    (es : List MembershipEntry) (e : MembershipEntry)
    → find (is_membership household_id user_id) es ≡ some e
    → p m' ≡ false
    → length (filter p (map (λ x. x.membership) es))
      ≡ length (filter p (map (λ x. x.membership) (put_membership household_id user_id m' es)))
        + (if p e.membership then 1 else 0)
unfolding find filter put_membership
count-put_membership p household_id user_id m' [] e found out = absurd (ground arith)
count-put_membership p household_id user_id m' (x ∷ es) e found out =
    ground (arith, count-put_membership p household_id user_id m' es e)

-- A household keeps an owner: if it has an active owner and a member leaves, it has one still.
pub leave_membership_lem :
    (user_id household_id : String) (now : Instant) (s : OperationalStore)
    → (leave_membership user_id household_id now s).0 ≡ left
    → 1 ≤ active_owner_count household_id s
    → 1 ≤ active_owner_count household_id (leave_membership user_id household_id now s).1
unfolding leave_membership stored_membership active_owner_count
leave_membership_lem user_id household_id now s h owned =
    elim (Option-cases (find (is_membership household_id user_id) s.memberships)) [
      | inl absent ↦ absurd (ground arith)
      | inr (e, found) ↦ ground (
        arith,
        count-put_membership (is_active_owner household_id) household_id user_id
            (record e.membership { removed_at = some now }) s.memberships e found,
      )
    ]

get_membership_active :
    (household_id user_id : String) (s : OperationalStore) (m : MembershipRecord)
    → get_membership household_id user_id s ≡ some m
    → m.removed_at ≡ none
unfolding get_membership
get_membership_active household_id user_id s m h =
    elim (Option-cases (stored_membership household_id user_id s)) [
      | inl absent ↦ absurd (ground arith)
      | inr (n, at) ↦ ground arith
    ]

-- What a check of membership found.
pub record IsAuthorized (p : Principal) (household_id : String) (minimum : Role)
    (s : OperationalStore) (m : MembershipRecord) : Type 0 where
  pub member : get_membership household_id p.user_id s ≡ some m
  pub active : m.removed_at ≡ none
  pub allowed : rank minimum ≤ rank m.role
  pub household : HouseholdRecord
  pub found : get_household household_id s ≡ some household
  pub usable : is_ready household.provisioning_state ≡ true
  pub synchronized : m.projection_head ≡ household.repository_head

-- A principal passes the check only as an active member with the required role or a higher one, of
-- a household that is ready and whose repository is where the membership was projected.
pub require_membership-IsAuthorized :
    (p : Principal) (household_id : String) (minimum : Role) (s : OperationalStore)
    (m : MembershipRecord)
    → require_membership p household_id minimum s ≡ ok m
    → IsAuthorized p household_id minimum s m
unfolding require_membership get_membership get_household
require_membership-IsAuthorized p household_id minimum s m e =
    elim (Option-cases (get_membership household_id p.user_id s)) [
      | inl absent ↦ absurd (ground arith)
      | inr (n, at) ↦ elim (Option-cases (get_household household_id s)) [
        | inl unknown ↦ absurd (ground arith)
        | inr (h, there) ↦ record {
          member = ground arith;
          active = get_membership_active household_id p.user_id s m (ground arith);
          allowed = ground arith;
          household = h;
          found = there;
          usable = ground arith;
          synchronized = ground (arith, eq_iff n.projection_head h.repository_head);
        }
      ]
    ]

-- A download is claimed once: the next claim after a successful one gets nothing and changes
-- nothing, whoever makes it and whenever.
pub claim_export_download_once :
    (hash user_id : String) (now : Instant) (s : OperationalStore) (r : ExportDownloadRecord)
    → (claim_export_download hash user_id now s).0 ≡ some r
    → (user_id' : String) (now' : Instant)
    → claim_export_download hash user_id' now' (claim_export_download hash user_id now s).1
      ≡ (none, (claim_export_download hash user_id now s).1)
unfolding claim_export_download
claim_export_download_once hash user_id now s r h user_id' now' =
    elim (Option-cases (Dict.get s.export_downloads hash)) [
      | inl absent ↦ absurd (ground arith)
      | inr (d, at) ↦ ground (
        arith,
        eq_refl hash,
        get-set s.export_downloads hash hash (record d { downloaded_at = some now }),
      )
    ]

same_onboarding_refl : (r : OnboardingRecord) → same_onboarding r r ≡ true
same_onboarding_refl r = ground (arith, eq_refl r.user_id, eq_refl r.household_id)

find-put_by :
    (r : OnboardingRecord) (rs : List OnboardingRecord)
    → find (same_onboarding r) (put_by same_onboarding r rs) ≡ some r
unfolding find put_by
find-put_by r [] = ground (arith, same_onboarding_refl r)
find-put_by r (x ∷ rs) = ground (arith, same_onboarding_refl r, find-put_by r rs)

transition_onboarding_lem :
    (current : Option OnboardingRecord) (i : TransitionInput) (r : OnboardingRecord)
    → transition_onboarding current i ≡ ok r
    → (revision_of current ≡ i.expected_revision) × (r.revision ≡ i.expected_revision + 1)
unfolding transition_onboarding act
transition_onboarding_lem current i r h = (ground arith, ground arith)

-- A step of onboarding that is taken on the stored record is stored: the new record has the next
-- revision, the store accepts it for the expected revision, and it is what is found after it.
pub compare_and_set_onboarding-transition_onboarding :
    (i : TransitionInput) (s : OperationalStore) (current : Option OnboardingRecord)
    (r : OnboardingRecord)
    → transition_onboarding current i ≡ ok r
    → find (same_onboarding r) s.onboarding ≡ current
    → ((compare_and_set_onboarding r i.expected_revision s).0 ≡ true)
      × (r.revision ≡ revision_of current + 1)
      × (find (same_onboarding r) (compare_and_set_onboarding r i.expected_revision s).1.onboarding
          ≡ some r)
unfolding compare_and_set_onboarding
compare_and_set_onboarding-transition_onboarding i s current r h stored =
    let (expected, next) = transition_onboarding_lem current i r h in
    (ground (arith, stored), ground arith, ground (arith, stored, find-put_by r s.onboarding))

-- A skip may be sent again: after the record of a skip, the same request asks for no change.
pub next_onboarding_skip_once :
    (current : Option OnboardingRecord) (i : SkipInput) (r : OnboardingRecord)
    → next_onboarding_skip current i ≡ ok (some r)
    → next_onboarding_skip (some r) i ≡ ok none
unfolding next_onboarding_skip transition_onboarding act
next_onboarding_skip_once current i r h = ground arith

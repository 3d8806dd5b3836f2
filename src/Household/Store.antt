-- ===== src/Household/Store.antt =====
-- adapters/memory.ts: the part of `MemoryOperationalStore` on households, memberships, default
-- households, onboarding and export downloads. The keys of memberships and of onboarding records
-- are identifiers joined by a NUL, which no identifier has, so a key is kept as the identifiers.
-- Those of an onboarding record are its own fields.
use fullwell.Prelude.{
  ℕ, ◌+◌, String, Bool, true, false, not, ◌&&◌, ◌||◌, Option, none, some, List, [], ◌∷◌, map, ◌==◌,
  if◌then◌else◌, is_none, is_text, leb, nat_eq, filter, find, length,
}
use fullwell.Prelude.Exec.{ok, err, Exec}
use fullwell.Dict
use fullwell.Dict.{Dict, values}
use fullwell.Household.Types.{
  Instant, Role, owner, HouseholdRecord, MembershipRecord, OnboardingSection, snacks, recipes,
  OnboardingRecord, ExportDownloadRecord, AppError, validation_failed, not_found,
}

-- An entry of the map `memberships`.
pub record MembershipEntry : Type 0 where
  pub household_key : String
  pub user_key : String
  pub membership : MembershipRecord

pub record OperationalStore : Type 0 where
  pub households : Dict HouseholdRecord
  pub memberships : List MembershipEntry
  pub default_households : Dict String
  pub onboarding : List OnboardingRecord
  pub export_downloads : Dict ExportDownloadRecord

-- A write of a record under the key that its fields make.
unfoldable pub put_by {ℓ} : {A : Type ℓ} → (A → A → Bool) → A → List A → List A
put_by same x [] = x ∷ []
put_by same x (y ∷ ys) = let rest = put_by same x ys in if same x y then x ∷ ys else y ∷ rest

abbrev pub is_membership : String → String → MembershipEntry → Bool
is_membership household_id user_id e = e.household_key == household_id && e.user_key == user_id

-- memberships.set(membershipKey(household_id, user_id), m)
unfoldable pub put_membership :
    String → String → MembershipRecord → List MembershipEntry → List MembershipEntry
put_membership household_id user_id m [] =
    (record { household_key = household_id; user_key = user_id; membership = m }) ∷ []
put_membership household_id user_id m (e ∷ es) =
    let rest = put_membership household_id user_id m es in
    if is_membership household_id user_id e then (record e { membership = m }) ∷ es else e ∷ rest

-- [...memberships.values()]
abbrev pub all_memberships : OperationalStore → List MembershipRecord
all_memberships s = map (λ e. e.membership) s.memberships

abbrev pub is_owner : Role → Bool
is_owner owner = true
is_owner _ = false

unfoldable pub create_household :
    HouseholdRecord → MembershipRecord → Exec AppError OperationalStore (Unit {0})
unfolding put_membership
create_household r m s =
    if not (is_none (Dict.get s.households r.id)) then (err validation_failed, s) else (
      ok tt,
      record s {
        households = Dict.set s.households r.id r;
        memberships = put_membership r.id m.user_id m s.memberships;
      },
    )

unfoldable pub get_household : String → OperationalStore → Option HouseholdRecord
get_household id s = Dict.get s.households id

unfoldable pub update_household_name : String → String → Exec AppError OperationalStore (Unit {0})
update_household_name id name s = elim (Dict.get s.households id) [
  | none ↦ (err not_found, s)
  | some h ↦ (ok tt, record s { households = Dict.set s.households id (record h { name = name }) })
]

unfoldable pub update_household_head : String → String → Exec AppError OperationalStore (Unit {0})
update_household_head id head s = elim (Dict.get s.households id) [
  | none ↦ (err not_found, s)
  | some h ↦ (
    ok tt,
    record s { households = Dict.set s.households id (record h { repository_head = head }) },
  )
]

-- memberships.get(key)
unfoldable pub stored_membership : String → String → OperationalStore → Option MembershipRecord
stored_membership household_id user_id s =
    elim (find (is_membership household_id user_id) s.memberships) [
      | none ↦ none
      | some e ↦ some e.membership
    ]

unfoldable pub get_membership : String → String → OperationalStore → Option MembershipRecord
unfolding stored_membership
get_membership household_id user_id s = elim (stored_membership household_id user_id s) [
  | none ↦ none
  | some m ↦ if is_none m.removed_at then some m else none
]

abbrev pub is_active_in : String → MembershipRecord → Bool
is_active_in household_id m = m.household_id == household_id && is_none m.removed_at

unfoldable pub list_household_memberships : String → OperationalStore → List MembershipRecord
list_household_memberships household_id s = filter (is_active_in household_id) (all_memberships s)

unfoldable pub upsert_membership : MembershipRecord → OperationalStore → OperationalStore
unfolding put_membership
upsert_membership m s = record s {
  memberships = put_membership m.household_id m.user_id m s.memberships;
}

abbrev pub is_active_owner : String → MembershipRecord → Bool
is_active_owner household_id m =
    m.household_id == household_id && is_none m.removed_at && is_owner m.role

unfoldable pub active_owner_count : String → OperationalStore → ℕ
active_owner_count household_id s =
    length (filter (is_active_owner household_id) (all_memberships s))

pub data LeaveResult : Type 0 where
  left not_a_member sole_owner : LeaveResult

unfoldable pub leave_membership :
    String → String → Instant → OperationalStore → LeaveResult × OperationalStore
unfolding stored_membership active_owner_count put_membership
leave_membership user_id household_id now s = elim (stored_membership household_id user_id s) [
  | none ↦ (not_a_member, s)
  | some m ↦
      if not (is_none m.removed_at)
      then (not_a_member, s)
      else if is_owner m.role && leb (active_owner_count household_id s) 1
      then (sole_owner, s)
      else (
        left,
        record s {
          memberships =
              put_membership household_id user_id (record m { removed_at = some now })
                s.memberships;
          default_households =
              if is_text (Dict.get s.default_households user_id) household_id
              then Dict.delete s.default_households user_id
              else s.default_households;
        },
      )
]

unfoldable pub set_default_household : String → String → OperationalStore → OperationalStore
set_default_household user_id household_id s = record s {
  default_households = Dict.set s.default_households user_id household_id;
}

unfoldable pub get_default_household : String → OperationalStore → Option String
get_default_household user_id s = Dict.get s.default_households user_id

abbrev pub same_section : OnboardingSection → OnboardingSection → Bool
same_section snacks snacks = true
same_section recipes recipes = true
same_section _ _ = false

abbrev pub same_onboarding : OnboardingRecord → OnboardingRecord → Bool
same_onboarding new r =
    r.user_id == new.user_id
    && r.household_id == new.household_id
    && same_section r.section new.section

abbrev pub revision_of : Option OnboardingRecord → ℕ
revision_of none = 0
revision_of (some r) = r.revision

unfoldable pub compare_and_set_onboarding :
    OnboardingRecord → ℕ → OperationalStore → Bool × OperationalStore
unfolding put_by
compare_and_set_onboarding r expected s =
    if not (nat_eq (revision_of (find (same_onboarding r) s.onboarding)) expected)
      || not (nat_eq r.revision (expected + 1))
    then (false, s)
    else (true, record s { onboarding = put_by same_onboarding r s.onboarding })

unfoldable pub save_export_download : ExportDownloadRecord → OperationalStore → OperationalStore
save_export_download r s = record s {
  export_downloads = Dict.set s.export_downloads r.token_hash r;
}

abbrev pub is_claimable : ExportDownloadRecord → String → Instant → Bool
is_claimable r user_id now =
    r.requested_by == user_id && is_none r.downloaded_at && not (leb r.expires_at now)

unfoldable pub get_active_export_download :
    String → String → Instant → OperationalStore → Option ExportDownloadRecord
get_active_export_download hash user_id now s = elim (Dict.get s.export_downloads hash) [
  | none ↦ none
  | some r ↦ if is_claimable r user_id now then some r else none
]

unfoldable pub claim_export_download :
    String → String → Instant → OperationalStore → Option ExportDownloadRecord × OperationalStore
claim_export_download hash user_id now s = elim (Dict.get s.export_downloads hash) [
  | none ↦ (none, s)
  | some r ↦
      if is_claimable r user_id now
      then (let r' : ExportDownloadRecord = record r { downloaded_at = some now } in
          (some r', record s { export_downloads = Dict.set s.export_downloads hash r' }))
      else (none, s)
]

unfoldable pub list_reclaimable_export_downloads :
    Instant → OperationalStore → List ExportDownloadRecord
list_reclaimable_export_downloads now s =
    filter (λ r. not (is_none r.downloaded_at) || leb r.expires_at now) (values s.export_downloads)

unfoldable pub delete_export_download : String → OperationalStore → OperationalStore
delete_export_download id s = record s {
  export_downloads = Dict.delete_where (λ r. r.id == id) s.export_downloads;
}

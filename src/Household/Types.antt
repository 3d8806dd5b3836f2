-- ===== src/Household/Types.antt =====
-- Records of core/types.ts, and the enumerations of packages/contracts that they use. Instants are
-- milliseconds.
use fullwell.Prelude.{ℕ, String, Option, List}
use fullwell.OAuth.Types.{OAuthScope}

abbrev pub Instant : Type 0
Instant = ℕ

pub data Role : Type 0 where
  viewer editor owner : Role

pub data ProvisioningState : Type 0 where
  ready failed quarantined : ProvisioningState

pub record Principal : Type 0 where
  pub user_id : String
  pub actor_id : String
  pub display_name : String
  pub scopes : List OAuthScope
  pub client : String

pub record HouseholdRecord : Type 0 where
  pub id : String
  pub name : String
  pub repository_head : String
  pub provisioning_state : ProvisioningState
  pub created_at : Instant

pub record MembershipRecord : Type 0 where
  pub household_id : String
  pub user_id : String
  pub actor_id : String
  pub role : Role
  pub projection_head : String
  pub removed_at : Option Instant

pub data OnboardingSection : Type 0 where
  snacks recipes : OnboardingSection

pub data OnboardingSkipReason : Type 0 where
  not_now no_sources user_declined : OnboardingSkipReason

-- The schema gives a skip reason to a skipped record and to no other.
pub data OnboardingProgress : Type 0 where
  in_progress : OnboardingProgress
  skipped : OnboardingSkipReason → OnboardingProgress

pub record OnboardingRecord : Type 0 where
  pub user_id : String
  pub household_id : String
  pub section : OnboardingSection
  pub progress : OnboardingProgress
  pub revision : ℕ
  pub updated_at : Instant

pub record ExportDownloadRecord : Type 0 where
  pub id : String
  pub household_id : String
  pub requested_by : String
  pub format : String
  pub token_hash : String
  pub object_path : String
  pub content_hash : String
  pub repository_head : String
  pub expires_at : Instant
  pub downloaded_at : Option Instant
  pub created_at : Instant

-- The codes of the errors that are thrown here.
pub data AppError : Type 0 where
  validation_failed not_found forbidden revision_conflict projection_drift : AppError
  internal_error reconciliation_required : AppError

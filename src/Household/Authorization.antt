-- ===== src/Household/Authorization.antt =====
-- domain/authorization.ts: what a principal may do.
use fullwell.Prelude.{ℕ, String, Bool, true, false, not, none, some, ◌==◌, if◌then◌else◌, ltb, any}
use fullwell.Prelude.Exec.{Result, ok, err}
use fullwell.OAuth.Types.{OAuthScope}
use fullwell.OAuth.Scopes.{scope_name}
use fullwell.Household.Types.{
  Role, viewer, editor, owner, ProvisioningState, ready, Principal, MembershipRecord, AppError,
  forbidden, projection_drift,
}
use fullwell.Household.Store.{OperationalStore, get_membership, get_household}

abbrev pub rank : Role → ℕ
rank viewer = 0
rank editor = 1
rank owner = 2

abbrev pub is_ready : ProvisioningState → Bool
is_ready ready = true
is_ready _ = false

-- principal.scopes.has(scope)
unfoldable pub has_scope : Principal → OAuthScope → Bool
has_scope p scope = any (λ s. scope_name s == scope_name scope) p.scopes

unfoldable pub require_scope : Principal → OAuthScope → Result AppError (Unit {0})
unfolding has_scope
require_scope p scope = if not (has_scope p scope) then err forbidden else ok tt

unfoldable pub require_membership :
    Principal → String → Role → OperationalStore → Result AppError MembershipRecord
unfolding get_membership get_household
require_membership p household_id minimum s = elim (get_membership household_id p.user_id s) [
  | none ↦ err forbidden
  | some m ↦
      if ltb (rank m.role) (rank minimum)
      then err forbidden
      else elim (get_household household_id s) [
        | none ↦ err projection_drift
        | some h ↦
            if not (is_ready h.provisioning_state)
            then err projection_drift
            else if not (m.projection_head == h.repository_head)
            then err projection_drift
            else ok m
      ]
]

-- ===== src/Messaging/Service/Devices.antt =====
-- messaging/service.ts: the runner's devices.
use fullwell.Prelude.{String, Bool, ◌&&◌, ◌||◌, Option, none, some, ◌==◌}
use fullwell.Prelude.Text.{has_length}
use fullwell.Auth.Types.{is_opaque_id}
use fullwell.Household.Types.{Principal}
use fullwell.Messaging.Types.{Instant, ProviderIdentityLinkRecord}
use fullwell.Messaging.Store.{
  save_device, revoke_device, revoke_provider_link, find_active_link_for_user,
}
use fullwell.Messaging.Service.World.{
  channel_disabled, forbidden, not_found, MessagingServiceOptions, Platform, Action, ◌>>=◌, ◌>>◌,
  pure, guard, on_store, try_store, ask_store, parse, read_clock, draw_id, require_pre_cutoff,
  require_runner_scopes, require_membership, require_device,
}

-- RunnerDeviceRegistrationSchema
pub record RunnerDeviceRegistration : Type 0 where
  pub household_id : String
  pub name : String

pub record RunnerDeviceRegistrationResult : Type 0 where
  pub device_id : String
  pub created_at : Instant

-- An active link of the device and the household.
abbrev pub is_link_of : String → String → Option ProviderIdentityLinkRecord → Bool
is_link_of device_id household_id none = Bool.false
is_link_of device_id household_id (some l) =
    l.runner_device_id == device_id && l.household_id == household_id

module _ (P : Platform) (o : MessagingServiceOptions) where
  unfoldable pub is_registration : RunnerDeviceRegistration → Bool
  unfolding is_opaque_id has_length
  is_registration i = is_opaque_id "hsh_" i.household_id && has_length 1 80 (P.trim i.name)

  unfoldable pub register_device :
      Principal → RunnerDeviceRegistration → Action RunnerDeviceRegistrationResult
  unfolding require_runner_scopes is_registration require_membership read_clock draw_id
  register_device p i = do
    guard o.linking_enabled channel_disabled
    require_runner_scopes p
    parse (is_registration i)
    require_membership p i.household_id
    now ← read_clock P
    id ← draw_id P "dev" "dev_"
    try_store (
        save_device (record {
          id = id;
          user_id = p.user_id;
          household_id = i.household_id;
          name = P.trim i.name;
          last_seen_at = none;
          revoked_at = none;
          created_at = now;
          updated_at = now;
        }))
    pure (record { device_id = id; created_at = now })

  unfoldable pub revoke : Principal → String → Action (Unit {0})
  unfolding is_opaque_id read_clock
  revoke p device_id = do
    parse (is_opaque_id "dev_" device_id)
    now ← read_clock P
    device_revoked ← on_store (revoke_device p.user_id device_id now)
    link_revoked ← on_store (revoke_provider_link p.user_id now)
    guard (device_revoked || link_revoked) not_found

  unfoldable pub revoke_runner : Principal → String → Action (Unit {0})
  unfolding require_runner_scopes revoke
  revoke_runner p device_id = do require_runner_scopes p; revoke p device_id

  unfoldable pub authorize_runner : Principal → String → String → Action (Unit {0})
  unfolding require_pre_cutoff require_runner_scopes is_opaque_id require_device require_membership
  authorize_runner p device_id household_id = do
    require_pre_cutoff P o
    require_runner_scopes p
    parse (is_opaque_id "dev_" device_id)
    parse (is_opaque_id "hsh_" household_id)
    device ← require_device p device_id
    guard (device.household_id == household_id) forbidden
    require_membership p household_id
    link ← ask_store (find_active_link_for_user p.user_id)
    guard (is_link_of device_id household_id link) forbidden

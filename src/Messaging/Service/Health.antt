-- ===== src/Messaging/Service/Health.antt =====
-- messaging/service.ts: the status of an account, the operator's health, receipts and cleanup.
use fullwell.Prelude.{
  ℕ, ◌+◌, ◌-◌, ◌*◌, String, Bool, ◌&&◌, ◌||◌, Option, none, some, ◌==◌, if◌then◌else◌, is_none, leb,
  ltb, nat_eq,
}
use Prim.Native.Nat.{◌/◌}
use mathlib.Core.Option
use fullwell.Auth.Types.{is_opaque_id}
use fullwell.Household.Types.{Principal}
use fullwell.Messaging.Types.{
  Instant, MessageDeliveryStatus, MessagingOperationalSnapshot, ProviderIdentityLinkRecord,
  RunnerDeviceRecord,
}
use fullwell.Messaging.Store.{get_device, find_current_link_for_user}
use fullwell.Messaging.Receipts.{update_delivery_status, operator_snapshot, delete_expired}
use fullwell.Messaging.Service.World.{
  World, forbidden, validation_failed, MessagingServiceOptions, Platform, Action, ◌>>=◌, ◌>>◌, pure,
  guard, require_some, ask, option_case, on_store, ask_store, parse, read_clock, is_pre_cutoff,
  require_membership, require_device,
}

-- What an account page shows of a device.
pub record StatusDevice : Type 0 where
  pub device_id : String
  pub household_id : String
  pub device_name : String

pub data MessagingAccountStatus : Type 0 where
  disabled not_configured : MessagingAccountStatus
  setup : StatusDevice → MessagingAccountStatus
  pending_confirmation expired : String → StatusDevice → Instant → MessagingAccountStatus
  linked : StatusDevice → Option Instant → MessagingAccountStatus

pub record Setup : Type 0 where
  pub device_id : Option String
  pub household_id : Option String

pub record ProviderDeliveryStatus : Type 0 where
  pub provider_delivery_id : String
  pub status : MessageDeliveryStatus
  pub occurred_at : String
  pub failure_code : Option String

pub record MessagingOperatorHealth : Type 0 where
  pub healthy : Bool
  pub channel_available : Bool
  pub snapshot : MessagingOperationalSnapshot
  pub oldest_open_age_seconds : Option ℕ

module _ (P : Platform) (o : MessagingServiceOptions) where
  abbrev pub status_device : ProviderIdentityLinkRecord → RunnerDeviceRecord → StatusDevice
  status_device l d = record {
    device_id = d.id;
    household_id = l.household_id;
    device_name = d.name;
  }

  -- The status of a current link, with its device.
  unfoldable pub link_status :
      ProviderIdentityLinkRecord → RunnerDeviceRecord → Action MessagingAccountStatus
  unfolding read_clock
  link_status l d =
      option_case l.confirmed_at
        (read_clock P >>= λ now. pure (
          if leb l.confirmation_expires_at now
          then expired l.id (status_device l d) l.confirmation_expires_at
          else pending_confirmation l.id (status_device l d) l.confirmation_expires_at))
        (λ confirmed_at. pure (linked (status_device l d) d.last_seen_at))

  unfoldable pub setup_status : Principal → String → String → Action MessagingAccountStatus
  unfolding is_opaque_id require_device require_membership
  setup_status p device_id household_id = do
    parse (is_opaque_id "dev_" device_id)
    parse (is_opaque_id "hsh_" household_id)
    device ← require_device p device_id
    require_membership p household_id
    guard (device.household_id == household_id) forbidden
    pure (
        setup (record {
          device_id = device_id;
          household_id = household_id;
          device_name = device.name;
        }))

  unfoldable pub unlinked_status : Principal → Setup → Action MessagingAccountStatus
  unfolding setup_status
  unlinked_status p i = option_case i.device_id (pure not_configured) (λ device_id.
      option_case i.household_id (pure not_configured)
        (λ household_id. setup_status p device_id household_id))

  -- The current link with its device, where the user is a member and the device is not revoked.
  unfoldable pub current :
      Principal → World → Option (ProviderIdentityLinkRecord × RunnerDeviceRecord)
  current p w = elim (find_current_link_for_user p.user_id w.store) [
    | none ↦ none
    | some l ↦
        if w.is_active_member p.user_id l.household_id
        then elim (get_device l.runner_device_id w.store) [
          | none ↦ none
          | some d ↦ if is_none d.revoked_at then some (l, d) else none
        ]
        else none
  ]

  unfoldable pub enabled_status : Principal → Setup → Action MessagingAccountStatus
  unfolding current link_status unlinked_status
  enabled_status p i = do
    found ← ask (current p)
    option_case found (unlinked_status p i) (λ x. link_status x.0 x.1)

  unfoldable pub account_status : Principal → Setup → Action MessagingAccountStatus
  unfolding read_clock is_pre_cutoff enabled_status
  account_status p i =
      if o.linking_enabled
      then (read_clock P >>= λ now.
          if is_pre_cutoff P o now then enabled_status p i else pure disabled)
      else pure disabled

  unfoldable pub cleanup : Action ℕ
  unfolding read_clock
  cleanup = do now ← read_clock P; on_store (delete_expired now)

  unfoldable pub operator_health : Action MessagingOperatorHealth
  unfolding read_clock is_pre_cutoff
  operator_health = do
    now ← read_clock P
    snapshot ← ask_store (operator_snapshot (now - 5 * 60000))
    pure (record {
      healthy = nat_eq snapshot.open_messages 0 || ltb 0 snapshot.online_runner_devices;
      channel_available = is_pre_cutoff P o now && o.intake_enabled;
      snapshot = snapshot;
      oldest_open_age_seconds =
          Option.map (λ at. (now - at) / 1000) snapshot.oldest_open_received_at;
    })

  -- Whether the delivery was known.
  unfoldable pub handle_delivery_status : ProviderDeliveryStatus → Action Bool
  unfolding read_clock
  handle_delivery_status i = do
    at ← require_some (P.parse_date i.occurred_at) validation_failed
    now ← read_clock P
    guard (leb at (now + 5 * 60000)) validation_failed
    on_store (update_delivery_status (P.hash i.provider_delivery_id) i.status at i.failure_code)

-- ===== src/Messaging/Store.antt =====
-- messaging/memory-store.ts: `MemoryMessageEnvelopeStore`, its devices, link challenges and
-- provider links. The maps hold copies that nobody else refers to, so an assignment to a field of
-- a stored object is a write of the changed record under its key.
use fullwell.Prelude.{
  String, Bool, true, false, not, ◌&&◌, ◌||◌, Option, none, some, ◌==◌, if◌then◌else◌, is_none,
  is_text, leb, any, find,
}
use fullwell.Prelude.Exec.{ok, err, Exec}
use fullwell.Dict
use fullwell.Dict.{Dict, values}
use fullwell.Messaging.Types.{
  Instant, RunnerDeviceRecord, ProviderLinkChallengeRecord, ProviderIdentityLinkRecord,
  MessageEnvelopeRecord, MessageDeliveryReceiptRecord,
}

pub record MessageStore : Type 0 where
  pub devices : Dict RunnerDeviceRecord
  pub challenges : Dict ProviderLinkChallengeRecord
  pub links : Dict ProviderIdentityLinkRecord
  pub envelopes : Dict MessageEnvelopeRecord
  pub provider_events : Dict String
  pub delivery_receipts : Dict MessageDeliveryReceiptRecord

-- The errors that the store throws, each a plain `Error` with its own message.
pub data StoreError : Type 0 where
  active_runner_exists active_link_exists missing_envelope : StoreError

abbrev pub Method : Type 0 → Type 0
Method A = Exec StoreError MessageStore A

-- An unrevoked device of the same user and household.
abbrev pub is_rival : RunnerDeviceRecord → RunnerDeviceRecord → Bool
is_rival device current =
    current.user_id == device.user_id
    && current.household_id == device.household_id
    && is_none current.revoked_at

unfoldable pub save_device : RunnerDeviceRecord → Method (Unit {0})
save_device device s =
    if any (is_rival device) (values s.devices)
    then (err active_runner_exists, s)
    else (ok tt, record s { devices = Dict.set s.devices device.id device })

unfoldable pub get_device : String → MessageStore → Option RunnerDeviceRecord
get_device device_id s = Dict.get s.devices device_id

unfoldable pub revoke_device : String → String → Instant → MessageStore → Bool × MessageStore
revoke_device user_id device_id now s = elim (Dict.get s.devices device_id) [
  | none ↦ (false, s)
  | some d ↦ if not (d.user_id == user_id) || not (is_none d.revoked_at) then (false, s) else (
    true,
    record s {
      devices = Dict.set s.devices device_id (record d { revoked_at = some now; updated_at = now });
    },
  )
]

unfoldable pub save_link_challenge : ProviderLinkChallengeRecord → MessageStore → MessageStore
save_link_challenge c s = record s { challenges = Dict.set s.challenges c.token_hash c }

unfoldable pub consume_link_challenge :
    String → Instant → MessageStore → Option ProviderLinkChallengeRecord × MessageStore
consume_link_challenge hash now s = elim (Dict.get s.challenges hash) [
  | none ↦ (none, s)
  | some c ↦
      if not (is_none c.consumed_at) || leb c.expires_at now
      then (none, s)
      else (let c' : ProviderLinkChallengeRecord = record c { consumed_at = some now } in
          (some c', record s { challenges = Dict.set s.challenges hash c' }))
]

-- An unrevoked link of the same identity or the same user.
abbrev pub is_taken : ProviderIdentityLinkRecord → ProviderIdentityLinkRecord → Bool
is_taken link current =
    is_none current.revoked_at
    && (current.provider_identity_hash == link.provider_identity_hash
        || current.user_id == link.user_id)

unfoldable pub create_provider_link : ProviderIdentityLinkRecord → Method (Unit {0})
create_provider_link link s =
    if any (is_taken link) (values s.links)
    then (err active_link_exists, s)
    else (ok tt, record s { links = Dict.set s.links link.id link })

-- A confirmed link that is not revoked.
abbrev pub is_active : ProviderIdentityLinkRecord → Bool
is_active link = not (is_none link.confirmed_at) && is_none link.revoked_at

unfoldable pub find_active_link_by_identity_hash :
    String → MessageStore → Option ProviderIdentityLinkRecord
find_active_link_by_identity_hash hash s =
    find (λ l. l.provider_identity_hash == hash && is_active l) (values s.links)

unfoldable pub find_active_link_for_user : String → MessageStore → Option ProviderIdentityLinkRecord
find_active_link_for_user user_id s =
    find (λ l. l.user_id == user_id && is_active l) (values s.links)

unfoldable pub find_current_link_for_user :
    String → MessageStore → Option ProviderIdentityLinkRecord
find_current_link_for_user user_id s =
    find (λ l. l.user_id == user_id && is_none l.revoked_at) (values s.links)

unfoldable pub get_provider_link : String → MessageStore → Option ProviderIdentityLinkRecord
get_provider_link link_id s = Dict.get s.links link_id

unfoldable pub confirm_provider_link :
    String
    → String
    → String
    → Instant
    → MessageStore
    → Option ProviderIdentityLinkRecord × MessageStore
confirm_provider_link user_id link_id browser_binding_hash now s = elim (Dict.get s.links link_id) [
  | none ↦ (none, s)
  | some l ↦
      if not (l.user_id == user_id)
        || not (is_none l.revoked_at)
        || not (is_none l.confirmed_at)
        || not (is_text l.browser_binding_hash browser_binding_hash)
        || leb l.confirmation_expires_at now
      then (none, s)
      else (let l' : ProviderIdentityLinkRecord = record l {
        browser_binding_hash = none;
        confirmed_at = some now;
        updated_at = now;
      } in
          (some l', record s { links = Dict.set s.links link_id l' }))
]

unfoldable pub revoke_provider_link : String → Instant → MessageStore → Bool × MessageStore
revoke_provider_link user_id now s =
    elim (find (λ l. l.user_id == user_id && is_none l.revoked_at) (values s.links)) [
      | none ↦ (false, s)
      | some l ↦ (
        true,
        record s {
          links = Dict.set s.links l.id (record l { revoked_at = some now; updated_at = now });
        },
      )
    ]

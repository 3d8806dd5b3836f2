-- ===== src/Messaging/Service/Finds.antt =====
-- What the store's calls look up before they change anything (messaging/memory-store.ts), as the
-- service meets it: nothing found and nothing changed, or the conditions of the change.
use fullwell.Prelude.{
  String, true, false, not, ◌||◌, Option, some, none, ◌≡◌, ◌∙◌, arith, ◌<◌, ◌⊎◌, inl, inr, eq_iff,
  Option-cases, Bool-cases, is_none, is_text, ◌==◌, leb,
}
use fullwell.Dict
use fullwell.Household.Types.{Principal}
use fullwell.Messaging.Types.{
  Instant, MessageEnvelopeRecord, RunnerDeviceRecord, ProviderIdentityLinkRecord,
}
use fullwell.Messaging.Store.{
  MessageStore, revoke_device, revoke_provider_link, confirm_provider_link,
  find_current_link_for_user,
}
use fullwell.Messaging.Delivery.{Completion, valid_lease, complete_lease}
use fullwell.Messaging.Delivery
use fullwell.Household.Types.{Principal}
use fullwell.Messaging.Service.World.{World, Action, ◌>>=◌, on_store}
use fullwell.Messaging.Service.Guards.{Guarded, entitled, refused, is_err, IsOwned}

-- The envelope is leased to the device, with this lease, and the lease has not lapsed.
abbrev pub HoldsLease : String → String → String → Instant → MessageStore → Type 0
HoldsLease envelope_id device_id lease_id now s =
    (e : MessageEnvelopeRecord) × (Dict.get s.envelopes envelope_id ≡ some e)
    × (valid_lease e device_id lease_id now ≡ true)

-- A call of the store that finds nothing and changes nothing, or finds that `Q` holds.
unfoldable pub Finds :
    {A : Type 0} → Type 0 → (MessageStore → Option A × MessageStore) → MessageStore → Type 0
Finds Q f s = (((f s).0 ≡ none) × ((f s).1 ≡ s)) ⊎ Q

pub heartbeat-Finds :
    (envelope_id device_id lease_id : String) (now until : Instant) (s : MessageStore)
    → Finds
        (HoldsLease envelope_id device_id lease_id now s)
        (Delivery.heartbeat envelope_id device_id lease_id now until)
        s
unfolding Finds Delivery.heartbeat
heartbeat-Finds envelope_id device_id lease_id now until s =
    elim (Option-cases (Dict.get s.envelopes envelope_id)) [
      | inl absent ↦ inl (ground arith, ground arith)
      | inr (e, found) ↦ elim (Bool-cases (valid_lease e device_id lease_id now)) [
        | inl valid ↦ inr (e, found, valid)
        | inr lapsed ↦ inl (ground arith, ground arith)
      ]
    ]

pub complete_lease-Finds :
    (i : Completion) (s : MessageStore)
    → Finds (HoldsLease i.envelope_id i.device_id i.lease_id i.now s) (complete_lease i) s
unfolding Finds complete_lease
complete_lease-Finds i s = elim (Option-cases (Dict.get s.envelopes i.envelope_id)) [
  | inl absent ↦ inl (ground arith, ground arith)
  | inr (e, found) ↦ elim (Bool-cases (valid_lease e i.device_id i.lease_id i.now)) [
    | inl valid ↦ inr (e, found, valid)
    | inr lapsed ↦ inl (ground arith, ground arith)
  ]
]

-- The link waits for its confirmation by this user, in the browser that asked for it.
pub record IsPending (user_id link_id binding : String) (now : Instant) (s : MessageStore)
    (l : ProviderIdentityLinkRecord) : Type 0 where
  pub stored : Dict.get s.links link_id ≡ some l
  pub user : l.user_id ≡ user_id
  pub unrevoked : l.revoked_at ≡ none
  pub unconfirmed : l.confirmed_at ≡ none
  pub browser : is_text l.browser_binding_hash binding ≡ true
  pub waiting : now < l.confirmation_expires_at

pub confirm-Finds :
    (user_id link_id binding : String) (now : Instant) (s : MessageStore)
    → Finds
        ((l : ProviderIdentityLinkRecord) × IsPending user_id link_id binding now s l)
        (confirm_provider_link user_id link_id binding now)
        s
unfolding Finds confirm_provider_link
confirm-Finds user_id link_id binding now s = elim (Option-cases (Dict.get s.links link_id)) [
  | inl absent ↦ inl (ground arith, ground arith)
  | inr (l, found) ↦
      elim (Bool-cases (
        not (l.user_id == user_id)
        || not (is_none l.revoked_at)
        || not (is_none l.confirmed_at)
        || not (is_text l.browser_binding_hash binding)
        || leb l.confirmation_expires_at now)) [
          | inl differs ↦ inl (ground arith, ground arith)
          | inr agrees ↦ inr (
            l,
            record {
              stored = found;
              user = ground (arith, eq_iff l.user_id user_id);
              unrevoked = ground arith;
              unconfirmed = ground arith;
              browser = ground arith;
              waiting = ground arith;
            },
          )
        ]
]

-- A call of the store, and a refusal if it finds nothing.
pub from_store :
    {A B : Type 0} {Q : Type 0} (f : MessageStore → Option A × MessageStore)
    (g : Option A → Action B) (w : World)
    → Finds Q f w.store
    → ((v : World) → (is_err (g none v).0 ≡ true) × ((g none v).1.store ≡ v.store))
    → Guarded Q (on_store f >>= g) w
unfolding Finds on_store ◌>>=◌
from_store f g w (inr q) none_refused = entitled q
from_store f g w (inl (nothing, same)) none_refused =
    let v : World = record w { store = (f w.store).1 } in
    refused (rw nothing ((none_refused v).0)) (rw nothing ((none_refused v).1 ∙ same))

pub revoke_device-cases :
    (p : Principal) (device_id : String) (now : Instant) (s : MessageStore)
    → (revoke_device p.user_id device_id now s ≡ (false, s))
      ⊎ ((d : RunnerDeviceRecord) × IsOwned p device_id d s)
unfolding revoke_device
revoke_device-cases p device_id now s = elim (Option-cases (Dict.get s.devices device_id)) [
  | inl absent ↦ inl (ground arith)
  | inr (d, found) ↦
      elim (Bool-cases (not (d.user_id == p.user_id) || not (is_none d.revoked_at))) [
        | inl differs ↦ inl (ground arith)
        | inr agrees ↦ inr (
          d,
          record {
            stored = found;
            owner = ground (arith, eq_iff d.user_id p.user_id);
            unrevoked = ground arith;
          },
        )
      ]
]

pub revoke_provider_link-cases :
    (user_id : String) (now : Instant) (s : MessageStore)
    → (revoke_provider_link user_id now s ≡ (false, s))
      ⊎ ((l : ProviderIdentityLinkRecord) × (find_current_link_for_user user_id s ≡ some l))
unfolding revoke_provider_link find_current_link_for_user
revoke_provider_link-cases user_id now s =
    elim (Option-cases (find_current_link_for_user user_id s)) [
      | inl absent ↦ inl (ground arith)
      | inr (l, found) ↦ inr (l, found)
    ]

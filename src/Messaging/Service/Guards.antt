-- ===== src/Messaging/Service/Guards.antt =====
-- messaging/service.ts: what the guards of a principal's requests let through. A request is either
-- entitled, or it is refused with an error and changes nothing in the store.
use fullwell.Prelude.{
  ◌+◌, String, Bool, true, false, some, none, ◌≡◌, refl, ◌∙◌, ap, arith, ◌<◌, inl, inr, eq_iff,
  Option-cases,
}
use fullwell.Prelude.Exec.{Result, ok, err, Result-cases}
use fullwell.Dict
use fullwell.OAuth.Types.{runner_messages, journal_read}
use fullwell.Household.Types.{Principal}
use fullwell.Household.Authorization.{has_scope}
use fullwell.Messaging.Types.{RunnerDeviceRecord}
use fullwell.Messaging.Store.{MessageStore, get_device}
use fullwell.Messaging.Service.World.{
  World, ServiceError, Platform, MessagingServiceOptions, Action, ◌>>=◌, guard, read_clock,
  require_pre_cutoff, is_pre_cutoff, require_runner_scopes, require_membership, require_device,
}

abbrev pub is_err : {A : Type 0} → Result ServiceError A → Bool
is_err (ok a) = false
is_err (err e) = true

-- Either `Q` holds, or the action throws and leaves the store as it is.
pub data Guarded {A : Type 0} (Q : Type 0) (m : Action A) (w : World) : Type 0 where
  entitled : Q → Guarded Q m w
  refused : is_err (m w).0 ≡ true → (m w).1.store ≡ w.store → Guarded Q m w

pub map-Guarded :
    {A : Type 0} {Q R : Type 0} {m : Action A} {w : World} → (Q → R) → Guarded Q m w → Guarded R m w
map-Guarded f (entitled q) = entitled (f q)
map-Guarded f (refused e kept) = refused e kept

-- A step that leaves the store alone, before actions that are guarded.
pub through :
    {A B : Type 0} {Q : Type 0} (m : Action A) (f : A → Action B) (w : World)
    → (m w).1.store ≡ w.store
    → ((a : A) → (m w).0 ≡ ok a → Guarded Q (f a) (m w).1)
    → Guarded Q (m >>= f) w
unfolding ◌>>=◌
through m f w same rest = elim (Result-cases (m w).0) [
  | inl (e, thrown) ↦ refused (rw thrown refl) (rw thrown same)
  | inr (a, passed) ↦ elim (rest a passed) [
    | entitled q ↦ entitled q
    | refused e kept ↦ refused (rw passed e) (rw passed (kept ∙ same))
  ]
]

-- `if (!test) throw`
pub test :
    {B : Type 0} {Q : Type 0} (b : Bool) (e : ServiceError) (f : Unit {0} → Action B) (w : World)
    → (b ≡ true → Guarded Q (f tt) w)
    → Guarded Q (guard b e >>= f) w
unfolding guard
test b e f w rest = through (guard b e) f w refl (λ x passed. rest (ground arith))

pub last_test :
    {Q : Type 0} (b : Bool) (e : ServiceError) (w : World)
    → (b ≡ true → Q)
    → Guarded Q (guard b e) w
unfolding guard
last_test false e w rest = refused refl refl
last_test true e w rest = entitled (rest refl)

-- The scopes of a runner.
pub record IsRunner (p : Principal) : Type 0 where
  pub messages : has_scope p runner_messages ≡ true
  pub journal : has_scope p journal_read ≡ true

pub scopes :
    {B : Type 0} {Q : Type 0} (p : Principal) (f : Unit {0} → Action B) (w : World)
    → (IsRunner p → Guarded Q (f tt) w)
    → Guarded Q (require_runner_scopes p >>= f) w
unfolding require_runner_scopes
scopes p f w rest =
    test _ _ f w (λ h. rest (record { messages = ground arith; journal = ground arith }))

-- The principal's membership of the household.
abbrev pub IsMember : Principal → String → World → Type 0
IsMember p household_id w = w.is_active_member p.user_id household_id ≡ true

pub member :
    {B : Type 0} {Q : Type 0} (p : Principal) (household_id : String) (f : Unit {0} → Action B)
    (w : World)
    → (IsMember p household_id w → Guarded Q (f tt) w)
    → Guarded Q (require_membership p household_id >>= f) w
unfolding require_membership
member p household_id f w rest =
    through (require_membership p household_id) f w refl (λ x passed. rest (ground arith))

-- The device is stored, the principal's, and not revoked.
pub record IsOwned (p : Principal) (device_id : String) (d : RunnerDeviceRecord) (s : MessageStore)
    : Type 0 where
  pub stored : Dict.get s.devices device_id ≡ some d
  pub owner : d.user_id ≡ p.user_id
  pub unrevoked : d.revoked_at ≡ none

pub owned :
    {B : Type 0} {Q : Type 0} (p : Principal) (device_id : String)
    (f : RunnerDeviceRecord → Action B) (w : World)
    → ((d : RunnerDeviceRecord) → IsOwned p device_id d w.store → Guarded Q (f d) w)
    → Guarded Q (require_device p device_id >>= f) w
unfolding require_device get_device
owned p device_id f w rest = through (require_device p device_id) f w refl (λ d passed.
    elim (Option-cases (Dict.get w.store.devices device_id)) [
      | inl absent ↦ absurd (ground arith)
      | inr (t, found) ↦
          let same : t ≡ d = ground arith in
          rest d (record {
            stored = found ∙ ap some same;
            owner = ground (arith, eq_iff t.user_id p.user_id);
            unrevoked = ground arith;
          })
    ])

module _ (P : Platform) (o : MessagingServiceOptions) where
  -- The time at which the request is looked at is before the cutoff.
  abbrev pub IsEarly : World → Type 0
  IsEarly w = P.now_at w.reads w.slept < o.free_service_send_cutoff

  abbrev pub tick : World → World
  tick w = record w { reads = w.reads + 1 }

  pub early :
      {B : Type 0} {Q : Type 0} (f : Unit {0} → Action B) (w : World)
      → (IsEarly w → Guarded Q (f tt) (tick w))
      → Guarded Q (require_pre_cutoff P o >>= f) w
  unfolding require_pre_cutoff read_clock is_pre_cutoff ◌>>=◌ guard
  early f w rest = through (require_pre_cutoff P o) f w refl (λ x passed. rest (ground arith))

-- ===== src/Messaging/Service/World.antt =====
-- messaging/service.ts: what `MessagingService` acts on, and its guards. Telemetry is left out.
use fullwell.Prelude.{
  ℕ, ◌+◌, String, Bool, not, ◌&&◌, ◌||◌, Option, none, some, List, [], ◌∷◌, ◌++◌, ◌==◌,
  if◌then◌else◌, is_none, ltb, leb,
}
use fullwell.Prelude.Exec.{Result, ok, err, Exec, continue}
use fullwell.OAuth.Types.{runner_messages, journal_read}
use fullwell.Auth.Types.{is_opaque_id}
use fullwell.Household.Types.{Principal}
use fullwell.Household.Authorization.{has_scope}
use fullwell.Messaging.Types.{
  Instant, MessageQueueCapacity, RunnerDeviceRecord, ProviderIdentityLinkRecord,
}
use fullwell.Messaging.Store.{MessageStore, StoreError, get_device, get_provider_link, is_active}

-- What the provider is asked to send.
pub record ServiceText : Type 0 where
  pub destination : String
  pub text : String
  pub request_id : String

-- The codes of the `AppError`s, a `ZodError`, an `Error` of the store, and one of the cipher or
-- the provider.
pub data ServiceError : Type 0 where
  channel_disabled validation_failed forbidden lease_conflict not_found internal_error :
      ServiceError
  schema_violated : ServiceError
  by_store : StoreError → ServiceError
  by_cipher by_provider : ServiceError

-- With the constructor's defaults filled in.
pub record MessagingServiceOptions : Type 0 where
  pub free_service_send_cutoff : Instant
  pub lease_milliseconds : ℕ
  pub retention_milliseconds : ℕ
  -- Each is on unless it is set to `false`.
  pub intake_enabled : Bool
  pub linking_enabled : Bool
  pub runner_claims_enabled : Bool
  pub service_replies_enabled : Bool
  pub capacity : MessageQueueCapacity

-- new Date("2026-10-01T00:00:00-07:00")
abbrev pub maximum_free_service_send_cutoff : Instant
maximum_free_service_send_cutoff = 1790838000000

-- The checks of the constructor, which throws an `Error` where one fails.
unfoldable pub is_accepted : MessagingServiceOptions → Bool
is_accepted o =
    leb o.free_service_send_cutoff maximum_free_service_send_cutoff
    && not (ltb o.capacity.per_link 1 || ltb o.capacity.global o.capacity.per_link)

pub record Platform : Type 0 where
  -- The n-th reading of the clock, after so many milliseconds of `sleep`.
  pub now_at : ℕ → ℕ → Instant
  -- random.opaqueId(prefix) and random.token(32)
  pub opaque_id_at : ℕ → String → String
  pub token_at : ℕ → String
  -- hasher.hash(text)
  pub hash : String → String
  -- cipher.encrypt(text, associatedData), the n-th time, and cipher.decrypt(ciphertext,
  -- associatedData), which throws on what it did not encrypt
  pub encrypt_at : ℕ → String → String → String
  pub decrypt : String → String → Option String
  -- The provider's identifier of the delivery of a text after those that were sent before, or
  -- `none` where it throws.
  pub deliver : List ServiceText → ServiceText → Option String
  -- The contact URL with a text parameter.
  pub contact_url_with : String → String
  -- new Date(text), `none` where it is not a date. Dates before 1970 are left out.
  pub parse_date : String → Option Instant
  -- text.trim()
  pub trim : String → String

pub record World : Type 0 where
  pub store : MessageStore
  -- authorization.isActiveMember(userId, householdId)
  pub is_active_member : String → String → Bool
  -- The texts that the provider was asked to send.
  pub sent : List ServiceText
  -- The readings of the clock, the milliseconds of sleep, and the draws of random texts so far,
  -- the cipher's among them.
  pub reads : ℕ
  pub slept : ℕ
  pub draws : ℕ

abbrev pub Action : Type 0 → Type 0
Action A = Exec ServiceError World A

-- The parts of an action, by name: `Along` (Service/Along) looks at each of them.
module _ {A : Type 0} where
  unfoldable pub pure : A → Action A
  pure a w = (ok a, w)

  unfoldable pub throw : ServiceError → Action A
  throw e w = (err e, w)

infixl 10 ◌>>=◌ ◌>>◌
unfoldable pub ◌>>=◌ : {A B : Type 0} → Action A → (A → Action B) → Action B
◌>>=◌ m f w = continue (m w).0 f (m w).1

abbrev pub ◌>>◌ : {A B : Type 0} → Action A → Action B → Action B
m >> n = m >>= λ _. n

-- A call of the store that does not throw.
unfoldable pub on_store : {A : Type 0} → (MessageStore → A × MessageStore) → Action A
on_store f w = let (a, s) = f w.store in (ok a, record w { store = s })

-- A call of the store that may throw.
unfoldable pub try_store : {A : Type 0} → Exec StoreError MessageStore A → Action A
try_store m w =
    let (r, s) = m w.store in
    (elim r [ ok a ↦ ok a | err e ↦ err (by_store e) ], record w { store = s })

-- A query of the store.
unfoldable pub ask_store : {A : Type 0} → (MessageStore → A) → Action A
ask_store f w = (ok (f w.store), w)

-- Two ways on, for what is there and for what is not.
unfoldable pub option_case : {A B : Type 0} → Option A → Action B → (A → Action B) → Action B
option_case none absent present = absent
option_case (some a) absent present = present a

-- A query of the state.
unfoldable pub ask : {A : Type 0} → (World → A) → Action A
ask f w = (ok (f w), w)

-- A result without effects.
unfoldable pub of_result : {A : Type 0} → Result ServiceError A → Action A
of_result r w = (r, w)

-- `if (!test) throw e`
unfoldable pub guard : Bool → ServiceError → Action (Unit {0})
guard b e w = (if b then ok tt else err e, w)

-- `if (x === null) throw e`
unfoldable pub require_some : {A : Type 0} → Option A → ServiceError → Action A
require_some x e w = (elim x [ none ↦ err e | some a ↦ ok a ], w)

-- A schema's check.
abbrev pub parse : Bool → Action (Unit {0})
parse b = guard b schema_violated

module _ (P : Platform) where
  unfoldable pub read_clock : Action Instant
  read_clock w = (ok (P.now_at w.reads w.slept), record w { reads = w.reads + 1 })

  unfoldable pub sleep : ℕ → Action (Unit {0})
  sleep milliseconds w = (ok tt, record w { slept = w.slept + milliseconds })

  unfoldable pub draw : String → Action String
  draw prefix w = (ok (P.opaque_id_at w.draws prefix), record w { draws = w.draws + 1 })

  unfoldable pub draw_token : Action String
  draw_token w = (ok (P.token_at w.draws), record w { draws = w.draws + 1 })

  -- A schema's parse of a drawn identifier.
  unfoldable pub draw_id : String → String → Action String
  unfolding draw
  draw_id prefix start = do id ← draw prefix; parse (is_opaque_id start id); pure id

  unfoldable pub encrypt : String → String → Action String
  encrypt text associated_data w =
      (ok (P.encrypt_at w.draws text associated_data), record w { draws = w.draws + 1 })

  unfoldable pub decrypt : String → String → Action String
  decrypt ciphertext associated_data = require_some (P.decrypt ciphertext associated_data) by_cipher

  unfoldable pub send_service_text : ServiceText → Action String
  send_service_text text w = (
    elim (P.deliver w.sent text) [ none ↦ err by_provider | some id ↦ ok id ],
    record w { sent = w.sent ++ text ∷ [] },
  )

module _ (P : Platform) (o : MessagingServiceOptions) where
  unfoldable pub is_pre_cutoff : Instant → Bool
  is_pre_cutoff now = ltb now o.free_service_send_cutoff

  unfoldable pub require_pre_cutoff : Action (Unit {0})
  unfolding read_clock is_pre_cutoff
  require_pre_cutoff = do now ← read_clock P; guard (is_pre_cutoff now) channel_disabled

unfoldable pub require_runner_scopes : Principal → Action (Unit {0})
require_runner_scopes p = guard (has_scope p runner_messages && has_scope p journal_read) forbidden

unfoldable pub require_membership : Principal → String → Action (Unit {0})
require_membership p household_id w =
    (if w.is_active_member p.user_id household_id then ok tt else err forbidden, w)

-- The device, where it is the principal's and not revoked.
abbrev pub own_device :
    Principal → Option RunnerDeviceRecord → Result ServiceError RunnerDeviceRecord
own_device p none = err forbidden
own_device p (some d) =
    if d.user_id == p.user_id && is_none d.revoked_at then ok d else err forbidden

unfoldable pub require_device : Principal → String → Action RunnerDeviceRecord
require_device p device_id w = (own_device p (get_device device_id w.store), w)

abbrev pub active_link :
    Option ProviderIdentityLinkRecord → Result ServiceError ProviderIdentityLinkRecord
active_link none = err forbidden
active_link (some l) = if is_active l then ok l else err forbidden

unfoldable pub require_active_link : String → Action ProviderIdentityLinkRecord
require_active_link link_id w = (active_link (get_provider_link link_id w.store), w)

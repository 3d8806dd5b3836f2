-- ===== src/Messaging/Service/Along.antt =====
-- messaging/service.ts: what holds between the states before and after an action, when it holds
-- for each of the action's parts.
use fullwell.Prelude.{String, Bool, true, false, Option, none, some, if◌then◌else◌}
use fullwell.Prelude.Exec.{Result, ok, err, continue}
use fullwell.Household.Types.{Principal}
use fullwell.Messaging.Store.{MessageStore}
use fullwell.Messaging.Service.World.{
  World, Platform, ServiceError, Action, ◌>>=◌, pure, throw, ask_store, option_case, ask, of_result,
  guard, require_some, decrypt, require_runner_scopes, require_membership, require_device,
  require_active_link,
}

-- `R` holds between the state in which the action starts and the one in which it ends.
pub data Along {A : Type 0} (R : World → World → Type 0) (m : Action A) : Type 0 where
  along : ((w : World) → R w (m w).1) → Along R m

pub Along-R :
    {A : Type 0} {R : World → World → Type 0} {m : Action A} → Along R m → (w : World) → R w (m w).1
Along-R (along h) w = h w

-- A relation that each step may keep, and that adds up over steps.
pub record IsPreorder (R : World → World → Type 0) : Type 0 where
  pub same : (w : World) → R w w
  pub chain : (u v w : World) → R u v → R v w → R u w

module _ {R : World → World → Type 0} ⦃O : IsPreorder R⦄ where
  continue-Along :
      {A B : Type 0} (r : Result ServiceError A) (f : A → Action B) (u w : World)
      → R u w
      → ((a : A) → Along R (f a))
      → R u (continue r f w).1
  continue-Along (ok a) f u w h g = O.chain u w (f a w).1 h (Along-R (g a) w)
  continue-Along (err e) f u w h g = h

  pub >>=-Along :
      {A B : Type 0} {m : Action A} {f : A → Action B}
      → Along R m
      → ((a : A) → Along R (f a))
      → Along R (m >>= f)
  unfolding ◌>>=◌
  >>=-Along {m} {f} (along h) g = along (λ w. continue-Along (m w).0 f w (m w).1 (h w) g)

  -- What leaves the state alone.
  pub pure-Along : {A : Type 0} (a : A) → Along R (pure a)
  unfolding pure
  pure-Along a = along O.same

  pub throw-Along : {A : Type 0} (e : ServiceError) → Along R (throw {A = A} e)
  unfolding throw
  throw-Along e = along O.same

  pub ask-Along : {A : Type 0} (f : World → A) → Along R (ask f)
  unfolding ask
  ask-Along f = along O.same

  pub ask_store-Along : {A : Type 0} (f : MessageStore → A) → Along R (ask_store f)
  unfolding ask_store
  ask_store-Along f = along O.same

  pub of_result-Along : {A : Type 0} (r : Result ServiceError A) → Along R (of_result r)
  unfolding of_result
  of_result-Along r = along O.same

  pub guard-Along : (b : Bool) (e : ServiceError) → Along R (guard b e)
  unfolding guard
  guard-Along b e = along O.same

  pub require_some-Along :
      {A : Type 0} (x : Option A) (e : ServiceError) → Along R (require_some x e)
  unfolding require_some
  require_some-Along x e = along O.same

  pub if-Along :
      {A : Type 0} (b : Bool) {m n : Action A}
      → Along R m
      → Along R n
      → Along R (if b then m else n)
  if-Along true h g = h
  if-Along false h g = g

  pub option_case-Along :
      {A B : Type 0} (x : Option A) {absent : Action B} {present : A → Action B}
      → Along R absent
      → ((a : A) → Along R (present a))
      → Along R (option_case x absent present)
  unfolding option_case
  option_case-Along none h g = h
  option_case-Along (some a) h g = g a

  pub decrypt-Along :
      (P : Platform) (ciphertext place : String) → Along R (decrypt P ciphertext place)
  unfolding decrypt
  decrypt-Along P ciphertext place = require_some-Along _ _

  pub require_runner_scopes-Along : (p : Principal) → Along R (require_runner_scopes p)
  unfolding require_runner_scopes
  require_runner_scopes-Along p = guard-Along _ _

  pub require_membership-Along :
      (p : Principal) (household_id : String) → Along R (require_membership p household_id)
  unfolding require_membership
  require_membership-Along p household_id = along O.same

  pub require_device-Along :
      (p : Principal) (device_id : String) → Along R (require_device p device_id)
  unfolding require_device
  require_device-Along p device_id = along O.same

  pub require_active_link-Along : (link_id : String) → Along R (require_active_link link_id)
  unfolding require_active_link
  require_active_link-Along link_id = along O.same

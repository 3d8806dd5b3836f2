-- ===== src/Auth/Methods.antt =====
-- A user keeps a way to sign in (auth/memory-store.ts, `removeIdentityMethod` and
-- `revokePasskeyCredential`).
use fullwell.Prelude.{
  suc, ◌≤◌, String, ◌≡◌, ◌⊎◌, refl, ap, Bool, true, not, none, List, [], ◌∷◌, map, arith, ◌==◌,
  eq_iff, filter, any, All, length, Bool-cases, Option-cases, inl, inr,
}
use fullwell.Dict
use fullwell.Dict.{Dict, values}
use fullwell.Dict.Indexed.{IsIndexed}
use fullwell.Auth.Types.{ExternalIdentityProvider, removed, PasskeyCredential}
use fullwell.Auth.Store.{
  Identity, AuthStore, same_provider, is_of_user, is_method, unique, sign_in_method_count,
  remove_identity_method, revoke_passkey_credential,
}

same_provider_lem : (p q : ExternalIdentityProvider) → same_provider p q ≡ true → p ≡ q
same_provider_lem p q e = ground arith

same_provider_refl : (p : ExternalIdentityProvider) → same_provider p p ≡ true
same_provider_refl p = ground arith

-- Of one provider there is one method at most.
unique-le :
    (p : ExternalIdentityProvider) (ps : List ExternalIdentityProvider)
    → All (λ q. q ≡ p) ps
    → (unique ps ≡ []) ⊎ (unique ps ≡ p ∷ [])
unfolding unique any
unique-le p [] h = inl refl
unique-le p (q ∷ ps) (same, h) = elim (unique-le p ps h) [
  | inl empty ↦ inr (rw (empty, unique, same) refl)
  | inr one ↦ inr (rw (one, unique, same, same_provider_refl p) refl)
]

-- The providers of the identities of the user.
abbrev providers : String → List Identity → List ExternalIdentityProvider
providers user_id is = map (λ i. i.provider) (filter (is_of_user user_id) is)

-- If nothing of the user is left, all was by the one provider.
All-providers :
    (user_id : String) (p : ExternalIdentityProvider) (is : List Identity)
    → providers user_id (filter (λ i. not (is_method user_id p i)) is) ≡ []
    → All (λ q. q ≡ p) (providers user_id is)
unfolding filter
All-providers user_id p [] h = tt
All-providers user_id p (i ∷ is) h =
    ground (arith, same_provider_lem i.provider p, All-providers user_id p is)

any-length :
    (p : ExternalIdentityProvider → Bool) (ps : List ExternalIdentityProvider)
    → any p ps ≡ true
    → 1 ≤ length ps
unfolding any
any-length p [] h = ground arith
any-length p (q ∷ ps) h = omega arith

length-unique :
    (q : ExternalIdentityProvider) (ps : List ExternalIdentityProvider)
    → 1 ≤ length (unique (q ∷ ps))
unfolding unique
length-unique q ps = elim (Bool-cases (any (same_provider q) (unique ps))) [
  | inl known ↦ rw (known, unique) (any-length (same_provider q) (unique ps) known)
  | inr new ↦ rw (new, unique) (omega arith)
]

nonempty_or_empty : (ps : List ExternalIdentityProvider) → (1 ≤ length (unique ps)) ⊎ (ps ≡ [])
nonempty_or_empty [] = inr refl
nonempty_or_empty (q ∷ ps) = inl (length-unique q ps)

-- A user from whom a sign-in method was removed has another one: an identity by another provider
-- or a passkey.
pub remove_identity_method_lem :
    (user_id : String) (p : ExternalIdentityProvider) (s : AuthStore)
    → (remove_identity_method user_id p s).0 ≡ removed
    → 1 ≤ sign_in_method_count user_id (remove_identity_method user_id p s).1
unfolding remove_identity_method sign_in_method_count
remove_identity_method_lem user_id p s h =
    elim (nonempty_or_empty
      (providers user_id (filter (λ i. not (is_method user_id p i)) s.identities))) [
        | inl some_left ↦ ground (arith, some_left)
        | inr none_left ↦
            elim (unique-le p (providers user_id s.identities)
              (All-providers user_id p s.identities none_left)) [
                | inl empty ↦ ground (arith, ap length empty)
                | inr one ↦ ground (arith, ap length one)
              ]
      ]

delete_absent :
    (m : Dict PasskeyCredential) (k : String) → Dict.get m k ≡ none → Dict.delete m k ≡ m
unfolding Dict.get Dict.delete
delete_absent [] k h = refl
delete_absent ((j, c) ∷ m) k h = ground (arith, delete_absent m k)

-- A deletion takes one credential at most.
count-delete :
    (p : PasskeyCredential → Bool) (m : Dict PasskeyCredential) (k : String)
    → IsIndexed (λ c. c.credential_id) m
    → length (filter p (values m)) ≤ suc (length (filter p (values (Dict.delete m k))))
unfolding Dict.delete filter
count-delete p [] k h = omega arith
count-delete p ((j, c) ∷ m) k (same, absent, h) =
    ground (arith, eq_iff j k, delete_absent m j absent, count-delete p m k h)

-- A user whose passkey was revoked has another sign-in method, where the passkeys are stored
-- under their identifiers.
pub revoke_passkey_credential_lem :
    (id user_id : String) (s : AuthStore)
    → IsIndexed (λ c. c.credential_id) s.passkeys
    → (revoke_passkey_credential id user_id s).0 ≡ removed
    → 1 ≤ sign_in_method_count user_id (revoke_passkey_credential id user_id s).1
unfolding revoke_passkey_credential sign_in_method_count
revoke_passkey_credential_lem id user_id s indexed h =
    elim (Option-cases (Dict.get s.passkeys id)) [
      | inl absent ↦ absurd (ground arith)
      | inr (c, at) ↦ ground (arith, count-delete (λ c. c.user_id == user_id) s.passkeys id indexed)
    ]

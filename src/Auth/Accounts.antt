-- ===== src/Auth/Accounts.antt =====
-- Users, challenges and passkeys: what happens once, and what a deletion leaves
-- (auth/memory-store.ts).
use fullwell.Prelude.{
  ℕ, ◌≤◌, ◌<◌, String, ◌≡◌, Bool, true, false, not, Option, none, some, List, [], ◌∷◌, arith, ◌==◌,
  eq_iff, eq_refl, filter, All, All-map, Option-cases, inl, inr, filter_holds,
}
use fullwell.Prelude.Exec.{ok}
use fullwell.Dict
use fullwell.Dict.{Dict, values}
use fullwell.Dict.Laws.{get-set, get-delete}
use fullwell.Auth.Types.{
  Instant, AuthChallengeKind, AuthUser, AuthChallenge, WebSession, ExternalIdentityProvider,
  PasskeyCredential, linked,
}
use fullwell.Auth.Store.{
  Identity, AuthStore, is_of_user, find_identity, add_identity, Candidate, resolve_or_create_user,
  get_user_by_id, link_identity_method, consume_challenge, delete_user, get_session_by_token_hash,
  update_passkey_counter,
}

find_identity-add_identity :
    (p : ExternalIdentityProvider) (hash : String) (u : AuthUser) (is : List Identity)
    → find_identity p hash is ≡ none
    → find_identity p hash (add_identity p hash u is) ≡ some u
unfolding find_identity
find_identity-add_identity p hash u [] h = ground (arith, eq_refl hash)
find_identity-add_identity p hash u (i ∷ is) h =
    ground (arith, find_identity-add_identity p hash u is)

-- An identity belongs to one user: once a sign-in with it was resolved, the next one resolves to
-- the same user and changes nothing, whatever the candidate identifiers and the name are.
pub resolve_or_create_user_once :
    (i : Candidate) (s : AuthStore) (u : AuthUser)
    → (resolve_or_create_user i s).0 ≡ ok u
    → (j : Candidate) → j.provider ≡ i.provider
    → j.subject_hash ≡ i.subject_hash
    → resolve_or_create_user j (resolve_or_create_user i s).1
      ≡ (ok u, (resolve_or_create_user i s).1)
unfolding resolve_or_create_user
resolve_or_create_user_once i s u h j provider subject =
    elim (Option-cases (find_identity i.provider i.subject_hash s.identities)) [
      | inr (found, at) ↦ ground (arith, provider, subject)
      | inl new ↦ ground (
        arith,
        provider,
        subject,
        find_identity-add_identity i.provider i.subject_hash u s.identities new,
      )
    ]

-- The next sign-in with an identity that was linked to a stored user gives that user.
pub resolve_or_create_user-link_identity_method :
    (user_id : String) (p : ExternalIdentityProvider) (hash : String) (s : AuthStore) (u : AuthUser)
    → Dict.get s.users user_id ≡ some u
    → (link_identity_method user_id p hash s).0 ≡ linked
    → (j : Candidate) → j.provider ≡ p
    → j.subject_hash ≡ hash
    → (resolve_or_create_user j (link_identity_method user_id p hash s).1).0 ≡ ok u
unfolding resolve_or_create_user link_identity_method
resolve_or_create_user-link_identity_method user_id p hash s u at h j provider subject =
    elim (Option-cases (find_identity p hash s.identities)) [
      | inr (found, known) ↦ absurd (ground arith)
      | inl new ↦
          ground (arith, provider, subject, find_identity-add_identity p hash u s.identities new)
    ]

-- A challenge is consumed once: after it has been, the next request with its token does not get
-- it and changes nothing.
pub consume_challenge_once :
    (hash : String) (kind : AuthChallengeKind) (binding : Option String) (now : Instant)
    (s : AuthStore) (c : AuthChallenge)
    → (consume_challenge hash kind binding now s).0 ≡ some c
    → (kind' : AuthChallengeKind) (binding' : Option String) (now' : Instant)
    → consume_challenge hash kind' binding' now' (consume_challenge hash kind binding now s).1
      ≡ (none, (consume_challenge hash kind binding now s).1)
unfolding consume_challenge
consume_challenge_once hash kind binding now s c h kind' binding' now' =
    elim (Option-cases (Dict.get s.challenges hash)) [
      | inl absent ↦ absurd (ground arith)
      | inr (d, at) ↦ ground (
        arith,
        eq_refl hash,
        get-set s.challenges hash hash (record d { consumed_at = some now }),
      )
    ]

-- A passkey cannot be replayed: after a sign-in with a counter above zero, a next one with that
-- counter or a smaller one is refused and changes nothing, whatever counter it expects to find.
pub update_passkey_counter_once :
    (id : String) (expected new_counter : ℕ) (now : Instant) (s : AuthStore)
    → (update_passkey_counter id expected new_counter now s).0 ≡ true
    → 0 < new_counter
    → (expected' replayed : ℕ) (now' : Instant) → replayed ≤ new_counter
    → update_passkey_counter id expected' replayed now'
        (update_passkey_counter id expected new_counter now s).1
      ≡ (false, (update_passkey_counter id expected new_counter now s).1)
unfolding update_passkey_counter
update_passkey_counter_once id expected new_counter now s h above expected' replayed now' le =
    elim (Option-cases (Dict.get s.passkeys id)) [
      | inl absent ↦ absurd (ground arith)
      | inr (c, at) ↦ ground (
        arith,
        eq_refl id,
        get-set s.passkeys id id (record c { counter = new_counter; last_used_at = some now }),
      )
    ]

-- A session gives access to the user whom it names.
session_lem :
    (hash : String) (t : AuthStore) (w : WebSession) (u : AuthUser)
    → get_session_by_token_hash hash t ≡ some (w, u)
    → Dict.get t.users w.user_id ≡ some u
unfolding get_session_by_token_hash
session_lem hash t w u h = elim (Option-cases (Dict.get t.sessions hash)) [
  | inl absent ↦ absurd (ground arith)
  | inr (w', found) ↦ elim (Option-cases (Dict.get t.users w'.user_id)) [
    | inl unknown ↦ absurd (ground arith)
    | inr (u', known) ↦ ground arith
  ]
]

delete_where_holds :
    (drop : PasskeyCredential → Bool) (m : Dict PasskeyCredential)
    → All (λ c. drop c ≡ false) (values (Dict.delete_where drop m))
unfolding Dict.delete_where
delete_where_holds drop [] = tt
delete_where_holds drop ((k, c) ∷ m) = ground (arith, delete_where_holds drop m)

-- What is left after a user was deleted.
pub record IsDeleted (user_id : String) (now : Instant) (s t : AuthStore) : Type 0 where
  pub user : get_user_by_id user_id t ≡ none
  pub others :
      (other : String)
      → (user_id == other) ≡ false
      → get_user_by_id other t ≡ get_user_by_id other s
  pub signed_out :
      (hash : String) (w : WebSession) (u : AuthUser)
      → get_session_by_token_hash hash t ≡ some (w, u)
      → (w.user_id == user_id) ≡ false
  pub identities : All (λ i. is_of_user user_id i ≡ false) t.identities
  pub passkeys : All (λ c. (c.user_id == user_id) ≡ false) (values t.passkeys)

-- After a user was deleted, the user is unknown while the others are as they were, no session gives
-- the user access, and no identity or passkey is theirs.
pub delete_user_lem :
    (user_id : String) (now : Instant) (s : AuthStore)
    → (delete_user user_id now s).0 ≡ true
    → IsDeleted user_id now s (delete_user user_id now s).1
unfolding delete_user get_user_by_id get_session_by_token_hash
delete_user_lem user_id now s h = elim (Option-cases (Dict.get s.users user_id)) [
  | inl absent ↦ absurd (ground arith)
  | inr (u, at) ↦ record {
    user = ground (arith, eq_refl user_id, get-delete s.users user_id user_id);
    others = λ other ne. ground (arith, get-delete s.users user_id other);
    signed_out = λ hash w v access.
        let known = session_lem hash (delete_user user_id now s).1 w v access in
        ground (
          arith,
          known,
          get-delete s.users user_id w.user_id,
          eq_iff w.user_id user_id,
          eq_iff user_id w.user_id,
        );
    identities =
        rw (at, delete_user)
          (All-map _ _ (filter (λ i. not (is_of_user user_id i)) s.identities)
            (λ i kept. ground (arith, kept))
            (filter_holds (λ i. not (is_of_user user_id i)) s.identities));
    passkeys = rw (at, delete_user) (delete_where_holds (λ c. c.user_id == user_id) s.passkeys);
  }
]

-- ===== src/Account/Deletion.antt =====
-- account/service.ts: what is left of a user after `deleteAccount`.
use fullwell.Prelude.{
  String, ◌≡◌, ◌≢◌, refl, subst, ◌∙◌, List, [], ◌∷◌, some, arith, inl, inr, Option-cases,
  Bool-cases, map,
}
use fullwell.Prelude.Exec.{ok, Result-cases, ◌>>=◌, ◌>>◌, require, modify}
use fullwell.OAuth.Types.{OAuthAccessIdentity}
use fullwell.OAuth.Store.{resolve_access_token, revoke_user_access}
use fullwell.OAuth.Store.Keys.{AreKeyed}
use fullwell.OAuth.Store.Revocation.{resolve-revoke_user_access}
use fullwell.Auth.Store.{get_user_by_id, delete_user}
use fullwell.Auth.Accounts.{IsDeleted, delete_user_lem}
use fullwell.Household.Types.{Instant}
use fullwell.Account.Service.{
  World, Platform, auth_required, Action, on_home, read_clock, list_memberships, owns_alone,
  leave_household, leave_all, delete_account,
}

module _ (P : Platform) where
  leave_household-auth :
      (user_id id : String) (w : World)
      → ((leave_household P user_id id w).1.auth ≡ w.auth)
        × ((leave_household P user_id id w).1.oauth ≡ w.oauth)
  unfolding leave_household
  leave_household-auth user_id id w = elim (Option-cases (get_user_by_id user_id w.auth)) [
    | inl absent ↦ rw (absent, leave_household) (refl, refl)
    | inr (u, there) ↦ rw (there, leave_household) (refl, refl)
  ]

  leave_all-auth :
      (user_id : String) (ids : List String) (w : World)
      → ((leave_all P user_id ids w).1.auth ≡ w.auth)
        × ((leave_all P user_id ids w).1.oauth ≡ w.oauth)
  unfolding leave_all
  leave_all-auth user_id [] w = (refl, refl)
  leave_all-auth user_id (id ∷ ids) w =
      let (auth, oauth) = leave_household-auth user_id id w in
      elim (Result-cases (leave_household P user_id id w).0) [
        | inl (e, refused) ↦ rw refused (auth, oauth)
        | inr (_, passed) ↦
            let (auth', oauth') = leave_all-auth user_id ids (leave_household P user_id id w).1 in
            rw passed (auth' ∙ auth, oauth' ∙ oauth)
      ]

  -- The user is gone from sign-in, and no token gives access to the user any more.
  pub record IsGone (user_id : String) (s t : World) : Type 0 where
    pub deleted_at : Instant
    pub deleted : IsDeleted user_id deleted_at s.auth t.auth
    pub revoked :
        (hash : String) (now : Instant) (r : OAuthAccessIdentity)
        → resolve_access_token hash now t.oauth ≡ some r
        → r.user_id ≢ user_id

  -- The last steps of `deleteAccount`.
  erase : String → Action (Unit {0})
  erase user_id = do
    deleted_at ← on_home (read_clock P)
    modify (λ w. record w { oauth = revoke_user_access user_id deleted_at w.oauth })
    deleted ←
        (λ w. let (b, s) = delete_user user_id deleted_at w.auth in (ok b, record w { auth = s }))
    require deleted auth_required

  erase_lem :
      (user_id : String) (w : World)
      → AreKeyed w.oauth
      → (erase user_id w).0 ≡ ok tt
      → IsGone user_id w (erase user_id w).1
  unfolding erase read_clock
  erase_lem user_id w keyed h =
      elim (Bool-cases (delete_user user_id (P.now_at w.home.reads) w.auth).0) [
        | inr unknown ↦ absurd (ground (arith, unknown))
        | inl found ↦ rw found (record {
          deleted_at = P.now_at w.home.reads;
          deleted = delete_user_lem user_id (P.now_at w.home.reads) w.auth found;
          revoked = λ hash now r resolved.
              resolve-revoke_user_access user_id (P.now_at w.home.reads) now w.oauth hash r keyed
                resolved;
        })
      ]

  -- After an account was deleted, sign-in does not know the user, no session gives the user access
  -- and no identity or passkey is theirs, while the other users are as they were; and no OAuth
  -- token gives access to the user, at any time.
  -- Condition: the maps of the OAuth store are keyed by the identifiers of what they hold.
  pub delete_account-IsGone :
      (user_id : String) (w : World)
      → AreKeyed w.oauth
      → (delete_account P user_id w).0 ≡ ok tt
      → IsGone user_id w (delete_account P user_id w).1
  unfolding delete_account erase
  delete_account-IsGone user_id w keyed h =
      let s = w.home.operational in
      let ids = P.sort_ids (map (λ x. x.0.id) (list_memberships user_id s)) in
      let v = (leave_all P user_id ids w).1 in
      let (auth, oauth) = leave_all-auth user_id ids w in
      elim (Option-cases (get_user_by_id user_id w.auth)) [
        | inl absent ↦ absurd (ground (arith, absent))
        | inr (u, there) ↦ elim (Bool-cases (owns_alone P s (list_memberships user_id s))) [
          | inl alone ↦ absurd (ground (arith, there, alone))
          | inr free ↦ elim (Result-cases (leave_all P user_id ids w).0) [
            | inl (e, refused) ↦ absurd (ground (arith, there, free, refused))
            | inr (_, passed) ↦
                let gone = erase_lem user_id v (rw oauth keyed) (rw (there, free, passed) at h) in
                rw (there, free, passed)
                  (record {
                    deleted_at = gone.deleted_at;
                    deleted =
                        subst (λ a. IsDeleted user_id gone.deleted_at a (erase user_id v).1.auth)
                          auth gone.deleted;
                    revoked = gone.revoked;
                  })
          ]
        ]
      ]

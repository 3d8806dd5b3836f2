-- ===== src/OAuth/Store/Codes.antt =====
-- Authorization codes and refresh tokens are good for one use, whatever else the store is asked.
use fullwell.Prelude.{
  String, ◌≡◌, ◌≢◌, true, none, some, arith, eq_iff, eq_refl, Option-cases, inl, inr,
}
use fullwell.Dict
use fullwell.Dict.{Dict}
use fullwell.Dict.Laws.{get-set}
use fullwell.OAuth.Types.{Instant, OAuthTokenRecord, OAuthGrant}
use fullwell.OAuth.Store.{
  OAuthStore, CodeInput, is_consumable, consume_authorization_code, Rotation, rotate_refresh_token,
  is_refresh, rotated,
}
use fullwell.OAuth.Store.Steps.{Reach, is_spent, Reach-is_spent}

-- A spent token cannot be consumed.
spent-none :
    (i : CodeInput) (s : OAuthStore)
    → is_spent i.token_hash s ≡ true
    → (consume_authorization_code i s).0 ≡ none
unfolding consume_authorization_code is_consumable
spent-none i s h = ground arith

-- The store after the token `t` under the hash has been used.
abbrev pub with_used : String → OAuthTokenRecord → Instant → OAuthStore → OAuthStore
with_used hash t now s = record s {
  tokens = Dict.set s.tokens hash (record t { used_at = some now });
}

-- What a code that was consumed had to be, and what its consumption writes.
pub consume_lem :
    (i : CodeInput) (s : OAuthStore) (t : OAuthTokenRecord) (g : OAuthGrant)
    → (consume_authorization_code i s).0 ≡ some (t, g)
    → (Dict.get s.tokens i.token_hash ≡ some t)
      × (Dict.get s.grants t.grant_id ≡ some g)
      × (is_consumable i t g ≡ true)
      × ((consume_authorization_code i s).1 ≡ with_used i.token_hash t i.used_at s)
unfolding consume_authorization_code
consume_lem i s t g e = ground arith

used-is_spent :
    (hash : String) (t : OAuthTokenRecord) (now : Instant) (s : OAuthStore)
    → is_spent hash (with_used hash t now s) ≡ true
used-is_spent hash t now s =
    ground (arith, get-set s.tokens hash hash (record t { used_at = some now }), eq_refl hash)

-- A code that was consumed is spent.
pub consume_spends :
    (i : CodeInput) (s : OAuthStore) (t : OAuthTokenRecord) (g : OAuthGrant)
    → (consume_authorization_code i s).0 ≡ some (t, g)
    → is_spent i.token_hash (consume_authorization_code i s).1 ≡ true
consume_spends i s t g e = rw ((consume_lem i s t g e).3) (used-is_spent i.token_hash t i.used_at s)

-- A spent token cannot be rotated.
spent-ne-rotated :
    (i : Rotation) (s : OAuthStore)
    → is_spent i.token_hash s ≡ true
    → (rotate_refresh_token i s).0 ≢ rotated
unfolding rotate_refresh_token
spent-ne-rotated i s h = ground arith

-- An authorization code that was consumed is not consumed again, whatever calls of the store come
-- between, by whom and with whatever client, redirect URI and challenge.
pub consume_once :
    (i : CodeInput) (s : OAuthStore) (t : OAuthTokenRecord) (g : OAuthGrant)
    → (consume_authorization_code i s).0 ≡ some (t, g)
    → {s' : OAuthStore} → Reach (consume_authorization_code i s).1 s'
    → (j : CodeInput) → j.token_hash ≡ i.token_hash
    → (consume_authorization_code j s').0 ≡ none
consume_once i s t g e {s'} r j same =
    spent-none j s' (rw same (Reach-is_spent i.token_hash r (consume_spends i s t g e)))

-- What a rotation writes.
abbrev pub with_rotation : Rotation → OAuthTokenRecord → OAuthStore → OAuthStore
with_rotation i t s = record s {
  tokens =
      Dict.set (Dict.set (with_used i.token_hash t i.used_at s).tokens i.access.token_hash i.access)
        i.refresh.token_hash i.refresh;
}

pub rotate_lem :
    (i : Rotation) (s : OAuthStore)
    → (rotate_refresh_token i s).0 ≡ rotated
    → (t : OAuthTokenRecord) × (Dict.get s.tokens i.token_hash ≡ some t)
      × (is_refresh t.kind ≡ true)
      × (t.used_at ≡ none)
      × (t.revoked_at ≡ none)
      × ((rotate_refresh_token i s).1 ≡ with_rotation i t s)
unfolding rotate_refresh_token
rotate_lem i s e = elim (Option-cases (Dict.get s.tokens i.token_hash)) [
  | inl absent ↦ absurd (ground arith)
  | inr (t, found) ↦ (t, found, ground arith, ground arith, ground arith, ground arith)
]

-- A rotation leaves the token that it was given spent.
pub rotation_spends :
    (i : Rotation) (s : OAuthStore) (t : OAuthTokenRecord)
    → i.access.token_hash ≢ i.token_hash
    → i.refresh.token_hash ≢ i.token_hash
    → is_spent i.token_hash (with_rotation i t s) ≡ true
rotation_spends i s t na nr =
    let m : Dict OAuthTokenRecord = (with_used i.token_hash t i.used_at s).tokens in
    ground (
      arith,
      eq_refl i.token_hash,
      eq_iff i.access.token_hash i.token_hash,
      eq_iff i.refresh.token_hash i.token_hash,
      get-set s.tokens i.token_hash i.token_hash (record t { used_at = some i.used_at }),
      get-set m i.access.token_hash i.token_hash i.access,
      get-set (Dict.set m i.access.token_hash i.access) i.refresh.token_hash i.token_hash i.refresh,
    )

-- A refresh token that was rotated is not rotated again, whatever calls of the store come between:
-- the two tokens of the rotation must have other hashes.
pub rotate_once :
    (i : Rotation) (s : OAuthStore)
    → (rotate_refresh_token i s).0 ≡ rotated
    → i.access.token_hash ≢ i.token_hash
    → i.refresh.token_hash ≢ i.token_hash
    → {s' : OAuthStore} → Reach (rotate_refresh_token i s).1 s'
    → (j : Rotation) → j.token_hash ≡ i.token_hash
    → (rotate_refresh_token j s').0 ≢ rotated
rotate_once i s e na nr {s'} r j same =
    let (t, found, kind, unused, unrevoked, after) = rotate_lem i s e in
    spent-ne-rotated j s'
      (rw same (Reach-is_spent i.token_hash r (rw after (rotation_spends i s t na nr))))

-- The access token of a rotation is stored.
pub get-with_rotation :
    (i : Rotation) (t : OAuthTokenRecord) (s : OAuthStore)
    → i.refresh.token_hash ≢ i.access.token_hash
    → Dict.get (with_rotation i t s).tokens i.access.token_hash ≡ some i.access
get-with_rotation i t s ne =
    let m : Dict OAuthTokenRecord = (with_used i.token_hash t i.used_at s).tokens in
    ground (
      arith,
      eq_refl i.access.token_hash,
      eq_iff i.refresh.token_hash i.access.token_hash,
      get-set m i.access.token_hash i.access.token_hash i.access,
      get-set (Dict.set m i.access.token_hash i.access) i.refresh.token_hash i.access.token_hash
          i.refresh,
    )

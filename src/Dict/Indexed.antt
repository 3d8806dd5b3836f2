-- ===== src/Dict/Indexed.antt =====
-- Maps that key each value by an identifier of its own, with no key twice.
use fullwell.Prelude.{String, ◌≡◌, refl, Bool, none, some, [], ◌∷◌, arith, eq_iff, All, All-map}
use fullwell.Dict.{Dict, get, set, delete, update_all, delete_where, values}
use fullwell.Dict.Laws.{get-set, get-update_all, get-delete}

module _ {V : Type 0} (key : V → String) where
  abbrev pub IsIndexed : Dict V → Type 0
  IsIndexed [] = Unit
  IsIndexed ((k, v) ∷ m) = (key v ≡ k) × (get m k ≡ none) × IsIndexed m

  pub set-IsIndexed :
      (m : Dict V) (k : String) (v : V) → IsIndexed m → key v ≡ k → IsIndexed (set m k v)
  unfolding set get
  set-IsIndexed [] k v h e = (e, refl, tt)
  set-IsIndexed ((j, w) ∷ m) k v (p, q, h) e =
      ground (arith, eq_iff j k, eq_iff k j, get-set m k j v, set-IsIndexed m k v h e)

  pub update_all-IsIndexed :
      (f : V → V) (m : Dict V)
      → ((v : V) → key (f v) ≡ key v)
      → IsIndexed m
      → IsIndexed (update_all f m)
  unfolding update_all
  update_all-IsIndexed f [] same h = tt
  update_all-IsIndexed f ((j, w) ∷ m) same (p, q, h) =
      ground (arith, same w, get-update_all f m j, update_all-IsIndexed f m same h)

  get-delete_where :
      (drop : V → Bool) (m : Dict V) (k : String)
      → get m k ≡ none
      → get (delete_where drop m) k ≡ none
  unfolding get delete_where
  get-delete_where drop [] k h = refl
  get-delete_where drop ((j, w) ∷ m) k h = ground (arith, get-delete_where drop m k)

  pub delete_where-IsIndexed :
      (drop : V → Bool) (m : Dict V) → IsIndexed m → IsIndexed (delete_where drop m)
  unfolding delete_where
  delete_where-IsIndexed drop [] h = tt
  delete_where-IsIndexed drop ((j, w) ∷ m) (p, q, h) =
      ground (arith, get-delete_where drop m j q, delete_where-IsIndexed drop m h)

  pub delete-IsIndexed : (m : Dict V) (k : String) → IsIndexed m → IsIndexed (delete m k)
  unfolding delete
  delete-IsIndexed [] k h = tt
  delete-IsIndexed ((j, w) ∷ m) k (p, q, h) =
      ground (arith, get-delete m k j, delete-IsIndexed m k h)

  -- Each value is found under its key.
  pub values-found : (m : Dict V) → IsIndexed m → All (λ v. get m (key v) ≡ some v) (values m)
  unfolding get
  values-found [] h = tt
  values-found ((j, w) ∷ m) (p, q, h) =
      (head_found, All-map _ _ (values m) later (values-found m h))
    where
      head_found : get ((j, w) ∷ m) (key w) ≡ some w
      head_found = ground (arith, eq_iff j (key w))

      later : (v : V) → get m (key v) ≡ some v → get ((j, w) ∷ m) (key v) ≡ some v
      later v found = ground (arith, eq_iff j (key v))

  -- What is found under a key has that key.
  pub IsIndexed-get : (m : Dict V) (k : String) (v : V) → IsIndexed m → get m k ≡ some v → key v ≡ k
  unfolding get
  IsIndexed-get [] k v h found = absurd (ground arith)
  IsIndexed-get ((j, w) ∷ m) k v (p, q, h) found = ground (arith, eq_iff j k, IsIndexed-get m k v h)

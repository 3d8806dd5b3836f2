-- ===== src/Dict/Laws.antt =====
-- What a `get` returns after each write.
use mathlib.Core.Option
use fullwell.Prelude.{
  String, ◌≡◌, refl, Bool, true, false, not, none, some, [], ◌∷◌, arith, ◌==◌, eq_iff, eq_refl,
  if◌then◌else◌, is_none, All, Bool-cases, inl, inr,
}
use fullwell.Dict.{Dict, get, set, delete, delete_where, update_all, values}

module _ {ℓ} {V : Type ℓ} where
  pub get-set :
      (m : Dict V) (k j : String) (v : V) → get (set m k v) j ≡ (if k == j then some v else get m j)
  unfolding get set
  get-set [] k j v = refl
  get-set ((i, w) ∷ m) k j v = ground (arith, eq_iff k j, eq_iff i k, eq_iff i j, get-set m k j v)

  pub get-delete :
      (m : Dict V) (k j : String) → get (delete m k) j ≡ (if k == j then none else get m j)
  unfolding get delete
  get-delete [] k j = ground arith
  get-delete ((i, w) ∷ m) k j = ground (arith, eq_iff k j, eq_iff i k, eq_iff i j, get-delete m k j)

  pub get-update_all :
      (f : V → V) (m : Dict V) (k : String) → get (update_all f m) k ≡ Option.map f (get m k)
  unfolding get update_all
  get-update_all f [] k = refl
  get-update_all f ((j, v) ∷ m) k = ground (arith, get-update_all f m k)

  -- An invariant of the values is kept by each write.
  pub values-set-All {κ} :
      (P : V → Type κ) (m : Dict V) (k : String) (v : V)
      → All P (values m)
      → P v
      → All P (values (set m k v))
  unfolding set
  values-set-All P [] k v h p = (p, tt)
  values-set-All P ((j, w) ∷ m) k v (q, h) p = ground (arith, values-set-All P m k v h p)

  pub get-All {κ} :
      (P : V → Type κ) (m : Dict V) (k : String) (v : V) → All P (values m) → get m k ≡ some v → P v
  unfolding get
  get-All P [] k v h e = ground arith
  get-All P ((j, w) ∷ m) k v (q, h) e = ground (arith, get-All P m k v h)

  pub values-update_all-All {κ} :
      (P : V → Type κ) (f : V → V) (m : Dict V)
      → ((v : V) → P v → P (f v))
      → All P (values m)
      → All P (values (update_all f m))
  unfolding update_all
  values-update_all-All P f [] keep h = tt
  values-update_all-All P f ((j, w) ∷ m) keep (q, h) =
      (keep w q, values-update_all-All P f m keep h)

  pub values-delete-All {κ} :
      (P : V → Type κ) (m : Dict V) (k : String) → All P (values m) → All P (values (delete m k))
  unfolding delete
  values-delete-All P [] k h = tt
  values-delete-All P ((j, w) ∷ m) k (q, h) = ground (arith, values-delete-All P m k h)

  -- What is not dropped.
  pub values-delete_where-All {κ μ} :
      (P : V → Type κ) (Q : V → Type μ) (drop : V → Bool) (m : Dict V)
      → ((v : V) → drop v ≡ false → P v → Q v)
      → All P (values m)
      → All Q (values (delete_where drop m))
  unfolding delete_where
  values-delete_where-All P Q drop [] keep h = tt
  values-delete_where-All P Q drop ((k, v) ∷ m) keep (p, h) = elim (Bool-cases (drop v)) [
    | inl drops ↦ rw (drops, delete_where) (values-delete_where-All P Q drop m keep h)
    | inr stays ↦
        rw (stays, delete_where) ((keep v stays p, values-delete_where-All P Q drop m keep h))
  ]

  delete_absent : (m : Dict V) (k : String) → get m k ≡ none → delete m k ≡ m
  unfolding get delete
  delete_absent [] k h = refl
  delete_absent ((j, w) ∷ m) k h = ground (arith, delete_absent m k)

  -- What is added under a new key and deleted again leaves no trace.
  pub delete-set : (m : Dict V) (k : String) (v : V) → get m k ≡ none → delete (set m k v) k ≡ m
  unfolding get set delete
  delete-set [] k v h = ground (arith, eq_refl k)
  delete-set ((j, w) ∷ m) k v h = ground (arith, delete-set m k v, delete_absent m k)

  abbrev pub has : Dict V → String → Bool
  has m k = not (is_none (get m k))

  pub has-set :
      (m : Dict V) (k : String) (v : V) (j : String) → has m j ≡ true → has (set m k v) j ≡ true
  has-set m k v j h = ground (arith, get-set m k j v)

  pub has-set_same : (m : Dict V) (k : String) (v : V) → has (set m k v) k ≡ true
  has-set_same m k v = ground (arith, get-set m k k v, eq_refl k)

  pub has-update_all :
      (f : V → V) (m : Dict V) (j : String) → has m j ≡ true → has (update_all f m) j ≡ true
  has-update_all f m j h = ground (arith, get-update_all f m j)

  pub has-delete :
      (m : Dict V) (k j : String) → (j == k) ≡ false → has m j ≡ true → has (delete m k) j ≡ true
  has-delete m k j ne h = ground (arith, get-delete m k j, eq_iff k j, eq_iff j k)

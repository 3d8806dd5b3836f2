-- ===== src/Dict.antt =====
-- JavaScript's `Map` with text keys, as the memory stores use it: an association list in insertion
-- order. A write to a key that is there keeps its place, any other goes to the end.
pub mod Laws
pub mod Indexed
pub mod Count
use fullwell.Prelude.{String, Bool, Option, none, some, List, [], ◌∷◌, ◌==◌, map, if◌then◌else◌}

abbrev pub Dict {ℓ} : Type ℓ → Type ℓ
Dict V = List (String × V)

module _ {ℓ} {V : Type ℓ} where
  -- m.get(k)
  unfoldable pub get : Dict V → String → Option V
  get [] k = none
  get ((j, v) ∷ m) k = if j == k then some v else get m k

  -- m.set(k, v)
  unfoldable pub set : Dict V → String → V → Dict V
  set [] k v = (k, v) ∷ []
  set ((j, w) ∷ m) k v = if j == k then (j, v) ∷ m else (j, w) ∷ set m k v

  -- m.delete(k)
  unfoldable pub delete : Dict V → String → Dict V
  delete [] k = []
  delete ((j, v) ∷ m) k = let rest = delete m k in if j == k then rest else (j, v) ∷ rest

  -- [...m.values()]
  abbrev pub values : Dict V → List V
  values m = map (λ e. e.1) m

  -- for (const [k, v] of m) m.set(k, f(v))
  unfoldable pub update_all : (V → V) → Dict V → Dict V
  update_all f [] = []
  update_all f ((j, v) ∷ m) = (j, f v) ∷ update_all f m

  -- for (const [k, v] of m) if (drop(v)) m.delete(k)
  unfoldable pub delete_where : (V → Bool) → Dict V → Dict V
  delete_where drop [] = []
  delete_where drop ((j, v) ∷ m) =
      let rest = delete_where drop m in if drop v then rest else (j, v) ∷ rest

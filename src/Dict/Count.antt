-- ===== src/Dict/Count.antt =====
-- How many values of a map pass a test, after each write.
use fullwell.Prelude.{
  ℕ, ◌+◌, ◌≤◌, String, ◌≡◌, Bool, true, false, some, [], ◌∷◌, arith, filter, length,
}
use fullwell.Dict.{Dict, get, set, delete, update_all, values}

module _ {V : Type 0} (p : V → Bool) where
  abbrev pub count : Dict V → ℕ
  count m = length (filter p (values m))

  -- A write adds one at most.
  pub count-set-le : (m : Dict V) (k : String) (v : V) → count (set m k v) ≤ count m + 1
  unfolding set filter
  count-set-le [] k v = ground arith
  count-set-le ((j, w) ∷ m) k v = ground (arith, count-set-le m k v)

  -- A write over a value that passes adds none.
  pub count-set_over :
      (m : Dict V) (k : String) (v w : V)
      → get m k ≡ some w
      → p w ≡ true
      → count (set m k v) ≤ count m
  unfolding get set filter
  count-set_over [] k v w found passes = absurd (ground arith)
  count-set_over ((j, u) ∷ m) k v w found passes = ground (arith, count-set_over m k v w)

  -- Nor does a write of a value that does not pass.
  pub count-set_out : (m : Dict V) (k : String) (v : V) → p v ≡ false → count (set m k v) ≤ count m
  unfolding set filter
  count-set_out [] k v out = ground arith
  count-set_out ((j, u) ∷ m) k v out = ground (arith, count-set_out m k v out)

  -- A change of all values that makes none pass which did not.
  pub count-update_all-le :
      (f : V → V) (m : Dict V)
      → ((v : V) → p (f v) ≡ true → p v ≡ true)
      → count (update_all f m) ≤ count m
  unfolding update_all filter
  count-update_all-le f [] back = ground arith
  count-update_all-le f ((j, u) ∷ m) back = ground (arith, back u, count-update_all-le f m back)

  pub count-delete-le : (m : Dict V) (k : String) → count (delete m k) ≤ count m
  unfolding delete filter
  count-delete-le [] k = ground arith
  count-delete-le ((j, u) ∷ m) k = ground (arith, count-delete-le m k)

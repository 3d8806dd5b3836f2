-- ===== src/Prelude/Lists.antt =====
-- Lists, measured by native numbers, with the array methods that the program uses.
use Prim.Native.Nat.{ℕ, suc, ◌+◌, ◌≤◌}
use mathlib.Core.Path.{◌≡◌, subst}
use mathlib.Core.Bool.{Bool, true, false, ◌&&◌, ◌||◌}
use mathlib.Core.Option.{Option, none, some}
use mathlib.Core.List.{List, [], ◌∷◌, ◌++◌}
use native.Mathlib.Omega.{arith}
use fullwell.Prelude.Tests.{if◌then◌else◌, leb, leb→le, Bool-cases}
use mathlib.Core.Logic.{inl, inr}

module _ {ℓ} {A : Type ℓ} where
  abbrev pub length : List A → ℕ
  length [] = 0
  length (x ∷ xs) = suc (length xs)

  -- `xs.filter(p)`
  unfoldable pub filter : (A → Bool) → List A → List A
  filter p [] = []
  filter p (x ∷ xs) = let rest = filter p xs in if p x then x ∷ rest else rest

  -- `xs.find(p)`
  unfoldable pub find : (A → Bool) → List A → Option A
  find p [] = none
  find p (x ∷ xs) = let rest = find p xs in if p x then some x else rest

  -- `xs.some(p)`
  unfoldable pub any : (A → Bool) → List A → Bool
  any p [] = false
  any p (x ∷ xs) = p x || any p xs

  -- `xs.every(p)`
  unfoldable pub all : (A → Bool) → List A → Bool
  all p [] = true
  all p (x ∷ xs) = p x && all p xs

  abbrev pub All {κ} : (A → Type κ) → List A → Type κ
  All P [] = Unit
  All P (x ∷ xs) = P x × All P xs

  pub length-append : (xs ys : List A) → length (xs ++ ys) ≡ length xs + length ys
  length-append [] ys = omega arith
  length-append (x ∷ xs) ys = omega (arith, length-append xs ys)

  pub length-filter-le : (p : A → Bool) (xs : List A) → length (filter p xs) ≤ length xs
  unfolding filter
  length-filter-le p [] = omega arith
  length-filter-le p (x ∷ xs) = ground (arith, length-filter-le p xs)

  -- What `find` returns passes the test.
  pub find_holds : (p : A → Bool) (xs : List A) (x : A) → find p xs ≡ some x → p x ≡ true
  unfolding find
  find_holds p [] x e = ground arith
  find_holds p (y ∷ xs) x e = ground (arith, find_holds p xs x)

-- `xs.sort((a, b) => compare(key(a), key(b)))`, which is stable, and `xs[0]`
module _ {ℓ} {A : Type ℓ} where
  unfoldable pub insert_by : (A → ℕ) → A → List A → List A
  insert_by key x [] = x ∷ []
  insert_by key x (y ∷ ys) =
      let rest = insert_by key x ys in if leb (key x) (key y) then x ∷ y ∷ ys else y ∷ rest

  unfoldable pub sort_by : (A → ℕ) → List A → List A
  unfolding insert_by
  sort_by key [] = []
  sort_by key (x ∷ xs) = insert_by key x (sort_by key xs)

  abbrev pub first : List A → Option A
  first [] = none
  first (x ∷ xs) = some x

-- What holds of all elements of a list holds of those that the array methods return.
module _ {ℓ κ} {A : Type ℓ} (P : A → Type κ) where
  pub filter-All : (p : A → Bool) (xs : List A) → All P xs → All P (filter p xs)
  unfolding filter
  filter-All p [] h = tt
  filter-All p (x ∷ xs) (q, h) = ground (arith, filter-All p xs h)

  pub find-All : (p : A → Bool) (xs : List A) (x : A) → All P xs → find p xs ≡ some x → P x
  unfolding find
  find-All p [] x h e = ground arith
  find-All p (y ∷ xs) x (q, h) e = ground (arith, find-All p xs x h)

  insert_by-All : (key : A → ℕ) (x : A) (xs : List A) → P x → All P xs → All P (insert_by key x xs)
  unfolding insert_by
  insert_by-All key x [] p h = (p, tt)
  insert_by-All key x (y ∷ xs) p (q, h) = ground (arith, insert_by-All key x xs p h)

  pub sort_by-All : (key : A → ℕ) (xs : List A) → All P xs → All P (sort_by key xs)
  unfolding sort_by
  sort_by-All key [] h = tt
  sort_by-All key (x ∷ xs) (q, h) = insert_by-All key x (sort_by key xs) q (sort_by-All key xs h)

  pub first-All : (xs : List A) (x : A) → All P xs → first xs ≡ some x → P x
  first-All [] x h e = ground arith
  first-All (y ∷ xs) x (q, h) e = ground arith

pub All-map {ℓ κ μ} :
    {A : Type ℓ} (P : A → Type κ) (Q : A → Type μ) (xs : List A)
    → ((x : A) → P x → Q x)
    → All P xs
    → All Q xs
All-map P Q [] f h = tt
All-map P Q (x ∷ xs) f (q, h) = (f x q, All-map P Q xs f h)

-- What `filter` keeps passes the test.
pub filter_holds {ℓ} :
    {A : Type ℓ} (p : A → Bool) (xs : List A) → All (λ x. p x ≡ true) (filter p xs)
unfolding filter
filter_holds p [] = tt
filter_holds p (x ∷ xs) = ground (arith, filter_holds p xs)

-- What is sorted by a key has its elements in the order of their keys.
module _ {ℓ} {A : Type ℓ} (key : A → ℕ) where
  abbrev pub IsSorted : List A → Type 0
  IsSorted [] = Unit
  IsSorted (x ∷ xs) = All (λ y. key x ≤ key y) xs × IsSorted xs

  insert_by-IsSorted : (x : A) (xs : List A) → IsSorted xs → IsSorted (insert_by key x xs)
  unfolding insert_by
  insert_by-IsSorted x [] h = (tt, tt)
  insert_by-IsSorted x (y ∷ ys) (least, h) = elim (Bool-cases (leb (key x) (key y))) [
    | inl before ↦
        rw (before, insert_by)
          (
            (
              leb→le (key x) (key y) before,
              All-map (λ z. key y ≤ key z) (λ z. key x ≤ key z) ys
                  (λ z le. ground (arith, leb→le (key x) (key y) before)) least,
            ),
            (least, h),
          )
    | inr after ↦
        rw (after, insert_by)
          (
            insert_by-All (λ z. key y ≤ key z) key x ys (ground (arith, after)) least,
            insert_by-IsSorted x ys h,
          )
  ]

  pub sort_by-IsSorted : (xs : List A) → IsSorted (sort_by key xs)
  unfolding sort_by
  sort_by-IsSorted [] = tt
  sort_by-IsSorted (x ∷ xs) = insert_by-IsSorted x (sort_by key xs) (sort_by-IsSorted xs)

-- Nothing is lost by sorting: what holds of all of the sorted list holds of all of the list.
module _ {ℓ κ} {A : Type ℓ} (P : A → Type κ) (key : A → ℕ) where
  insert_by-back : (x : A) (xs : List A) → All P (insert_by key x xs) → P x × All P xs
  unfolding insert_by
  insert_by-back x [] (p, h) = (p, tt)
  insert_by-back x (y ∷ ys) h = elim (Bool-cases (leb (key x) (key y))) [
    | inl before ↦ rw (before, insert_by) at h
    | inr after ↦
        let h' : All P (y ∷ insert_by key x ys) = rw (after, insert_by) at h in
        let (p, ps) = insert_by-back x ys h'.1 in (p, (h'.0, ps))
  ]

  pub sort_by-back : (xs : List A) → All P (sort_by key xs) → All P xs
  unfolding sort_by
  sort_by-back [] h = tt
  sort_by-back (x ∷ xs) h =
      let (p, ps) = insert_by-back x (sort_by key xs) h in (p, sort_by-back xs ps)

least_at_front {ℓ} :
    {A : Type ℓ} (key : A → ℕ) (ys : List A) (x : A)
    → IsSorted key ys
    → first ys ≡ some x
    → All (λ y. key x ≤ key y) ys
least_at_front key [] x h e = tt
least_at_front key (y ∷ ys) x (low, h) e =
    let same : y ≡ x = ground arith in
    subst (λ v. All (λ z. key v ≤ key z) (y ∷ ys)) same (omega arith, low)

-- The front of a sorted list has the least key.
pub first-least {ℓ} :
    {A : Type ℓ} (key : A → ℕ) (xs : List A) (x : A)
    → first (sort_by key xs) ≡ some x
    → All (λ y. key x ≤ key y) xs
first-least key xs x at =
    sort_by-back (λ y. key x ≤ key y) key xs
      (least_at_front key (sort_by key xs) x (sort_by-IsSorted key xs) at)

-- What holds of all that a filter keeps holds of all that pass its test.
pub filter-back {ℓ κ} :
    {A : Type ℓ} (P : A → Type κ) (p : A → Bool) (xs : List A)
    → All P (filter p xs)
    → All (λ x. p x ≡ true → P x) xs
unfolding filter
filter-back P p [] h = tt
filter-back P p (x ∷ xs) h = elim (Bool-cases (p x)) [
  | inl passes ↦
      let h' : All P (x ∷ filter p xs) = rw (passes, filter) at h in
      (λ e. h'.0, filter-back P p xs h'.1)
  | inr fails ↦ (λ e. absurd (ground arith), filter-back P p xs (rw (fails, filter) at h))
]

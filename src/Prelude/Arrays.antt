-- ===== src/Prelude/Arrays.antt =====
-- Lists as growable arrays: reading with a default, writing, swapping; how often a test holds.
use Prim.Native.Nat.{ℕ, zero, suc, ◌+◌, ◌<◌}
use mathlib.Core.Path.{◌≡◌, refl, ap}
use mathlib.Core.Bool.{Bool}
use mathlib.Core.List.{List, [], ◌∷◌, ◌++◌}
use native.Mathlib.Omega.{arith}
use cothread.Prelude.Tests.{◌==◌, if◌then◌else◌}
use cothread.Prelude.Lists.{length, take}

module _ {ℓ} {A : Type ℓ} where
  unfoldable pub get_or : List A → ℕ → A → A
  get_or [] i d = d
  get_or (x ∷ xs) zero d = x
  get_or (x ∷ xs) (suc i) d = get_or xs i d

  unfoldable pub set : List A → ℕ → A → List A
  set [] i v = []
  set (x ∷ xs) zero v = v ∷ xs
  set (x ∷ xs) (suc i) v = x ∷ set xs i v

  pub length-set : (xs : List A) (i : ℕ) (v : A) → length (set xs i v) ≡ length xs
  unfolding set
  length-set [] i v = refl
  length-set (x ∷ xs) zero v = refl
  length-set (x ∷ xs) (suc i) v = ap suc (length-set xs i v)

  pub get_or-set :
      (xs : List A) (i j : ℕ) (v d : A)
      → i < length xs
      → get_or (set xs i v) j d ≡ (if i == j then v else get_or xs j d)
  unfolding get_or set
  get_or-set [] i j v d h = absurd (omega arith)
  get_or-set (x ∷ xs) zero zero v d h = refl
  get_or-set (x ∷ xs) zero (suc j) v d h = ground arith
  get_or-set (x ∷ xs) (suc i) zero v d h = ground arith
  get_or-set (x ∷ xs) (suc i) (suc j) v d h = ground (arith, get_or-set xs i j v d)

  pub get_or-append :
      (xs : List A) (x : A) (i : ℕ) (d : A)
      → get_or (xs ++ x ∷ []) i d ≡ (if i == length xs then x else get_or xs i d)
  unfolding get_or
  get_or-append [] x zero d = refl
  get_or-append [] x (suc i) d = ground arith
  get_or-append (y ∷ xs) x zero d = ground arith
  get_or-append (y ∷ xs) x (suc i) d = ground (arith, get_or-append xs x i d)

  pub get_or-take :
      (n : ℕ) (xs : List A) (i : ℕ) (d : A) → i < n → get_or (take n xs) i d ≡ get_or xs i d
  unfolding get_or
  get_or-take zero xs i d h = absurd (omega arith)
  get_or-take (suc n) [] i d h = refl
  get_or-take (suc n) (x ∷ xs) zero d h = refl
  get_or-take (suc n) (x ∷ xs) (suc i) d h = get_or-take n xs i d (omega arith)

  -- The entries on which a test holds, counted.
  unfoldable pub tally : (A → Bool) → List A → ℕ
  tally p [] = 0
  tally p (x ∷ xs) = (if p x then 1 else 0) + tally p xs

  pub tally-append : (p : A → Bool) (xs ys : List A) → tally p (xs ++ ys) ≡ tally p xs + tally p ys
  unfolding tally
  tally-append p [] ys = omega arith
  tally-append p (x ∷ xs) ys = omega (arith, tally-append p xs ys)

  pub tally-set :
      (p : A → Bool) (xs : List A) (i : ℕ) (v d : A)
      → i < length xs
      → tally p (set xs i v) + (if p (get_or xs i d) then 1 else 0)
        ≡ tally p xs + (if p v then 1 else 0)
  unfolding tally set get_or
  tally-set p [] i v d h = absurd (omega arith)
  tally-set p (x ∷ xs) zero v d h = omega arith
  tally-set p (x ∷ xs) (suc i) v d h = omega (arith, tally-set p xs i v d (omega arith))

  -- A last entry taken off.
  pub tally-take :
      (p : A → Bool) (n : ℕ) (xs : List A) (d : A)
      → length xs ≡ suc n
      → tally p xs ≡ tally p (take n xs) + (if p (get_or xs n d) then 1 else 0)
  unfolding tally get_or
  tally-take p n [] d h = absurd (omega arith)
  tally-take p zero (x ∷ []) d h = omega arith
  tally-take p zero (x ∷ y ∷ xs) d h = absurd (omega arith)
  tally-take p (suc n) (x ∷ xs) d h = omega (arith, tally-take p n xs d (omega arith))

  pub swap : List A → ℕ → ℕ → A → List A
  swap xs i j d = set (set xs i (get_or xs j d)) j (get_or xs i d)

  pub length-swap : (xs : List A) (i j : ℕ) (d : A) → length (swap xs i j d) ≡ length xs
  unfolding swap
  length-swap xs i j d = omega (
    arith,
    length-set xs i (get_or xs j d),
    length-set (set xs i (get_or xs j d)) j (get_or xs i d),
  )

  pub get_or-swap :
      (xs : List A) (i j k : ℕ) (d : A)
      → i < length xs
      → j < length xs
      → get_or (swap xs i j d) k d
        ≡ (if j == k then get_or xs i d else if i == k then get_or xs j d else get_or xs k d)
  unfolding swap
  get_or-swap xs i j k d hi hj = ground (
    arith,
    length-set xs i (get_or xs j d),
    get_or-set (set xs i (get_or xs j d)) j k (get_or xs i d) d,
    get_or-set xs i k (get_or xs j d) d,
  )

  pub tally-swap :
      (p : A → Bool) (xs : List A) (i j : ℕ) (d : A)
      → i < length xs
      → j < length xs
      → tally p (swap xs i j d) ≡ tally p xs
  unfolding swap
  tally-swap p xs i j d hi hj = ground (
    arith,
    length-set xs i (get_or xs j d),
    get_or-set xs i j (get_or xs j d) d,
    tally-set p xs i (get_or xs j d) d,
    tally-set p (set xs i (get_or xs j d)) j (get_or xs i d) d,
  )

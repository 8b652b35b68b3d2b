-- ===== src/Prelude/Lists.antt =====
-- Lists measured and indexed by native numbers, and predicates over lists by recursion.
use Prim.Native.Nat.{ℕ, zero, suc, ◌+◌, ◌-◌, ◌≤◌, min}
use mathlib.Core.Path.{◌≡◌, refl, sym, ap}
use mathlib.Core.Logic.{◌≢◌}
use mathlib.Core.List.{List, [], ◌∷◌, ◌++◌}
use native.Mathlib.Omega.{arith}

module _ {ℓ} {A : Type ℓ} where
  abbrev pub length : List A → ℕ
  length [] = 0
  length (x ∷ xs) = suc (length xs)

  abbrev pub take : ℕ → List A → List A
  take zero xs = []
  take (suc n) [] = []
  take (suc n) (x ∷ xs) = x ∷ take n xs

  abbrev pub drop : ℕ → List A → List A
  drop zero xs = xs
  drop (suc n) [] = []
  drop (suc n) (x ∷ xs) = drop n xs

  abbrev pub replicate : ℕ → A → List A
  replicate zero a = []
  replicate (suc n) a = a ∷ replicate n a

  pub length-append : (xs ys : List A) → length (xs ++ ys) ≡ length xs + length ys
  length-append [] ys = omega arith
  length-append (x ∷ xs) ys = omega (arith, length-append xs ys)

  pub length-take : (n : ℕ) (xs : List A) → length (take n xs) ≡ min n (length xs)
  length-take zero xs = omega arith
  length-take (suc n) [] = omega arith
  length-take (suc n) (x ∷ xs) = omega (arith, length-take n xs)

  pub length-drop : (n : ℕ) (xs : List A) → length (drop n xs) ≡ length xs - n
  length-drop zero xs = omega arith
  length-drop (suc n) [] = omega arith
  length-drop (suc n) (x ∷ xs) = omega (arith, length-drop n xs)

-- A predicate on every entry; it computes to a tuple.
abbrev pub All {ℓ κ} : {A : Type ℓ} → (A → Type κ) → List A → Type κ
All P [] = Unit
All P (x ∷ xs) = P x × All P xs

pub All-append {ℓ κ} :
    {A : Type ℓ} (P : A → Type κ) (xs ys : List A) → All P xs → All P ys → All P (xs ++ ys)
All-append P [] ys hx hy = hy
All-append P (x ∷ xs) ys hx hy = (hx.0, All-append P xs ys hx.1 hy)

-- `s` is not in the list.
abbrev pub Fresh : ℕ → List ℕ → Type 0
Fresh s = All (λ x. x ≢ s)

-- The entries are pairwise different.
abbrev pub Distinct : List ℕ → Type 0
Distinct [] = Unit
Distinct (x ∷ xs) = Fresh x xs × Distinct xs

pub take-nil {ℓ} : {A : Type ℓ} (k : ℕ) → take {A = A} k [] ≡ []
take-nil zero = refl
take-nil (suc k) = refl

pub drop-nil {ℓ} : {A : Type ℓ} (k : ℕ) → drop {A = A} k [] ≡ []
drop-nil zero = refl
drop-nil (suc k) = refl

pub All-take {ℓ κ} :
    {A : Type ℓ} (k : ℕ) (P : A → Type κ) (xs : List A) → All P xs → All P (take k xs)
All-take zero P xs a = tt
All-take (suc k) P [] a = tt
All-take (suc k) P (x ∷ xs) a = (a.0, All-take k P xs a.1)

pub All-drop {ℓ κ} :
    {A : Type ℓ} (k : ℕ) (P : A → Type κ) (xs : List A) → All P xs → All P (drop k xs)
All-drop zero P xs a = a
All-drop (suc k) P [] a = tt
All-drop (suc k) P (x ∷ xs) a = All-drop k P xs a.1

pub Distinct-take : (k : ℕ) (xs : List ℕ) → Distinct xs → Distinct (take k xs)
Distinct-take zero xs d = tt
Distinct-take (suc k) [] d = tt
Distinct-take (suc k) (x ∷ xs) d = (All-take k _ xs d.0, Distinct-take k xs d.1)

pub Distinct-drop : (k : ℕ) (xs : List ℕ) → Distinct xs → Distinct (drop k xs)
Distinct-drop zero xs d = d
Distinct-drop (suc k) [] d = tt
Distinct-drop (suc k) (x ∷ xs) d = Distinct-drop k xs d.1

-- The first j entries and some of the others.
pub take-drop {ℓ} :
    {A : Type ℓ} (j n : ℕ) (xs : List A)
    → j ≤ n
    → (take j xs ++ take (n - length (take j xs)) (drop j xs) ≡ take n xs)
      × (drop (n - length (take j xs)) (drop j xs) ≡ drop n xs)
take-drop zero n xs h =
    let e : n - 0 ≡ n = omega arith in (ap (λ m. take m xs) e, ap (λ m. drop m xs) e)
take-drop (suc j) zero xs h = absurd (omega arith)
take-drop (suc j) (suc n) [] h =
    let e : suc n - 0 ≡ suc n = omega arith in (ap (λ m. take m []) e, ap (λ m. drop m []) e)
take-drop (suc j) (suc n) (x ∷ xs) h =
    let (t, d) = take-drop j n xs (omega arith) in
    let e : suc n - suc (length (take j xs)) ≡ n - length (take j xs) = omega arith in
    rw e (ap (◌∷◌ x) t, d)

pub Fresh-apart : (xs ys : List ℕ) → Distinct (xs ++ ys) → All (λ x. Fresh x ys) xs
Fresh-apart [] ys d = tt
Fresh-apart (x ∷ xs) ys d = (right xs d.0, Fresh-apart xs ys d.1)
  where
    right : (zs : List ℕ) → Fresh x (zs ++ ys) → Fresh x ys
    right [] f = f
    right (z ∷ zs) f = right zs f.1

pub Fresh-swap :
    (x : ℕ) (xs ys : List ℕ)
    → Fresh x ys
    → All (λ y. Fresh y xs) ys
    → All (λ y. Fresh y (x ∷ xs)) ys
Fresh-swap x xs [] f a = tt
Fresh-swap x xs (y ∷ ys) f a = ((λ e. f.0 (sym e), a.0), Fresh-swap x xs ys f.1 a.1)

pub apart_sym : (xs ys : List ℕ) → All (λ x. Fresh x ys) xs → All (λ y. Fresh y xs) ys
apart_sym [] [] a = tt
apart_sym [] (y ∷ ys) a = (tt, apart_sym [] ys tt)
apart_sym (x ∷ xs) ys a = Fresh-swap x xs ys a.0 (apart_sym xs ys a.1)

pub take-drop_apart :
    (k : ℕ) (xs : List ℕ) → Distinct xs → All (λ x. Fresh x (drop k xs)) (take k xs)
take-drop_apart zero xs d = tt
take-drop_apart (suc k) [] d = tt
take-drop_apart (suc k) (x ∷ xs) d = (All-drop k _ xs d.0, take-drop_apart k xs d.1)

-- ===== src/Prelude/Maps.antt =====
-- Arrays and fields of objects as functions of an index or an address.
use Prim.Native.Nat.{ℕ}
use mathlib.Core.Path.{◌≡◌, fun_ext}
use mathlib.Core.Logic.{◌≢◌}
use mathlib.Core.Option.{Option, none, some}
use mathlib.Core.List.{List, [], ◌∷◌}
use native.Mathlib.Omega.{arith}
use cothread.Prelude.Tests.{◌==◌, if◌then◌else◌}
use cothread.Prelude.Lists.{Fresh}

abbrev pub update {ℓ} : {A : Type ℓ} → (ℕ → A) → ℕ → A → ℕ → A
update f i a j = if i == j then a else f j

pub update_self {ℓ} : {A : Type ℓ} (f : ℕ → A) (i : ℕ) (a : A) → update f i a i ≡ a
update_self f i a = ground arith

pub update_ne {ℓ} : {A : Type ℓ} (f : ℕ → A) (i j : ℕ) (a : A) → i ≢ j → update f i a j ≡ f j
update_ne f i j a h = ground arith

pub update_again {ℓ} :
    {A : Type ℓ} (f : ℕ → A) (i : ℕ) (a b : A) → update (update f i a) i b ≡ update f i b
update_again f i a b = fun_ext (λ j. ground arith)

-- A list linked through `next`, from the head pointer on; `none` is the null pointer or -1.
abbrev pub Chain : (ℕ → Option ℕ) → Option ℕ → List ℕ → Type 0
Chain next h [] = h ≡ none
Chain next h (x ∷ xs) = (h ≡ some x) × Chain next (next x) xs

-- A write to a cell outside the list leaves the list as it is.
pub Chain-update :
    (next : ℕ → Option ℕ) (h : Option ℕ) (i : ℕ) (v : Option ℕ) (xs : List ℕ)
    → Fresh i xs
    → Chain next h xs
    → Chain (update next i v) h xs
Chain-update next h i v [] f c = c
Chain-update next h i v (x ∷ xs) f c =
    (c.0, ground (arith, Chain-update next (next x) i v xs f.1 c.1))

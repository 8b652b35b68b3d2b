-- ===== src/MpscQueue/Fifo.antt =====
-- The queue, one operation at a time, is a first-in first-out queue.
use cothread.Prelude.{
  ℕ, zero, suc, ◌≡◌, refl, sym, ◌∙◌, ◌≢◌, ◌↔◌, true, Option, none, some, List, [], ◌∷◌, ◌++◌, arith,
  take, drop, Fresh, Distinct, update, update_self, update_ne, Chain, Chain-update,
}
use cothread.MpscQueue.{MpscQueue, init, push, Popped, got, empty, pop, pop_multiple, is_empty}

abbrev pub last_of : ℕ → List ℕ → ℕ
last_of x [] = x
last_of x (y ∷ xs) = last_of y xs

-- head_ is the last of the items.
abbrev pub Ends : Option ℕ → List ℕ → Type 0
Ends head [] = head ≡ none
Ends head (x ∷ xs) = head ≡ some (last_of x xs)

-- The queue holds these items, the oldest first, linked in this order.
pub record Holds (q : MpscQueue) (xs : List ℕ) : Type 0 where
  pub chain : Chain q.next q.tail xs
  pub ends : Ends q.head xs
  pub distinct : Distinct xs

pub init-Holds : (next : ℕ → Option ℕ) → Holds (init next) []
unfolding init
init-Holds next = record { chain = refl; ends = refl; distinct = tt }

pub last_of-ne : (z x : ℕ) (xs : List ℕ) → Fresh z (x ∷ xs) → last_of x xs ≢ z
last_of-ne z x [] f = f.0
last_of-ne z x (y ∷ xs) f = last_of-ne z y xs f.1

pub last_of-append : (x : ℕ) (xs : List ℕ) (item : ℕ) → last_of x (xs ++ item ∷ []) ≡ item
last_of-append x [] item = refl
last_of-append x (y ∷ xs) item = last_of-append y xs item

Fresh-append : (z : ℕ) (xs : List ℕ) (y : ℕ) → Fresh z xs → y ≢ z → Fresh z (xs ++ y ∷ [])
Fresh-append z [] y f n = (n, tt)
Fresh-append z (x ∷ xs) y f n = (f.0, Fresh-append z xs y f.1 n)

pub Distinct-append : (xs : List ℕ) (y : ℕ) → Distinct xs → Fresh y xs → Distinct (xs ++ y ∷ [])
Distinct-append [] y d f = (tt, tt)
Distinct-append (x ∷ xs) y d f =
    (Fresh-append x xs y d.0 (λ e. f.0 (sym e)), Distinct-append xs y d.1 f.1)

-- A new item linked behind the last one.
pub Chain-append :
    (next : ℕ → Option ℕ) (x : ℕ) (xs : List ℕ) (item : ℕ)
    → Distinct (x ∷ xs)
    → Fresh item (x ∷ xs)
    → next item ≡ none
    → Chain next (some x) (x ∷ xs)
    → Chain (update next (last_of x xs) (some item)) (some x) (x ∷ xs ++ item ∷ [])
Chain-append next x [] item d f e c =
    (refl, (update_self next x (some item), update_ne next x item (some item) f.0 ∙ e))
Chain-append next x (y ∷ xs) item d f e c =
    let rest = Chain-append next y xs item d.1 f.1 e (refl, c.1.1) in
    (refl, (update_ne next _ x (some item) (last_of-ne x y xs d.0) ∙ c.1.0, rest.1))

pub push_first :
    (q : MpscQueue) (item : ℕ)
    → q.head ≡ none
    → push item q ≡ record q { head = some item; tail = some item; next = update q.next item none }
unfolding push
push_first q item e = ground arith

pub push_later :
    (q : MpscQueue) (item l : ℕ)
    → q.head ≡ some l
    → push item q
      ≡ record q { head = some item; next = update (update q.next item none) l (some item) }
unfolding push
push_later q item l e = ground arith

-- A push of an item that is not queued puts it behind the others.
pub push-appends :
    (q : MpscQueue) (xs : List ℕ) (item : ℕ)
    → Holds q xs
    → Fresh item xs
    → Holds (push item q) (xs ++ item ∷ [])
push-appends q [] item v f =
    rw (push_first q item v.ends)
      (record { chain = (refl, update_self q.next item none); ends = refl; distinct = (tt, tt) })
push-appends q (x ∷ xs) item v f = rw (push_later q item (last_of x xs) v.ends) (record {
  chain = rw (v.chain.0) (
      Chain-append (update q.next item none) x xs item v.distinct f (update_self q.next item none)
        (Chain-update q.next (some x) item none (x ∷ xs) f (refl, v.chain.1)));
  ends = rw (last_of-append x xs item);
  distinct = Distinct-append (x ∷ xs) item v.distinct f;
})

-- What a pop does with these items queued.
abbrev pub Pops : List ℕ → Popped → Type 0
Pops [] r = r ≡ empty
Pops (x ∷ xs) r = (q : MpscQueue) × (r ≡ got x q) × Holds q xs

-- With no push under way a pop never waits: it takes the oldest item, if there is one.
pub pop-Pops : (q : MpscQueue) (xs : List ℕ) → Holds q xs → Pops xs (pop q)
unfolding pop
pop-Pops q [] v = ground (arith, v.chain)
pop-Pops q (x ∷ []) v = (
  record q { head = none; tail = none; next = update q.next x none },
  ground (arith, v.chain, v.ends),
  record { chain = refl; ends = refl; distinct = tt },
)
pop-Pops q (x ∷ y ∷ xs) v = (
  record q { tail = some y; next = update q.next x none },
  ground (arith, v.chain, v.ends),
  record {
    chain = Chain-update q.next (some y) x none (y ∷ xs) v.distinct.0 (refl, v.chain.1.1);
    ends = v.ends;
    distinct = v.distinct.1;
  },
)

-- A batch of pops takes the oldest `k` items in order, or all there are.
pop_multiple-takes :
    (k : ℕ) (q : MpscQueue) (xs : List ℕ)
    → Holds q xs
    → (q' : MpscQueue) × (pop_multiple k q ≡ some (take k xs, q')) × Holds q' (drop k xs)
unfolding pop_multiple
pop_multiple-takes zero q xs v = (q, refl, v)
pop_multiple-takes (suc k) q [] v = (q, rw (pop-Pops q [] v, pop_multiple), v)
pop_multiple-takes (suc k) q (x ∷ xs) v =
    let (r, e, w) = pop-Pops q (x ∷ xs) v in
    let (q', e', w') = pop_multiple-takes k r xs w in (q', rw (e, pop_multiple, e'), w')

pub is_empty_iff : (q : MpscQueue) (xs : List ℕ) → Holds q xs → (is_empty q ≡ true) ↔ (xs ≡ [])
unfolding is_empty
is_empty_iff q [] v = ground (arith, v.chain)
is_empty_iff q (x ∷ xs) v = ground (arith, v.chain)

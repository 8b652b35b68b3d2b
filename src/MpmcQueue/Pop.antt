-- ===== src/MpmcQueue/Pop.antt =====
-- A pop takes the first item that waits, and clears claimed ones away.
use cothread.Prelude.{
  ℕ, zero, suc, ◌<◌, ◌≡◌, refl, ap, subst, ◌∙◌, inl, inr, Bool, true, false, none, some, List, [],
  ◌∷◌, arith, ◌==◌, if◌then◌else◌, Bool-cases, length, take, drop, update,
}
use cothread.MpmcQueue.{
  MpmcQueue, points_to, claim, Popped, got, drained, unlink_last, pop_from_head,
  pop_multiple_from_head, remove,
}
use cothread.MpmcQueue.Deque.{HoldsIn, live, Links, Holds, live-update}

-- What a pop does when these items wait, in a queue of at most n linked items.
abbrev pub Pops : ℕ → List ℕ → Popped → Type 0
Pops n [] r = (q : MpmcQueue) × (r ≡ drained q) × HoldsIn n q []
Pops n (w ∷ ws) r = (q : MpmcQueue) × (r ≡ got w q) × HoldsIn n q ws

Pops-weaken : (n : ℕ) (ws : List ℕ) (r : Popped) → Pops n ws r → Pops (suc n) ws r
Pops-weaken n [] r (q, e, v) = (q, e, (v.0, omega (arith, v.1)))
Pops-weaken n (w ∷ ws) r (q, e, v) = (q, e, (v.0, omega (arith, v.1)))

points_to_self : (x : ℕ) → points_to x (some x) ≡ true
points_to_self x = ground arith

-- The rounds of the loop, case by case.
module _ (fuel : ℕ) (q : MpmcQueue) where
  round_empty : q.head ≡ none → q.tail ≡ none → pop_from_head (suc fuel) q ≡ drained q
  unfolding pop_from_head
  round_empty h t = ground arith

  module _ (x : ℕ) (h : q.head ≡ some x) where
    skip_more :
        (n : ℕ)
        → q.claimed x ≡ true
        → q.next x ≡ some n
        → pop_from_head (suc fuel) q ≡ pop_from_head fuel (record q { head = some n })
    unfolding pop_from_head
    skip_more n c e = ground arith

    skip_last :
        q.claimed x ≡ true
        → q.next x ≡ none
        → points_to x q.tail ≡ true
        → pop_from_head (suc fuel) q ≡ pop_from_head fuel (unlink_last x q)
    unfolding pop_from_head
    skip_last c e t = ground arith

    take_more :
        (n : ℕ)
        → q.claimed x ≡ false
        → q.next x ≡ some n
        → pop_from_head (suc fuel) q ≡ got x (record (claim x q) { head = some n })
    unfolding pop_from_head
    take_more n c e = ground arith

    take_last :
        q.claimed x ≡ false
        → q.next x ≡ none
        → pop_from_head (suc fuel) q ≡ got x (unlink_last x (claim x q))
    unfolding pop_from_head
    take_last c e = ground arith

tail_cleared : (x : ℕ) (q : MpmcQueue) → q.tail ≡ some x → (unlink_last x q).tail ≡ none
unfolding unlink_last
tail_cleared x q e = ground arith

no_items : (x : ℕ) (q : MpmcQueue) → q.tail ≡ some x → Links (unlink_last x q) []
unfolding unlink_last
no_items x q e = record { chain = refl; ends = tail_cleared x q e; distinct = tt }

pop_items :
    (fuel : ℕ) (q : MpmcQueue) (xs : List ℕ)
    → length xs < fuel
    → Links q xs
    → Pops (length xs) (live q.claimed xs) (pop_from_head fuel q)
unfolding claim unlink_last
pop_items zero q xs f k = absurd (omega arith)
pop_items (suc fuel) q [] f k = (
  q,
  round_empty fuel q k.chain k.ends,
  (record { items = []; links = k; waiting = refl }, omega arith),
)
pop_items (suc fuel) q (x ∷ []) f k = elim (Bool-cases (q.claimed x)) [
  | inl out ↦
      let ends : points_to x q.tail ≡ true = rw (k.ends) (points_to_self x) in
      let ih = pop_items fuel (unlink_last x q) [] (omega arith) (no_items x q k.ends) in
      rw (out, skip_last fuel q x k.chain.0 out k.chain.1 ends) (Pops-weaken 0 [] _ ih)
  | inr in' ↦ rw in' (
    unlink_last x (claim x q),
    take_last fuel q x k.chain.0 in' k.chain.1,
    (record { items = []; links = no_items x (claim x q) k.ends; waiting = refl }, omega arith),
  )
]
pop_items (suc fuel) q (x ∷ y ∷ xs) f k = elim (Bool-cases (q.claimed x)) [
  | inl out ↦
      let ih =
        pop_items fuel (record q { head = some y }) (y ∷ xs) (omega arith)
          (record { chain = (refl, k.chain.1.1); ends = k.ends; distinct = k.distinct.1 }) in
      rw (out, skip_more fuel q x k.chain.0 y out k.chain.1.0)
        (Pops-weaken (suc (length xs)) (live q.claimed (y ∷ xs)) _ ih)
  | inr in' ↦ rw in' (
    record (claim x q) { head = some y },
    take_more fuel q x k.chain.0 y in' k.chain.1.0,
    (
      record {
        items = y ∷ xs;
        links = record { chain = (refl, k.chain.1.1); ends = k.ends; distinct = k.distinct.1 };
        waiting = live-update q.claimed x true (y ∷ xs) k.distinct.0;
      },
      omega arith,
    ),
  )
]

-- With no push under way a pop never spins: it takes the item that waits first, past any number of
-- claimed ones, or clears the queue when none waits. The fuel exceeds the number of linked items.
pop_from_head-Pops :
    (fuel : ℕ) (q : MpmcQueue) (ws : List ℕ) (v : Holds q ws)
    → length v.items < fuel
    → Pops (length v.items) ws (pop_from_head fuel q)
pop_from_head-Pops fuel q ws v f =
    subst (λ l. Pops (length v.items) l (pop_from_head fuel q)) v.waiting
      (pop_items fuel q v.items f v.links)

-- A batch of pops takes the first `k` items that wait, in order, or all there are.
pub pop_multiple_from_head-takes :
    (fuel k : ℕ) (q : MpmcQueue) (ws : List ℕ) (n : ℕ)
    → n < fuel
    → HoldsIn n q ws
    → (after : MpmcQueue) × (pop_multiple_from_head fuel k q ≡ some (take k ws, after))
      × HoldsIn n after (drop k ws)
unfolding pop_multiple_from_head
pop_multiple_from_head-takes fuel zero q ws n f v = (q, refl, v)
pop_multiple_from_head-takes fuel (suc k) q [] n f v =
    let (r, e, w) = pop_from_head-Pops fuel q [] v.0 (omega (arith, v.1)) in
    (r, rw (e, pop_multiple_from_head), (w.0, omega (arith, v.1, w.1)))
pop_multiple_from_head-takes fuel (suc k) q (x ∷ ws) n f v =
    let (r, e, w) = pop_from_head-Pops fuel q (x ∷ ws) v.0 (omega (arith, v.1)) in
    let (after, e', w') =
      pop_multiple_from_head-takes fuel k r ws n f (w.0, omega (arith, v.1, w.1)) in
    (after, rw (e, pop_multiple_from_head, e'), w')

-- The list without an item.
abbrev pub without : ℕ → List ℕ → List ℕ
without z [] = []
without z (x ∷ xs) = if x == z then without z xs else x ∷ without z xs

live-claim :
    (claimed : ℕ → Bool) (item : ℕ) (xs : List ℕ)
    → live (update claimed item true) xs ≡ without item (live claimed xs)
live-claim claimed item [] = refl
live-claim claimed item (x ∷ xs) = ground (arith, live-claim claimed item xs)

-- A waiter that is removed waits no longer, and the others as before; a removal of one whose mark is
-- not set changes nothing.
pub remove-Holds :
    (q : MpmcQueue) (ws : List ℕ) (item : ℕ) (waiting : Bool)
    → Holds q ws
    → ((remove waiting item q).0 ≡ false)
      × Holds (remove waiting item q).1 (if waiting then without item ws else ws)
unfolding remove claim
remove-Holds q ws item false v = (refl, v)
remove-Holds q ws item true v = (
  refl,
  record {
    items = v.items;
    links = record { chain = v.links.chain; ends = v.links.ends; distinct = v.links.distinct };
    waiting = live-claim q.claimed item v.items ∙ ap (without item) v.waiting;
  },
)

-- ===== src/MpmcQueue/Deque.antt =====
-- The queue as a list of items, some of them claimed: the others are the ones that wait.
use cothread.Prelude.{
  ℕ, suc, ◌≤◌, ◌≡◌, refl, ap, ◌∙◌, inl, inr, Bool, true, false, none, some, List, [], ◌∷◌, ◌++◌,
  arith, if◌then◌else◌, Bool-cases, length, length-append, Fresh, Distinct, update, update_self,
  Chain, Chain-update,
}
use cothread.MpscQueue.Fifo.{last_of, Ends, last_of-append, Chain-append, Distinct-append}
use cothread.MpmcQueue.{MpmcQueue, take_tail, link_tail, add_to_tail, add_to_head}

-- The items that are not claimed.
abbrev pub live : (ℕ → Bool) → List ℕ → List ℕ
live claimed [] = []
live claimed (x ∷ xs) = if claimed x then live claimed xs else x ∷ live claimed xs

-- The items linked in the queue.
pub record Links (q : MpmcQueue) (xs : List ℕ) : Type 0 where
  pub chain : Chain q.next q.head xs
  pub ends : Ends q.tail xs
  pub distinct : Distinct xs

-- These items wait, the first one to be popped first.
pub record Holds (q : MpmcQueue) (ws : List ℕ) : Type 0 where
  pub items : List ℕ
  pub links : Links q items
  pub waiting : live q.claimed items ≡ ws

-- These items wait, in a queue of at most n linked items.
abbrev pub HoldsIn : ℕ → MpmcQueue → List ℕ → Type 0
HoldsIn n q ws = (v : Holds q ws) × (length v.items ≤ n)

pub live-update :
    (claimed : ℕ → Bool) (item : ℕ) (b : Bool) (xs : List ℕ)
    → Fresh item xs
    → live (update claimed item b) xs ≡ live claimed xs
live-update claimed item b [] f = refl
live-update claimed item b (x ∷ xs) f = ground (arith, live-update claimed item b xs f.1)

live-append :
    (claimed : ℕ → Bool) (xs : List ℕ) (item : ℕ)
    → claimed item ≡ false
    → live claimed (xs ++ item ∷ []) ≡ live claimed xs ++ item ∷ []
live-append claimed [] item h = ground arith
live-append claimed (x ∷ xs) item h = elim (Bool-cases (claimed x)) [
  | inl out ↦ rw out (live-append claimed xs item h)
  | inr in' ↦ rw in' (ap (◌∷◌ x) (live-append claimed xs item h))
]

-- A claimed item at the end leaves the others as they wait.
live-claimed :
    (claimed : ℕ → Bool) (item : ℕ) (xs : List ℕ)
    → Fresh item xs
    → live (update claimed item true) (item ∷ xs) ≡ live claimed xs
live-claimed claimed item xs f =
    rw (update_self claimed item true) (live-update claimed item true xs f)

add_first :
    (q : MpmcQueue) (item : ℕ)
    → q.head ≡ none
    → q.tail ≡ none
    → add_to_tail true true item q ≡ record (take_tail item q) { head = some item }
unfolding add_to_tail take_tail link_tail
add_first q item h e = ground arith

add_later :
    (q : MpmcQueue) (item l : ℕ)
    → q.tail ≡ some l
    → add_to_tail true true item q
      ≡ record (take_tail item q) { next = update (update q.next item none) l (some item) }
unfolding add_to_tail take_tail link_tail
add_later q item l e = ground arith

-- An item put at the end, when it is not linked already, waits behind the others.
pub add_to_tail-appends :
    (q : MpmcQueue) (ws : List ℕ) (v : Holds q ws) (item : ℕ)
    → Fresh item v.items
    → HoldsIn (suc (length v.items)) (add_to_tail true true item q) (ws ++ item ∷ [])
unfolding take_tail
add_to_tail-appends q ws v item f = append v.items v.links v.waiting f
  where
    append :
        (xs : List ℕ)
        → Links q xs
        → live q.claimed xs ≡ ws
        → Fresh item xs
        → HoldsIn (suc (length xs)) (add_to_tail true true item q) (ws ++ item ∷ [])
    append [] k e g = rw (add_first q item k.chain k.ends) (
      record {
        items = item ∷ [];
        links = record {
          chain = (refl, update_self q.next item none);
          ends = refl;
          distinct = (tt, tt);
        };
        waiting = rw (update_self q.claimed item false) (ap (λ l. l ++ item ∷ []) e);
      },
      omega arith,
    )
    append (x ∷ xs) k e g = rw (add_later q item (last_of x xs) k.ends) (
      record {
        items = x ∷ xs ++ item ∷ [];
        links = record {
          chain = rw (k.chain.0) (
              Chain-append (update q.next item none) x xs item k.distinct g
                (update_self q.next item none)
                (Chain-update q.next (some x) item none (x ∷ xs) g (refl, k.chain.1)));
          ends = rw (last_of-append x xs item);
          distinct = Distinct-append (x ∷ xs) item k.distinct g;
        };
        waiting =
            live-append (update q.claimed item false) (x ∷ xs) item
              (update_self q.claimed item false)
            ∙ ap (λ l. l ++ item ∷ []) (live-update q.claimed item false (x ∷ xs) g ∙ e);
      },
      omega (arith, length-append xs (item ∷ [])),
    )

-- An item put in front, when it is neither linked nor claimed, is the next one to be popped.
pub add_to_head-leads :
    (q : MpmcQueue) (ws : List ℕ) (v : Holds q ws) (direct : Bool) (item : ℕ)
    → Fresh item v.items
    → q.claimed item ≡ false
    → HoldsIn (suc (length v.items)) (add_to_head true true direct item q) (item ∷ ws)
unfolding add_to_head
add_to_head-leads q ws v direct item f c = prepend v.items v.links v.waiting f
  where
    prepend :
        (xs : List ℕ)
        → Links q xs
        → live q.claimed xs ≡ ws
        → Fresh item xs
        → HoldsIn (suc (length xs)) (add_to_head true true direct item q) (item ∷ ws)
    prepend [] k e g =
        rw (k.chain, k.ends, add_to_head)
          (
            record {
              items = item ∷ [];
              links = record {
                chain = (refl, rw (k.chain) (update_self q.next item none));
                ends = refl;
                distinct = (tt, tt);
              };
              waiting = rw c (ap (◌∷◌ item) e);
            },
            omega arith,
          )
    prepend (x ∷ xs) k e g =
        rw (k.chain.0, add_to_head)
          (
            record {
              items = item ∷ x ∷ xs;
              links = record {
                chain = (
                  refl,
                  (
                    update_self q.next item q.head ∙ k.chain.0,
                    (Chain-update q.next (some x) item q.head (x ∷ xs) g (refl, k.chain.1)).1,
                  ),
                );
                ends = k.ends;
                distinct = (g, k.distinct);
              };
              waiting = rw c (ap (◌∷◌ item) e);
            },
            omega arith,
          )

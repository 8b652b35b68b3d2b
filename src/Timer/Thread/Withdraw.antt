-- ===== src/Timer/Thread/Withdraw.antt =====
-- A timer that is scheduled and then cancelled.
use cothread.Prelude.{
  ℕ, ◌+◌, ◌^◌, ◌<◌, ◌≡◌, refl, sym, ap, ◌∙◌, ◌≢◌, inl, inr, Bool, true, some, arith, ◌==◌,
  if◌then◌else◌, eq→==, ==→eq, ==→ne, Bool-cases, tally,
}
use cothread.Timer.Thread.{TimerThread, Delay, new_entry, scheduled, schedule, cancel}
use cothread.Timer.Thread.Books.{has_id, armed, armed-le}
use cothread.Timer.Thread.Invariant.{
  AllWatched, turn, added, schedule-Adds, Cancels, missed, hit, cancel-Cancels,
}

-- Of the timers with the id none is armed in any shard.
abbrev pub Disarmed : ℕ → TimerThread → Type 0
Disarmed id t = (j : ℕ) → j < t.worker_count → tally (armed id) (t.heaps j) ≡ 0

cancels_it :
    (k id i : ℕ) (t : TimerThread) (r : Bool × TimerThread)
    → i < k
    → k ≡ t.worker_count
    → tally (has_id id) (t.heaps i) ≡ 1
    → ((j : ℕ) → j < k → j ≢ i → tally (has_id id) (t.heaps j) ≡ 0)
    → Cancels k 0 id t r
    → (r.0 ≡ true) × Disarmed id r.1
cancels_it k id i t _ h w one none_else (missed g) =
    absurd (omega (arith, g i (omega arith) (omega arith), one))
cancels_it k id i t _ h w one none_else (hit m after a b lt size same) =
    let at : m ≡ i = elim (Bool-cases (m == i)) [
      | inl here ↦ ==→eq m i here
      | inr there ↦ absurd (omega (arith, lt, none_else m (omega arith) (==→ne m i there)))
    ] in
    (
      refl,
      λ j l. elim (Bool-cases (m == j)) [
        | inl here ↦
            let sole : tally (has_id id) (t.heaps m) ≡ 1 =
              ap (λ x. tally (has_id id) (t.heaps x)) at ∙ one in
            rw here (omega (arith, lt, sole))
        | inr there ↦ rw there (
            omega (
              arith,
              armed-le id (t.heaps j),
              none_else j (omega arith) (λ e. ==→ne m j there (at ∙ sym e)),
            ))
      ],
    )

id-added :
    (now callback arg : ℕ) (d : Delay) (t : TimerThread)
    → (added now callback arg d t).id ≡ t.next_id
unfolding new_entry
id-added now callback arg d t = refl

armed-added :
    (now callback arg : ℕ) (d : Delay) (t : TimerThread)
    → armed t.next_id (added now callback arg d t) ≡ true
unfolding new_entry
armed-added now callback arg d t = rw (eq→== t.next_id t.next_id refl) refl

-- A timer that Schedule puts into a shard is armed there under the id that is returned; Cancel with this id,
-- which no other timer has, leaves none armed.
pub schedule-cancel :
    (now callback arg : ℕ) (d : Delay) (t : TimerThread)
    → 0 < t.worker_count
    → t.shard_assign < 2 ^ 31
    → AllWatched t
    → ((j : ℕ) → j < t.worker_count → tally (has_id t.next_id) (t.heaps j) ≡ 0)
    → (after : TimerThread) × (schedule now callback arg (some d) t ≡ scheduled t.next_id after)
      × (tally (armed t.next_id) (after.heaps (turn t)) ≡ 1)
      × ((cancel t.next_id after).0 ≡ true)
      × Disarmed t.next_id (cancel t.next_id after).1
schedule-cancel now callback arg d t pos sign v fresh =
    let a = schedule-Adds now callback arg d t pos sign v in
    let inside : turn t < t.worker_count = omega arith in
    let here = fresh (turn t) inside in
    let same = eq→== (added now callback arg d t).id t.next_id (id-added now callback arg d t) in
    let grown : tally (has_id t.next_id) (a.after.heaps (turn t)) ≡ 1 =
      a.joins (has_id t.next_id)
      ∙ ap (λ b. tally (has_id t.next_id) (t.heaps (turn t)) + (if b then 1 else 0)) same
      ∙ ap (λ n. n + 1) here in
    let is_armed : tally (armed t.next_id) (a.after.heaps (turn t)) ≡ 1 =
      a.joins (armed t.next_id)
      ∙ ap (λ b. tally (armed t.next_id) (t.heaps (turn t)) + (if b then 1 else 0))
          (armed-added now callback arg d t)
      ∙ omega (arith, armed-le t.next_id (t.heaps (turn t)), here) in
    let (found, disarmed) =
      cancels_it a.after.worker_count t.next_id (turn t) a.after (cancel t.next_id a.after)
        (omega (arith, a.shards)) refl grown
        (λ j l e. ap (tally (has_id t.next_id)) (a.others j e) ∙ fresh j (omega (arith, a.shards)))
        (cancel-Cancels t.next_id a.after (omega (arith, a.shards)) a.watched).0 in
    (a.after, a.returns, is_armed, found, disarmed)

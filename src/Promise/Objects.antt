-- ===== src/Promise/Objects.antt =====
-- The objects of type Task<T> or SafeTask<T>, include/coro/coroutine.h, that own frames: an object is its
-- address with its handle_, and a live frame is one that was created and not destroyed.
use cothread.Prelude.{
  ℕ, ◌≡◌, refl, ap, fun_ext, ◌≢◌, inl, inr, Bool, true, false, Option, none, some, arith,
  ℕ_discrete, ◌==◌, if◌then◌else◌, Option-cases, update,
}

pub record Objects : Type 0 where
  pub handles : ℕ → Option ℕ
  pub alive : ℕ → Bool

-- `handle_.destroy()` where the handle is not null; none is a frame destroyed twice.
unfoldable pub destroy : Option ℕ → Objects → Option Objects
destroy none o = some o
destroy (some h) o = if o.alive h then some (record o { alive = update o.alive h false }) else none

-- `get_return_object`, for a frame that the compiler made at the address `h`.
unfoldable pub get_return_object : ℕ → ℕ → Objects → Objects
get_return_object i h o = record {
  handles = update o.handles i (some h);
  alive = update o.alive h true;
}

-- The move constructor, of the object `i` from `j`.
unfoldable pub move_construct : ℕ → ℕ → Objects → Objects
move_construct i j o = record o { handles = update (update o.handles i (o.handles j)) j none }

-- The move assignment, to the object `i` from `j`.
unfoldable pub move_assign : ℕ → ℕ → Objects → Option Objects
move_assign i j o =
    if i == j
    then some o
    else elim (destroy (o.handles i) o) [ none ↦ none | some o' ↦ some (move_construct i j o') ]

-- The destructor; the object's storage may be used again.
unfoldable pub destruct : ℕ → Objects → Option Objects
destruct i o = elim (destroy (o.handles i) o) [
  | none ↦ none
  | some o' ↦ some (record o' { handles = update o'.handles i none })
]

unfoldable pub release : ℕ → Objects → Objects
release i o = record o { handles = update o.handles i none }

-- What a program does with its task objects.
pub data Op : Type 0 where
  starts : ℕ → ℕ → Op
  constructs : ℕ → ℕ → Op
  assigns : ℕ → ℕ → Op
  destructs : ℕ → Op

unfoldable pub apply : Op → Objects → Option Objects
apply (starts i h) o = some (get_return_object i h o)
apply (constructs i j) o = some (move_construct i j o)
apply (assigns i j) o = move_assign i j o
apply (destructs i) o = destruct i o

-- What the language asks: a new object has storage of its own, and a new frame an address of its own.
abbrev pub Allowed : Op → Objects → Type 0
Allowed (starts i h) o = (o.handles i ≡ none) × (o.alive h ≡ false)
Allowed (constructs i j) o = (o.handles i ≡ none) × (i ≢ j)
Allowed (assigns i j) o = Unit
Allowed (destructs i) o = Unit

-- Every handle is that of a live frame, no two objects have the same one, and each live frame has an
-- object that owns it.
pub record Owned (o : Objects) : Type 0 where
  pub live : (i h : ℕ) → o.handles i ≡ some h → o.alive h ≡ true
  pub unique : (i j h : ℕ) → o.handles i ≡ some h → o.handles j ≡ some h → i ≡ j
  pub reached : (h : ℕ) → o.alive h ≡ true → (i : ℕ) × (o.handles i ≡ some h)

get_return_object-Owned :
    (i h : ℕ) (o : Objects)
    → Owned o
    → o.handles i ≡ none
    → o.alive h ≡ false
    → Owned (get_return_object i h o)
unfolding get_return_object
get_return_object-Owned i h o v e f = record {
  live = λ k g p. ground (arith, v.live k g);
  unique = λ k l g p q. ground (arith, v.unique k l g, v.live k g, v.live l g);
  reached = λ g a. elim (ℕ_discrete h g) [
    | yes same ↦ (i, ground (arith, same))
    | no ne ↦ let (k, p) = v.reached g (ground (arith, ne)) in (k, ground (arith, p, e))
  ];
}

move_construct-Owned :
    (i j : ℕ) (o : Objects) → Owned o → o.handles i ≡ none → i ≢ j → Owned (move_construct i j o)
unfolding move_construct
move_construct-Owned i j o v e ne = record {
  live = λ k g p. ground (arith, v.live k g, v.live j g);
  unique = λ k l g p q.
      ground (arith, v.unique k l g, v.unique j l g, v.unique k j g, v.live k g, v.live l g);
  reached = λ g a.
      let (k, p) = v.reached g a in
      elim (ℕ_discrete k j) [
        | yes same ↦ (i, ground (arith, p, same, ne))
        | no other ↦ (k, ground (arith, p, e, other))
      ];
}

destruct-Owned :
    (i : ℕ) (handle : Option ℕ) (o : Objects)
    → Owned o
    → o.handles i ≡ handle
    → (after : Objects) × (destruct i o ≡ some after) × Owned after × (after.handles i ≡ none)
unfolding destruct destroy
destruct-Owned i none o v e = (
  record o { handles = update o.handles i none },
  ground arith,
  record {
    live = λ k g p. ground (arith, v.live k g);
    unique = λ k l g p q. ground (arith, v.unique k l g);
    reached = λ g a. let (k, p) = v.reached g a in (k, ground (arith, p, e));
  },
  ground arith,
)
destruct-Owned i (some h) o v e = (
  record { handles = update o.handles i none; alive = update o.alive h false },
  ground (arith, v.live i h),
  record {
    live = λ k g p. ground (arith, v.live k g, v.unique i k h);
    unique = λ k l g p q. ground (arith, v.unique k l g);
    reached = λ g a. let (k, p) = v.reached g (ground arith) in (k, ground (arith, p, e));
  },
  ground arith,
)

-- The handle that the object had makes no difference to a move into it.
move_construct_over :
    (i j : ℕ) (o : Objects)
    → i ≢ j
    → move_construct i j (record o { handles = update o.handles i none }) ≡ move_construct i j o
unfolding move_construct
move_construct_over i j o ne =
    ap (λ (f : ℕ → Option ℕ). let r : Objects = record { handles = f; alive = o.alive } in r)
      (fun_ext (λ k. ground (arith, ne)))

move_assign_lem :
    (i j : ℕ) (o after : Objects)
    → i ≢ j
    → destruct i o ≡ some after
    → move_assign i j o ≡ some (move_construct i j after)
unfolding move_assign destruct
move_assign_lem i j o after ne e = elim (Option-cases (destroy (o.handles i) o)) [
  | inl failed ↦ ground (arith, failed)
  | inr (o', d) ↦ ground (arith, d, ne, move_construct_over i j o' ne)
]

-- However task objects are made, moved, assigned and destroyed, no frame is destroyed twice and none is
-- lost: where each live frame is owned by exactly one object and each handle is that of a live frame,
-- an operation that the language allows succeeds, and leaves this so.
pub apply-Owned :
    (op : Op) (o : Objects)
    → Owned o
    → Allowed op o
    → (after : Objects) × (apply op o ≡ some after) × Owned after
unfolding apply
apply-Owned (starts i h) o v a =
    (get_return_object i h o, refl, get_return_object-Owned i h o v a.0 a.1)
apply-Owned (constructs i j) o v a =
    (move_construct i j o, refl, move_construct-Owned i j o v a.0 a.1)
apply-Owned (assigns i j) o v a = elim (ℕ_discrete i j) [
  | yes same ↦ (o, unfold move_assign in ground (arith, same), v)
  | no ne ↦
      let (after, d, w, e) = destruct-Owned i (o.handles i) o v refl in
      (
        move_construct i j after,
        move_assign_lem i j o after ne d,
        move_construct-Owned i j after w e ne,
      )
]
apply-Owned (destructs i) o v a =
    let (after, d, w, e) = destruct-Owned i (o.handles i) o v refl in (after, d, w)

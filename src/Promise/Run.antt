-- ===== src/Promise/Run.antt =====
-- What a run of a coroutine does to its frame, to the coroutine that awaits it, and to their metas.
use cothread.Prelude.{
  ℕ, suc, ◌≡◌, refl, ap, ◌∙◌, ◌≢◌, inl, inr, true, false, Option, none, some, List, [], ◌∷◌, arith,
  Option-cases, Fresh, update,
}
use cothread.Task.{TaskState}
use cothread.Coroutines.{CoroutineMeta}
use cothread.Promise.{
  Promise, Frame, Frames, is_done, got, or_else, final_suspend, Machine, Act, back, faults,
  destroy_all, finish, resume, put_state, after_resume, then_run, run_coroutine,
}

pub destroy_all-Fresh :
    {R : Type 0} (h : ℕ) (hs : List ℕ) (frames : Frames R)
    → Fresh h hs
    → destroy_all hs frames h ≡ frames h
destroy_all-Fresh h [] frames f = refl
destroy_all-Fresh h (x ∷ hs) frames f =
    destroy_all-Fresh h hs (update frames x none) f.1 ∙ ground (arith, f.0)

pub destroy_all_gone :
    {R : Type 0} (h : ℕ) (hs : List ℕ) (frames : Frames R)
    → frames h ≡ none
    → destroy_all hs frames h ≡ none
destroy_all_gone h [] frames e = e
destroy_all_gone h (x ∷ hs) frames e =
    destroy_all_gone h hs (update frames x none) (ground (arith, e))

-- The thread after a body ran, before its coroutine ends or suspends.
abbrev pub ran : {R : Type 0} → Act R → Machine R → Machine R
ran a m = record m { frames = destroy_all a.destroys m.frames; metas = a.writes m.metas }

pub resume_suspends :
    {R : Type 0} (n h : ℕ) (act : ℕ → Option ℕ → Act R) (m : Machine R)
    → (act h m.current).ends ≡ none
    → resume (suc n) act h m ≡ back (ran (act h m.current) m)
unfolding resume
resume_suspends n h act m e = rw (e, resume) refl

pub resume_ends :
    {R : Type 0} (n h : ℕ) (r : R) (f : Frame R) (act : ℕ → Option ℕ → Act R) (m : Machine R)
    → (act h m.current).ends ≡ some r
    → destroy_all (act h m.current).destroys m.frames h ≡ some f
    → (final_suspend f.promise m.current).0 ≡ none
    → resume (suc n) act h m ≡ back (finish h r f (ran (act h m.current) m))
unfolding resume
resume_ends n h r f act m e p a = rw (e, resume) (rw (p, resume) (rw (a, resume) refl))

-- The end of a coroutine that is awaited: its awaiter goes on.
resume_hands_over :
    {R : Type 0} (n h o : ℕ) (r : R) (f : Frame R) (act : ℕ → Option ℕ → Act R) (m : Machine R)
    → (act h m.current).ends ≡ some r
    → destroy_all (act h m.current).destroys m.frames h ≡ some f
    → (final_suspend f.promise m.current).0 ≡ some o
    → resume (suc n) act h m ≡ resume n act o (finish h r f (ran (act h m.current) m))
unfolding resume
resume_hands_over n h o r f act m e p a = rw (e, resume) (rw (p, resume) (rw (a, resume) refl))

awaited :
    {R : Type 0} (p : Promise R) (current : Option ℕ) (o : ℕ)
    → p.awaiter ≡ some o
    → final_suspend p current ≡ (some o, or_else p.awaiter_meta current)
unfolding final_suspend
awaited p current o e = rw (e, final_suspend) refl

pub alone :
    {R : Type 0} (p : Promise R) (current : Option ℕ)
    → p.awaiter ≡ none
    → final_suspend p current ≡ (none, current)
unfolding final_suspend
alone p current e = rw (e, final_suspend) refl

abbrev pub started : {R : Type 0} → ℕ → Machine R → Machine R
started meta m = record m { current = some meta; metas = put_state meta TaskState.running m.metas }

run_lem :
    {R : Type 0} (fuel meta h : ℕ) (f : Frame R) (act : ℕ → Option ℕ → Act R) (m : Machine R)
    → m.frames h ≡ some f
    → f.done ≡ false
    → run_coroutine fuel act meta (some h) m
      ≡ then_run (resume fuel act h (started meta m)) (after_resume meta h)
unfolding run_coroutine
run_lem fuel meta h f act m e d = rw (e, run_coroutine) (rw (d, run_coroutine) refl)

pub after_resume_done :
    {R : Type 0} (meta h : ℕ) (f : Frame R) (m : Machine R)
    → m.frames h ≡ some f
    → f.done ≡ true
    → after_resume meta h m
      ≡ back (record m { current = none; metas = put_state meta TaskState.finished m.metas })
unfolding after_resume
after_resume_done meta h f m e d = rw (e, after_resume) (rw (d, after_resume) refl)

pub after_resume_gone :
    {R : Type 0} (meta h : ℕ) (m : Machine R) → m.frames h ≡ none → after_resume meta h m ≡ faults
unfolding after_resume
after_resume_gone meta h m e = rw (e, after_resume) refl

-- The frame `h` of the meta `meta` has not ended and is awaited by the frame `o`, whose meta is `om`; its
-- body is about to end with the outcome `r` and destroys neither of the two.
pub record Awaited {R : Type 0} (meta h o om : ℕ) (r : R) (act : ℕ → Option ℕ → Act R)
    (m : Machine R) : Type 0 where
  pub inner : Frame R
  pub outer : Frame R
  pub at_inner : m.frames h ≡ some inner
  pub at_outer : m.frames o ≡ some outer
  pub running : inner.done ≡ false
  pub awaiter : inner.promise.awaiter ≡ some o
  pub awaiter_meta : inner.promise.awaiter_meta ≡ some om
  pub apart : h ≢ o
  pub ends : (act h (some meta)).ends ≡ some r
  pub keeps_inner : Fresh h (act h (some meta)).destroys
  pub keeps_outer : Fresh o (act h (some meta)).destroys

-- The thread when the awaiter goes on.
abbrev pub handed :
    {R : Type 0} → ℕ → ℕ → ℕ → R → Frame R → (ℕ → Option ℕ → Act R) → Machine R → Machine R
handed meta h om r inner act m = record {
  frames =
      update (destroy_all (act h (some meta)).destroys m.frames) h
        (some (record { done = true; promise = record inner.promise { outcome = r } }));
  metas = (act h (some meta)).writes (put_state meta TaskState.running m.metas);
  current = some om;
  submitted = m.submitted;
}

-- A meta that is not finished.
abbrev pub Unfinished : ℕ → (ℕ → Option CoroutineMeta) → Type 0
Unfinished i metas = (c : CoroutineMeta) → metas i ≡ some c → c.state ≢ TaskState.finished

pub put_state-Unfinished :
    (i j : ℕ) (s : TaskState) (metas : ℕ → Option CoroutineMeta)
    → i ≢ j
    → Unfinished j metas
    → Unfinished j (put_state i s metas)
unfolding put_state
put_state-Unfinished i j s metas ne u = elim (Option-cases (metas i)) [
  | inl e ↦ rw (e, put_state) u
  | inr (c, e) ↦ rw (e, put_state) (λ d p. u d (ground (arith, p, ne)))
]

pub is_done_lem :
    {R : Type 0} (h : ℕ) (f : Frame R) (frames : Frames R)
    → frames h ≡ some f
    → is_done (some h) frames ≡ got f.done
unfolding is_done
is_done_lem h f frames e = rw (e, is_done) refl

module _ {R : Type 0} (n meta h o om : ℕ) (r : R) (act : ℕ → Option ℕ → Act R) (m : Machine R)
    (w : Awaited meta h o om r act m) where
  hands_over :
      resume (suc n) act h (started meta m) ≡ resume n act o (handed meta h om r w.inner act m)
  hands_over =
      let there =
        destroy_all-Fresh h (act h (some meta)).destroys m.frames w.keeps_inner ∙ w.at_inner in
      let next = awaited w.inner.promise (some meta) o w.awaiter in
      resume_hands_over n h o r w.inner act (started meta m) w.ends there (ap (λ x. x.0) next)
      ∙ ap (λ c. resume n act o (record (handed meta h om r w.inner act m) { current = c }))
          (ap (λ x. x.1) next ∙ ap (λ x. or_else x (some meta)) w.awaiter_meta)

  pub run_hands_over :
      run_coroutine (suc n) act meta (some h) m
      ≡ then_run (resume n act o (handed meta h om r w.inner act m)) (after_resume meta h)
  run_hands_over =
      run_lem (suc n) meta h w.inner act m w.at_inner w.running
      ∙ ap (λ x. then_run x (after_resume meta h)) hands_over

  -- What the awaiter finds: its own frame, and that of the coroutine that it awaited, which ended.
  pub at_outer_handed : (handed meta h om r w.inner act m).frames o ≡ some w.outer
  at_outer_handed = ground (
    arith,
    w.apart,
    destroy_all-Fresh o (act h (some meta)).destroys m.frames w.keeps_outer,
    w.at_outer,
  )

  pub at_inner_handed :
      (handed meta h om r w.inner act m).frames h
      ≡ some (record { done = true; promise = record w.inner.promise { outcome = r } })
  at_inner_handed = ground arith

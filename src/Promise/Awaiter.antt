-- ===== src/Promise/Awaiter.antt =====
-- A coroutine that ends while another one awaits it: what becomes of both, and of their metas.
use cothread.Prelude.{
  ℕ, suc, ◌≡◌, refl, sym, ap, ◌∙◌, ◌≢◌, inl, inr, true, Option, none, some, List, ◌∷◌, Option-cases,
  Fresh, update, update_self, update_ne,
}
use cothread.Task.{TaskState}
use cothread.Coroutines.{CoroutineMeta}
use cothread.Promise.{
  is_done, got, Machine, Act, back, faults, destroy_all, finish, put_state, resume, after_resume,
  then_run, run_coroutine,
}
use cothread.Promise.Run.{
  destroy_all-Fresh, destroy_all_gone, resume_suspends, resume_ends, alone, after_resume_done,
  after_resume_gone, ran, Awaited, handed, run_hands_over, at_outer_handed, at_inner_handed,
  Unfinished, put_state-Unfinished, is_done_lem,
}

module _ {R : Type 0} (n meta h o om : ℕ) (r : R) (act : ℕ → Option ℕ → Act R) (m : Machine R)
    (w : Awaited meta h o om r act m) where
  abbrev there : Machine R
  there = handed meta h om r w.inner act m

  run_awaiter :
      (a : Machine R)
      → resume (suc n) act o there ≡ back a
      → run_coroutine (suc (suc n)) act meta (some h) m ≡ after_resume meta h a
  run_awaiter a e =
      run_hands_over (suc n) meta h o om r act m w ∙ ap (λ x. then_run x (after_resume meta h)) e

  -- A coroutine that ends while it is awaited hands the worker to its awaiter, which goes on under the
  -- meta that it had when it awaited; when the awaiter suspends again, and keeps the task object, the
  -- run comes back, the frame has ended with its outcome, and its meta is finished.
  pub run_coroutine-resumes_awaiter :
      (act o (some om)).ends ≡ none
      → Fresh h (act o (some om)).destroys
      → (after : Machine R) × (run_coroutine (suc (suc n)) act meta (some h) m ≡ back after)
        × (after.frames h
            ≡ some (record { done = true; promise = record w.inner.promise { outcome = r } }))
        × (after.current ≡ none)
        × (after.metas
            ≡ put_state meta TaskState.finished (
                (act o (some om)).writes
                  ((act h (some meta)).writes (put_state meta TaskState.running m.metas))))
  run_coroutine-resumes_awaiter e keeps =
      let a = ran (act o (some om)) there in
      let same =
        destroy_all-Fresh h (act o (some om)).destroys there.frames keeps
        ∙ at_inner_handed n meta h o om r act m w in
      (
        record a { current = none; metas = put_state meta TaskState.finished a.metas },
        run_awaiter a (resume_suspends n o act there e) ∙ after_resume_done meta h _ a same refl,
        same,
        refl,
        refl,
      )

  -- When the awaiter destroys the task object that it awaited before it suspends or ends, as the end of
  -- the expression `co_await co_spawn(...)` does, the run uses the frame that is gone: RunCoroutine
  -- asks it whether it is done.
  pub run_coroutine-faults :
      (others : List ℕ)
      → (act o (some om)).destroys ≡ h ∷ others
      → Fresh o others
      → w.outer.promise.awaiter ≡ none
      → run_coroutine (suc (suc n)) act meta (some h) m ≡ faults
  run_coroutine-faults others e keeps unawaited =
      let gone : destroy_all (act o (some om)).destroys there.frames h ≡ none =
        ap (λ hs. destroy_all hs there.frames h) e
        ∙ destroy_all_gone h others (update there.frames h none)
            (update_self there.frames h none) in
      let mine : destroy_all (act o (some om)).destroys there.frames o ≡ some w.outer =
        ap (λ hs. destroy_all hs there.frames o) e
        ∙ destroy_all-Fresh o others (update there.frames h none) keeps
        ∙ update_ne there.frames h o none w.apart
        ∙ at_outer_handed n meta h o om r act m w in
      let a = ran (act o (some om)) there in
      elim (Option-cases (act o (some om)).ends) [
        | inl suspends ↦
            run_awaiter a (resume_suspends n o act there suspends) ∙ after_resume_gone meta h a gone
        | inr (r', ends) ↦
            let b = finish o r' w.outer a in
            run_awaiter b (
              resume_ends n o r' w.outer act there ends mine
                (ap (λ x. x.0) (alone w.outer.promise (some om) unawaited)))
            ∙ after_resume_gone meta h b (update_ne a.frames o h _ (λ q. w.apart (sym q)) ∙ gone)
      ]

  -- A coroutine that ends in the run of the one that it awaited is never marked as finished, unless a
  -- body does it: after the run its frame has ended as well as the other one, and its meta is still
  -- unfinished.
  pub run_coroutine-leaves_awaiter :
      (r' : R)
      → (act o (some om)).ends ≡ some r'
      → Fresh h (act o (some om)).destroys
      → Fresh o (act o (some om)).destroys
      → w.outer.promise.awaiter ≡ none
      → meta ≢ om
      → ((k : ℕ) (c : Option ℕ) (metas : ℕ → Option CoroutineMeta)
          → Unfinished om metas
          → Unfinished om ((act k c).writes metas))
      → Unfinished om m.metas
      → (after : Machine R) × (run_coroutine (suc (suc n)) act meta (some h) m ≡ back after)
        × (is_done (some h) after.frames ≡ got true)
        × (is_done (some o) after.frames ≡ got true)
        × Unfinished om after.metas
  run_coroutine-leaves_awaiter r' ends keeps_h keeps_o unawaited ne quiet u =
      let a = ran (act o (some om)) there in
      let b = finish o r' w.outer a in
      let mine =
        destroy_all-Fresh o (act o (some om)).destroys there.frames keeps_o
        ∙ at_outer_handed n meta h o om r act m w in
      let same : b.frames h
          ≡ some (record { done = true; promise = record w.inner.promise { outcome = r } }) =
        update_ne a.frames o h _ (λ q. w.apart (sym q))
        ∙ destroy_all-Fresh h (act o (some om)).destroys there.frames keeps_h
        ∙ at_inner_handed n meta h o om r act m w in
      (
        record b { current = none; metas = put_state meta TaskState.finished b.metas },
        run_awaiter b (
              resume_ends n o r' w.outer act there ends mine
                (ap (λ x. x.0) (alone w.outer.promise (some om) unawaited)))
            ∙ after_resume_done meta h _ b same refl,
        is_done_lem h _ b.frames same,
        is_done_lem o _ b.frames (update_self a.frames o _),
        put_state-Unfinished meta om TaskState.finished b.metas ne (
            quiet o (some om) there.metas (
              quiet h (some meta) (put_state meta TaskState.running m.metas)
                (put_state-Unfinished meta om TaskState.running m.metas ne u))),
      )

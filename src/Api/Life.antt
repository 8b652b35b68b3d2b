-- ===== src/Api/Life.antt =====
-- The life of a bthread: created, run to its end, given up by its worker, joined.
use cothread.Prelude.{
  ℕ, ◌≡◌, refl, sym, ap, ◌∙◌, Option, none, some, List, ◌∷◌, update_self, update_again,
}
use cothread.Task.{TaskMeta}
use cothread.TaskGroup.{TaskGroup, encode_id, decode_id}
use cothread.TaskGroup.Valid.{IsValid}
use cothread.Worker.{Worker, handle_finished_bthread}
use cothread.Api.{Api, created, create, put_meta, joined, join}
use cothread.Api.Create.{put_meta-IsValid, create-Creates}
use cothread.Api.Lifetime.{join-Recycles}
use cothread.Api.Current.{exit_meta, bthread_entry, bthread_entry_lem, handle_finished_more}

-- The group after the task of slot `s`, whose TaskMeta was `m` and whose function returned `value`, ended
-- and was handled by its worker.
abbrev pub over : Option ℕ → ℕ → TaskMeta → Worker → TaskGroup → TaskGroup
over value s m w g = (handle_finished_bthread s (exit_meta value m) w (bthread_entry value s g)).2

over_lem :
    (value : Option ℕ) (s : ℕ) (m : TaskMeta) (w : Worker) (g : TaskGroup)
    → g.task_pool s ≡ some m
    → m.ref_count ≡ 2
    → over value s m w g ≡ put_meta s (record (exit_meta value m) { ref_count = 1 }) g
over_lem value s m w g p r =
    handle_finished_more s (exit_meta value m) w (bthread_entry value s g) r
    ∙ ap (put_meta s (record (exit_meta value m) { ref_count = 1 }))
        (bthread_entry_lem value s m g p)
    ∙ ap (λ f. record g { task_pool = f })
        (update_again g.task_pool s (some (exit_meta value m))
          (some (record (exit_meta value m) { ref_count = 1 })))

-- A task that create made, whose function returned and whose worker gave it up, is joined under the id
-- that create returned: the join gives what the function returned, the slot is free again, and the id
-- is refused from then on.
pub join-gives_result :
    (fn new s butex : ℕ) (arg value : Option ℕ) (free : List ℕ) (a : Api) (w : Worker)
    → IsValid a.group (s ∷ free)
    → let tid = encode_id s (a.group.generations s) in
      (made : Api) × (m : TaskMeta) × (create (some new) (some fn) arg a ≡ created tid made)
      × (made.group.task_pool s ≡ some m)
      × ((after : Api) × (join butex tid (record made { group = over value s m w made.group })
            ≡ joined value after)
          × IsValid after.group (s ∷ free)
          × (decode_id tid after.group ≡ none))
join-gives_result fn new s butex arg value free a w v =
    let c = create-Creates fn new s arg free a v in
    let m = c.meta in
    let (i, j) = c.valid.synced s m c.there in
    let m' = record (exit_meta value m) { ref_count = 1 } in
    let g = put_meta s m' c.after.group in
    let same = over_lem value s m w c.after.group c.there c.starts.2 in
    let gens : c.after.group.generations s ≡ a.group.generations s = sym j ∙ c.starts.3 in
    let (after, e, z) =
      join-Recycles butex s m' free (record c.after { group = g })
        (put_meta-IsValid s m' c.after.group free c.valid i j)
        (update_self c.after.group.task_pool s (some m')) refl refl v.distinct.0 v.bounded.0 in
    (
      c.after,
      m,
      c.returns,
      c.there,
      (
        after,
        ap (λ h. join butex (encode_id s (a.group.generations s)) (record c.after { group = h }))
              same
            ∙ ap (λ n. join butex (encode_id s n) (record c.after { group = g })) (sym gens)
            ∙ e,
        z.valid,
        ap (λ n. decode_id (encode_id s n) after.group) (sym gens) ∙ z.refused_now,
      ),
    )

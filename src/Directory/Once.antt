-- ===== src/Directory/Once.antt =====
-- index/directory_event_handler.py: the summary tasks of a directory.
use rtc_retrieval_token_cutt.Base.{
  ℕ, ◌+◌, ◌-◌, ◌==◌, ◌≤◌, ◌≡◌, refl, sym, ap, ◌∙◌, true, not, ◌&&◌, Option, none, some, List, [],
  ◌∷◌, ◌++◌, Text, text_eq, text_eq_iff, arith, Bool-cases, Option-cases, inl, inr, if◌then◌else◌,
  Result, ok, raised, take,
}
use rtc_retrieval_token_cutt.Nodes.Methods.{Caller}
use rtc_retrieval_token_cutt.VectorIndex.Dict.{get, put, get-put}
use rtc_retrieval_token_cutt.Directory.Summaries.{ChildSummary, DirectorySummary}
use rtc_retrieval_token_cutt.Directory.Records.{
  dir_node_of, directory_records, texts_of, with_embeddings,
}
use rtc_retrieval_token_cutt.Directory.Dag.{
  DirNode, Task, dispatch, file, summary, generate, store, embed, upsert, DagServices, Dag, spawn,
  set_summary, child_ended, on_file_done, on_child_done, count_failed, report, new_dir, file_tasks,
  dir_tasks, first_tasks, register, after_listing, dispatch_dir, parent_of,
}
use rtc_retrieval_token_cutt.Directory.Task.{
  continue_with, after_records, after_write, after_embed, after_upsert, valid_summaries,
  summary_failed, summary_completed, generate_summary_with_fallback, run_task, Next, taken,
  start_dag, Run, stop, more,
}

-- Whether a task makes the summary of the directory.
abbrev pub stage : Text → Task → ℕ
stage u (dispatch d p) = 0
stage u (file p f) = 0
stage u (summary d) = if text_eq d u then 1 else 0
stage u (generate d cs) = if text_eq d u then 1 else 0
stage u (store d r) = if text_eq d u then 1 else 0
stage u (embed d r rs) = if text_eq d u then 1 else 0
stage u (upsert d r rs) = if text_eq d u then 1 else 0

abbrev pub stages : Text → List Task → ℕ
stages u [] = 0
stages u (t ∷ ts) = stage u t + stages u ts

-- A directory whose summary is not scheduled yet.
abbrev pub awaits_summary : Option DirNode → ℕ
awaits_summary none = 1
awaits_summary (some node) = if node.summary_scheduled then 0 else 1

stages-append : (u : Text) (ts us : List Task) → stages u (ts ++ us) ≡ stages u ts + stages u us
stages-append u [] us = omega arith
stages-append u (t ∷ ts) us = omega (arith, stages-append u ts us)

stages-file_tasks :
    (S : DagServices) (u d : Text) (us : List Text) → stages u (file_tasks S d us) ≡ 0
stages-file_tasks S u d [] = refl
stages-file_tasks S u d (v ∷ us) = omega (arith, stages-file_tasks S u d us)

stages-dir_tasks : (S : DagServices) (u d : Text) (us : List Text) → stages u (dir_tasks S d us) ≡ 0
stages-dir_tasks S u d [] = refl
stages-dir_tasks S u d (v ∷ us) = omega (arith, stages-dir_tasks S u d us)

module _ (S : DagServices) (u : Text) where
  -- Summary tasks of the directory, and one more while none is scheduled.
  abbrev load : Dag S → ℕ
  load s = stages u s.tasks + awaits_summary (get u s.nodes)

  first_tasks-load :
      (d : Text) (node : DirNode)
      → node.summary_scheduled ≡ (node.pending == 0)
      → stages u (first_tasks S d node) + (if text_eq d u then awaits_summary (some node) else 0)
        ≤ (if text_eq d u then 1 else 0)
  first_tasks-load d node h =
      let files = stages-file_tasks S u d node.file_children in
      let dirs = stages-dir_tasks S u d node.children_dirs in
      let both =
        stages-append u (file_tasks S d node.file_children) (dir_tasks S d node.children_dirs) in
      elim (Bool-cases (node.pending == 0)) [
        | inl e ↦ ground (arith, e, h)
        | inr e ↦ ground (arith, e, h, files, dirs, both)
      ]

  child_ended-load :
      (d : Text) (m node : DirNode) (s : Dag S)
      → get d s.nodes ≡ some m
      → node.summary_scheduled ≡ m.summary_scheduled
      → load (child_ended S d node s) ≤ load s
  child_ended-load d m node s found same =
      let app = stages-append u s.tasks (summary d ∷ []) in
      let left = node.pending - 1 in
      let there = get-put d u (record node { pending = left; summary_scheduled = true }) s.nodes in
      let kept = get-put d u (record node { pending = left }) s.nodes in
      elim (Bool-cases (text_eq d u)) [
        | inl f ↦
            let here : get u s.nodes ≡ some m =
              ap (λ t. get t s.nodes) (sym ((text_eq_iff d u).0 f)) ∙ found in
            elim (Bool-cases (node.pending == 1 && not node.summary_scheduled)) [
              | inl e ↦ rw e (ground (arith, app, there, f, here, same, e))
              | inr e ↦ rw e (ground (arith, kept, f, here, same))
            ]
        | inr f ↦ elim (Bool-cases (node.pending == 1 && not node.summary_scheduled)) [
          | inl e ↦ rw e (ground (arith, app, there, f))
          | inr e ↦ rw e (ground (arith, kept, f))
        ]
      ]

  on_file_done-load : (d : Text) (s : Dag S) → load (on_file_done S d s) ≤ load s
  unfolding on_file_done
  on_file_done-load d s = elim (Option-cases (get d s.nodes)) [
    | inl e ↦ rw e (omega arith)
    | inr (m, e) ↦ rw e (child_ended-load d m m s e refl)
  ]

  set_summary-scheduled :
      (c : Text) (r : Option ChildSummary) (node : DirNode)
      → (set_summary S c r node).summary_scheduled ≡ node.summary_scheduled
  set_summary-scheduled c r node = elim (Option-cases (get c node.child_index)) [
    | inl e ↦ rw (set_summary, e) refl
    | inr (n, e) ↦ rw (set_summary, e) refl
  ]

  on_child_done-load :
      (d c : Text) (r : Option ChildSummary) (s : Dag S) → load (on_child_done S d c r s) ≤ load s
  unfolding on_child_done
  on_child_done-load d c r s = elim (Option-cases (get d s.nodes)) [
    | inl e ↦ rw e (omega arith)
    | inr (m, e) ↦
        rw e (child_ended-load d m (set_summary S c r m) s e (set_summary-scheduled c r m))
  ]

  report-load :
      (p : Option Text) (c : Text) (r : Option ChildSummary) (s : Dag S)
      → load (report S p c r s) ≤ load s
  report-load none c r s = omega arith
  report-load (some p) c r s = on_child_done-load p c r s

  register-load :
      (d : Text) (node : DirNode) (s : Dag S)
      → get d s.nodes ≡ none
      → node.summary_scheduled ≡ (node.pending == 0)
      → load (register S d node s) ≤ load s
  register-load d node s fresh h =
      let app = stages-append u s.tasks (first_tasks S d node) in
      let there = get-put d u node s.nodes in
      let first = first_tasks-load d node h in
      elim (Bool-cases (text_eq d u)) [
        | inl f ↦
            let here : get u s.nodes ≡ none =
              ap (λ t. get t s.nodes) (sym ((text_eq_iff d u).0 f)) ∙ fresh in
            ground (arith, app, there, first, f, here)
        | inr f ↦ ground (arith, app, there, first, f)
      ]

  dispatch_dir-load :
      (k : ℕ) (d : Text) (p : Option Text) (s : Dag S) → load (dispatch_dir S k d p s) ≤ load s
  unfolding dispatch_dir new_dir
  dispatch_dir-load k d p s = elim (Option-cases (get d s.nodes)) [
    | inl e ↦
        let s₁ : Dag S = record s { parent_map = put d p s.parent_map } in
        rw e (from (S.list_children d s.world) s₁ e)
    | inr (m, e) ↦ rw e (omega arith)
  ]
    where
      from :
          (r : Result (List Text)) (s₁ : Dag S)
          → get d s₁.nodes ≡ none
          → load (after_listing S k d p r s₁) ≤ load s₁
      from (raised x) s₁ e = report-load p d none (count_failed S s₁)
      from (ok cs) s₁ e = register-load d (new_dir S (take k cs)) s₁ e refl

  spawn-load : (t : Task) (s : Dag S) → load (spawn S (t ∷ []) s) ≤ stage u t + load s
  spawn-load t s = omega (arith, stages-append u s.tasks (t ∷ []))

  module _ (ctx : Caller) (k : ℕ) (lang : Text → Text) (order : List Text → List Text)
      (ids : Text → ℕ → Text) (template : (a b c : Text) → Text) where
    abbrev run : Task → Dag S → Dag S
    run t s = run_task S ctx k lang order ids template t s

    failed-load :
        (d : Text) (s : Dag S) → load (summary_failed S ctx k lang order ids template d s) ≤ load s
    failed-load d s = report-load (parent_of S d s) d none _

    continue_with-load {ℓ} :
        {A : Type ℓ} (n : ℕ) (d : Text) (next : A → Dag S → Dag S) (r : Result A) (s : Dag S)
        → ((a : A) (s₁ : Dag S) → load (next a s₁) ≤ n + load s₁)
        → load (continue_with S ctx k lang order ids template d next r s) ≤ n + load s
    continue_with-load n d next (raised x) s h = omega (arith, failed-load d s)
    continue_with-load n d next (ok a) s h = h a s

    summary_completed-load :
        (d : Text) (r : DirectorySummary) (s : Dag S)
        → load (summary_completed S ctx k lang order ids template d r s) ≤ load s
    unfolding summary_completed
    summary_completed-load d r s = report-load (parent_of S d s) d _ _

    after_write-load :
        (d : Text) (r : DirectorySummary) (s : Dag S)
        → load (after_write S ctx k lang order ids template d r tt s) ≤ stage u (store d r) + load s
    unfolding after_write
    after_write-load d r s =
        continue_with-load (stage u (store d r)) d
          (after_records S ctx k lang order ids template d r)
          (directory_records ids (dir_node_of d r ctx) r ctx) s
          (λ rs s₁. spawn-load (embed d r rs) s₁)

    run_task-load : (t : Task) (s : Dag S) → load (run t s) ≤ stage u t + load s
    unfolding run_task
    run_task-load (dispatch d p) s = omega (arith, dispatch_dir-load k d p s)
    run_task-load (file d f) s = omega (arith, on_file_done-load d s)
    run_task-load (summary d) s = elim (Option-cases (get d s.nodes)) [
      | inl e ↦ rw e (omega arith)
      | inr (m, e) ↦
          rw e
            (spawn-load (generate d (valid_summaries S ctx k lang order ids template m s.world)) s)
    ]
    run_task-load (generate d cs) s =
        let (r, w) = generate_summary_with_fallback S ctx k lang order ids template d cs s.world in
        spawn-load (store d r) (record s { world = w })
    run_task-load (store d r) s =
        let out = S.write_node (dir_node_of d r ctx) s.world in
        continue_with-load (stage u (store d r)) d (after_write S ctx k lang order ids template d r)
          out.0 (record s { world = out.1 }) (λ _ s₁. after_write-load d r s₁)
    run_task-load (embed d r rs) s =
        let out = S.embed_texts (texts_of rs) s.world in
        continue_with-load (stage u (embed d r rs)) d
          (after_embed S ctx k lang order ids template d r rs) out.0 (record s { world = out.1 })
          (λ vs s₁. spawn-load (upsert d r (with_embeddings rs vs)) s₁)
    run_task-load (upsert d r rs) s =
        let out = S.upsert_records rs s.world in
        continue_with-load (stage u (upsert d r rs)) d
          (after_upsert S ctx k lang order ids template d r) out.0 (record s { world = out.1 })
          (λ _ s₁. omega (arith, summary_completed-load d r s₁))

    step-load : {a b : Dag S} → Next S ctx k lang order ids template a b → load b ≤ load a
    step-load (taken before after t s) =
        let both = stages-append u before after in
        let all = stages-append u before (t ∷ after) in
        omega (arith, both, all, run_task-load t (record s { tasks = before ++ after }))

    run-load : {a b : Dag S} → Run S ctx k lang order ids template a b → load b ≤ load a
    run-load (stop s) = omega arith
    run-load (more r st) = omega (arith, run-load r, step-load st)

    -- Whichever task is taken next, and whatever the other components answer, at no time are there two
    -- summary tasks of a directory, and there is none while its summary is not scheduled.
    pub summary_once :
        (root : Text) (w : S.World) (s : Dag S)
        → Run S ctx k lang order ids template (start_dag S ctx k lang order ids template root w) s
        → stages u s.tasks + awaits_summary (get u s.nodes) ≤ 1
    summary_once root w s r = omega (arith, run-load r)

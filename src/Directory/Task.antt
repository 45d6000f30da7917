-- ===== src/Directory/Task.antt =====
-- index/directory_event_handler.py: what the tasks of DirectoryEventHandler do, one at a time in any order.
use rtc_retrieval_token_cutt.Base.{
  ℕ, ◌+◌, ◌-◌, Bool, true, false, Option, none, some, List, [], ◌∷◌, ◌++◌, Text, codes, is_empty,
  keep_if, rstrip, if◌then◌else◌, Result, ok, raised,
}
use rtc_retrieval_token_cutt.Nodes.Methods.{Caller}
use rtc_retrieval_token_cutt.VectorIndex.Dict.{get}
use rtc_retrieval_token_cutt.VectorIndex.Index.{Vector, IndexRecord}
use rtc_retrieval_token_cutt.Directory.Summaries.{
  DirectorySummary, ChildSummary, is_directory_uri, name_of, generate_summary, or_fallback,
  prompt_of,
}
use rtc_retrieval_token_cutt.Directory.Records.{
  dir_node_of, directory_records, texts_of, with_embeddings,
}
use rtc_retrieval_token_cutt.Directory.Dag.{
  DirNode, DagStats, Task, dispatch, file, summary, generate, store, embed, upsert, DagServices,
  Dag, spawn, on_file_done, on_child_done, count_failed, report, dispatch_dir, parent_of,
}

module _ (S : DagServices) (ctx : Caller) (max_children : ℕ) (detect_language : Text → Text)
    (set_order : List Text → List Text) (generate_id : Text → ℕ → Text)
    (template : (directory_uri children_summaries language : Text) → Text) where
  abbrev file_summary : Text → Result (Text × Text) → List ChildSummary
  file_summary uri (raised x) = []
  file_summary uri (ok (abstract, category)) =
      if is_empty abstract
      then []
      else record {
        uri = uri;
        name = name_of uri;
        abstract = abstract;
        category = if is_empty category then codes "unknown" else category;
        is_directory = false;
        has_abstract = true;
      }
        ∷ []

  -- `_collect_file_summaries`
  unfoldable pub collect_file_summaries : List Text → S.World → List ChildSummary
  unfolding name_of
  collect_file_summaries [] w = []
  collect_file_summaries (u ∷ us) w =
      let rest = collect_file_summaries us w in file_summary u (S.read_node u w) ++ rest

  abbrev child_summary : Text → Option ChildSummary → ChildSummary
  child_summary uri (some s) = s
  child_summary uri none = record {
    uri = uri;
    name = name_of (rstrip b'/' uri);
    abstract = [];
    category = codes "directory";
    is_directory = true;
    has_abstract = false;
  }

  -- `_collect_children_summaries`
  unfoldable pub collect_children_summaries :
      List Text → List (Option ChildSummary) → List ChildSummary
  unfolding name_of rstrip
  collect_children_summaries [] os = []
  collect_children_summaries (u ∷ us) [] = []
  collect_children_summaries (u ∷ us) (o ∷ os) =
      child_summary u o ∷ collect_children_summaries us os

  abbrev pub valid_summaries : DirNode → S.World → List ChildSummary
  valid_summaries node w =
      keep_if (λ s. s.has_abstract)
        (collect_file_summaries node.file_children w
          ++ collect_children_summaries node.children_dirs node.children_summaries)

  abbrev pub begin_summary : Text → Option DirNode → Dag S → Dag S
  begin_summary dir_uri none s = s
  begin_summary dir_uri (some node) s =
      spawn S (generate dir_uri (valid_summaries node s.world) ∷ []) s

  abbrev empty_summary : DirectorySummary
  empty_summary = record { abstract = codes "空目录"; overview = []; child_count = 0; categories = [] }

  -- `_generate_summary_with_fallback`: the model is not asked about an empty directory.
  unfoldable pub generate_summary_with_fallback :
      Text → List ChildSummary → S.World → DirectorySummary × S.World
  unfolding generate_summary or_fallback
  generate_summary_with_fallback dir_uri [] w = (empty_summary, w)
  generate_summary_with_fallback dir_uri (c ∷ cs) w =
      let (answer, w') =
        S.complete_json (prompt_of detect_language set_order template dir_uri (c ∷ cs)) w in
      (
        or_fallback detect_language set_order (c ∷ cs)
            (generate_summary detect_language set_order (c ∷ cs) answer),
        w',
      )

  -- `except Exception` of `_summary_task`
  abbrev pub summary_failed : Text → Dag S → Dag S
  summary_failed dir_uri s =
      let s' = count_failed S s in
      report S (parent_of S dir_uri s) dir_uri none
        (record s' { stats = record s'.stats { pending_dirs = s.stats.pending_dirs - 1 } })

  unfoldable pub summary_completed : Text → DirectorySummary → Dag S → Dag S
  unfolding on_child_done name_of rstrip
  summary_completed dir_uri r s =
      report S (parent_of S dir_uri s) dir_uri
        (some (record {
          uri = dir_uri;
          name = name_of (rstrip b'/' dir_uri);
          abstract = r.abstract;
          category = codes "directory";
          is_directory = true;
          has_abstract = true;
        }))
        (record s {
          stats = record s.stats {
            completed_dirs = s.stats.completed_dirs + 1;
            pending_dirs = s.stats.pending_dirs - 1;
          };
        })

  abbrev pub continue_with {ℓ} :
      {A : Type ℓ} → Text → (A → Dag S → Dag S) → Result A → Dag S → Dag S
  continue_with dir_uri next (raised x) s = summary_failed dir_uri s
  continue_with dir_uri next (ok a) s = next a s

  abbrev pub after_records : Text → DirectorySummary → List IndexRecord → Dag S → Dag S
  after_records dir_uri r records s = spawn S (embed dir_uri r records ∷ []) s

  -- What follows the write of the node, up to the embedding.
  unfoldable pub after_write : Text → DirectorySummary → Unit {0} → Dag S → Dag S
  unfolding dir_node_of directory_records
  after_write dir_uri r _ s =
      continue_with dir_uri (after_records dir_uri r)
        (directory_records generate_id (dir_node_of dir_uri r ctx) r ctx) s

  abbrev pub after_embed : Text → DirectorySummary → List IndexRecord → List Vector → Dag S → Dag S
  after_embed dir_uri r records vs s =
      spawn S (upsert dir_uri r (with_embeddings records vs) ∷ []) s

  abbrev pub after_upsert : Text → DirectorySummary → Unit {0} → Dag S → Dag S
  after_upsert dir_uri r _ s = summary_completed dir_uri r s

  abbrev pub continue_in {ℓ} :
      {A : Type ℓ} → Text → (A → Dag S → Dag S) → Result A × S.World → Dag S → Dag S
  continue_in dir_uri next (r, w) s = continue_with dir_uri next r (record s { world = w })

  -- One task, up to where it waits.
  unfoldable pub run_task : Task → Dag S → Dag S
  unfolding dispatch_dir on_file_done on_child_done collect_file_summaries
      collect_children_summaries generate_summary_with_fallback dir_node_of after_write
      summary_completed
  run_task (dispatch dir_uri parent_uri) s = dispatch_dir S max_children dir_uri parent_uri s
  run_task (file parent_uri file_uri) s = on_file_done S parent_uri s
  run_task (summary dir_uri) s = begin_summary dir_uri (get dir_uri s.nodes) s
  run_task (generate dir_uri cs) s =
      let (r, w) = generate_summary_with_fallback dir_uri cs s.world in
      spawn S (store dir_uri r ∷ []) (record s { world = w })
  run_task (store dir_uri r) s =
      continue_in dir_uri (after_write dir_uri r) (S.write_node (dir_node_of dir_uri r ctx) s.world)
        s
  run_task (embed dir_uri r records) s =
      continue_in dir_uri (after_embed dir_uri r records) (S.embed_texts (texts_of records) s.world)
        s
  run_task (upsert dir_uri r records) s =
      continue_in dir_uri (after_upsert dir_uri r) (S.upsert_records records s.world) s

  -- The event loop takes any task that is ready.
  pub data Next : Dag S → Dag S → Type 0 where
    taken :
        (before after : List Task) (t : Task) (s : Dag S)
        → Next
            (record s { tasks = before ++ t ∷ after })
            (run_task t (record s { tasks = before ++ after }))

  -- What `_run_dag` begins with.
  abbrev pub start_dag : (root_uri : Text) → S.World → Dag S
  start_dag root_uri w = record {
    nodes = [];
    parent_map = [];
    tasks = dispatch root_uri none ∷ [];
    stats = record { total_dirs = 0; pending_dirs = 0; completed_dirs = 0; failed_dirs = 0 };
    root_done = false;
    world = w;
  }

  pub data Run : Dag S → Dag S → Type 0 where
    stop : (s : Dag S) → Run s s
    more : {a b c : Dag S} → Run a b → Next b c → Run a c

  pub record DirectoryEventResult : Type 0 where
    pub success : Bool
    pub root_uri : Text
    pub stats : DagStats

  abbrev empty_stats : DagStats
  empty_stats = record { total_dirs = 0; pending_dirs = 0; completed_dirs = 0; failed_dirs = 0 }

  -- `process_directory_event`, where `last` is the state in which the root is found to be done. The
  -- tasks catch what the other components raise, so that nothing is raised here.
  unfoldable pub process_directory_event : (root_uri : Text) → (last : Dag S) → DirectoryEventResult
  unfolding is_directory_uri
  process_directory_event root_uri last =
      if is_directory_uri root_uri
      then record { success = true; root_uri = root_uri; stats = last.stats }
      else record { success = false; root_uri = root_uri; stats = empty_stats }

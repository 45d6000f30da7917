-- ===== src/Directory/Samples.antt =====
-- A directory with one file, and a node in an association list of files.
use rtc_retrieval_token_cutt.Base.{
  ℕ, ◌+◌, ◌≤◌, ◌≡◌, refl, Option, none, some, List, [], ◌∷◌, Text, codes, text_eq, split_on,
  ends_with, take, subst, All, ok,
}
use rtc_retrieval_token_cutt.Json.{num, end, field}
use rtc_retrieval_token_cutt.VectorIndex.Dict.{get}
use rtc_retrieval_token_cutt.Nodes.Meta.{ContextNode}
use rtc_retrieval_token_cutt.Nodes.Memory.{Stored, codec, files, tree}
use rtc_retrieval_token_cutt.Nodes.Methods.{Caller, write_node}
use rtc_retrieval_token_cutt.Nodes.Tree.{list_children}
use rtc_retrieval_token_cutt.Directory.Summaries.{text, is_directory_uri}
use rtc_retrieval_token_cutt.Directory.Dag.{
  Task, dispatch, file, summary, DagServices, Dag, new_dir, dispatch_dir, on_file_done,
}
use rtc_retrieval_token_cutt.Directory.Task.{run_task, taken, start_dag, Run, stop, more}
use rtc_retrieval_token_cutt.Directory.Once.{stages, awaits_summary, summary_once}
use rtc_retrieval_token_cutt.Directory.Flat.{IsName, list_children-new_dir}

abbrev plain : Text → Text
plain s = s

abbrev prefix : Text
prefix = codes "/local"

abbrev parent : Text
parent = codes "ctx://acme/users/u1/memories/cat"

abbrev tea : ContextNode
tea = record {
  uri = codes "ctx://acme/users/u1/memories/cat/tea";
  context_type = codes "MEMORY";
  category = codes "cat";
  level = 2;
  owner_space = codes "user:u1";
  abstract = codes "tea";
  overview = codes "green tea";
  content = codes "green tea in the morning";
  metadata = field (codes "version") (num 3) end;
  relations = [];
  expected_version = some 3;
}

abbrev caller : Caller
caller = record { account_id = codes "acme"; user_id = codes "u1"; agent_id = codes "a1" }

abbrev written : List (Text × Stored)
written = (write_node plain prefix codec files tea caller (codes "now") []).1

listed_tea : list_children plain prefix codec files tree parent caller written ≡ ok (tea.uri ∷ [])
unfolding list_children write_node split_on
listed_tea = refl

abbrev services : DagServices
services = record {
  World = Unit {0};
  list_children = λ u w. ok (tea.uri ∷ []);
  read_node = λ u w. ok (codes "tea", codes "cat");
  complete_json = λ p w. (ok (record { abstract = text (codes "teas"); overview = none }), w);
  write_node = λ n w. (ok tt, w);
  embed_texts = λ ts w. (ok ((1 ∷ []) ∷ []), w);
  upsert_records = λ rs w. (ok tt, w);
}

tea-IsName : IsName (codes "tea")
unfolding ends_with text_eq
tea-IsName = record { full = refl; plain = refl }

some_inj : {A : Type 0} {a b : A} → Option.some a ≡ some b → a ≡ b
some_inj e = cc

list_children-new_dir_example : (new_dir services (take 50 (tea.uri ∷ []))).children_dirs ≡ []
list_children-new_dir_example =
    list_children-new_dir plain prefix codec files tree services 50 parent caller written
      (tea.uri ∷ [])
      (λ path es e. subst (λ l. All (λ n. IsName n.name) l) (some_inj e) (tea-IsName, tt))
      listed_tea

abbrev id_text : Text → Text
id_text t = t

abbrev ids : Text → ℕ → Text
ids t n = t

abbrev template : (a b c : Text) → Text
template a b c = b

abbrev run : Task → Dag services → Dag services
run t s = run_task services caller 50 id_text (λ ts. ts) ids template t s

abbrev first : Dag services
first = start_dag services caller 50 id_text (λ ts. ts) ids template parent tt

abbrev second : Dag services
second = run (dispatch parent none) (record first { tasks = [] })

abbrev third : Dag services
third = run (file parent tea.uri) (record second { tasks = [] })

run_to_third : Run services caller 50 id_text (λ ts. ts) ids template first third
unfolding run_task dispatch_dir on_file_done new_dir is_directory_uri ends_with text_eq
run_to_third =
    more (more (stop first) (taken [] [] (dispatch parent none) first))
      (taken [] [] (file parent tea.uri) second)

summary_once_example : stages parent third.tasks + awaits_summary (get parent third.nodes) ≤ 1
summary_once_example =
    summary_once services parent caller 50 id_text (λ ts. ts) ids template parent tt third
      run_to_third

third_tasks : third.tasks ≡ summary parent ∷ []
unfolding run_task dispatch_dir on_file_done new_dir is_directory_uri ends_with text_eq
third_tasks = refl

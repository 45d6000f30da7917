-- ===== src/Commit/Versions.antt =====
-- From a plan of code-version/commit/merge_policies.py to the node that archive_builder.py makes: the
-- expected version, the counts and the texts that get there.
use rtc_retrieval_token_cutt.Base.{
  ◌≡◌, refl, sym, ap, ◌∙◌, subst, Bool, true, false, Option, none, some, inl, inr, ◌++◌, Text,
  codes, is_empty, text_eq, Bool-cases, Result, ok, raised, ◌>>=◌, >>=-eq-ok, text_eq_iff,
  append_assoc,
}
use rtc_retrieval_token_cutt.Json.{
  Json, num, str, obj, Fields, end, field, lookup_field, set_field, lookup_field-set_field,
}
use rtc_retrieval_token_cutt.Outbox.Event.{get_or}
use rtc_retrieval_token_cutt.Nodes.Methods.{Caller, ReadNode}
use rtc_retrieval_token_cutt.Commit.Plan.{optional, CandidateMemory, WritePlan}
use rtc_retrieval_token_cutt.Commit.Policies.{
  current_version, appending, accumulating, next_usage, count_up, merge_if, Moment, plan_skill,
  merge,
}
use rtc_retrieval_token_cutt.Commit.Builder.{
  NodeDraft, copy, put_text, put_stats, put_all, build_metadata, build, built_content,
  merge_overview,
}
use rtc_retrieval_token_cutt.Commit.Router.{Policy, skill_policy}
use rtc_retrieval_token_cutt.Commit.Planned.{Tools, plan_with, plan_with-Fits, looks_first}

abbrev expected : Text
expected = codes "expected_version"

module _ (k : Text) where
  -- Another key's value stays.
  set_field-other :
      (j : Text) (v : Json) (fs : Fields)
      → text_eq j k ≡ false
      → lookup_field k (set_field j v fs) ≡ lookup_field k fs
  set_field-other j v fs h = lookup_field-set_field j k v fs ∙ rw h refl

  copy-other :
      (j : Text) (fields fs : Fields)
      → text_eq j k ≡ false
      → lookup_field k (copy j fields fs) ≡ lookup_field k fs
  copy-other j fields fs h = through (lookup_field j fields)
    where
      through :
          (o : Option Json)
          → lookup_field k (let r : Fields = elim o [ none ↦ fs | some v ↦ set_field j v fs ] in r)
            ≡ lookup_field k fs
      through none = refl
      through (some v) = set_field-other j v fs h

  put_text-other :
      (j : Text) (t : Option Text) (fs : Fields)
      → text_eq j k ≡ false
      → lookup_field k (put_text j t fs) ≡ lookup_field k fs
  put_text-other j none fs h = refl
  put_text-other j (some t) fs h = elim (Bool-cases (is_empty t)) [
    | inl e ↦ rw e refl
    | inr e ↦ rw e (set_field-other j (str t) fs h)
  ]

  put_stats-other :
      (stats fs : Fields)
      → text_eq (codes "tool_stats") k ≡ false
      → lookup_field k (put_stats stats fs) ≡ lookup_field k fs
  put_stats-other end fs h = refl
  put_stats-other (field j v more) fs h =
      set_field-other (codes "tool_stats") (obj (field j v more)) fs h

copy-same :
    (k : Text) (fields fs : Fields)
    → lookup_field k fs ≡ none
    → lookup_field k (copy k fields fs) ≡ lookup_field k fields
copy-same k fields fs h = through (lookup_field k fields)
  where
    through :
        (o : Option Json)
        → lookup_field k (let r : Fields = elim o [ none ↦ fs | some v ↦ set_field k v fs ] in r)
          ≡ o
    through none = h
    through (some v) = lookup_field-set_field k k v fs ∙ rw ((text_eq_iff k k).1 refl) refl

build_metadata-expected :
    (now : Text) (candidate : CandidateMemory) (fields : Fields)
    → candidate.code_metadata ≡ end
    → lookup_field (codes "expected_version") (build_metadata now candidate fields)
      ≡ lookup_field (codes "expected_version") fields
unfolding build_metadata put_all text_eq lookup_field
build_metadata-expected now candidate fields h =
    let m₀ = copy expected fields (field (codes "created_at") (str now) end) in
    let m₁ = copy (codes "usage_count") fields m₀ in
    let m₂ = copy (codes "usage_count_increment") fields m₁ in
    let m₃ = put_text (codes "when") candidate.when m₂ in
    let m₄ = put_text (codes "who") candidate.who m₃ in
    let m₅ = put_text (codes "where") candidate.place m₄ in
    let m₆ = put_stats candidate.tool_stats m₅ in
    let m₇ = put_all candidate.code_metadata m₆ in
    let m₈ = copy (codes "code_identity") fields m₇ in
    copy-other expected (codes "latest_snapshot_uri") fields (copy (codes "chunk_hash") fields m₈)
      refl
    ∙ copy-other expected (codes "chunk_hash") fields m₈ refl
    ∙ copy-other expected (codes "code_identity") fields m₇ refl
    ∙ ap (λ c. lookup_field expected (put_all c m₆)) h
    ∙ put_stats-other expected candidate.tool_stats m₅ refl
    ∙ put_text-other expected (codes "where") candidate.place m₄ refl
    ∙ put_text-other expected (codes "who") candidate.who m₃ refl
    ∙ put_text-other expected (codes "when") candidate.when m₂ refl
    ∙ copy-other expected (codes "usage_count_increment") fields m₁ refl
    ∙ copy-other expected (codes "usage_count") fields m₀ refl
    ∙ copy-same expected fields (field (codes "created_at") (str now) end) refl

no_usage :
    (r : ReadNode) (tags status : Option Json)
    → lookup_field (codes "usage_count") (
        field (codes "created_at") r.created_at (
          field (codes "updated_at") r.updated_at (
            field
              (codes "version")
              r.version
              (optional (codes "tags") tags (optional (codes "status") status end)))))
      ≡ none
unfolding lookup_field text_eq
no_usage r none none = refl
no_usage r none (some s) = refl
no_usage r (some g) none = refl
no_usage r (some g) (some s) = refl

next_usage-one : (r : ReadNode) → next_usage r ≡ ok (num 1)
next_usage-one r = ap (λ o. count_up (get_or o (num 0))) (no_usage r r.tags r.status)

module _ (llm_merge : (existing new : Text) → Result (Option Text)) where
  abbrev Carries : Fields → Result NodeDraft → Type 0
  Carries fields r = elim r [
    | raised e ↦ Unit {0}
    | ok node ↦ lookup_field expected node.metadata ≡ lookup_field expected fields
  ]

  build-expected :
      (now : Text) (candidate : CandidateMemory) (p : WritePlan) (ctx : Caller) (node : NodeDraft)
      → candidate.code_metadata ≡ end
      → build llm_merge now candidate p ctx ≡ ok node
      → lookup_field expected node.metadata ≡ lookup_field expected p.merged_fields
  unfolding build
  build-expected now candidate p ctx node h e =
      let (content, _, k) = >>=-eq-ok (built_content llm_merge candidate p) _ e in
      subst (Carries p.merged_fields) k (build_metadata-expected now candidate p.merged_fields h)

  module _ {P : Type 0} (g : Tools) (exists : Text → Result Bool)
      (read_node : Text → Result ReadNode) (custom_plan : P → CandidateMemory → Result WritePlan)
      (ctx : Caller) (t : Moment) where
    -- The node that is built for a merge by a policy that looks first, unless its candidate has metadata of
    -- code, carries as its expected version the version of the node that its policy read at the target.
    pub build-plan_with :
        (policy : Policy P) (candidate : CandidateMemory) (p : WritePlan) (node : NodeDraft)
        → looks_first g exists read_node custom_plan ctx t policy ≡ true
        → candidate.code_metadata ≡ end
        → plan_with g exists read_node custom_plan ctx t policy candidate ≡ ok p
        → p.action ≡ codes "merge"
        → build llm_merge t.now candidate p ctx ≡ ok node
        → (old : ReadNode) × (read_node p.target_uri ≡ ok old)
          × (lookup_field (codes "expected_version") node.metadata ≡ some (current_version old))
    unfolding text_eq
    build-plan_with policy candidate p node l h e a b =
        elim (plan_with-Fits g exists read_node custom_plan ctx t policy candidate p l e) [
          | inl (inl (c, _)) ↦ absurd (cc (a, c))
          | inl (inr (c, _)) ↦ absurd (cc (a, c))
          | inr m ↦ (m.node, m.read, build-expected t.now candidate p ctx node h b ∙ m.expected)
        ]

    abbrev Counts : Result WritePlan → Type 0
    Counts r = elim r [
      | raised e ↦ Unit {0}
      | ok p ↦ lookup_field (codes "usage_count") p.merged_fields ≡ some (num 1)
    ]

    -- However often a skill was used before, its plan counts one use: the node that is read has no count.
    pub plan_with-usage_count :
        (candidate : CandidateMemory) (p : WritePlan)
        → plan_with g exists read_node custom_plan ctx t skill_policy candidate ≡ ok p
        → lookup_field (codes "usage_count") p.merged_fields ≡ some (num 1)
    unfolding plan_with plan_skill text_eq lookup_field
    plan_with-usage_count candidate p h =
        let (uri, _, k) = >>=-eq-ok (g.resolve candidate.category _) _ h in
        let (there, _, l) = >>=-eq-ok (exists uri) _ k in through uri there l
      where
        counted : Text → ReadNode → Result Json → Result WritePlan
        counted uri node usage =
            let fields : Result Fields =
              usage >>= λ count. ok (accumulating candidate node count) in
            fields >>= λ fs. ok (merge uri fs)

        through :
            (uri : Text) (b : Bool)
            → merge_if g.lower g.resolve exists read_node b uri
                (λ node. next_usage node >>= λ count. ok (accumulating candidate node count))
                (field (codes "usage_count") (num 1) end)
              ≡ ok p
            → lookup_field (codes "usage_count") p.merged_fields ≡ some (num 1)
        through uri false l = subst Counts l refl
        through uri true l =
            let (node, _, m) = >>=-eq-ok (read_node uri) _ l in
            subst Counts (sym (ap (counted uri node) (next_usage-one node)) ∙ m) refl

-- Where the overview of a candidate is None and the node has one, a merge by appending leaves the word
-- None at the end of it.
pub merge_overview-appending :
    (candidate : CandidateMemory) (node : ReadNode)
    → candidate.overview ≡ none
    → is_empty node.overview ≡ false
    → merge_overview candidate (appending candidate node) ≡ some (node.overview ++ codes "\n\nNone")
unfolding merge_overview lookup_field text_eq
merge_overview-appending candidate node h f = rw (h, f) (simp append_assoc)

-- ===== src/Commit/Planned.antt =====
-- code-version/commit/policy_router.py with the policies of merge_policies.py: what a plan says about
-- the node at its URI.
use rtc_retrieval_token_cutt.Base.{
  ◌≡◌, refl, subst, Bool, true, false, Option, some, List, ◌⊎◌, inl, inr, Text, codes, text_eq,
  if◌then◌else◌, Result, ok, raised, ◌>>=◌, >>=-eq-ok,
}
use rtc_retrieval_token_cutt.Json.{Json, Fields, end, field, lookup_field}
use rtc_retrieval_token_cutt.Nodes.Methods.{Caller, ReadNode}
use rtc_retrieval_token_cutt.Commit.Resolver.{Vars, Schema}
use rtc_retrieval_token_cutt.Commit.Plan.{CandidateMemory, WritePlan}
use rtc_retrieval_token_cutt.Commit.Policies.{
  create, text_or_null, plan_of, current_version, merge_if, merge_or_create, replacing,
  replacing_at, appending, accumulating, next_usage, Moment, plan_profile, plan_topic, plan_event,
  plan_skill, plan_language, plan_output,
}
use rtc_retrieval_token_cutt.Commit.Chunks.{plan_chunk, compute_chunk_hash, build_target_uri}
use rtc_retrieval_token_cutt.Commit.Router.{
  Policy, profile_policy, topic_policy, event_policy, skill_policy, chunk_policy, language_policy,
  output_policy, custom, route, plan_by,
}

abbrev HasVersion : ReadNode → Fields → Type 0
HasVersion node fs = lookup_field (codes "expected_version") fs ≡ some (current_version node)

abbrev HasVersionIfOk : ReadNode → Result Fields → Type 0
HasVersionIfOk node r = elim r [ raised e ↦ Unit {0} | ok fs ↦ HasVersion node fs ]

returned :
    (fields : ReadNode → Fields)
    → ((node : ReadNode) → HasVersion node (fields node))
    → (node : ReadNode) (fs : Fields) → ok (fields node) ≡ ok fs
    → HasVersion node fs
returned fields v node fs m = subst (HasVersionIfOk node) m (v node)

replacing_at-HasVersion :
    (now : Text) (candidate : CandidateMemory) (node : ReadNode)
    → HasVersion node (replacing_at now candidate node)
unfolding lookup_field text_eq
replacing_at-HasVersion now candidate node = refl

replacing-HasVersion :
    (candidate : CandidateMemory) (node : ReadNode) → HasVersion node (replacing candidate node)
unfolding lookup_field text_eq
replacing-HasVersion candidate node = refl

appending-HasVersion :
    (candidate : CandidateMemory) (node : ReadNode) → HasVersion node (appending candidate node)
unfolding lookup_field text_eq
appending-HasVersion candidate node = refl

topic-HasVersion :
    (candidate : CandidateMemory) (node : ReadNode)
    → HasVersion node
        (field (codes "abstract") (text_or_null candidate.abstract) (appending candidate node))
unfolding lookup_field text_eq
topic-HasVersion candidate node = refl

accumulating-HasVersion :
    (candidate : CandidateMemory) (node : ReadNode) (count : Json)
    → HasVersion node (accumulating candidate node count)
unfolding lookup_field text_eq
accumulating-HasVersion candidate node count = refl

-- What the policies are given: the text functions, and the resolver of URIs.
pub record Tools : Type 0 where
  pub lower : Text → Text
  pub shown : Json → Text
  pub sha1 : Text → Text
  pub sha256 : Text → Text
  pub resolve : (memory_type : Text) → Vars → Result Text

module _ {P : Type 0} (g : Tools) (exists : Text → Result Bool) (read_node : Text → Result ReadNode)
    (custom_plan : P → CandidateMemory → Result WritePlan) (ctx : Caller) (t : Moment) where
  -- `policy.plan(candidate, ctx)`
  unfoldable pub plan_with : Policy P → CandidateMemory → Result WritePlan
  unfolding plan_profile plan_topic plan_event plan_skill plan_chunk plan_language plan_output
  plan_with profile_policy candidate = plan_profile g.lower g.resolve exists read_node t candidate
  plan_with topic_policy candidate = plan_topic g.lower g.resolve exists read_node candidate
  plan_with event_policy candidate = plan_event g.lower g.resolve exists read_node t candidate
  plan_with skill_policy candidate = plan_skill g.lower g.resolve exists read_node candidate
  plan_with chunk_policy candidate = plan_chunk g.lower g.shown g.sha1 g.sha256 exists ctx candidate
  plan_with language_policy candidate =
      plan_language g.lower g.resolve exists read_node ctx t candidate
  plan_with output_policy candidate = plan_output g.lower g.resolve exists read_node ctx t candidate
  plan_with (custom policy) candidate = custom_plan policy candidate

  -- PolicyRouter.plan
  unfoldable pub plan :
      (custom_policies : List (Text × P)) (registry : Text → Option Schema)
      → CandidateMemory
      → Result WritePlan
  unfolding route plan_with
  plan custom_policies registry candidate =
      plan_by plan_with candidate (route custom_policies registry candidate.category)

  -- A plan that fits the files: it creates where nothing is, it skips or merges where a node is, and a
  -- merge expects the version that was read.
  pub record Merges (plan : WritePlan) : Type 0 where
    pub action : plan.action ≡ codes "merge"
    pub there : exists plan.target_uri ≡ ok true
    pub node : ReadNode
    pub read : read_node plan.target_uri ≡ ok node
    pub expected :
        lookup_field (codes "expected_version") plan.merged_fields ≡ some (current_version node)

  abbrev pub Fits : WritePlan → Type 0
  Fits plan =
      (((plan.action ≡ codes "create") × (exists plan.target_uri ≡ ok false))
        ⊎ ((plan.action ≡ codes "skip") × (exists plan.target_uri ≡ ok true)))
      ⊎ Merges plan

  abbrev FitsIfOk : Result WritePlan → Type 0
  FitsIfOk r = elim r [ raised e ↦ Unit {0} | ok q ↦ Fits q ]

  merge_or_create-Fits :
      (uri : Text) (merged : ReadNode → Result Fields) (created : Fields) (p : WritePlan)
      → ((node : ReadNode) (fs : Fields)
          → merged node ≡ ok fs
          → lookup_field (codes "expected_version") fs ≡ some (current_version node))
      → merge_or_create g.lower g.resolve exists read_node uri merged created ≡ ok p
      → Fits p
  merge_or_create-Fits uri merged created p v h =
      let (there, e, k) = >>=-eq-ok (exists uri) _ h in through there e k
    where
      through :
          (b : Bool)
          → exists uri ≡ ok b
          → merge_if g.lower g.resolve exists read_node b uri merged created ≡ ok p
          → Fits p
      through false e k = subst FitsIfOk k (inl (inl (refl, e)))
      through true e k =
          let (node, r, l) = >>=-eq-ok (read_node uri) _ k in
          let (fs, m, q) = >>=-eq-ok (merged node) _ l in
          subst FitsIfOk q (
            inr
              (record { action = refl; there = e; node = node; read = r; expected = v node fs m }))

  abbrev pub looks_first : Policy P → Bool
  looks_first event_policy = false
  looks_first (custom _) = false
  looks_first _ = true

  pub plan_with-Fits :
      (policy : Policy P) (candidate : CandidateMemory) (p : WritePlan)
      → looks_first policy ≡ true
      → plan_with policy candidate ≡ ok p
      → Fits p
  unfolding plan_with
  plan_with-Fits profile_policy candidate p l h =
      let (uri, _, k) = >>=-eq-ok (g.resolve (codes "profile") _) _ h in
      merge_or_create-Fits uri (λ node. ok (replacing_at t.now candidate node)) end p
        (returned (replacing_at t.now candidate) (replacing_at-HasVersion t.now candidate)) k
  plan_with-Fits topic_policy candidate p l h =
      let (uri, _, k) = >>=-eq-ok (g.resolve candidate.category _) _ h in
      merge_or_create-Fits uri _ end p (returned _ (topic-HasVersion candidate)) k
  plan_with-Fits event_policy candidate p l h = absurd (cc)
  plan_with-Fits skill_policy candidate p l h =
      let (uri, _, k) = >>=-eq-ok (g.resolve candidate.category _) _ h in
      merge_or_create-Fits uri _ _ p counted k
    where
      counted :
          (node : ReadNode) (fs : Fields)
          → (next_usage node >>= λ count. ok (accumulating candidate node count)) ≡ ok fs
          → HasVersion node fs
      counted node fs m =
          let (count, _, e) = >>=-eq-ok (next_usage node) _ m in
          subst (HasVersionIfOk node) e (accumulating-HasVersion candidate node count)
  plan_with-Fits chunk_policy candidate p l h =
      let (hash, _, k) =
        >>=-eq-ok (compute_chunk_hash g.lower g.shown g.sha1 g.sha256 candidate) _ h in
      let (there, e, q) = >>=-eq-ok (exists uri) _ k in skipped there _ e q
    where
      uri : Text
      uri = build_target_uri g.lower g.shown g.sha1 g.sha256 candidate ctx

      skipped :
          (b : Bool) (fs : Fields)
          → exists uri ≡ ok b
          → (let r : Result WritePlan =
                ok (if b then plan_of (codes "skip") uri end else create uri fs) in
              r)
            ≡ ok p
          → Fits p
      skipped true fs e q = subst FitsIfOk q (inl (inr (refl, e)))
      skipped false fs e q = subst FitsIfOk q (inl (inl (refl, e)))
  plan_with-Fits language_policy candidate p l h =
      merge_or_create-Fits _ (λ node. ok (appending candidate node)) end p
        (returned (appending candidate) (appending-HasVersion candidate)) h
  plan_with-Fits output_policy candidate p l h =
      merge_or_create-Fits _ (λ node. ok (replacing candidate node)) end p
        (returned (replacing candidate) (replacing-HasVersion candidate)) h
  plan_with-Fits (custom _) candidate p l h = absurd (cc)

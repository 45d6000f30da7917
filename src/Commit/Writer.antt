-- ===== src/Commit/Writer.antt =====
-- commit/context_writer.py: ContextWriter. The router's plans, the builder, the digest of an operation,
-- the outbox and what others do during the delays between attempts are parameters, in the section.
use rtc_retrieval_token_cutt.Base.{
  ℕ, ◌+◌, Bool, true, false, ◌&&◌, ◌||◌, Option, List, [], ◌∷◌, Text, codes, is_empty, text_eq,
  if◌then◌else◌, Result, ok, raised, concurrent_modification,
}
use rtc_retrieval_token_cutt.Json.{end}
use rtc_retrieval_token_cutt.Nodes.Methods.{ReadNode}
use rtc_retrieval_token_cutt.Commit.Plan.{CandidateMemory, WritePlan}
use rtc_retrieval_token_cutt.Commit.Policies.{plan_of}
use rtc_retrieval_token_cutt.Commit.Builder.{NodeDraft}

-- What the writer calls, for one request context. A method that raises leaves files too. The events of
-- the outbox are registered in the files, and an error there is only logged; without an outbox store
-- the files stay as they are. `attempt` is the number of the attempt, at whose time the plan is made.
pub record Stores : Type 1 where
  pub Files : Type 0
  pub plan : (attempt : ℕ) → CandidateMemory → Files → Result WritePlan
  pub build : (attempt : ℕ) → CandidateMemory → WritePlan → Files → Result NodeDraft
  pub fingerprint : WritePlan → Option Text → Text
  pub read_node : Text → Files → Result ReadNode
  pub write_node : NodeDraft → Files → Result (Unit {0}) × Files
  pub write_archived : ReadNode → Files → Result (Unit {0}) × Files
  pub delete_node : Text → Files → Result (Unit {0}) × Files
  pub register_write : NodeDraft → Files → Files
  pub register_directory : NodeDraft → Files → Files
  pub register_archive : Text → Files → Files
  pub register_delete : Text → Files → Files
  pub sleep : (milliseconds : ℕ) → Files → Files

-- `fp in self._executed_ops`
unfoldable pub is_executed : Text → List Text → Bool
unfolding text_eq
is_executed fp [] = false
is_executed fp (op ∷ ops) = let rest = is_executed fp ops in text_eq op fp || rest

abbrev pub executed_with : Text → List Text → List Text
executed_with fp ops = if is_executed fp ops then ops else fp ∷ ops

module _ (s : Stores) where
  -- The files, and the operations that were executed.
  pub record Writer : Type 0 where
    pub files : s.Files
    pub executed : List Text

  abbrev pub Outcome : Type 0
  Outcome = Result WritePlan × Writer

  abbrev pub with_files : s.Files → Writer → Writer
  with_files f w = record { files = f; executed = w.executed }

  abbrev pub mark : Text → Writer → Writer
  mark fp w = record { files = w.files; executed = executed_with fp w.executed }

  abbrev pub archived : WritePlan → Writer → Result (Unit {0}) × s.Files → Outcome
  archived plan w (raised e, f) = (raised e, with_files f w)
  archived plan w (ok _, f) = (ok plan, with_files (s.register_archive plan.target_uri f) w)

  -- `_handle_archive`
  unfoldable pub handle_archive : WritePlan → Writer → Outcome
  handle_archive plan w = elim (s.read_node plan.target_uri w.files) [
    | raised e ↦ (raised e, w)
    | ok node ↦ archived plan w (s.write_archived node w.files)
  ]

  abbrev pub deleted : WritePlan → Writer → Result (Unit {0}) × s.Files → Outcome
  deleted plan w (raised e, f) = (raised e, with_files f w)
  deleted plan w (ok _, f) = (ok plan, with_files (s.register_delete plan.target_uri f) w)

  -- `_handle_delete`
  unfoldable pub handle_delete : WritePlan → Writer → Outcome
  handle_delete plan w = deleted plan w (s.delete_node plan.target_uri w.files)

  abbrev pub registers : WritePlan → Bool
  registers plan = text_eq plan.action (codes "create") || text_eq plan.action (codes "merge")

  -- Steps 4 and 5.
  unfoldable pub register_events : CandidateMemory → WritePlan → NodeDraft → s.Files → s.Files
  unfolding text_eq
  register_events candidate plan node f =
      if registers plan
      then (if text_eq candidate.category (codes "profile")
          then s.register_write node f
          else s.register_directory node (s.register_write node f))
      else f

  abbrev pub written :
      CandidateMemory
      → WritePlan
      → Text
      → NodeDraft
      → Writer
      → Result (Unit {0}) × s.Files
      → Outcome
  written candidate plan fp node w (raised e, f) = (raised e, with_files f w)
  written candidate plan fp node w (ok _, f) =
      (ok plan, mark fp (with_files (register_events candidate plan node f) w))

  abbrev pub built : CandidateMemory → WritePlan → Text → Writer → Result NodeDraft → Outcome
  built candidate plan fp w (raised e) = (raised e, w)
  built candidate plan fp w (ok node) = written candidate plan fp node w (s.write_node node w.files)

  -- An attempt with its plan.
  unfoldable pub execute : (attempt : ℕ) → CandidateMemory → WritePlan → Writer → Outcome
  unfolding is_executed handle_archive handle_delete register_events
  execute n candidate plan w =
      let fp = s.fingerprint plan candidate.content in
      if text_eq plan.action (codes "skip")
      then (ok plan, w)
      else if is_executed fp w.executed
      then (ok plan, w)
      else if text_eq plan.action (codes "archive")
      then handle_archive plan (mark fp w)
      else if text_eq plan.action (codes "delete")
      then handle_delete plan (mark fp w)
      else built candidate plan fp w (s.build n candidate plan w.files)

  abbrev pub execute_planned : (attempt : ℕ) → CandidateMemory → Result WritePlan → Writer → Outcome
  execute_planned n candidate (raised e) w = (raised e, w)
  execute_planned n candidate (ok plan) w = execute n candidate plan w

  unfoldable pub attempt : ℕ → CandidateMemory → Writer → Outcome
  unfolding execute
  attempt n candidate w = execute_planned n candidate (s.plan n candidate w.files) w

  abbrev pub conflicts : Result WritePlan → Bool
  conflicts (raised concurrent_modification) = true
  conflicts _ = false

  -- The loop over the attempts: after each but the last there is a delay for a conflict.
  unfoldable pub attempts : ℕ → (delays : List ℕ) → CandidateMemory → Writer → Outcome
  unfolding attempt
  attempts n [] candidate w = attempt n candidate w
  attempts n (d ∷ ds) candidate w =
      let (r, w') = attempt n candidate w in
      let rest = attempts (n + 1) ds candidate (with_files (s.sleep d w'.files) w') in
      if conflicts r then rest else (r, w')

  unfoldable pub write_candidate : (agent_id : Text) → CandidateMemory → Writer → Outcome
  unfolding attempts
  write_candidate agent_id candidate w =
      if text_eq candidate.owner_scope (codes "agent") && is_empty agent_id
      then (ok (plan_of (codes "skip") [] end), w)
      else attempts 0 (100 ∷ 200 ∷ []) candidate w

  abbrev pub keep_plan : Result WritePlan → List WritePlan → List WritePlan
  keep_plan (raised _) plans = plans
  keep_plan (ok plan) plans = plan ∷ plans

  -- An error is logged, and the next candidate is written.
  unfoldable pub write_candidates :
      (agent_id : Text) → List CandidateMemory → Writer → List WritePlan × Writer
  unfolding write_candidate
  write_candidates agent_id [] w = ([], w)
  write_candidates agent_id (candidate ∷ candidates) w =
      let (r, w') = write_candidate agent_id candidate w in
      let (plans, w'') = write_candidates agent_id candidates w' in (keep_plan r plans, w'')

-- ===== src/Commit/Once.antt =====
-- ContextWriter of commit/context_writer.py: candidates whose plan was carried out before, attempts that
-- meet a conflict, and operations that fail.
use rtc_retrieval_token_cutt.Base.{
  ℕ, zero, suc, ◌+◌, ◌≤◌, ◌<◌, ◌≡◌, refl, sym, ap, ◌∙◌, subst, ◌≢◌, false≢true,
  concurrent_modification, validation_error, node_broken, node_not_found, access_denied,
  client_error, index_error, key_error, attribute_error, type_error, value_error, true, false, ◌⊎◌,
  inl, inr, List, [], ◌∷◌, Text, codes, text_eq, text_eq_iff, arith, Bool-cases, length, Result,
  Error, ok, raised,
}
use rtc_retrieval_token_cutt.Nodes.Methods.{ReadNode}
use rtc_retrieval_token_cutt.Commit.Plan.{CandidateMemory, WritePlan}
use rtc_retrieval_token_cutt.Commit.Builder.{NodeDraft}
use rtc_retrieval_token_cutt.Commit.Writer.{
  Stores, is_executed, executed_with, Writer, Outcome, with_files, archived, handle_archive,
  deleted, handle_delete, written, built, execute, execute_planned, attempt, conflicts, attempts,
}

executed_with-is_executed :
    (fp : Text) (ops : List Text) → is_executed fp (executed_with fp ops) ≡ true
unfolding is_executed
executed_with-is_executed fp ops = elim (Bool-cases (is_executed fp ops)) [
  | inl h ↦ rw h h
  | inr h ↦ rw (h, (text_eq_iff fp fp).1 refl) refl
]

module _ (s : Stores) where
  abbrev fp_of : CandidateMemory → WritePlan → Text
  fp_of candidate plan = s.fingerprint plan candidate.content

  -- The plan has been carried out: nothing is left to do for it.
  abbrev Done : CandidateMemory → WritePlan → Writer s → Type 0
  Done candidate plan w =
      (text_eq plan.action (codes "skip") ≡ true)
      ⊎ (is_executed (fp_of candidate plan) w.executed ≡ true)

  -- What an outcome that is no error says of the plan.
  abbrev Carried : CandidateMemory → WritePlan → Outcome s → Type 0
  Carried candidate plan (raised e, w) = Unit {0}
  Carried candidate plan (ok q, w) = (q ≡ plan) × Done candidate plan w

  handle_archive-Carried :
      (candidate : CandidateMemory) (plan : WritePlan) (w : Writer s)
      → is_executed (fp_of candidate plan) w.executed ≡ true
      → Carried candidate plan (handle_archive s plan w)
  unfolding handle_archive
  handle_archive-Carried candidate plan w h = through (s.read_node plan.target_uri w.files)
    where
      last : (r : Result (Unit {0}) × s.Files) → Carried candidate plan (archived s plan w r)
      last (raised e, f) = tt
      last (ok _, f) = (refl, inr h)

      through :
          (o : Result ReadNode)
          → Carried candidate plan (
              let r : Outcome s = elim o [
                | raised e ↦ (raised e, w)
                | ok node ↦ archived s plan w (s.write_archived node w.files)
              ] in
              r)
      through (raised e) = tt
      through (ok node) = last (s.write_archived node w.files)

  handle_delete-Carried :
      (candidate : CandidateMemory) (plan : WritePlan) (w : Writer s)
      → is_executed (fp_of candidate plan) w.executed ≡ true
      → Carried candidate plan (handle_delete s plan w)
  unfolding handle_delete
  handle_delete-Carried candidate plan w h = last (s.delete_node plan.target_uri w.files)
    where
      last : (r : Result (Unit {0}) × s.Files) → Carried candidate plan (deleted s plan w r)
      last (raised e, f) = tt
      last (ok _, f) = (refl, inr h)

  built-Carried :
      (candidate : CandidateMemory) (plan : WritePlan) (w : Writer s) (r : Result NodeDraft)
      → Carried candidate plan (built s candidate plan (fp_of candidate plan) w r)
  built-Carried candidate plan w (raised e) = tt
  built-Carried candidate plan w (ok node) = last (s.write_node node w.files)
    where
      last :
          (r : Result (Unit {0}) × s.Files)
          → Carried candidate plan (written s candidate plan (fp_of candidate plan) node w r)
      last (raised e, f) = tt
      last (ok _, f) = (refl, inr (executed_with-is_executed (fp_of candidate plan) w.executed))

  execute-Carried :
      (n : ℕ) (candidate : CandidateMemory) (plan : WritePlan) (w : Writer s)
      → Carried candidate plan (execute s n candidate plan w)
  unfolding execute is_executed
  execute-Carried n candidate plan w =
      let fp = fp_of candidate plan in
      let after : Writer s = record { files = w.files; executed = fp ∷ w.executed } in
      let marked : is_executed fp (fp ∷ w.executed) ≡ true = rw ((text_eq_iff fp fp).1 refl) refl in
      elim (Bool-cases (text_eq plan.action (codes "skip"))) [
        | inl a ↦ rw a (refl, inl a)
        | inr a ↦ elim (Bool-cases (is_executed fp w.executed)) [
          | inl b ↦ rw (a, b) (refl, inr b)
          | inr b ↦ elim (Bool-cases (text_eq plan.action (codes "archive"))) [
            | inl k ↦ rw (a, b, k) (handle_archive-Carried candidate plan after marked)
            | inr k ↦ elim (Bool-cases (text_eq plan.action (codes "delete"))) [
              | inl l ↦ rw (a, b, k, l) (handle_delete-Carried candidate plan after marked)
              | inr l ↦
                  rw (a, b, k, l)
                    (built-Carried candidate plan w (s.build n candidate plan w.files))
            ]
          ]
        ]
      ]

  execute-Done :
      (n : ℕ) (candidate : CandidateMemory) (plan : WritePlan) (w : Writer s)
      → Done candidate plan w
      → execute s n candidate plan w ≡ (ok plan, w)
  unfolding execute
  execute-Done n candidate plan w (inl a) = rw a refl
  execute-Done n candidate plan w (inr b) = elim (Bool-cases (text_eq plan.action (codes "skip"))) [
    | inl a ↦ rw a refl
    | inr a ↦ rw (a, b) refl
  ]

  -- A candidate that was written is written once: where the next plan for it is the same, nothing is
  -- written or registered again, and the plan is answered.
  pub attempt-again :
      (n m : ℕ) (candidate : CandidateMemory) (plan : WritePlan) (w w' : Writer s)
      → attempt s n candidate w ≡ (ok plan, w')
      → s.plan m candidate w'.files ≡ ok plan
      → attempt s m candidate w' ≡ (ok plan, w')
  unfolding attempt
  attempt-again n m candidate plan w w' h e =
      rw e (execute-Done m candidate plan w' (first (s.plan n candidate w.files) h))
    where
      first :
          (r : Result WritePlan)
          → execute_planned s n candidate r w ≡ (ok plan, w')
          → Done candidate plan w'
      first (raised e) k = absurd (cc)
      first (ok q) k =
          let (i, d) = subst (Carried candidate q) k (execute-Carried n candidate q w) in
          subst (λ p. Done candidate p w') (sym i) d

  -- What the writer is behind the attempts before the one of number `n + k`, and the delays after them.
  abbrev pub writer_after : ℕ → List ℕ → CandidateMemory → (k : ℕ) → Writer s → Writer s
  writer_after n delays candidate zero w = w
  writer_after n [] candidate (suc k) w = w
  writer_after n (d ∷ ds) candidate (suc k) w =
      let v = (attempt s n candidate w).1 in
      writer_after (n + 1) ds candidate k (with_files s (s.sleep d v.files) v)

  abbrev pub tried : ℕ → List ℕ → CandidateMemory → Writer s → ℕ → Outcome s
  tried n delays candidate w k = attempt s (n + k) candidate (writer_after n delays candidate k w)

  -- The outcome of the attempt of number `n + k`, where all before it have met a conflict, and it has
  -- met none or there is no delay left.
  pub record Last (n : ℕ) (delays : List ℕ) (candidate : CandidateMemory) (w : Writer s)
      (o : Outcome s) : Type 0 where
    pub k : ℕ
    pub bounded : k ≤ length delays
    pub outcome : o ≡ tried n delays candidate w k
    pub before : (i : ℕ) → i < k → (tried n delays candidate w i).0 ≡ raised concurrent_modification
    pub ended : (o.0 ≢ raised concurrent_modification) ⊎ (k ≡ length delays)

  conflicts-raised :
      (r : Result WritePlan) → conflicts s r ≡ true → r ≡ raised concurrent_modification
  conflicts-raised (raised concurrent_modification) h = refl
  conflicts-raised (ok q) h = absurd (false≢true h)
  conflicts-raised (raised value_error) h = absurd (false≢true h)
  conflicts-raised (raised type_error) h = absurd (false≢true h)
  conflicts-raised (raised attribute_error) h = absurd (false≢true h)
  conflicts-raised (raised key_error) h = absurd (false≢true h)
  conflicts-raised (raised index_error) h = absurd (false≢true h)
  conflicts-raised (raised client_error) h = absurd (false≢true h)
  conflicts-raised (raised access_denied) h = absurd (false≢true h)
  conflicts-raised (raised node_not_found) h = absurd (false≢true h)
  conflicts-raised (raised node_broken) h = absurd (false≢true h)
  conflicts-raised (raised validation_error) h = absurd (false≢true h)

  attempt_at :
      {m n : ℕ} (candidate : CandidateMemory) (v : Writer s)
      → m ≡ n
      → attempt s m candidate v ≡ attempt s n candidate v
  attempt_at candidate v e = ap (λ i. attempt s i candidate v) e

  Last-now :
      (n : ℕ) (delays : List ℕ) (candidate : CandidateMemory) (w : Writer s)
      → ((attempt s n candidate w).0 ≢ raised concurrent_modification) ⊎ (0 ≡ length delays)
      → Last n delays candidate w (attempt s n candidate w)
  Last-now n delays candidate w e = record {
    k = 0;
    bounded = omega arith;
    outcome = attempt_at candidate w (omega arith);
    before = λ i l. absurd (omega (arith, l));
    ended = e;
  }

  Last-later :
      (n d : ℕ) (ds : List ℕ) (candidate : CandidateMemory) (w : Writer s) (o : Outcome s)
      → (attempt s n candidate w).0 ≡ raised concurrent_modification
      → Last (n + 1) ds candidate (writer_after n (d ∷ ds) candidate 1 w) o
      → Last n (d ∷ ds) candidate w o
  Last-later n d ds candidate w o c r = record {
    k = suc r.k;
    bounded = omega (arith, r.bounded);
    outcome = r.outcome ∙ attempt_at candidate _ (omega arith);
    before = λ i l. earlier i l;
    ended = elim r.ended [ inl e ↦ inl e | inr e ↦ inr (omega (arith, e)) ];
  }
    where
      earlier :
          (i : ℕ)
          → i < suc r.k
          → (tried n (d ∷ ds) candidate w i).0 ≡ raised concurrent_modification
      earlier zero l = ap (λ t. t.0) (attempt_at candidate w (omega arith)) ∙ c
      earlier (suc i) l =
          ap (λ t. t.0) (attempt_at candidate _ (omega arith)) ∙ r.before i (omega (arith, l))

  -- The loop comes to the outcome of one of its attempts, of which there is one more than there are
  -- delays. Each attempt works on what the one before it and the delay left, all attempts before the one
  -- that is answered have met a conflict, and that one has met none unless it is the last there is.
  pub attempts-Last :
      (n : ℕ) (delays : List ℕ) (candidate : CandidateMemory) (w : Writer s)
      → Last n delays candidate w (attempts s n delays candidate w)
  unfolding attempts
  attempts-Last n [] candidate w = Last-now n [] candidate w (inr refl)
  attempts-Last n (d ∷ ds) candidate w =
      let v = (attempt s n candidate w).1 in
      let again = with_files s (s.sleep d v.files) v in
      elim (Bool-cases (conflicts s (attempt s n candidate w).0)) [
        | inl c ↦ rw c (
            Last-later n d ds candidate w (attempts s (n + 1) ds candidate again)
              (conflicts-raised (attempt s n candidate w).0 c)
              (attempts-Last (n + 1) ds candidate again))
        | inr c ↦
            subst (Last n (d ∷ ds) candidate w) (sym (ended c))
              (Last-now n (d ∷ ds) candidate w (inl (λ e. false≢true (sym c ∙ ap (conflicts s) e))))
      ]
    where
      ended :
          conflicts s (attempt s n candidate w).0 ≡ false
          → attempts s n (d ∷ ds) candidate w ≡ attempt s n candidate w
      ended c = rw c refl

  -- A deletion that fails is recorded as executed: the error is raised once, and where the plan comes
  -- again it is answered while the node is left.
  pub attempt-delete_fails :
      (n m : ℕ) (candidate : CandidateMemory) (plan : WritePlan) (w : Writer s) (e : Error)
      (f : s.Files)
      → plan.action ≡ codes "delete"
      → is_executed (s.fingerprint plan candidate.content) w.executed ≡ false
      → s.plan n candidate w.files ≡ ok plan
      → s.delete_node plan.target_uri w.files ≡ (raised e, f)
      → s.plan m candidate f ≡ ok plan
      → (w' : Writer s) × (attempt s n candidate w ≡ (raised e, w'))
        × (attempt s m candidate w' ≡ (ok plan, w'))
  unfolding attempt execute handle_delete is_executed text_eq
  attempt-delete_fails n m candidate plan w e f a b p d q =
      let fp = fp_of candidate plan in
      let is_skip = ap (λ x. text_eq x (codes "skip")) a in
      let is_archive = ap (λ x. text_eq x (codes "archive")) a in
      let is_delete = ap (λ x. text_eq x (codes "delete")) a in
      let w' : Writer s = record { files = f; executed = fp ∷ w.executed } in
      (
        w',
        rw (p, is_skip, b, is_archive, is_delete)
            (ap (deleted s plan (record { files = w.files; executed = fp ∷ w.executed })) d),
        rw q (execute-Done m candidate plan w' (inr (rw ((text_eq_iff fp fp).1 refl) refl))),
      )

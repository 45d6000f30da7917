-- ===== src/Commit/Gather.antt =====
-- commit/candidate_pipeline.py: the serial and the parallel run of the extractors, and what their
-- results have in common.
use rtc_retrieval_token_cutt.Base.{
  ◌≡◌, refl, sym, ap, ◌∙◌, subst, List, [], ◌∷◌, ◌++◌, append_assoc, true, All, All-append,
  Bool-cases, inl, inr, Result, ok, raised, >>=-eq-ok, Result-cases,
}
use mathlib.Core.HLevel.{⊥_prop}
use mathlib.Core.Logic.{∥∥₁_elim, ∥∥₁_prop}
use mathlib.Core.List.{Perm, Permᴰ, perm_append_comm}
use mathlib.Core.List.Perm
use rtc_retrieval_token_cutt.Commit.Plan.{CandidateMemory}
use rtc_retrieval_token_cutt.Commit.Pipeline.{
  is_rejection, or_nothing, all_candidates, keep_valid, validate_all, extract_serial,
  extract_parallel,
}

module _ (validate : CandidateMemory → Result CandidateMemory) where
  abbrev Results : Type 0
  Results = List (Result (List CandidateMemory))

  -- A candidate whose validation ends in no other exception than a ValidationError.
  abbrev Passes : Result CandidateMemory → Type 0
  Passes (raised x) = is_rejection validate x ≡ true
  Passes (ok c) = Unit

  abbrev AllPass : List CandidateMemory → Type 0
  AllPass cs = All (λ c. Passes (validate c)) cs

  abbrev keep : Result CandidateMemory → List CandidateMemory → List CandidateMemory
  keep (raised x) kept = kept
  keep (ok c) kept = c ∷ kept

  V : List CandidateMemory → List CandidateMemory
  V [] = []
  V (c ∷ cs) = keep (validate c) (V cs)

  validate_all-V : (cs : List CandidateMemory) → AllPass cs → validate_all validate cs ≡ ok (V cs)
  unfolding validate_all V
  validate_all-V [] h = refl
  validate_all-V (c ∷ cs) h = kept (validate c) h.0 (validate_all-V cs h.1)
    where
      kept :
          (r : Result CandidateMemory)
          → Passes r
          → validate_all validate cs ≡ ok (V cs)
          → keep_valid validate r (validate_all validate cs) ≡ ok (keep r (V cs))
      kept (raised x) p i = rw p i
      kept (ok d) p i = rw i refl

  validate_all-AllPass :
      (cs ds : List CandidateMemory) → validate_all validate cs ≡ ok ds → AllPass cs
  unfolding validate_all
  validate_all-AllPass [] ds h = tt
  validate_all-AllPass (c ∷ cs) ds h = kept (validate c) (λ es e. validate_all-AllPass cs es e) h
    where
      kept :
          (r : Result CandidateMemory)
          → ((es : List CandidateMemory) → validate_all validate cs ≡ ok es → AllPass cs)
          → keep_valid validate r (validate_all validate cs) ≡ ok ds
          → Passes r × AllPass cs
      kept (raised x) again k = elim (Bool-cases (is_rejection validate x)) [
        | inl e ↦ (e, again ds (rw e at k))
        | inr e ↦ absurd (cc (rw e at k))
      ]
      kept (ok d) again k =
          let (es, e, _) = >>=-eq-ok (validate_all validate cs) _ k in (tt, again es e)

  validate_all-append : (xs ys : List CandidateMemory) → V (xs ++ ys) ≡ V xs ++ V ys
  unfolding V
  validate_all-append [] ys = refl
  validate_all-append (x ∷ xs) ys = kept (validate x) (validate_all-append xs ys)
    where
      kept :
          (r : Result CandidateMemory)
          → V (xs ++ ys) ≡ V xs ++ V ys
          → keep r (V (xs ++ ys)) ≡ keep r (V xs) ++ V ys
      kept (raised e) i = i
      kept (ok c) i = ap (λ l. c ∷ l) i

  -- The valid candidates of each extractor, one after the other.
  gathered : Results → List CandidateMemory
  gathered [] = []
  gathered (r ∷ rs) = V (or_nothing validate r) ++ gathered rs

  extract-gathered : (rs : Results) → V (all_candidates validate rs) ≡ gathered rs
  unfolding all_candidates V gathered
  extract-gathered [] = refl
  extract-gathered (r ∷ rs) =
      validate_all-append (or_nothing validate r) (all_candidates validate rs)
      ∙ ap (λ l. V (or_nothing validate r) ++ l) (extract-gathered rs)

  swapped :
      (a b : Result (List CandidateMemory)) (l : List CandidateMemory)
      → Perm
          (V (or_nothing validate a) ++ (V (or_nothing validate b) ++ l))
          (V (or_nothing validate b) ++ (V (or_nothing validate a) ++ l))
  swapped a b l =
      let x = V (or_nothing validate a) in
      let y = V (or_nothing validate b) in
      subst (λ t. Perm t (y ++ (x ++ l))) (append_assoc x y l)
        (subst (Perm ((x ++ y) ++ l)) (append_assoc y x l)
          (Perm.append_right l (perm_append_comm x y)))

  gathered-Perm : {rs qs : Results} → Permᴰ rs qs → Perm (gathered rs) (gathered qs)
  unfolding gathered
  gathered-Perm Permᴰ.nil = Perm.refl []
  gathered-Perm (Permᴰ.cons {a = a} {b = b} {l₁ = l₁} {l₂ = l₂} e d) =
      subst (λ r. Perm (gathered (a ∷ l₁)) (gathered (r ∷ l₂))) e
        (Perm.append_left (V (or_nothing validate a)) (gathered-Perm d))
  gathered-Perm (Permᴰ.swap {a = a} {b = b} {a' = a'} {b' = b'} {l = l} e₁ e₂) =
      subst (λ r. Perm (gathered (a ∷ b ∷ l)) (gathered (r ∷ b' ∷ l))) e₂
        (subst (λ r. Perm (gathered (a ∷ b ∷ l)) (gathered (b ∷ r ∷ l))) e₁
          (swapped a b (gathered l)))
  gathered-Perm (Permᴰ.trans d₁ d₂) = Perm.trans (gathered-Perm d₁) (gathered-Perm d₂)

  abbrev RunsPass : Results → Type 0
  RunsPass rs = All (λ r. AllPass (or_nothing validate r)) rs

  All-split : (xs ys : List CandidateMemory) → AllPass (xs ++ ys) → AllPass xs × AllPass ys
  All-split [] ys h = (tt, h)
  All-split (x ∷ xs) ys h = let (a, b) = All-split xs ys h.1 in ((h.0, a), b)

  RunsPass-of : (rs : Results) → AllPass (all_candidates validate rs) → RunsPass rs
  unfolding all_candidates
  RunsPass-of [] h = tt
  RunsPass-of (r ∷ rs) h =
      let (a, b) = All-split (or_nothing validate r) (all_candidates validate rs) h in
      (a, RunsPass-of rs b)

  AllPass-of : (rs : Results) → RunsPass rs → AllPass (all_candidates validate rs)
  unfolding all_candidates
  AllPass-of [] h = tt
  AllPass-of (r ∷ rs) h =
      All-append (λ c. Passes (validate c)) (or_nothing validate r) (all_candidates validate rs) h.0
        (AllPass-of rs h.1)

  RunsPass-Perm : {rs qs : Results} → Permᴰ rs qs → RunsPass qs → RunsPass rs
  RunsPass-Perm Permᴰ.nil h = tt
  RunsPass-Perm (Permᴰ.cons e d) h =
      (subst (λ r. AllPass (or_nothing validate r)) (sym e) h.0, RunsPass-Perm d h.1)
  RunsPass-Perm (Permᴰ.swap e₁ e₂) h = (
    subst (λ r. AllPass (or_nothing validate r)) (sym e₁) h.1.0,
    (subst (λ r. AllPass (or_nothing validate r)) (sym e₂) h.0, h.1.1),
  )
  RunsPass-Perm (Permᴰ.trans d₁ d₂) h = RunsPass-Perm d₁ (RunsPass-Perm d₂ h)

  permuted :
      (rs qs : Results) (cs : List CandidateMemory)
      → Permᴰ rs qs
      → validate_all validate (all_candidates validate qs) ≡ ok cs
      → (ds : List CandidateMemory) × (extract_serial validate rs ≡ ok ds) × Perm ds cs
  unfolding extract_serial
  permuted rs qs cs d h =
      let inside = RunsPass-of qs (validate_all-AllPass (all_candidates validate qs) cs h) in
      let end = validate_all-V (all_candidates validate qs) (AllPass-of qs inside) in
      let same : V (all_candidates validate qs) ≡ cs = cc in
      (
        V (all_candidates validate rs),
        validate_all-V (all_candidates validate rs) (AllPass-of rs (RunsPass-Perm d inside)),
        subst (λ l. Perm l cs) (sym (extract-gathered rs))
            (subst (Perm (gathered rs)) (sym (extract-gathered qs) ∙ same) (gathered-Perm d)),
      )

  -- Where the calls complete in some order and the parallel run returns, the serial run returns too, with
  -- the same candidates in some order.
  pub extract_parallel-Perm :
      (rs completed : Results) (cs : List CandidateMemory)
      → Perm rs completed
      → extract_parallel validate completed ≡ ok cs
      → (ds : List CandidateMemory) × (extract_serial validate rs ≡ ok ds) × Perm ds cs
  unfolding extract_parallel
  extract_parallel-Perm rs [] cs p h = absurd (cc)
  extract_parallel-Perm rs (q ∷ qs) cs p h = elim (Result-cases (extract_serial validate rs)) [
    | inl (x, e) ↦
        absurd (∥∥₁_elim p ⊥_prop (λ d. let (_, k, _) = permuted rs (q ∷ qs) cs d h in cc))
    | inr (ds, e) ↦ (ds, e, ∥∥₁_elim p ∥∥₁_prop (λ d. same ds e (permuted rs (q ∷ qs) cs d h)))
  ]
    where
      same :
          (ds : List CandidateMemory)
          → extract_serial validate rs ≡ ok ds
          → (es : List CandidateMemory) × (extract_serial validate rs ≡ ok es) × Perm es cs
          → Perm ds cs
      same ds e (es, k, r) = let one : es ≡ ds = cc in subst (λ l. Perm l cs) one r

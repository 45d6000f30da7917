-- ===== src/Session/Loops.antt =====
-- session/session_state.py: which commitments stay open, and what sessions have to do with each other.
use rtc_retrieval_token_cutt.Base.{
  ◌≡◌, refl, ap, subst, ◌∙◌, Bool, not, Option, none, some, List, [], ◌∷◌, map, Text, codes,
  text_eq, text_eq_iff, contains, keep_if, Bool-cases, inl, inr, if◌then◌else◌,
}
use rtc_retrieval_token_cutt.VectorIndex.Dict.{get, get-put}
use rtc_retrieval_token_cutt.Session.State.{
  Commitment, SessionState, list_or_none, fulfil, resolve_all, resolve_commitment, get_open_loops,
}

abbrev is_open : Commitment → Bool
is_open c = text_eq c.status (codes "open")

keep-fulfil :
    (now content : Text) (cs : List Commitment)
    → keep_if is_open (map (fulfil now content) cs)
      ≡ keep_if (λ c. not (contains c.content content)) (keep_if is_open cs)
unfolding fulfil text_eq
keep-fulfil now content [] = refl
keep-fulfil now content (c ∷ cs) = elim (Bool-cases (is_open c)) [
  | inl a ↦ elim (Bool-cases (contains c.content content)) [
    | inl b ↦ rw (a, b) (keep-fulfil now content cs)
    | inr b ↦ rw (a, b) (rw a (ap (λ l. c ∷ l) (keep-fulfil now content cs)))
  ]
  | inr a ↦ rw a (rw a (keep-fulfil now content cs))
]

commitments-resolve_all :
    (now session_id content other : Text) (s : SessionState) (o : Option (List Commitment))
    → get session_id s.commitments ≡ o
    → list_or_none (get other (resolve_all now session_id content o s).commitments) ≡ (
        if text_eq session_id other
        then map (fulfil now content) (list_or_none (get other s.commitments))
        else list_or_none (get other s.commitments))
commitments-resolve_all now session_id content other s none h =
    elim (Bool-cases (text_eq session_id other)) [
      | inl y ↦
          let e = (text_eq_iff session_id other).0 y in
          let n : get other s.commitments ≡ none = subst (λ k. get k s.commitments ≡ none) e h in
          rw (y, n) refl
      | inr n ↦ rw n refl
    ]
commitments-resolve_all now session_id content other s (some cs) h =
    elim (Bool-cases (text_eq session_id other)) [
      | inl y ↦
          let e = (text_eq_iff session_id other).0 y in
          let n : get other s.commitments ≡ some cs =
            subst (λ k. get k s.commitments ≡ some cs) e h in
          rw (get-put session_id other (map (fulfil now content) cs) s.commitments, y, n) refl
      | inr n ↦ rw (get-put session_id other (map (fulfil now content) cs) s.commitments, n) refl
    ]

-- After a commitment is resolved by a text, the open loops of its session are those from before that do
-- not contain the text, in their order, and those of another session are as they were.
pub resolve_commitment-get_open_loops :
    (now session_id content other : Text) (s : SessionState)
    → get_open_loops other (resolve_commitment now session_id content s) ≡ (
        if text_eq session_id other
        then keep_if (λ c. not (contains c.content content)) (get_open_loops other s)
        else get_open_loops other s)
unfolding get_open_loops resolve_commitment
resolve_commitment-get_open_loops now session_id content other s =
    let e =
      commitments-resolve_all now session_id content other s (get session_id s.commitments) refl in
    elim (Bool-cases (text_eq session_id other)) [
      | inl y ↦
          let m : list_or_none (get other (resolve_commitment now session_id content s).commitments)
              ≡ map (fulfil now content) (list_or_none (get other s.commitments)) =
            rw y at e in
          rw y (
            ap (keep_if is_open) m
            ∙ keep-fulfil now content (list_or_none (get other s.commitments)))
      | inr n ↦
          let m : list_or_none (get other (resolve_commitment now session_id content s).commitments)
              ≡ list_or_none (get other s.commitments) =
            rw n at e in
          rw n (ap (keep_if is_open) m)
    ]

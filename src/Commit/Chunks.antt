-- ===== src/Commit/Chunks.antt =====
-- code-version/commit/merge_policies.py: CodeChunkPolicy. The digests, and `str` of a value of the
-- metadata, are parameters.
use rtc_retrieval_token_cutt.Base.{
  ℕ, ◌==◌, leb, Bool, true, false, not, ◌&&◌, ◌||◌, Option, none, some, List, [], ◌∷◌, ◌++◌, Text,
  codes, is_empty, text_eq, strip, rstrip, take, if◌then◌else◌, Result, ok, raised, attribute_error,
  ◌>>=◌,
}
use rtc_retrieval_token_cutt.Json.{
  Json, null, bool, num, float, str, arr, obj, nil, cons, Fields, end, field, lookup_field,
}
use rtc_retrieval_token_cutt.Outbox.Event.{get_or}
use rtc_retrieval_token_cutt.Outbox.Paths.{posix_path, before_last}
use rtc_retrieval_token_cutt.Nodes.Methods.{Caller}
use rtc_retrieval_token_cutt.Commit.Plan.{CandidateMemory, WritePlan}
use rtc_retrieval_token_cutt.Commit.Policies.{plan_of, create}

-- What `or` takes for true; the number 0 and both zeros of the floats are false.
abbrev pub is_truthy : Json → Bool
is_truthy null = false
is_truthy (bool b) = b
is_truthy (num n) = not (n == 0)
is_truthy (float bits) = not (bits == 0) && not (bits == 9223372036854775808)
is_truthy (str s) = not (is_empty s)
is_truthy (arr nil) = false
is_truthy (arr (cons _ _)) = true
is_truthy (obj end) = false
is_truthy (obj (field _ _ _)) = true

abbrev pub text_or : Text → Text → Text
text_or s other = if is_empty s then other else s

abbrev word_char : ℕ → Bool
word_char c = (leb 97 c && leb c 122) || (leb 48 c && leb c 57)

-- re.sub(r"[^a-z0-9]+", "_", value); `in_run` is whether such a character was just before.
unfoldable pub sub_runs : (in_run : Bool) → Text → Text
sub_runs in_run [] = []
sub_runs in_run (c ∷ s) =
    let kept = c ∷ sub_runs false s in
    let run = sub_runs true s in if word_char c then kept else if in_run then run else b'_' ∷ run

-- s.lstrip(c), for one character
unfoldable pub lstrip : ℕ → Text → Text
lstrip c [] = []
lstrip c (x ∷ s) = let rest = lstrip c s in if x == c then rest else x ∷ s

abbrev last_part : List Text → Text
last_part [] = []
last_part (p ∷ []) = p
last_part (p ∷ q ∷ ps) = last_part (q ∷ ps)

-- Path(file_path).name
abbrev pub file_name_of : Text → Text
file_name_of file_path =
    if is_empty file_path then codes "file" else last_part (posix_path file_path).parts

abbrev pub stem_of : Text → Text
stem_of name = elim (before_last b'.' name) [ some stem ↦ stem | none ↦ name ]

module _ (lower : Text → Text) (shown : Json → Text) (sha1 sha256 : Text → Text) where
  -- `str(metadata.get(key) or default)`
  abbrev pub shown_or : Text → Text → Fields → Text
  shown_or key default metadata =
      let v = get_or (lookup_field key metadata) null in if is_truthy v then shown v else default

  -- `_slugify`
  unfoldable pub slugify : Text → Text
  unfolding sub_runs lstrip rstrip strip
  slugify value =
      text_or (lstrip b'_' (rstrip b'_' (sub_runs false (strip (lower value)))))
        (codes "code_chunk")

  abbrev lines : (dash : Text) → Option Json → Option Json → Text
  lines dash (some a) (some b) = shown a ++ dash ++ shown b
  lines dash _ _ = codes "0" ++ dash ++ codes "0"

  abbrev not_none : Option Json → Option Json
  not_none none = none
  not_none (some null) = none
  not_none (some v) = some v

  abbrev line_range : (dash : Text) → Fields → Text
  line_range dash metadata =
      lines dash (not_none (lookup_field (codes "start_line") metadata))
        (not_none (lookup_field (codes "end_line") metadata))

  abbrev symbol_of : CandidateMemory → Text
  symbol_of candidate =
      shown_or (codes "symbol") (text_or candidate.routing_key (codes "symbol"))
        candidate.code_metadata

  -- `_build_identity`
  unfoldable pub build_identity : CandidateMemory → Text
  unfolding lookup_field
  build_identity candidate =
      shown_or (codes "language") (codes "unknown") candidate.code_metadata
      ++ codes ":"
      ++ shown_or (codes "file_path") [] candidate.code_metadata
      ++ codes ":"
      ++ symbol_of candidate
      ++ codes ":"
      ++ line_range (codes "-") candidate.code_metadata

  -- `_build_slug`
  unfoldable pub build_slug : CandidateMemory → Text
  unfolding slugify build_identity lookup_field before_last
  build_slug candidate =
      let metadata = candidate.code_metadata in
      let prefix = slugify (
        shown_or (codes "language") (codes "unknown") metadata
        ++ codes "_"
        ++ stem_of (file_name_of (shown_or (codes "file_path") [] metadata))
        ++ codes "_"
        ++ symbol_of candidate
        ++ codes "_"
        ++ line_range (codes "_") metadata) in
      text_or (rstrip b'_' (take 96 prefix)) (codes "code_chunk")
      ++ codes "_"
      ++ take 16 (sha1 (build_identity candidate))

  -- `_build_target_uri`
  unfoldable pub build_target_uri : CandidateMemory → Caller → Text
  unfolding build_slug text_eq
  build_target_uri candidate ctx =
      codes "ctx://"
      ++ ctx.account_id
      ++ codes "/"
      ++ candidate.owner_scope
      ++ codes "s/"
      ++ (if text_eq candidate.owner_scope (codes "agent") then ctx.agent_id else ctx.user_id)
      ++ codes "/memories/code/"
      ++ build_slug candidate

  -- `content.encode("utf-8")` of None raises.
  abbrev content_hash : Option Text → Result Text
  content_hash none = raised attribute_error
  content_hash (some content) = ok (sha256 content)

  -- `_compute_chunk_hash`
  unfoldable pub compute_chunk_hash : CandidateMemory → Result Text
  unfolding lookup_field strip
  compute_chunk_hash candidate =
      let existing = strip (shown_or (codes "chunk_hash") [] candidate.code_metadata) in
      if is_empty existing then content_hash candidate.content else ok existing

  -- CodeChunkPolicy.plan
  unfoldable pub plan_chunk :
      (exists : Text → Result Bool) → Caller → CandidateMemory → Result WritePlan
  unfolding build_target_uri compute_chunk_hash
  plan_chunk exists ctx candidate = do
    chunk_hash ← compute_chunk_hash candidate
    there ← exists (build_target_uri candidate ctx)
    ok (
        if there
        then plan_of (codes "skip") (build_target_uri candidate ctx) end
        else create (build_target_uri candidate ctx) (
            field (codes "code_identity") (str (build_identity candidate))
              (field (codes "chunk_hash") (str chunk_hash) end)))

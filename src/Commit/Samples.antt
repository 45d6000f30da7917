-- ===== src/Commit/Samples.antt =====
-- A candidate on its way to a node, and the theorems about it there.
use mathlib.Core.List.{Perm}
use mathlib.Core.List.Perm
use rtc_retrieval_token_cutt.Base.{
  ℕ, ◌+◌, ◌≡◌, refl, Bool, true, false, leb, ltb, Option, none, some, List, [], ◌∷◌, map, Text,
  codes, contains, text_eq, arith, if◌then◌else◌, Result, ok, raised,
}
use rtc_retrieval_token_cutt.Json.{num, str, end, lookup_field}
use rtc_retrieval_token_cutt.Nodes.Methods.{Caller, ReadNode}
use rtc_retrieval_token_cutt.Commit.Keys.{collapse}
use rtc_retrieval_token_cutt.Commit.Squeeze.{squeeze, collapse-eq-squeeze}
use rtc_retrieval_token_cutt.Commit.Plan.{CandidateMemory, WritePlan}
use rtc_retrieval_token_cutt.Commit.Policies.{Moment, create, current_version}
use rtc_retrieval_token_cutt.Commit.Router.{topic_policy, skill_policy}
use rtc_retrieval_token_cutt.Commit.Builder.{NodeDraft, build}
use rtc_retrieval_token_cutt.Commit.Planned.{Tools, plan_with}
use rtc_retrieval_token_cutt.Commit.Versions.{build-plan_with}
use rtc_retrieval_token_cutt.Commit.Writer.{Stores, Writer, attempt, attempts}
use rtc_retrieval_token_cutt.Commit.Once.{attempt-again, Last, attempts-Last}
use rtc_retrieval_token_cutt.Commit.Validation.{
  normalize_slug, validate_candidate, validate_utf8, validate_text_length, sanitize_html, is_one_of,
}
use rtc_retrieval_token_cutt.Commit.Valid.{IsDigest, IsValid, validate_candidate-IsValid}
use rtc_retrieval_token_cutt.Commit.Collide.{validate_candidate-collides}
use rtc_retrieval_token_cutt.Commit.Speaker.{
  IsOwn, validate_attribution, validate_attribution-IsOwn,
}
use rtc_retrieval_token_cutt.Commit.Pipeline.{extract_serial, extract_parallel}
use rtc_retrieval_token_cutt.Commit.Gather.{extract_parallel-Perm}

abbrev spaced : Text
spaced = codes "a___b"

collapse-eq-squeeze_example :
    (contains (collapse 5 spaced) (codes "__") ≡ false) × (collapse 5 spaced ≡ squeeze spaced)
collapse-eq-squeeze_example = collapse-eq-squeeze 5 spaced (omega arith)

abbrev ascii_lower : Text → Text
ascii_lower s = map (λ c. if leb 65 c then (if leb c 90 then c + 32 else c) else c) s

abbrev digest : Text → Text
digest t = codes "0123456789abcdef0123"

abbrev tea_uri : Text
tea_uri = codes "ctx://acme/users/u1/memories/preferences/tea"

abbrev tools : Tools
tools = record {
  lower = ascii_lower;
  shown = λ v. codes "x";
  sha1 = digest;
  sha256 = digest;
  resolve = λ memory_type vars. ok (codes "ctx://acme/users/u1/memories/preferences/tea");
}

abbrev tea : CandidateMemory
tea = record {
  category = codes "preference";
  owner_scope = codes "user";
  routing_key = codes "Green  tea";
  abstract = some (codes "tea & milk");
  overview = none;
  content = some (codes "green tea");
  confidence = 0;
  when = none;
  who = none;
  place = none;
  tool_stats = end;
  code_metadata = end;
  attributed_speaker = none;
  attribution_basis = some (codes "self_named");
}

abbrev old_node : ReadNode
old_node = record {
  uri = str tea_uri;
  context_type = str (codes "MEMORY");
  category = str (codes "preference");
  level = num 4;
  owner_space = str (codes "user:u1");
  abstract = codes "tea";
  overview = codes "green";
  content = codes "green tea";
  created_at = str (codes "then");
  updated_at = str (codes "then");
  version = num 3;
  tags = none;
  status = some (str (codes "ACTIVE"));
  relations = [];
}

abbrev there : Text → Result Bool
there uri = ok true

abbrev read_old : Text → Result ReadNode
read_old uri = ok old_node

abbrev no_custom : Unit {0} → CandidateMemory → Result WritePlan
no_custom u c = ok (create [] end)

abbrev me : Caller
me = record { account_id = codes "acme"; user_id = codes "u1"; agent_id = codes "a1" }

abbrev moment : Moment
moment = record { now = codes "now"; timestamp = codes "1"; unique_id = codes "2" }

abbrev empty_plan : WritePlan
empty_plan = create [] end

abbrev value_or {ℓ} : {A : Type ℓ} → A → Result A → A
value_or a (raised _) = a
value_or a (ok b) = b

abbrev tea_plan : WritePlan
tea_plan = value_or empty_plan (plan_with tools there read_old no_custom me moment topic_policy tea)

plan_with-tea : plan_with tools there read_old no_custom me moment topic_policy tea ≡ ok tea_plan
unfolding plan_with
plan_with-tea = refl

abbrev newer : Text → Text → Result (Option Text)
newer existing new = ok (some new)

abbrev empty_draft : NodeDraft
empty_draft = record {
  uri = [];
  context_type = [];
  category = [];
  level = 0;
  owner_space = [];
  abstract = none;
  overview = none;
  content = none;
  metadata = end;
  relations = [];
}

abbrev tea_draft : NodeDraft
tea_draft = value_or empty_draft (build newer moment.now tea tea_plan me)

build-tea : build newer moment.now tea tea_plan me ≡ ok tea_draft
unfolding build plan_with
build-tea = refl

tea_merges : tea_plan.action ≡ codes "merge"
unfolding plan_with
tea_merges = refl

build-plan_with_example :
    (old : ReadNode) × (read_old tea_plan.target_uri ≡ ok old)
    × (lookup_field (codes "expected_version") tea_draft.metadata ≡ some (current_version old))
build-plan_with_example =
    build-plan_with newer tools there read_old no_custom me moment topic_policy tea tea_plan
      tea_draft refl refl plan_with-tea tea_merges build-tea

abbrev skill_plan : WritePlan
skill_plan =
    value_or empty_plan (plan_with tools there read_old no_custom me moment skill_policy tea)

plan_with-skill :
    plan_with tools there read_old no_custom me moment skill_policy tea ≡ ok skill_plan
unfolding plan_with text_eq
plan_with-skill = refl

-- Files that count the writes to them.
abbrev stores : Stores
stores = record {
  Files = ℕ;
  plan = λ n c f. ok (create (codes "ctx://acme/users/u1/memories/preferences/tea") end);
  build = λ n c p f. ok empty_draft;
  fingerprint = λ p content. p.target_uri;
  read_node = λ u f. ok old_node;
  write_node = λ d f. (ok tt, f + 1);
  write_archived = λ r f. (ok tt, f + 1);
  delete_node = λ u f. (ok tt, f + 1);
  register_write = λ d f. f;
  register_directory = λ d f. f;
  register_archive = λ u f. f;
  register_delete = λ u f. f;
  sleep = λ d f. f;
}

abbrev started : Writer stores
started = record { files = 0; executed = [] }

abbrev tea_create : WritePlan
tea_create = create tea_uri end

abbrev wrote : Writer stores
wrote = (attempt stores 0 tea started).1

attempt-tea : attempt stores 0 tea started ≡ (ok tea_create, wrote)
unfolding attempt text_eq
attempt-tea = refl

attempt-again_example : attempt stores 1 tea wrote ≡ (ok tea_create, wrote)
attempt-again_example = attempt-again stores 0 1 tea tea_create started wrote attempt-tea refl

attempts-Last_example :
    Last stores 0 (100 ∷ 200 ∷ []) tea started (attempts stores 0 (100 ∷ 200 ∷ []) tea started)
attempts-Last_example = attempts-Last stores 0 (100 ∷ 200 ∷ []) tea started

abbrev keep_order : ℕ → ℕ → Bool
keep_order a b = leb a b

abbrev valid : CandidateMemory → CandidateMemory
valid c = value_or c (validate_candidate ascii_lower digest keep_order ltb c)

validate_candidate-tea : validate_candidate ascii_lower digest keep_order ltb tea ≡ ok (valid tea)
unfolding validate_candidate
validate_candidate-tea = refl

digest-IsDigest : IsDigest digest
digest-IsDigest = record { hex = λ t. ground arith }

validate_candidate-IsValid_example : IsValid tea.routing_key (valid tea)
validate_candidate-IsValid_example =
    validate_candidate-IsValid ascii_lower digest keep_order ltb tea (valid tea) digest-IsDigest
      validate_candidate-tea

abbrev collider : CandidateMemory
collider = record tea { routing_key = codes "Preference" }

validate_candidate-collides_example :
    (v : CandidateMemory) × (validate_candidate ascii_lower digest keep_order ltb collider ≡ ok v)
    × (v.routing_key ≡ codes "preference")
unfolding normalize_slug validate_candidate validate_utf8 validate_text_length sanitize_html
    is_one_of
validate_candidate-collides_example =
    validate_candidate-collides ascii_lower digest keep_order ltb collider (valid collider).abstract
      (valid collider).overview (valid collider).content refl refl refl refl refl refl refl refl

abbrev profile : CandidateMemory
profile = record tea { category = codes "profile" }

profile-profile : (validate_attribution ascii_lower (codes "u1") profile).category ≡ codes "profile"
unfolding validate_attribution
profile-profile = refl

validate_attribution-IsOwn_example :
    IsOwn ascii_lower (codes "u1") profile.attribution_basis profile.attributed_speaker
    × (validate_attribution ascii_lower (codes "u1") profile ≡ profile)
validate_attribution-IsOwn_example =
    validate_attribution-IsOwn ascii_lower (codes "u1") profile profile-profile

abbrev accept : CandidateMemory → Result CandidateMemory
accept c = ok c

abbrev extracted : List (Result (List CandidateMemory))
extracted = ok (tea ∷ []) ∷ ok (profile ∷ []) ∷ []

abbrev completed : List (Result (List CandidateMemory))
completed = ok (profile ∷ []) ∷ ok (tea ∷ []) ∷ []

extract_parallel-completed : extract_parallel accept completed ≡ ok (profile ∷ tea ∷ [])
unfolding extract_parallel
extract_parallel-completed = refl

extract_parallel-Perm_example :
    (ds : List CandidateMemory) × (extract_serial accept extracted ≡ ok ds)
    × Perm ds (profile ∷ tea ∷ [])
extract_parallel-Perm_example =
    extract_parallel-Perm accept extracted completed (profile ∷ tea ∷ []) (Perm.swap _ _ [])
      extract_parallel-completed

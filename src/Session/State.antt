-- ===== src/Session/State.antt =====
-- session/session_state.py: SessionState. Its two dictionaries are lists of items in order; the task
-- state of a session is changed in place, in the dictionary that holds it. A commitment is a value: one
-- object that is added twice is taken for two.
use rtc_retrieval_token_cutt.Base.{
  ◌&&◌, Option, none, some, List, [], ◌∷◌, ◌++◌, map, Text, codes, is_empty, text_eq, contains,
  keep_if, if◌then◌else◌,
}
use rtc_retrieval_token_cutt.VectorIndex.Dict.{get, put, pop}

pub record TaskState : Type 0 where
  pub objective : Option Text
  pub current_stage : Option Text
  pub next_step : Option Text
  pub blockers : List Text

pub record Commitment : Type 0 where
  pub content : Text
  pub status : Text
  pub created_at : Text
  pub resolved_at : Option Text

-- `Commitment.__post_init__`
unfoldable pub new_commitment :
    (now content status created_at : Text) (resolved_at : Option Text) → Commitment
new_commitment now content status created_at resolved_at = record {
  content = content;
  status = status;
  created_at = if is_empty created_at then now else created_at;
  resolved_at = resolved_at;
}

pub record SessionState : Type 0 where
  pub task_states : List (Text × TaskState)
  pub commitments : List (Text × List Commitment)

abbrev pub new_state : SessionState
new_state = record { task_states = []; commitments = [] }

abbrev pub empty_task : TaskState
empty_task = record { objective = none; current_stage = none; next_step = none; blockers = [] }

-- What `get_task_state` returns, and the dictionary, in which a new session gets an empty state.
abbrev pub task_or_new :
    Text → List (Text × TaskState) → Option TaskState → TaskState × List (Text × TaskState)
task_or_new session_id d none = (empty_task, put session_id empty_task d)
task_or_new session_id d (some t) = (t, d)

unfoldable pub get_task_state : Text → SessionState → TaskState × SessionState
unfolding text_eq
get_task_state session_id s =
    let (t, d) = task_or_new session_id s.task_states (get session_id s.task_states) in
    (t, record s { task_states = d })

abbrev pub list_or_none : Option (List Commitment) → List Commitment
list_or_none none = []
list_or_none (some cs) = cs

abbrev pub with_status : Option Text → List Commitment → List Commitment
with_status none cs = cs
with_status (some status) cs = keep_if (λ c. text_eq c.status status) cs

unfoldable pub get_commitments : Text → (status : Option Text) → SessionState → List Commitment
unfolding text_eq
get_commitments session_id status s =
    with_status status (list_or_none (get session_id s.commitments))

abbrev given {ℓ} : {A : Type ℓ} → (new old : Option A) → Option A
given none old = old
given (some a) old = some a

-- Only the fields that are given take the place of the old ones.
unfoldable pub merge_task : (current state : TaskState) → TaskState
merge_task current state = record {
  objective = given state.objective current.objective;
  current_stage = given state.current_stage current.current_stage;
  next_step = given state.next_step current.next_step;
  blockers = if is_empty state.blockers then current.blockers else state.blockers;
}

unfoldable pub update_task_state : Text → TaskState → SessionState → SessionState
unfolding get_task_state merge_task
update_task_state session_id state s =
    let (current, s') = get_task_state session_id s in
    record s' { task_states = put session_id (merge_task current state) s'.task_states }

unfoldable pub add_commitment : Text → Commitment → SessionState → SessionState
unfolding text_eq
add_commitment session_id commitment s =
    let cs = list_or_none (get session_id s.commitments) in
    record s { commitments = put session_id (cs ++ commitment ∷ []) s.commitments }

-- An open commitment that contains the text is fulfilled.
unfoldable pub fulfil : (now content : Text) → Commitment → Commitment
unfolding text_eq contains
fulfil now content c =
    if text_eq c.status (codes "open") && contains c.content content
    then record c { status = codes "fulfilled"; resolved_at = some now }
    else c

abbrev pub resolve_all :
    (now session_id content : Text) → Option (List Commitment) → SessionState → SessionState
resolve_all now session_id content none s = s
resolve_all now session_id content (some cs) s = record s {
  commitments = put session_id (map (fulfil now content) cs) s.commitments;
}

unfoldable pub resolve_commitment : (now session_id content : Text) → SessionState → SessionState
unfolding fulfil
resolve_commitment now session_id content s =
    resolve_all now session_id content (get session_id s.commitments) s

unfoldable pub get_open_loops : Text → SessionState → List Commitment
unfolding get_commitments
get_open_loops session_id s = get_commitments session_id (some (codes "open")) s

unfoldable pub clear_session : Text → SessionState → SessionState
unfolding text_eq
clear_session session_id s = record {
  task_states = pop session_id s.task_states;
  commitments = pop session_id s.commitments;
}

-- ===== src/Run.antt =====
-- backend/src/literature_agent/domain/run.py: the Run entity and its state machine. Identifiers
-- (UUID texts) are only compared, so they are numbers; times are microseconds; `datetime.now` and
-- `uuid4` are arguments.
mod Status
pub mod Errors
pub mod Machine
unfoldable pub use Status.*
use text.Mathlib.Text.{◌==◌ as str_eq}
use literature_research_agen.Base.{
  ℕ, String, Bool, true, false, List, [], ◌∷◌, Option, none, some, Json, empty_payload,
  if◌then◌else◌,
}
use Errors.{Result, ok, err, invalid_run_transition, value_error}

-- `RunType`
pub data RunType : Type 0 where
  ingestion indexing rag_answer review agent_turn : RunType

-- `RunType.value`
unfoldable pub run_type_value : RunType → String
run_type_value ingestion = "ingestion"
run_type_value indexing = "indexing"
run_type_value rag_answer = "rag_answer"
run_type_value review = "review"
run_type_value agent_turn = "agent_turn"

-- `RunType(text)`; `none` is the `ValueError`.
unfoldable pub parse_run_type : String → Option RunType
parse_run_type s =
    if str_eq s "ingestion"
    then some ingestion
    else if str_eq s "indexing"
    then some indexing
    else if str_eq s "rag_answer"
    then some rag_answer
    else if str_eq s "review"
    then some review
    else if str_eq s "agent_turn"
    then some agent_turn
    else none

pub record Run : Type 0 where
  pub run_id : ℕ
  pub project_id : ℕ
  pub owner_id : ℕ
  pub run_type : String
  pub status : RunStatus
  pub input_payload : Json
  pub result_payload : Json
  pub event_sequence : ℕ
  pub created_at : ℕ
  pub updated_at : ℕ

-- `Run.transition_to`
unfoldable pub transition_to : Run → RunStatus → ℕ → Result Run
transition_to self new_status now =
    if is_final self.status
    then err (invalid_run_transition self.run_id self.status new_status)
    else if contains_status (transitions self.status) new_status
    then ok (record self { status = new_status; updated_at = now })
    else err (invalid_run_transition self.run_id self.status new_status)

new_run : ℕ → ℕ → ℕ → RunType → Json → ℕ → Run
new_run run_id project_id owner_id run_type input_payload now = record {
  run_id = run_id;
  project_id = project_id;
  owner_id = owner_id;
  run_type = run_type_value run_type;
  status = queued;
  input_payload = input_payload;
  result_payload = empty_payload;
  event_sequence = 1;
  created_at = now;
  updated_at = now;
}

-- `create_run`; a missing `input_payload` is `{}`.
unfoldable pub create_run : ℕ → ℕ → ℕ → String → Option Json → ℕ → Result Run
unfolding new_run
create_run run_id project_id owner_id run_type input_payload now = elim (parse_run_type run_type) [
  | none ↦ err value_error
  | some t ↦ ok (new_run run_id project_id owner_id t (payload_or_empty input_payload) now)
]
  where
    payload_or_empty : Option Json → Json
    payload_or_empty none = empty_payload
    payload_or_empty (some p) = p

-- ===== src/Tests/Controls.antt =====
-- Tests and witnesses of the control of runtime executions.
use literature_research_agen.Base.{
  ℕ, ◌≡◌, refl, some, List, [], ◌∷◌, arith, false, count_where, update_where,
}
use literature_research_agen.Run.{running, same_status}
use literature_research_agen.Attempt.{same_attempt_status}
use literature_research_agen.Db.{Db}
use literature_research_agen.Runtime.Texts.{Text, same_text}
use literature_research_agen.Runtime.{RuntimeExecution, RuntimeExecutionPermit}
use literature_research_agen.Runtime.Create.{Request, new_execution}
use literature_research_agen.Control.{answered, raised, lease_lost, get_execution}
use literature_research_agen.Control.Service.{to_renew, mutate_owned}
use literature_research_agen.Control.Evolution.{Evolves}
use literature_research_agen.Control.Refinement.{
  ControlCall, claims_turn, mutates, perform_controls, perform_controls_refines,
}
use literature_research_agen.Control.Ownership.{
  IsOwnWrite, IsSuperseded, mutate_owned_fenced, mutate_owned_own,
}
use literature_research_agen.Tests.Fixtures.{run_at, attempt}

-- The text of an identifier, here of one character.
abbrev one_character : ℕ → Text
one_character n = n ∷ []

abbrev running_turn : Db
running_turn = record {
  runs = run_at running 3 ∷ [];
  events = [];
  attempts = attempt ∷ [];
  outbox = [];
}

abbrev turn_request : Request
turn_request = record {
  session_id = 115 ∷ [];
  runtime_execution_id = 120 ∷ [];
  request_hash = [];
  runtime_revision = 49 ∷ [];
  graph_revision = 50 ∷ [];
  deepagents_version = 51 ∷ [];
  langgraph_version = 52 ∷ [];
}

abbrev turn_held : RuntimeExecution
turn_held = new_execution (1 ∷ []) turn_request (200 ∷ []) (111 ∷ []) 50 10

abbrev own_permit : RuntimeExecutionPermit
own_permit = record {
  turn_run_id = 1 ∷ [];
  owner_id = 111 ∷ [];
  attempt_id = 200 ∷ [];
  fencing_token = 1;
}

abbrev turn_renewed : RuntimeExecution
turn_renewed = record turn_held { lease_expires_at = some 60; updated_at = 30 }

abbrev renew_call : ControlCall
renew_call = mutates running_turn (turn_held ∷ []) 25 running_turn 30 own_permit to_renew 30

renewed_test :
    mutate_owned one_character running_turn
      (turn_held ∷ [])
      25
      running_turn
      (turn_held ∷ [])
      30
      own_permit
      to_renew
      30
    ≡ answered turn_renewed (turn_renewed ∷ [])
unfolding mutate_owned same_text same_status same_attempt_status count_where update_where
renewed_test = refl

mutate_owned_own_example :
    IsOwnWrite one_character running_turn
      (turn_held ∷ [])
      30
      own_permit
      to_renew
      30
      turn_renewed
      (turn_renewed ∷ [])
mutate_owned_own_example =
    mutate_owned_own one_character running_turn (turn_held ∷ []) 25 running_turn (turn_held ∷ []) 30
      own_permit to_renew 30 turn_renewed (turn_renewed ∷ []) renewed_test

abbrev two_calls : List ControlCall
two_calls = renew_call ∷ claims_turn running_turn false (1 ∷ []) turn_request (112 ∷ []) 30 90 ∷ []

perform_controls_refines_example :
    Evolves
      (get_execution (1 ∷ []) (turn_held ∷ []))
      (get_execution (1 ∷ []) (perform_controls one_character two_calls (turn_held ∷ [])))
perform_controls_refines_example =
    perform_controls_refines one_character two_calls (turn_held ∷ []) (1 ∷ [])

-- The holder of token 2 has superseded the permit.
abbrev turn_taken_over : RuntimeExecution
turn_taken_over = record turn_held { fencing_token = 2 }

superseded : IsSuperseded own_permit (get_execution (1 ∷ []) (turn_taken_over ∷ []))
unfolding get_execution same_text
superseded = omega arith

mutate_owned_fenced_example :
    mutate_owned one_character running_turn
      (turn_held ∷ [])
      25
      running_turn
      (perform_controls one_character two_calls (turn_taken_over ∷ []))
      30
      own_permit
      to_renew
      95
    ≡ raised lease_lost
mutate_owned_fenced_example =
    mutate_owned_fenced one_character (turn_taken_over ∷ []) two_calls own_permit running_turn
      (turn_held ∷ []) 25 running_turn 30 to_renew 95 superseded

-- ===== src/Tests/Agent.antt =====
-- The theorems on the agent's requests at concrete inputs.
use modelrelay.Base.{◌≡◌, refl, false, [], ◌∷◌, arith, some, none, lookup, nat_eq, byte_list_eq}
use modelrelay.Agent.Requests.{Request, AgentState, cancel_all}
use modelrelay.Agent.Requests.Slots.{IsBounded, requested, finished, agent_run, agent_run-IsBounded}
use modelrelay.Agent.Requests.Cancellation.{cancel_all-keys}
use modelrelay.Tests.{some_id, flat_hash}

abbrev pub idle_agent : AgentState
idle_agent = record {
  running = [];
  active = [];
  draining = false;
  local_sem = 0;
  stats = record {
    requests_total = 0;
    requests_failed = 0;
    local_busy_total = 0;
    canceled_total = 0;
  };
}

abbrev a_request : Request
a_request = record {
  request_id = some_id;
  method = "POST";
  path = "/v1/completions";
  body_len = some 3;
}

nothing_runs : lookup 0 idle_agent.running ≡ none
unfolding lookup
nothing_runs = refl

agent_run-IsBounded_example :
    IsBounded 2 (agent_run flat_hash 100 2 idle_agent (requested 0 a_request ∷ finished 0 ∷ []))
agent_run-IsBounded_example =
    agent_run-IsBounded flat_hash 100 2 idle_agent (requested 0 a_request ∷ finished 0 ∷ [])
      (nothing_runs, (tt, tt)) (record { keyed = tt; counted = refl; bounded = omega arith })

abbrev busy_agent : AgentState
busy_agent = record idle_agent { active = (some_id, 0) ∷ []; local_sem = 1 }

no_such_key : lookup (flat_hash some_id) busy_agent.active ≡ none
unfolding lookup
no_such_key = refl

cancel_all-keys_example : cancel_all flat_hash busy_agent ≡ busy_agent
unfolding lookup
cancel_all-keys_example = cancel_all-keys flat_hash busy_agent ((refl, refl), tt)

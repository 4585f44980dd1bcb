-- ===== src/Ingest/Scope.antt =====
-- server/internal/ingest/scope_check.go: whether an agent's action is within its authorised scopes,
-- as of the accept. It is noted on the event and never refuses it.
pub mod Verdict
use stonewrit.Prelude.{
  List, [], ◌∷◌, ◌++◌, Bool, true, false, not, ◌&&◌, Option, none, some, Text, codes, str_eq,
  if◌then◌else◌,
}
use stonewrit.Prelude.Errors.{Error, Result, ok, err}
use stonewrit.Spec.{Actor, Action}
use stonewrit.Db.{Agent, ScopeCheckResult}

-- scopeSatisfied: the Boolean, and the missing scopes
unfoldable pub scope_satisfied : Text → List Text → Bool × List Text
scope_satisfied required [] = (false, required ∷ [])
scope_satisfied required (s ∷ authorized) =
    let later = scope_satisfied required authorized in
    if str_eq s required then (true, []) else later

-- GetAgentByExternalID
unfoldable pub get_agent : Text → Text → Text → List Agent → Option Agent
get_agent org project external [] = none
get_agent org project external (a ∷ agents) =
    let rest = get_agent org project external agents in
    if str_eq a.organization_id org
      && (str_eq a.project_id project && str_eq a.external_id external)
    then some a
    else rest

not_registered : Actor → Action → ScopeCheckResult
not_registered actor action = record {
  agent_id = [];
  agent_external_id = actor.id;
  agent_name = [];
  agent_status = [];
  authorized_scopes = [];
  required_scope = action.category;
  in_scope = false;
  out_of_scope = action.category ∷ [];
  reason = codes "agent_not_registered";
}

-- the `switch` on the agent's status and the decision: the reason and the missing scopes
unfoldable pub outcome : Bool → Bool → Text → List Text → Text × List Text
outcome false satisfied status missing =
    (codes "agent_" ++ status, if not satisfied then missing else [])
outcome true false status missing = (codes "scope_mismatch", missing)
outcome true true status missing = (codes "ok", [])

unfoldable pub registered : Actor → Action → Agent → ScopeCheckResult
unfolding scope_satisfied outcome
registered actor action agent =
    let (satisfied, missing) = scope_satisfied action.category agent.authorized_scopes in
    let active = str_eq agent.status (codes "active") in
    let (reason, out_of_scope) = outcome active satisfied agent.status missing in
    record {
      agent_id = agent.id;
      agent_external_id = actor.id;
      agent_name = agent.name;
      agent_status = agent.status;
      authorized_scopes = agent.authorized_scopes;
      required_scope = action.category;
      in_scope = satisfied && active;
      out_of_scope = out_of_scope;
      reason = reason;
    }

-- ComputeScopeCheck; `fails` is an error of the query other than no rows
unfoldable pub compute_scope_check :
    Option Error → List Agent → Text → Text → Actor → Action → Result (Option ScopeCheckResult)
unfolding get_agent not_registered registered
compute_scope_check fails agents org project actor action =
    if not (str_eq actor.type (codes "ai_agent")) then ok none else elim fails [
      | some e ↦ err e
      | none ↦ elim (get_agent org project actor.id agents) [
        | none ↦ ok (some (not_registered actor action))
        | some agent ↦ ok (some (registered actor action agent))
      ]
    ]

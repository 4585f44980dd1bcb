-- ===== src/Ingest/Scope/Verdict.antt =====
-- What the scope check of a registered agent says.
use stonewrit.Prelude.{
  ◌≡◌, ◌↔◌, refl, sym, inl, inr, Bool, true, false, Bool-cases, ◌&&◌, none, some, List, [], ◌∷◌,
  Text, codes, str_eq, str_eq_iff, str_eq_refl, Elem, arith,
}
use stonewrit.Prelude.Errors.{ok}
use stonewrit.Spec.{Actor, Action}
use stonewrit.Db.{Agent, ScopeCheckResult}
use stonewrit.Ingest.Scope.{scope_satisfied, get_agent, outcome, registered, compute_scope_check}

-- the decision is membership
scope_satisfied_iff :
    (required : Text) (authorized : List Text)
    → ((scope_satisfied required authorized).0 ≡ true) ↔ Elem required authorized
unfolding scope_satisfied
scope_satisfied_iff required [] = (λ h. cc h, λ m. elim m [ ])
scope_satisfied_iff required (s ∷ authorized) = elim (Bool-cases (str_eq s required)) [
  | inl e ↦ (λ _. inl (sym ((str_eq_iff s required).0 e)), λ _. rw (e, scope_satisfied) refl)
  | inr e ↦ (
    λ h. inr ((scope_satisfied_iff required authorized).0 (rw (e, scope_satisfied) at h)),
    λ m. elim m [
      | inl same ↦ absurd (clash same e)
      | inr later ↦ rw (e, scope_satisfied) ((scope_satisfied_iff required authorized).1 later)
    ],
  )
]
  where
    clash : required ≡ s → str_eq s required ≡ false → ⊥
    clash same e = cc (e, (str_eq_iff s required).1 (sym same))

-- the reason is "ok" exactly when the agent is active and the scope satisfied
outcome_iff :
    (active satisfied : Bool) (status : Text) (missing : List Text)
    → ((outcome active satisfied status missing).0 ≡ codes "ok") ↔ ((satisfied && active) ≡ true)
unfolding outcome
outcome_iff true true status missing = (λ _. refl, λ _. refl)
outcome_iff true false status missing = (λ h. cc h, λ h. cc h)
outcome_iff false true status missing = (λ h. cc h, λ h. cc h)
outcome_iff false false status missing = (λ h. cc h, λ h. cc h)

both_iff : (a b : Bool) → ((a && b) ≡ true) ↔ ((a ≡ true) × (b ≡ true))
both_iff true b = (λ h. (refl, h), λ h. h.1)
both_iff false b = (λ h. cc h, λ h. cc (h.0))

-- For an event of a registered agent, when the agent lookup does not fail, there is a scope check; it
-- is in scope exactly when the agent is active and the action's category is one of its scopes, and
-- exactly then its reason is "ok".
pub compute_scope_check_verdict :
    (agents : List Agent) (org project : Text) (actor : Actor) (action : Action) (agent : Agent)
    → actor.type ≡ codes "ai_agent"
    → get_agent org project actor.id agents ≡ some agent
    → (r : ScopeCheckResult) × (compute_scope_check none agents org project actor action
        ≡ ok (some r))
      × ((r.in_scope ≡ true)
          ↔ (Elem action.category agent.authorized_scopes × (agent.status ≡ codes "active")))
      × ((r.reason ≡ codes "ok") ↔ (r.in_scope ≡ true))
unfolding compute_scope_check registered
compute_scope_check_verdict agents org project actor action agent type found =
    let satisfied = (scope_satisfied action.category agent.authorized_scopes).0 in
    let active = str_eq agent.status (codes "active") in
    (
      registered actor action agent,
      grind (arith, type, found, str_eq_refl (codes "ai_agent")),
      (
        λ h.
            let (a, b) = (both_iff satisfied active).0 h in
            (
              (scope_satisfied_iff action.category agent.authorized_scopes).0 a,
              (str_eq_iff agent.status (codes "active")).0 b,
            ),
        λ h. (both_iff satisfied active).1 (
          (scope_satisfied_iff action.category agent.authorized_scopes).1 h.0,
          (str_eq_iff agent.status (codes "active")).1 h.1,
        ),
      ),
      outcome_iff active satisfied agent.status
          (scope_satisfied action.category agent.authorized_scopes).1,
    )

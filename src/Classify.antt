-- ===== src/Classify.antt =====
-- classify/classify.go: data classes and a risk level from the facts of an event.
pub mod Packs
pub mod MapControls
pub mod Classes
pub mod Risk
use stonewrit.Prelude.{
  List, [], ◌∷◌, ◌++◌, Bool, true, false, ◌||◌, Text, codes, str_eq, str_leb, has_prefix, contains,
  if◌then◌else◌,
}
use stonewrit.Prelude.Sort.{sort_by, distinct}

pub data RiskLevel : Type 0 where
  low medium high : RiskLevel

abbrev pub risk_text : RiskLevel → Text
risk_text low = codes "low"
risk_text medium = codes "medium"
risk_text high = codes "high"

pub record Event : Type 0 where
  pub event_type : Text
  pub actor_type : Text
  pub action_result : Text
  pub data_classes : List Text

pub record Classification : Type 0 where
  pub data_classes : List Text
  pub risk_level : RiskLevel

abbrev pub high_risk : List Text
high_risk = codes "pii" ∷ codes "customer_data" ∷ codes "phi" ∷ codes "pci" ∷ codes "financial" ∷ []

-- `if cond { set[c] = struct{}{} }`
add_if : Bool → Text → List Text → List Text
add_if cond c set = if cond then set ++ c ∷ [] else set

-- the set of classes, before it is sorted; a class may stand in the list twice
unfoldable pub class_set : Event → List Text
unfolding add_if
class_set e =
    let s1 =
      add_if (str_eq e.actor_type (codes "ai_agent")) (codes "ai_agent_action") e.data_classes in
    let s2 = add_if (has_prefix e.event_type (codes "data.")) (codes "data_event") s1 in
    let s3 = add_if (has_prefix e.event_type (codes "admin.")) (codes "privileged_admin") s2 in
    let s4 = add_if (has_prefix e.event_type (codes "identity.")) (codes "identity_event") s3 in
    let s5 = add_if (has_prefix e.event_type (codes "agent.")) (codes "ai_agent_action") s4 in
    add_if (has_prefix e.event_type (codes "vendor.")) (codes "vendor_data_egress") s5

-- the loop over the classes that breaks at the first high-risk one
unfoldable pub any_high : List Text → Bool
any_high [] = false
any_high (c ∷ classes) = contains high_risk c || any_high classes

bump_high : Bool → RiskLevel → RiskLevel
bump_high cond risk = if cond then high else risk

bump_at_least_medium : Bool → RiskLevel → RiskLevel
bump_at_least_medium false risk = risk
bump_at_least_medium true low = medium
bump_at_least_medium true medium = medium
bump_at_least_medium true high = high

-- the tests under `if risk != RiskHigh`
bump_medium : Event → RiskLevel → RiskLevel
unfolding bump_at_least_medium
bump_medium e high = high
bump_medium e risk = bump_at_least_medium (str_eq e.actor_type (codes "ai_agent")) (
    bump_at_least_medium (str_eq e.action_result (codes "denied")) (
      bump_at_least_medium (has_prefix e.event_type (codes "admin."))
        (bump_at_least_medium (has_prefix e.event_type (codes "data.")) risk)))

unfoldable pub classify : Event → Classification
unfolding class_set any_high bump_high bump_medium distinct sort_by
classify e =
    let classes = sort_by str_leb (distinct (class_set e)) in
    let r1 = bump_high (any_high classes) low in
    let r2 = bump_high (str_eq e.event_type (codes "data.exported")) r1 in
    let r3 = bump_high (str_eq e.event_type (codes "data.shared_external")) r2 in
    record { data_classes = classes; risk_level = bump_medium e r3 }

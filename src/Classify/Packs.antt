-- ===== src/Classify/Packs.antt =====
-- classify/packs.go: control packs and the rule predicate. The packs are embedded JSON files, which
-- are a parameter here: the list of packs in the order in which the directory lists them.
use stonewrit.Prelude.{
  List, [], ◌∷◌, ◌++◌, Bool, true, false, not, ◌&&◌, ◌||◌, Text, str_leb, has_prefix, contains,
  if◌then◌else◌,
}
use stonewrit.Prelude.Sort.{sort_by}

pub record Framework : Type 0 where
  pub id : Text
  pub name : Text
  pub description : Text
  pub version : Text

pub record Control : Type 0 where
  pub framework : Text
  pub control_id : Text
  pub title : Text
  pub description : Text
  pub category : Text

pub record Match : Type 0 where
  pub event_type_exact : List Text
  pub event_type_prefix : List Text
  pub data_classes_any : List Text
  pub actor_type_any : List Text
  pub action_result_any : List Text

pub record Rule : Type 0 where
  pub id : Text
  pub matching : Match
  pub controls : List Text
  pub reason : Text

pub record Pack : Type 0 where
  pub id : Text
  pub name : Text
  pub description : Text
  pub frameworks : List Framework
  pub controls : List Control
  pub rules : List Rule

pub record Subject : Type 0 where
  pub event_type : Text
  pub data_classes : List Text
  pub actor_type : Text
  pub action_result : Text

abbrev pub is_empty : List Text → Bool
is_empty [] = true
is_empty (x ∷ xs) = false

unfoldable pub any_prefix : Text → List Text → Bool
any_prefix s [] = false
any_prefix s (p ∷ ps) = has_prefix s p || any_prefix s ps

unfoldable pub intersects : List Text → List Text → Bool
intersects [] b = false
intersects (x ∷ a) b = contains b x || intersects a b

-- the event-type dimension: satisfied when neither list is populated
event_type_ok : Match → Subject → Bool
event_type_ok m s =
    (is_empty m.event_type_exact && is_empty m.event_type_prefix)
    || (contains m.event_type_exact s.event_type || any_prefix s.event_type m.event_type_prefix)

unfoldable pub matches : Match → Subject → Bool
unfolding event_type_ok any_prefix intersects
matches m s =
    if not (event_type_ok m s)
    then false
    else if not (is_empty m.data_classes_any) && not (intersects s.data_classes m.data_classes_any)
    then false
    else if not (is_empty m.actor_type_any) && not (contains m.actor_type_any s.actor_type)
    then false
    else if not (is_empty m.action_result_any) && not (contains m.action_result_any s.action_result)
    then false
    else true

-- `All`: the packs sorted by id
unfoldable pub all_packs : List Pack → List Pack
unfolding sort_by
all_packs = sort_by (λ a b. str_leb a.id b.id)

concat_rules : List Pack → List Rule
concat_rules [] = []
concat_rules (p ∷ ps) = p.rules ++ concat_rules ps

unfoldable pub rules : List Pack → List Rule
unfolding all_packs concat_rules
rules packs = concat_rules (all_packs packs)

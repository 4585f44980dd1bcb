-- ===== src/Classify/MapControls.antt =====
-- classify/mapcontrols.go: the proposed control mappings of an event.
use stonewrit.Prelude.{
  List, [], ◌∷◌, ◌++◌, Bool, true, false, not, Option, none, some, Text, codes, contains,
  if◌then◌else◌, ◌==◌, map,
}
use stonewrit.Classify.Packs.{Pack, Rule, Subject, matches, rules}

pub record Mapping : Type 0 where
  pub framework : Text
  pub control_id : Text
  pub reason : Text

pub record MapInput : Type 0 where
  pub event_type : Text
  pub data_classes : List Text
  pub actor_type : Text
  pub action_result : Text
  pub customer_control_ids : List Text

pub record Hit : Type 0 where
  pub ref : Text
  pub reason : Text

-- `seen` holds exactly the references of `order`
abbrev pub refs : List Hit → List Text
refs = map (λ h. h.ref)

-- one reference: `if _, dup := seen[ref]; dup { continue }`
unfoldable pub add_hit : Text → Text → List Hit → List Hit
add_hit reason ref order =
    if contains (refs order) ref then order else order ++ record { ref = ref; reason = reason } ∷ []

unfoldable pub add_refs : Text → List Text → List Hit → List Hit
unfolding add_hit
add_refs reason [] order = order
add_refs reason (ref ∷ more) order = add_refs reason more (add_hit reason ref order)

unfoldable pub add_rules : Subject → List Rule → List Hit → List Hit
unfolding add_refs
add_rules s [] order = order
add_rules s (r ∷ rs) order =
    add_rules s rs (if matches r.matching s then add_refs r.reason r.controls order else order)

-- strings.Contains(ref, ":")
unfoldable pub has_colon : Text → Bool
has_colon [] = false
has_colon (c ∷ s) = if c == b':' then true else has_colon s

unfoldable pub add_customer : List Text → List Hit → List Hit
unfolding add_hit has_colon
add_customer [] order = order
add_customer (ref ∷ more) order =
    add_customer more
      (if not (has_colon ref) then order else add_hit (codes "customer_declared") ref order)

-- `ref[:idx]` and `ref[idx+1:]` for the first colon; `none` is the panic of `ref[:-1]`
unfoldable pub split_colon : Text → Option (Text × Text)
split_colon [] = none
split_colon (c ∷ s) =
    let rest = split_colon s in
    if c == b':' then some ([], s) else elim rest [ none ↦ none | some (f, i) ↦ some (c ∷ f, i) ]

unfoldable pub to_mappings : List Hit → Option (List Mapping)
unfolding split_colon
to_mappings [] = some []
to_mappings (h ∷ hs) =
    let rest = to_mappings hs in
    elim (split_colon h.ref) [
      | none ↦ none
      | some (f, i) ↦ elim rest [
        | none ↦ none
        | some ms ↦ some (record { framework = f; control_id = i; reason = h.reason } ∷ ms)
      ]
    ]

abbrev pub subject_of : MapInput → Subject
subject_of i = record {
  event_type = i.event_type;
  data_classes = i.data_classes;
  actor_type = i.actor_type;
  action_result = i.action_result;
}

unfoldable pub hits : List Pack → MapInput → List Hit
unfolding add_rules add_customer
hits packs i = add_customer i.customer_control_ids (add_rules (subject_of i) (rules packs) [])

-- `none` is a panic
unfoldable pub compute : List Pack → MapInput → Option (List Mapping)
unfolding hits to_mappings
compute packs i = to_mappings (hits packs i)

-- ===== src/Evidence.antt =====
-- server/internal/routes/evidence.go: Summary, with the queries that count (queries/gen/evidence.sql.go
-- and ListControlsForFramework). The reply is a function of the query, the clock and the tables.
pub mod Pairs
pub mod Counts
use stonewrit.Prelude.{
  ℕ, List, [], ◌∷◌, ◌++◌, map, filter, length, Bool, true, false, not, ◌&&◌, ◌||◌, Option, none,
  some, Text, codes, str_eq, str_leb, has_prefix, contains, leb, ltb, if◌then◌else◌,
}
use stonewrit.Prelude.Errors.{Error}
use stonewrit.Prelude.Sort.{sort_by, distinct}
use stonewrit.Spec.{Time}
use stonewrit.Auth.{Context}
use stonewrit.Db.{EventRow, MappingRow}
use stonewrit.Read.{Reply, with_context, bad_request, missing, internal, found}

pub record FrameworkRow : Type 0 where
  pub id : Text
  pub name : Text
  pub description : Option Text
  pub version : Option Text

pub record ControlRow : Type 0 where
  pub id : Text
  pub framework : Text
  pub control_id : Text
  pub title : Text
  pub description : Option Text
  pub category : Option Text

-- the columns of `exceptions` that are read
pub record ExceptionRow : Type 0 where
  pub organization_id : Text
  pub project_id : Text
  pub status : Text

pub record Tables : Type 0 where
  pub events : List EventRow
  pub mappings : List MappingRow
  pub exceptions : List ExceptionRow
  pub frameworks : List FrameworkRow
  pub controls : List ControlRow

-- the organization, the project and the period of a summary
pub record Window : Type 0 where
  pub organization_id : Text
  pub project_id : Text
  pub from : Time
  pub to : Time

unfoldable pub in_period : Window → EventRow → Bool
in_period w e =
    str_eq e.project_id w.project_id && (leb w.from e.received_at && ltb e.received_at w.to)

unfoldable pub in_window : Window → EventRow → Bool
unfolding in_period
in_window w e = str_eq e.organization_id w.organization_id && in_period w e

-- the conditions of the counting queries
privileged : EventRow → Bool
privileged e =
    has_prefix e.event_type (codes "admin.")
    || contains
        (codes "identity.permission.granted"
          ∷ codes "identity.permission.revoked"
          ∷ codes "identity.role.changed"
          ∷ codes "identity.mfa.enabled"
          ∷ codes "identity.mfa.disabled"
          ∷ codes "identity.session.revoked"
          ∷ [])
        e.event_type

by_ai_agent : EventRow → Bool
by_ai_agent e = str_eq e.actor_type (codes "ai_agent") || has_prefix e.event_type (codes "agent.")

out_of_scope : EventRow → Bool
out_of_scope e = elim e.scope_check_result [ none ↦ false | some s ↦ not s.in_scope ]

denied : EventRow → Bool
denied e =
    str_eq e.action_result (codes "denied")
    || elim e.policy_decision [ none ↦ false | some d ↦ str_eq d (codes "denied") ]

shared : EventRow → Bool
shared e =
    contains (codes "data.exported" ∷ codes "data.shared_external" ∷ codes "vendor.data_sent" ∷ [])
      e.event_type

unfoldable pub count_events : Window → (EventRow → Bool) → List EventRow → ℕ
unfolding in_window
count_events w p events = length (filter p (filter (in_window w) events))

count_open_exceptions : Window → List ExceptionRow → ℕ
count_open_exceptions w rows = length (
    filter
      (λ x.
        str_eq x.organization_id w.organization_id
        && (str_eq x.project_id w.project_id && str_eq x.status (codes "open")))
      rows)

pub record Totals : Type 0 where
  pub total_events : ℕ
  pub privileged_access_count : ℕ
  pub ai_agent_action_count : ℕ
  pub out_of_scope_agent_action_count : ℕ
  pub policy_denial_count : ℕ
  pub external_data_sharing_count : ℕ
  pub open_exceptions : ℕ

unfoldable pub totals_of : Window → Tables → Totals
unfolding count_events count_open_exceptions privileged by_ai_agent out_of_scope denied shared
totals_of w t = record {
  total_events = count_events w (λ e. true) t.events;
  privileged_access_count = count_events w privileged t.events;
  ai_agent_action_count = count_events w by_ai_agent t.events;
  out_of_scope_agent_action_count = count_events w out_of_scope t.events;
  policy_denial_count = count_events w denied t.events;
  external_data_sharing_count = count_events w shared t.events;
  open_exceptions = count_open_exceptions w t.exceptions;
}

-- the control of each pair of a mapping and its event that GetEvidenceCountsPerControl joins
unfoldable pub joined : Window → Text → List EventRow → List MappingRow → List Text
unfolding in_period
joined w framework events [] = []
joined w framework events (m ∷ ms) =
    let rest = joined w framework events ms in
    if str_eq m.organization_id w.organization_id && str_eq m.framework framework
    then map (λ e. m.control_id) (filter (λ e. str_eq e.id m.event_id && in_period w e) events)
      ++ rest
    else rest

unfoldable pub count_of : Text → List Text → ℕ
count_of x xs = length (filter (str_eq x) xs)

pub record CountRow : Type 0 where
  pub framework : Text
  pub control_id : Text
  pub evidence_count : ℕ

-- GROUP BY
unfoldable pub grouped : Text → List Text → List CountRow
unfolding count_of distinct
grouped framework xs =
    map (λ c. record { framework = framework; control_id = c; evidence_count = count_of c xs })
      (distinct xs)

abbrev pub key_of : Text → Text → Text
key_of framework control = framework ++ (codes ":" ++ control)

-- the map `counts`, a later row before an earlier one
unfoldable pub last_count : List CountRow → Text → Option ℕ
last_count [] key = none
last_count (r ∷ rs) key =
    let later = last_count rs key in
    elim later [
      | some n ↦ some n
      | none ↦ if str_eq (key_of r.framework r.control_id) key then some r.evidence_count else none
    ]

unfoldable pub count_or_zero : Option ℕ → ℕ
count_or_zero none = 0
count_or_zero (some n) = n

-- ListControlsForFramework
unfoldable pub list_controls : Text → List ControlRow → List ControlRow
list_controls framework rows =
    sort_by (λ a b. str_leb a.control_id b.control_id)
      (filter (λ c. str_eq c.framework framework) rows)

pub record ControlView : Type 0 where
  pub control_id : Text
  pub title : Text
  pub description : Option Text
  pub category : Option Text
  pub evidence_count : ℕ

unfoldable pub control_view : List CountRow → ControlRow → ControlView
unfolding last_count count_or_zero
control_view counts c = record {
  control_id = c.control_id;
  title = c.title;
  description = c.description;
  category = c.category;
  evidence_count = count_or_zero (last_count counts (key_of c.framework c.control_id));
}

pub record SummaryView : Type 0 where
  pub framework : Text
  pub name : Text
  pub project_id : Text
  pub from : Time
  pub to : Time
  pub totals : Totals
  pub controls : List ControlView

-- the parameters of the URL; a missing one is empty
pub record SummaryQuery : Type 0 where
  pub framework : Text
  pub project_id : Text
  pub from : Text
  pub to : Text

-- strings.ToUpper, uuid.Parse, time.Parse, the clock and a month before it; the error of GetFramework,
-- and the error that the group of the other queries returns
pub record SummaryWorld : Type 0 where
  pub to_upper : Text → Text
  pub parse_uuid : Text → Option Text
  pub parse_time : Text → Option Time
  pub now : Time
  pub month_ago : Time
  pub framework_fails : Option Error
  pub group_fails : Option Error

-- a bound that is missing or does not parse is the default
unfoldable pub time_or : SummaryWorld → Time → Text → Time
time_or w default [] = default
time_or w default (c ∷ s) = elim (w.parse_time (c ∷ s)) [ none ↦ default | some t ↦ t ]

unfoldable pub find_framework : Text → List FrameworkRow → Option FrameworkRow
find_framework id [] = none
find_framework id (f ∷ fs) =
    let rest = find_framework id fs in if str_eq f.id id then some f else rest

unfoldable pub summary_view : SummaryQuery → Window → FrameworkRow → Text → Tables → SummaryView
unfolding totals_of joined grouped list_controls control_view
summary_view q win fw framework t = record {
  framework = fw.id;
  name = fw.name;
  project_id = q.project_id;
  from = win.from;
  to = win.to;
  totals = totals_of win t;
  controls =
      map (control_view (grouped framework (joined win framework t.events t.mappings)))
        (list_controls framework t.controls);
}

-- from the lookup of the framework on
unfoldable pub summarized : SummaryWorld → SummaryQuery → Window → Text → Tables → Reply SummaryView
unfolding find_framework summary_view
summarized w q win framework t = elim w.framework_fails [
  | some e ↦ internal e
  | none ↦ elim (find_framework framework t.frameworks) [
    | none ↦ missing (codes "framework_not_found")
    | some fw ↦ elim w.group_fails [
      | some e ↦ internal e
      | none ↦ found (summary_view q win fw framework t)
    ]
  ]
]

-- Evidence.Summary
unfoldable pub summary : SummaryWorld → Option Context → SummaryQuery → Tables → Reply SummaryView
unfolding with_context summarized time_or
summary w auth q t = with_context auth λ ac.
    let framework = w.to_upper q.framework in
    if str_eq framework [] || str_eq q.project_id []
    then bad_request (codes "missing_params")
    else elim (w.parse_uuid q.project_id) [
      | none ↦ bad_request (codes "invalid_project_id")
      | some project ↦
          summarized w q
            (record {
              organization_id = ac.organization_id;
              project_id = project;
              from = time_or w w.month_ago q.from;
              to = time_or w w.now q.to;
            })
            framework t
    ]

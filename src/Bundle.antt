-- ===== src/Bundle.antt =====
-- cmd/verify/main.go: verification of an exported evidence bundle.
pub mod Verdict
pub mod Window
use stonewrit.Prelude.{
  ℕ, List, [], ◌∷◌, map, filter, length, Option, none, some, Bool, true, false, ◌&&◌, Text, str_eq,
  str_leb, if◌then◌else◌,
}
use stonewrit.Prelude.Int.{ℤ, int_leb}
use stonewrit.Prelude.Sort.{sort_by, distinct}
use stonewrit.Json.{JsonLib}
use stonewrit.Core.Verify.{Record, ChainBreak, ChainResult, verify_chain}

pub record BundleChain : Type 0 where
  pub id : Text
  pub latest_position : ℤ
  pub latest_event_hash : Option Text

pub record BundleEvent : Type 0 where
  pub id : Text
  pub chain_id : Text
  pub chain_position : ℤ
  pub payload_hash : Text
  pub event_hash : Text

pub record Bundle : Type 0 where
  pub schema_version : Text
  pub chains : List BundleChain
  pub events : List BundleEvent

pub record ChainReport : Type 0 where
  pub chain_id : Text
  pub valid : Bool
  pub events_verified : ℕ
  pub event_count : ℕ
  pub tip_matches : Bool
  pub broken : Option ChainBreak

pub record Report : Type 0 where
  pub valid : Bool
  pub chain_count : ℕ
  pub event_count : ℕ
  pub chains : List ChainReport

-- `tips[id]`: the tip of the last chain of that id, nil for an unknown id; `found` is the entry so far
unfoldable pub tip_from : Option Text → List BundleChain → Text → Option Text
tip_from found [] id = found
tip_from found (c ∷ cs) id = tip_from (if str_eq c.id id then c.latest_event_hash else found) cs id

-- `byChain[id]`, in the order of the bundle
unfoldable pub events_of : Text → List BundleEvent → List BundleEvent
events_of id events = filter (λ e. str_eq e.chain_id id) events

-- the keys of `byChain`, sorted
unfoldable pub chain_ids : List BundleEvent → List Text
unfolding distinct sort_by
chain_ids events = sort_by str_leb (distinct (map (λ e. e.chain_id) events))

abbrev pub to_record : BundleEvent → Record
to_record e = record {
  previous_event_hash = none;
  payload_hash = e.payload_hash;
  event_hash = e.event_hash;
  chain_position = e.chain_position;
  content = none;
}

last_hash : List BundleEvent → Option Text
last_hash [] = none
last_hash (e ∷ []) = some e.event_hash
last_hash (e ∷ e' ∷ es) = last_hash (e' ∷ es)

-- tip != nil && *tip == the hash of the last event
same_hash : Option Text → Option Text → Bool
same_hash (some t) (some h) = str_eq t h
same_hash _ _ = false

unfoldable pub by_position : BundleEvent → BundleEvent → Bool
by_position a b = int_leb a.chain_position b.chain_position

module _ (lib : JsonLib) where
  -- one round of the loop over the chains
  unfoldable pub report_chain : Bundle → Text → ChainReport
  unfolding events_of sort_by tip_from last_hash same_hash by_position
  report_chain b id =
      let events = sort_by by_position (events_of id b.events) in
      let cr = verify_chain lib (map to_record events) in
      let tip_matches = cr.valid && same_hash (tip_from none b.chains id) (last_hash events) in
      record {
        chain_id = id;
        valid = cr.valid && tip_matches;
        events_verified = cr.events_verified;
        event_count = length events;
        tip_matches = tip_matches;
        broken = cr.broken;
      }

  all_valid : List ChainReport → Bool
  all_valid [] = true
  all_valid (r ∷ rs) = r.valid && all_valid rs

  unfoldable pub verify_bundle : Bundle → Report
  unfolding chain_ids report_chain all_valid
  verify_bundle b =
      let chains = map (report_chain b) (chain_ids b.events) in
      record {
        valid = all_valid chains;
        chain_count = length chains;
        event_count = length b.events;
        chains = chains;
      }

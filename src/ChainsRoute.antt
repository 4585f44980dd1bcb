-- ===== src/ChainsRoute.antt =====
-- server/internal/routes/chains.go: the handler of GET /chains/{chainId}/verify, from the chain's row
-- and the rows of its events on. What comes before, with its refusals, is in Read.
pub mod Accepts
use stonewrit.Prelude.{
  ℕ, ◌+◌, List, [], ◌∷◌, Bool, true, false, not, ◌&&◌, ◌||◌, Option, none, some, Text, codes,
  str_eq, filter, take, if◌then◌else◌, ltb,
}
use stonewrit.Prelude.Errors.{Error, no_rows, Result, ok, err}
use stonewrit.Prelude.Int.{ℤ, pos, negsuc, int_eq, int_leb}
use stonewrit.Prelude.Sort.{sort_by}
use stonewrit.Core.Hash.{event_hash}
use stonewrit.Core.Verify.{text_or_empty}
use stonewrit.Db.{Chain, EventRow, Db}

-- ChainVerifySyncLimit
abbrev pub sync_limit : ℕ
sync_limit = 10000

pub data BreakReason : Type 0 where
  prev_mismatch hash_mismatch : BreakReason

pub record Break : Type 0 where
  pub event_id : Text
  pub position : ℤ
  pub reason : BreakReason
  pub computed : Text
  pub stored : Text

pub record VerifyResponse : Type 0 where
  pub valid : Bool
  pub too_large : Bool
  pub events_verified : ℕ
  pub tip_matches : Bool
  pub broken : Option Break

-- the two tests of one round of the walk
unfoldable pub row_break : Text → EventRow → Option Break
unfolding text_or_empty
row_break prev ev =
    let expect_prev = text_or_empty ev.previous_event_hash in
    let recomputed = event_hash prev ev.payload_hash ev.chain_position in
    if not (str_eq expect_prev prev)
    then some (record {
      event_id = ev.id;
      position = ev.chain_position;
      reason = prev_mismatch;
      computed = prev;
      stored = expect_prev;
    })
    else if not (str_eq recomputed ev.event_hash)
    then some (record {
      event_id = ev.id;
      position = ev.chain_position;
      reason = hash_mismatch;
      computed = recomputed;
      stored = ev.event_hash;
    })
    else none

-- the walk: the break, if there is one, and the number of events verified
unfoldable pub walk_rows : Text → ℕ → List EventRow → Option Break × ℕ
unfolding row_break
walk_rows prev verified [] = (none, verified)
walk_rows prev verified (ev ∷ events) =
    let rest = walk_rows ev.event_hash (verified + 1) events in
    elim (row_break prev ev) [ none ↦ rest | some b ↦ (some b, verified) ]

last_row_hash : List EventRow → Option Text
last_row_hash [] = none
last_row_hash (e ∷ []) = some e.event_hash
last_row_hash (e ∷ e' ∷ es) = last_row_hash (e' ∷ es)

tip_ok : Option Text → Option Text → Bool
tip_ok (some latest) (some last) = str_eq latest last
tip_ok _ _ = false

is_nil : Option Text → Bool
is_nil none = true
is_nil (some s) = false

no_break : Option Break → Bool
no_break none = true
no_break (some b) = false

no_rows_left : List EventRow → Bool
no_rows_left [] = true
no_rows_left (e ∷ es) = false

-- from the chain's row and its events in the order of their positions
unfoldable pub verify_rows : Chain → List EventRow → VerifyResponse
unfolding walk_rows last_row_hash tip_ok is_nil no_break no_rows_left
verify_rows c events =
    let (broken, verified) = walk_rows [] 0 events in
    let tip = no_break broken && tip_ok c.latest_event_hash (last_row_hash events) in
    let empty_consistent =
      no_rows_left events && (int_eq c.latest_position (pos 0) && is_nil c.latest_event_hash) in
    record {
      valid = no_break broken && (empty_consistent || (not (no_rows_left events) && tip));
      too_large = false;
      events_verified = verified;
      tip_matches = tip;
      broken = broken;
    }

by_position : EventRow → EventRow → Bool
by_position a b = int_leb a.chain_position b.chain_position

-- WalkChainForVerify: ORDER BY chain_position ASC LIMIT $2
unfoldable pub walk_chain_for_verify : Text → ℕ → Db → List EventRow
unfolding by_position sort_by
walk_chain_for_verify id limit db =
    take limit (sort_by by_position (filter (λ r. str_eq r.chain_id id) db.events))

unfoldable pub verify_chain_row : Chain → Db → VerifyResponse
unfolding verify_rows walk_chain_for_verify
verify_chain_row c db =
    if not (int_leb c.latest_position (pos sync_limit))
    then record {
      valid = false;
      too_large = true;
      events_verified = 0;
      tip_matches = false;
      broken = none;
    }
    else verify_rows c (walk_chain_for_verify c.id sync_limit db)

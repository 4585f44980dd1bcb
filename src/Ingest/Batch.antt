-- ===== src/Ingest/Batch.antt =====
-- `PostBatch` of server/internal/routes/events.go, on the events of a decoded and validated request.
use stonewrit.Prelude.{ℕ, ◌+◌, List, [], ◌∷◌, ◌++◌, none, some, Text, codes}
use stonewrit.Prelude.Errors.{Error, Result, ok, err}
use stonewrit.Json.{JsonLib}
use stonewrit.Spec.{EventInput, BatchEventResult, BatchAcceptedResponse}
use stonewrit.Auth.{Context}
use stonewrit.Ingest.{World, State, AcceptInput, AcceptResult, accept}

-- one round of the loop: the counters and the results so far
rejection : ℕ → Text → BatchEventResult
rejection index message = record {
  status = codes "rejected";
  index = index;
  response = none;
  error = some (record { code = codes "ingest_failed"; message = message });
}

acceptance : ℕ → Context → AcceptResult → BatchEventResult
acceptance index ac r = record {
  status = codes "accepted";
  index = index;
  response = some (record {
    id = r.id;
    status = codes "pending";
    payload_hash = r.payload_hash;
    accepted_at = r.accepted_at;
    environment_id = ac.environment_id;
    shard_index = r.shard_index;
  });
  error = none;
}

unfoldable pub add_result :
    (Error → Text)
    → Context
    → ℕ
    → Result AcceptResult
    → BatchAcceptedResponse
    → BatchAcceptedResponse
unfolding rejection acceptance
add_result message ac index (err e) b = record {
  accepted = b.accepted;
  rejected = b.rejected + 1;
  results = b.results ++ rejection index (message e) ∷ [];
}
add_result message ac index (ok r) b = record {
  accepted = b.accepted + 1;
  rejected = b.rejected;
  results = b.results ++ acceptance index ac r ∷ [];
}

abbrev pub in_batch : Context → EventInput → AcceptInput
in_batch ac ev = record { auth = ac; event = ev; idempotency_key = [] }

module _ (lib : JsonLib) (message : Error → Text) (worlds : ℕ → World) (ac : Context) where
  -- the loop from an index on; `worlds i` is what the accept of event i meets, and `message` is
  -- err.Error()
  unfoldable pub post_events :
      ℕ → List EventInput → BatchAcceptedResponse → State → BatchAcceptedResponse × State
  unfolding add_result
  post_events index [] b s = (b, s)
  post_events index (ev ∷ events) b s =
      let (r, s') = accept lib (worlds index) (in_batch ac ev) s in
      post_events (index + 1) events (add_result message ac index r b) s'

  unfoldable pub post_batch : List EventInput → State → BatchAcceptedResponse × State
  unfolding post_events
  post_batch events s = post_events 0 events (record { accepted = 0; rejected = 0; results = [] }) s

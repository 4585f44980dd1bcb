-- ===== src/Core/Hash.antt =====
-- core/jcs.go and core/chain.go: canonical JSON, payload hashes and event hashes.
pub mod Injective
use stonewrit.Prelude.{[], ◌∷◌, ◌++◌, Text, codes, str_eq, if◌then◌else◌}
use stonewrit.Prelude.Errors.{Result, ok, wrapping, ◌>>=◌}
use stonewrit.Prelude.Int.{ℤ}
use stonewrit.Json.{Json, JsonLib}
use stonewrit.Crypto.{sha256}
use stonewrit.Crypto.Encoding.{hex, format_int}

abbrev pub hash_prefix : Text
hash_prefix = codes "sha256:"

module _ (lib : JsonLib) where
  unfoldable pub canonical_json : Json → Result Text
  canonical_json v = do
    raw ← wrapping (codes "marshal") (lib.marshal v)
    wrapping (codes "jcs transform") (lib.transform raw)

  unfoldable pub payload_hash : Json → Result Text
  payload_hash payload = do canon ← canonical_json payload; ok (hash_prefix ++ hex (sha256 canon))

-- the bytes that `EventHash` digests
unfoldable pub event_input : Text → Text → ℤ → Text
event_input previous_hash payload_hash position =
    let prev = if str_eq previous_hash [] then codes "genesis" else previous_hash in
    prev ++ (codes ":" ++ (payload_hash ++ (codes ":" ++ format_int position)))

unfoldable pub event_hash : Text → Text → ℤ → Text
event_hash previous_hash payload_hash position =
    hash_prefix ++ hex (sha256 (event_input previous_hash payload_hash position))

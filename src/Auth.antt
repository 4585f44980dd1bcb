-- ===== src/Auth.antt =====
-- server/internal/auth and server/internal/middleware/apikey.go: API keys, scopes, and the guard of
-- the routes. The request handler that the guard wraps is what it returns to.
pub mod Guard
use stonewrit.Prelude.{
  ℕ, List, [], ◌∷◌, Bool, true, false, not, ◌&&◌, Option, none, some, Text, codes, str_eq,
  has_prefix, if◌then◌else◌, ◌==◌, ◌||◌, reverse, leb, contains, ◌++◌,
}
use stonewrit.Prelude.Errors.{Error, no_rows, invalid_key, other, Result, ok, err}
use stonewrit.Crypto.{sha256}
use stonewrit.Crypto.Encoding.{hex}

pub record Context : Type 0 where
  pub organization_id : Text
  pub project_id : Text
  pub environment_id : Text
  pub api_key_id : Text
  pub scopes : List Text

pub record ApiKey : Type 0 where
  pub id : Text
  pub key_hash : Text
  pub organization_id : Text
  pub project_id : Text
  pub environment_id : Text
  pub scopes : List Text
  pub revoked : Bool

abbrev pub all_scopes : List Text
all_scopes =
    codes "events:write" ∷ codes "events:read" ∷ codes "chains:verify" ∷ codes "evidence:read" ∷ []

abbrev pub default_context : Context
default_context = record {
  organization_id = codes "default";
  project_id = codes "00000000-0000-0000-0000-000000000001";
  environment_id = codes "00000000-0000-0000-0000-000000000002";
  api_key_id = codes "00000000-0000-0000-0000-000000000003";
  scopes = all_scopes;
}

-- HashKey
unfoldable pub hash_key : Text → Text
hash_key token = hex (sha256 token)

-- HasScope
unfoldable pub has_scope : Context → Text → Bool
has_scope c required = contains c.scopes required

-- LookupApiKeyByHash: WHERE key_hash = $1 AND revoked_at IS NULL
unfoldable pub lookup_api_key : Text → List ApiKey → Option ApiKey
lookup_api_key hash [] = none
lookup_api_key hash (k ∷ ks) =
    let rest = lookup_api_key hash ks in
    if str_eq k.key_hash hash && not k.revoked then some k else rest

unfoldable pub context_of : ApiKey → Context
context_of k = record {
  organization_id = k.organization_id;
  project_id = k.project_id;
  environment_id = k.environment_id;
  api_key_id = k.id;
  scopes = k.scopes;
}

-- Verify; `fails` is an error of the query other than no rows
unfoldable pub verify : Option Error → List ApiKey → Text → Result Context
unfolding hash_key lookup_api_key context_of
verify (some e) keys token = err e
verify none keys token = elim (lookup_api_key (hash_key token) keys) [
  | none ↦ err invalid_key
  | some k ↦ ok (context_of k)
]

-- strings.TrimSpace on ASCII white space
is_space : ℕ → Bool
is_space c = c == 32 || (leb 9 c && leb c 13)

trim_left : Text → Text
unfolding is_space
trim_left [] = []
trim_left (c ∷ s) = let rest = trim_left s in if is_space c then rest else c ∷ s

unfoldable pub trim_space : Text → Text
unfolding trim_left
trim_space s = reverse (trim_left (reverse (trim_left s)))

-- the text behind a prefix
drop_prefix : Text → Text → Text
drop_prefix s [] = s
drop_prefix [] (d ∷ p) = []
drop_prefix (c ∷ s) (d ∷ p) = drop_prefix s p

-- bearerFrom, on the Authorization header
unfoldable pub bearer_from : Text → Option Text
unfolding trim_space drop_prefix
bearer_from h =
    if str_eq h []
    then none
    else if not (has_prefix h (codes "Bearer "))
    then none
    else let token = trim_space (drop_prefix h (codes "Bearer ")) in
      if str_eq token [] then none else some token

pub record Refusal : Type 0 where
  pub status : ℕ
  pub code : Text
  pub message : Text

-- what the guard does with a request: refuse it, or hand it on with its scope
pub data Decision : Type 0 where
  refuse : Refusal → Decision
  serve : Context → Decision

-- classifyAuthError
unfoldable pub classify_auth_error : Error → Refusal
classify_auth_error invalid_key = record {
  status = 401;
  code = codes "invalid_api_key";
  message = codes "API key invalid or revoked.";
}
classify_auth_error e = record {
  status = 500;
  code = codes "internal_error";
  message = codes "An internal error occurred.";
}

-- the loop over the required scopes: the first that is not granted
unfoldable pub missing_scope : Context → List Text → Option Text
unfolding has_scope
missing_scope c [] = none
missing_scope c (s ∷ required) =
    let rest = missing_scope c required in if not (has_scope c s) then some s else rest

-- Require
unfoldable pub require : Option Error → List ApiKey → List Text → Text → Decision
unfolding bearer_from verify classify_auth_error missing_scope
require fails keys required header = elim (bearer_from header) [
  | none ↦ refuse (record {
    status = 401;
    code = codes "invalid_api_key";
    message = codes "Missing or malformed Authorization header.";
  })
  | some token ↦ elim (verify fails keys token) [
    | err e ↦ refuse (classify_auth_error e)
    | ok c ↦ elim (missing_scope c required) [
      | some s ↦ refuse (record {
        status = 403;
        code = codes "insufficient_scope";
        message = codes "Required scope '" ++ s ++ codes "' not granted to this API key.";
      })
      | none ↦ serve c
    ]
  ]
]

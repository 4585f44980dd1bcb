-- ===== src/Auth/Guard.antt =====
-- Who gets past the guard.
use mathlib.Core.List.{reverse-append, reverse-cons, reverse-reverse}
use stonewrit.Crypto.{sha256}
use stonewrit.Crypto.Encoding.{hex}
use stonewrit.Prelude.{
  All-append, ℕ, ◌≢◌, ◌++◌, refl, subst, reverse, codes, str_eq, has_prefix, has_prefix_iff,
  contains, contains-Elem, Bool-cases, ◌≡◌, sym, ap, ◌∙◌, true, false, Option, none, some,
  Option-cases, List, [], ◌∷◌, Text, str_eq_iff, All, Elem, arith, inl, inr,
}
use stonewrit.Prelude.Errors.{Error, ok, Result-cases}
use stonewrit.Auth.{
  Context, ApiKey, hash_key, has_scope, lookup_api_key, context_of, verify, bearer_from, serve,
  missing_scope, require, is_space, trim_left, trim_space, drop_prefix,
}

-- ASCII white space
abbrev pub blanks : List ℕ
blanks = 9 ∷ 10 ∷ 11 ∷ 12 ∷ 13 ∷ 32 ∷ []

-- the header is the scheme and the token, with white space around the token
abbrev pub Bears : Text → Text → Type 0
Bears header token =
    (before : Text) × (after : Text) × (header ≡ codes "Bearer " ++ (before ++ (token ++ after)))
    × All (λ b. Elem b blanks) before
    × All (λ b. Elem b blanks) after
    × (token ≢ [])

is_space-Elem : (c : ℕ) → is_space c ≡ true → Elem c blanks
unfolding is_space
is_space-Elem c h = ground arith

trim_left-split :
    (s : Text) → (before : Text) × (s ≡ before ++ trim_left s) × All (λ b. Elem b blanks) before
unfolding trim_left
trim_left-split [] = ([], refl, tt)
trim_left-split (c ∷ s) = elim (Bool-cases (is_space c)) [
  | inr e ↦ ([], rw (e, trim_left) refl, tt)
  | inl e ↦
      let (before, same, blank) = trim_left-split s in
      (c ∷ before, rw (e, trim_left) (ap (◌∷◌ c) same), (is_space-Elem c e, blank))
]

All-reverse : (xs : Text) → All (λ b. Elem b blanks) xs → All (λ b. Elem b blanks) (reverse xs)
All-reverse [] h = tt
All-reverse (x ∷ xs) (h, hs) =
    subst (All (λ b. Elem b blanks)) (sym (reverse-cons x xs))
      (All-append (λ b. Elem b blanks) (reverse xs) (x ∷ []) (All-reverse xs hs) (h, tt))

trim_space-split :
    (s : Text)
    → (before : Text) × (after : Text) × (s ≡ before ++ (trim_space s ++ after))
      × All (λ b. Elem b blanks) before
      × All (λ b. Elem b blanks) after
unfolding trim_space
trim_space-split s =
    let (before, e, b) = trim_left-split s in
    let (tail, f, t) = trim_left-split (reverse (trim_left s)) in
    (
      before,
      reverse tail,
      e
          ∙ ap (λ u. before ++ u)
              (sym (reverse-reverse (trim_left s))
                ∙ ap reverse f
                ∙ reverse-append tail (trim_left (reverse (trim_left s)))),
      b,
      All-reverse tail t,
    )

drop_prefix-append : (p rest : Text) → drop_prefix (p ++ rest) p ≡ rest
unfolding drop_prefix
drop_prefix-append [] rest = refl
drop_prefix-append (d ∷ p) rest = drop_prefix-append p rest

bearer_from-Bears : (header token : Text) → bearer_from header ≡ some token → Bears header token
unfolding bearer_from
bearer_from-Bears header token h = elim (Bool-cases (str_eq header [])) [
  | inl e ↦ absurd (cc (rw (e, bearer_from) at h))
  | inr e ↦ elim (Bool-cases (has_prefix header (codes "Bearer "))) [
    | inr f ↦ absurd (cc (rw (e, bearer_from, f) at h))
    | inl f ↦
        let (rest, same) = (has_prefix_iff header (codes "Bearer ")).0 f in
        let behind : drop_prefix header (codes "Bearer ") ≡ rest =
          ap (λ x. drop_prefix x (codes "Bearer ")) same
          ∙ drop_prefix-append (codes "Bearer ") rest in
        let (before, after, parts, b, a) = trim_space-split rest in
        elim (Bool-cases (str_eq (trim_space rest) [])) [
          | inl g ↦ absurd (cc (rw (e, bearer_from, f, behind, g) at h))
          | inr g ↦
              let here : some (trim_space rest) ≡ some token =
                rw (e, bearer_from, f, behind, g) at h in
              let token' : trim_space rest ≡ token = cc in
              (
                before,
                after,
                same
                    ∙ ap (λ u. codes "Bearer " ++ u)
                        (parts ∙ ap (λ u. before ++ (u ++ after)) token'),
                b,
                a,
                λ empty. cc ((str_eq_iff (trim_space rest) []).1 (token' ∙ empty), g),
              )
        ]
  ]
]

lookup_api_key-Elem :
    (hash : Text) (keys : List ApiKey) (k : ApiKey)
    → lookup_api_key hash keys ≡ some k
    → Elem k keys × (k.key_hash ≡ hash) × (k.revoked ≡ false)
unfolding lookup_api_key
lookup_api_key-Elem hash [] k h = cc
lookup_api_key-Elem hash (j ∷ keys) k h =
    ground (arith, lookup_api_key-Elem hash keys k, str_eq_iff j.key_hash hash)

missing_scope-none :
    (c : Context) (required : List Text)
    → missing_scope c required ≡ none
    → All (λ s. Elem s c.scopes) required
unfolding missing_scope has_scope
missing_scope-none c [] h = tt
missing_scope-none c (s ∷ required) h = elim (Bool-cases (contains c.scopes s)) [
  | inr e ↦ absurd (grind (arith, e, h))
  | inl e ↦ (contains-Elem s c.scopes e, missing_scope-none c required (grind (arith, e, h)))
]

verify_sound :
    (fails : Option Error) (keys : List ApiKey) (token : Text) (c : Context)
    → verify fails keys token ≡ ok c
    → (k : ApiKey) × Elem k keys
      × (k.key_hash ≡ hash_key token)
      × (k.revoked ≡ false)
      × (c ≡ context_of k)
unfolding verify
verify_sound (some e) keys token c h = cc
verify_sound none keys token c h = elim (Option-cases (lookup_api_key (hash_key token) keys)) [
  | inl e ↦ absurd (fails_none e h)
  | inr (k, e) ↦
      let (i, same, live) = lookup_api_key-Elem (hash_key token) keys k e in
      (k, i, same, live, found k e h)
]
  where
    fails_none : lookup_api_key (hash_key token) keys ≡ none → verify none keys token ≡ ok c → ⊥
    fails_none e h = grind (arith, e, h)

    found :
        (k : ApiKey)
        → lookup_api_key (hash_key token) keys ≡ some k
        → verify none keys token ≡ ok c
        → c ≡ context_of k
    found k e h = grind (arith, e, h)

-- A request gets past the guard only with a bearer token, which may stand between ASCII white space,
-- whose SHA-256 digest in hex is the stored hash of a key that is not revoked; it is served with that
-- key's organization, project, environment, id and scopes, and every required scope is one of these.
pub require_sound :
    (fails : Option Error) (keys : List ApiKey) (required : List Text) (header : Text) (c : Context)
    → require fails keys required header ≡ serve c
    → (token : Text) × (k : ApiKey) × Bears header token
      × Elem k keys
      × (k.key_hash ≡ hex (sha256 token))
      × (k.revoked ≡ false)
      × (c ≡ record {
        organization_id = k.organization_id;
        project_id = k.project_id;
        environment_id = k.environment_id;
        api_key_id = k.id;
        scopes = k.scopes;
      })
      × All (λ s. Elem s k.scopes) required
unfolding require hash_key context_of
require_sound fails keys required header c h = elim (Option-cases (bearer_from header)) [
  | inl e ↦ absurd (grind (arith, e, h))
  | inr (token, e) ↦ elim (Result-cases (verify fails keys token)) [
    | inl (x, e') ↦ absurd (grind (arith, e, e', h))
    | inr (c', e') ↦ elim (Option-cases (missing_scope c' required)) [
      | inr (s, e'') ↦ absurd (grind (arith, e, e', e'', h))
      | inl e'' ↦
          let same : c' ≡ c = grind (arith, e, e', e'', h) in
          let (k, i, hash, live, ctx) = verify_sound fails keys token c' e' in
          (
            token,
            k,
            bearer_from-Bears header token e,
            i,
            hash,
            live,
            sym same ∙ ctx,
            subst (λ (z : Context). All (λ s. Elem s z.scopes) required) ctx
                (missing_scope-none c' required e''),
          )
    ]
  ]
]

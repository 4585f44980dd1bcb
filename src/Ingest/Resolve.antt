-- ===== src/Ingest/Resolve.antt =====
-- server/internal/resolvecontrols/resolve.go: proposed mappings against the catalogue of controls.
use stonewrit.Prelude.{
  List, [], ◌∷◌, ◌++◌, Bool, false, ◌&&◌, ◌||◌, Option, none, some, Text, str_eq, contains, filter,
  map,
}
use stonewrit.Prelude.Errors.{Error, Result, ok, err}
use stonewrit.Classify.MapControls.{Mapping}

-- a row of `controls`, by its key
pub record ControlRef : Type 0 where
  pub framework : Text
  pub control_id : Text

proposes : ControlRef → List Mapping → Bool
proposes c [] = false
proposes c (m ∷ ms) =
    str_eq c.framework m.framework && str_eq c.control_id m.control_id || proposes c ms

-- ResolveControlReferences: the controls that join a proposed pair
resolve_control_references : List Mapping → List ControlRef → List ControlRef
unfolding proposes
resolve_control_references proposed controls = filter (λ c. proposes c proposed) controls

key_of : Text → Text → Text
key_of framework control_id = framework ++ (b':' ∷ control_id)

-- ResolveAgainstCatalog; `fails` is an error of the query
unfoldable pub resolve_against_catalog :
    Option Error → List ControlRef → List Mapping → Result (List Mapping)
unfolding resolve_control_references key_of
resolve_against_catalog fails controls [] = ok []
resolve_against_catalog (some e) controls (m ∷ ms) = err e
resolve_against_catalog none controls (m ∷ ms) =
    let allowed =
      map (λ c. key_of c.framework c.control_id) (resolve_control_references (m ∷ ms) controls) in
    ok (filter (λ p. contains allowed (key_of p.framework p.control_id)) (m ∷ ms))

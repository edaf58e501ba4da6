-- ===== src/Identity.antt =====
-- identity/identity.go: the identity of a service. The environment, the stamped and the built version, and
-- url.PathUnescape are parameters; an unset variable reads as an empty text, as `lookup` gives it.
pub mod Naming
mod Tests
use go_dev_sdk.Prelude.{
  ℕ, Bool, true, false, not, List, [], ◌∷◌, ◌++◌, Option, none, some, Bytes, codes, eq_bytes,
  is_empty, trim_space, split_at, cut_at, if◌then◌else◌,
}

pub record Info : Type 0 where
  pub name : Bytes
  pub version : Bytes
  pub environment : Bytes

-- The first that is not empty.
unfoldable pub first : List Bytes → Bytes
first [] = []
first (v ∷ vs) = let rest = first vs in if is_empty v then rest else v

-- A map of texts, the key set last first; a key that is not there reads as an empty text.
unfoldable pub value_of : Bytes → List (Bytes × Bytes) → Bytes
value_of key [] = []
value_of key ((k, v) ∷ m) = let rest = value_of key m in if eq_bytes key k then v else rest

abbrev pub unescaped : Option Bytes → Bytes → Bytes
unescaped none raw = raw
unescaped (some decoded) raw = decoded

abbrev pub or_placeholder : Bytes
or_placeholder = codes "app"

module _ (path_unescape : Bytes → Option Bytes) where
  abbrev pub set_pair : Option (Bytes × Bytes) → List (Bytes × Bytes) → List (Bytes × Bytes)
  set_pair none m = m
  set_pair (some (key, raw)) m =
      let r = trim_space raw in (trim_space key, unescaped (path_unescape r) r) ∷ m

  -- The loop over the pairs.
  unfoldable pub set_pairs : List Bytes → List (Bytes × Bytes) → List (Bytes × Bytes)
  set_pairs [] m = m
  set_pairs (p ∷ ps) m = set_pairs ps (set_pair (cut_at b'=' p) m)

  unfoldable pub resource_attributes : Bytes → List (Bytes × Bytes)
  unfolding set_pairs
  resource_attributes value = if is_empty value then [] else set_pairs (split_at b',' value) []

module _ (path_unescape : Bytes → Option Bytes) (lookup : Bytes → Bytes)
    (version build_version : Bytes) where
  unfoldable pub get : Bytes → Bytes
  get key = trim_space (lookup key)

  abbrev pub attribute : Bytes → Bytes
  attribute key =
      value_of key (resource_attributes path_unescape (get (codes "OTEL_RESOURCE_ATTRIBUTES")))

  unfoldable pub resolve : Info
  unfolding first value_of resource_attributes get
  resolve = record {
    name = first (
        get (codes "APP_NAME")
        ∷ get (codes "OTEL_SERVICE_NAME")
        ∷ attribute (codes "service.name")
        ∷ or_placeholder
        ∷ []);
    version = first (
        get (codes "APP_VERSION")
        ∷ version
        ∷ attribute (codes "service.version")
        ∷ build_version
        ∷ codes "dev"
        ∷ []);
    environment = first (
        get (codes "APP_ENV")
        ∷ attribute (codes "deployment.environment.name")
        ∷ attribute (codes "deployment.environment")
        ∷ []);
  }

-- `Validate`: false for ErrName.
unfoldable pub is_named : Info → Bool
is_named i = not (is_empty (trim_space i.name))

abbrev pub with_value : Bytes → Bytes → List (Bytes × Bytes) → List (Bytes × Bytes)
with_value k v m = if is_empty v then m else (k, v) ∷ m

unfoldable pub attributes : Info → List (Bytes × Bytes)
attributes i = with_value (codes "deployment.environment.name") (trim_space i.environment) (
    with_value (codes "service.version") (trim_space i.version)
      ((codes "service.name", trim_space i.name) ∷ []))

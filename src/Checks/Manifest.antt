-- ===== src/Checks/Manifest.antt =====
-- compiler/checks.rs: `validate_manifest` and `find_check`. Paths are those of Unix: absolute with a
-- leading slash, and split at slashes into components.

use Prim.Native.Char.{code}
use agent_receipts.Prelude.{
  ℕ, Bool, true, false, not, ◌&&◌, ◌||◌, String, List, [], ◌∷◌, Option, none, some, ◌==◌,
  starts_with, contains, find, is_empty, leb, nat_eq, if◌then◌else◌, Result, ok, ◌>>=◌, ◌>>◌,
  ensure, ok_or, for_each,
}
use agent_receipts.Checks.Types.{CheckDefinition, CheckManifest}

pub data ManifestError : Type 0 where
  unsupported_version : ℕ → ManifestError
  invalid_id duplicate_id empty_field incomplete_control not_declared : String → ManifestError
  escapes_root : String → String → ManifestError
  invalid_toml : ManifestError

unfoldable pub is_id_char : ℕ → Bool
is_id_char c =
    (leb b'0' c && leb c b'9')
    || (leb b'A' c && leb c b'Z')
    || (leb b'a' c && leb c b'z')
    || nat_eq c b':'
    || nat_eq c b'.'
    || nat_eq c b'_'
    || nat_eq c b'/'
    || nat_eq c b'-'

unfoldable pub all_id_chars : String → Bool
all_id_chars String.[] = true
all_id_chars (String.◌∷◌ c s) = is_id_char (code c) && all_id_chars s

unfoldable pub is_check_id : String → Bool
unfolding all_id_chars is_id_char
is_check_id id = not (id == "") && all_id_chars id

unfoldable pub has_empty_field : CheckDefinition → Bool
has_empty_field check =
    check.version == ""
    || is_empty check.command
    || is_empty check.covered_paths
    || is_empty check.eligible_claim_kinds
    || check.environment_class == ""
    || is_empty check.target_claims

-- The pieces of a path between its slashes.
unfoldable pub components : String → List String
components String.[] = "" ∷ []
components (String.◌∷◌ c s) =
    let rest = components s in
    if nat_eq (code c) b'/'
    then "" ∷ rest
    else elim rest [ [] ↦ String.◌∷◌ c "" ∷ [] | p ∷ ps ↦ String.◌∷◌ c p ∷ ps ]

unfoldable pub escapes : String → Bool
unfolding components
escapes pattern = starts_with pattern "/" || contains (components pattern) ".."

-- A negative control has a command and a signature, neither of them empty, or it is absent.
unfoldable pub is_complete_control : Option (List String) → Option String → Bool
is_complete_control (some command) (some signature) =
    not (is_empty command) && not (signature == "")
is_complete_control none none = true
is_complete_control (some command) none = false
is_complete_control none (some signature) = false

-- The body of the loop, past the test for duplicates.
unfoldable pub validate_fields : CheckDefinition → Result ManifestError (Unit {0})
validate_fields check =
    ensure (not (has_empty_field check)) (empty_field check.id)
    >> (for_each (λ pattern. ensure (not (escapes pattern)) (escapes_root check.id pattern))
          check.covered_paths
        >> ensure
            (is_complete_control check.negative_control_command
              check.negative_control_expected_signature)
            (incomplete_control check.id))

-- The loop, with the ids that it has seen.
unfoldable pub validate_checks :
    List String → List CheckDefinition → Result ManifestError (Unit {0})
validate_checks ids [] = ok tt
validate_checks ids (check ∷ checks) =
    let rest = validate_checks (check.id ∷ ids) checks in
    ensure (is_check_id check.id) (invalid_id check.id)
    >> (ensure (not (contains ids check.id)) (duplicate_id check.id)
        >> (validate_fields check >> rest))

unfoldable pub validate_manifest : CheckManifest → Result ManifestError (Unit {0})
unfolding validate_checks validate_fields
validate_manifest manifest =
    ensure (nat_eq manifest.manifest_version 1) (unsupported_version manifest.manifest_version)
    >> validate_checks [] manifest.checks

unfoldable pub find_check : CheckManifest → String → Result ManifestError CheckDefinition
find_check manifest id = ok_or (find (λ check. check.id == id) manifest.checks) (not_declared id)

-- `from_toml` is `toml::from_str`; the file is `none` where it does not exist.
unfoldable pub load_manifest :
    (String → Option CheckManifest) → Option String → Result ManifestError (Option CheckManifest)
load_manifest from_toml none = ok none
load_manifest from_toml (some text) = do
  manifest ← ok_or (from_toml text) invalid_toml
  validate_manifest manifest
  ok (some manifest)

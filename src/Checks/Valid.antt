-- ===== src/Checks/Valid.antt =====
-- compiler/checks.rs, `validate_manifest`: which manifests are accepted.
use mathlib.Core.List.{Memᴰ}
use mathlib.Core.List.Memᴰ
use agent_receipts.Prelude.{
  ℕ, ◌≡◌, refl, sym, subst, ◌↔◌, inl, inr, true, false, not, String, List, [], ◌∷◌, map, arith,
  contains, contains_iff, nat_eq, ok, ensure_iff, >>-ok_iff, ◌≢◌, ◌⊎◌, Option, none, some, ◌==◌,
  eq_iff, is_empty, starts_with, and_iff, not_iff, for_each-ensure_iff, Bool-cases,
}
use agent_receipts.Checks.Types.{CheckDefinition, CheckManifest}
use agent_receipts.Checks.Manifest.{
  escapes_root, all_id_chars, components, is_check_id, has_empty_field, escapes,
  is_complete_control, validate_fields, validate_checks, validate_manifest,
}

-- A negative control is whole, or absent.
abbrev pub IsWhole : Option (List String) → Option String → Type 0
IsWhole command signature =
    ((command ≡ none) × (signature ≡ none))
    ⊎ ((words : List String) × (expected : String) × (command ≡ some words)
        × (signature ≡ some expected)
        × (is_empty words ≡ false)
        × (expected ≢ ""))

-- One declaration: every required field is there, no covered path is absolute or has `..` among its
-- components, and its negative control is whole or absent.
pub record IsWellFormed (check : CheckDefinition) : Type 0 where
  pub has_id : check.id ≢ ""
  pub proper_id : all_id_chars check.id ≡ true
  pub has_version : check.version ≢ ""
  pub has_command : is_empty check.command ≡ false
  pub has_paths : is_empty check.covered_paths ≡ false
  pub has_kinds : is_empty check.eligible_claim_kinds ≡ false
  pub has_class : check.environment_class ≢ ""
  pub has_targets : is_empty check.target_claims ≡ false
  pub inside :
      (pattern : String)
      → Memᴰ pattern check.covered_paths
      → (starts_with pattern "/" ≡ false) × ¬ (Memᴰ ".." (components pattern))
  pub controlled : IsWhole check.negative_control_command check.negative_control_expected_signature

differs_iff : (a b : String) → ((a == b) ≡ false) ↔ (a ≢ b)
differs_iff a b = (
  λ h e. cc (h, (eq_iff a b).1 e),
  λ h. elim (Bool-cases (a == b)) [ inl e ↦ absurd (h ((eq_iff a b).0 e)) | inr e ↦ e ],
)

is_complete_control_iff :
    (command : Option (List String)) (signature : Option String)
    → (is_complete_control command signature ≡ true) ↔ IsWhole command signature
unfolding is_complete_control
is_complete_control_iff none none = (λ h. inl (refl, refl), λ h. refl)
is_complete_control_iff (some c) none =
    (λ h. absurd (cc h), λ h. elim h [ inl k ↦ absurd (cc (k.0)) | inr k ↦ absurd (cc (k.3)) ])
is_complete_control_iff none (some s) =
    (λ h. absurd (cc h), λ h. elim h [ inl k ↦ absurd (cc (k.1)) | inr k ↦ absurd (cc (k.2)) ])
is_complete_control_iff (some c) (some s) = (
  λ h.
      let k = (and_iff (not (is_empty c)) (not (s == ""))).0 h in
      inr (c, s, refl, refl, (not_iff _).0 (k.0), (differs_iff s "").0 ((not_iff _).0 (k.1))),
  λ h. elim h [
    | inl k ↦ absurd (cc (k.0))
    | inr k ↦
        let e : k.0 ≡ c = cc (k.2) in
        let q : k.1 ≡ s = cc (k.3) in
        (and_iff (not (is_empty c)) (not (s == ""))).1 (
          (not_iff _).1 (subst (λ z. is_empty z ≡ false) e (k.4)),
          (not_iff _).1 ((differs_iff s "").1 (subst (λ z. z ≢ "") q (k.5))),
        )
  ],
)

escapes_iff :
    (pattern : String)
    → (escapes pattern ≡ false)
      ↔ ((starts_with pattern "/" ≡ false) × ¬ (Memᴰ ".." (components pattern)))
unfolding escapes
escapes_iff pattern = (
  λ h. (
    ground (arith, h),
    λ m.
        let k = (contains_iff (components pattern) "..").1 m in
        let e : contains (components pattern) ".." ≡ false = ground (arith, h) in cc (e, k),
  ),
  λ h. elim (Bool-cases (contains (components pattern) "..")) [
    | inl e ↦ absurd (h.1 ((contains_iff (components pattern) "..").0 e))
    | inr e ↦ ground (arith, h.0, e)
  ],
)

-- No id occurs twice.
abbrev pub AreDistinct : List String → Type 0
AreDistinct [] = Unit
AreDistinct (id ∷ ids) = (¬ (Memᴰ id ids)) × AreDistinct ids

fields_present_iff :
    (check : CheckDefinition)
    → (has_empty_field check ≡ false) ↔ (
        ((check.version == "") ≡ false)
        × (is_empty check.command ≡ false)
        × (is_empty check.covered_paths ≡ false)
        × (is_empty check.eligible_claim_kinds ≡ false)
        × ((check.environment_class == "") ≡ false)
        × (is_empty check.target_claims ≡ false))
unfolding has_empty_field
fields_present_iff check = (λ h. ground (arith, h), λ h. ground (arith, h))

is_check_id_iff : (id : String) → (is_check_id id ≡ true) ↔ ((id ≢ "") × (all_id_chars id ≡ true))
unfolding is_check_id
is_check_id_iff id = (
  λ h.
      let k = (and_iff (not (id == "")) (all_id_chars id)).0 h in
      ((differs_iff id "").0 ((not_iff _).0 (k.0)), k.1),
  λ h. (and_iff _ _).1 ((not_iff _).1 ((differs_iff id "").1 (h.0)), h.1),
)

fields_iff :
    (check : CheckDefinition)
    → ((is_check_id check.id ≡ true) × (validate_fields check ≡ ok tt)) ↔ IsWellFormed check
unfolding validate_fields
fields_iff check = (
  λ h.
      let a = (>>-ok_iff _ _).0 h.1 in
      let b = (>>-ok_iff _ _).0 a.1 in
      let id = (is_check_id_iff check.id).0 h.0 in
      let given = (fields_present_iff check).0 ((not_iff _).0 ((ensure_iff _ _).0 a.0)) in
      record {
        has_id = id.0;
        proper_id = id.1;
        has_version = (differs_iff check.version "").0 given.0;
        has_command = given.1;
        has_paths = given.2;
        has_kinds = given.3;
        has_class = (differs_iff check.environment_class "").0 given.4;
        has_targets = given.5;
        inside = λ p m. (escapes_iff p).0 (
            (not_iff _).0 (
              (for_each-ensure_iff (λ p. not (escapes p)) (λ p. escapes_root check.id p)
                  check.covered_paths).0
                b.0 p m));
        controlled = (is_complete_control_iff _ _).0 ((ensure_iff _ _).0 b.1);
      },
  λ w. (
    (is_check_id_iff check.id).1 (w.has_id, w.proper_id),
    (>>-ok_iff _ _).1 (
      (ensure_iff _ _).1 (
          (not_iff _).1 (
            (fields_present_iff check).1 (
              (differs_iff check.version "").1 w.has_version,
              w.has_command,
              w.has_paths,
              w.has_kinds,
              (differs_iff check.environment_class "").1 w.has_class,
              w.has_targets,
            ))),
      (>>-ok_iff _ _).1 (
        (for_each-ensure_iff (λ p. not (escapes p)) (λ p. escapes_root check.id p)
              check.covered_paths).1
            (λ p m. (not_iff _).1 ((escapes_iff p).1 (w.inside p m))),
        (ensure_iff _ _).1 ((is_complete_control_iff _ _).1 w.controlled),
      ),
    ),
  ),
)

abbrev Unseen : List String → List String → Type 0
Unseen seen ids = (id : String) → Memᴰ id ids → ¬ (Memᴰ id seen)

not-contains_iff :
    (seen : List String) (id : String) → (not (contains seen id) ≡ true) ↔ (¬ (Memᴰ id seen))
not-contains_iff seen id = (
  λ h m. cc (h, (contains_iff seen id).1 m),
  λ h. elim (Bool-cases (contains seen id)) [
    | inl e ↦ absurd (h ((contains_iff seen id).0 e))
    | inr e ↦ rw e refl
  ],
)

abbrev ids_of : List CheckDefinition → List String
ids_of checks = map (λ check. check.id) checks

-- The head of the loop: the test for duplicates, and what is left for the rest.
step_iff :
    (seen : List String) (id : String) (ids : List String)
    → ((¬ (Memᴰ id seen)) × Unseen (id ∷ seen) ids × AreDistinct ids)
      ↔ (Unseen seen (id ∷ ids) × AreDistinct (id ∷ ids))
step_iff seen id ids = (
  λ h. (
    λ z m n. elim (Memᴰ.cases_cons m) [
      | inl e ↦ h.0 (Memᴰ.cast (sym e) n)
      | inr k ↦ h.1 z k (Memᴰ.tail n)
    ],
    (λ m. h.1 id m (Memᴰ.head refl), h.2),
  ),
  λ h. (
    h.0 id (Memᴰ.head refl),
    λ z m n. elim (Memᴰ.cases_cons n) [
      | inl e ↦ h.1.0 (Memᴰ.cast (sym e) m)
      | inr k ↦ h.0 z (Memᴰ.tail m) k
    ],
    h.1.1,
  ),
)

checks_iff :
    (seen : List String) (checks : List CheckDefinition)
    → (validate_checks seen checks ≡ ok tt) ↔ (
        ((check : CheckDefinition) → Memᴰ check checks → IsWellFormed check)
        × Unseen seen (ids_of checks)
        × AreDistinct (ids_of checks))
unfolding validate_checks
checks_iff seen [] = (λ h. (λ c m. elim m [ ], λ id m. elim m [ ], tt), λ h. refl)
checks_iff seen (check ∷ checks) = (
  λ h.
      let a = (>>-ok_iff _ _).0 h in
      let b = (>>-ok_iff _ _).0 a.1 in
      let c = (>>-ok_iff _ _).0 b.1 in
      let rest = (checks_iff (check.id ∷ seen) checks).0 c.1 in
      let here = (fields_iff check).0 ((ensure_iff _ _).0 a.0, c.0) in
      let new = (not-contains_iff seen check.id).0 ((ensure_iff _ _).0 b.0) in
      let both = (step_iff seen check.id (ids_of checks)).0 (new, rest.1, rest.2) in
      (
        λ z m. elim (Memᴰ.cases_cons m) [
          | inl e ↦ subst IsWellFormed (sym e) here
          | inr k ↦ rest.0 z k
        ],
        both.0,
        both.1,
      ),
  λ h.
      let both = (step_iff seen check.id (ids_of checks)).1 (h.1, h.2) in
      let here = (fields_iff check).1 (h.0 check (Memᴰ.head refl)) in
      (>>-ok_iff _ _).1 (
        (ensure_iff _ _).1 here.0,
        (>>-ok_iff _ _).1 (
          (ensure_iff _ _).1 ((not-contains_iff seen check.id).1 both.0),
          (>>-ok_iff _ _).1 (
            here.1,
            (checks_iff (check.id ∷ seen) checks).1 (λ z m. h.0 z (Memᴰ.tail m), both.1, both.2),
          ),
        ),
      ),
)

nat_eq_iff : (n m : ℕ) → (nat_eq n m ≡ true) ↔ (n ≡ m)
nat_eq_iff n m = ground arith

-- A manifest is accepted exactly when it has version 1, no two of its checks have the same id, and
-- each has an id of the allowed characters, every required field, covered paths that are relative and
-- without a `..` component, and a negative control that is whole or absent.
pub validate_manifest_iff :
    (manifest : CheckManifest)
    → (validate_manifest manifest ≡ ok tt) ↔ (
        (manifest.manifest_version ≡ 1)
        × ((check : CheckDefinition) → Memᴰ check manifest.checks → IsWellFormed check)
        × AreDistinct (map (λ check. check.id) manifest.checks))
unfolding validate_manifest
validate_manifest_iff manifest = (
  λ h.
      let a = (>>-ok_iff _ _).0 h in
      let loop = (checks_iff [] manifest.checks).0 a.1 in
      ((nat_eq_iff manifest.manifest_version 1).0 ((ensure_iff _ _).0 a.0), loop.0, loop.2),
  λ h. (>>-ok_iff _ _).1 (
    (ensure_iff _ _).1 ((nat_eq_iff manifest.manifest_version 1).1 h.0),
    (checks_iff [] manifest.checks).1 (h.1, λ id m n. elim n [ ], h.2),
  ),
)

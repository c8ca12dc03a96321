-- ===== src/Checks/History.antt =====
-- compiler/checks.rs, `build_check_histories`.

use mathlib.Core.Option
use agent_receipts.Prelude.{
  ℕ, suc, ◌+◌, ◌%◌, ◌^◌, String, List, [], ◌∷◌, Bool, not, Option, none, some, ◌==◌, format, filter,
  filter_map, map, length, get_last?, once, sort_by, text_le, if◌then◌else◌,
}
use agent_receipts.Schema.{CheckHistory, F64}
use agent_receipts.Checks.Types.{CheckAttemptRecord}

-- `slice.first()`
abbrev pub get_first? : {A : Type 0} → List A → Option A
get_first? [] = none
get_first? (x ∷ xs) = some x

-- `iter().position(..)`
unfoldable pub position : {A : Type 0} → (A → Bool) → List A → Option ℕ
position p [] = none
position p (x ∷ xs) = let rest = Option.map suc (position p xs) in if p x then some 0 else rest

-- `records.windows(2)`, where the outcome changes.
unfoldable pub transitions_of : List CheckAttemptRecord → List String
transitions_of [] = []
transitions_of (a ∷ []) = []
transitions_of (a ∷ b ∷ rest) =
    let others = transitions_of (b ∷ rest) in
    if a.outcome == b.outcome then others else format (a.outcome ∷ "->" ∷ b.outcome ∷ []) ∷ others

abbrev pub has_passed : CheckAttemptRecord → Bool
has_passed attempt = attempt.outcome == "passed"

abbrev pub attempts_of : List CheckAttemptRecord → String → List CheckAttemptRecord
attempts_of attempts check_id = filter (λ attempt. attempt.check_id == check_id) attempts

-- The keys of the `BTreeMap`, in their order.
unfoldable pub check_ids : List CheckAttemptRecord → List String
check_ids attempts = sort_by text_le (once [] (map (λ attempt. attempt.check_id) attempts))

-- `flake_rate` divides two numbers as `f64`.
module _ (flake_rate : ℕ → ℕ → F64) where
  -- The history of a check, from its first and its last attempt and all of them.
  unfoldable pub history_of :
      String → List CheckAttemptRecord → CheckAttemptRecord → CheckAttemptRecord → CheckHistory
  history_of check_id records first latest = record {
    check_id = check_id;
    target_claims = latest.target_claims;
    first_result = first.outcome;
    latest_result = latest.outcome;
    attempts = length records % 2 ^ 32;
    attempts_to_green =
        Option.map (λ index. (index % 2 ^ 32 + 1) % 2 ^ 32) (position has_passed records);
    failure_signatures = filter_map (λ attempt. attempt.failure_signature) records;
    transitions = transitions_of records;
    flake_rate =
        flake_rate (length (filter (λ attempt. not (has_passed attempt)) records)) (length records);
  }

  -- `records.first()?` and `records.last()?`
  unfoldable pub summarize : String → List CheckAttemptRecord → Option CheckHistory
  unfolding history_of
  summarize check_id records = elim (get_first? records) [
    | none ↦ none
    | some first ↦
        Option.map (λ latest. history_of check_id records first latest) (get_last? records)
  ]

  unfoldable pub build_check_histories : List CheckAttemptRecord → List CheckHistory
  unfolding summarize check_ids
  build_check_histories attempts =
      filter_map (λ check_id. summarize check_id (attempts_of attempts check_id))
        (check_ids attempts)

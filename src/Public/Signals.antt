-- ===== src/Public/Signals.antt =====
-- compiler/signals.rs: failures that recur.
use Prim.Native.Char.{Char, code}
use Prim.Native.String.{char_at, ◌++◌ as append}
use mathlib.Core.List.{Memᴰ}
use agent_receipts.Prelude.{
  ℕ, ◌-◌, ◌%◌, ◌^◌, ◌≤◌, ◌<◌, ◌≡◌, refl, sym, ap, subst, inl, inr, Bool-cases, mem-flat_map, ◌↔◌,
  String, List, [], ◌∷◌, Bool, not, ◌&&◌, ◌||◌, ◌==◌, eq_iff, arith, format, join, once, once_iff,
  contains, filter, map, flat_map, length, leb, mem-filter, mem-map, mem-sort_by, if◌then◌else◌,
  text_le, sort_by,
}
use agent_receipts.Schema.{VerifierFinding, RecurringFailurePattern}

-- `to_ascii_lowercase` of an ASCII letter or digit, as a text; every other character is a `-`.
unfoldable pub slug_char : Char → String
slug_char c =
    let n = code c in
    if leb b'A' n && leb n b'Z'
    then String.◌∷◌ (char_at "abcdefghijklmnopqrstuvwxyz" (n - b'A')) ""
    else if (leb b'0' n && leb n b'9') || (leb b'a' n && leb n b'z')
    then String.◌∷◌ c ""
    else "-"

-- `split('-')`, empty pieces included.
unfoldable pub slug_pieces : String → List String
slug_pieces String.[] = "" ∷ []
slug_pieces (String.◌∷◌ c s) =
    let rest = slug_pieces s in
    let piece = slug_char c in
    if piece == "-" then "" ∷ rest else elim rest [ [] ↦ piece ∷ [] | w ∷ ws ↦ append piece w ∷ ws ]

unfoldable pub slugify : String → String
unfolding slug_pieces
slugify input = join "-" (filter (λ part. not (part == "")) (slug_pieces input))

slugify_tests : (slugify "Build failed" ≡ "build-failed") × (slugify "--A  1!" ≡ "a-1")
unfolding slugify slug_pieces slug_char
slugify_tests = (refl, refl)

abbrev pub is_failing : VerifierFinding → Bool
is_failing finding = not (finding.status == "passed")

-- The count of a summary among the findings that did not pass, as a `u32`.
unfoldable pub failures_of : List VerifierFinding → String → ℕ
failures_of findings summary =
    length (filter (λ finding. finding.summary == summary) (filter is_failing findings)) % 2 ^ 32

unfoldable pub pattern_of : List VerifierFinding → String → String → RecurringFailurePattern
unfolding once slugify
pattern_of findings observed_at summary = record {
  id = format ("failure:" ∷ slugify summary ∷ []);
  summary = summary;
  count = failures_of findings summary;
  last_seen_at = observed_at;
  impact = if leb 3 (failures_of findings summary) then "high" else "medium";
  source_ids = once [] (
      flat_map (λ finding. finding.source_ids)
        (filter (λ finding. finding.summary == summary) findings));
}

-- The keys of the `BTreeMap`: each summary of a failing finding, once, in the order of the texts.
unfoldable pub summaries_of : List VerifierFinding → List String
unfolding once
summaries_of findings =
    sort_by text_le (once [] (map (λ finding. finding.summary) (filter is_failing findings)))

unfoldable pub detect_recurring_failure_patterns :
    List VerifierFinding → String → List RecurringFailurePattern
unfolding summaries_of pattern_of failures_of
detect_recurring_failure_patterns findings observed_at =
    map (pattern_of findings observed_at)
      (filter (λ summary. leb 2 (failures_of findings summary)) (summaries_of findings))

-- A count that is not zero has a finding.
failing_lem :
    (findings : List VerifierFinding) (summary : String)
    → 2 ≤ failures_of findings summary
    → Memᴰ summary (summaries_of findings)
unfolding failures_of summaries_of contains
failing_lem findings summary h =
    let found =
      first_of (filter (λ f. f.summary == summary) (filter is_failing findings))
        (omega (arith, h)) in
    let kept = (mem-filter (λ f. f.summary == summary)).0 found.1 in
    (mem-sort_by text_le _).1 (
      (once_iff [] _ summary).1
        ((mem-map (λ f. f.summary)).1 (found.0, kept.0, (eq_iff _ _).0 kept.1), refl))
  where
    first_of : (xs : List VerifierFinding) → 1 ≤ length xs → (f : VerifierFinding) × Memᴰ f xs
    first_of [] h = absurd (omega (arith, h))
    first_of (x ∷ xs) h = (x, Memᴰ.head refl)

-- The findings that share a summary and did not pass, as a `u32`.
abbrev pub shared_failures : List VerifierFinding → String → ℕ
shared_failures findings summary =
    length (filter (λ f. not (f.status == "passed") && f.summary == summary) findings) % 2 ^ 32

filter-filter :
    {A : Type 0} (p q : A → Bool) (xs : List A)
    → filter q (filter p xs) ≡ filter (λ x. p x && q x) xs
filter-filter p q [] = refl
filter-filter p q (x ∷ xs) = elim (Bool-cases (p x)) [
  | inl e ↦ elim (Bool-cases (q x)) [
    | inl f ↦ rw (e, f) (ap (λ z. x ∷ z) (filter-filter p q xs))
    | inr f ↦ rw (e, f) (filter-filter p q xs)
  ]
  | inr e ↦ rw e (filter-filter p q xs)
]

failures_of_lem :
    (findings : List VerifierFinding) (summary : String)
    → failures_of findings summary ≡ shared_failures findings summary
unfolding failures_of
failures_of_lem findings summary =
    ap (λ z. length z % 2 ^ 32) (filter-filter is_failing (λ f. f.summary == summary) findings)

-- What is reported of a summary.
pub record IsRecurring (findings : List VerifierFinding) (observed_at : String)
    (recurring : RecurringFailurePattern) : Type 0 where
  pub twice : 2 ≤ recurring.count
  pub counted : recurring.count ≡ shared_failures findings recurring.summary
  pub named : recurring.id ≡ format ("failure:" ∷ slugify recurring.summary ∷ [])
  pub seen : recurring.last_seen_at ≡ observed_at
  pub high : (recurring.impact ≡ "high") ↔ (3 ≤ recurring.count)
  pub medium : (recurring.impact ≡ "medium") ↔ (recurring.count < 3)
  pub cited :
      (id : String)
      → Memᴰ id recurring.source_ids ↔ (
          (f : VerifierFinding) × Memᴰ f findings
          × (f.summary ≡ recurring.summary)
          × Memᴰ id f.source_ids)

impact_lem :
    (n : ℕ)
    → (Path String (if leb 3 n then "high" else "medium") "high" ↔ (3 ≤ n))
      × (Path String (if leb 3 n then "high" else "medium") "medium" ↔ (n < 3))
impact_lem n = elim (Bool-cases (leb 3 n)) [
  | inl e ↦ rw e (
    (λ h. ground (arith, e), λ h. refl),
    (λ h. absurd (cc h), λ h. absurd (ground (arith, e, h))),
  )
  | inr e ↦ rw e (
    (λ h. absurd (cc h), λ h. absurd (ground (arith, e, h))),
    (λ h. ground (arith, e), λ h. refl),
  )
]

pattern_of-IsRecurring :
    (findings : List VerifierFinding) (observed_at summary : String)
    → 2 ≤ failures_of findings summary
    → IsRecurring findings observed_at (pattern_of findings observed_at summary)
unfolding pattern_of contains
pattern_of-IsRecurring findings observed_at summary h = record {
  twice = h;
  counted = failures_of_lem findings summary;
  named = refl;
  seen = refl;
  high = (impact_lem (failures_of findings summary)).0;
  medium = (impact_lem (failures_of findings summary)).1;
  cited = λ id. (
    λ m.
        let r = (mem-flat_map (λ f. f.source_ids)).0 ((once_iff [] _ id).0 m).0 in
        let k = (mem-filter (λ f. f.summary == summary)).0 r.1 in
        (r.0, k.0, (eq_iff _ _).0 k.1, r.2),
    λ r. (once_iff [] _ id).1 (
      (mem-flat_map (λ f. f.source_ids)).1
          (r.0, (mem-filter (λ f. f.summary == summary)).1 (r.1, (eq_iff _ _).1 r.2), r.3),
      refl,
    ),
  );
}

-- Each reported pattern has a count of two or more, which is how many findings with its summary did
-- not pass (modulo 2^32), the impact `high` from three on and `medium` below, and the source ids of
-- the findings with its summary; and every summary that two or more such findings share is reported.
pub detect_recurring_failure_patterns_iff :
    (findings : List VerifierFinding) (observed_at : String)
    → ((recurring : RecurringFailurePattern)
        → Memᴰ recurring (detect_recurring_failure_patterns findings observed_at)
        → IsRecurring findings observed_at recurring)
      × ((summary : String)
          → 2 ≤ shared_failures findings summary
          → (recurring : RecurringFailurePattern) × Memᴰ recurring
              (detect_recurring_failure_patterns findings observed_at)
            × (recurring.summary ≡ summary))
unfolding detect_recurring_failure_patterns pattern_of
detect_recurring_failure_patterns_iff findings observed_at = (
  λ recurring m.
      let r = (mem-map (pattern_of findings observed_at)).0 m in
      let s = (mem-filter (λ summary. leb 2 (failures_of findings summary))).0 r.1 in
      subst (IsRecurring findings observed_at) r.2
        (pattern_of-IsRecurring findings observed_at r.0 (ground (arith, s.1))),
  λ summary h.
      let n : 2 ≤ failures_of findings summary =
        subst (λ z. 2 ≤ z) (sym (failures_of_lem findings summary)) h in
      (
        pattern_of findings observed_at summary,
        (mem-map (pattern_of findings observed_at)).1 (
          summary,
          (mem-filter (λ summary. leb 2 (failures_of findings summary))).1
              (failing_lem findings summary n, ground (arith, n)),
          refl,
        ),
        refl,
      ),
)

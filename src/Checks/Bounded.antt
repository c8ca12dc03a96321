-- ===== src/Checks/Bounded.antt =====
-- compiler/checks.rs: every check has one history, and its numbers are within bounds.
use mathlib.Core.List.{Memᴰ}
use mathlib.Core.Option
use agent_receipts.Prelude.{
  ℕ, suc, ◌+◌, ◌%◌, ◌^◌, ◌≤◌, ◌<◌, ◌≡◌, refl, sym, ap, subst, ◌∙◌, ◌↔◌, inl, inr, String, List, [],
  ◌∷◌, Bool, Option, none, some, ◌==◌, eq_refl, arith, filter_map, length, get_last?, unwrap_or,
  once_iff, text_le, mem-filter, length-filter, mem-map, mem-sort_by, mem-filter_map, contains,
  Bool-cases, Option-cases,
}
use agent_receipts.Checks.Changes.{IsGreenAfter, position-IsGreenAfter, IsChange, changes_iff}
use agent_receipts.Schema.{CheckHistory, F64}
use agent_receipts.Checks.Types.{CheckAttemptRecord}
use agent_receipts.Checks.History.{
  get_first?, position, transitions_of, has_passed, history_of, summarize, attempts_of, check_ids,
  build_check_histories,
}

position_lem :
    {A : Type 0} (p : A → Bool) (xs : List A) (n : ℕ) → position p xs ≡ some n → n < length xs
unfolding position
position_lem p [] n h = absurd (cc)
position_lem p (x ∷ xs) n h = elim (Bool-cases (p x)) [
  | inl e ↦ let k : Path (Option ℕ) (some 0) (some n) = rw e at h in first_lem (cc k)
  | inr e ↦ later (position_lem p xs) (position p xs) refl (rw e at h)
]
  where
    first_lem : 0 ≡ n → n < suc (length xs)
    first_lem e = omega (arith, e)

    later :
        ((m : ℕ) → position p xs ≡ some m → m < length xs)
        → (o : Option ℕ) → position p xs ≡ o
        → Option.map suc o ≡ some n
        → n < suc (length xs)
    later below none q r = absurd (cc)
    later below (some m) q r = let e : suc m ≡ n = cc r in omega (arith, e, below m q)

length-transitions_of :
    (a : CheckAttemptRecord) (rest : List CheckAttemptRecord)
    → length (transitions_of (a ∷ rest)) < suc (length rest)
unfolding transitions_of
length-transitions_of a [] = omega arith
length-transitions_of a (b ∷ rest) = elim (Bool-cases (a.outcome == b.outcome)) [
  | inl e ↦ rw e (omega (arith, length-transitions_of b rest))
  | inr e ↦ rw e (omega (arith, length-transitions_of b rest))
]

length-filter_map :
    {A B : Type 0} (f : A → Option B) (xs : List A) → length (filter_map f xs) ≤ length xs
length-filter_map f [] = omega arith
length-filter_map f (x ∷ xs) = elim (Option-cases (f x)) [
  | inl e ↦ rw (e, filter_map) (omega (arith, length-filter_map f xs))
  | inr r ↦ rw (r.1, filter_map) (omega (arith, length-filter_map f xs))
]

-- What a history says of the attempts of its check.
pub record IsHistory (attempts : List CheckAttemptRecord) (history : CheckHistory) : Type 0 where
  pub first : CheckAttemptRecord
  pub latest : CheckAttemptRecord
  pub first_is : get_first? (attempts_of attempts history.check_id) ≡ some first
  pub latest_is : get_last? (attempts_of attempts history.check_id) ≡ some latest
  pub began : history.first_result ≡ first.outcome
  pub ended : history.latest_result ≡ latest.outcome
  pub counted : history.attempts ≡ length (attempts_of attempts history.check_id)
  pub targets : history.target_claims ≡ latest.target_claims
  pub green_after : IsGreenAfter (attempts_of attempts history.check_id) history.attempts_to_green
  pub changes :
      (t : String) → Memᴰ t history.transitions ↔ IsChange (attempts_of attempts history.check_id) t
  pub signatures :
      (text : String)
      → Memᴰ text history.failure_signatures ↔ (
          (a : CheckAttemptRecord) × Memᴰ a (attempts_of attempts history.check_id)
          × (a.failure_signature ≡ some text))
  pub green_within : unwrap_or history.attempts_to_green 0 ≤ history.attempts
  pub fewer_transitions : length history.transitions < history.attempts
  pub signatures_within : length history.failure_signatures ≤ history.attempts

module _ (flake_rate : ℕ → ℕ → F64) where
  green_lem :
      (o : Option ℕ) (n : ℕ)
      → ((i : ℕ) → o ≡ some i → i < n)
      → n < 2 ^ 32
      → unwrap_or (Option.map (λ index. (index % 2 ^ 32 + 1) % 2 ^ 32) o) 0 ≤ n % 2 ^ 32
  green_lem none n h l = omega arith
  green_lem (some i) n h l = omega (arith, h i refl, l)

  -- Below 2^32 the casts change nothing.
  green_cast :
      (o : Option ℕ) (n : ℕ)
      → ((i : ℕ) → o ≡ some i → i < n)
      → n < 2 ^ 32
      → Option.map (λ i. i + 1) o ≡ Option.map (λ index. (index % 2 ^ 32 + 1) % 2 ^ 32) o
  green_cast none n h l = refl
  green_cast (some i) n h l = let k = h i refl in ap some (omega (arith, k, l))

  summarize_lem :
      (attempts : List CheckAttemptRecord) (check_id : String) (records : List CheckAttemptRecord)
      (history : CheckHistory)
      → attempts_of attempts check_id ≡ records
      → length records < 2 ^ 32
      → summarize flake_rate check_id records ≡ some history
      → (history.check_id ≡ check_id) × IsHistory attempts history
  unfolding summarize history_of
  summarize_lem attempts check_id [] history e l h = absurd (cc)
  summarize_lem attempts check_id (first ∷ rest) history e l h =
      elim (Option-cases (get_last? (first ∷ rest))) [
        | inl n ↦ let k : Path (Option CheckHistory) none (some history) = rw n at h in absurd (cc)
        | inr r ↦
            let k : Path (Option CheckHistory)
                (some (history_of flake_rate check_id (first ∷ rest) first r.0)) (some history) =
              rw (r.1) at h in
            let made : history_of flake_rate check_id (first ∷ rest) first r.0 ≡ history = cc k in
            (
              sym (ap (λ z. z.check_id) made),
              subst (IsHistory attempts) made (record {
                first = first;
                latest = r.0;
                first_is = ap get_first? e;
                latest_is = ap get_last? e ∙ r.1;
                began = refl;
                ended = refl;
                counted = rw e (omega (arith, l));
                targets = refl;
                green_after =
                    subst
                      (λ z. IsGreenAfter z (
                        Option.map (λ index. (index % 2 ^ 32 + 1) % 2 ^ 32)
                          (position has_passed (first ∷ rest))))
                      (sym e)
                      (subst (IsGreenAfter (first ∷ rest))
                        (green_cast (position has_passed (first ∷ rest)) (suc (length rest))
                          (position_lem has_passed (first ∷ rest)) l)
                        (position-IsGreenAfter (first ∷ rest)));
                changes = λ t.
                    subst (λ z. Memᴰ t (transitions_of (first ∷ rest)) ↔ IsChange z t) (sym e)
                      (changes_iff (first ∷ rest) t);
                signatures = λ text.
                    subst
                      (λ z.
                        Memᴰ text (filter_map (λ a. a.failure_signature) (first ∷ rest))
                        ↔ ((a : CheckAttemptRecord) × Memᴰ a z × (a.failure_signature ≡ some text)))
                      (sym e) (mem-filter_map (λ a. a.failure_signature));
                green_within =
                    green_lem (position has_passed (first ∷ rest)) (suc (length rest))
                      (position_lem has_passed (first ∷ rest)) l;
                fewer_transitions = omega (arith, length-transitions_of first rest, l);
                signatures_within =
                    omega (arith, length-filter_map (λ a. a.failure_signature) (first ∷ rest), l);
              }),
            )
      ]

  -- For fewer than 2^32 attempts, every history is that of the attempts of its check: it begins and
  -- ends with their outcomes and counts them; its attempts to green are the number of the first that
  -- passed, if any did; its changes are those between two in a row; its failure signatures are theirs;
  -- and these three are within the count.
  pub build_check_histories-IsHistory :
      (attempts : List CheckAttemptRecord) (history : CheckHistory)
      → length attempts < 2 ^ 32
      → Memᴰ history (build_check_histories flake_rate attempts)
      → IsHistory attempts history
  unfolding build_check_histories
  build_check_histories-IsHistory attempts history l m =
      let r =
        (mem-filter_map
            (λ check_id. summarize flake_rate check_id (attempts_of attempts check_id))).0
          m in
      (summarize_lem attempts r.0 (attempts_of attempts r.0) history refl
        (omega (arith, l, length-filter (λ a. a.check_id == r.0) attempts)) r.2).1

  first_of_mem :
      (a : CheckAttemptRecord) (records : List CheckAttemptRecord) (check_id : String)
      → Memᴰ a records
      → (history : CheckHistory) × (summarize flake_rate check_id records ≡ some history)
        × (history.check_id ≡ check_id)
  unfolding summarize history_of
  first_of_mem a [] check_id m = elim m [ ]
  first_of_mem a (first ∷ rest) check_id m = elim (Option-cases (get_last? (first ∷ rest))) [
    | inl n ↦ absurd (no_last first rest n)
    | inr r ↦ (history_of flake_rate check_id (first ∷ rest) first r.0, rw (r.1) refl, refl)
  ]
    where
      no_last :
          (x : CheckAttemptRecord) (xs : List CheckAttemptRecord) → get_last? (x ∷ xs) ≡ none → ⊥
      no_last x [] n = cc n
      no_last x (y ∷ xs) n = no_last y xs n

  -- Every attempt's check has a history.
  pub history_of_attempt :
      (attempts : List CheckAttemptRecord) (attempt : CheckAttemptRecord)
      → Memᴰ attempt attempts
      → (history : CheckHistory) × Memᴰ history (build_check_histories flake_rate attempts)
        × (history.check_id ≡ attempt.check_id)
  unfolding build_check_histories check_ids contains
  history_of_attempt attempts attempt m =
      let own =
        (mem-filter (λ a. a.check_id == attempt.check_id)).1 (m, eq_refl attempt.check_id) in
      let r = first_of_mem attempt (attempts_of attempts attempt.check_id) attempt.check_id own in
      let id = (mem-sort_by text_le _).1 (
        (once_iff [] _ attempt.check_id).1
          ((mem-map (λ a. a.check_id)).1 (attempt, m, refl), refl)) in
      (
        r.0,
        (mem-filter_map
              (λ check_id. summarize flake_rate check_id (attempts_of attempts check_id))).1
            (attempt.check_id, id, r.1),
        r.2,
      )

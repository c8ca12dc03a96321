-- ===== src/Public/Conserved.antt =====
-- compiler/privacy.rs: the public counts add up.
use agent_receipts.Prelude.{
  ℕ, ◌+◌, ◌^◌, ◌≤◌, ◌<◌, ◌≡◌, refl, inl, inr, String, List, [], ◌∷◌, Bool, ◌==◌, filter, map,
  length, length-map, arith, Bool-cases, if◌then◌else◌,
}
use agent_receipts.Schema.{NextPassPacket}
use agent_receipts.Receipts.Types.{ReceiptVerification}
use agent_receipts.Public.Counts.{
  Counts, PublicProjection, to_u32, initialized_counts, increment, increment_known, contains_key,
  count_all, claim_statuses, applicabilities, integrities, outcomes, build_public_projection,
}

-- The sum of a table.
abbrev pub total_of : Counts → ℕ
total_of [] = 0
total_of (entry ∷ counts) = entry.1 + total_of counts

increment_lem :
    (key : String) (counts : Counts)
    → total_of counts + 1 < 2 ^ 32
    → total_of (increment key counts) ≡ total_of counts + 1
unfolding increment
increment_lem key [] h = refl
increment_lem key (entry ∷ counts) h = elim (Bool-cases (entry.0 == key)) [
  | inl e ↦ rw e (omega (arith, h))
  | inr e ↦ rw e (omega (arith, increment_lem key counts (omega (arith, h))))
]

count_all_lem :
    (counts : Counts) (values : List String)
    → total_of counts + length values < 2 ^ 32
    → total_of (count_all counts values) ≡ total_of counts + length values
unfolding count_all increment_known
count_all_lem counts [] h = omega arith
count_all_lem counts (value ∷ values) h =
    let one =
      increment_lem (if contains_key counts value then value else "unknown") counts
        (omega (arith, h)) in
    omega (arith, one, count_all_lem (increment_known counts value) values (omega (arith, h, one)))

length-filter_le : {A : Type 0} (p : A → Bool) (xs : List A) → length (filter p xs) ≤ length xs
length-filter_le p [] = omega arith
length-filter_le p (x ∷ xs) = elim (Bool-cases (p x)) [
  | inl e ↦ rw e (omega (arith, length-filter_le p xs))
  | inr e ↦ rw e (omega (arith, length-filter_le p xs))
]

-- What a reader may add up.
pub record IsConserved (packet : NextPassPacket) (projection : PublicProjection) : Type 0 where
  pub claims_total : projection.claims.total ≡ length packet.trust_assessments
  pub by_status : total_of projection.claims.by_status ≡ projection.claims.total
  pub by_applicability : total_of projection.claims.by_applicability ≡ projection.claims.total
  pub independent : projection.claims.independently_verified ≤ projection.claims.total
  pub receipts_total : projection.receipts.total ≡ length packet.receipt_events
  pub by_integrity : total_of projection.receipts.by_integrity ≡ projection.receipts.total
  pub by_outcome : total_of projection.receipts.by_outcome ≡ projection.receipts.total
  pub checks_total : projection.checks.checks ≡ length packet.check_histories
  pub first_pass : projection.checks.first_pass_successes ≤ projection.checks.checks
  pub green : projection.checks.eventually_green ≤ projection.checks.checks
  pub flaky : projection.checks.flaky_checks ≤ projection.checks.checks

to_u32_lem : (n : ℕ) → n < 2 ^ 32 → to_u32 n ≡ n
to_u32_lem n h = omega (arith, h)

-- A table that starts at zeros counts every item once.
table_lem :
    {A : Type 0} (f : A → String) (counts : Counts) (xs : List A)
    → total_of counts ≡ 0
    → length xs < 2 ^ 32
    → total_of (count_all counts (map f xs)) ≡ to_u32 (length xs)
table_lem f counts xs z h =
    let same = length-map f xs in
    let counted = count_all_lem counts (map f xs) (omega (arith, z, h, same)) in
    omega (arith, counted, z, same, to_u32_lem (length xs) h)

-- A number of some of the items.
part_lem :
    {A : Type 0} (p : A → Bool) (xs : List A)
    → length xs < 2 ^ 32
    → to_u32 (length (filter p xs)) ≤ to_u32 (length xs)
part_lem p xs h = omega (arith, length-filter_le p xs, h)

-- For fewer than 2^32 assessments, receipt events and checks, each public table adds up to the
-- number of what it counts, values that no table names included, and no part exceeds its whole.
pub build_public_projection-IsConserved :
    (packet : NextPassPacket) (verifications : List ReceiptVerification)
    → length packet.trust_assessments < 2 ^ 32
    → length packet.receipt_events < 2 ^ 32
    → length packet.check_histories < 2 ^ 32
    → IsConserved packet (build_public_projection packet verifications)
unfolding build_public_projection
build_public_projection-IsConserved packet verifications h k l = record {
  claims_total = to_u32_lem _ h;
  by_status =
      table_lem (λ a. a.claim_status) (initialized_counts claim_statuses) packet.trust_assessments
        refl h;
  by_applicability =
      table_lem (λ a. a.applicability) (initialized_counts applicabilities) packet.trust_assessments
        refl h;
  independent = part_lem _ packet.trust_assessments h;
  receipts_total = to_u32_lem _ k;
  by_integrity =
      table_lem (λ e. e.integrity) (initialized_counts integrities) packet.receipt_events refl k;
  by_outcome =
      table_lem (λ e. e.outcome) (initialized_counts outcomes) packet.receipt_events refl k;
  checks_total = to_u32_lem _ l;
  first_pass = part_lem _ packet.check_histories l;
  green = part_lem _ packet.check_histories l;
  flaky = part_lem _ packet.check_histories l;
}

-- ===== src/Compile/Skipped.antt =====
-- compiler/run_dir.rs, `derive_lane_digests`: when a lane need not be read.
use mathlib.Core.List.{Memᴰ}
use agent_receipts.Prelude.{
  ℕ, ◌+◌, ◌%◌, ◌^◌, ◌≤◌, ◌<◌, ◌≡◌, refl, subst, ◌↔◌, ◌⊎◌, inl, inr, String, List, [], ◌∷◌, Bool,
  true, false, not, ◌&&◌, ◌||◌, ◌==◌, eq_iff, arith, any, any_of_mem, mem_of_any,
  is_empty-filter_iff, nat_eq-length, filter, length, ltb, nat_eq, mem-filter, length-filter,
  mem-map, Bool-cases, if◌then◌else◌,
}
use agent_receipts.Schema.{EvidenceRecord, CompiledFact, Contradiction, ReceiptRecord, LaneDigest}
use agent_receipts.Compile.Lanes.{
  Tier, infra, attested, verifier, asserted, counts_attested, counts_verifier, counts_asserted,
  count_of, recommend, lane_of, tier_of, is_contradicted, cites_receipt, has_warnings,
  claims_identity, lane_digest, records_of, derive_lane_digests,
}

chosen_iff :
    (blocked disputed backed clean : Bool)
    → Path String
        (if blocked
          then "blocked"
          else if disputed
          then "read-adjudicate"
          else if backed
          then "skip-verified"
          else if clean
          then "skip-verified"
          else "read-unverified")
        "skip-verified"
      ↔ ((blocked ≡ false) × (disputed ≡ false) × ((backed || clean) ≡ true))
chosen_iff true disputed backed clean = (λ h. absurd (cc h), λ h. absurd (cc (h.0)))
chosen_iff false true backed clean = (λ h. absurd (cc h), λ h. absurd (cc (h.1)))
chosen_iff false false true clean = (λ h. (refl, refl, refl), λ h. refl)
chosen_iff false false false true = (λ h. (refl, refl, refl), λ h. refl)
chosen_iff false false false false = (λ h. absurd (cc h), λ h. absurd (cc (h.2)))

recommend_iff :
    (blocked : Bool) (c s a w : ℕ) (claimed labelled : Bool)
    → (recommend blocked c s a w claimed labelled ≡ "skip-verified") ↔ (
        (blocked ≡ false)
        × (c ≡ 0)
        × (w ≡ 0)
        × (claimed ≡ false)
        × (((a ≡ 0) × (labelled ≡ false)) ⊎ (s ≡ 0)))
unfolding recommend
recommend_iff blocked c s a w claimed labelled =
    let iff =
      chosen_iff blocked (ltb 0 c)
        (ltb 0 s && nat_eq a 0 && nat_eq w 0 && not claimed && not labelled)
        (nat_eq s 0 && nat_eq w 0 && not claimed) in
    (λ h. let k = iff.0 h in ground (arith, k), λ h. iff.1 (ground (arith, h)))

module _ {A : Type 0} where
  no_length-filter_iff :
      (p : A → Bool) (xs : List A)
      → (length (filter p xs) ≡ 0) ↔ ((x : A) → Memᴰ x xs → p x ≡ false)
  no_length-filter_iff p xs =
      let iff = is_empty-filter_iff p xs in
      let e = nat_eq-length (filter p xs) in
      ((λ h. iff.0 (ground (arith, e, h))), (λ h. let k = iff.1 h in ground (arith, e, k)))

  any-false_iff :
      (p : A → Bool) (xs : List A) → (any p xs ≡ false) ↔ ((x : A) → Memᴰ x xs → p x ≡ false)
  any-false_iff p xs = (
    λ h x m. elim (Bool-cases (p x)) [ inl e ↦ absurd (cc (h, any_of_mem p m e)) | inr e ↦ e ],
    λ h. elim (Bool-cases (any p xs)) [
      | inl e ↦ let r = mem_of_any p xs e in absurd (cc (h r.0 r.1, r.2))
      | inr e ↦ e
    ],
  )

  no_count_of_iff :
      (p : A → Bool) (xs : List A)
      → length xs < 2 ^ 32
      → (count_of p xs ≡ 0) ↔ ((x : A) → Memᴰ x xs → p x ≡ false)
  no_count_of_iff p xs l =
      let few = length-filter p xs in
      let iff = no_length-filter_iff p xs in
      ((λ e. iff.0 (omega arith)), (λ h. let e = iff.1 h in omega arith))

  length-tiers :
      (tier : A → Tier) (xs : List A)
      → length (filter (λ x. counts_attested (tier x)) xs)
          + length (filter (λ x. counts_verifier (tier x)) xs)
          + length (filter (λ x. counts_asserted (tier x)) xs)
        ≤ length xs
  length-tiers tier [] = omega arith
  length-tiers tier (x ∷ xs) = step (length-tiers tier xs) (tier x) refl
    where
      step :
          length (filter (λ y. counts_attested (tier y)) xs)
              + length (filter (λ y. counts_verifier (tier y)) xs)
              + length (filter (λ y. counts_asserted (tier y)) xs)
            ≤ length xs
          → (t : Tier) → tier x ≡ t
          → length (filter (λ y. counts_attested (tier y)) (x ∷ xs))
              + length (filter (λ y. counts_verifier (tier y)) (x ∷ xs))
              + length (filter (λ y. counts_asserted (tier y)) (x ∷ xs))
            ≤ length (x ∷ xs)
      step h infra e = rw e (omega (arith, h))
      step h attested e = rw e (omega (arith, h))
      step h verifier e = rw e (omega (arith, h))
      step h asserted e = rw e (omega (arith, h))

module _ {A : Type 0} (blocking disputed warned claiming cites : A → Bool) (tier : A → Tier) where
  -- A record that counts for nothing a reader must look at.
  pub record IsClean (r : A) : Type 0 where
    pub not_blocking : blocking r ≡ false
    pub undisputed : disputed r ≡ false
    pub no_warning : warned r ≡ false
    pub no_claim : claiming r ≡ false
    pub not_asserted : counts_asserted (tier r) ≡ false
    pub not_labelled : (counts_attested (tier r) && not (cites r)) ≡ false

  -- Where nothing counts as substantive, no record is attested or asserted.
  none_of_sum :
      (records : List A)
      → length records < 2 ^ 32
      → (count_of (λ r. counts_attested (tier r)) records
            + count_of (λ r. counts_verifier (tier r)) records
            + count_of (λ r. counts_asserted (tier r)) records)
          % 2 ^ 32
        ≡ 0
      → (count_of (λ r. counts_attested (tier r)) records ≡ 0)
        × (count_of (λ r. counts_asserted (tier r)) records ≡ 0)
  none_of_sum records l h =
      let t = length-tiers tier records in
      let a = length-filter (λ r. counts_attested (tier r)) records in
      let v = length-filter (λ r. counts_verifier (tier r)) records in
      let s = length-filter (λ r. counts_asserted (tier r)) records in (omega arith, omega arith)

  recommend-IsClean_iff :
      (records : List A)
      → length records < 2 ^ 32
      → (recommend
            (any blocking records)
            (count_of disputed records)
            ((count_of (λ r. counts_attested (tier r)) records
                + count_of (λ r. counts_verifier (tier r)) records
                + count_of (λ r. counts_asserted (tier r)) records)
              % 2 ^ 32)
            (count_of (λ r. counts_asserted (tier r)) records)
            (count_of warned records)
            (any claiming records)
            (any (λ r. counts_attested (tier r) && not (cites r)) records)
          ≡ "skip-verified")
        ↔ ((r : A) → Memᴰ r records → IsClean r)
  recommend-IsClean_iff records l = (
    λ h r m.
        let k = (recommend_iff _ _ _ _ _ _ _).0 h in
        let t = backed r m (k.4) in
        record {
          not_blocking = (any-false_iff blocking records).0 (k.0) r m;
          undisputed = (no_count_of_iff disputed records l).0 (k.1) r m;
          no_warning = (no_count_of_iff warned records l).0 (k.2) r m;
          no_claim = (any-false_iff claiming records).0 (k.3) r m;
          not_asserted = t.0;
          not_labelled = t.1;
        },
    λ h. (recommend_iff _ _ _ _ _ _ _).1 (
      (any-false_iff blocking records).1 (λ r m. (h r m).not_blocking),
      (no_count_of_iff disputed records l).1 (λ r m. (h r m).undisputed),
      (no_count_of_iff warned records l).1 (λ r m. (h r m).no_warning),
      (any-false_iff claiming records).1 (λ r m. (h r m).no_claim),
      inl (
        (no_count_of_iff (λ r. counts_asserted (tier r)) records l).1 (λ r m. (h r m).not_asserted),
        (any-false_iff (λ r. counts_attested (tier r) && not (cites r)) records).1
            (λ r m. (h r m).not_labelled),
      ),
    ),
  )
    where
      backed :
          (r : A)
          → Memᴰ r records
          → ((count_of (λ x. counts_asserted (tier x)) records ≡ 0)
              × (any (λ x. counts_attested (tier x) && not (cites x)) records ≡ false))
            ⊎ ((count_of (λ x. counts_attested (tier x)) records
                    + count_of (λ x. counts_verifier (tier x)) records
                    + count_of (λ x. counts_asserted (tier x)) records)
                  % 2 ^ 32
                ≡ 0)
          → (counts_asserted (tier r) ≡ false)
            × ((counts_attested (tier r) && not (cites r)) ≡ false)
      backed r m (inl h) = (
        (no_count_of_iff (λ x. counts_asserted (tier x)) records l).0 (h.0) r m,
        (any-false_iff (λ x. counts_attested (tier x) && not (cites x)) records).0 (h.1) r m,
      )
      backed r m (inr h) =
          let z = none_of_sum records l h in
          let a : counts_attested (tier r) ≡ false =
            (no_count_of_iff (λ x. counts_attested (tier x)) records l).0 (z.0) r m in
          (
            (no_count_of_iff (λ x. counts_asserted (tier x)) records l).0 (z.1) r m,
            ground (arith, a),
          )

module _ (facts : List CompiledFact) (contradictions : List Contradiction)
    (exec_receipts : List ReceiptRecord) where
  -- A record that nobody has to read.
  abbrev pub IsSkippable : EvidenceRecord → Type 0
  IsSkippable =
      IsClean (λ r. r.kind == "blocker") (is_contradicted facts contradictions exec_receipts)
        (has_warnings facts contradictions exec_receipts)
        (claims_identity facts contradictions exec_receipts)
        (cites_receipt facts contradictions exec_receipts)
        (tier_of facts contradictions exec_receipts)

  -- For fewer than 2^32 records of evidence, a lane is reported as one to skip exactly when none of
  -- its records is a blocker, is contradicted, carries a warning, claims an identity, counts as
  -- asserted, or counts as attested without citing an executed receipt.
  pub derive_lane_digests-skip_iff :
      (evidence : List EvidenceRecord) (digest : LaneDigest)
      → length evidence < 2 ^ 32
      → Memᴰ digest (derive_lane_digests facts contradictions exec_receipts evidence)
      → (digest.read_recommendation ≡ "skip-verified")
        ↔ ((r : EvidenceRecord) → Memᴰ r evidence → lane_of r ≡ digest.lane → IsSkippable r)
  unfolding derive_lane_digests lane_digest
  derive_lane_digests-skip_iff evidence digest l m =
      let k =
        (mem-map (λ lane.
            lane_digest facts contradictions exec_receipts lane
              (records_of facts contradictions exec_receipts evidence lane))).0
          m in
      let few = length-filter (λ r. lane_of r == k.0) evidence in
      let iff =
        recommend-IsClean_iff (λ r. r.kind == "blocker")
          (is_contradicted facts contradictions exec_receipts)
          (has_warnings facts contradictions exec_receipts)
          (claims_identity facts contradictions exec_receipts)
          (cites_receipt facts contradictions exec_receipts)
          (tier_of facts contradictions exec_receipts)
          (records_of facts contradictions exec_receipts evidence (k.0)) (omega (arith, l, few)) in
      subst
        (λ (d : LaneDigest).
          (d.read_recommendation ≡ "skip-verified")
          ↔ ((r : EvidenceRecord) → Memᴰ r evidence → lane_of r ≡ d.lane → IsSkippable r))
        (k.2)
        (
          (λ h r n e.
              iff.0 h r
                ((mem-filter (λ x. lane_of x == k.0)).1 (n, (eq_iff (lane_of r) (k.0)).1 e))),
          (λ h. iff.1 (λ r n.
              let q = (mem-filter (λ x. lane_of x == k.0)).0 n in
              h r (q.0) ((eq_iff (lane_of r) (k.0)).0 (q.1)))),
        )

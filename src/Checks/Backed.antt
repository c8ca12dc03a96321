-- ===== src/Checks/Backed.antt =====
-- compiler/checks.rs, `verify_attempt_receipts`: an attempt is only as good as its receipts.
use mathlib.Core.List.{Memᴰ}
use agent_receipts.Prelude.{
  ◌≡◌, refl, ap, subst, ◌↔◌, ◌⊎◌, inl, inr, Bool, true, false, not, ◌&&◌, String, List, [], ◌∷◌,
  Option, none, some, ◌==◌, arith, eq_iff, format, find, is_some_eq, Result, ok, err, ◌>>=◌, ◌>>◌,
  >>=-eq-ok, >>-eq-ok, >>-ok_iff, ensure, ensure_iff, ok_or, ok_or-eq-ok, for_each, for_each-ok_iff,
  and_iff, Bool-cases,
}
use agent_receipts.Prelude.Int.{is_zero}
use agent_receipts.Schema.{ReceiptRecord}
use agent_receipts.Checks.Types.{CheckAttemptRecord}

-- The messages, with the ids that they name.
pub data AttemptError : Type 0 where
  unknown_primary primary_mismatch claims_passed unknown_control wrong_control_label :
      String → String → AttemptError
  control_succeeded incomplete_control : String → AttemptError

abbrev pub check_label : String → String
check_label check_id = format ("check:" ∷ check_id ∷ [])

abbrev pub control_label : String → String
control_label check_id = format ("check:" ∷ check_id ∷ ":negative-control" ∷ [])

-- `receipts.iter().find(|receipt| receipt.id == id)`
abbrev pub receipt_by_id : List ReceiptRecord → String → Option ReceiptRecord
receipt_by_id receipts id = find (λ receipt. receipt.id == id) receipts

-- `command_digest_of` is BLAKE3, in hexadecimal, of the JSON of a command.
module _ (command_digest_of : List String → String) (receipts : List ReceiptRecord) where
  unfoldable pub verify_primary : CheckAttemptRecord → Result AttemptError (Unit {0})
  verify_primary attempt =
      ok_or (receipt_by_id receipts attempt.primary_receipt_id)
        (unknown_primary attempt.id attempt.primary_receipt_id)
      >>= λ primary.
          ensure
            (is_some_eq primary.label (check_label attempt.check_id)
              && command_digest_of primary.cmd == attempt.command_digest)
            (primary_mismatch attempt.id primary.id)
          >> ensure (not (attempt.outcome == "passed" && not (is_zero primary.exit_code)))
              (claims_passed attempt.id primary.id)

  verify_control_receipt : CheckAttemptRecord → String → String → Result AttemptError (Unit {0})
  verify_control_receipt attempt receipt_id control_outcome =
      ok_or (receipt_by_id receipts receipt_id) (unknown_control attempt.id receipt_id)
      >>= λ control.
          ensure (is_some_eq control.label (control_label attempt.check_id))
            (wrong_control_label attempt.id control.id)
          >> ensure (not (control_outcome == "expected_failure" && is_zero control.exit_code))
              (control_succeeded attempt.id)

  -- The `match` on the pair of the two fields.
  match_control :
      CheckAttemptRecord → Option String → Option String → Result AttemptError (Unit {0})
  match_control attempt none none = ok tt
  match_control attempt (some receipt_id) (some control_outcome) =
      verify_control_receipt attempt receipt_id control_outcome
  match_control attempt none (some control_outcome) = err (incomplete_control attempt.id)
  match_control attempt (some receipt_id) none = err (incomplete_control attempt.id)

  unfoldable pub verify_control : CheckAttemptRecord → Result AttemptError (Unit {0})
  unfolding verify_control_receipt match_control
  verify_control attempt =
      match_control attempt attempt.negative_control_receipt_id attempt.negative_control_outcome

  unfoldable pub verify_attempt_receipts : List CheckAttemptRecord → Result AttemptError (Unit {0})
  verify_attempt_receipts attempts =
      for_each (λ attempt. verify_primary attempt >> verify_control attempt) attempts

  -- The receipt of an attempt: it ran the check's command, and it exited with 0 if the attempt passed.
  pub record IsReceipted (attempt : CheckAttemptRecord) : Type 0 where
    pub primary : ReceiptRecord
    pub found : receipt_by_id receipts attempt.primary_receipt_id ≡ some primary
    pub labelled : primary.label ≡ some (check_label attempt.check_id)
    pub same_command : command_digest_of primary.cmd ≡ attempt.command_digest
    pub exited_zero : attempt.outcome ≡ "passed" → is_zero primary.exit_code ≡ true

  -- The negative control of an attempt: none, or a receipt under the control's label, which failed if
  -- the attempt says that it failed as expected.
  pub record IsControlled (attempt : CheckAttemptRecord) (receipt_id control_outcome : String)
      : Type 0 where
    pub control : ReceiptRecord
    pub control_found : receipt_by_id receipts receipt_id ≡ some control
    pub control_labelled : control.label ≡ some (control_label attempt.check_id)
    pub control_failed : control_outcome ≡ "expected_failure" → is_zero control.exit_code ≡ false

  abbrev pub HasControl : CheckAttemptRecord → Option String → Option String → Type 0
  HasControl attempt id outcome =
      ((id ≡ none) × (outcome ≡ none))
      ⊎ ((receipt_id : String) × (control_outcome : String) × (id ≡ some receipt_id)
          × (outcome ≡ some control_outcome)
          × IsControlled attempt receipt_id control_outcome)

  is_some_eq_iff : (o : Option String) (t : String) → (is_some_eq o t ≡ true) ↔ (o ≡ some t)
  is_some_eq_iff none t = (λ h. absurd (cc), λ h. absurd (cc))
  is_some_eq_iff (some s) t = (λ h. ap some ((eq_iff s t).0 h), λ h. (eq_iff s t).1 (cc h))

  -- A test that is only made at one text.
  guarded_iff : (s t : String) (b : Bool) → (not (s == t && b) ≡ true) ↔ (s ≡ t → b ≡ false)
  guarded_iff s t b = (
    λ h e. let k = (eq_iff s t).1 e in ground arith,
    λ h. elim (Bool-cases (s == t)) [
      | inl e ↦ let k = h ((eq_iff s t).0 e) in rw (e, k) refl
      | inr e ↦ rw e refl
    ],
  )

  not_zero : (b : Bool) → not b ≡ false → b ≡ true
  not_zero b h = ground arith

  verify_primary_iff :
      (attempt : CheckAttemptRecord) → (verify_primary attempt ≡ ok tt) ↔ IsReceipted attempt
  unfolding verify_primary
  verify_primary_iff attempt = (
    λ h.
        let p =
          >>=-eq-ok
            (ok_or (receipt_by_id receipts attempt.primary_receipt_id)
              (unknown_primary attempt.id attempt.primary_receipt_id))
            _ h in
        let q = >>-eq-ok _ _ p.2 in
        let tests =
          (and_iff (is_some_eq p.0.label (check_label attempt.check_id))
              (command_digest_of p.0.cmd == attempt.command_digest)).0
            ((ensure_iff _ _).0 q.0) in
        record {
          primary = p.0;
          found = ok_or-eq-ok _ _ p.1;
          labelled = (is_some_eq_iff p.0.label (check_label attempt.check_id)).0 tests.0;
          same_command = (eq_iff _ _).0 tests.1;
          exited_zero = λ e. not_zero _ (
              (guarded_iff attempt.outcome "passed" (not (is_zero p.0.exit_code))).0
                ((ensure_iff _ _).0 q.1) e);
        },
    λ r. rw (r.found) (
        (>>-ok_iff _ _).1 (
          (ensure_iff _ _).1 (
              (and_iff _ _).1 (
                (is_some_eq_iff r.primary.label (check_label attempt.check_id)).1 r.labelled,
                (eq_iff _ _).1 r.same_command,
              )),
          (ensure_iff _ _).1 (
              (guarded_iff attempt.outcome "passed" (not (is_zero r.primary.exit_code))).1
                (λ e. rw (r.exited_zero e) refl)),
        )),
  )

  control_receipt_iff :
      (attempt : CheckAttemptRecord) (receipt_id control_outcome : String)
      → (verify_control_receipt attempt receipt_id control_outcome ≡ ok tt)
        ↔ IsControlled attempt receipt_id control_outcome
  unfolding verify_control_receipt
  control_receipt_iff attempt receipt_id control_outcome = (
    λ h.
        let p =
          >>=-eq-ok
            (ok_or (receipt_by_id receipts receipt_id) (unknown_control attempt.id receipt_id)) _
            h in
        let q = >>-eq-ok _ _ p.2 in
        record {
          control = p.0;
          control_found = ok_or-eq-ok _ _ p.1;
          control_labelled =
              (is_some_eq_iff p.0.label (control_label attempt.check_id)).0
                ((ensure_iff _ _).0 q.0);
          control_failed =
              (guarded_iff control_outcome "expected_failure" (is_zero p.0.exit_code)).0
                ((ensure_iff _ _).0 q.1);
        },
    λ r. rw (r.control_found) (
        (>>-ok_iff _ _).1 (
          (ensure_iff _ _).1 (
              (is_some_eq_iff r.control.label (control_label attempt.check_id)).1
                r.control_labelled),
          (ensure_iff _ _).1 (
              (guarded_iff control_outcome "expected_failure" (is_zero r.control.exit_code)).1
                r.control_failed),
        )),
  )

  match_control_iff :
      (attempt : CheckAttemptRecord) (id outcome : Option String)
      → (match_control attempt id outcome ≡ ok tt) ↔ HasControl attempt id outcome
  unfolding match_control
  match_control_iff attempt none none = (λ h. inl (refl, refl), λ h. refl)
  match_control_iff attempt none (some o) =
      (λ h. absurd (cc), λ h. elim h [ inl p ↦ absurd (cc (p.1)) | inr p ↦ absurd (cc (p.2)) ])
  match_control_iff attempt (some i) none =
      (λ h. absurd (cc), λ h. elim h [ inl p ↦ absurd (cc (p.0)) | inr p ↦ absurd (cc (p.3)) ])
  match_control_iff attempt (some i) (some o) = (
    λ h. inr (i, o, refl, refl, (control_receipt_iff attempt i o).0 h),
    λ h. elim h [
      | inl p ↦ absurd (cc (p.0))
      | inr p ↦
          let j : p.0 ≡ i = cc (p.2) in
          let k : p.1 ≡ o = cc (p.3) in
          (control_receipt_iff attempt i o).1 (
            subst (λ z. IsControlled attempt i z) k (subst (λ z. IsControlled attempt z p.1) j p.4))
    ],
  )

  verify_control_iff :
      (attempt : CheckAttemptRecord)
      → (verify_control attempt ≡ ok tt)
        ↔ HasControl attempt attempt.negative_control_receipt_id attempt.negative_control_outcome
  unfolding verify_control
  verify_control_iff attempt =
      match_control_iff attempt attempt.negative_control_receipt_id attempt.negative_control_outcome

  -- The attempts pass exactly when each has its receipts: the first receipt with the primary id ran
  -- the check's command under the check's label, and exited with 0 if the attempt passed; and its
  -- negative control is absent, or ran under the control's label and failed where it says so.
  pub verify_attempt_receipts_iff :
      (attempts : List CheckAttemptRecord)
      → (verify_attempt_receipts attempts ≡ ok tt) ↔ (
          (attempt : CheckAttemptRecord)
          → Memᴰ attempt attempts
          → IsReceipted attempt
            × HasControl attempt attempt.negative_control_receipt_id
                attempt.negative_control_outcome)
  unfolding verify_attempt_receipts
  verify_attempt_receipts_iff attempts = (
    λ h attempt m.
        let q =
          >>-eq-ok (verify_primary attempt) (verify_control attempt) (
            (for_each-ok_iff (λ a. verify_primary a >> verify_control a) attempts).0 h attempt m) in
        ((verify_primary_iff attempt).0 q.0, (verify_control_iff attempt).0 q.1),
    λ h. (for_each-ok_iff (λ a. verify_primary a >> verify_control a) attempts).1 (λ attempt m.
        (>>-ok_iff _ _).1 (
          (verify_primary_iff attempt).1 (h attempt m).0,
          (verify_control_iff attempt).1 (h attempt m).1,
        )),
  )

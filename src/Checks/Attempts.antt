-- ===== src/Checks/Attempts.antt =====
-- compiler/checks.rs: the journal of check attempts. A missing file has no lines.
use agent_receipts.Prelude.{
  ℕ, suc, ◌+◌, ◌≡◌, String, List, [], ◌∷◌, ◌++◌, false, ◌&&◌, Option, some, ◌==◌, format, decimal4,
  is_blank, length, if◌then◌else◌, Result, ok, ◌>>=◌, ◌>>◌, ensure, ok_or,
}
use agent_receipts.Journal.Hash.{genesis}
use agent_receipts.Journal.Chain.{chain_head}
use agent_receipts.Checks.Types.{CheckAttemptRecord}

pub data AttemptJournalError : Type 0 where
  invalid_attempt unhashed : ℕ → AttemptJournalError
  broken_chain : ℕ → String → AttemptJournalError
  not_hashed not_printed : AttemptJournalError

abbrev pub attempt_format_version : String
attempt_format_version = "1"

-- `to_vec`, `to_string` and `from_str` of serde_json at an attempt, and BLAKE3 in hexadecimal.
module _ (to_vec : CheckAttemptRecord → Option (List ℕ))
    (to_string : CheckAttemptRecord → Option String) (from_str : String → Option CheckAttemptRecord)
    (blake3 : List ℕ → String) where
  abbrev pub attempt_hash :
      AttemptJournalError → CheckAttemptRecord → Result AttemptJournalError String
  attempt_hash e attempt = ok_or (to_vec (record (attempt) { record_hash = "" })) e >>= λ canonical.
      ok (blake3 canonical)

  -- One line that is not blank, after a record with the hash `previous`.
  unfoldable pub read_attempt : ℕ → String → String → Result AttemptJournalError CheckAttemptRecord
  read_attempt index previous line =
      ok_or (from_str line) (invalid_attempt (index + 1)) >>= λ attempt.
      attempt_hash (unhashed (index + 1)) attempt >>= λ actual.
      ensure
        (attempt.format_version == attempt_format_version
          && attempt.record_hash == actual
          && attempt.prev_record_hash == previous)
        (broken_chain (index + 1) attempt.id)
      >> ok attempt

  load_attempts : ℕ → String → List String → Result AttemptJournalError (List CheckAttemptRecord)
  unfolding read_attempt
  load_attempts index previous [] = ok []
  load_attempts index previous (line ∷ lines) =
      if is_blank line
      then load_attempts (suc index) previous lines
      else (read_attempt index previous line >>= λ attempt.
          load_attempts (suc index) attempt.record_hash lines >>= λ rest. ok (attempt ∷ rest))

  unfoldable pub load_verified_attempts :
      List String → Result AttemptJournalError (List CheckAttemptRecord)
  unfolding load_attempts
  load_verified_attempts lines = load_attempts 0 genesis lines

  -- The attempt as it is hashed, and as it is written.
  abbrev pub numbered_attempt : List CheckAttemptRecord → CheckAttemptRecord → CheckAttemptRecord
  numbered_attempt existing attempt = record (attempt) {
    id = format ("check-attempt-" ∷ decimal4 (length existing + 1) ∷ []);
    prev_record_hash = chain_head (λ a. a.record_hash) existing;
  }

  abbrev pub hashed_attempt : CheckAttemptRecord → String → CheckAttemptRecord
  hashed_attempt attempt hash = record (attempt) { record_hash = hash }

  -- The attempt that was written, and the lines afterwards. There is no lock.
  unfoldable pub append_attempt :
      List String
      → CheckAttemptRecord
      → Result AttemptJournalError (CheckAttemptRecord × List String)
  append_attempt lines attempt = load_verified_attempts lines >>= λ existing.
      attempt_hash not_hashed (numbered_attempt existing attempt) >>= λ hash.
      ok_or (to_string (hashed_attempt (numbered_attempt existing attempt) hash)) not_printed
      >>= λ line. ok (hashed_attempt (numbered_attempt existing attempt) hash, lines ++ line ∷ [])

  -- A printed attempt is one line that reads back.
  pub record IsPrinter : Type 0 where
    pub is_a_line :
        (a : CheckAttemptRecord) (line : String) → to_string a ≡ some line → is_blank line ≡ false
    pub reads_back :
        (a : CheckAttemptRecord) (line : String) → to_string a ≡ some line → from_str line ≡ some a

  -- What an append leaves: the attempt that was given, with the next number, the hash of the record
  -- before it and a hash of its own, stands behind the attempts that were there.
  pub record IsAppended (lines : List String) (attempt done : CheckAttemptRecord)
      (after : List String) : Type 0 where
    pub existing : List CheckAttemptRecord
    pub loaded : load_verified_attempts lines ≡ ok existing
    pub reloaded : load_verified_attempts after ≡ ok (existing ++ done ∷ [])
    pub id_is : done.id ≡ format ("check-attempt-" ∷ decimal4 (length existing + 1) ∷ [])
    pub follows : done.prev_record_hash ≡ chain_head (λ a. a.record_hash) existing
    pub format_version_is : done.format_version ≡ attempt.format_version
    pub check_is : (done.check_id ≡ attempt.check_id) × (done.check_version ≡ attempt.check_version)
    pub targets_are : done.target_claims ≡ attempt.target_claims
    pub paths_are : done.covered_paths ≡ attempt.covered_paths
    pub subject_is : done.subject_digest ≡ attempt.subject_digest
    pub lock_is : done.dependency_lock_digest ≡ attempt.dependency_lock_digest
    pub command_is : done.command_digest ≡ attempt.command_digest
    pub definition_is : done.definition_digest ≡ attempt.definition_digest
    pub environment_is :
        (done.environment_class ≡ attempt.environment_class)
        × (done.environment_digest ≡ attempt.environment_digest)
    pub outcome_is : done.outcome ≡ attempt.outcome
    pub signature_is : done.failure_signature ≡ attempt.failure_signature
    pub receipt_is : done.primary_receipt_id ≡ attempt.primary_receipt_id
    pub control_is :
        (done.negative_control_receipt_id ≡ attempt.negative_control_receipt_id)
        × (done.negative_control_outcome ≡ attempt.negative_control_outcome)
    pub time_is : done.attempted_at ≡ attempt.attempted_at

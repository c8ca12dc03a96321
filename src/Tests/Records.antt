-- ===== src/Tests/Records.antt =====
-- Printers and readers of the records that the journals and the key file hold.
use agent_receipts.Prelude.{ℕ, refl, String, List, Option}
use agent_receipts.Prelude.Int.{ℤ}
use agent_receipts.Schema.{ReceiptRecord}
use agent_receipts.Envelope.Types.{
  DigestRef, ExecutorIdentity, SignedEngineIdentity, SignedReceiptEnvelope, SignedReceiptHead,
  ExecutorKeyFile,
}
use agent_receipts.Checks.Types.{CheckAttemptRecord}
use agent_receipts.Tests.Codec.{Codec, text, nat, int, option, list, both, via}

abbrev receipt_record_of :
    String
      × (Option String
          × (List String
              × (String
                  × (ℤ
                      × (ℕ
                          × (String
                              × (String
                                  × (String
                                      × (String
                                          × (String
                                              × (String
                                                  × (Option String
                                                      × (Option String
                                                          × (Option String
                                                            × (Option String
                                                            × (String
                                                            × (String × String)))))))))))))))))
    → ReceiptRecord
receipt_record_of t = record {
  id = t.0;
  label = t.1.0;
  cmd = t.1.1.0;
  cwd = t.1.1.1.0;
  exit_code = t.1.1.1.1.0;
  duration_ms = t.1.1.1.1.1.0;
  started_at = t.1.1.1.1.1.1.0;
  ended_at = t.1.1.1.1.1.1.1.0;
  stdout_hash = t.1.1.1.1.1.1.1.1.0;
  stderr_hash = t.1.1.1.1.1.1.1.1.1.0;
  stdout_tail = t.1.1.1.1.1.1.1.1.1.1.0;
  stderr_tail = t.1.1.1.1.1.1.1.1.1.1.1.0;
  tree_before = t.1.1.1.1.1.1.1.1.1.1.1.1.0;
  tree_after = t.1.1.1.1.1.1.1.1.1.1.1.1.1.0;
  lane = t.1.1.1.1.1.1.1.1.1.1.1.1.1.1.0;
  agent_id = t.1.1.1.1.1.1.1.1.1.1.1.1.1.1.1.0;
  writer = t.1.1.1.1.1.1.1.1.1.1.1.1.1.1.1.1.0;
  prev_record_hash = t.1.1.1.1.1.1.1.1.1.1.1.1.1.1.1.1.1.0;
  record_hash = t.1.1.1.1.1.1.1.1.1.1.1.1.1.1.1.1.1.1;
}

unfoldable pub receipt_record : Codec ReceiptRecord
receipt_record =
    via receipt_record_of
      (λ r. (
        r.id,
        (
          r.label,
          (
            r.cmd,
            (
              r.cwd,
              (
                r.exit_code,
                (
                  r.duration_ms,
                  (
                    r.started_at,
                    (
                      r.ended_at,
                      (
                        r.stdout_hash,
                        (
                          r.stderr_hash,
                          (
                            r.stdout_tail,
                            (
                              r.stderr_tail,
                              (
                                r.tree_before,
                                (
                                  r.tree_after,
                                  (
                                    r.lane,
                                    (r.agent_id, (r.writer, (r.prev_record_hash, r.record_hash))),
                                  ),
                                ),
                              ),
                            ),
                          ),
                        ),
                      ),
                    ),
                  ),
                ),
              ),
            ),
          ),
        ),
      ))
      (λ r. refl)
      (both text (
        both (option text) (
          both (list text) (
            both text (
              both int (
                both nat (
                  both text (
                    both text (
                      both text (
                        both text (
                          both text (
                            both text (
                              both (option text) (
                                both (option text) (
                                  both (option text)
                                    (both (option text) (both text (both text text))))))))))))))))))

abbrev digest_ref_of : String × String → DigestRef
digest_ref_of t = record { hash_alg = t.0; digest = t.1 }

unfoldable pub digest_ref : Codec DigestRef
digest_ref = via digest_ref_of (λ r. (r.hash_alg, r.digest)) (λ r. refl) (both text text)

abbrev executor_identity_of : String × (String × String) → ExecutorIdentity
executor_identity_of t = record { principal_id = t.0; public_key = t.1.0; key_fingerprint = t.1.1 }

unfoldable pub executor_identity : Codec ExecutorIdentity
executor_identity =
    via executor_identity_of (λ r. (r.principal_id, (r.public_key, r.key_fingerprint))) (λ r. refl)
      (both text (both text text))

abbrev engine_identity_of :
    String × (String × (String × (DigestRef × (DigestRef × (String × String)))))
    → SignedEngineIdentity
engine_identity_of t = record {
  protocol_version = t.0;
  engine_version = t.1.0;
  build_commit = t.1.1.0;
  binary_digest = t.1.1.1.0;
  dependency_lock_digest = t.1.1.1.1.0;
  os = t.1.1.1.1.1.0;
  arch = t.1.1.1.1.1.1;
}

unfoldable pub engine_identity : Codec SignedEngineIdentity
engine_identity =
    via engine_identity_of
      (λ r. (
        r.protocol_version,
        (
          r.engine_version,
          (r.build_commit, (r.binary_digest, (r.dependency_lock_digest, (r.os, r.arch)))),
        ),
      ))
      (λ r. refl)
      (both text (both text (both text (both digest_ref (both digest_ref (both text text))))))

abbrev envelope_of :
    String
      × (String
          × (String
              × (ℕ
                  × (DigestRef
                      × (ReceiptRecord
                          × (ExecutorIdentity
                              × (SignedEngineIdentity
                                  × (String × (String × (String × String))))))))))
    → SignedReceiptEnvelope
envelope_of t = record {
  format_version = t.0;
  record_kind = t.1.0;
  run_id = t.1.1.0;
  sequence = t.1.1.1.0;
  previous = t.1.1.1.1.0;
  payload = t.1.1.1.1.1.0;
  executor = t.1.1.1.1.1.1.0;
  engine = t.1.1.1.1.1.1.1.0;
  hash_alg = t.1.1.1.1.1.1.1.1.0;
  signature_alg = t.1.1.1.1.1.1.1.1.1.0;
  record_hash = t.1.1.1.1.1.1.1.1.1.1.0;
  signature = t.1.1.1.1.1.1.1.1.1.1.1;
}

unfoldable pub envelope : Codec SignedReceiptEnvelope
envelope =
    via envelope_of
      (λ r. (
        r.format_version,
        (
          r.record_kind,
          (
            r.run_id,
            (
              r.sequence,
              (
                r.previous,
                (
                  r.payload,
                  (
                    r.executor,
                    (r.engine, (r.hash_alg, (r.signature_alg, (r.record_hash, r.signature)))),
                  ),
                ),
              ),
            ),
          ),
        ),
      ))
      (λ r. refl)
      (both text (
        both text (
          both text (
            both nat (
              both digest_ref (
                both receipt_record (
                  both executor_identity
                    (both engine_identity (both text (both text (both text text)))))))))))

abbrev head_of :
    String × (String × (String × (ℕ × (DigestRef × (ExecutorIdentity × (String × String))))))
    → SignedReceiptHead
head_of t = record {
  format_version = t.0;
  record_kind = t.1.0;
  run_id = t.1.1.0;
  sequence = t.1.1.1.0;
  last = t.1.1.1.1.0;
  executor = t.1.1.1.1.1.0;
  signature_alg = t.1.1.1.1.1.1.0;
  signature = t.1.1.1.1.1.1.1;
}

unfoldable pub head : Codec SignedReceiptHead
head =
    via head_of
      (λ r. (
        r.format_version,
        (
          r.record_kind,
          (r.run_id, (r.sequence, (r.last, (r.executor, (r.signature_alg, r.signature))))),
        ),
      ))
      (λ r. refl)
      (both text (
        both text
          (both text (both nat (both digest_ref (both executor_identity (both text text)))))))

abbrev key_file_of : String × (String × (String × String)) → ExecutorKeyFile
key_file_of t = record {
  format_version = t.0;
  secret_key = t.1.0;
  public_key = t.1.1.0;
  key_fingerprint = t.1.1.1;
}

unfoldable pub key_file : Codec ExecutorKeyFile
key_file =
    via key_file_of (λ r. (r.format_version, (r.secret_key, (r.public_key, r.key_fingerprint))))
      (λ r. refl) (both text (both text (both text text)))

abbrev attempt_record_of :
    String
      × (String
          × (String
              × (String
                  × (List String
                      × (List String
                          × (String
                              × (String
                                  × (String
                                      × (String
                                          × (String
                                              × (String
                                                  × (String
                                                      × (Option String
                                                          × (String
                                                            × (Option String
                                                            × (Option String
                                                            × (String
                                                            × (String × String))))))))))))))))))
    → CheckAttemptRecord
attempt_record_of t = record {
  format_version = t.0;
  id = t.1.0;
  check_id = t.1.1.0;
  check_version = t.1.1.1.0;
  target_claims = t.1.1.1.1.0;
  covered_paths = t.1.1.1.1.1.0;
  subject_digest = t.1.1.1.1.1.1.0;
  dependency_lock_digest = t.1.1.1.1.1.1.1.0;
  command_digest = t.1.1.1.1.1.1.1.1.0;
  definition_digest = t.1.1.1.1.1.1.1.1.1.0;
  environment_class = t.1.1.1.1.1.1.1.1.1.1.0;
  environment_digest = t.1.1.1.1.1.1.1.1.1.1.1.0;
  outcome = t.1.1.1.1.1.1.1.1.1.1.1.1.0;
  failure_signature = t.1.1.1.1.1.1.1.1.1.1.1.1.1.0;
  primary_receipt_id = t.1.1.1.1.1.1.1.1.1.1.1.1.1.1.0;
  negative_control_receipt_id = t.1.1.1.1.1.1.1.1.1.1.1.1.1.1.1.0;
  negative_control_outcome = t.1.1.1.1.1.1.1.1.1.1.1.1.1.1.1.1.0;
  attempted_at = t.1.1.1.1.1.1.1.1.1.1.1.1.1.1.1.1.1.0;
  prev_record_hash = t.1.1.1.1.1.1.1.1.1.1.1.1.1.1.1.1.1.1.0;
  record_hash = t.1.1.1.1.1.1.1.1.1.1.1.1.1.1.1.1.1.1.1;
}

unfoldable pub attempt_record : Codec CheckAttemptRecord
attempt_record =
    via attempt_record_of
      (λ r. (
        r.format_version,
        (
          r.id,
          (
            r.check_id,
            (
              r.check_version,
              (
                r.target_claims,
                (
                  r.covered_paths,
                  (
                    r.subject_digest,
                    (
                      r.dependency_lock_digest,
                      (
                        r.command_digest,
                        (
                          r.definition_digest,
                          (
                            r.environment_class,
                            (
                              r.environment_digest,
                              (
                                r.outcome,
                                (
                                  r.failure_signature,
                                  (
                                    r.primary_receipt_id,
                                    (
                                      r.negative_control_receipt_id,
                                      (
                                        r.negative_control_outcome,
                                        (r.attempted_at, (r.prev_record_hash, r.record_hash)),
                                      ),
                                    ),
                                  ),
                                ),
                              ),
                            ),
                          ),
                        ),
                      ),
                    ),
                  ),
                ),
              ),
            ),
          ),
        ),
      ))
      (λ r. refl)
      (both text (
        both text (
          both text (
            both text (
              both (list text) (
                both (list text) (
                  both text (
                    both text (
                      both text (
                        both text (
                          both text (
                            both text (
                              both text (
                                both (option text) (
                                  both text (
                                    both (option text) (
                                      both (option text)
                                        (both text (both text text)))))))))))))))))))

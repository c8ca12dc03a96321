-- ===== src/Receipts/Stored.antt =====
-- compiler/receipts.rs: artifacts that are stored are the ones that a signed receipt needs.
use agent_receipts.Prelude.{
  ℕ, ◌≡◌, ◌≢◌, refl, sym, ap, subst, ◌∙◌, ◌↔◌, inl, inr, String, List, [], ◌∷◌, true, false, Option,
  none, some, ◌==◌, eq_iff, eq_refl, arith, Bool-cases, for_each, ok, ◌>>◌, >>=-eq-ok, >>-eq-ok,
  >>-ok_iff, ensure, ensure-eq-ok, of_ok,
}
use agent_receipts.Schema.{ReceiptRecord}
use agent_receipts.Envelope.Hex.{lower_hex}
use agent_receipts.Envelope.Keys.{Crypto, IsCrypto}
use agent_receipts.Envelope.Signing.{hash_hex}
use agent_receipts.Receipts.Types.{invalid_digest, artifact_collision}
use agent_receipts.Receipts.Artifacts.{
  Entry, file, directory, symlink, Files, artifact_path, bytes_eq, write, place_artifact,
  store_artifact, read_artifact, verify_stream, verify_signed_artifacts,
}

module _ (crypto : Crypto) where
  -- A digest whose artifact is a regular file with that hash.
  pub record HasArtifact (files : Files) (digest : String) : Type 0 where
    pub is_digest : lower_hex digest 64 ≡ true
    pub bytes : List ℕ
    pub stored : files (artifact_path digest) ≡ some (file bytes)
    pub hashes : crypto.blake3 bytes ≡ digest

  read_artifact-eq-ok :
      (id stream : String) (entry : Option Entry) (bytes : List ℕ)
      → read_artifact crypto id stream entry ≡ ok bytes
      → entry ≡ some (file bytes)
  unfolding read_artifact
  read_artifact-eq-ok id stream none bytes h = absurd (cc)
  read_artifact-eq-ok id stream (some (file b)) bytes h = ap (λ z. some (file z)) (of_ok h)
  read_artifact-eq-ok id stream (some directory) bytes h = absurd (cc)
  read_artifact-eq-ok id stream (some (symlink l)) bytes h = absurd (cc)

  verify_stream_iff :
      (files : Files) (receipt : ReceiptRecord) (stream digest : String)
      → (verify_stream crypto files receipt (stream, digest) ≡ ok tt) ↔ HasArtifact files digest
  unfolding verify_stream read_artifact
  verify_stream_iff files receipt stream digest = (
    λ h.
        let a =
          >>=-eq-ok
            (ensure (lower_hex digest 64) (invalid_digest receipt.id stream)
              >> read_artifact crypto receipt.id stream (files (artifact_path digest)))
            _ h in
        let b = >>-eq-ok (ensure (lower_hex digest 64) (invalid_digest receipt.id stream)) _ a.1 in
        record {
          is_digest = ensure-eq-ok _ _ b.0;
          bytes = a.0;
          stored = read_artifact-eq-ok receipt.id stream (files (artifact_path digest)) a.0 b.1;
          hashes = (eq_iff _ _).0 (ensure-eq-ok _ _ a.2);
        },
    λ r. rw (r.is_digest, r.stored, (eq_iff _ _).1 r.hashes) refl,
  )

  -- A receipt has its artifacts exactly when the files of both digests are there.
  pub verify_signed_artifacts_iff :
      (files : Files) (receipt : ReceiptRecord)
      → (verify_signed_artifacts crypto files receipt ≡ ok tt)
        ↔ (HasArtifact files receipt.stdout_hash × HasArtifact files receipt.stderr_hash)
  unfolding verify_signed_artifacts for_each
  verify_signed_artifacts_iff files receipt = (
    λ h.
        let a = (>>-ok_iff _ _).0 h in
        let b = (>>-ok_iff _ _).0 a.1 in
        (
          (verify_stream_iff files receipt "stdout" receipt.stdout_hash).0 a.0,
          (verify_stream_iff files receipt "stderr" receipt.stderr_hash).0 b.0,
        ),
    λ h.
        rw
          (
            (verify_stream_iff files receipt "stdout" receipt.stdout_hash).1 h.0,
            (verify_stream_iff files receipt "stderr" receipt.stderr_hash).1 h.1,
          )
          refl,
  )

  bytes_eq_lem : (xs ys : List ℕ) → bytes_eq xs ys ≡ true → xs ≡ ys
  unfolding bytes_eq
  bytes_eq_lem [] [] h = refl
  bytes_eq_lem [] (y ∷ ys) h = absurd (cc)
  bytes_eq_lem (x ∷ xs) [] h = absurd (cc)
  bytes_eq_lem (x ∷ xs) (y ∷ ys) h =
      let p : x ≡ y = ground arith in
      let q : bytes_eq xs ys ≡ true = ground arith in λ i. p i ∷ bytes_eq_lem xs ys q i

  -- What an artifact stored at a path leaves: the path holds the bytes, and regular files stay.
  pub record IsPlaced (files after : Files) (rel : String) (bytes : List ℕ) : Type 0 where
    pub placed : after rel ≡ some (file bytes)
    pub kept : (p : String) (b : List ℕ) → files p ≡ some (file b) → after p ≡ some (file b)

  write-IsPlaced :
      (files : Files) (rel : String) (bytes : List ℕ)
      → files rel ≡ none
      → IsPlaced files (write files rel bytes) rel bytes
  write-IsPlaced files rel bytes e = record {
    placed = rw (eq_refl rel, e) refl;
    kept = λ p b h. elim (Bool-cases (p == rel)) [
      | inl same ↦ absurd (cc (h, e, (eq_iff p rel).0 same))
      | inr other ↦ rw other h
    ];
  }

  -- A dangling link is written through, so it is excluded.
  place_artifact-IsPlaced :
      (files after : Files) (rel : String) (bytes : List ℕ) (entry : Option Entry)
      → entry ≢ some (symlink false)
      → files rel ≡ entry
      → place_artifact crypto files rel bytes entry ≡ ok after
      → IsPlaced files after rel bytes
  unfolding place_artifact
  place_artifact-IsPlaced files after rel bytes none n e h =
      subst (λ z. IsPlaced files z rel bytes) (of_ok h) (write-IsPlaced files rel bytes e)
  place_artifact-IsPlaced files after rel bytes (some (file existing)) n e h =
      let a = >>-eq-ok (ensure (bytes_eq existing bytes) (artifact_collision rel)) _ h in
      let same = bytes_eq_lem existing bytes (ensure-eq-ok _ _ a.0) in
      subst (λ z. IsPlaced files z rel bytes) (of_ok a.1)
        (record { placed = e ∙ ap (λ z. some (file z)) same; kept = λ p b k. k })
  place_artifact-IsPlaced files after rel bytes (some directory) n e h = absurd (cc)
  place_artifact-IsPlaced files after rel bytes (some (symlink true)) n e h = absurd (cc)
  place_artifact-IsPlaced files after rel bytes (some (symlink false)) n e h = absurd (n refl)

  store_artifact-IsPlaced :
      (files after : Files) (bytes : List ℕ) (hash rel : String)
      → files (artifact_path (crypto.blake3 bytes)) ≢ some (symlink false)
      → store_artifact crypto files bytes ≡ ok (hash, rel, after)
      → (crypto.blake3 bytes ≡ hash) × IsPlaced files after (artifact_path hash) bytes
  unfolding store_artifact
  store_artifact-IsPlaced files after bytes hash rel n h =
      let path = artifact_path (crypto.blake3 bytes) in
      let a = >>=-eq-ok (place_artifact crypto files path bytes (files path)) _ h in
      let same : crypto.blake3 bytes ≡ hash = ap (λ z. z.0) (of_ok a.2) in
      let left : a.0 ≡ after = ap (λ z. z.2) (of_ok a.2) in
      (
        same,
        subst (λ z. IsPlaced files z (artifact_path hash) bytes) left
            (subst (λ z. IsPlaced files a.0 (artifact_path z) bytes) same
              (place_artifact-IsPlaced files a.0 path bytes (files path) n refl a.1)),
      )

  -- The output of a command, stored as two artifacts one behind the other, is what a receipt with
  -- their hashes is verified against, whatever the other files are; no dangling link may stand at
  -- the two paths.
  pub verify-store_artifact :
      (laws : IsCrypto crypto) (files first second : Files) (stdout stderr : List ℕ)
      (stdout_hash stdout_rel stderr_hash stderr_rel : String) (receipt : ReceiptRecord)
      → files (artifact_path (crypto.blake3 stdout)) ≢ some (symlink false)
      → first (artifact_path (crypto.blake3 stderr)) ≢ some (symlink false)
      → store_artifact crypto files stdout ≡ ok (stdout_hash, stdout_rel, first)
      → store_artifact crypto first stderr ≡ ok (stderr_hash, stderr_rel, second)
      → verify_signed_artifacts crypto second
          (record (receipt) { stdout_hash = stdout_hash; stderr_hash = stderr_hash })
        ≡ ok tt
  verify-store_artifact laws files first second stdout stderr stdout_hash stdout_rel stderr_hash
        stderr_rel receipt m n h k =
      let a = store_artifact-IsPlaced files first stdout stdout_hash stdout_rel m h in
      let b = store_artifact-IsPlaced first second stderr stderr_hash stderr_rel n k in
      (verify_signed_artifacts_iff second _).1 (
        record {
          is_digest = rw (sym a.0) (hash_hex crypto laws stdout);
          bytes = stdout;
          stored = b.1.kept (artifact_path stdout_hash) stdout a.1.placed;
          hashes = a.0;
        },
        record {
          is_digest = rw (sym b.0) (hash_hex crypto laws stderr);
          bytes = stderr;
          stored = b.1.placed;
          hashes = b.0;
        },
      )

-- ===== src/Receipts/Artifacts.antt =====
-- compiler/receipts.rs: `store_artifact` and `verify_signed_artifacts`, on the files of a run.
use agent_receipts.Prelude.{
  ℕ, String, List, [], ◌∷◌, Bool, true, false, ◌&&◌, Option, none, some, ◌==◌, nat_eq,
  if◌then◌else◌, format, Result, ok, err, ◌>>=◌, ◌>>◌, ensure, for_each,
}
use agent_receipts.Schema.{ReceiptRecord}
use agent_receipts.Envelope.Hex.{lower_hex}
use agent_receipts.Envelope.Keys.{Crypto}
use agent_receipts.Receipts.Types.{
  JournalError, invalid_digest, missing_artifact, irregular_artifact, artifact_mismatch,
  artifact_collision,
}

-- What stands at a path. A symbolic link leads somewhere, or dangles.
pub data Entry : Type 0 where
  file : List ℕ → Entry
  directory : Entry
  symlink : Bool → Entry

-- The files of a run, by their relative path.
abbrev pub Files : Type 0
Files = String → Option Entry

abbrev pub artifact_path : String → String
artifact_path digest = format ("receipts/artifacts/" ∷ digest ∷ ".txt" ∷ [])

-- `==` on two `Vec<u8>`.
unfoldable pub bytes_eq : List ℕ → List ℕ → Bool
bytes_eq [] [] = true
bytes_eq [] (y ∷ ys) = false
bytes_eq (x ∷ xs) [] = false
bytes_eq (x ∷ xs) (y ∷ ys) = nat_eq x y && bytes_eq xs ys

-- `fs::write(path, bytes)` at a path where nothing is, or a dangling link, which it follows.
abbrev pub write_through : Option Entry → List ℕ → Entry
write_through (some (symlink _)) bytes = symlink true
write_through _ bytes = file bytes

abbrev pub write : Files → String → List ℕ → Files
write files path bytes p = if p == path then some (write_through (files path) bytes) else files p

module _ (crypto : Crypto) where
  -- At an existing path: a regular file with the same bytes. `path.exists()` follows links.
  unfoldable pub place_artifact : Files → String → List ℕ → Option Entry → Result JournalError Files
  place_artifact files rel bytes none = ok (write files rel bytes)
  place_artifact files rel bytes (some (file existing)) =
      ensure (bytes_eq existing bytes) (artifact_collision rel) >> ok files
  place_artifact files rel bytes (some directory) = err (artifact_collision rel)
  place_artifact files rel bytes (some (symlink true)) = err (artifact_collision rel)
  place_artifact files rel bytes (some (symlink false)) = ok (write files rel bytes)

  -- The hash, the relative path, and the files afterwards.
  unfoldable pub store_artifact : Files → List ℕ → Result JournalError (String × String × Files)
  unfolding place_artifact
  store_artifact files bytes =
      let hash = crypto.blake3 bytes in
      let rel = artifact_path hash in
      place_artifact files rel bytes (files rel) >>= λ stored. ok (hash, rel, stored)

  -- `symlink_metadata`, then `fs::read` of a regular file.
  unfoldable pub read_artifact : String → String → Option Entry → Result JournalError (List ℕ)
  read_artifact id stream none = err (missing_artifact id stream)
  read_artifact id stream (some (file bytes)) = ok bytes
  read_artifact id stream (some directory) = err (irregular_artifact id stream)
  read_artifact id stream (some (symlink _)) = err (irregular_artifact id stream)

  unfoldable pub verify_stream :
      Files → ReceiptRecord → String × String → Result JournalError (Unit {0})
  unfolding read_artifact
  verify_stream files receipt pair =
      ensure (lower_hex pair.1 64) (invalid_digest receipt.id pair.0)
      >> read_artifact receipt.id pair.0 (files (artifact_path pair.1))
      >>= λ bytes. ensure (crypto.blake3 bytes == pair.1) (artifact_mismatch receipt.id pair.0)

  unfoldable pub verify_signed_artifacts : Files → ReceiptRecord → Result JournalError (Unit {0})
  verify_signed_artifacts files receipt =
      for_each (verify_stream files receipt)
        (("stdout", receipt.stdout_hash) ∷ ("stderr", receipt.stderr_hash) ∷ [])

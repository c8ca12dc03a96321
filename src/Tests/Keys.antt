-- ===== src/Tests/Keys.antt =====
-- A toy signature scheme and hash that keep the promises of the real ones, a key, and a build.
use agent_receipts.Prelude.{
  ℕ, zero, suc, ◌+◌, ◌%◌, ◌≡◌, refl, List, [], ◌∷◌, Bool, true, false, some, nat_eq, length, All,
  arith,
}
use agent_receipts.Journal.Hash.{as_bytes}
use agent_receipts.Envelope.Types.{ExecutorKey, ExecutorKeyFile}
use agent_receipts.Envelope.Hex.{hex_encode, lower_hex, IsByte}
use agent_receipts.Envelope.Keys.{Crypto, IsCrypto, IsBytes, new_key_file}
use agent_receipts.Envelope.Detached.{IsKey, load_key_iff, load_key-new_key_file}
use agent_receipts.Envelope.Receipt.{Build}
use agent_receipts.Envelope.Signing.{IsSignable}

unfoldable pub zeros : ℕ → List ℕ
zeros zero = []
zeros (suc n) = 0 ∷ zeros n

sum_of : List ℕ → ℕ
sum_of [] = 7
sum_of (x ∷ xs) = x + sum_of xs

unfoldable pub checksum : List ℕ → ℕ
unfolding sum_of
checksum bytes = sum_of bytes % 256

-- The checksum, and zeros behind it.
unfoldable pub padded : ℕ → List ℕ → List ℕ
unfolding checksum zeros
padded n bytes = checksum bytes ∷ zeros n

unfoldable pub first_is : ℕ → List ℕ → Bool
first_is n [] = false
first_is n (x ∷ xs) = nat_eq x n

unfoldable pub toy : Crypto
unfolding padded first_is
toy = record {
  verifying_key = padded 31;
  sign = λ secret message. padded 63 message;
  is_key = λ key. true;
  verify = λ key message signature. first_is (checksum message) signature;
  blake3 = λ bytes. hex_encode (padded 31 bytes);
}

zeros_are_bytes : (n : ℕ) → All IsByte (zeros n)
unfolding zeros
zeros_are_bytes zero = tt
zeros_are_bytes (suc n) = (omega arith, zeros_are_bytes n)

length-zeros : (n : ℕ) → length (zeros n) ≡ n
unfolding zeros
length-zeros zero = refl
length-zeros (suc n) = omega (arith, length-zeros n)

padded-IsBytes : (n : ℕ) (bytes : List ℕ) → IsBytes (suc n) (padded n bytes)
unfolding padded checksum
padded-IsBytes n bytes = record {
  has_length = omega (arith, length-zeros n);
  are_bytes = (omega arith, zeros_are_bytes n);
}

first_lem : (bytes : List ℕ) (n : ℕ) → first_is (checksum bytes) (padded n bytes) ≡ true
unfolding padded first_is
first_lem bytes n = ground arith

pub toy-IsCrypto : IsCrypto toy
unfolding toy
toy-IsCrypto = record {
  key_bytes = padded-IsBytes 31;
  key_is_key = λ secret. refl;
  signature_bytes = λ secret message. padded-IsBytes 63 message;
  verifies = λ secret message. first_lem message 63;
  hash_bytes = λ message. (padded 31 message, padded-IsBytes 31 message, refl);
}

abbrev pub secret : List ℕ
secret = padded 31 (3 ∷ 200 ∷ [])

pub secret-IsBytes : IsBytes 32 secret
secret-IsBytes = padded-IsBytes 31 (3 ∷ 200 ∷ [])

abbrev pub secret_file : ExecutorKeyFile
secret_file = new_key_file toy secret

abbrev pub key : ExecutorKey
key = record { signing = secret; file = secret_file }

pub key-IsKey : IsKey toy key
key-IsKey =
    ((load_key_iff toy secret_file key).0 (load_key-new_key_file toy secret secret-IsBytes)).1

abbrev pub build : Build
build = record {
  build_commit = "0123456789abcdef0123456789abcdef01234567";
  dependency_lock_digest = "00112233445566778899aabbccddeeff00112233445566778899aabbccddeeff";
  cargo_pkg_version = "0.1.0";
  executable = some (as_bytes "ELF");
  os = "linux";
  arch = "x86_64";
}

pub build-IsSignable : IsSignable build "run-1"
unfolding as_bytes lower_hex
build-IsSignable = record {
  commit_lower = refl;
  lock_lower = refl;
  run_id_within = (omega arith, omega arith);
  version_within = (omega arith, omega arith);
  os_within = (omega arith, omega arith);
  arch_within = (omega arith, omega arith);
}

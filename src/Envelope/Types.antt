-- ===== src/Envelope/Types.antt =====
-- compiler/crypto.rs: the identities, envelopes and heads, and the errors.
use agent_receipts.Prelude.{ℕ, String, List, ◌==◌, Bool, ◌&&◌}
use agent_receipts.Schema.{ReceiptRecord}

pub record ExecutorKeyFile : Type 0 where
  pub format_version : String
  pub secret_key : String
  pub public_key : String
  pub key_fingerprint : String

pub record DigestRef : Type 0 where
  pub hash_alg : String
  pub digest : String

pub record ExecutorIdentity : Type 0 where
  pub principal_id : String
  pub public_key : String
  pub key_fingerprint : String

pub record SignedEngineIdentity : Type 0 where
  pub protocol_version : String
  pub engine_version : String
  pub build_commit : String
  pub binary_digest : DigestRef
  pub dependency_lock_digest : DigestRef
  pub os : String
  pub arch : String

pub record SignedReceiptEnvelope : Type 0 where
  pub format_version : String
  pub record_kind : String
  pub run_id : String
  pub sequence : ℕ
  pub previous : DigestRef
  pub payload : ReceiptRecord
  pub executor : ExecutorIdentity
  pub engine : SignedEngineIdentity
  pub hash_alg : String
  pub signature_alg : String
  pub record_hash : String
  pub signature : String

pub record SignedReceiptHead : Type 0 where
  pub format_version : String
  pub record_kind : String
  pub run_id : String
  pub sequence : ℕ
  pub last : DigestRef
  pub executor : ExecutorIdentity
  pub signature_alg : String
  pub signature : String

-- A key in use: the secret bytes of `SigningKey`, and the file that it was read from.
pub record ExecutorKey : Type 0 where
  pub signing : List ℕ
  pub file : ExecutorKeyFile

-- Why a key, an envelope, a head or a detached signature is refused.
pub data EnvelopeError : Type 0 where
  invalid_hex unsupported_key_format short_secret_key key_mismatch unreadable_key : EnvelopeError
  short_public_key not_a_key fingerprint_mismatch short_signature bad_signature : EnvelopeError
  unresolved_build payload_has_hash short_hash unprintable unreadable_binary : EnvelopeError
  incoherent_metadata key_changed head_without_record missing_head invalid_head : EnvelopeError
  head_mismatch : EnvelopeError
  hash_mismatch : String → String → EnvelopeError

-- `==` on the derived `PartialEq`.
abbrev pub digest_ref_eq : DigestRef → DigestRef → Bool
digest_ref_eq a b = a.hash_alg == b.hash_alg && a.digest == b.digest

abbrev pub executor_eq : ExecutorIdentity → ExecutorIdentity → Bool
executor_eq a b =
    a.principal_id == b.principal_id
    && a.public_key == b.public_key
    && a.key_fingerprint == b.key_fingerprint

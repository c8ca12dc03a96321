-- ===== src/Envelope/Keys.antt =====
-- compiler/crypto.rs: the executor's key file, the identities, and detached signatures.
use agent_receipts.Prelude.{
  ℕ, ◌≡◌, String, List, [], ◌∷◌, ◌++◌, Bool, true, false, ◌&&◌, Option, none, some, ◌==◌, nat_eq,
  length, format, All, Result, ok, err, ◌>>=◌, ◌>>◌, ensure, ok_or,
}
use agent_receipts.Envelope.Types.{
  ExecutorKeyFile, ExecutorIdentity, ExecutorKey, EnvelopeError, unsupported_key_format,
  short_secret_key, key_mismatch, unreadable_key, short_public_key, not_a_key, fingerprint_mismatch,
  short_signature, bad_signature, unprintable,
}
use agent_receipts.Envelope.Hex.{hex_encode, hex_decode, IsByte}

-- Ed25519 and BLAKE3. A key or a signature is the list of its bytes, and a hash is its hexadecimal
-- digits.
pub record Crypto : Type 0 where
  pub verifying_key : List ℕ → List ℕ
  pub sign : List ℕ → List ℕ → List ℕ
  pub is_key : List ℕ → Bool
  pub verify : List ℕ → List ℕ → List ℕ → Bool
  pub blake3 : List ℕ → String

-- A list of so many bytes.
pub record IsBytes (n : ℕ) (bytes : List ℕ) : Type 0 where
  pub has_length : length bytes ≡ n
  pub are_bytes : All IsByte bytes

-- What the two promise: their outputs' lengths, and that a key verifies what it signed.
pub record IsCrypto (crypto : Crypto) : Type 0 where
  pub key_bytes : (secret : List ℕ) → IsBytes 32 (crypto.verifying_key secret)
  pub key_is_key : (secret : List ℕ) → crypto.is_key (crypto.verifying_key secret) ≡ true
  pub signature_bytes : (secret message : List ℕ) → IsBytes 64 (crypto.sign secret message)
  pub verifies :
      (secret message : List ℕ)
      → crypto.verify (crypto.verifying_key secret) message (crypto.sign secret message) ≡ true
  -- A hash is 32 bytes, printed.
  pub hash_bytes :
      (message : List ℕ)
      → (digest : List ℕ) × IsBytes 32 digest × (crypto.blake3 message ≡ hex_encode digest)

-- `hex_decode(text)?.try_into()` into an array of `n` bytes.
abbrev pub decode_array : ℕ → EnvelopeError → String → Result EnvelopeError (List ℕ)
decode_array n e text = hex_decode text >>= λ bytes. ensure (nat_eq (length bytes) n) e >> ok bytes

abbrev pub principal_of : String → String
principal_of fingerprint = format ("ed25519:" ∷ fingerprint ∷ [])

-- `ExecutorIdentity { .. }` of a key file.
abbrev pub identity_of : ExecutorKeyFile → ExecutorIdentity
identity_of key = record {
  principal_id = principal_of key.key_fingerprint;
  public_key = key.public_key;
  key_fingerprint = key.key_fingerprint;
}

-- The domain, a zero byte, and the message.
abbrev pub detached_message : List ℕ → List ℕ → List ℕ
detached_message domain message = domain ++ 0 ∷ message

module _ (crypto : Crypto) where
  abbrev pub public_key_fingerprint : List ℕ → String
  public_key_fingerprint bytes = crypto.blake3 bytes

  -- `load_key`, on the parsed file.
  unfoldable pub load_key : ExecutorKeyFile → Result EnvelopeError ExecutorKey
  load_key file =
      ensure (file.format_version == "1") unsupported_key_format
      >> decode_array 32 short_secret_key file.secret_key
      >>= λ secret.
          ensure
            (file.public_key == hex_encode (crypto.verifying_key secret)
              && file.key_fingerprint == public_key_fingerprint (crypto.verifying_key secret))
            key_mismatch
          >> ok (record { signing = secret; file = file })

  -- The file for a generated secret.
  abbrev pub new_key_file : List ℕ → ExecutorKeyFile
  new_key_file secret = record {
    format_version = "1";
    secret_key = hex_encode secret;
    public_key = hex_encode (crypto.verifying_key secret);
    key_fingerprint = public_key_fingerprint (crypto.verifying_key secret);
  }

  -- `of_json` parses a key file. The path holds the text `disk`, if any. `create` is what
  -- `create_private_file` does with a text: whether it succeeds, and what the path holds then.
  module _ (to_json : ExecutorKeyFile → Option String) (of_json : String → Option ExecutorKeyFile)
      (create : String → Bool × Option String) where
    abbrev pub load_text : String → Result EnvelopeError ExecutorKey
    load_text text = ok_or (of_json text) unreadable_key >>= λ file. load_key file

    load_created : EnvelopeError → Bool → Option String → Result EnvelopeError ExecutorKey
    load_created e true (some text) = load_text text
    load_created e true none = err unreadable_key
    load_created e false (some text) = elim (load_text text) [ err _ ↦ err e | ok key ↦ ok key ]
    load_created e false none = err e

    unfoldable pub load_or_create_key : Option String → List ℕ → Result EnvelopeError ExecutorKey
    unfolding load_created
    load_or_create_key (some text) generated = load_text text
    load_or_create_key none generated =
        ok_or (to_json (new_key_file generated)) unprintable >>= λ text.
        load_created unreadable_key (create text).0 (create text).1

  unfoldable pub sign_detached :
      Result EnvelopeError ExecutorKey
      → List ℕ
      → List ℕ
      → Result EnvelopeError (ExecutorIdentity × String)
  sign_detached loaded domain message = loaded >>= λ key.
      ok (
        identity_of key.file,
        hex_encode (crypto.sign key.signing (detached_message domain message)),
      )

  unfoldable pub verify_detached :
      List ℕ → List ℕ → ExecutorIdentity → String → Result EnvelopeError (Unit {0})
  verify_detached domain message executor signature =
      decode_array 32 short_public_key executor.public_key >>= λ public_bytes.
      ensure
        (executor.key_fingerprint == public_key_fingerprint public_bytes
          && executor.principal_id == principal_of (public_key_fingerprint public_bytes))
        fingerprint_mismatch
      >> decode_array 64 short_signature signature
      >>= λ signature_bytes.
          ensure (crypto.is_key public_bytes) not_a_key
          >> ensure (crypto.verify public_bytes (detached_message domain message) signature_bytes)
              bad_signature

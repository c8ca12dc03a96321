-- ===== src/Envelope/Detached.antt =====
-- compiler/crypto.rs: what a key file that loads says, and detached signatures that verify.
use agent_receipts.Prelude.{
  ℕ, ◌≡◌, refl, sym, ap, subst, ◌↔◌, String, List, Bool, true, Option, none, some, ◌==◌, nat_eq,
  length, eq_refl, eq_iff, and_iff, arith, ok, ◌>>◌, ensure, >>=-eq-ok, >>-eq-ok, ensure-eq-ok,
}
use agent_receipts.Envelope.Types.{
  ExecutorKeyFile, ExecutorIdentity, ExecutorKey, EnvelopeError, short_secret_key, short_public_key,
  short_signature,
}
use agent_receipts.Envelope.Hex.{hex_encode, hex_decode-hex_encode}
use agent_receipts.Envelope.Keys.{
  Crypto, IsBytes, IsCrypto, decode_array, identity_of, detached_message, public_key_fingerprint,
  load_key, new_key_file, load_or_create_key, sign_detached, verify_detached,
}

-- An array of bytes comes back from its text.
pub decode_array-hex_encode :
    (n : ℕ) (e : EnvelopeError) (bytes : List ℕ)
    → IsBytes n bytes
    → decode_array n e (hex_encode bytes) ≡ ok bytes
decode_array-hex_encode n e bytes h =
    rw (hex_decode-hex_encode bytes h.are_bytes, same n h.has_length) refl
  where
    same : (k : ℕ) → length bytes ≡ k → nat_eq (length bytes) k ≡ true
    same k q = ground arith

-- A key whose file is that of its secret.
pub record IsKey (crypto : Crypto) (key : ExecutorKey) : Type 0 where
  pub supported : key.file.format_version ≡ "1"
  pub secret_is : decode_array 32 short_secret_key key.file.secret_key ≡ ok key.signing
  pub public_is : key.file.public_key ≡ hex_encode (crypto.verifying_key key.signing)
  pub fingerprint_is :
      key.file.key_fingerprint ≡ public_key_fingerprint crypto (crypto.verifying_key key.signing)

module _ (crypto : Crypto) where
  -- A file loads exactly as the key of its secret, when its public identity is that key's.
  pub load_key_iff :
      (file : ExecutorKeyFile) (key : ExecutorKey)
      → (load_key crypto file ≡ ok key) ↔ ((key.file ≡ file) × IsKey crypto key)
  unfolding load_key
  load_key_iff file key = (
    λ h.
        let p =
          >>=-eq-ok
            (ensure (file.format_version == "1") _
              >> decode_array 32 short_secret_key file.secret_key)
            _ h in
        let q = >>-eq-ok _ _ p.1 in
        let r = >>-eq-ok _ _ p.2 in
        let tests =
          (and_iff (file.public_key == hex_encode (crypto.verifying_key p.0))
              (file.key_fingerprint == public_key_fingerprint crypto (crypto.verifying_key p.0))).0
            (ensure-eq-ok _ _ r.0) in
        loaded_lem p.0 (cc (r.1)) (record {
          supported = (eq_iff _ _).0 (ensure-eq-ok _ _ q.0);
          secret_is = q.1;
          public_is = (eq_iff _ _).0 tests.0;
          fingerprint_is = (eq_iff _ _).0 tests.1;
        }),
    λ r.
        rw
          (
            sym r.0,
            r.1.supported,
            r.1.secret_is,
            r.1.public_is,
            r.1.fingerprint_is,
            eq_refl,
            eq_refl,
          )
          refl,
  )
    where
      loaded_lem :
          (secret : List ℕ)
          → record { signing = secret; file = file } ≡ key
          → IsKey crypto (record { signing = secret; file = file })
          → (key.file ≡ file) × IsKey crypto key
      loaded_lem secret e k = (sym (ap (λ z. z.file) e), subst (IsKey crypto) e k)

  -- A new key's file loads as that key.
  pub load_key-new_key_file :
      (secret : List ℕ)
      → IsBytes 32 secret
      → load_key crypto (new_key_file crypto secret)
        ≡ ok (record { signing = secret; file = new_key_file crypto secret })
  load_key-new_key_file secret h = (load_key_iff (new_key_file crypto secret) _).1 (
    refl,
    record {
      supported = refl;
      secret_is = decode_array-hex_encode 32 short_secret_key secret h;
      public_is = refl;
      fingerprint_is = refl;
    },
  )

  module _ (laws : IsCrypto crypto) where
    -- A key that loads makes detached signatures that verify under the identity they come with, for
    -- the same domain and message. Ed25519 and BLAKE3 keep their promises.
    pub verify_detached-sign_detached :
        (key : ExecutorKey) (domain message : List ℕ)
        → IsKey crypto key
        → (executor : ExecutorIdentity) × (signature : String) × (sign_detached crypto
              (ok key)
              domain
              message
            ≡ ok (executor, signature))
          × (verify_detached crypto domain message executor signature ≡ ok tt)
    unfolding sign_detached verify_detached
    verify_detached-sign_detached key domain message k = (
      identity_of key.file,
      hex_encode (crypto.sign key.signing (detached_message domain message)),
      refl,
      rw
          (
            k.public_is,
            k.fingerprint_is,
            decode_array-hex_encode 32 short_public_key _ (laws.key_bytes key.signing),
            eq_refl,
            eq_refl,
            decode_array-hex_encode 64 short_signature _
                (laws.signature_bytes key.signing (detached_message domain message)),
            laws.key_is_key key.signing,
            laws.verifies key.signing (detached_message domain message),
          )
          refl,
    )

  module _ (to_json : ExecutorKeyFile → Option String) (of_json : String → Option ExecutorKeyFile)
      (create : String → Bool × Option String) where
    -- Where no key file is, and the new one is written and parses, the generated key is returned, and
    -- every later call returns the same key, whatever it would have generated.
    pub load_or_create_key-again :
        (secret : List ℕ) (text : String) (generated : List ℕ)
        → IsBytes 32 secret
        → to_json (new_key_file crypto secret) ≡ some text
        → (stored : String) → create text ≡ (true, some stored)
        → of_json stored ≡ some (new_key_file crypto secret)
        → (load_or_create_key crypto to_json of_json create none secret
            ≡ ok (record { signing = secret; file = new_key_file crypto secret }))
          × (load_or_create_key crypto to_json of_json create (some stored) generated
              ≡ load_or_create_key crypto to_json of_json create none secret)
    unfolding load_or_create_key
    load_or_create_key-again secret text generated h p stored c q =
        (rw (p, c, q) (load_key-new_key_file secret h), rw (p, c) refl)

-- ===== src/Envelope/Hex.antt =====
-- compiler/crypto.rs: `hex_encode`, `hex_decode` and `lower_hex`. Bytes are numbers below 256.
use Prim.Native.String.{◌++◌ as append}
use mathlib.Core.List.{Memᴰ}
use agent_receipts.Prelude.{
  ℕ, zero, suc, ◌+◌, ◌-◌, ◌*◌, ◌/◌, ◌%◌, ◌<◌, ◌≡◌, refl, ap, String, List, [], ◌∷◌, Bool, true, not,
  ◌&&◌, ◌||◌, Option, none, some, if◌then◌else◌, leb, nat_eq, length, all, All, All_of_mem, arith,
  Result, ok, err, ◌>>=◌, ok_or, Bool-cases, inl, inr,
}
use agent_receipts.Journal.Hash.{as_bytes, as_bytes-append, hex_digit}
use agent_receipts.Envelope.Types.{EnvelopeError, invalid_hex}

-- `format!("{byte:02x}")`
abbrev pub hex_of_byte : ℕ → String
hex_of_byte byte = append (hex_digit (byte / 16)) (hex_digit (byte % 16))

unfoldable pub hex_encode : List ℕ → String
hex_encode [] = ""
hex_encode (byte ∷ bytes) = append (hex_of_byte byte) (hex_encode bytes)

-- `byte.is_ascii_hexdigit() && !byte.is_ascii_uppercase()`
abbrev pub is_lower_hex : ℕ → Bool
is_lower_hex byte = (leb 48 byte && leb byte 57) || (leb 97 byte && leb byte 102)

-- `value.len()` counts bytes.
unfoldable pub lower_hex : String → ℕ → Bool
lower_hex value len = nat_eq (length (as_bytes value)) len && all is_lower_hex (as_bytes value)

-- One digit, as `u8::from_str_radix` reads it: the test above leaves it these two ranges.
abbrev pub digit_value : ℕ → Option ℕ
digit_value byte =
    if leb 48 byte && leb byte 57
    then some (byte - 48)
    else if leb 97 byte && leb byte 102
    then some (byte - 87)
    else none

-- `u8::from_str_radix(&value[index..index + 2], 16)?` at each second index.
unfoldable pub decode_pairs : List ℕ → Result EnvelopeError (List ℕ)
decode_pairs [] = ok []
decode_pairs (high ∷ []) = err invalid_hex
decode_pairs (high ∷ low ∷ rest) =
    let decoded = decode_pairs rest in
    ok_or (digit_value high) invalid_hex >>= λ h.
    ok_or (digit_value low) invalid_hex >>= λ l. decoded >>= λ bytes. ok ((h * 16 + l) ∷ bytes)

unfoldable pub hex_decode : String → Result EnvelopeError (List ℕ)
unfolding decode_pairs
hex_decode value =
    if not (nat_eq (length (as_bytes value) % 2) 0) || not (all is_lower_hex (as_bytes value))
    then err invalid_hex
    else decode_pairs (as_bytes value)

-- The numbers below a bound, to check a claim about them one by one.
below : ℕ → List ℕ
below zero = []
below (suc n) = n ∷ below n

mem_below : (n k : ℕ) → n < k → Memᴰ n (below k)
unfolding below
mem_below n zero h = absurd (omega arith)
mem_below n (suc k) h = elim (Bool-cases (nat_eq n k)) [
  | inl e ↦ Memᴰ.head (ground arith)
  | inr e ↦ Memᴰ.tail (mem_below n k (ground arith))
]

-- A digit is one byte, a lower-case one, and reads back as its value.
IsReadable : ℕ → Type 0
IsReadable n =
    (d : ℕ) × (as_bytes (hex_digit n) ≡ d ∷ []) × (is_lower_hex d ≡ true) × (digit_value d ≡ some n)

digits_are : All IsReadable (below 16)
unfolding IsReadable below as_bytes hex_digit
digits_are = (
  (_, refl, refl, refl),
  (
    (_, refl, refl, refl),
    (
      (_, refl, refl, refl),
      (
        (_, refl, refl, refl),
        (
          (_, refl, refl, refl),
          (
            (_, refl, refl, refl),
            (
              (_, refl, refl, refl),
              (
                (_, refl, refl, refl),
                (
                  (_, refl, refl, refl),
                  (
                    (_, refl, refl, refl),
                    (
                      (_, refl, refl, refl),
                      (
                        (_, refl, refl, refl),
                        (
                          (_, refl, refl, refl),
                          (
                            (_, refl, refl, refl),
                            ((_, refl, refl, refl), ((_, refl, refl, refl), tt)),
                          ),
                        ),
                      ),
                    ),
                  ),
                ),
              ),
            ),
          ),
        ),
      ),
    ),
  ),
)

hex_digit-IsReadable : (n : ℕ) → n < 16 → IsReadable n
hex_digit-IsReadable n h = All_of_mem IsReadable digits_are (mem_below n 16 h)

abbrev pub IsByte : ℕ → Type 0
IsByte n = n < 256

-- What `hex_encode` writes.
record IsEncoded (bytes : List ℕ) (text : String) : Type 0 where
  two_digits : length (as_bytes text) ≡ length bytes * 2
  is_lower : all is_lower_hex (as_bytes text) ≡ true
  reads_back : decode_pairs (as_bytes text) ≡ ok bytes

value_lem : (byte : ℕ) → byte / 16 * 16 + byte % 16 ≡ byte
value_lem byte = omega arith

hex_encode-IsEncoded : (bytes : List ℕ) → All IsByte bytes → IsEncoded bytes (hex_encode bytes)
unfolding hex_encode decode_pairs as_bytes IsReadable
hex_encode-IsEncoded [] h = record { two_digits = refl; is_lower = refl; reads_back = refl }
hex_encode-IsEncoded (byte ∷ bytes) h =
    let high = hex_digit-IsReadable (byte / 16) (omega (arith, h.0)) in
    let low = hex_digit-IsReadable (byte % 16) (omega arith) in
    let rest = hex_encode-IsEncoded bytes h.1 in
    let written : as_bytes (hex_encode (byte ∷ bytes))
        ≡ high.0 ∷ low.0 ∷ as_bytes (hex_encode bytes) =
      rw (as_bytes-append, as_bytes-append, high.1, low.1) refl in
    record {
      two_digits = rw (written, rest.two_digits) (omega arith);
      is_lower = rw (written, high.2, low.2) rest.is_lower;
      reads_back =
          rw (written, high.3, low.3, rest.reads_back) (ap (λ b. ok (b ∷ bytes)) (value_lem byte));
    }

even_lem : (n : ℕ) → nat_eq (n * 2 % 2) 0 ≡ true
even_lem n = ground arith

-- Any bytes, printed as hexadecimal digits, decode to the same bytes.
pub hex_decode-hex_encode :
    (bytes : List ℕ) → All IsByte bytes → hex_decode (hex_encode bytes) ≡ ok bytes
unfolding hex_decode
hex_decode-hex_encode bytes h =
    let e = hex_encode-IsEncoded bytes h in
    rw (e.two_digits, e.is_lower, even_lem (length bytes)) e.reads_back

-- The text of `n` bytes is `2 n` lower-case digits.
pub lower_hex-hex_encode :
    (bytes : List ℕ) → All IsByte bytes → lower_hex (hex_encode bytes) (length bytes * 2) ≡ true
unfolding lower_hex
lower_hex-hex_encode bytes h =
    let e = hex_encode-IsEncoded bytes h in rw (e.two_digits, e.is_lower) (ground arith)

-- ===== src/Journal/Hash.antt =====
-- compiler/receipts.rs, `fnv1a_hash`, over the UTF-8 bytes of a text.
use Prim.Native.Nat.{bit_xor}
use Prim.Native.Char.{code}
use Prim.Native.String.{◌++◌ as append}
use text.Mathlib.TextLemmas.{nil-append, cons-append}
use mathlib.Core.List.{append_assoc}
use agent_receipts.Prelude.{
  sym, ℕ, zero, suc, ◌+◌, ◌*◌, ◌/◌, ◌%◌, ◌^◌, ◌≡◌, refl, String, List, [], ◌∷◌, ◌++◌, decimal, ltb,
  nat_eq, if◌then◌else◌,
}

abbrev pub genesis : String
genesis = "GENESIS"

utf8 : ℕ → List ℕ
utf8 c =
    if ltb c 0x80
    then c ∷ []
    else if ltb c 0x800
    then (0xc0 + c / 64) ∷ (0x80 + c % 64) ∷ []
    else if ltb c 0x10000
    then (0xe0 + c / 4096) ∷ (0x80 + c / 64 % 64) ∷ (0x80 + c % 64) ∷ []
    else (0xf0 + c / 262144) ∷ (0x80 + c / 4096 % 64) ∷ (0x80 + c / 64 % 64) ∷ (0x80 + c % 64) ∷ []

-- `text.as_bytes()`
unfoldable pub as_bytes : String → List ℕ
unfolding utf8
as_bytes String.[] = []
as_bytes (String.◌∷◌ c s) = utf8 (code c) ++ as_bytes s

pub as_bytes-append : (s t : String) → as_bytes (append s t) ≡ as_bytes s ++ as_bytes t
unfolding as_bytes
as_bytes-append String.[] t = rw nil-append
as_bytes-append (String.◌∷◌ c s) t =
    rw cons-append (rw (as_bytes-append s t) (sym (append_assoc (utf8 (code c)) _ _)))

-- The loop: `hash ^= byte`, then a wrapping multiplication.
fnv1a_from : ℕ → List ℕ → ℕ
fnv1a_from hash [] = hash
fnv1a_from hash (byte ∷ bytes) = fnv1a_from (bit_xor hash byte * 0x100000001b3 % 2 ^ 64) bytes

unfoldable pub hex_digit : ℕ → String
unfolding decimal
hex_digit n =
    if ltb n 10
    then decimal n
    else if nat_eq n 10
    then "a"
    else if nat_eq n 11
    then "b"
    else if nat_eq n 12
    then "c"
    else if nat_eq n 13
    then "d"
    else if nat_eq n 14
    then "e"
    else "f"

-- The last digits of a number, so many.
hex_digits : ℕ → ℕ → String
hex_digits zero n = ""
hex_digits (suc k) n = append (hex_digits k (n / 16)) (hex_digit (n % 16))

unfoldable pub fnv1a_hash : List ℕ → String
unfolding fnv1a_from hex_digits hex_digit
fnv1a_hash bytes = hex_digits 16 (fnv1a_from 0xcbf29ce484222325 bytes)

fnv1a_hash_tests :
    (fnv1a_hash (as_bytes "") ≡ "cbf29ce484222325")
    × (fnv1a_hash (as_bytes "a") ≡ "af63dc4c8601ec8c")
    × (fnv1a_hash (as_bytes "foobar") ≡ "85944171f73967e8")
unfolding fnv1a_hash as_bytes
fnv1a_hash_tests = (refl, refl, refl)

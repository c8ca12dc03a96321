-- ===== src/Prelude/Text.antt =====
-- Texts: `format!`, decimal numbers, and the membership test of a `HashSet` or `BTreeSet` of texts.
use Prim.Native.Nat.{ℕ, zero, suc, ◌+◌, ◌-◌, ◌*◌, ◌^◌, ◌/◌, ◌%◌}
use Prim.Native.String.{String, compare, ◌++◌ as append}
use Prim.Native.Char.{code}
use mathlib.Core.Option.{Option, none, some}
use native.Mathlib.Omega.{arith}
use mathlib.Core.Path.{◌≡◌, refl, sym}
use mathlib.Core.Logic.{◌↔◌, inl, inr}
use mathlib.Core.Bool.{Bool, true, false, ◌&&◌, ◌||◌}
use mathlib.Core.List.{List, [], ◌∷◌, Memᴰ}
use mathlib.Core.List.Memᴰ
use text.Mathlib.Text.{◌==◌, is_le}
use text.Mathlib.TextLemmas.{nil-append, cons-append}
use text.Mathlib.TextEquality.{eq_iff}
use text.Mathlib.TextPositions.{eq_refl}
use agent_receipts.Prelude.Tests.{if◌then◌else◌, nat_eq, leb, ltb, Bool-cases}
use agent_receipts.Prelude.Lists.{any, mem_of_any, any_of_mem}

-- `format!` of texts alone: the pieces, joined.
abbrev pub format : List String → String
format [] = ""
format (s ∷ []) = s
format (s ∷ t ∷ ss) = append s (format (t ∷ ss))

-- `parts.join(sep)`
abbrev pub join : String → List String → String
join sep [] = ""
join sep (s ∷ []) = s
join sep (s ∷ t ∷ ss) = append s (append sep (join sep (t ∷ ss)))

-- `text.strip_prefix(prefix)`
unfoldable pub strip_prefix : String → String → Option String
strip_prefix String.[] s = some s
strip_prefix (String.◌∷◌ c p) String.[] = none
strip_prefix (String.◌∷◌ c p) (String.◌∷◌ d s) =
    let rest = strip_prefix p s in if nat_eq (code c) (code d) then rest else none

pub strip_prefix-append : (p s : String) → strip_prefix p (append p s) ≡ some s
unfolding strip_prefix
strip_prefix-append String.[] s = rw nil-append
strip_prefix-append (String.◌∷◌ c p) s = rw cons-append (ground (arith, strip_prefix-append p s))

digit : ℕ → String
digit n =
    if nat_eq n 0
    then "0"
    else if nat_eq n 1
    then "1"
    else if nat_eq n 2
    then "2"
    else if nat_eq n 3
    then "3"
    else if nat_eq n 4
    then "4"
    else if nat_eq n 5
    then "5"
    else if nat_eq n 6
    then "6"
    else if nat_eq n 7
    then "7"
    else if nat_eq n 8
    then "8"
    else "9"

-- `format!("{n}")`. A number has at most as many digits as its value, so the fuel is enough.
decimal_from : ℕ → ℕ → String
decimal_from zero n = digit n
decimal_from (suc f) n =
    let rest = append (decimal_from f (n / 10)) (digit (n % 10)) in
    if nat_eq (n / 10) 0 then digit n else rest

unfoldable pub decimal : ℕ → String
unfolding decimal_from digit
decimal n = decimal_from n n

-- `format!("{n:04}")`: at least four digits, with zeros in front.
unfoldable pub decimal4 : ℕ → String
unfolding decimal
decimal4 n =
    if nat_eq (n / 10) 0
    then append "000" (decimal n)
    else if nat_eq (n / 100) 0
    then append "00" (decimal n)
    else if nat_eq (n / 1000) 0
    then append "0" (decimal n)
    else decimal n

decimal4_12 : decimal4 12 ≡ "0012"
unfolding decimal4
decimal4_12 = refl

-- `set.contains(id)`. A set of texts is only asked for membership, so it is the list it was
-- collected from.
unfoldable pub contains : List String → String → Bool
contains xs a = any (λ x. x == a) xs

pub contains_iff : (xs : List String) (a : String) → (contains xs a ≡ true) ↔ Memᴰ a xs
unfolding contains
contains_iff xs a = (
  λ h. let r = mem_of_any (λ x. x == a) xs h in Memᴰ.cast (sym ((eq_iff r.0 a).0 r.2)) r.1,
  λ m. any_of_mem (λ x. x == a) m (eq_refl a),
)

pub String-discrete : Discrete String
String-discrete a b = elim (Bool-cases (a == b)) [
  | inl e ↦ yes ((eq_iff a b).0 e)
  | inr e ↦ no (λ q. differ e ((eq_iff a b).1 q))
]
  where
    differ : (a == b) ≡ false → (a == b) ≡ true → ⊥
    differ h k = cc

-- `opt.as_deref() == Some(text)`
abbrev pub is_some_eq : Option String → String → Bool
is_some_eq none t = false
is_some_eq (some s) t = s == t

-- `a <= b` on texts: by code points, which is the order of their UTF-8 bytes.
abbrev pub text_le : String → String → Bool
text_le a b = is_le (compare a b)

-- Unicode `White_Space`, which `char::is_whitespace` tests.
unfoldable pub is_whitespace : ℕ → Bool
is_whitespace c =
    (leb 9 c && leb c 13)
    || nat_eq c 32
    || nat_eq c 0x85
    || nat_eq c 0xa0
    || nat_eq c 0x1680
    || (leb 0x2000 c && leb c 0x200a)
    || nat_eq c 0x2028
    || nat_eq c 0x2029
    || nat_eq c 0x202f
    || nat_eq c 0x205f
    || nat_eq c 0x3000

-- `text.trim().is_empty()`
unfoldable pub is_blank : String → Bool
unfolding is_whitespace
is_blank String.[] = true
is_blank (String.◌∷◌ c s) = is_whitespace (code c) && is_blank s

digits_value : ℕ → String → Option ℕ
digits_value n String.[] = some n
digits_value n (String.◌∷◌ c s) =
    let rest = digits_value (n * 10 + (code c - 48)) s in
    if leb 48 (code c) && leb (code c) 57 then rest else none

-- `text.parse::<usize>().ok()` (and `u64`): an optional `+`, then one digit or more, below 2^64.
unfoldable pub parse_usize : String → Option ℕ
unfolding digits_value
parse_usize String.[] = none
parse_usize (String.◌∷◌ c s) =
    let unsigned : Option ℕ = elim s [
      | String.[] ↦ none
      | String.◌∷◌ d t ↦ digits_value 0 (String.◌∷◌ d t)
    ] in
    let value = if nat_eq (code c) b'+' then unsigned else digits_value 0 (String.◌∷◌ c s) in
    elim value [ none ↦ none | some n ↦ if ltb n (2 ^ 64) then some n else none ]

parse_usize_tests :
    (parse_usize "42" ≡ some 42)
    × (parse_usize "+7" ≡ some 7)
    × (parse_usize "" ≡ none)
    × (parse_usize "4x" ≡ none)
    × (parse_usize "18446744073709551616" ≡ none)
unfolding parse_usize
parse_usize_tests = (refl, refl, refl, refl, refl)

-- `==` on two `Vec<String>`.
unfoldable pub texts_eq : List String → List String → Bool
texts_eq [] [] = true
texts_eq [] (t ∷ ts) = false
texts_eq (s ∷ ss) [] = false
texts_eq (s ∷ ss) (t ∷ ts) = s == t && texts_eq ss ts

pub texts_eq_iff : (ss ts : List String) → (texts_eq ss ts ≡ true) ↔ (ss ≡ ts)
unfolding texts_eq
texts_eq_iff [] [] = (λ h. refl, λ h. refl)
texts_eq_iff [] (t ∷ ts) = (λ h. absurd (cc), λ h. absurd (cc))
texts_eq_iff (s ∷ ss) [] = (λ h. absurd (cc), λ h. absurd (cc))
texts_eq_iff (s ∷ ss) (t ∷ ts) = (
  λ h.
      let e : (s == t) ≡ true = ground arith in
      let es : texts_eq ss ts ≡ true = ground arith in
      λ i. (eq_iff s t).0 e i ∷ (texts_eq_iff ss ts).0 es i,
  λ h. ground (arith, eq_iff s t, cc_head h, (texts_eq_iff ss ts).1 (cc h)),
)
  where
    cc_head : (s ∷ ss) ≡ (t ∷ ts) → s ≡ t
    cc_head h = cc h

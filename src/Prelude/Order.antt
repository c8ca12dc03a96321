-- ===== src/Prelude/Order.antt =====
-- The order of texts is total, transitive and antisymmetric.
use Prim.Native.Nat.{ℕ, Ordering, compare as compare_ℕ}
use Prim.Native.Char.{Char, code}
use Prim.Native.String.{String, [], ◌∷◌, then, compare as compare_text}
use Prim.Native.String.compare
use mathlib.Core.Path.{◌≡◌, refl, ap, ◌∙◌}
use mathlib.Core.Logic.{inl, inr}
use mathlib.Core.Bool.{Bool, true, false, ◌&&◌, ◌||◌}
use native.Mathlib.Omega.{arith}
use text.Mathlib.Text.{is_eq, is_le, ◌==◌}
use agent_receipts.Prelude.Tests.{nat_eq, ltb, Bool-cases}
use agent_receipts.Prelude.Text.{text_le}

then_lem :
    (m n : ℕ) (r : Ordering)
    → (is_le (then (compare_ℕ m n) r) ≡ (ltb m n || (nat_eq m n && is_le r)))
      × (is_eq (then (compare_ℕ m n) r) ≡ (nat_eq m n && is_eq r))
then_lem m n r = by_order (compare_ℕ m n)
  where
    by_order :
        (o : Ordering)
        → (is_le (then o r) ≡ (
            elim o as (λ x. Bool) [ Ordering.lt ↦ true | _ ↦ false ]
            || (elim o as (λ x. Bool) [ Ordering.eq ↦ true | _ ↦ false ] && is_le r)))
          × (is_eq (then o r)
              ≡ (elim o as (λ x. Bool) [ Ordering.eq ↦ true | _ ↦ false ] && is_eq r))
    by_order Ordering.lt = (refl, refl)
    by_order Ordering.eq = (refl, refl)
    by_order Ordering.gt = (refl, refl)

text_le-cons :
    (c d : Char) (s t : String)
    → text_le (c ∷ s) (d ∷ t) ≡ (ltb (code c) (code d) || (nat_eq (code c) (code d) && text_le s t))
text_le-cons c d s t =
    ap is_le (compare.cons-cons c d s t) ∙ (then_lem (code c) (code d) (compare_text s t)).0

eq-cons :
    (c d : Char) (s t : String) → ((c ∷ s) == (d ∷ t)) ≡ (nat_eq (code c) (code d) && (s == t))
eq-cons c d s t =
    ap is_eq (compare.cons-cons c d s t) ∙ (then_lem (code c) (code d) (compare_text s t)).1

nil_le : (t : String) → text_le [] t ≡ true
nil_le [] = refl
nil_le (d ∷ t) = ap is_le (compare.nil-cons d t)

cons_le_nil : (c : Char) (s : String) → text_le (c ∷ s) [] ≡ false
cons_le_nil c s = ap is_le (compare.cons-nil c s)

pub text_le_total : (s t : String) → text_le s t ≡ false → text_le t s ≡ true
text_le_total [] t h = absurd (cc (h, nil_le t))
text_le_total (c ∷ s) [] h = nil_le (c ∷ s)
text_le_total (c ∷ s) (d ∷ t) h =
    let ih = text_le_total s t in
    rw (text_le-cons d c t s) (step ih (rw (text_le-cons c d s t) at h))
  where
    step :
        (text_le s t ≡ false → text_le t s ≡ true)
        → (ltb (code c) (code d) || (nat_eq (code c) (code d) && text_le s t)) ≡ false
        → (ltb (code d) (code c) || (nat_eq (code d) (code c) && text_le t s)) ≡ true
    step ih k = ground (arith, ih, k)

pub text_le_refl : (s : String) → text_le s s ≡ true
text_le_refl s = elim (Bool-cases (text_le s s)) [ inl e ↦ e | inr e ↦ text_le_total s s e ]

pub text_le_trans : (s t u : String) → text_le s t ≡ true → text_le t u ≡ true → text_le s u ≡ true
text_le_trans [] t u h k = nil_le u
text_le_trans (c ∷ s) [] u h k = absurd (cc (h, cons_le_nil c s))
text_le_trans (c ∷ s) (d ∷ t) [] h k = absurd (cc (k, cons_le_nil d t))
text_le_trans (c ∷ s) (d ∷ t) (e ∷ u) h k =
    rw (text_le-cons c e s u)
      (step (text_le_trans s t u) (rw (text_le-cons c d s t) at h) (rw (text_le-cons d e t u) at k))
  where
    step :
        (text_le s t ≡ true → text_le t u ≡ true → text_le s u ≡ true)
        → (ltb (code c) (code d) || (nat_eq (code c) (code d) && text_le s t)) ≡ true
        → (ltb (code d) (code e) || (nat_eq (code d) (code e) && text_le t u)) ≡ true
        → (ltb (code c) (code e) || (nat_eq (code c) (code e) && text_le s u)) ≡ true
    step ih p q = ground (arith, ih, p, q)

pub text_le_antisym : (s t : String) → text_le s t ≡ true → text_le t s ≡ true → (s == t) ≡ true
text_le_antisym [] [] h k = refl
text_le_antisym [] (d ∷ t) h k = absurd (cc (k, cons_le_nil d t))
text_le_antisym (c ∷ s) [] h k = absurd (cc (h, cons_le_nil c s))
text_le_antisym (c ∷ s) (d ∷ t) h k =
    rw (eq-cons c d s t)
      (step (text_le_antisym s t) (rw (text_le-cons c d s t) at h) (rw (text_le-cons d c t s) at k))
  where
    step :
        (text_le s t ≡ true → text_le t s ≡ true → (s == t) ≡ true)
        → (ltb (code c) (code d) || (nat_eq (code c) (code d) && text_le s t)) ≡ true
        → (ltb (code d) (code c) || (nat_eq (code d) (code c) && text_le t s)) ≡ true
        → (nat_eq (code c) (code d) && (s == t)) ≡ true
    step ih p q = ground (arith, ih, p, q)

-- ===== src/Prelude/Once.antt =====
-- `if seen.insert(x) { xs.push(x) }`: the first of each text, in order.
use mathlib.Core.Path.{◌≡◌, refl, sym, ap, ◌∙◌}
use mathlib.Core.Logic.{◌↔◌, inl, inr}
use mathlib.Core.Bool.{true, false}
use mathlib.Core.List.{List, [], ◌∷◌, Memᴰ}
use mathlib.Core.List.Memᴰ
use native.Mathlib.Omega.{arith}
use Prim.Native.String.{String}
use text.Mathlib.Text.{◌==◌}
use text.Mathlib.TextEquality.{eq_iff}
use agent_receipts.Prelude.Tests.{if◌then◌else◌, Bool-cases}
use agent_receipts.Prelude.Text.{contains}

-- `seen` holds what was met before.
unfoldable pub once : List String → List String → List String
once seen [] = []
once seen (x ∷ xs) =
    let kept = once (x ∷ seen) xs in
    let skipped = once seen xs in if contains seen x then skipped else x ∷ kept

-- A text is kept exactly when it stands in the list and was not met before.
pub once_iff :
    (seen xs : List String) (a : String)
    → Memᴰ a (once seen xs) ↔ (Memᴰ a xs × (contains seen a ≡ false))
unfolding once contains
once_iff seen [] a = (λ m. elim m [ ], λ h. elim h.0 [ ])
once_iff seen (x ∷ xs) a = elim (Bool-cases (contains seen x)) [
  | inl e ↦ rw e (
    λ m. let r = (once_iff seen xs a).0 m in (Memᴰ.tail r.0, r.1),
    λ h. elim (Memᴰ.cases_cons h.0) [
      | inl q ↦ absurd (clash e q h.1)
      | inr n ↦ (once_iff seen xs a).1 (n, h.1)
    ],
  )
  | inr e ↦ rw e (
    λ m. elim (Memᴰ.cases_cons m) [
      | inl q ↦ (Memᴰ.head q, ap (contains seen) q ∙ e)
      | inr n ↦ let r = (once_iff (x ∷ seen) xs a).0 n in (Memᴰ.tail r.0, ground arith)
    ],
    λ h. elim (Bool-cases (x == a)) [
      | inl q ↦ Memᴰ.head (sym ((eq_iff x a).0 q))
      | inr q ↦ elim (Memᴰ.cases_cons h.0) [
        | inl p ↦ Memᴰ.head p
        | inr n ↦ Memᴰ.tail ((once_iff (x ∷ seen) xs a).1 (n, rw (q, h.1) refl))
      ]
    ],
  )
]
  where
    clash : contains seen x ≡ true → a ≡ x → contains seen a ≡ false → ⊥
    clash e q h = cc

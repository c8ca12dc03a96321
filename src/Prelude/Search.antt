-- ===== src/Prelude/Search.antt =====
-- `iter().rev().find(p)`: the last item that passes a test.
use mathlib.Core.Path.{◌≡◌, refl, sym, ap, subst, ◌∙◌}
use mathlib.Core.Logic.{◌↔◌, inl, inr}
use mathlib.Core.Bool.{Bool, true, false}
use mathlib.Core.Option.{Option, none, some}
use mathlib.Core.List.{List, [], ◌∷◌, ◌++◌, Memᴰ}
use mathlib.Core.List.Memᴰ
use native.Mathlib.Omega.{arith}
use agent_receipts.Prelude.Tests.{if◌then◌else◌, Option-cases}
use agent_receipts.Prelude.Lists.{All}

module _ {A : Type 0} (p : A → Bool) where
  abbrev pub find_last : List A → Option A
  find_last [] = none
  find_last (x ∷ xs) = elim (find_last xs) [ some y ↦ some y | none ↦ if p x then some x else none ]

  -- `x` passes the test, and nothing behind it does.
  pub record IsLast (xs : List A) (x : A) : Type 0 where
    pub before : List A
    pub after : List A
    pub splits : xs ≡ before ++ x ∷ after
    pub passes : p x ≡ true
    pub none_later : All (λ y. p y ≡ false) after

  pub find_last-All : (xs : List A) → find_last xs ≡ none → All (λ y. p y ≡ false) xs
  find_last-All [] h = tt
  find_last-All (x ∷ xs) h = elim (Option-cases (find_last xs)) [
    | inl e ↦ (ground arith, find_last-All xs e)
    | inr r ↦ absurd (cc (r.1))
  ]

  pub find_last_of_All : (xs : List A) → All (λ y. p y ≡ false) xs → find_last xs ≡ none
  find_last_of_All [] h = refl
  find_last_of_All (x ∷ xs) h = rw (find_last_of_All xs h.1) (rw (h.0))

  find_last-IsLast : (xs : List A) (x : A) → find_last xs ≡ some x → IsLast xs x
  find_last-IsLast [] x h = absurd (cc)
  find_last-IsLast (y ∷ xs) x h = elim (Option-cases (find_last xs)) [
    | inl e ↦ at_head e (ground arith)
    | inr r ↦ behind (find_last-IsLast xs x (ground arith))
  ]
    where
      at_head : find_last xs ≡ none → (p y ≡ true) × (y ≡ x) → IsLast (y ∷ xs) x
      at_head e hit = record {
        before = [];
        after = xs;
        splits = ap (λ z. z ∷ xs) hit.1;
        passes = subst (λ z. p z ≡ true) hit.1 hit.0;
        none_later = find_last-All xs e;
      }

      behind : IsLast xs x → IsLast (y ∷ xs) x
      behind l = record {
        before = y ∷ l.before;
        after = l.after;
        splits = ap (λ zs. y ∷ zs) l.splits;
        passes = l.passes;
        none_later = l.none_later;
      }

  find_last-append :
      (before after : List A) (x : A)
      → p x ≡ true
      → All (λ y. p y ≡ false) after
      → find_last (before ++ x ∷ after) ≡ some x
  find_last-append [] after x h k = rw (find_last_of_All after k) (rw h)
  find_last-append (y ∷ before) after x h k = rw (find_last-append before after x h k)

  pub find_last_iff : (xs : List A) (x : A) → (find_last xs ≡ some x) ↔ IsLast xs x
  find_last_iff xs x = (
    find_last-IsLast xs x,
    λ l. ap find_last l.splits ∙ find_last-append l.before l.after x l.passes l.none_later,
  )

pub mem_of_last : {A : Type 0} {p : A → Bool} {xs : List A} {x : A} → IsLast p xs x → Memᴰ x xs
mem_of_last {x = x} l = subst (Memᴰ x) (sym l.splits) (Memᴰ.append_right l.before (Memᴰ.head refl))

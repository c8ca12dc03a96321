-- ===== src/Checks/Changes.antt =====
-- compiler/checks.rs, `build_check_histories`: the first attempt that passed, and the changes of
-- outcome, without the functions of the code.
use mathlib.Core.List.{Memᴰ}
use mathlib.Core.List.Memᴰ
use mathlib.Core.Option
use agent_receipts.Prelude.{
  ℕ, suc, ◌+◌, ◌≡◌, ◌≢◌, ◌↔◌, refl, sym, ap, subst, ◌∙◌, inl, inr, String, List, [], ◌∷◌, ◌++◌,
  false, Option, none, some, ◌==◌, eq_iff, arith, format, length, Bool-cases,
}
use agent_receipts.Checks.Types.{CheckAttemptRecord}
use agent_receipts.Checks.History.{position, transitions_of, has_passed}

-- The first attempt that passed is behind those that did not.
pub record IsGreen (records : List CheckAttemptRecord) (number : ℕ) : Type 0 where
  pub before : List CheckAttemptRecord
  pub green : CheckAttemptRecord
  pub after : List CheckAttemptRecord
  pub is_split : records ≡ before ++ green ∷ after
  pub is_number : number ≡ length before + 1
  pub passed : green.outcome ≡ "passed"
  pub none_before : (a : CheckAttemptRecord) → Memᴰ a before → a.outcome ≢ "passed"

-- After how many attempts the check passed, if it ever did.
abbrev pub IsGreenAfter : List CheckAttemptRecord → Option ℕ → Type 0
IsGreenAfter records none = (a : CheckAttemptRecord) → Memᴰ a records → a.outcome ≢ "passed"
IsGreenAfter records (some number) = IsGreen records number

-- Two attempts in a row with different outcomes.
pub record IsChange (records : List CheckAttemptRecord) (transition : String) : Type 0 where
  pub before : List CheckAttemptRecord
  pub earlier : CheckAttemptRecord
  pub later : CheckAttemptRecord
  pub after : List CheckAttemptRecord
  pub is_split : records ≡ before ++ earlier ∷ later ∷ after
  pub differ : earlier.outcome ≢ later.outcome
  pub printed : transition ≡ format (earlier.outcome ∷ "->" ∷ later.outcome ∷ [])

differs : (a b : String) → (a == b) ≡ false → a ≢ b
differs a b h e = cc (h, (eq_iff a b).1 e)

pub position-IsGreenAfter :
    (xs : List CheckAttemptRecord)
    → IsGreenAfter xs (Option.map (λ n. n + 1) (position has_passed xs))
unfolding position
position-IsGreenAfter [] = λ a m. elim m [ ]
position-IsGreenAfter (x ∷ xs) = elim (Bool-cases (has_passed x)) [
  | inl e ↦ rw e (record {
    before = [];
    green = x;
    after = xs;
    is_split = refl;
    is_number = omega arith;
    passed = (eq_iff _ _).0 e;
    none_before = λ a m. elim m [ ];
  })
  | inr e ↦ rw e (later e (position has_passed xs) (position-IsGreenAfter xs))
]
  where
    later :
        has_passed x ≡ false
        → (o : Option ℕ) → IsGreenAfter xs (Option.map (λ n. n + 1) o)
        → IsGreenAfter (x ∷ xs) (Option.map (λ n. n + 1) (Option.map suc o))
    later e none h = λ a m. elim (Memᴰ.cases_cons m) [
      | inl q ↦ λ p. differs _ _ e (sym (ap (λ z. z.outcome) q) ∙ p)
      | inr n ↦ h a n
    ]
    later e (some i) h = record {
      before = x ∷ h.before;
      green = h.green;
      after = h.after;
      is_split = ap (λ z. x ∷ z) h.is_split;
      is_number = let k = h.is_number in omega (arith, k);
      passed = h.passed;
      none_before = λ a m. elim (Memᴰ.cases_cons m) [
        | inl q ↦ λ p. differs _ _ e (sym (ap (λ z. z.outcome) q) ∙ p)
        | inr n ↦ h.none_before a n
      ];
    }

-- A change among the attempts is one among more of them.
IsChange-cons :
    (x : CheckAttemptRecord) (xs : List CheckAttemptRecord) (t : String)
    → IsChange xs t
    → IsChange (x ∷ xs) t
IsChange-cons x xs t h = record {
  before = x ∷ h.before;
  earlier = h.earlier;
  later = h.later;
  after = h.after;
  is_split = ap (λ z. x ∷ z) h.is_split;
  differ = h.differ;
  printed = h.printed;
}

transitions_of-IsChange :
    (xs : List CheckAttemptRecord) (t : String) → Memᴰ t (transitions_of xs) → IsChange xs t
unfolding transitions_of
transitions_of-IsChange [] t m = elim m [ ]
transitions_of-IsChange (a ∷ []) t m = elim m [ ]
transitions_of-IsChange (a ∷ b ∷ rest) t m = elim (Bool-cases (a.outcome == b.outcome)) [
  | inl e ↦ IsChange-cons a (b ∷ rest) t (transitions_of-IsChange (b ∷ rest) t (rw e at m))
  | inr e ↦ elim (Memᴰ.cases_cons (changed e)) [
    | inl q ↦ record {
      before = [];
      earlier = a;
      later = b;
      after = rest;
      is_split = refl;
      differ = differs _ _ e;
      printed = q;
    }
    | inr n ↦ IsChange-cons a (b ∷ rest) t (transitions_of-IsChange (b ∷ rest) t n)
  ]
]
  where
    changed :
        (a.outcome == b.outcome) ≡ false
        → Memᴰ t (format (a.outcome ∷ "->" ∷ b.outcome ∷ []) ∷ transitions_of (b ∷ rest))
    changed e = rw e at m

IsChange-transitions_of :
    (before : List CheckAttemptRecord) (a b : CheckAttemptRecord) (after : List CheckAttemptRecord)
    → a.outcome ≢ b.outcome
    → Memᴰ (format (a.outcome ∷ "->" ∷ b.outcome ∷ [])) (transitions_of (before ++ a ∷ b ∷ after))
unfolding transitions_of
IsChange-transitions_of [] a b after h = elim (Bool-cases (a.outcome == b.outcome)) [
  | inl e ↦ absurd (h ((eq_iff _ _).0 e))
  | inr e ↦ rw e (Memᴰ.head refl)
]
IsChange-transitions_of (x ∷ []) a b after h = elim (Bool-cases (x.outcome == a.outcome)) [
  | inl e ↦ rw e (IsChange-transitions_of [] a b after h)
  | inr e ↦ rw e (Memᴰ.tail (IsChange-transitions_of [] a b after h))
]
IsChange-transitions_of (x ∷ y ∷ before) a b after h = elim (Bool-cases (x.outcome == y.outcome)) [
  | inl e ↦ rw e (IsChange-transitions_of (y ∷ before) a b after h)
  | inr e ↦ rw e (Memᴰ.tail (IsChange-transitions_of (y ∷ before) a b after h))
]

pub changes_iff :
    (xs : List CheckAttemptRecord) (t : String) → Memᴰ t (transitions_of xs) ↔ IsChange xs t
changes_iff xs t = (
  transitions_of-IsChange xs t,
  λ c.
      subst (λ z. Memᴰ z (transitions_of xs)) (sym c.printed)
        (subst
          (λ z. Memᴰ (format (c.earlier.outcome ∷ "->" ∷ c.later.outcome ∷ [])) (transitions_of z))
          (sym c.is_split) (IsChange-transitions_of c.before c.earlier c.later c.after c.differ)),
)

-- ===== src/Gate/Conditions.antt =====
-- compiler/gate.rs: when each error of `run_gate` is absent.
use mathlib.Core.List.{Memᴰ}
use mathlib.Core.List.Memᴰ
use agent_receipts.Prelude.{
  ◌≡◌, refl, sym, ap, ◌∙◌, ◌≢◌, ◌↔◌, inl, inr, Bool, true, false, not, ◌&&◌, String, List, [], ◌∷◌,
  ◌++◌, map, none, some, arith, eq_iff, ◌==◌, any, any_of_mem, mem_of_any, flat_map, filter, find,
  is_empty, is_empty-filter_iff, Bool-cases, and_iff,
}
use agent_receipts.Gate.Run.{GateError, error_if}

pub ↔-trans {ℓ κ ι} : {P : Type ℓ} {Q : Type κ} {R : Type ι} → P ↔ Q → Q ↔ R → P ↔ R
↔-trans f g = (λ p. g.0 (f.0 p), λ r. f.1 (g.1 r))

-- No error comes from a list of errors.
abbrev pub IsClear : List GateError → Type 0
IsClear errors = is_empty errors ≡ true

is_empty-append {ℓ} :
    {A : Type ℓ} (xs ys : List A) → is_empty (xs ++ ys) ≡ (is_empty xs && is_empty ys)
is_empty-append [] ys = refl
is_empty-append (x ∷ xs) ys = refl

-- Two groups of errors: none comes when none comes from either.
pub append_iff {κ ι} :
    {P : Type κ} {Q : Type ι} (xs ys : List GateError)
    → IsClear xs ↔ P
    → IsClear ys ↔ Q
    → IsClear (xs ++ ys) ↔ (P × Q)
append_iff xs ys f g = (
  λ h. let k = (and_iff _ _).0 (sym (is_empty-append xs ys) ∙ h) in (f.0 k.0, g.0 k.1),
  λ k. is_empty-append xs ys ∙ (and_iff _ _).1 (f.1 k.0, g.1 k.1),
)

pub error_if_iff : (b : Bool) (e : GateError) → IsClear (error_if b e) ↔ (b ≡ false)
error_if_iff b e = ground arith

pub error_unless_iff : (b : Bool) (e : GateError) → IsClear (error_if (not b) e) ↔ (b ≡ true)
error_unless_iff b e = ground arith

pub is_empty-map {ℓ κ} :
    {A : Type ℓ} {B : Type κ} (f : A → B) (xs : List A) → is_empty (map f xs) ≡ is_empty xs
is_empty-map f [] = refl
is_empty-map f (x ∷ xs) = refl

pub differ_iff : (a b : String) → ((a == b) ≡ false) ↔ (a ≢ b)
differ_iff a b = (
  λ h e. absurd (cc (h, (eq_iff a b).1 e)),
  λ n. elim (Bool-cases (a == b)) [ inl h ↦ absurd (n ((eq_iff a b).0 h)) | inr h ↦ h ],
)

-- An item passes the test.
pub any_iff {ℓ} :
    {A : Type ℓ} (p : A → Bool) (xs : List A)
    → (any p xs ≡ true) ↔ ((x : A) × Memᴰ x xs × (p x ≡ true))
any_iff p xs = (mem_of_any p xs, λ r. any_of_mem p r.1 r.2)

module _ {ℓ} {A : Type ℓ} where
  -- The error for the first item that fails the test.
  pub find_error_iff :
      (p : A → Bool) (f : A → GateError) (xs : List A)
      → IsClear (elim (find p xs) [ none ↦ [] | some x ↦ f x ∷ [] ])
        ↔ ((x : A) → Memᴰ x xs → p x ≡ false)
  find_error_iff p f [] = (λ h x m. elim m [ ], λ h. refl)
  find_error_iff p f (y ∷ ys) = elim (Bool-cases (p y)) [
    | inl e ↦ rw e (λ h. absurd (cc), λ h. absurd (cc (e, h y (Memᴰ.head refl))))
    | inr e ↦ rw e (
      λ h x m. elim (Memᴰ.cases_cons m) [
        | inl q ↦ ap p q ∙ e
        | inr n ↦ (find_error_iff p f ys).0 h x n
      ],
      λ h. (find_error_iff p f ys).1 (λ x m. h x (Memᴰ.tail m)),
    )
  ]

  -- One error for each item that passes the filter.
  pub errors_of_iff :
      (p : A → Bool) (f : A → GateError) (xs : List A)
      → IsClear (map f (filter p xs)) ↔ ((x : A) → Memᴰ x xs → p x ≡ false)
  errors_of_iff p f xs = (
    λ h. (is_empty-filter_iff p xs).0 (sym (is_empty-map f (filter p xs)) ∙ h),
    λ h. is_empty-map f (filter p xs) ∙ (is_empty-filter_iff p xs).1 h,
  )

  -- One error for all the items that pass the filter.
  pub error_for_all_iff :
      (p : A → Bool) (e : GateError) (xs : List A)
      → IsClear (error_if (not (is_empty (filter p xs))) e) ↔ ((x : A) → Memᴰ x xs → p x ≡ false)
  error_for_all_iff p e xs =
      ↔-trans (error_unless_iff (is_empty (filter p xs)) e) (is_empty-filter_iff p xs)

  pub flat_map_iff :
      (f : A → List GateError) (xs : List A)
      → IsClear (flat_map f xs) ↔ ((x : A) → Memᴰ x xs → IsClear (f x))
  flat_map_iff f [] = (λ h x m. elim m [ ], λ h. refl)
  flat_map_iff f (y ∷ ys) = (
    λ h x m.
        let k = both.0 h in
        elim (Memᴰ.cases_cons m) [
          | inl q ↦ ap (λ z. is_empty (f z)) q ∙ k.0
          | inr n ↦ (flat_map_iff f ys).0 k.1 x n
        ],
    λ h. both.1 (h y (Memᴰ.head refl), (flat_map_iff f ys).1 (λ x m. h x (Memᴰ.tail m))),
  )
    where
      both : IsClear (f y ++ flat_map f ys) ↔ (IsClear (f y) × IsClear (flat_map f ys))
      both = append_iff (f y) (flat_map f ys) (λ h. h, λ h. h) (λ h. h, λ h. h)

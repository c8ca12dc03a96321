-- ===== src/Prelude/Lists.antt =====
-- Lists: the iterator methods that the source calls, with their laws.
use Prim.Native.Nat.{◌≤◌, ℕ, suc, ◌+◌}
use mathlib.Core.Path.{◌≡◌, refl, sym, ap, subst, ◌∙◌}
use mathlib.Core.Logic.{◌↔◌, inl, inr}
use mathlib.Core.Bool.{Bool, true, false, ◌&&◌, ◌||◌}
use mathlib.Core.Option.{Option, none, some}
use mathlib.Core.List.{List, [], ◌∷◌, ◌++◌, map, Memᴰ}
use mathlib.Core.List.Memᴰ
use native.Mathlib.Omega.{arith}
use agent_receipts.Prelude.Tests.{nat_eq, if◌then◌else◌, Bool-cases, Option-cases}

module _ {ℓ} {A : Type ℓ} where
  abbrev pub length : List A → ℕ
  length [] = 0
  length (x ∷ xs) = suc (length xs)

  -- `slice.is_empty()`
  abbrev pub is_empty : List A → Bool
  is_empty [] = true
  is_empty (x ∷ xs) = false

  abbrev pub All {κ} : (A → Type κ) → List A → Type κ
  All P [] = Unit
  All P (x ∷ xs) = P x × All P xs

  -- `iter().any(..)` and `iter().all(..)`
  abbrev pub any : (A → Bool) → List A → Bool
  any p [] = false
  any p (x ∷ xs) = p x || any p xs

  abbrev pub all : (A → Bool) → List A → Bool
  all p [] = true
  all p (x ∷ xs) = p x && all p xs

  -- `iter().filter(..)`
  abbrev pub filter : (A → Bool) → List A → List A
  filter p [] = []
  filter p (x ∷ xs) = let rest = filter p xs in if p x then x ∷ rest else rest

  -- `iter().find(..)`
  abbrev pub find : (A → Bool) → List A → Option A
  find p [] = none
  find p (x ∷ xs) = if p x then some x else find p xs

  -- `slice.last()`
  abbrev pub get_last? : List A → Option A
  get_last? [] = none
  get_last? (x ∷ []) = some x
  get_last? (x ∷ y ∷ xs) = get_last? (y ∷ xs)

module _ {ℓ κ} {A : Type ℓ} {B : Type κ} where
  -- `iter().filter_map(..)`
  abbrev pub filter_map : (A → Option B) → List A → List B
  filter_map f [] = []
  filter_map f (x ∷ xs) =
      let rest = filter_map f xs in elim (f x) [ none ↦ rest | some y ↦ y ∷ rest ]

  -- `iter().flat_map(..)`
  abbrev pub flat_map : (A → List B) → List A → List B
  flat_map f [] = []
  flat_map f (x ∷ xs) = f x ++ flat_map f xs

  pub length-map : (f : A → B) (xs : List A) → length (map f xs) ≡ length xs
  length-map f [] = refl
  length-map f (x ∷ xs) = ap suc (length-map f xs)

module _ {ℓ} {A : Type ℓ} where
  pub length-append : (xs ys : List A) → length (xs ++ ys) ≡ length xs + length ys
  length-append [] ys = omega arith
  length-append (x ∷ xs) ys = omega (arith, length-append xs ys)

  pub nat_eq-length : (xs : List A) → nat_eq (length xs) 0 ≡ is_empty xs
  nat_eq-length [] = refl
  nat_eq-length (x ∷ xs) = ground arith

  pub all-append : (p : A → Bool) (xs ys : List A) → all p (xs ++ ys) ≡ (all p xs && all p ys)
  all-append p [] ys = refl
  all-append p (x ∷ xs) ys = ground (arith, all-append p xs ys)

  pub any-append : (p : A → Bool) (xs ys : List A) → any p (xs ++ ys) ≡ (any p xs || any p ys)
  any-append p [] ys = refl
  any-append p (x ∷ xs) ys = ground (arith, any-append p xs ys)

  pub get_last?-append : (xs : List A) (x : A) → get_last? (xs ++ x ∷ []) ≡ some x
  get_last?-append [] x = refl
  get_last?-append (y ∷ []) x = refl
  get_last?-append (y ∷ z ∷ xs) x = get_last?-append (z ∷ xs) x

  -- `any` is existence, and `all` holds at each member.
  pub any_of_mem : (p : A → Bool) {x : A} {xs : List A} → Memᴰ x xs → p x ≡ true → any p xs ≡ true
  any_of_mem p (Memᴰ.head e) h = ground (arith, ap p e)
  any_of_mem p (Memᴰ.tail m) h = ground (arith, any_of_mem p m h)

  pub mem_of_any :
      (p : A → Bool) (xs : List A) → any p xs ≡ true → (x : A) × Memᴰ x xs × (p x ≡ true)
  mem_of_any p [] h = absurd (cc)
  mem_of_any p (x ∷ xs) h = elim (Bool-cases (p x)) [
    | inl e ↦ (x, Memᴰ.head refl, e)
    | inr e ↦ let r = mem_of_any p xs (rw e at h) in (r.0, Memᴰ.tail r.1, r.2)
  ]

  pub all_of_mem : (p : A → Bool) {x : A} {xs : List A} → all p xs ≡ true → Memᴰ x xs → p x ≡ true
  all_of_mem p h (Memᴰ.head e) = ground (arith, ap p e)
  all_of_mem p h (Memᴰ.tail m) = all_of_mem p (ground arith) m

  pub All_of_mem {κ} : (P : A → Type κ) {x : A} {xs : List A} → All P xs → Memᴰ x xs → P x
  All_of_mem P h (Memᴰ.head e) = subst P (sym e) h.0
  All_of_mem P h (Memᴰ.tail m) = All_of_mem P h.1 m

  pub All-tabulate {κ} : (P : A → Type κ) (xs : List A) → ((x : A) → Memᴰ x xs → P x) → All P xs
  All-tabulate P [] h = tt
  All-tabulate P (x ∷ xs) h = (h x (Memᴰ.head refl), All-tabulate P xs (λ y m. h y (Memᴰ.tail m)))

  mem_of_filter :
      (p : A → Bool) {x : A} (xs : List A) → Memᴰ x (filter p xs) → Memᴰ x xs × (p x ≡ true)
  mem_of_filter p [] h = elim h [ ]
  mem_of_filter p {x} (y ∷ xs) h = elim (Bool-cases (p y)) [
    | inl e ↦ kept e (mem_of_filter p xs) (rw e at h)
    | inr e ↦ later (mem_of_filter p xs (rw e at h))
  ]
    where
      later : Memᴰ x xs × (p x ≡ true) → Memᴰ x (y ∷ xs) × (p x ≡ true)
      later r = (Memᴰ.tail r.0, r.1)

      kept :
          p y ≡ true
          → (Memᴰ x (filter p xs) → Memᴰ x xs × (p x ≡ true))
          → Memᴰ x (y ∷ filter p xs)
          → Memᴰ x (y ∷ xs) × (p x ≡ true)
      kept e f (Memᴰ.head q) = (Memᴰ.head q, ap p q ∙ e)
      kept e f (Memᴰ.tail m) = later (f m)

  filter_of_mem :
      (p : A → Bool) {x : A} {xs : List A} → Memᴰ x xs → p x ≡ true → Memᴰ x (filter p xs)
  filter_of_mem p {x} (Memᴰ.head q) k = rw (sym (ap p q) ∙ k) (Memᴰ.head q)
  filter_of_mem p (Memᴰ.tail {x = y} m) k = elim (Bool-cases (p y)) [
    | inl e ↦ rw e (Memᴰ.tail (filter_of_mem p m k))
    | inr e ↦ rw e (filter_of_mem p m k)
  ]

  -- What a filter keeps.
  pub mem-filter :
      (p : A → Bool) {x : A} {xs : List A} → Memᴰ x (filter p xs) ↔ (Memᴰ x xs × (p x ≡ true))
  mem-filter p {xs = xs} = (mem_of_filter p xs, λ h. filter_of_mem p h.0 h.1)

module _ {ℓ κ} {A : Type ℓ} {B : Type κ} where
  mem_of_map :
      (f : A → B) {b : B} (xs : List A) → Memᴰ b (map f xs) → (a : A) × Memᴰ a xs × (f a ≡ b)
  mem_of_map f [] m = elim m [ ]
  mem_of_map f {b} (x ∷ xs) m = elim (Memᴰ.cases_cons m) [
    | inl e ↦ (x, Memᴰ.head refl, sym e)
    | inr n ↦ later (mem_of_map f xs n)
  ]
    where
      later : (a : A) × Memᴰ a xs × (f a ≡ b) → (a : A) × Memᴰ a (x ∷ xs) × (f a ≡ b)
      later r = (r.0, Memᴰ.tail r.1, r.2)

  map_of_mem : (f : A → B) {a : A} {xs : List A} → Memᴰ a xs → Memᴰ (f a) (map f xs)
  map_of_mem f (Memᴰ.head e) = Memᴰ.head (ap f e)
  map_of_mem f (Memᴰ.tail m) = Memᴰ.tail (map_of_mem f m)

  pub mem-map :
      (f : A → B) {b : B} {xs : List A} → Memᴰ b (map f xs) ↔ ((a : A) × Memᴰ a xs × (f a ≡ b))
  mem-map f {xs = xs} = (mem_of_map f xs, λ r. Memᴰ.cast (sym r.2) (map_of_mem f r.1))

module _ {ℓ κ} {A : Type ℓ} {B : Type κ} where
  -- What `filter_map` keeps.
  mem_of_filter_map :
      (f : A → Option B) {b : B} (xs : List A)
      → Memᴰ b (filter_map f xs)
      → (a : A) × Memᴰ a xs × (f a ≡ some b)
  mem_of_filter_map f [] m = elim m [ ]
  mem_of_filter_map f {b} (x ∷ xs) m = elim (Option-cases (f x)) [
    | inl e ↦ later (mem_of_filter_map f xs (rw (e, filter_map) at m))
    | inr r ↦ kept r.0 r.1 (mem_of_filter_map f xs) (rw (r.1, filter_map) at m)
  ]
    where
      later : (a : A) × Memᴰ a xs × (f a ≡ some b) → (a : A) × Memᴰ a (x ∷ xs) × (f a ≡ some b)
      later r = (r.0, Memᴰ.tail r.1, r.2)

      kept :
          (y : B)
          → f x ≡ some y
          → (Memᴰ b (filter_map f xs) → (a : A) × Memᴰ a xs × (f a ≡ some b))
          → Memᴰ b (y ∷ filter_map f xs)
          → (a : A) × Memᴰ a (x ∷ xs) × (f a ≡ some b)
      kept y e g (Memᴰ.head q) = (x, Memᴰ.head refl, e ∙ ap some (sym q))
      kept y e g (Memᴰ.tail n) = later (g n)

  filter_map_of_mem :
      (f : A → Option B) {a : A} {b : B} {xs : List A}
      → Memᴰ a xs
      → f a ≡ some b
      → Memᴰ b (filter_map f xs)
  filter_map_of_mem f (Memᴰ.head q) h = rw (sym (ap f q) ∙ h, filter_map) (Memᴰ.head refl)
  filter_map_of_mem f (Memᴰ.tail {x = y} m) h = elim (Option-cases (f y)) [
    | inl e ↦ rw (e, filter_map) (filter_map_of_mem f m h)
    | inr r ↦ rw (r.1, filter_map) (Memᴰ.tail (filter_map_of_mem f m h))
  ]

  pub mem-filter_map :
      (f : A → Option B) {b : B} {xs : List A}
      → Memᴰ b (filter_map f xs) ↔ ((a : A) × Memᴰ a xs × (f a ≡ some b))
  mem-filter_map f {xs = xs} = (mem_of_filter_map f xs, λ r. filter_map_of_mem f r.1 r.2)

  -- What `flat_map` yields.
  mem_of_flat_map :
      (f : A → List B) {b : B} (xs : List A)
      → Memᴰ b (flat_map f xs)
      → (a : A) × Memᴰ a xs × Memᴰ b (f a)
  mem_of_flat_map f [] m = elim m [ ]
  mem_of_flat_map f {b} (x ∷ xs) m = elim (Memᴰ.append_cases (f x) m) [
    | inl n ↦ (x, Memᴰ.head refl, n)
    | inr n ↦ later (mem_of_flat_map f xs n)
  ]
    where
      later : (a : A) × Memᴰ a xs × Memᴰ b (f a) → (a : A) × Memᴰ a (x ∷ xs) × Memᴰ b (f a)
      later r = (r.0, Memᴰ.tail r.1, r.2)

  flat_map_of_mem :
      (f : A → List B) {a : A} {b : B} {xs : List A}
      → Memᴰ a xs
      → Memᴰ b (f a)
      → Memᴰ b (flat_map f xs)
  flat_map_of_mem f {b = b} (Memᴰ.head {xs = xs} q) n =
      Memᴰ.append_left (flat_map f xs) (subst (λ z. Memᴰ b (f z)) q n)
  flat_map_of_mem f (Memᴰ.tail {x = y} m) n = Memᴰ.append_right (f y) (flat_map_of_mem f m n)

  pub mem-flat_map :
      (f : A → List B) {b : B} {xs : List A}
      → Memᴰ b (flat_map f xs) ↔ ((a : A) × Memᴰ a xs × Memᴰ b (f a))
  mem-flat_map f {xs = xs} = (mem_of_flat_map f xs, λ r. flat_map_of_mem f r.1 r.2)

module _ {ℓ} {A : Type ℓ} (p : A → Bool) where
  pub length-filter : (xs : List A) → length (filter p xs) ≤ length xs
  length-filter [] = omega arith
  length-filter (x ∷ xs) = elim (Bool-cases (p x)) [
    | inl e ↦ rw e (omega (arith, length-filter xs))
    | inr e ↦ rw e (omega (arith, length-filter xs))
  ]

  -- A filter keeps nothing exactly when no item passes.
  pub is_empty-filter_iff :
      (xs : List A) → (is_empty (filter p xs) ≡ true) ↔ ((x : A) → Memᴰ x xs → p x ≡ false)
  is_empty-filter_iff [] = (λ h x m. elim m [ ], λ h. refl)
  is_empty-filter_iff (y ∷ ys) = elim (Bool-cases (p y)) [
    | inl e ↦ rw e (λ h. absurd (cc), λ h. absurd (cc (e, h y (Memᴰ.head refl))))
    | inr e ↦ rw e (
      λ h x m. elim (Memᴰ.cases_cons m) [
        | inl q ↦ ap p q ∙ e
        | inr n ↦ (is_empty-filter_iff ys).0 h x n
      ],
      λ h. (is_empty-filter_iff ys).1 (λ x m. h x (Memᴰ.tail m)),
    )
  ]

module _ {ℓ} {A : Type ℓ} where
  -- `iter().rev()`
  abbrev pub reverse : List A → List A
  reverse [] = []
  reverse (x ∷ xs) = reverse xs ++ x ∷ []

  pub mem-reverse : {x : A} (xs : List A) → Memᴰ x (reverse xs) ↔ Memᴰ x xs
  mem-reverse {x} [] = (λ m. m, λ m. m)
  mem-reverse {x} (y ∷ ys) = (
    λ m. elim (Memᴰ.append_cases (reverse ys) m) [
      | inl n ↦ Memᴰ.tail ((mem-reverse ys).0 n)
      | inr n ↦ elim (Memᴰ.cases_cons n) [ inl e ↦ Memᴰ.head e | inr k ↦ elim k [ ] ]
    ],
    λ m. elim (Memᴰ.cases_cons m) [
      | inl e ↦ Memᴰ.append_right (reverse ys) (Memᴰ.head e)
      | inr n ↦ Memᴰ.append_left (y ∷ []) ((mem-reverse ys).1 n)
    ],
  )

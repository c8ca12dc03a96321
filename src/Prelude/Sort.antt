-- ===== src/Prelude/Sort.antt =====
-- `slice.sort_by(..)`: a stable sort, here by insertion, with the order as a Boolean test.
use mathlib.Core.Path.{◌≡◌}
use mathlib.Core.Logic.{◌↔◌, inl, inr}
use mathlib.Core.Bool.{Bool, true, false}
use mathlib.Core.List.{List, [], ◌∷◌, Memᴰ}
use mathlib.Core.List.Memᴰ
use agent_receipts.Prelude.Tests.{if◌then◌else◌, Bool-cases}

module _ {A : Type 0} (le : A → A → Bool) where
  -- `x` goes in front of the first item that it does not come after.
  abbrev pub insert_sorted : A → List A → List A
  insert_sorted x [] = x ∷ []
  insert_sorted x (y ∷ ys) = if le x y then x ∷ y ∷ ys else y ∷ insert_sorted x ys

  abbrev pub sort_by : List A → List A
  sort_by [] = []
  sort_by (x ∷ xs) = insert_sorted x (sort_by xs)

  mem-insert_sorted : (x : A) (xs : List A) {a : A} → Memᴰ a (insert_sorted x xs) ↔ Memᴰ a (x ∷ xs)
  mem-insert_sorted x [] = (λ m. m, λ m. m)
  mem-insert_sorted x (y ∷ ys) {a} = elim (Bool-cases (le x y)) [
    | inl e ↦ rw e (λ m. m, λ m. m)
    | inr e ↦ rw e (
      λ m. elim (Memᴰ.cases_cons m) [
        | inl q ↦ Memᴰ.tail (Memᴰ.head q)
        | inr n ↦ elim (Memᴰ.cases_cons ((mem-insert_sorted x ys).0 n)) [
          | inl q ↦ Memᴰ.head q
          | inr k ↦ Memᴰ.tail (Memᴰ.tail k)
        ]
      ],
      λ m. elim (Memᴰ.cases_cons m) [
        | inl q ↦ Memᴰ.tail ((mem-insert_sorted x ys).1 (Memᴰ.head q))
        | inr n ↦ elim (Memᴰ.cases_cons n) [
          | inl q ↦ Memᴰ.head q
          | inr k ↦ Memᴰ.tail ((mem-insert_sorted x ys).1 (Memᴰ.tail k))
        ]
      ],
    )
  ]

  -- Sorting keeps the items.
  pub mem-sort_by : (xs : List A) {a : A} → Memᴰ a (sort_by xs) ↔ Memᴰ a xs
  mem-sort_by [] = (λ m. m, λ m. m)
  mem-sort_by (x ∷ xs) {a} = (
    λ m. elim (Memᴰ.cases_cons ((mem-insert_sorted x (sort_by xs)).0 m)) [
      | inl q ↦ Memᴰ.head q
      | inr n ↦ Memᴰ.tail ((mem-sort_by xs).0 n)
    ],
    λ m. (mem-insert_sorted x (sort_by xs)).1 (elim (Memᴰ.cases_cons m) [
      | inl q ↦ Memᴰ.head q
      | inr n ↦ Memᴰ.tail ((mem-sort_by xs).1 n)
    ]),
  )

  -- Each item may stand in front of the next.
  abbrev pub IsSorted : List A → Type 0
  IsSorted [] = Unit
  IsSorted (x ∷ []) = Unit
  IsSorted (x ∷ y ∷ ys) = (le x y ≡ true) × IsSorted (y ∷ ys)

  module _ (total : (x y : A) → le x y ≡ false → le y x ≡ true) where
    insert_sorted-IsSorted : (x : A) (xs : List A) → IsSorted xs → IsSorted (insert_sorted x xs)
    insert_sorted-IsSorted x [] h = tt
    insert_sorted-IsSorted x (y ∷ []) h = elim (Bool-cases (le x y)) [
      | inl e ↦ rw e (e, tt)
      | inr e ↦ rw e (total x y e, tt)
    ]
    insert_sorted-IsSorted x (y ∷ z ∷ zs) h = elim (Bool-cases (le x y)) [
      | inl e ↦ rw e (e, h)
      | inr e ↦ rw e (elim (Bool-cases (le x z)) [
        | inl f ↦ rw f (total x y e, (f, h.1))
        | inr f ↦ let rest = insert_sorted-IsSorted x (z ∷ zs) h.1 in rw f (h.0, rw f at rest)
      ])
    ]

    -- Under a total order the result is sorted.
    pub sort_by-IsSorted : (xs : List A) → IsSorted (sort_by xs)
    sort_by-IsSorted [] = tt
    sort_by-IsSorted (x ∷ xs) = insert_sorted-IsSorted x (sort_by xs) (sort_by-IsSorted xs)

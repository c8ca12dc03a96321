-- ===== src/Compile/Firsts.antt =====
-- compiler/run_dir.rs, `dedupe_sources_strict`: of each id, the first source is the one that stays.
use mathlib.Core.List.{Memᴰ}
use mathlib.Core.List.Memᴰ
use agent_receipts.Prelude.{
  ◌≡◌, ◌≢◌, refl, sym, ap, ◌∙◌, inl, inr, Bool, true, false, String, List, [], ◌∷◌, ◌==◌, eq_iff,
  subst, find, insert_sorted, sort_by, IsSorted, text_le, text_le_refl, text_le_trans,
  text_le_antisym, Bool-cases,
}
use agent_receipts.Schema.{SourceRef}
use agent_receipts.Compile.Sources.{dedup_after, dedup_sources}

-- What is left is among the sources.
pub mem-dedup_after :
    (prev : SourceRef) (xs : List SourceRef) {s : SourceRef}
    → Memᴰ s (dedup_after prev xs)
    → Memᴰ s xs
unfolding dedup_after
mem-dedup_after prev [] m = m
mem-dedup_after prev (x ∷ xs) {s} m = elim (Bool-cases (x.source_id == prev.source_id)) [
  | inl e ↦ Memᴰ.tail (mem-dedup_after prev xs (rw (e, dedup_after) at m))
  | inr e ↦ elim (Memᴰ.cases_cons (kept e)) [
    | inl q ↦ Memᴰ.head q
    | inr n ↦ Memᴰ.tail (mem-dedup_after x xs n)
  ]
]
  where
    kept : (x.source_id == prev.source_id) ≡ false → Memᴰ s (x ∷ dedup_after x xs)
    kept e = rw (e, dedup_after) at m

-- The order in which the sources are sorted.
abbrev pub by_source : SourceRef → SourceRef → Bool
by_source left right = text_le left.source_id right.source_id

abbrev has_source : String → SourceRef → Bool
has_source id s = s.source_id == id

-- Sorting and dropping leave the first source of each id the first.
find-insert_sorted :
    (id : String) (x : SourceRef) (xs : List SourceRef)
    → find (has_source id) (insert_sorted by_source x xs) ≡ find (has_source id) (x ∷ xs)
find-insert_sorted id x [] = refl
find-insert_sorted id x (y ∷ ys) = elim (Bool-cases (by_source x y)) [
  | inl e ↦ rw e refl
  | inr e ↦ rw e (step e (find-insert_sorted id x ys))
]
  where
    step :
        by_source x y ≡ false
        → find (has_source id) (insert_sorted by_source x ys) ≡ find (has_source id) (x ∷ ys)
        → find (has_source id) (y ∷ insert_sorted by_source x ys)
          ≡ find (has_source id) (x ∷ y ∷ ys)
    step e ih = elim (Bool-cases (has_source id x)) [
      | inl p ↦ elim (Bool-cases (has_source id y)) [
        | inl q ↦
            let same : x.source_id ≡ y.source_id = cc ((eq_iff _ _).0 p, (eq_iff _ _).0 q) in
            absurd (cc (e, text_le_refl x.source_id, same))
        | inr q ↦ rw (p, q) (ih ∙ (rw p refl))
      ]
      | inr p ↦ elim (Bool-cases (has_source id y)) [
        | inl q ↦ rw (p, q) refl
        | inr q ↦ rw (p, q) (ih ∙ (rw p refl))
      ]
    ]

pub find-sort_by :
    (id : String) (xs : List SourceRef)
    → find (has_source id) (sort_by by_source xs) ≡ find (has_source id) xs
find-sort_by id [] = refl
find-sort_by id (x ∷ xs) =
    find-insert_sorted id x (sort_by by_source xs) ∙ (rw (find-sort_by id xs) refl)

find-dedup_after :
    (id : String) (prior : SourceRef) (xs : List SourceRef)
    → find (has_source id) (prior ∷ dedup_after prior xs) ≡ find (has_source id) (prior ∷ xs)
unfolding dedup_after
find-dedup_after id prior [] = refl
find-dedup_after id prior (x ∷ xs) = elim (Bool-cases (x.source_id == prior.source_id)) [
  | inl e ↦ rw (e, dedup_after) (find-dedup_after id prior xs ∙ dropped e)
  | inr e ↦ rw (e, dedup_after, find-dedup_after id x xs) refl
]
  where
    dropped :
        (x.source_id == prior.source_id) ≡ true
        → find (has_source id) (prior ∷ xs) ≡ find (has_source id) (prior ∷ x ∷ xs)
    dropped e = elim (Bool-cases (has_source id prior)) [
      | inl p ↦ rw p refl
      | inr p ↦
          let q : has_source id x ≡ false = ap (λ z. z == id) ((eq_iff _ _).0 e) ∙ p in
          rw (p, q) refl
    ]

pub find-dedup_sources :
    (id : String) (xs : List SourceRef)
    → find (has_source id) (dedup_sources xs) ≡ find (has_source id) xs
unfolding dedup_sources
find-dedup_sources id [] = refl
find-dedup_sources id (x ∷ xs) = find-dedup_after id x xs

-- No id occurs twice.
abbrev pub HaveOneEach : List SourceRef → Type 0
HaveOneEach [] = Unit
HaveOneEach (s ∷ kept) =
    ((k : SourceRef) → Memᴰ k kept → k.source_id ≢ s.source_id) × HaveOneEach kept

-- Every item comes after the first.
sorted_le :
    (x : SourceRef) (xs : List SourceRef) {s : SourceRef}
    → IsSorted by_source (x ∷ xs)
    → Memᴰ s xs
    → by_source x s ≡ true
sorted_le x [] h m = elim m [ ]
sorted_le x (y ∷ ys) {s} h m = elim (Memᴰ.cases_cons m) [
  | inl q ↦ ap (by_source x) q ∙ h.0
  | inr n ↦ text_le_trans x.source_id y.source_id s.source_id h.0 (sorted_le y ys h.1 n)
]

IsSorted-tail :
    (x y : SourceRef) (xs : List SourceRef)
    → IsSorted by_source (x ∷ y ∷ xs)
    → IsSorted by_source (x ∷ xs)
IsSorted-tail x y [] h = tt
IsSorted-tail x y (z ∷ xs) h = (text_le_trans x.source_id y.source_id z.source_id h.0 h.1.0, h.1.1)

dedup_after-HaveOneEach :
    (prior : SourceRef) (xs : List SourceRef)
    → IsSorted by_source (prior ∷ xs)
    → HaveOneEach (prior ∷ dedup_after prior xs)
unfolding dedup_after
dedup_after-HaveOneEach prior [] h = (λ k m. elim m [ ], tt)
dedup_after-HaveOneEach prior (x ∷ xs) h = elim (Bool-cases (x.source_id == prior.source_id)) [
  | inl e ↦ rw (e, dedup_after) (dedup_after-HaveOneEach prior xs (IsSorted-tail prior x xs h))
  | inr e ↦
      rw (e, dedup_after)
        (
          λ k m q. elim (Memᴰ.cases_cons m) [
            | inl p ↦
                cc (e, (eq_iff x.source_id prior.source_id).1 (ap (λ z. z.source_id) (sym p) ∙ q))
            | inr n ↦
                let above = sorted_le x xs h.1 (mem-dedup_after x xs n) in
                cc (
                  e,
                  text_le_antisym x.source_id prior.source_id
                      (subst (λ z. text_le x.source_id z ≡ true) q above) h.0,
                )
          ],
          dedup_after-HaveOneEach x xs h.1,
        )
]

pub dedup_sources-HaveOneEach :
    (xs : List SourceRef) → IsSorted by_source xs → HaveOneEach (dedup_sources xs)
unfolding dedup_sources
dedup_sources-HaveOneEach [] h = tt
dedup_sources-HaveOneEach (x ∷ xs) h = dedup_after-HaveOneEach x xs h

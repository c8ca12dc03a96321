-- ===== src/Conflicts/Pairs.antt =====
-- compiler/contradictions.rs: which pairs of records are looked at.
use mathlib.Core.List.{Memᴰ}
use mathlib.Core.List.Memᴰ
use agent_receipts.Prelude.{
  ◌≡◌, refl, sym, ap, subst, ◌∙◌, ◌↔◌, inl, inr, List, [], ◌∷◌, ◌++◌, map, mem-map,
}
use agent_receipts.Schema.{EvidenceRecord}
use agent_receipts.Conflicts.Detect.{pairs}

-- Two records of the list, the first one before the other.
pub record IsBefore (evidence : List EvidenceRecord) (left right : EvidenceRecord) : Type 0 where
  pub front : List EvidenceRecord
  pub middle : List EvidenceRecord
  pub back : List EvidenceRecord
  pub is_split : evidence ≡ front ++ left ∷ (middle ++ right ∷ back)

split_of_mem :
    {A : Type 0} (x : A) (xs : List A)
    → Memᴰ x xs
    → (front : List A) × (back : List A) × (xs ≡ front ++ x ∷ back)
split_of_mem x [] m = elim m [ ]
split_of_mem x (y ∷ ys) m = elim (Memᴰ.cases_cons m) [
  | inl q ↦ ([], ys, ap (λ z. z ∷ ys) (sym q))
  | inr n ↦ let r = split_of_mem x ys n in (y ∷ r.0, r.1, ap (λ z. y ∷ z) r.2)
]

pairs-IsBefore :
    (evidence : List EvidenceRecord) (left right : EvidenceRecord)
    → Memᴰ (left, right) (pairs evidence)
    → IsBefore evidence left right
pairs-IsBefore [] left right m = elim m [ ]
pairs-IsBefore (x ∷ rest) left right m = elim (Memᴰ.append_cases (map (λ r. (x, r)) rest) m) [
  | inl n ↦
      let r = (mem-map (λ r. (x, r))).0 n in
      let s = split_of_mem r.0 rest r.1 in
      record {
        front = [];
        middle = s.0;
        back = s.1;
        is_split = λ i.
            (ap (λ (p : EvidenceRecord × EvidenceRecord). p.0) r.2 i)
            ∷ (s.2 ∙ ap (λ (p : EvidenceRecord × EvidenceRecord). s.0 ++ p.1 ∷ s.1) r.2) i;
      }
  | inr n ↦
      let b = pairs-IsBefore rest left right n in
      record {
        front = x ∷ b.front;
        middle = b.middle;
        back = b.back;
        is_split = ap (λ z. x ∷ z) b.is_split;
      }
]

split-pairs :
    (front : List EvidenceRecord) (left : EvidenceRecord) (middle : List EvidenceRecord)
    (right : EvidenceRecord) (back : List EvidenceRecord)
    → Memᴰ (left, right) (pairs (front ++ left ∷ (middle ++ right ∷ back)))
split-pairs [] left middle right back =
    Memᴰ.append_left (pairs (middle ++ right ∷ back))
      ((mem-map (λ r. (left, r))).1 (right, Memᴰ.append_right middle (Memᴰ.head refl), refl))
split-pairs (x ∷ front) left middle right back =
    Memᴰ.append_right (map (λ r. (x, r)) (front ++ left ∷ (middle ++ right ∷ back)))
      (split-pairs front left middle right back)

pub mem-pairs_iff :
    (evidence : List EvidenceRecord) (left right : EvidenceRecord)
    → Memᴰ (left, right) (pairs evidence) ↔ IsBefore evidence left right
mem-pairs_iff evidence left right = (
  pairs-IsBefore evidence left right,
  λ b.
      subst (λ z. Memᴰ (left, right) (pairs z)) (sym b.is_split)
        (split-pairs b.front left b.middle right b.back),
)

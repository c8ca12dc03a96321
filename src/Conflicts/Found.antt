-- ===== src/Conflicts/Found.antt =====
-- compiler/contradictions.rs: what the detection reports.
use mathlib.Core.List.{Memᴰ}
use mathlib.Core.List.Memᴰ
use agent_receipts.Prelude.{
  ◌≡◌, refl, sym, ap, ◌∙◌, ◌↔◌, ◌⊎◌, inl, inr, true, false, String, List, [], ◌∷◌, Option, none,
  some, mem-filter_map, contains, contains_iff, mem-sort_by, text_le, if◌then◌else◌, Bool-cases,
}
use agent_receipts.Schema.{EvidenceRecord, Contradiction}
use agent_receipts.Conflicts.Disagree.{IsConflict, is_conflict_iff}
use agent_receipts.Conflicts.Pairs.{IsBefore, mem-pairs_iff}
use agent_receipts.Conflicts.Detect.{
  is_conflict, contradiction_id, contradiction_of, pairs, emit, conflicts,
  detect_auto_contradictions,
}

emit-mem :
    (seen : List String) (cs : List Contradiction) {c : Contradiction}
    → Memᴰ c (emit seen cs)
    → Memᴰ c cs
unfolding emit
emit-mem seen [] m = m
emit-mem seen (d ∷ cs) {c} m = elim (Bool-cases (contains seen d.id)) [
  | inl e ↦ Memᴰ.tail (emit-mem seen cs (rw (e, emit) at m))
  | inr e ↦ elim (Memᴰ.cases_cons (kept e)) [
    | inl q ↦ Memᴰ.head q
    | inr n ↦ Memᴰ.tail (emit-mem (d.id ∷ seen) cs n)
  ]
]
  where
    kept : contains seen d.id ≡ false → Memᴰ c (d ∷ emit (d.id ∷ seen) cs)
    kept e = rw (e, emit) at m

-- Each id is emitted, unless it was emitted before.
abbrev Emitted : List String → List Contradiction → String → Type 0
Emitted seen cs id = Memᴰ id seen ⊎ ((c : Contradiction) × Memᴰ c (emit seen cs) × (c.id ≡ id))

emit-Emitted :
    (seen : List String) (cs : List Contradiction) {c : Contradiction}
    → Memᴰ c cs
    → Emitted seen cs c.id
unfolding emit
emit-Emitted seen [] m = elim m [ ]
emit-Emitted seen (d ∷ cs) {c} m = elim (Bool-cases (contains seen d.id)) [
  | inl e ↦ elim (Memᴰ.cases_cons m) [
    | inl q ↦ inl (Memᴰ.cast (ap (λ (z : Contradiction). z.id) q) ((contains_iff seen d.id).0 e))
    | inr n ↦ rw (e, emit) (emit-Emitted seen cs n)
  ]
  | inr e ↦
      rw (e, emit)
        (elim (Memᴰ.cases_cons m) [
          | inl q ↦ inr (d, Memᴰ.head refl, sym (ap (λ (z : Contradiction). z.id) q))
          | inr n ↦ elim (emit-Emitted (d.id ∷ seen) cs n) [
            | inl k ↦ elim (Memᴰ.cases_cons k) [
              | inl q ↦ inr (d, Memᴰ.head refl, sym q)
              | inr j ↦ inl j
            ]
            | inr r ↦ inr (r.0, Memᴰ.tail r.1, r.2)
          ]
        ])
]

mem-conflicts :
    (evidence : List EvidenceRecord) (c : Contradiction)
    → Memᴰ c (conflicts evidence) ↔ (
        (pair : EvidenceRecord × EvidenceRecord) × Memᴰ pair (pairs evidence)
        × (is_conflict pair.0 pair.1 ≡ true)
        × (contradiction_of pair.0 pair.1 ≡ c))
unfolding conflicts
mem-conflicts evidence c = (
  λ m. let r = (mem-filter_map report).0 m in let k = reported r.0 r.2 in (r.0, r.1, k.0, k.1),
  λ h. (mem-filter_map report).1 (h.0, h.1, rw (h.2) (ap some h.3)),
)
  where
    report : EvidenceRecord × EvidenceRecord → Option Contradiction
    report pair = if is_conflict pair.0 pair.1 then some (contradiction_of pair.0 pair.1) else none

    reported :
        (pair : EvidenceRecord × EvidenceRecord)
        → report pair ≡ some c
        → (is_conflict pair.0 pair.1 ≡ true) × (contradiction_of pair.0 pair.1 ≡ c)
    reported pair h = elim (Bool-cases (is_conflict pair.0 pair.1)) [
      | inl e ↦ (e, cc (rw e at h))
      | inr e ↦ absurd (cc (rw e at h))
    ]

-- Two records of the evidence, the earlier one first, that are in conflict, and the contradiction
-- that is made of them.
pub record IsReported (evidence : List EvidenceRecord) (c : Contradiction) : Type 0 where
  pub left : EvidenceRecord
  pub right : EvidenceRecord
  pub before : IsBefore evidence left right
  pub in_conflict : IsConflict left right
  pub made : contradiction_of left right ≡ c

-- Each contradiction that is detected was made of two records in conflict, one before the other; and
-- any two records in conflict are reported, by a contradiction with the id of the two.
pub detect_auto_contradictions_iff :
    (evidence : List EvidenceRecord)
    → ((c : Contradiction) → Memᴰ c (detect_auto_contradictions evidence) → IsReported evidence c)
      × ((left right : EvidenceRecord)
          → IsBefore evidence left right
          → IsConflict left right
          → (c : Contradiction) × Memᴰ c (detect_auto_contradictions evidence)
            × (c.id ≡ contradiction_id left.id right.id))
unfolding detect_auto_contradictions
detect_auto_contradictions_iff evidence = (sound, complete)
  where
    sound :
        (c : Contradiction) → Memᴰ c (detect_auto_contradictions evidence) → IsReported evidence c
    sound c m =
        let n =
          emit-mem [] (conflicts evidence)
            ((mem-sort_by (λ a b. text_le a.id b.id) (emit [] (conflicts evidence))).0 m) in
        let r = (mem-conflicts evidence c).0 n in
        record {
          left = r.0.0;
          right = r.0.1;
          before = (mem-pairs_iff evidence r.0.0 r.0.1).0 r.1;
          in_conflict = (is_conflict_iff r.0.0 r.0.1).0 r.2;
          made = r.3;
        }

    complete :
        (left right : EvidenceRecord)
        → IsBefore evidence left right
        → IsConflict left right
        → (c : Contradiction) × Memᴰ c (detect_auto_contradictions evidence)
          × (c.id ≡ contradiction_id left.id right.id)
    complete left right b h =
        let n = (mem-conflicts evidence (contradiction_of left right)).1 (
          (left, right),
          (mem-pairs_iff evidence left right).1 b,
          (is_conflict_iff left right).1 h,
          refl,
        ) in
        elim (emit-Emitted [] (conflicts evidence) n) [
          | inl k ↦ elim k [ ]
          | inr r ↦ (
            r.0,
            (mem-sort_by (λ a b. text_le a.id b.id) (emit [] (conflicts evidence))).1 r.1,
            r.2 ∙ (unfold contradiction_of in refl),
          )
        ]

-- ===== src/Conflicts/Disagree.antt =====
-- compiler/contradictions.rs: which two records are in conflict.
use mathlib.Core.List.{Memᴰ}
use mathlib.Core.List.Memᴰ
use agent_receipts.Prelude.{
  ◌≡◌, refl, sym, ap, ◌∙◌, ◌≢◌, ◌↔◌, ◌⊎◌, inl, inr, Bool, true, false, not, ◌||◌, ◌&&◌, String,
  List, [], ◌∷◌, Option, none, some, ◌==◌, arith, eq_iff, filter, mem-filter, contains,
  contains_iff, is_empty, mem-sort_by, text_le, Bool-cases, Option-cases, or_iff, not_iff,
}
use agent_receipts.Schema.{EvidenceRecord}
use agent_receipts.Conflicts.Tokens.{tokens, is_overlap_below_half}
use agent_receipts.Conflicts.Detect.{
  is_direct, direct_source_set, shared_sources, distinct_texts, different_attribution, both_differ,
  is_harvested_prose, is_infrastructure_kind, is_non_contradicting_pair, is_conflict,
}

distinct_texts-mem : (ids : List String) {id : String} → Memᴰ id (distinct_texts ids) → Memᴰ id ids
unfolding distinct_texts
distinct_texts-mem [] m = m
distinct_texts-mem (x ∷ xs) {id} m = elim (Bool-cases (contains xs x)) [
  | inl e ↦ Memᴰ.tail (distinct_texts-mem xs (rw (e, distinct_texts) at m))
  | inr e ↦ elim (Memᴰ.cases_cons (kept e)) [
    | inl q ↦ Memᴰ.head q
    | inr n ↦ Memᴰ.tail (distinct_texts-mem xs n)
  ]
]
  where
    kept : contains xs x ≡ false → Memᴰ id (x ∷ distinct_texts xs)
    kept e = rw (e, distinct_texts) at m

-- A direct source that both records cite.
abbrev pub SharesSource : EvidenceRecord → EvidenceRecord → Type 0
SharesSource left right =
    (source_id : String) × (is_direct source_id ≡ true)
    × Memᴰ source_id left.source_ids
    × Memᴰ source_id right.source_ids

some_member : {A : Type 0} (xs : List A) → is_empty xs ≡ false → (x : A) × Memᴰ x xs
some_member [] h = absurd (cc)
some_member (x ∷ xs) h = (x, Memᴰ.head refl)

shared_sources-SharesSource :
    (left right : EvidenceRecord)
    → is_empty (shared_sources left right) ≡ false
    → SharesSource left right
unfolding shared_sources direct_source_set
shared_sources-SharesSource left right h =
    let s = some_member (shared_sources left right) h in
    let m = distinct_texts-mem _ (
      (mem-sort_by text_le
          (distinct_texts (filter (contains (direct_source_set right)) (direct_source_set left)))).0
        s.1) in
    let a = (mem-filter (contains (direct_source_set right))).0 m in
    let l = (mem-filter is_direct).0 a.0 in
    let r = (mem-filter is_direct).0 ((contains_iff (direct_source_set right) s.0).0 a.1) in
    (s.0, l.1, l.0, r.0)

-- What stays of a list without repetitions is all of it.
mem-distinct_texts : (ids : List String) {id : String} → Memᴰ id ids → Memᴰ id (distinct_texts ids)
unfolding distinct_texts
mem-distinct_texts [] m = m
mem-distinct_texts (x ∷ xs) {id} m = elim (Bool-cases (contains xs x)) [
  | inl e ↦
      rw (e, distinct_texts)
        (mem-distinct_texts xs
          (elim (Memᴰ.cases_cons m) [ inl q ↦ Memᴰ.cast q ((contains_iff xs x).0 e) | inr n ↦ n ]))
  | inr e ↦
      rw (e, distinct_texts)
        (elim (Memᴰ.cases_cons m) [
          | inl q ↦ Memᴰ.head q
          | inr n ↦ Memᴰ.tail (mem-distinct_texts xs n)
        ])
]

nonempty : {A : Type 0} {xs : List A} {x : A} → Memᴰ x xs → is_empty xs ≡ false
nonempty (Memᴰ.head q) = refl
nonempty (Memᴰ.tail m) = refl

SharesSource-shared_sources :
    (left right : EvidenceRecord)
    → SharesSource left right
    → (is_empty (direct_source_set left) ≡ false)
      × (is_empty (direct_source_set right) ≡ false)
      × (is_empty (shared_sources left right) ≡ false)
unfolding shared_sources direct_source_set
SharesSource-shared_sources left right s =
    let l = (mem-filter is_direct).1 (s.2, s.1) in
    let r = (mem-filter is_direct).1 (s.3, s.1) in
    (
      nonempty l,
      nonempty r,
      nonempty (
          (mem-sort_by text_le _).1 (
            mem-distinct_texts _ (
              (mem-filter (contains (direct_source_set right))).1
                (l, (contains_iff (direct_source_set right) s.0).1 r)))),
    )

-- Two values that are given, and differ.
pub record Differ (a b : Option String) : Type 0 where
  pub left : String
  pub right : String
  pub left_is : a ≡ some left
  pub right_is : b ≡ some right
  pub differ : left ≢ right

equal_iff : (a b : String) → ((a == b) ≡ false) ↔ (a ≢ b)
equal_iff a b = (
  λ h e. cc (h, (eq_iff a b).1 e),
  λ h. elim (Bool-cases (a == b)) [ inl e ↦ absurd (h ((eq_iff a b).0 e)) | inr e ↦ e ],
)

both_differ_iff : (a b : Option String) → (both_differ a b ≡ true) ↔ Differ a b
both_differ_iff none b = (λ h. absurd (cc h), λ d. absurd (cc (d.left_is)))
both_differ_iff (some x) none = (λ h. absurd (cc h), λ d. absurd (cc (d.right_is)))
both_differ_iff (some x) (some y) = (
  λ h. record {
    left = x;
    right = y;
    left_is = refl;
    right_is = refl;
    differ = (equal_iff x y).0 ((not_iff (x == y)).0 h);
  },
  λ d.
      let p : d.left ≡ x = cc (d.left_is) in
      let q : d.right ≡ y = cc (d.right_is) in
      (not_iff (x == y)).1 ((equal_iff x y).1 (λ e. d.differ (p ∙ e ∙ sym q))),
)

-- Two records that disagree about a source: different workers wrote them, they cite a common direct
-- source, neither is prose that was harvested or a record of the run itself, their kinds may
-- contradict each other, and their summaries differ, for one kind in more than half of the words.
pub record IsConflict (left right : EvidenceRecord) : Type 0 where
  pub diverges : left.summary ≢ right.summary
  pub not_prose :
      (left.rationale ≢ some "harvested-from-prose")
      × (right.rationale ≢ some "harvested-from-prose")
  pub left_kind :
      (left.kind ≢ "subagent-session") × (left.kind ≢ "blocker") × (left.kind ≢ "objective")
  pub right_kind :
      (right.kind ≢ "subagent-session") × (right.kind ≢ "blocker") × (right.kind ≢ "objective")
  pub exclusive : is_non_contradicting_pair left.kind right.kind ≡ false
  pub shares : SharesSource left right
  pub attributed : Differ left.agent_id right.agent_id ⊎ Differ left.lane right.lane
  pub far_apart :
      (left.kind ≢ right.kind)
      ⊎ (is_overlap_below_half (tokens left.summary) (tokens right.summary) ≡ true)

prose_iff :
    (r : EvidenceRecord)
    → (is_harvested_prose r ≡ false) ↔ (r.rationale ≢ some "harvested-from-prose")
unfolding is_harvested_prose
prose_iff r = elim (Option-cases r.rationale) [
  | inl e ↦ rw e (λ h q. cc q, λ h. refl)
  | inr e ↦ rw (e.1) (
    λ h q. (equal_iff e.0 "harvested-from-prose").0 h (cc q),
    λ h. (equal_iff e.0 "harvested-from-prose").1 (λ q. h (ap some q)),
  )
]

infrastructure_iff :
    (kind : String)
    → (is_infrastructure_kind kind ≡ false)
      ↔ ((kind ≢ "subagent-session") × (kind ≢ "blocker") × (kind ≢ "objective"))
unfolding is_infrastructure_kind
infrastructure_iff kind = (
  λ h.
      let k : ((kind == "subagent-session") ≡ false)
          × ((kind == "blocker") ≡ false)
          × ((kind == "objective") ≡ false) =
        ground (arith, h) in
      ((equal_iff _ _).0 (k.0), (equal_iff _ _).0 (k.1), (equal_iff _ _).0 (k.2)),
  λ h.
      let a = (equal_iff kind "subagent-session").1 (h.0) in
      let b = (equal_iff kind "blocker").1 (h.1) in
      let c = (equal_iff kind "objective").1 (h.2) in ground (arith, a, b, c),
)

tests_iff :
    (a b c d e f g h i k l : Bool)
    → ((not a && not (b || c) && not (d || e) && not f && not g && not h && not i && k && l) ≡ true)
      ↔ ((a ≡ false)
          × ((b ≡ false) × (c ≡ false))
          × ((d ≡ false) × (e ≡ false))
          × (f ≡ false)
          × (g ≡ false)
          × (h ≡ false)
          × (i ≡ false)
          × (k ≡ true)
          × (l ≡ true))
tests_iff a b c d e f g h i k l = (λ t. ground (arith, t), λ t. ground (arith, t))

attributed_iff :
    (left right : EvidenceRecord)
    → (different_attribution left right ≡ true)
      ↔ (Differ left.agent_id right.agent_id ⊎ Differ left.lane right.lane)
unfolding different_attribution
attributed_iff left right = (
  λ h. elim ((or_iff _ _).0 h) [
    | inl a ↦ inl ((both_differ_iff left.agent_id right.agent_id).0 a)
    | inr a ↦ inr ((both_differ_iff left.lane right.lane).0 a)
  ],
  λ h. (or_iff _ _).1 (elim h [
    | inl a ↦ inl ((both_differ_iff left.agent_id right.agent_id).1 a)
    | inr a ↦ inr ((both_differ_iff left.lane right.lane).1 a)
  ]),
)

pub is_conflict_iff :
    (left right : EvidenceRecord) → (is_conflict left right ≡ true) ↔ IsConflict left right
unfolding is_conflict
is_conflict_iff left right = (
  λ h.
      let k = (tests_iff _ _ _ _ _ _ _ _ _ _ _).0 h in
      record {
        diverges = (equal_iff _ _).0 (k.0);
        not_prose = ((prose_iff left).0 (k.1.0), (prose_iff right).0 (k.1.1));
        left_kind = (infrastructure_iff left.kind).0 (k.2.0);
        right_kind = (infrastructure_iff right.kind).0 (k.2.1);
        exclusive = k.3;
        shares = shared_sources-SharesSource left right (k.6);
        attributed = (attributed_iff left right).0 (k.7);
        far_apart = elim ((or_iff _ _).0 (k.8)) [
          | inl e ↦ inl ((equal_iff _ _).0 ((not_iff _).0 e))
          | inr e ↦ inr e
        ];
      },
  λ c.
      let s = SharesSource-shared_sources left right c.shares in
      (tests_iff _ _ _ _ _ _ _ _ _ _ _).1 (
        (equal_iff _ _).1 c.diverges,
        ((prose_iff left).1 (c.not_prose.0), (prose_iff right).1 (c.not_prose.1)),
        (
          (infrastructure_iff left.kind).1 c.left_kind,
          (infrastructure_iff right.kind).1 c.right_kind,
        ),
        c.exclusive,
        s.0,
        s.1,
        s.2,
        (attributed_iff left right).1 c.attributed,
        (or_iff _ _).1 (elim c.far_apart [
          | inl d ↦ inl ((not_iff _).1 ((equal_iff _ _).1 d))
          | inr o ↦ inr o
        ]),
      ),
)

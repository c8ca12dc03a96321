-- ===== src/Resolutions/Tampering.antt =====
-- compiler/resolutions.rs: a verified journal cannot be edited under its last hash.
use agent_receipts.Prelude.{
  ◌≡◌, sym, ap, ◌∙◌, ◌≢◌, ◌⊎◌, inl, inr, String, List, Option, some, ok, length, unwrap_or,
  String-discrete,
}
use agent_receipts.Journal.Hash.{genesis, as_bytes, fnv1a_hash}
use agent_receipts.Journal.Chain.{IsLinked-unique, chain_head, chain_head_lem}
use agent_receipts.Resolutions.Types.{ResolutionRecord}
use agent_receipts.Resolutions.Store.{
  with_record_hash, resolution_preimage, resolution_content_hash, load_verified_resolutions,
}
use agent_receipts.Resolutions.Append.{IsSerde, load_verified_resolutions_iff}

-- Two texts with one hash.
abbrev pub HashCollision : Type 0
HashCollision =
    (s : String) × (t : String) × (s ≢ t) × (fnv1a_hash (as_bytes s) ≡ fnv1a_hash (as_bytes t))

module _ (to_string : ResolutionRecord → Option String)
    (from_str : String → Option ResolutionRecord) (serde : IsSerde to_string from_str) where
  -- The hashed text tells everything of the record but its hash.
  resolution_preimage-eq :
      (r s : ResolutionRecord)
      → resolution_preimage to_string from_str r ≡ resolution_preimage to_string from_str s
      → with_record_hash "" r ≡ with_record_hash "" s
  unfolding resolution_preimage
  resolution_preimage-eq r s e =
      let p = serde.prints (with_record_hash "" r) in
      let q = serde.prints (with_record_hash "" s) in
      let one_text : p.0 ≡ q.0 =
        sym (ap (λ o. unwrap_or o "") p.1) ∙ e ∙ ap (λ o. unwrap_or o "") q.1 in
      let left = serde.reads_back _ p.0 p.1 in
      let right = serde.reads_back _ q.0 q.1 in some_inj (sym left ∙ ap from_str one_text ∙ right)
    where
      some_inj : {a b : ResolutionRecord} → some a ≡ some b → a ≡ b
      some_inj h = cc h

  same_record :
      (r s : ResolutionRecord)
      → r.record_hash ≡ resolution_content_hash to_string from_str r
      → s.record_hash ≡ resolution_content_hash to_string from_str s
      → r.record_hash ≡ s.record_hash
      → (r ≡ s) ⊎ HashCollision
  unfolding resolution_content_hash
  same_record r s f g e =
      elim (String-discrete (resolution_preimage to_string from_str r)
        (resolution_preimage to_string from_str s)) [
          | yes p ↦ inl (λ i. with_record_hash (e i) (resolution_preimage-eq r s p i))
          | no n ↦ inr (_, _, n, sym f ∙ e ∙ g)
        ]

  -- Tamper evidence: two journals that both verify, with as many records and the same last hash,
  -- hold the same records, unless they exhibit two different texts with one FNV-1a hash.
  pub load_verified_resolutions_unique :
      (lines other : List String) (rs ss : List ResolutionRecord)
      → load_verified_resolutions to_string from_str lines ≡ ok rs
      → load_verified_resolutions to_string from_str other ≡ ok ss
      → length rs ≡ length ss
      → chain_head (λ r. r.record_hash) rs ≡ chain_head (λ r. r.record_hash) ss
      → (rs ≡ ss) ⊎ HashCollision
  load_verified_resolutions_unique lines other rs ss f g n e =
      let hash = resolution_content_hash to_string from_str in
      let head_is = chain_head_lem (λ (r : ResolutionRecord). r.record_hash) in
      elim (IsLinked-unique (λ (r : ResolutionRecord). r.id) hash (λ r. r.prev_record_hash)
        (λ r. r.record_hash) same_record genesis genesis rs ss
        ((load_verified_resolutions_iff to_string from_str lines rs).0 f).1
        ((load_verified_resolutions_iff to_string from_str other ss).0 g).1 n
        (head_is rs ∙ e ∙ sym (head_is ss))) [ inl k ↦ inl k.1 | inr c ↦ inr c ]

-- ===== src/Journal/Chain.antt =====
-- Chains of records: each holds its own hash and that of the record before it.
use mathlib.Core.Option
use agent_receipts.Prelude.{
  ℕ, suc, ◌+◌, ◌≡◌, refl, sym, ap, ◌∙◌, ◌↔◌, ◌⊎◌, inl, inr, String, List, [], ◌∷◌, ◌++◌, arith,
  eq_iff, ◌==◌, Result, ok, ◌>>◌, ensure, ensure_iff, >>-ok_iff, unwrap_or, get_last?, length,
}
use agent_receipts.Journal.Hash.{genesis}

pub data ChainError : Type 0 where
  hash_mismatch link_mismatch : ℕ → String → ChainError

module _ {R : Type 0} (record_hash : R → String) where
  -- The hash that the next record must name.
  abbrev pub head_from : String → List R → String
  head_from prev [] = prev
  head_from prev (r ∷ rs) = head_from (record_hash r) rs

  -- `existing.last().map(record_hash).unwrap_or(GENESIS)`
  abbrev pub chain_head : List R → String
  chain_head rs = unwrap_or (Option.map record_hash (get_last? rs)) genesis

  head_from-chain_head :
      (prev : String) (r : R) (rs : List R) → head_from prev (r ∷ rs) ≡ chain_head (r ∷ rs)
  head_from-chain_head prev r [] = refl
  head_from-chain_head prev r (s ∷ rs) = head_from-chain_head (record_hash r) s rs

  pub chain_head_lem : (rs : List R) → head_from genesis rs ≡ chain_head rs
  chain_head_lem [] = refl
  chain_head_lem (r ∷ rs) = head_from-chain_head genesis r rs

module _ {R : Type 0} (id content_hash prev_hash record_hash : R → String) where
  -- The loop over the records, from an index and the hash that the next one must name.
  unfoldable pub verify_chain : ℕ → String → List R → Result ChainError (Unit {0})
  verify_chain index prev [] = ok tt
  verify_chain index prev (r ∷ rs) =
      let rest = verify_chain (suc index) (record_hash r) rs in
      ensure (record_hash r == content_hash r) (hash_mismatch (index + 1) (id r))
      >> (ensure (prev_hash r == prev) (link_mismatch (index + 1) (id r)) >> rest)

  -- Every record holds the hash of its content, and names the record before it.
  abbrev pub IsLinked : String → List R → Type 0
  IsLinked prev [] = Unit
  IsLinked prev (r ∷ rs) =
      (record_hash r ≡ content_hash r) × (prev_hash r ≡ prev) × IsLinked (record_hash r) rs

  pub verify_chain_iff :
      (index : ℕ) (prev : String) (rs : List R)
      → (verify_chain index prev rs ≡ ok tt) ↔ IsLinked prev rs
  unfolding verify_chain
  verify_chain_iff index prev [] = (λ h. tt, λ h. refl)
  verify_chain_iff index prev (r ∷ rs) = (
    λ h.
        let a = (>>-ok_iff _ _).0 h in
        let b = (>>-ok_iff _ _).0 a.1 in
        (
          (eq_iff _ _).0 ((ensure_iff _ _).0 a.0),
          (eq_iff _ _).0 ((ensure_iff _ _).0 b.0),
          (verify_chain_iff (suc index) (record_hash r) rs).0 b.1,
        ),
    λ h. (>>-ok_iff _ _).1 (
      (ensure_iff _ _).1 ((eq_iff _ _).1 h.0),
      (>>-ok_iff _ _).1 (
        (ensure_iff _ _).1 ((eq_iff _ _).1 h.1),
        (verify_chain_iff (suc index) (record_hash r) rs).1 h.2,
      ),
    ),
  )

  -- A record that names the head extends the chain.
  pub append-IsLinked :
      (prev : String) (rs : List R) (r : R)
      → IsLinked prev rs
      → record_hash r ≡ content_hash r
      → prev_hash r ≡ head_from record_hash prev rs
      → IsLinked prev (rs ++ r ∷ [])
  append-IsLinked prev [] r h e p = (e, p, tt)
  append-IsLinked prev (s ∷ rs) r h e p = (h.0, h.1, append-IsLinked (record_hash s) rs r h.2 e p)

  -- Two chains of one length with one head are equal, unless two records share a hash: `same` says
  -- what follows when two records of the chains have equal hashes.
  pub IsLinked-unique :
      {C : Type 0}
      (same : (r s : R)
        → record_hash r ≡ content_hash r
        → record_hash s ≡ content_hash s
        → record_hash r ≡ record_hash s
        → (r ≡ s) ⊎ C)
      (p q : String) (rs ss : List R)
      → IsLinked p rs
      → IsLinked q ss
      → length rs ≡ length ss
      → head_from record_hash p rs ≡ head_from record_hash q ss
      → ((p ≡ q) × (rs ≡ ss)) ⊎ C
  IsLinked-unique same p q [] [] f g n e = inl (e, refl)
  IsLinked-unique same p q [] (s ∷ ss) f g n e = absurd (cc)
  IsLinked-unique same p q (r ∷ rs) [] f g n e = absurd (cc)
  IsLinked-unique same p q (r ∷ rs) (s ∷ ss) f g n e =
      elim (IsLinked-unique same (record_hash r) (record_hash s) rs ss f.2 g.2 (omega (arith, n))
        e) [
          | inr c ↦ inr c
          | inl t ↦ elim (same r s f.0 g.0 t.0) [
            | inr c ↦ inr c
            | inl u ↦ inl (sym f.1 ∙ ap prev_hash u ∙ g.1, λ i. u i ∷ t.1 i)
          ]
        ]

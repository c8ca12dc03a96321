-- ===== src/Resolutions/Append.antt =====
-- compiler/resolutions.rs: what an append leaves behind, and what loading then finds.
use text.Mathlib.TextLemmas.{nil-append}
use agent_receipts.Prelude.{
  ℕ, suc, ◌+◌, ◌≡◌, refl, subst, sym, ap, ◌∙◌, ◌↔◌, ◌⊎◌, inl, inr, Bool, true, false, String, List,
  [], ◌∷◌, ◌++◌, Option, some, Result, ok, err, >>=-eq-ok, ok_or, length, decimal4, format,
  is_blank, Bool-cases,
}
use agent_receipts.Journal.Hash.{genesis}
use agent_receipts.Journal.Lock.{acquire}
use agent_receipts.Journal.Chain.{
  verify_chain, verify_chain_iff, IsLinked, chain_head_lem, append-IsLinked,
}
use agent_receipts.Resolutions.Types.{ResolutionRecord}
use agent_receipts.Resolutions.Store.{
  ResolutionError, JournalFile, lines_of, complete, Disk, write_record, not_a_resolution,
  resolution_preimage, resolution_content_hash, load_lines, load_resolutions, verify_resolutions,
  load_verified_resolutions, linked, prepare, append_resolution,
}

-- What the journal relies on of `serde_json`: a resolution prints as one line that is not blank,
-- and the line reads back as that resolution.
pub record IsSerde (to_string : ResolutionRecord → Option String)
    (from_str : String → Option ResolutionRecord) : Type 0 where
  pub prints : (r : ResolutionRecord) → (t : String) × (to_string r ≡ some t)
  pub is_a_line : (r : ResolutionRecord) (t : String) → to_string r ≡ some t → is_blank t ≡ false
  pub reads_back : (r : ResolutionRecord) (t : String) → to_string r ≡ some t → from_str t ≡ some r

pub Result-cases :
    {E A : Type 0} (m : Result E A) → ((e : E) × (m ≡ err e)) ⊎ ((a : A) × (m ≡ ok a))
Result-cases (err e) = inl (e, refl)
Result-cases (ok a) = inr (a, refl)

module _ (to_string : ResolutionRecord → Option String)
    (from_str : String → Option ResolutionRecord) where
  -- The chain of the journal.
  abbrev pub IsChained : List ResolutionRecord → Type 0
  IsChained =
      IsLinked (λ r. r.id) (resolution_content_hash to_string from_str) (λ r. r.prev_record_hash)
        (λ r. r.record_hash) genesis

  load_lines-append :
      (index : ℕ) (lines : List String) (rs : List ResolutionRecord) (t : String)
      (r : ResolutionRecord)
      → load_lines to_string from_str index lines ≡ ok rs
      → is_blank t ≡ false
      → from_str t ≡ some r
      → load_lines to_string from_str index (lines ++ t ∷ []) ≡ ok (rs ++ r ∷ [])
  unfolding load_lines
  load_lines-append index [] rs t r h b f =
      let e : Path (List ResolutionRecord) [] rs = cc h in rw (b, f) (ap (λ z. ok (z ++ r ∷ [])) e)
  load_lines-append index (line ∷ lines) rs t r h b f = elim (Bool-cases (is_blank line)) [
    | inl e ↦ rw e (load_lines-append (suc index) lines rs t r (rw e at h) b f)
    | inr e ↦
        let p = >>=-eq-ok (ok_or (from_str line) (not_a_resolution (index + 1))) _ (rw e at h) in
        let q = >>=-eq-ok (load_lines to_string from_str (suc index) lines) _ p.2 in
        let same : Path (List ResolutionRecord) (p.0 ∷ q.0) rs = cc (q.2) in
        rw (e, p.1, load_lines-append (suc index) lines q.0 t r q.1 b f)
          (ap (λ z. ok (z ++ r ∷ [])) same)
  ]

  load_resolutions-append :
      (lines : List String) (rs : List ResolutionRecord) (t : String) (r : ResolutionRecord)
      → load_resolutions to_string from_str lines ≡ ok rs
      → is_blank t ≡ false
      → from_str t ≡ some r
      → load_resolutions to_string from_str (lines ++ t ∷ []) ≡ ok (rs ++ r ∷ [])
  unfolding load_resolutions
  load_resolutions-append = load_lines-append 0

  verify_resolutions_iff :
      (records rs : List ResolutionRecord)
      → (verify_resolutions to_string from_str records ≡ ok rs)
        ↔ ((records ≡ rs) × IsChained records)
  unfolding verify_resolutions
  verify_resolutions_iff records rs =
      let chain =
        verify_chain_iff (λ r. r.id) (resolution_content_hash to_string from_str)
          (λ r. r.prev_record_hash) (λ r. r.record_hash) 0 genesis records in
      elim (Result-cases (
        verify_chain (λ r. r.id) (resolution_content_hash to_string from_str)
          (λ r. r.prev_record_hash) (λ r. r.record_hash) 0 genesis records)) [
            | inl a ↦
                rw (a.1, verify_resolutions) (λ h. absurd (cc), λ h. absurd (cc (chain.1 h.1, a.1)))
            | inr b ↦ rw (b.1, verify_resolutions) (λ h. (cc h, chain.0 (b.1)), λ h. cc (h.0))
          ]

  -- Loading with verification: the lines parse, and the records are chained.
  pub load_verified_resolutions_iff :
      (lines : List String) (rs : List ResolutionRecord)
      → (load_verified_resolutions to_string from_str lines ≡ ok rs)
        ↔ ((load_resolutions to_string from_str lines ≡ ok rs) × IsChained rs)
  unfolding load_verified_resolutions
  load_verified_resolutions_iff lines rs = (
    λ h.
        let p =
          >>=-eq-ok (load_resolutions to_string from_str lines)
            (verify_resolutions to_string from_str) h in
        let v = (verify_resolutions_iff p.0 rs).0 p.2 in (p.1 ∙ ap ok v.0, subst IsChained v.0 v.1),
    λ h. rw (h.0) ((verify_resolutions_iff rs rs).1 (refl, h.1)),
  )

  linked-hash :
      (existing : List ResolutionRecord) (r : ResolutionRecord)
      → (linked to_string from_str existing r).record_hash
        ≡ resolution_content_hash to_string from_str (linked to_string from_str existing r)
  unfolding linked resolution_content_hash resolution_preimage
  linked-hash existing r = refl

  -- The record that is written extends the chain.
  linked-IsChained :
      (existing : List ResolutionRecord) (r : ResolutionRecord)
      → IsChained existing
      → IsChained (existing ++ linked to_string from_str existing r ∷ [])
  linked-IsChained existing r h =
      append-IsLinked (λ r. r.id) (resolution_content_hash to_string from_str)
        (λ r. r.prev_record_hash) (λ r. r.record_hash) genesis existing
        (linked to_string from_str existing r) h (linked-hash existing r)
        (unfold linked in sym (chain_head_lem (λ r. r.record_hash) existing))

  -- The file system lets an append through: what it writes is the printed record.
  pub record IsWorking (disk : Disk) : Type 0 where
    pub makes : disk.makes_dir ≡ true
    pub opened : disk.opens ≡ true
    pub writes :
        (r : ResolutionRecord) (t : String) → to_string r ≡ some t → disk.write r ≡ complete t

  -- What an append that gets the lock writes behind a verified journal.
  pub record IsRecorded (lines : List String) (rs : List ResolutionRecord) (r : ResolutionRecord)
      (after : Result ResolutionError ResolutionRecord × JournalFile) : Type 0 where
    pub written : ResolutionRecord
    pub returned : after.0 ≡ ok written
    pub whole : after.1.tail ≡ ""
    pub verified :
        load_verified_resolutions to_string from_str (lines_of after.1) ≡ ok (rs ++ written ∷ [])
    pub numbered : written.id ≡ format ("res-" ∷ decimal4 (length rs + 1) ∷ [])
    pub same_target : written.target_id ≡ r.target_id
    pub same_reason : written.reason ≡ r.reason
    pub same_cite : written.cite ≡ r.cite

  prepare-loaded :
      (lines : List String) (rs : List ResolutionRecord) (r : ResolutionRecord)
      → load_resolutions to_string from_str lines ≡ ok rs
      → prepare to_string from_str lines r ≡ ok (linked to_string from_str rs r)
  unfolding prepare
  prepare-loaded lines rs r h = rw h refl

  write_record-complete :
      (disk : Disk) (lines : List String) (r : ResolutionRecord) (t : String)
      → disk.opens ≡ true
      → disk.write r ≡ complete t
      → write_record disk (record { lines = lines; tail = "" }) r
        ≡ (ok r, record { lines = lines ++ t ∷ []; tail = "" })
  unfolding write_record
  write_record-complete disk lines r t o w = rw (o, w, nil-append t) refl

  -- Appending under the lock to a verified journal of whole lines returns a record with the target,
  -- the reason and the citation that it was given and the next number, and loading the journal then
  -- verifies and finds the old records with the new one behind them. The directory, the file and the
  -- writes do not fail.
  pub append-load_verified_resolutions :
      IsSerde to_string from_str
      → (disk : Disk) (create_new : ℕ → Bool) (lines : List String) (rs : List ResolutionRecord)
        (r : ResolutionRecord)
      → IsWorking disk
      → acquire create_new ≡ true
      → load_verified_resolutions to_string from_str lines ≡ ok rs
      → IsRecorded lines rs r (
          append_resolution to_string from_str disk create_new
            (record { lines = lines; tail = "" })
            r)
  unfolding append_resolution
  append-load_verified_resolutions serde disk create_new lines rs r works a h =
      let done = linked to_string from_str rs r in
      let loaded = (load_verified_resolutions_iff lines rs).0 h in
      let line = serde.prints done in
      let now = prepare-loaded lines rs r loaded.0 in
      let put =
        write_record-complete disk lines done line.0 works.opened
          (works.writes done line.0 line.1) in
      rw (works.makes, a, now, put)
        (record {
          written = done;
          returned = refl;
          whole = refl;
          verified = (load_verified_resolutions_iff (lines ++ line.0 ∷ []) (rs ++ done ∷ [])).1 (
            load_resolutions-append lines rs line.0 done loaded.0
                (serde.is_a_line done line.0 line.1) (serde.reads_back done line.0 line.1),
            linked-IsChained rs r loaded.1,
          );
          numbered = unfold linked in refl;
          same_target = unfold linked in refl;
          same_reason = unfold linked in refl;
          same_cite = unfold linked in refl;
        })

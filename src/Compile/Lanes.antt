-- ===== src/Compile/Lanes.antt =====
-- compiler/run_dir.rs, `derive_lane_digests`: what to read of each lane.
use Prim.Native.Char.{code}
use agent_receipts.Prelude.{
  ℕ, ◌+◌, ◌%◌, ◌^◌, String, List, [], ◌∷◌, ◌++◌, Bool, true, false, not, ◌&&◌, ◌||◌, Option, none,
  some, ◌==◌, format, strip_prefix, starts_with, parse_usize, is_some, unwrap_or, any, all,
  contains, filter, filter_map, flat_map, map, length, is_empty, once, lookup, collect, ltb, nat_eq,
  get_last?, if◌then◌else◌,
}
use agent_receipts.Schema.{EvidenceRecord, CompiledFact, Contradiction, ReceiptRecord, LaneDigest}

abbrev pub infra_kinds : List String
infra_kinds = "objective" ∷ "subagent-session" ∷ "codex-synthesis" ∷ "receipt" ∷ "work" ∷ []

-- `fact_tier`: the attestation of a fact, by the id of its record.
unfoldable pub fact_tier : List CompiledFact → List (String × String)
fact_tier facts = collect (filter_map entry facts)
  where
    entry_of : Option String → Option String → Option (String × String)
    entry_of none _ = none
    entry_of (some id) none = none
    entry_of (some id) (some attestation) = some (id, attestation)

    entry : CompiledFact → Option (String × String)
    entry fact = entry_of (strip_prefix "fact:" fact.id) fact.attestation

abbrev pub lane_of : EvidenceRecord → String
lane_of r = unwrap_or r.lane "(no lane)"

-- `text.split(c)`, by the code of an ASCII character.
unfoldable pub split : ℕ → String → List String
split sep String.[] = "" ∷ []
split sep (String.◌∷◌ c s) =
    let rest = split sep s in
    if nat_eq (code c) sep
    then "" ∷ rest
    else elim rest [ [] ↦ String.◌∷◌ c "" ∷ [] | w ∷ ws ↦ String.◌∷◌ c w ∷ ws ]

-- `id.rsplit(':').next()`
abbrev pub last_part : String → String
last_part id = unwrap_or (get_last? (split b':' id)) ""

abbrev pub has_dash : String → Bool
has_dash text = ltb 1 (length (split b'-' text))

-- A citation of lines in the raw output of an agent.
unfoldable pub is_span : String → Bool
unfolding split
is_span id =
    starts_with id "raw:subagents/"
    && has_dash id
    && has_dash (last_part id)
    && all (λ part. is_some (parse_usize part)) (split b'-' (last_part id))

unfoldable pub drill_down : List String → List String → List String
unfolding is_span
drill_down found [] = found
drill_down found (id ∷ ids) =
    drill_down
      (if is_span id && ltb (length found) 20 && not (contains found id)
        then found ++ id ∷ []
        else found)
      ids

-- How a record counts.
pub data Tier : Type 0 where
  infra attested verifier asserted : Tier

abbrev pub tier_from : Bool → Option String → Tier
tier_from true attestation = infra
tier_from false none = asserted
tier_from false (some attestation) =
    if attestation == "attested"
    then attested
    else if attestation == "verifier"
    then verifier
    else asserted

abbrev pub counts_attested : Tier → Bool
counts_attested attested = true
counts_attested _ = false

abbrev pub counts_verifier : Tier → Bool
counts_verifier verifier = true
counts_verifier _ = false

abbrev pub counts_asserted : Tier → Bool
counts_asserted asserted = true
counts_asserted _ = false

-- The text for the reader, by the tests in the order of the source.
unfoldable pub recommend : Bool → ℕ → ℕ → ℕ → ℕ → Bool → Bool → String
recommend blocked contradictions substantive asserted_ warnings claimed_identity label_backed =
    if blocked
    then "blocked"
    else if ltb 0 contradictions
    then "read-adjudicate"
    else if ltb 0 substantive
        && nat_eq asserted_ 0
        && nat_eq warnings 0
        && not claimed_identity
        && not label_backed
    then "skip-verified"
    else if nat_eq substantive 0 && nat_eq warnings 0 && not claimed_identity
    then "skip-verified"
    else "read-unverified"

-- A count as a `u32`.
abbrev pub count_of : {A : Type 0} → (A → Bool) → List A → ℕ
count_of p xs = length (filter p xs) % 2 ^ 32

-- The first agent id, if any.
abbrev pub first_agent : List EvidenceRecord → Option String
first_agent [] = none
first_agent (r ∷ rs) = elim r.agent_id [ some id ↦ some id | none ↦ first_agent rs ]

module _ (facts : List CompiledFact) (contradictions : List Contradiction)
    (exec_receipts : List ReceiptRecord) where
  unfoldable pub tier_of : EvidenceRecord → Tier
  unfolding fact_tier
  tier_of r = tier_from (contains infra_kinds r.kind) (lookup r.id (fact_tier facts))

  unfoldable pub is_contradicted : EvidenceRecord → Bool
  is_contradicted r = contains (flat_map (λ c. c.conflicting_item_ids) contradictions) r.id

  unfoldable pub cites_receipt : EvidenceRecord → Bool
  cites_receipt r =
      any (contains (map (λ receipt. format ("receipt:" ∷ receipt.id ∷ [])) exec_receipts))
        r.source_ids

  abbrev pub has_warnings : EvidenceRecord → Bool
  has_warnings r = not (is_empty r.provenance_warnings)

  abbrev pub claims_identity : EvidenceRecord → Bool
  claims_identity r = is_some r.claimed_agent_id || is_some r.claimed_lane

  abbrev pub is_label_backed : EvidenceRecord → Bool
  is_label_backed r = counts_attested (tier_of r) && not (cites_receipt r)

  -- The counters and flags after the loop over the records of a lane.
  unfoldable pub lane_digest : String → List EvidenceRecord → LaneDigest
  unfolding tier_of is_contradicted cites_receipt recommend drill_down
  lane_digest lane records =
      let attested_ = count_of (λ r. counts_attested (tier_of r)) records in
      let verifier_ = count_of (λ r. counts_verifier (tier_of r)) records in
      let asserted_ = count_of (λ r. counts_asserted (tier_of r)) records in
      let warnings = count_of has_warnings records in
      let lane_contradictions = count_of is_contradicted records in
      record {
        lane = lane;
        agent_id = first_agent records;
        records = length records % 2 ^ 32;
        attested = attested_;
        verifier = verifier_;
        asserted = asserted_;
        warnings = warnings;
        contradictions = lane_contradictions;
        read_recommendation =
            recommend (any (λ r. r.kind == "blocker") records) lane_contradictions
              ((attested_ + verifier_ + asserted_) % 2 ^ 32) asserted_ warnings
              (any claims_identity records) (any is_label_backed records);
        drill_down = drill_down [] (flat_map (λ r. r.source_ids) records);
      }

  abbrev pub records_of : List EvidenceRecord → String → List EvidenceRecord
  records_of evidence lane = filter (λ r. lane_of r == lane) evidence

  -- The lanes, in the order in which they first appear.
  unfoldable pub derive_lane_digests : List EvidenceRecord → List LaneDigest
  unfolding lane_digest
  derive_lane_digests evidence =
      map (λ lane. lane_digest lane (records_of evidence lane)) (once [] (map lane_of evidence))

-- ===== src/Tests/Lanes.antt =====
-- What is reported of the lanes of the small run.
use mathlib.Core.List.{Memᴰ}
use agent_receipts.Prelude.{
  ◌≡◌, ◌<◌, ◌^◌, refl, arith, String, List, [], ◌∷◌, some, none, ℕ, length, true, false, Bool,
}
use agent_receipts.Schema.{CompiledFact, LaneDigest}
use agent_receipts.Compile.Facts.{fact_of}
use agent_receipts.Compile.Lanes.{is_span, drill_down, lane_digest, derive_lane_digests}
use agent_receipts.Compile.Skipped.{IsSkippable, derive_lane_digests-skip_iff}
use agent_receipts.Tests.Data.{claim}
use agent_receipts.Tests.Compiled.{no_cast}

abbrev facts : List CompiledFact
facts = fact_of no_cast claim "verifier" ∷ []

abbrev digest : LaneDigest
digest = lane_digest facts [] [] "lane-a" (claim ∷ [])

recommendation_test : digest.read_recommendation ≡ "skip-verified"
unfolding lane_digest agent_receipts.Prelude.contains agent_receipts.Prelude.strip_prefix fact_of
recommendation_test = refl

asserted_test : (lane_digest [] [] [] "lane-a" (claim ∷ [])).read_recommendation ≡ "read-unverified"
unfolding lane_digest agent_receipts.Prelude.contains
asserted_test = refl

is_span_test : is_span "raw:subagents/a.jsonl:L3-9" ≡ false
unfolding is_span agent_receipts.Prelude.parse_usize
is_span_test = refl

drill_down_test :
    drill_down [] ("raw:subagents/a:3-9" ∷ "raw:subagents/a:3-9" ∷ "file:src/lib.rs" ∷ [])
    ≡ ("raw:subagents/a:3-9" ∷ [])
unfolding drill_down agent_receipts.Prelude.parse_usize agent_receipts.Prelude.contains
drill_down_test = refl

derive_lane_digests-skip_iff_example : IsSkippable facts [] [] claim
unfolding derive_lane_digests lane_digest agent_receipts.Prelude.once
    agent_receipts.Prelude.contains agent_receipts.Prelude.strip_prefix fact_of
derive_lane_digests-skip_iff_example =
    (derive_lane_digests-skip_iff facts [] [] (claim ∷ []) digest (omega arith) (Memᴰ.head refl)).0
      refl claim (Memᴰ.head refl) refl

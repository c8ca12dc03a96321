-- ===== src/Tests/Journals.antt =====
-- The journal of resolutions: one append, and one that fails.
use agent_receipts.Prelude.{
  ◌≡◌, refl, ◌⊎◌, Bool, true, false, leb, String, List, [], ◌∷◌, none, some, ℕ, Result, err, ok,
}
use agent_receipts.Journal.Lock.{acquire}
use agent_receipts.Resolutions.Types.{ResolutionRecord}
use agent_receipts.Resolutions.Store.{
  complete, broken, Disk, load_resolutions, load_verified_resolutions, append_resolution, linked,
}
use agent_receipts.Resolutions.Append.{IsWorking, IsRecorded, append-load_verified_resolutions}
use agent_receipts.Resolutions.Tampering.{HashCollision, load_verified_resolutions_unique}
use agent_receipts.Tests.Serde.{to_line, of_line, line_of, serde}

abbrev adjudication : String → ResolutionRecord
adjudication target = record {
  id = "";
  target_id = target;
  reason = "the first summary is right";
  cite = none;
  resolved_at = "2026-07-13T12:00:00Z";
  writer = "receipts";
  prev_record_hash = "";
  record_hash = "";
}

-- The lock is held for two tries.
abbrev freed : ℕ → Bool
freed n = leb 2 n

abbrev first : ResolutionRecord
first = linked to_line of_line [] (adjudication "con:auto:1")

abbrev journal : List String
journal = line_of first ∷ []

-- A disk on which nothing fails, and one that fills up after a few bytes.
abbrev working : Disk
working = record {
  makes_dir = true;
  opens = true;
  write = λ r. elim (to_line r) [ none ↦ broken "" | some text ↦ complete text ];
}

abbrev full : Disk
full = record { makes_dir = true; opens = true; write = λ r. broken "{" }

working-IsWorking : IsWorking to_line of_line working
working-IsWorking = record { makes = refl; opened = refl; writes = λ r t h. rw (h, working) refl }

append-load_verified_resolutions_example :
    IsRecorded to_line of_line [] [] (adjudication "con:auto:1") (
      append_resolution to_line of_line working freed
        (record { lines = []; tail = "" })
        (adjudication "con:auto:1"))
unfolding acquire load_verified_resolutions load_resolutions
    agent_receipts.Journal.Chain.verify_chain
append-load_verified_resolutions_example =
    append-load_verified_resolutions to_line of_line serde working freed [] []
      (adjudication "con:auto:1") working-IsWorking refl refl

load_verified_resolutions_unique_example : ((first ∷ []) ≡ (first ∷ [])) ⊎ HashCollision
unfolding load_verified_resolutions load_resolutions agent_receipts.Prelude.is_blank line_of linked
    agent_receipts.Prelude.decimal4 of_line agent_receipts.Resolutions.Store.resolution_content_hash
    agent_receipts.Journal.Hash.fnv1a_hash agent_receipts.Journal.Hash.as_bytes
    agent_receipts.Resolutions.Store.resolution_preimage to_line
    agent_receipts.Journal.Chain.verify_chain
load_verified_resolutions_unique_example =
    load_verified_resolutions_unique to_line of_line serde journal ("" ∷ journal) (first ∷ [])
      (first ∷ []) refl refl refl refl

-- ===== src/Resolutions/Store.antt =====
-- compiler/resolutions.rs: loading, verifying and appending. The journal file is the list of its
-- whole lines with what stands behind the last line end; a missing file has neither.
use Prim.Native.String.{◌++◌ as append}
use agent_receipts.Prelude.{
  ℕ, suc, ◌+◌, Bool, String, List, [], ◌∷◌, ◌++◌, Option, Result, ok, err, ◌>>=◌, ok_or, unwrap_or,
  not, ◌==◌, length, decimal4, format, is_blank, if◌then◌else◌,
}
use agent_receipts.Journal.Hash.{genesis, as_bytes, fnv1a_hash}
use agent_receipts.Journal.Lock.{acquire}
use agent_receipts.Journal.Chain.{ChainError, verify_chain, chain_head}
use agent_receipts.Resolutions.Types.{ResolutionRecord}

pub data ResolutionError : Type 0 where
  no_directory lock_timeout not_opened not_written : ResolutionError
  not_a_resolution : ℕ → ResolutionError
  broken_chain : ChainError → ResolutionError

pub record JournalFile : Type 0 where
  pub lines : List String
  pub tail : String

-- The lines that a reader of the file finds.
abbrev pub lines_of : JournalFile → List String
lines_of file = if file.tail == "" then file.lines else file.lines ++ file.tail ∷ []

-- What of a record reaches the file while it is serialized into it: all its text and the line end,
-- or what was written before the failure.
pub data Written : Type 0 where
  complete broken : String → Written

-- The file system during one append: `create_dir_all`, `open`, and the writes.
pub record Disk : Type 0 where
  pub makes_dir : Bool
  pub opens : Bool
  pub write : ResolutionRecord → Written

-- What the writes leave behind what was there.
abbrev pub after_write :
    JournalFile → ResolutionRecord → Written → Result ResolutionError ResolutionRecord × JournalFile
after_write file done (complete text) =
    (ok done, record { lines = file.lines ++ append file.tail text ∷ []; tail = "" })
after_write file done (broken text) =
    (err not_written, record { lines = file.lines; tail = append file.tail text })

-- The record is serialized into the open file.
unfoldable pub write_record :
    Disk → JournalFile → ResolutionRecord → Result ResolutionError ResolutionRecord × JournalFile
write_record disk file done =
    if disk.opens then after_write file done (disk.write done) else (err not_opened, file)

-- `record.record_hash = hash`
abbrev pub with_record_hash : String → ResolutionRecord → ResolutionRecord
with_record_hash hash record_ = record {
  id = record_.id;
  target_id = record_.target_id;
  reason = record_.reason;
  cite = record_.cite;
  resolved_at = record_.resolved_at;
  writer = record_.writer;
  prev_record_hash = record_.prev_record_hash;
  record_hash = hash;
}

-- `serde_json::to_string` and `serde_json::from_str` at a resolution.
module _ (to_string : ResolutionRecord → Option String)
    (from_str : String → Option ResolutionRecord) where
  -- The text that is hashed.
  unfoldable pub resolution_preimage : ResolutionRecord → String
  resolution_preimage record_ = unwrap_or (to_string (with_record_hash "" record_)) ""

  unfoldable pub resolution_content_hash : ResolutionRecord → String
  resolution_content_hash record_ = fnv1a_hash (as_bytes (resolution_preimage record_))

  unfoldable pub load_lines : ℕ → List String → Result ResolutionError (List ResolutionRecord)
  load_lines index [] = ok []
  load_lines index (line ∷ lines) =
      let rest = load_lines (suc index) lines in
      if is_blank line
      then rest
      else ok_or (from_str line) (not_a_resolution (index + 1)) >>= λ r. rest >>= λ rs. ok (r ∷ rs)

  unfoldable pub load_resolutions : List String → Result ResolutionError (List ResolutionRecord)
  unfolding load_lines
  load_resolutions lines = load_lines 0 lines

  unfoldable pub verify_resolutions :
      List ResolutionRecord → Result ResolutionError (List ResolutionRecord)
  verify_resolutions records =
      elim (verify_chain (λ r. r.id) resolution_content_hash (λ r. r.prev_record_hash)
        (λ r. r.record_hash) 0 genesis records) [ err e ↦ err (broken_chain e) | ok u ↦ ok records ]

  unfoldable pub load_verified_resolutions :
      List String → Result ResolutionError (List ResolutionRecord)
  unfolding verify_resolutions
  load_verified_resolutions lines = load_resolutions lines >>= verify_resolutions

  -- The record that is written behind the existing ones.
  unfoldable pub linked : List ResolutionRecord → ResolutionRecord → ResolutionRecord
  linked existing record_ =
      let unhashed : ResolutionRecord = record {
        id = format ("res-" ∷ decimal4 (length existing + 1) ∷ []);
        target_id = record_.target_id;
        reason = record_.reason;
        cite = record_.cite;
        resolved_at = record_.resolved_at;
        writer = record_.writer;
        prev_record_hash = chain_head (λ r. r.record_hash) existing;
        record_hash = "";
      } in
      with_record_hash (resolution_content_hash unhashed) unhashed

  -- The closure that runs under the lock, up to the file: the record that is to be written.
  unfoldable pub prepare : List String → ResolutionRecord → Result ResolutionError ResolutionRecord
  prepare lines record_ = load_resolutions lines >>= λ existing. ok (linked existing record_)

  -- The result, and the file afterwards.
  unfoldable pub append_resolution :
      Disk
      → (ℕ → Bool)
      → JournalFile
      → ResolutionRecord
      → Result ResolutionError ResolutionRecord × JournalFile
  unfolding prepare write_record
  append_resolution disk create_new file record_ =
      if not disk.makes_dir
      then (err no_directory, file)
      else if acquire create_new
      then elim (prepare (lines_of file) record_) [
        | err e ↦ (err e, file)
        | ok done ↦ write_record disk file done
      ]
      else (err lock_timeout, file)

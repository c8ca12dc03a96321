-- ===== src/Resolutions/Failed.antt =====
-- compiler/resolutions.rs: what an append that fails leaves behind.
use Prim.Native.String.{◌++◌ as append}
use agent_receipts.Prelude.{ℕ, ◌≡◌, ◌⊎◌, Bool, false, String, Option, err}
use agent_receipts.Journal.Lock.{acquire}
use agent_receipts.Resolutions.Types.{ResolutionRecord}
use agent_receipts.Resolutions.Store.{
  ResolutionError, no_directory, lock_timeout, not_opened, not_written, JournalFile, lines_of,
  broken, Disk, load_resolutions,
}

module _ (to_string : ResolutionRecord → Option String)
    (from_str : String → Option ResolutionRecord) where
  -- What a failed append leaves: the file as it was, or with a part of the record behind its last
  -- line end.
  abbrev pub IsLeft : Disk → (ℕ → Bool) → JournalFile → ResolutionError → JournalFile → Type 0
  IsLeft disk create_new file e after =
      ((after ≡ file)
        × (((disk.makes_dir ≡ false) × (e ≡ no_directory))
            ⊎ ((acquire create_new ≡ false) × (e ≡ lock_timeout))
            ⊎ (load_resolutions to_string from_str (lines_of file) ≡ err e)
            ⊎ ((disk.opens ≡ false) × (e ≡ not_opened))))
      ⊎ ((done : ResolutionRecord) × (text : String) × (disk.write done ≡ broken text)
          × (e ≡ not_written)
          × (after.lines ≡ file.lines)
          × (after.tail ≡ append file.tail text))

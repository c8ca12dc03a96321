-- ===== src/Compile/Latest.antt =====
-- compiler/run_dir.rs, `latest_receipt_per_label`: the last receipt of each label.
use agent_receipts.Prelude.{
  ◌≡◌, refl, ◌↔◌, Bool, false, String, List, [], ◌∷◌, none, some, arith, ◌==◌, inl, inr,
  Option-cases, insert, lookup, or_else, find_last, IsLast, find_last_iff,
}
use agent_receipts.Schema.{ReceiptRecord}

latest_from : List (String × ReceiptRecord) → List ReceiptRecord → List (String × ReceiptRecord)
latest_from latest [] = latest
latest_from latest (r ∷ rs) =
    latest_from (elim r.label [ none ↦ latest | some label ↦ insert label r latest ]) rs

unfoldable pub latest_receipt_per_label : List ReceiptRecord → List (String × ReceiptRecord)
unfolding latest_from
latest_receipt_per_label receipts = latest_from [] receipts

abbrev pub has_label : String → ReceiptRecord → Bool
has_label l r = elim r.label [ none ↦ false | some m ↦ m == l ]

lookup-latest_from :
    (l : String) (m : List (String × ReceiptRecord)) (rs : List ReceiptRecord)
    → lookup l (latest_from m rs) ≡ or_else (find_last (has_label l) rs) (lookup l m)
unfolding latest_from
lookup-latest_from l m [] = refl
lookup-latest_from l m (r ∷ rs) = elim (Option-cases r.label) [
  | inl e ↦ rw e (ground (arith, lookup-latest_from l m rs))
  | inr k ↦ rw (k.1) (ground (arith, lookup-latest_from l (insert k.0 r m) rs))
]

-- The map holds a receipt under a label exactly when it is the last receipt with that label.
pub latest_receipt_per_label_iff :
    (receipts : List ReceiptRecord) (label : String) (r : ReceiptRecord)
    → (lookup label (latest_receipt_per_label receipts) ≡ some r)
      ↔ IsLast (has_label label) receipts r
unfolding latest_receipt_per_label
latest_receipt_per_label_iff receipts label r =
    let same : lookup label (latest_from [] receipts) ≡ find_last (has_label label) receipts =
      ground (arith, lookup-latest_from label [] receipts) in
    rw same (find_last_iff (has_label label) receipts r)

-- ===== src/Tests/Serde.antt =====
-- A printer and a reader of resolutions that satisfy what the journal relies on.
use Prim.Native.Char.{code}
use agent_receipts.Prelude.{
  ◌≡◌, refl, false, String, Option, none, some, nat_eq, if◌then◌else◌, is_blank, unwrap_or, subst,
  ◌∙◌,
}
use agent_receipts.Resolutions.Types.{ResolutionRecord}
use agent_receipts.Resolutions.Append.{IsSerde}

-- A text is written with a `+` before each character and a `-` behind the last.
print : String → String → String
print String.[] rest = String.◌∷◌ "-" rest
print (String.◌∷◌ c s) rest = String.◌∷◌ "+" (String.◌∷◌ c (print s rest))

-- The first text, handed on with what follows it.
field : {A : Type 0} → String → (String → String → Option A) → Option A
field String.[] k = none
field (String.◌∷◌ c String.[]) k = if nat_eq (code c) b'-' then k "" "" else none
field (String.◌∷◌ c (String.◌∷◌ d t)) k =
    let rest = field t (λ s u. k (String.◌∷◌ d s) u) in
    if nat_eq (code c) b'-' then k "" (String.◌∷◌ d t) else rest

field-print :
    {A : Type 0} (s rest : String) (k : String → String → Option A)
    → field (print s rest) k ≡ k s rest
unfolding field print
field-print String.[] String.[] k = refl
field-print String.[] (String.◌∷◌ c t) k = refl
field-print (String.◌∷◌ c s) rest k = field-print s rest (λ u v. k (String.◌∷◌ c u) v)

abbrev cite_of : String → String → Option String
cite_of tag text = if is_blank tag then none else some text

abbrev cite_tag : Option String → String
cite_tag none = ""
cite_tag (some text) = "some"

unfoldable pub line_of : ResolutionRecord → String
unfolding print
line_of r = print r.id (
    print r.target_id (
      print r.reason (
        print (cite_tag r.cite) (
          print (unwrap_or r.cite "") (
            print r.resolved_at
              (print r.writer (print r.prev_record_hash (print r.record_hash ""))))))))

unfoldable pub to_line : ResolutionRecord → Option String
to_line r = some (line_of r)

unfoldable pub of_line : String → Option ResolutionRecord
unfolding field is_blank
of_line line = field line λ id a. field a λ target_id b. field b λ reason c. field c λ tag d.
    field d λ text e. field e λ resolved_at f. field f λ writer g. field g λ prev_record_hash h.
      field h λ record_hash rest. some (record {
        id = id;
        target_id = target_id;
        reason = reason;
        cite = cite_of tag text;
        resolved_at = resolved_at;
        writer = writer;
        prev_record_hash = prev_record_hash;
        record_hash = record_hash;
      })

cite_lem : (cite : Option String) → cite_of (cite_tag cite) (unwrap_or cite "") ≡ cite
unfolding is_blank
cite_lem none = refl
cite_lem (some text) = refl

of_line-line_of : (r : ResolutionRecord) → of_line (line_of r) ≡ some r
unfolding of_line line_of
of_line-line_of r =
    field-print r.id _ _
    ∙ field-print r.target_id _ _
    ∙ field-print r.reason _ _
    ∙ field-print (cite_tag r.cite) _ _
    ∙ field-print (unwrap_or r.cite "") _ _
    ∙ field-print r.resolved_at _ _
    ∙ field-print r.writer _ _
    ∙ field-print r.prev_record_hash _ _
    ∙ field-print r.record_hash _ _
    ∙ (λ i. some (record {
      id = r.id;
      target_id = r.target_id;
      reason = r.reason;
      cite = cite_lem r.cite i;
      resolved_at = r.resolved_at;
      writer = r.writer;
      prev_record_hash = r.prev_record_hash;
      record_hash = r.record_hash;
    }))

print_is_a_line : (s rest : String) → is_blank (print s rest) ≡ false
unfolding print is_blank
print_is_a_line String.[] rest = refl
print_is_a_line (String.◌∷◌ c s) rest = refl

line_is : (r : ResolutionRecord) (t : String) → to_line r ≡ some t → line_of r ≡ t
unfolding to_line
line_is r t h = cc h

pub serde : IsSerde to_line of_line
unfolding to_line
serde = record {
  prints = λ r. (_, refl);
  is_a_line = λ r t h.
      subst (λ z. is_blank z ≡ false) (line_is r t h) (unfold line_of in print_is_a_line r.id _);
  reads_back = λ r t h. subst (λ z. of_line z ≡ some r) (line_is r t h) (of_line-line_of r);
}

-- ===== src/Tests/Codec.antt =====
-- Printers and readers of plain data that satisfy what the models rely on of serde_json.
use Prim.Native.Char.{code}
use Prim.Native.String.{◌++◌ as append}
use package.text.Mathlib.TextLemmas.{cons-append}
use agent_receipts.Prelude.{
  ℕ, zero, suc, ◌≡◌, refl, ap, ◌∙◌, String, List, [], ◌∷◌, length, Option, none, some, nat_eq,
  if◌then◌else◌,
}
use agent_receipts.Prelude.Int.{ℤ, pos, negsuc}

-- `put a rest` is the text of `a`, and `rest` behind it; `get` hands on what it read, and the rest.
pub record Codec (A : Type 0) : Type 1 where
  pub put : A → String → String
  pub get : {B : Type 0} → String → (A → String → Option B) → Option B
  pub behind : (a : A) (rest more : String) → append (put a rest) more ≡ put a (append rest more)
  pub law :
      {B : Type 0} (a : A) (rest : String) (k : A → String → Option B)
      → get (put a rest) k ≡ k a rest

-- A text is written with a `+` before each character and a `-` behind the last.
unfoldable pub put_text : String → String → String
put_text String.[] rest = String.◌∷◌ "-" rest
put_text (String.◌∷◌ c s) rest = String.◌∷◌ "+" (String.◌∷◌ c (put_text s rest))

unfoldable pub get_text : {A : Type 0} → String → (String → String → Option A) → Option A
get_text String.[] k = none
get_text (String.◌∷◌ c String.[]) k = if nat_eq (code c) b'-' then k "" "" else none
get_text (String.◌∷◌ c (String.◌∷◌ d t)) k =
    let rest = get_text t (λ s u. k (String.◌∷◌ d s) u) in
    if nat_eq (code c) b'-' then k "" (String.◌∷◌ d t) else rest

pub get_text-put_text :
    {A : Type 0} (s rest : String) (k : String → String → Option A)
    → get_text (put_text s rest) k ≡ k s rest
unfolding get_text put_text
get_text-put_text String.[] String.[] k = refl
get_text-put_text String.[] (String.◌∷◌ c t) k = refl
get_text-put_text (String.◌∷◌ c s) rest k = get_text-put_text s rest (λ u v. k (String.◌∷◌ c u) v)

pub put_text-behind :
    (s rest more : String) → append (put_text s rest) more ≡ put_text s (append rest more)
unfolding put_text
put_text-behind String.[] rest more = rw cons-append refl
put_text-behind (String.◌∷◌ c s) rest more =
    rw (cons-append, cons-append, put_text-behind s rest more) refl

unfoldable pub text : Codec String
text = record { put = put_text; get = get_text; behind = put_text-behind; law = get_text-put_text }

-- A number is written with as many `+`, and a `-`.
unfoldable pub put_nat : ℕ → String → String
put_nat zero rest = String.◌∷◌ "-" rest
put_nat (suc n) rest = String.◌∷◌ "+" (put_nat n rest)

unfoldable pub get_nat : {A : Type 0} → String → (ℕ → String → Option A) → Option A
get_nat String.[] k = none
get_nat (String.◌∷◌ c t) k =
    let rest = get_nat t (λ n u. k (suc n) u) in if nat_eq (code c) b'-' then k 0 t else rest

pub get_nat-put_nat :
    {A : Type 0} (n : ℕ) (rest : String) (k : ℕ → String → Option A)
    → get_nat (put_nat n rest) k ≡ k n rest
unfolding get_nat put_nat
get_nat-put_nat zero rest k = refl
get_nat-put_nat (suc n) rest k = get_nat-put_nat n rest (λ m u. k (suc m) u)

pub put_nat-behind :
    (n : ℕ) (rest more : String) → append (put_nat n rest) more ≡ put_nat n (append rest more)
unfolding put_nat
put_nat-behind zero rest more = rw cons-append refl
put_nat-behind (suc n) rest more = rw (cons-append, put_nat-behind n rest more) refl

unfoldable pub nat : Codec ℕ
nat = record { put = put_nat; get = get_nat; behind = put_nat-behind; law = get_nat-put_nat }

-- One codec behind another.

unfoldable pub both : {A B : Type 0} → Codec A → Codec B → Codec (A × B)
both a b = record {
  put = λ x rest. a.put x.0 (b.put x.1 rest);
  get = λ t k. a.get t (λ x u. b.get u (λ y v. k (x, y) v));
  behind = λ x rest more. a.behind x.0 _ more ∙ ap (a.put x.0) (b.behind x.1 rest more);
  law = λ x rest k. a.law x.0 _ _ ∙ b.law x.1 rest _;
}

-- The codec of a type that is another one, rearranged.
unfoldable pub via :
    {A B : Type 0} (of : A → B) (to : B → A) → ((b : B) → of (to b) ≡ b) → Codec A → Codec B
via of to back a = record {
  put = λ b rest. a.put (to b) rest;
  get = λ t k. a.get t (λ x u. k (of x) u);
  behind = λ b rest more. a.behind (to b) rest more;
  law = λ b rest k. a.law (to b) rest _ ∙ ap (λ z. k z rest) (back b);
}

abbrev pub put_option : {A : Type 0} → Codec A → Option A → String → String
put_option a none rest = put_nat 0 rest
put_option a (some x) rest = put_nat 1 (a.put x rest)

abbrev pub get_option :
    {A B : Type 0} → Codec A → String → (Option A → String → Option B) → Option B
get_option a t k = get_nat t (λ n u. if nat_eq n 0 then k none u else a.get u (λ x v. k (some x) v))

pub get_option-put_option :
    {A B : Type 0} (a : Codec A) (o : Option A) (rest : String) (k : Option A → String → Option B)
    → get_option a (put_option a o rest) k ≡ k o rest
get_option-put_option a none rest k = get_nat-put_nat 0 rest _
get_option-put_option a (some x) rest k = get_nat-put_nat 1 (a.put x rest) _ ∙ a.law x rest _

pub put_option-behind :
    {A : Type 0} (a : Codec A) (o : Option A) (rest more : String)
    → append (put_option a o rest) more ≡ put_option a o (append rest more)
put_option-behind a none rest more = put_nat-behind 0 rest more
put_option-behind a (some x) rest more =
    put_nat-behind 1 (a.put x rest) more ∙ ap (put_nat 1) (a.behind x rest more)

unfoldable pub option : {A : Type 0} → Codec A → Codec (Option A)
option a = record {
  put = put_option a;
  get = get_option a;
  behind = put_option-behind a;
  law = get_option-put_option a;
}

-- A list is written as its length and its members.
unfoldable pub get_many :
    {A B : Type 0} → Codec A → ℕ → String → (List A → String → Option B) → Option B
get_many a zero t k = k [] t
get_many a (suc n) t k = a.get t (λ x u. get_many a n u (λ xs v. k (x ∷ xs) v))

unfoldable pub put_many : {A : Type 0} → Codec A → List A → String → String
put_many a [] rest = rest
put_many a (x ∷ xs) rest = a.put x (put_many a xs rest)

pub get_many-put_many :
    {A B : Type 0} (a : Codec A) (xs : List A) (rest : String) (k : List A → String → Option B)
    → get_many a (length xs) (put_many a xs rest) k ≡ k xs rest
unfolding get_many put_many
get_many-put_many a [] rest k = refl
get_many-put_many a (x ∷ xs) rest k = a.law x (put_many a xs rest) _ ∙ get_many-put_many a xs rest _

pub put_many-behind :
    {A : Type 0} (a : Codec A) (xs : List A) (rest more : String)
    → append (put_many a xs rest) more ≡ put_many a xs (append rest more)
unfolding put_many
put_many-behind a [] rest more = refl
put_many-behind a (x ∷ xs) rest more =
    a.behind x _ more ∙ ap (a.put x) (put_many-behind a xs rest more)

unfoldable pub list : {A : Type 0} → Codec A → Codec (List A)
list a = record {
  put = λ xs rest. put_nat (length xs) (put_many a xs rest);
  get = λ t k. get_nat t (λ n u. get_many a n u k);
  behind = λ xs rest more.
      put_nat-behind (length xs) _ more ∙ ap (put_nat (length xs)) (put_many-behind a xs rest more);
  law = λ xs rest k.
      get_nat-put_nat (length xs) (put_many a xs rest) _ ∙ get_many-put_many a xs rest k;
}

abbrev pub int_of : ℕ × ℕ → ℤ
int_of (zero, n) = pos n
int_of (suc m, n) = negsuc n

abbrev pub of_int : ℤ → ℕ × ℕ
of_int (pos n) = (0, n)
of_int (negsuc n) = (1, n)

pub int_of-of_int : (z : ℤ) → int_of (of_int z) ≡ z
int_of-of_int (pos n) = refl
int_of-of_int (negsuc n) = refl

unfoldable pub int : Codec ℤ
int = via int_of of_int int_of-of_int (both nat nat)

-- A line is read as a whole.
unfoldable pub whole : {A : Type 0} → A → String → Option A
whole a String.[] = some a
whole a (String.◌∷◌ c s) = none

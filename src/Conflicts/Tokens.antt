-- ===== src/Conflicts/Tokens.antt =====
-- compiler/contradictions.rs, `tokens` and `token_overlap_ratio`. A word is the list of its ASCII
-- codes. Of the characters beyond ASCII, lower case turns only the Kelvin sign and the dotted capital
-- I into ASCII; all the others separate words.
use Prim.Native.Char.{code}
use agent_receipts.Prelude.{
  ℕ, ◌+◌, ◌*◌, Bool, true, false, not, ◌&&◌, ◌||◌, String, List, [], ◌∷◌, ◌++◌, any, filter, length,
  is_empty, leb, ltb, nat_eq, if◌then◌else◌,
}

is_lower_alphanumeric : ℕ → Bool
is_lower_alphanumeric c = (leb b'0' c && leb c b'9') || (leb b'a' c && leb c b'z')

-- The lower case of a character; 0 stands for what separates words.
lower : ℕ → List ℕ
lower c =
    if leb b'A' c && leb c b'Z'
    then (c + 32) ∷ []
    else if is_lower_alphanumeric c
    then c ∷ []
    else if nat_eq c 0x212a
    then b'k' ∷ []
    else if nat_eq c 0x130
    then b'i' ∷ 0 ∷ []
    else 0 ∷ []

lower_case : String → List ℕ
lower_case String.[] = []
lower_case (String.◌∷◌ c s) = lower (code c) ++ lower_case s

-- The pieces between the separators, empty ones too.
pieces : List ℕ → List (List ℕ)
pieces [] = [] ∷ []
pieces (c ∷ cs) =
    let rest = pieces cs in
    if nat_eq c 0 then [] ∷ rest else elim rest [ [] ↦ (c ∷ []) ∷ [] | w ∷ ws ↦ (c ∷ w) ∷ ws ]

word_eq : List ℕ → List ℕ → Bool
word_eq [] [] = true
word_eq [] (d ∷ ds) = false
word_eq (c ∷ cs) [] = false
word_eq (c ∷ cs) (d ∷ ds) = nat_eq c d && word_eq cs ds

has_word : List (List ℕ) → List ℕ → Bool
has_word ws w = any (word_eq w) ws

-- A set of words: the list without repetitions.
distinct : List (List ℕ) → List (List ℕ)
distinct [] = []
distinct (w ∷ ws) = let rest = distinct ws in if has_word ws w then rest else w ∷ rest

unfoldable pub tokens : String → List (List ℕ)
unfolding lower_case lower is_lower_alphanumeric pieces distinct has_word word_eq
tokens summary = distinct (filter (λ w. not (is_empty w)) (pieces (lower_case summary)))

-- `token_overlap_ratio(a, b) < 0.5`, without the division: twice the common words are fewer than all
-- the words. An empty union has the ratio 1.
unfoldable pub is_overlap_below_half : List (List ℕ) → List (List ℕ) → Bool
unfolding has_word word_eq
is_overlap_below_half a b =
    let intersect = length (filter (has_word b) a) in
    let union = length a + length (filter (λ w. not (has_word a w)) b) in ltb (2 * intersect) union

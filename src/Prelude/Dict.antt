-- ===== src/Prelude/Dict.antt =====
-- `HashMap<String, V>` and `BTreeMap<String, V>` where only look-up matters: association lists.
use mathlib.Core.Path.{◌≡◌, refl, sym, ap}
use mathlib.Core.Logic.{inl, inr}
use mathlib.Core.Bool.{true}
use mathlib.Core.List.Memᴰ
use mathlib.Core.Option.{Option, none, some}
use mathlib.Core.List.{List, [], ◌∷◌, Memᴰ}
use native.Mathlib.Omega.{arith}
use Prim.Native.String.{String}
use text.Mathlib.Text.{◌==◌}
use text.Mathlib.TextEquality.{eq_iff}
use agent_receipts.Prelude.Tests.{if◌then◌else◌, Option-cases}

module _ {ℓ} {V : Type ℓ} where
  -- `map.insert(k, v)`: the newest entry of a key is the one that is found.
  abbrev pub insert : String → V → List (String × V) → List (String × V)
  insert key value entries = (key, value) ∷ entries

  -- `map.get(k)`
  abbrev pub lookup : String → List (String × V) → Option V
  lookup key [] = none
  lookup key (entry ∷ entries) = if entry.0 == key then some entry.1 else lookup key entries

  -- `pairs.collect::<HashMap<_, _>>()`: each pair is inserted in turn, so the last of a key wins.
  abbrev pub extend : List (String × V) → List (String × V) → List (String × V)
  extend m [] = m
  extend m ((k, v) ∷ ps) = extend (insert k v m) ps

  -- The last value that the pairs give to a key.
  abbrev pub last_value : String → List (String × V) → Option V
  last_value k [] = none
  last_value k ((j, v) ∷ ps) = elim (last_value k ps) [
    | some w ↦ some w
    | none ↦ if j == k then some v else none
  ]

  abbrev pub or_else : Option V → Option V → Option V
  or_else (some v) o = some v
  or_else none o = o

  pub lookup-extend :
      (k : String) (m ps : List (String × V))
      → lookup k (extend m ps) ≡ or_else (last_value k ps) (lookup k m)
  lookup-extend k m [] = refl
  lookup-extend k m ((j, v) ∷ ps) = ground (arith, lookup-extend k (insert j v m) ps)

  abbrev pub collect : List (String × V) → List (String × V)
  collect = extend []

  pub lookup-collect :
      (k : String) (ps : List (String × V)) → lookup k (collect ps) ≡ last_value k ps
  lookup-collect k ps = ground (arith, lookup-extend k [] ps)

  -- What the last value of a key comes from, and when there is one.
  pub mem_of_last_value :
      (k : String) (ps : List (String × V)) {v : V} → last_value k ps ≡ some v → Memᴰ (k, v) ps
  mem_of_last_value k [] h = absurd (cc)
  mem_of_last_value k ((j, w) ∷ ps) {v} h = elim (Option-cases (last_value k ps)) [
    | inl e ↦
        let hit : ((j == k) ≡ true) × (w ≡ v) = ground arith in
        Memᴰ.head (same_pair (sym ((eq_iff j k).0 hit.0)) (sym hit.1))
    | inr r ↦ Memᴰ.tail (mem_of_last_value k ps (ground arith))
  ]
    where
      same_pair : {a b : String} {x y : V} → a ≡ b → x ≡ y → Path (String × V) (a, x) (b, y)
      same_pair p q = λ i. (p i, q i)

  pub last_value_of_mem :
      (k : String) (v : V) (ps : List (String × V))
      → Memᴰ (k, v) ps
      → (w : V) × (last_value k ps ≡ some w)
  last_value_of_mem k v [] m = elim m [ ]
  last_value_of_mem k v ((j, w) ∷ ps) m = elim (Option-cases (last_value k ps)) [
    | inr r ↦ (r.0, rw (r.1))
    | inl e ↦ elim (Memᴰ.cases_cons m) [
      | inl q ↦ (w, rw e (rw ((eq_iff j k).1 (sym (ap (λ (p : String × V). p.0) q)))))
      | inr n ↦ absurd (cc (e, (last_value_of_mem k v ps n).1))
    ]
  ]

-- ===== src/Prelude/Fallible.antt =====
-- `Result<A, E>` and the `?` operator.
use mathlib.Core.Path.{◌≡◌, refl, ap, ◌∙◌}
use mathlib.Core.Logic.{◌↔◌, inl, inr}
use mathlib.Core.List.{List, [], ◌∷◌, Memᴰ}
use mathlib.Core.List.Memᴰ
use mathlib.Core.Bool.{Bool, true, false}
use mathlib.Core.Option.{Option, none, some}

pub data Result {ℓ} (E : Type 0) (A : Type ℓ) : Type ℓ where
  err : E → Result E A
  ok : A → Result E A

infixl 5 ◌>>=◌
abbrev pub ◌>>=◌ {ℓ κ} :
    {E : Type 0} {A : Type ℓ} {B : Type κ} → Result E A → (A → Result E B) → Result E B
m >>= f = elim m [ err e ↦ err e | ok a ↦ f a ]

infixl 5 ◌>>◌
abbrev pub ◌>>◌ {ℓ} : {E : Type 0} {B : Type ℓ} → Result E (Unit {0}) → Result E B → Result E B
m >> k = m >>= λ _. k

-- `if !cond { return Err(e) }`
abbrev pub ensure : {E : Type 0} → Bool → E → Result E (Unit {0})
ensure true e = ok tt
ensure false e = err e

-- `Option::ok_or_else`
abbrev pub ok_or {ℓ} : {E : Type 0} {A : Type ℓ} → Option A → E → Result E A
ok_or none e = err e
ok_or (some a) e = ok a

-- What a chain that succeeds did.
module _ {ℓ κ} {E : Type 0} {A : Type ℓ} {B : Type κ} where
  pub >>=-eq-ok :
      (first : Result E A) (next : A → Result E B) {result : B}
      → (first >>= next) ≡ ok result
      → (a : A) × (first ≡ ok a) × (next a ≡ ok result)
  >>=-eq-ok (err e) next h = cc
  >>=-eq-ok (ok a) next h = (a, refl, h)

module _ {κ} {E : Type 0} {B : Type κ} where
  pub >>-eq-ok :
      (first : Result E (Unit {0})) (next : Result E B) {result : B}
      → (first >> next) ≡ ok result
      → (first ≡ ok tt) × (next ≡ ok result)
  >>-eq-ok (err e) next h = cc
  >>-eq-ok (ok u) next h = (refl, h)

pub ensure-eq-ok : {E : Type 0} (b : Bool) (e : E) → ensure b e ≡ ok tt → b ≡ true
ensure-eq-ok true e h = refl
ensure-eq-ok false e h = cc

-- `for item in items { f(item)?; }`
unfoldable pub for_each {ℓ} :
    {E : Type 0} {A : Type ℓ} → (A → Result E (Unit {0})) → List A → Result E (Unit {0})
for_each f [] = ok tt
for_each f (x ∷ xs) = let rest = for_each f xs in f x >> rest

-- The loop succeeds exactly when its body does at every item.
pub for_each-ok_iff {ℓ} :
    {E : Type 0} {A : Type ℓ} (f : A → Result E (Unit {0})) (xs : List A)
    → (for_each f xs ≡ ok tt) ↔ ((x : A) → Memᴰ x xs → f x ≡ ok tt)
unfolding for_each
for_each-ok_iff f [] = (λ h x m. elim m [ ], λ h. refl)
for_each-ok_iff f (x ∷ xs) = (
  λ h y m.
      let parts = >>-eq-ok (f x) (for_each f xs) h in
      elim (Memᴰ.cases_cons m) [
        | inl e ↦ ap f e ∙ parts.0
        | inr n ↦ (for_each-ok_iff f xs).0 parts.1 y n
      ],
  λ h. rw (h x (Memᴰ.head refl)) ((for_each-ok_iff f xs).1 (λ y m. h y (Memᴰ.tail m))),
)

pub ensure_iff : {E : Type 0} (b : Bool) (e : E) → (ensure b e ≡ ok tt) ↔ (b ≡ true)
ensure_iff true e = (λ h. refl, λ h. refl)
ensure_iff false e = (λ h. cc, λ h. cc)

pub >>-ok_iff :
    {E : Type 0} (m k : Result E (Unit {0})) → ((m >> k) ≡ ok tt) ↔ ((m ≡ ok tt) × (k ≡ ok tt))
>>-ok_iff m k = (>>-eq-ok m k, λ h. rw (h.0) (h.1))

-- A loop of tests passes exactly when each item passes its test.
module _ {ℓ} {A : Type ℓ} {E : Type 0} (test : A → Bool) (e : A → E) where
  pub for_each-ensure_iff :
      (xs : List A)
      → (for_each (λ x. ensure (test x) (e x)) xs ≡ ok tt) ↔ ((x : A) → Memᴰ x xs → test x ≡ true)
  for_each-ensure_iff xs = (
    λ h x m.
        (ensure_iff (test x) (e x)).0 ((for_each-ok_iff (λ y. ensure (test y) (e y)) xs).0 h x m),
    λ h.
        (for_each-ok_iff (λ y. ensure (test y) (e y)) xs).1
          (λ x m. (ensure_iff (test x) (e x)).1 (h x m)),
  )

pub ok_or-eq-ok {ℓ} :
    {E : Type 0} {A : Type ℓ} (o : Option A) (e : E) {a : A} → ok_or o e ≡ ok a → o ≡ some a
ok_or-eq-ok none e h = absurd (cc)
ok_or-eq-ok (some b) e h = cc h

pub of_ok {ℓ} : {E : Type 0} {A : Type ℓ} {a b : A} → ◌≡◌ {A = Result E A} (ok a) (ok b) → a ≡ b
of_ok h = cc h

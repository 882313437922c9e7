-- ===== src/Base/Results.antt =====
-- Go's `(value, error)` results. A chain of early returns is a `do` block.
use mathlib.Core.Path.{◌≡◌, refl, subst}
use mathlib.Core.Bool.{Bool, true, false}
use mathlib.Core.Logic.{◌⊎◌, inl, inr}
use mathlib.Core.List.{List, [], ◌∷◌, ◌++◌}
use fanloop.Base.Lists.{All}

pub data Result {ℓ} (E : Type 0) (A : Type ℓ) : Type ℓ where
  ok : A → Result E A
  err : E → Result E A

infixl 5 ◌>>=◌ ◌>>◌
abbrev pub ◌>>=◌ {ℓ κ} :
    {E : Type 0} {A : Type ℓ} {B : Type κ} → Result E A → (A → Result E B) → Result E B
ok a >>= f = f a
err e >>= f = err e

abbrev pub ◌>>◌ {ℓ} : {E : Type 0} {B : Type ℓ} → Result E (Unit {0}) → Result E B → Result E B
ok u >> k = k
err e >> k = err e

-- `if test { return err }`
abbrev pub refuse_if : {E : Type 0} → Bool → E → Result E (Unit {0})
refuse_if true e = err e
refuse_if false e = ok tt

-- A loop whose body may return an error.
unfoldable pub for_each {ℓ} :
    {E : Type 0} {A : Type ℓ} → (A → Result E (Unit {0})) → List A → Result E (Unit {0})
for_each check [] = ok tt
for_each check (x ∷ xs) = check x >> for_each check xs

-- A loop that carries a state and may return an error.
unfoldable pub fold_each {ℓ κ} :
    {E : Type 0} {A : Type ℓ} {S : Type κ} → (S → A → Result E S) → S → List A → Result E S
fold_each step s [] = ok s
fold_each step s (x ∷ xs) = step s x >>= λ s'. fold_each step s' xs

abbrev pub is_ok {ℓ} : {E : Type 0} {A : Type ℓ} → Result E A → Bool
is_ok (ok a) = true
is_ok (err e) = false

pub Result-cases {ℓ} :
    {E : Type 0} {A : Type ℓ} (r : Result E A) → ((a : A) × (r ≡ ok a)) ⊎ ((e : E) × (r ≡ err e))
Result-cases (ok a) = inl (a, refl)
Result-cases (err e) = inr (e, refl)

pub >>=-eq-ok {ℓ κ} :
    {E : Type 0} {A : Type ℓ} {B : Type κ} (r : Result E A) (next : A → Result E B) {last : B}
    → (r >>= next) ≡ ok last
    → (x : A) × (r ≡ ok x) × (next x ≡ ok last)
>>=-eq-ok (ok x) next e = (x, refl, e)
>>=-eq-ok (err reason) next e = cc

pub >>-eq-ok {ℓ} :
    {E : Type 0} {B : Type ℓ} (check : Result E (Unit {0})) (rest : Result E B) {last : B}
    → (check >> rest) ≡ ok last
    → (check ≡ ok tt) × (rest ≡ ok last)
>>-eq-ok (ok u) rest e = (refl, e)
>>-eq-ok (err reason) rest e = cc

pub refuse_if-eq-ok : {E : Type 0} (b : Bool) (e : E) → refuse_if b e ≡ ok tt → b ≡ false
refuse_if-eq-ok true e h = cc
refuse_if-eq-ok false e h = refl

pub ok-injective {ℓ} :
    {E : Type 0} {A : Type ℓ} {a b : A} → ◌≡◌ {A = Result E A} (ok a) (ok b) → a ≡ b
ok-injective h = cc

-- Past a test that returns an error, the test failed and the rest ran.
pub guard-eq-ok {ℓ} :
    {E : Type 0} {B : Type ℓ} (b : Bool) (e : E) (k : Result E B) {x : B}
    → (refuse_if b e >> k) ≡ ok x
    → (b ≡ false) × (k ≡ ok x)
guard-eq-ok true e k h = cc
guard-eq-ok false e k h = (refl, h)

-- What every round of a loop keeps, the loop keeps.
pub fold_each_inv {ℓ κ μ} :
    {E : Type 0} {A : Type ℓ} {S : Type κ} (P : S → Type μ) (step : S → A → Result E S)
    → ((s : S) (x : A) (t : S) → P s → step s x ≡ ok t → P t)
    → (s : S) (xs : List A) (t : S) → P s
    → fold_each step s xs ≡ ok t
    → P t
unfolding fold_each
fold_each_inv P step keep s [] t p h = subst P (ok-injective h) p
fold_each_inv P step keep s (x ∷ xs) t p h =
    let (s', first, rest) = >>=-eq-ok (step s x) (λ s'. fold_each step s' xs) h in
    fold_each_inv P step keep s' xs t (keep s x s' p first) rest

-- What every successful round establishes of its element holds of all elements.
pub fold_each-All {ℓ κ μ} :
    {E : Type 0} {A : Type ℓ} {S : Type κ} (P : A → Type μ) (step : S → A → Result E S)
    → ((s : S) (x : A) (t : S) → step s x ≡ ok t → P x)
    → (s : S) (xs : List A) (t : S) → fold_each step s xs ≡ ok t
    → All P xs
unfolding fold_each
fold_each-All P step show s [] t h = tt
fold_each-All P step show s (x ∷ xs) t h =
    let (s', first, rest) = >>=-eq-ok (step s x) (λ s'. fold_each step s' xs) h in
    (show s x s' first, fold_each-All P step show s' xs t rest)

pub fold_each-append {ℓ κ} :
    {E : Type 0} {A : Type ℓ} {S : Type κ} (step : S → A → Result E S) (s : S) (xs ys : List A)
    → fold_each step s (xs ++ ys) ≡ (fold_each step s xs >>= λ t. fold_each step t ys)
unfolding fold_each
fold_each-append step s [] ys = refl
fold_each-append step s (x ∷ xs) ys = elim (Result-cases (step s x)) [
  | inl (t, e) ↦ rw e (fold_each-append step t xs ys)
  | inr (e, failed) ↦ rw failed refl
]

-- A value that is checked and returned.
pub checked-eq-ok {ℓ} :
    {E : Type 0} {A : Type ℓ} (m : Result E A) (k : Result E (Unit {0})) {b : A}
    → (m >>= λ a. k >> ok a) ≡ ok b
    → (m ≡ ok b) × (k ≡ ok tt)
checked-eq-ok (ok a) (ok u) h = (h, refl)
checked-eq-ok (ok a) (err e) h = cc
checked-eq-ok (err e) k h = cc

-- ===== src/Prelude/Outcomes.antt =====
-- How a Go call ends. `Run`: with a value, in a panic, or not within the rounds that the model
-- gives a loop. `Result`: the value and error pair.
use mathlib.Core.Path.{◌≡◌, refl}
use mathlib.Core.Logic.{◌⊎◌, inl, inr}
use mathlib.Core.List.{List, [], ◌∷◌}
use multi_log.Prelude.ByteStrings.{Bytes}

pub data Run {ℓ} (A : Type ℓ) : Type ℓ where
  done : A → Run A
  panicked : Run A
  looping : Run A

-- `abbrev`, so that `done a >>= f` computes wherever it stands.
infixl 5 ◌>>=◌
abbrev pub ◌>>=◌ {ℓ κ} : {A : Type ℓ} {B : Type κ} → Run A → (A → Run B) → Run B
done a >>= f = f a
panicked >>= f = panicked
looping >>= f = looping

-- Inversion of a bind that ends with a value.
pub >>=-eq-done {ℓ κ} :
    {A : Type ℓ} {B : Type κ} (m : Run A) (f : A → Run B) {b : B}
    → (m >>= f) ≡ done b
    → (a : A) × (m ≡ done a) × (f a ≡ done b)
>>=-eq-done (done a) f h = (a, refl, h)
>>=-eq-done panicked f h = cc
>>=-eq-done looping f h = cc

pub done-injective {ℓ} : {A : Type ℓ} {a b : A} → done a ≡ done b → a ≡ b
done-injective h = cc

-- `immutable` is witness.ErrImmutable and `unauthorized` is control.ErrUnauthorized, the two errors
-- that callers recognise; `not_attested` is MockNotary's, with the notary's name; `text` is any other,
-- by its message.
pub data Error : Type 0 where
  immutable unauthorized : Error
  not_attested text : Bytes → Error

pub data Result {ℓ} (A : Type ℓ) : Type ℓ where
  ok : A → Result A
  err : Error → Result A

pub Result-cases {ℓ} :
    {A : Type ℓ} (r : Result A) → ((a : A) × (r ≡ ok a)) ⊎ ((e : Error) × (r ≡ err e))
Result-cases (ok a) = inl (a, refl)
Result-cases (err e) = inr (e, refl)

abbrev pub and_then {ℓ κ} : {A : Type ℓ} {B : Type κ} → Result A → (A → Result B) → Result B
and_then (ok a) f = f a
and_then (err e) f = err e

pub and_then-ok {ℓ κ} :
    {A : Type ℓ} {B : Type κ} (r : Result A) (f : A → Result B) {b : B}
    → and_then r f ≡ ok b
    → (a : A) × (r ≡ ok a) × (f a ≡ ok b)
and_then-ok (ok a) f h = (a, refl, h)
and_then-ok (err e) f h = cc

pub ok-injective {ℓ} : {A : Type ℓ} {a b : A} → ok a ≡ ok b → a ≡ b
ok-injective h = cc

pub Run-cases {ℓ} :
    {A : Type ℓ} (r : Run A) → (r ≡ panicked) ⊎ (r ≡ looping) ⊎ ((a : A) × (r ≡ done a))
Run-cases panicked = inl refl
Run-cases looping = inr (inl refl)
Run-cases (done a) = inr (inr (a, refl))

-- A loop of calls that ends at the first error.
unfoldable pub each_ok {ℓ κ} :
    {A : Type ℓ} {S : Type κ} → (A → S → Result (Unit {0}) × S) → List A → S → Result (Unit {0}) × S
each_ok call [] s = (ok tt, s)
each_ok call (x ∷ xs) s = elim (call x s).0 [
  | err e ↦ (err e, (call x s).1)
  | ok _ ↦ each_ok call xs (call x s).1
]

-- ===== src/Prelude/Lists.antt =====
-- Lists measured by native numbers, predicates on all elements, and cuts of an append.
use Prim.Native.Nat.{ℕ, zero, suc, ◌+◌, ◌-◌, ◌≤◌}
use mathlib.Core.Path.{◌≡◌, refl, sym, ap}
use mathlib.Core.List.{List, [], ◌∷◌, ◌++◌, map}
use native.Mathlib.Omega.{arith}

module _ {ℓ} {A : Type ℓ} where
  abbrev pub length : List A → ℕ
  length [] = 0
  length (x ∷ xs) = suc (length xs)

  abbrev pub take : ℕ → List A → List A
  take zero xs = []
  take (suc n) [] = []
  take (suc n) (x ∷ xs) = x ∷ take n xs

  abbrev pub drop : ℕ → List A → List A
  drop zero xs = xs
  drop (suc n) [] = []
  drop (suc n) (x ∷ xs) = drop n xs

  pub length-append : (xs ys : List A) → length (xs ++ ys) ≡ length xs + length ys
  length-append [] ys = omega arith
  length-append (x ∷ xs) ys = omega (arith, length-append xs ys)

  abbrev pub All {κ} : (A → Type κ) → List A → Type κ
  All P [] = Unit {κ}
  All P (x ∷ xs) = P x × All P xs

  pub All-always {κ} : (P : A → Type κ) → ((x : A) → P x) → (xs : List A) → All P xs
  All-always P h [] = tt
  All-always P h (x ∷ xs) = (h x, All-always P h xs)

  pub All-append {κ} : (P : A → Type κ) (xs ys : List A) → All P xs → All P ys → All P (xs ++ ys)
  All-append P [] ys h k = k
  All-append P (x ∷ xs) ys (h, hs) k = (h, All-append P xs ys hs k)

  -- Two equal appends whose first parts are equally long have equal parts.
  pub append-cut :
      (xs ys us vs : List A) → length xs ≡ length us → xs ++ ys ≡ us ++ vs → (xs ≡ us) × (ys ≡ vs)
  append-cut [] ys [] vs h e = (refl, e)
  append-cut [] ys (u ∷ us) vs h e = absurd (omega arith)
  append-cut (x ∷ xs) ys [] vs h e = absurd (omega arith)
  append-cut (x ∷ xs) ys (u ∷ us) vs h e =
      let (p, q) = append-cut xs ys us vs (omega arith) (cc) in (cc, q)

module _ {ℓ} {A : Type ℓ} where
  pub take-append-drop : (n : ℕ) (xs : List A) → take n xs ++ drop n xs ≡ xs
  take-append-drop zero xs = refl
  take-append-drop (suc n) [] = refl
  take-append-drop (suc n) (x ∷ xs) = ap (λ ys. x ∷ ys) (take-append-drop n xs)

  take-nil : (n : ℕ) → take {A = A} n [] ≡ []
  take-nil zero = refl
  take-nil (suc n) = refl

  drop-nil : (n : ℕ) → drop {A = A} n [] ≡ []
  drop-nil zero = refl
  drop-nil (suc n) = refl

  pub length-take : (n : ℕ) (xs : List A) → n ≤ length xs → length (take n xs) ≡ n
  length-take zero xs h = refl
  length-take (suc n) [] h = absurd (omega arith)
  length-take (suc n) (x ∷ xs) h = ap suc (length-take n xs (omega arith))

  pub length-drop : (n : ℕ) (xs : List A) → length (drop n xs) ≡ length xs - n
  length-drop zero xs = omega arith
  length-drop (suc n) [] = omega arith
  length-drop (suc n) (x ∷ xs) = omega (arith, length-drop n xs)

  pub All-take {κ} : (P : A → Type κ) (n : ℕ) (xs : List A) → All P xs → All P (take n xs)
  All-take P zero xs h = tt
  All-take P (suc n) [] h = tt
  All-take P (suc n) (x ∷ xs) (h, hs) = (h, All-take P n xs hs)

  -- A slice of at most `suc max` elements has between one and all of them.
  pub cut :
      (max : ℕ) (x : A) (xs : List A)
      → (k : ℕ) × (take (suc max) (x ∷ xs) ≡ take (suc k) (x ∷ xs))
        × (drop (suc max) (x ∷ xs) ≡ drop (suc k) (x ∷ xs))
        × (k ≤ max)
        × (k ≤ length xs)
  cut zero x xs = (0, refl, refl, omega arith, omega arith)
  cut (suc max) x [] = (0, refl, refl, omega arith, omega arith)
  cut (suc max) x (y ∷ xs) =
      let (k, taken, dropped, below, within) = cut max y xs in
      (suc k, ap (λ ys. x ∷ ys) taken, dropped, omega arith, omega arith)

  pub drop-take_add : (n k : ℕ) (xs : List A) → drop n (take (n + k) xs) ≡ take k (drop n xs)
  drop-take_add zero k xs = let e : 0 + k ≡ k = omega arith in rw e refl
  drop-take_add (suc n) k [] =
      let e : suc n + k ≡ suc (n + k) = omega arith in rw e (sym (take-nil k))
  drop-take_add (suc n) k (x ∷ xs) =
      let e : suc n + k ≡ suc (n + k) = omega arith in rw e (drop-take_add n k xs)

  pub drop-drop_add : (n k : ℕ) (xs : List A) → drop k (drop n xs) ≡ drop (n + k) xs
  drop-drop_add zero k xs = let e : 0 + k ≡ k = omega arith in rw e refl
  drop-drop_add (suc n) k [] = let e : suc n + k ≡ suc (n + k) = omega arith in rw e (drop-nil k)
  drop-drop_add (suc n) k (x ∷ xs) =
      let e : suc n + k ≡ suc (n + k) = omega arith in rw e (drop-drop_add n k xs)

  pub take-append_within : (k : ℕ) (xs ys : List A) → k ≤ length xs → take k (xs ++ ys) ≡ take k xs
  take-append_within zero xs ys h = refl
  take-append_within (suc k) [] ys h = absurd (omega arith)
  take-append_within (suc k) (x ∷ xs) ys h =
      ap (λ zs. x ∷ zs) (take-append_within k xs ys (omega arith))

  pub drop-append_within :
      (k : ℕ) (xs ys : List A) → k ≤ length xs → drop k (xs ++ ys) ≡ drop k xs ++ ys
  drop-append_within zero xs ys h = refl
  drop-append_within (suc k) [] ys h = absurd (omega arith)
  drop-append_within (suc k) (x ∷ xs) ys h = drop-append_within k xs ys (omega arith)

  -- A nonempty list of a given length.
  pub uncons : (n : ℕ) (xs : List A) → length xs ≡ suc n → (x : A) × (ys : List A) × (xs ≡ x ∷ ys)
  uncons n [] h = absurd (omega arith)
  uncons n (x ∷ xs) h = (x, xs, refl)

pub length-map {ℓ κ} :
    {A : Type ℓ} {B : Type κ} (f : A → B) (xs : List A) → length (map f xs) ≡ length xs
length-map f [] = refl
length-map f (x ∷ xs) = ap suc (length-map f xs)

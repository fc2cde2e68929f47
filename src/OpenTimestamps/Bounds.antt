-- ===== src/OpenTimestamps/Bounds.antt =====
-- What the readers can return: sizes that `make` allows, numbers of 64 bits, and less input left.
use multi_log.Prelude.{
  ℕ, zero, suc, ◌+◌, ◌*◌, ◌-◌, ◌/◌, ◌%◌, ◌^◌, ◌≤◌, ◌<◌, ◌≡◌, refl, sym, ◌∙◌, ap, arith, Bool-cases,
  inl, inr, ltb, [], ◌∷◌, Bytes, length, length-append, length-take, length-drop, take, drop,
}
use native.Mathlib.Nat.{mul-le-mul_right, pow-le-pow_right, pow-suc, mul_assoc, mul-mod_left}
use native.Mathlib.Numerals.{towards_suc}
use native.Mathlib.Decide.{dec_lt}
use mathlib.Core.Path.{subst}
use multi_log.OpenTimestamps.Reading.{
  Read, got, failed, crashed, Reader, and_then, ◌>>=◌, read_byte, read_n, varuint_loop, varuint,
  varbytes, max_bytes,
}
use multi_log.OpenTimestamps.{write_varuint_loop, write_varuint, write_varbytes}

and_then-got {ℓ κ} :
    {A : Type ℓ} {B : Type κ} (m : Read A) (f : A → Reader B) {y : B} {rest : Bytes}
    → and_then m f ≡ got y rest
    → (x : A) × (left : Bytes) × (m ≡ got x left) × (f x left ≡ got y rest)
and_then-got (got x left) f h = (x, left, refl, h)
and_then-got (failed e) f h = cc
and_then-got crashed f h = cc

pub >>=-got {ℓ κ} :
    {A : Type ℓ} {B : Type κ} (r : Reader A) (f : A → Reader B) (b : Bytes) {y : B} {rest : Bytes}
    → (r >>= f) b ≡ got y rest
    → (x : A) × (left : Bytes) × (r b ≡ got x left) × (f x left ≡ got y rest)
>>=-got r f b h = and_then-got (r b) f h

pub read_byte-got :
    (b : Bytes) (x : ℕ) (rest : Bytes) → read_byte b ≡ got x rest → length b ≡ suc (length rest)
unfolding read_byte
read_byte-got [] x rest h = cc
read_byte-got (c ∷ b) x rest h = let same : b ≡ rest = cc in ap (λ (l : Bytes). suc (length l)) same

pub read_n-got :
    (n : ℕ) (b x rest : Bytes)
    → read_n n b ≡ got x rest
    → (length x ≡ n) × (n ≤ max_bytes) × (length x + length rest ≡ length b)
unfolding read_n
read_n-got n b x rest h = elim (Bool-cases (ltb max_bytes n)) [
  | inl large ↦ let h' = rw (large, read_n) at h in cc
  | inr fits ↦ elim (Bool-cases (ltb (length b) n)) [
    | inl short ↦ let h' = rw (fits, short, read_n) at h in cc
    | inr enough ↦
        let h' = rw (fits, enough, read_n) at h in
        let front : take n b ≡ x = cc in
        let back : drop n b ≡ rest = cc in
        let within : n ≤ length b = ground arith in
        let small : n ≤ max_bytes = ground arith in
        let size : length x ≡ n = ap (length {A = ℕ}) (sym front) ∙ length-take n b within in
        let left : length rest ≡ length b - n = ap (length {A = ℕ}) (sym back) ∙ length-drop n b in
        (size, small, omega arith)
  ]
]

-- A power from 2 ^ 64 on is a multiple of it.
high_power : (j : ℕ) → (m : ℕ) × (2 ^ (64 + j) ≡ m * 2 ^ 64)
high_power zero = (1, refl)
high_power (suc j) =
    let (m, multiple) = high_power j in
    let next : 64 + suc j ≡ suc (64 + j) = omega arith in
    (m * 2, ap (λ i. 2 ^ i) next ∙ pow-suc 2 (64 + j) ∙ omega (arith, multiple))

no_more_bits : (shift q : ℕ) → 64 ≤ shift → q * 2 ^ shift % 2 ^ 64 ≡ 0
no_more_bits shift q large =
    let (m, multiple) = high_power (shift - 64) in
    let at : 64 + (shift - 64) ≡ shift = omega arith in
    let whole : q * 2 ^ shift ≡ q * m * 2 ^ 64 =
      ap (λ i. q * 2 ^ i) (sym at) ∙ ap (λ p. q * p) multiple ∙ sym (mul_assoc q m (2 ^ 64)) in
    ap (λ p. p % 2 ^ 64) whole ∙ mul-mod_left (q * m) (2 ^ 64)

-- Seven more bits.
next_bits :
    (result shift k q : ℕ)
    → shift ≡ 7 * k
    → result < 2 ^ 64
    → (shift < 64 → result < 2 ^ shift)
    → q < 128
    → let result' = result + q * 2 ^ shift % 2 ^ 64 in
      (result' < 2 ^ 64) × (shift + 7 < 64 → result' < 2 ^ (shift + 7))
next_bits result shift k q at fits below small = elim (dec_lt shift 57) [
  | yes low ↦
      let seven : 2 ^ (shift + 7) ≡ 128 * 2 ^ shift = simp towards_suc (omega arith) in
      let top : 2 ^ (shift + 7) ≤ 2 ^ 63 = pow-le-pow_right (omega arith) {j = 63} (omega arith) in
      let product : q * 2 ^ shift ≤ 127 * 2 ^ shift = mul-le-mul_right (2 ^ shift) (omega arith) in
      let held = below (omega arith) in
      (omega (arith, seven, top, product, held), λ _. omega (arith, seven, top, product, held))
  | no high ↦ elim (dec_lt shift 64) [
    | yes last ↦
        let here : shift ≡ 63 = omega arith in
        let power : 2 ^ shift ≡ 2 ^ 63 = ap (λ i. 2 ^ i) here in
        let product : q * 2 ^ shift ≡ q * 2 ^ 63 = ap (λ p. q * p) power in
        let held = below last in (omega (arith, power, product, held), λ more. absurd (omega arith))
    | no beyond ↦
        let none = no_more_bits shift q (omega arith) in
        (omega (arith, none), λ more. absurd (omega arith))
  ]
]

varuint_loop-got :
    (b : Bytes) (result shift k n : ℕ) (rest : Bytes)
    → shift ≡ 7 * k
    → result < 2 ^ 64
    → (shift < 64 → result < 2 ^ shift)
    → varuint_loop result shift b ≡ got n rest
    → (n < 2 ^ 64) × (length rest < length b)
unfolding varuint_loop
varuint_loop-got [] result shift k n rest at fits below h = cc
varuint_loop-got (c ∷ b) result shift k n rest at fits below h =
    let (fits', below') = next_bits result shift k (c % 128) at fits below (omega arith) in
    elim (Bool-cases (ltb c 0x80)) [
      | inl last ↦
          let h' = rw (last, varuint_loop) at h in
          let same : result + (c % 128) * 2 ^ shift % 2 ^ 64 ≡ n = cc in
          let left : b ≡ rest = cc in
          (subst (λ m. m < 2 ^ 64) same fits', omega (arith, ap (length {A = ℕ}) left))
      | inr more ↦
          let h' = rw (more, varuint_loop) at h in
          let (bound, fewer) =
            varuint_loop-got b (result + (c % 128) * 2 ^ shift % 2 ^ 64) (shift + 7) (suc k) n rest
              (omega arith) fits' below' h' in
          (bound, omega arith)
    ]

pub varuint-got :
    (b : Bytes) (n : ℕ) (rest : Bytes)
    → varuint b ≡ got n rest
    → (n < 2 ^ 64) × (length rest < length b)
unfolding varuint
varuint-got b n rest h =
    varuint_loop-got b 0 0 0 n rest (omega arith) (omega arith) (λ _. omega arith) h

pub varbytes-got :
    (b x rest : Bytes)
    → varbytes b ≡ got x rest
    → (length x ≤ max_bytes) × (length x + length rest < length b)
unfolding varbytes
varbytes-got b x rest h =
    let (n, left, counted, read) = >>=-got varuint read_n b h in
    let (_, fewer) = varuint-got b n left counted in
    let (size, small, split) = read_n-got n left x rest read in (omega arith, omega arith)

length-write_varuint_loop : (rounds n : ℕ) → length (write_varuint_loop rounds n) ≤ suc rounds
unfolding write_varuint_loop
length-write_varuint_loop zero n = omega arith
length-write_varuint_loop (suc rounds) n = elim (Bool-cases (ltb n 0x80)) [
  | inl one ↦ rw one (omega arith)
  | inr more ↦ rw more (omega (arith, length-write_varuint_loop rounds (n / 128)))
]

pub length-write_varuint : (n : ℕ) → length (write_varuint n) ≤ 10
unfolding write_varuint
length-write_varuint n = length-write_varuint_loop 9 n

pub length-write_varbytes : (b : Bytes) → length (write_varbytes b) ≤ 10 + length b
unfolding write_varbytes
length-write_varbytes b = omega (
  arith,
  length-append (write_varuint (length b % 2 ^ 64)) b,
  length-write_varuint (length b % 2 ^ 64),
)

-- ===== src/OpenTimestamps/Varuint.antt =====
-- Reading back what `writeVaruint` and `writeVarbytes` write.
use multi_log.Prelude.{
  ℕ, zero, suc, ◌+◌, ◌*◌, ◌/◌, ◌%◌, ◌^◌, ◌≤◌, ◌<◌, ◌≡◌, refl, ◌∙◌, ap, arith, Bool-cases, inl, inr,
  [], ◌∷◌, ◌++◌, append_assoc, ltb, Bytes, IsU64, length, length-append, take, drop, le→ltb,
}
use native.Mathlib.Nat.{div-add-mod}
use native.Mathlib.Numerals.{towards_suc}
use multi_log.OpenTimestamps.Reading.{got, varuint_loop, varuint, read_n, varbytes, max_bytes}
use multi_log.OpenTimestamps.{write_varuint_loop, write_varuint, write_varbytes}

-- A shifted number, as its lowest seven bits and the others.
low_and_high : (n shift : ℕ) → n * 2 ^ shift ≡ n % 128 * 2 ^ shift + n / 128 * 2 ^ (shift + 7)
low_and_high n shift =
    let seven : 2 ^ (shift + 7) ≡ 128 * 2 ^ shift = simp towards_suc (omega arith) in
    omega
      (arith, ap (λ (m : ℕ). m * 2 ^ shift) (div-add-mod n 128), ap (λ (p : ℕ). n / 128 * p) seven)

varuint_loop-last :
    (n acc shift : ℕ) (rest : Bytes)
    → n < 128
    → n * 2 ^ shift < 2 ^ 64
    → varuint_loop acc shift (n % 256 ∷ rest) ≡ got (acc + n * 2 ^ shift) rest
unfolding varuint_loop
varuint_loop-last n acc shift rest small fits =
    let same : n % 256 % 128 ≡ n = omega arith in
    let bits = ap (λ (m : ℕ). m * 2 ^ shift) same in ground (arith, bits)

varuint_loop-more :
    (n acc shift : ℕ) (rest : Bytes)
    → n % 128 * 2 ^ shift < 2 ^ 64
    → varuint_loop acc shift ((n % 128 + 128) ∷ rest)
      ≡ varuint_loop (acc + n % 128 * 2 ^ shift) (shift + 7) rest
unfolding varuint_loop
varuint_loop-more n acc shift rest fits =
    let same : (n % 128 + 128) % 128 ≡ n % 128 = omega arith in
    let bits = ap (λ (m : ℕ). m * 2 ^ shift) same in ground (arith, bits)

varuint_loop-write :
    (rounds n acc shift : ℕ) (rest : Bytes)
    → n < 128 ^ suc rounds
    → n * 2 ^ shift < 2 ^ 64
    → varuint_loop acc shift (write_varuint_loop rounds n ++ rest) ≡ got (acc + n * 2 ^ shift) rest
unfolding write_varuint_loop
varuint_loop-write zero n acc shift rest small fits = varuint_loop-last n acc shift rest small fits
varuint_loop-write (suc rounds) n acc shift rest small fits = elim (Bool-cases (ltb n 0x80)) [
  | inl one ↦ rw one (varuint_loop-last n acc shift rest (ground arith) fits)
  | inr more ↦
      let parts = low_and_high n shift in
      rw more (
        varuint_loop-more n acc shift (write_varuint_loop rounds (n / 128) ++ rest) (omega arith)
        ∙ varuint_loop-write rounds (n / 128) (acc + n % 128 * 2 ^ shift) (shift + 7) rest
            (omega arith) (omega arith)
        ∙ ap (λ (m : ℕ). got m rest) (omega arith))
]

-- Reading what `writeVaruint` writes gives the number back, for every uint64, and leaves what follows.
pub varuint-write_varuint :
    (n : ℕ) (rest : Bytes) → IsU64 n → varuint (write_varuint n ++ rest) ≡ got n rest
unfolding varuint write_varuint
varuint-write_varuint n rest fits =
    varuint_loop-write 9 n 0 0 rest (omega arith) (omega arith)
    ∙ ap (λ (m : ℕ). got m rest) (omega arith)

take-length : (b rest : Bytes) → take (length b) (b ++ rest) ≡ b
take-length [] rest = refl
take-length (x ∷ b) rest = ap (λ xs. x ∷ xs) (take-length b rest)

drop-length : (b rest : Bytes) → drop (length b) (b ++ rest) ≡ rest
drop-length [] rest = refl
drop-length (x ∷ b) rest = drop-length b rest

pub read_n-append :
    (b rest : Bytes) → length b ≤ max_bytes → read_n (length b) (b ++ rest) ≡ got b rest
unfolding read_n
read_n-append b rest small =
    rw
      (
        le→ltb max_bytes (length b) small,
        le→ltb (length (b ++ rest)) (length b) (omega (arith, length-append b rest)),
        take-length b rest,
        drop-length b rest,
      )
      refl

-- Reading what `writeVarbytes` writes gives the bytes back, where `make` allows as many, and leaves
-- what follows.
pub varbytes-write_varbytes :
    (b rest : Bytes) → length b ≤ max_bytes → varbytes (write_varbytes b ++ rest) ≡ got b rest
unfolding varbytes write_varbytes
varbytes-write_varbytes b rest small =
    let same : length b % 2 ^ 64 ≡ length b = omega arith in
    rw
      (
        same,
        append_assoc (write_varuint (length b)) b rest,
        varuint-write_varuint (length b) (b ++ rest) (omega arith),
      )
      (read_n-append b rest small)

-- ===== src/OpenTimestamps/Reading.antt =====
-- internal/witness/opentimestamps/wire.go: the reader over a byte slice.
-- A reader is a function of the bytes that are left.
use multi_log.Prelude.{
  ℕ, ◌+◌, ◌*◌, ◌%◌, ◌^◌, ltb, if◌then◌else◌, [], ◌∷◌, Bytes, codes, length, take, drop, Error, text,
}

-- How a read ends: with a value and the bytes that are left, with an error, or in a panic.
pub data Read {ℓ} (A : Type ℓ) : Type ℓ where
  got : A → Bytes → Read A
  failed : Error → Read A
  crashed : Read A

abbrev pub Reader {ℓ} : Type ℓ → Type ℓ
Reader A = Bytes → Read A

abbrev pub pass {ℓ} : {A : Type ℓ} → A → Reader A
pass a rest = got a rest

abbrev pub refuse {ℓ} : {A : Type ℓ} → Error → Reader A
refuse e rest = failed e

abbrev pub and_then {ℓ κ} : {A : Type ℓ} {B : Type κ} → Read A → (A → Reader B) → Read B
and_then (got a rest) f = f a rest
and_then (failed e) f = failed e
and_then crashed f = crashed

infixl 5 ◌>>=◌
abbrev pub ◌>>=◌ {ℓ κ} : {A : Type ℓ} {B : Type κ} → Reader A → (A → Reader B) → Reader B
(r >>= f) b = and_then (r b) f

abbrev pub end_of_input : Error
end_of_input = text (codes "EOF")

unfoldable pub read_byte : Reader ℕ
read_byte [] = failed end_of_input
read_byte (b ∷ rest) = got b rest

-- The largest slice of bytes that `make` does not refuse with a panic.
abbrev pub max_bytes : ℕ
max_bytes = 2 ^ 48

-- `readN(int(n))`: from 2 ^ 63 on `int(n)` is negative, for which `make` panics too.
unfoldable pub read_n : ℕ → Reader Bytes
read_n n b =
    if ltb max_bytes n
    then crashed
    else if ltb (length b) n
    then failed end_of_input
    else got (take n b) (drop n b)

-- The loop of `varuint`: `result` has no bit at `shift` or above, so that `|=` adds. A shift by 64
-- or more gives 0, as does the remainder.
unfoldable pub varuint_loop : ℕ → ℕ → Reader ℕ
varuint_loop result shift [] = failed end_of_input
varuint_loop result shift (b ∷ rest) =
    let result' = result + (b % 128) * 2 ^ shift % 2 ^ 64 in
    let more = varuint_loop result' (shift + 7) rest in
    if ltb b 0x80 then got result' rest else more

unfoldable pub varuint : Reader ℕ
unfolding varuint_loop
varuint b = varuint_loop 0 0 b

unfoldable pub varbytes : Reader Bytes
unfolding varuint read_n
varbytes = varuint >>= read_n

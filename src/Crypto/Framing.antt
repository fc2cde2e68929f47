-- ===== src/Crypto/Framing.antt =====
-- The encoder's framing: which byte strings a sequence of fields gives, and that it can be undone.
use multi_log.Prelude.{
  ℕ, ◌%◌, ◌^◌, ◌≤◌, ◌≡◌, refl, sym, ◌∙◌, ap, arith, List, [], ◌∷◌, ◌++◌, append-nil, append_assoc,
  Bytes, IsU64, length, length-append, All, append-cut, length-be_bytes, be_bytes-injective,
}
use multi_log.Crypto.{Encoder, put_uint64, field, new_encoder}
use mathlib.Core.List.{foldl}

-- `encode domain fields` writes the fields one after the other under a domain tag.
unfoldable pub encode : Bytes → List Bytes → Bytes
encode domain fields = (foldl (λ e b. field b e) (new_encoder domain) fields).buf

-- The bytes that one call of `field` adds.
frame : Bytes → Bytes
frame b = put_uint64 (length b % 2 ^ 64) ++ b

frames : List Bytes → Bytes
frames [] = []
frames (b ∷ bs) = frame b ++ frames bs

foldl-frames :
    (bs : List Bytes) (e : Encoder) → (foldl (λ e b. field b e) e bs).buf ≡ e.buf ++ frames bs
unfolding frames frame field
foldl-frames [] e = sym (append-nil e.buf)
foldl-frames (b ∷ bs) e = foldl-frames bs (field b e) ∙ append_assoc e.buf (frame b) (frames bs)

encode-frames : (domain : Bytes) (bs : List Bytes) → encode domain bs ≡ frames (domain ∷ bs)
unfolding encode new_encoder frames frame field
encode-frames domain bs = foldl-frames bs (new_encoder domain)

abbrev pub Fits : Bytes → Type 0
Fits b = IsU64 (length b)

pub length-put_uint64 : (n : ℕ) → length (put_uint64 n) ≡ 8
unfolding put_uint64
length-put_uint64 n = length-be_bytes 8 n

pub put_uint64-injective : (n m : ℕ) → IsU64 n → IsU64 m → put_uint64 n ≡ put_uint64 m → n ≡ m
unfolding put_uint64
put_uint64-injective n m hn hm e = be_bytes-injective 8 n m hn hm e

-- One field can be split off the front of the encoding.
frame-cut :
    (a b rest more : Bytes)
    → Fits a
    → Fits b
    → frame a ++ rest ≡ frame b ++ more
    → (a ≡ b) × (rest ≡ more)
unfolding frame
frame-cut a b rest more ha hb e =
    let (lens, tails) =
      append-cut (put_uint64 (length a % 2 ^ 64)) (a ++ rest) (put_uint64 (length b % 2 ^ 64))
        (b ++ more) (length-put_uint64 _ ∙ sym (length-put_uint64 _))
        (sym (append_assoc (put_uint64 (length a % 2 ^ 64)) a rest)
          ∙ e
          ∙ append_assoc (put_uint64 (length b % 2 ^ 64)) b more) in
    let same : length a % 2 ^ 64 ≡ length b % 2 ^ 64 =
      put_uint64-injective _ _ (omega arith) (omega arith) lens in
    append-cut a rest b more (omega arith) tails

length-frames_pos : (b : Bytes) (bs : List Bytes) → 8 ≤ length (frames (b ∷ bs))
unfolding frames frame
length-frames_pos b bs = omega (
  arith,
  length-append (frame b) (frames bs),
  length-append (put_uint64 (length b % 2 ^ 64)) b,
  length-put_uint64 (length b % 2 ^ 64),
)

frames-injective :
    (bs cs : List Bytes) → All Fits bs → All Fits cs → frames bs ≡ frames cs → bs ≡ cs
unfolding frames
frames-injective [] [] hb hc e = refl
frames-injective [] (c ∷ cs) hb hc e =
    absurd (omega (arith, length-frames_pos c cs, ap (length {A = ℕ}) e))
frames-injective (b ∷ bs) [] hb hc e =
    absurd (omega (arith, length-frames_pos b bs, ap (length {A = ℕ}) e))
frames-injective (b ∷ bs) (c ∷ cs) (hb, hbs) (hc, hcs) e =
    let (p, q) = frame-cut b c (frames bs) (frames cs) hb hc e in
    cc (frames-injective bs cs hbs hcs q)

-- Encodings are equal only if the domain tags and the fields, in number, order and content, are.
-- Every tag and field is shorter than 2 ^ 64 bytes.
pub encode-injective :
    (domain domain' : Bytes) (bs cs : List Bytes)
    → All Fits (domain ∷ bs)
    → All Fits (domain' ∷ cs)
    → encode domain bs ≡ encode domain' cs
    → (domain ≡ domain') × (bs ≡ cs)
encode-injective domain domain' bs cs hb hc e =
    let same : domain ∷ bs ≡ domain' ∷ cs =
      frames-injective (domain ∷ bs) (domain' ∷ cs) hb hc
        (sym (encode-frames domain bs) ∙ e ∙ encode-frames domain' cs) in
    (cc, cc)

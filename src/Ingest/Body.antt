-- ===== src/Ingest/Body.antt =====
-- internal/ingest/handler.go: the log objects of a request's body. encoding/json is a parameter;
-- bufio.Scanner is written out.
use multi_log.Prelude.{
  trim_space, is_empty, and_then, ℕ, ◌*◌, ◌^◌, ltb, ◌==◌, if◌then◌else◌, List, [], ◌∷◌, Option,
  none, some, Bytes, codes, length, text, Result, ok, err, ◌≡◌,
}

-- A `map[string]any`, nil included, and package json over it. `string_field` is `strVal` of a lookup:
-- `none` for a missing key or a value that is no string. The last law is that of a map literal.
pub record Json : Type 1 where
  pub Object : Type 0
  pub string_field : Bytes → Object → Option Bytes
  pub unmarshal_array : Bytes → Result (List Object)
  pub unmarshal_object : Bytes → Option Object
  pub marshal : Object → Option Bytes
  pub message_object : Bytes → Object
  pub message_field :
      (line : Bytes) → string_field (codes "message") (message_object line) ≡ some line

abbrev pub push : ℕ → List Bytes → List Bytes
push c [] = (c ∷ []) ∷ []
push c (line ∷ lines) = (c ∷ line) ∷ lines

-- The lines of bufio.ScanLines, before a carriage return at their end is dropped.
unfoldable pub split_lines : Bytes → List Bytes
split_lines [] = []
split_lines (c ∷ s) = let rest = split_lines s in if c == 10 then [] ∷ rest else push c rest

unfoldable pub drop_cr : Bytes → Bytes
drop_cr [] = []
drop_cr (c ∷ []) = if c == 13 then [] else c ∷ []
drop_cr (c ∷ d ∷ s) = c ∷ drop_cr (d ∷ s)

-- The scanner's buffer: a line with its end must fit.
abbrev pub max_token : ℕ
max_token = 8 * 2 ^ 20

module _ (json : Json) where
  unfoldable pub object_of : Bytes → json.Object
  object_of line = elim (json.unmarshal_object line) [
    | some o ↦ o
    | none ↦ json.message_object line
  ]

  -- The rest of the loop's body: a blank line is passed over.
  abbrev pub add_object : Bytes → Result (List json.Object) → Result (List json.Object)
  add_object line rest =
      if is_empty line then rest else and_then rest (λ objects. ok (object_of line ∷ objects))

  unfoldable pub parse_lines : List Bytes → Result (List json.Object)
  unfolding trim_space drop_cr
  parse_lines [] = ok []
  parse_lines (line ∷ lines) =
      let rest = parse_lines lines in
      if ltb (length line) max_token
      then add_object (trim_space (drop_cr line)) rest
      else err (text (codes "bufio.Scanner: token too long"))

  abbrev pub parse_trimmed : Bytes → Result (List json.Object)
  parse_trimmed [] = ok []
  parse_trimmed (c ∷ s) =
      if c == 91 then json.unmarshal_array (c ∷ s) else parse_lines (split_lines (c ∷ s))

  unfoldable pub parse_log_objects : Bytes → Result (List json.Object)
  unfolding parse_lines split_lines trim_space
  parse_log_objects body = parse_trimmed (trim_space body)

-- ===== src/Ingest/Lines.antt =====
-- Newline-delimited bodies against a description of what they hold.
use multi_log.Prelude.{
  trim_space, ℕ, ◌<◌, ◌≡◌, refl, ◌≢◌, List, [], ◌∷◌, ◌++◌, Bytes, length, is_empty, All, ok, lt→ltb,
  if◌then◌else◌, ne→==_false, ap, ◌∙◌,
}
use multi_log.Ingest.Body.{
  Json, push, split_lines, drop_cr, max_token, object_of, add_object, parse_lines, parse_trimmed,
  parse_log_objects,
}

-- Lines with a newline between any two.
abbrev pub join_lines : List Bytes → Bytes
join_lines [] = []
join_lines (line ∷ []) = line
join_lines (line ∷ x ∷ lines) = line ++ 10 ∷ join_lines (x ∷ lines)

-- One line, which fits the scanner's buffer.
abbrev pub IsLine : Bytes → Type 0
IsLine line = All (λ c. c ≢ 10) line × (length line < max_token)

module _ (json : Json) where
  -- The objects that lines stand for: blank lines none, each other one.
  abbrev pub objects_of : List Bytes → List json.Object
  objects_of [] = []
  objects_of (line ∷ lines) =
      let text = trim_space (drop_cr line) in
      let rest = objects_of lines in if is_empty text then rest else object_of json text ∷ rest

split_lines-cons : (c : ℕ) (s : Bytes) → c ≢ 10 → split_lines (c ∷ s) ≡ push c (split_lines s)
unfolding split_lines
split_lines-cons c s other = rw (split_lines, ne→==_false c 10 other) refl

split_lines-append :
    (line text : Bytes)
    → All (λ c. c ≢ 10) line
    → split_lines (line ++ 10 ∷ text) ≡ line ∷ split_lines text
unfolding split_lines
split_lines-append [] text inside = refl
split_lines-append (c ∷ line) text (other, inside) =
    split_lines-cons c (line ++ 10 ∷ text) other ∙ ap (push c) (split_lines-append line text inside)

split_lines-line :
    (c : ℕ) (line : Bytes) → All (λ x. x ≢ 10) (c ∷ line) → split_lines (c ∷ line) ≡ (c ∷ line) ∷ []
unfolding split_lines
split_lines-line c [] (other, _) = split_lines-cons c [] other
split_lines-line c (d ∷ line) (other, inside) =
    split_lines-cons c (d ∷ line) other ∙ ap (push c) (split_lines-line d line inside)

module _ (json : Json) where
  add_object-ok :
      (line : Bytes) (rest : List json.Object)
      → add_object json line (ok rest)
        ≡ ok (if is_empty line then rest else object_of json line ∷ rest)
  add_object-ok [] rest = refl
  add_object-ok (c ∷ line) rest = refl

  parse_lines-cons :
      (line : Bytes) (lines others : List Bytes)
      → length line < max_token
      → parse_lines json lines ≡ ok (objects_of json others)
      → parse_lines json (line ∷ lines) ≡ ok (objects_of json (line ∷ others))
  unfolding parse_lines
  parse_lines-cons line lines others fits rest =
      rw (parse_lines, lt→ltb (length line) max_token fits, rest)
        (add_object-ok (trim_space (drop_cr line)) (objects_of json others))

  parse_lines-join_lines :
      (lines : List Bytes)
      → All IsLine lines
      → parse_lines json (split_lines (join_lines lines)) ≡ ok (objects_of json lines)
  unfolding parse_lines split_lines trim_space drop_cr
  parse_lines-join_lines [] h = refl
  parse_lines-join_lines ([] ∷ []) h = refl
  parse_lines-join_lines ((c ∷ line) ∷ []) ((inside, fits), h) =
      rw (split_lines-line c line inside) (parse_lines-cons (c ∷ line) [] [] fits refl)
  parse_lines-join_lines (line ∷ x ∷ lines) ((inside, fits), h) =
      rw (split_lines-append line (join_lines (x ∷ lines)) inside) (
        parse_lines-cons line (split_lines (join_lines (x ∷ lines))) (x ∷ lines) fits
          (parse_lines-join_lines (x ∷ lines) h))

  -- A text that does not begin as an array does.
  abbrev pub IsNoArray : Bytes → Type 0
  IsNoArray [] = Unit {0}
  IsNoArray (c ∷ s) = c ≢ 91

  parse_trimmed-lines :
      (text : Bytes)
      → IsNoArray text
      → parse_trimmed json text ≡ parse_lines json (split_lines text)
  unfolding parse_lines split_lines
  parse_trimmed-lines [] h = refl
  parse_trimmed-lines (c ∷ s) h = rw (ne→==_false c 91 h) refl

  -- A body that is lines with newlines between, but for white space around them, and no array, is read
  -- as one object for each line that is not blank, in their order, where each line fits the scanner's
  -- buffer: none is lost, whether it is JSON or not.
  pub parse_log_objects-join_lines :
      (body : Bytes) (lines : List Bytes)
      → trim_space body ≡ join_lines lines
      → IsNoArray (join_lines lines)
      → All IsLine lines
      → parse_log_objects json body ≡ ok (objects_of json lines)
  unfolding parse_log_objects
  parse_log_objects-join_lines body lines trimmed no_array h =
      rw (parse_log_objects, trimmed)
        (parse_trimmed-lines (join_lines lines) no_array ∙ parse_lines-join_lines lines h)

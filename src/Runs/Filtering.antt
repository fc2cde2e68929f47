-- ===== src/Runs/Filtering.antt =====
-- A database that answers the searches of the log store.
use multi_log.Prelude.{
  ℕ, ◌+◌, ◌≡◌, refl, true, Bool, Bool-cases, inl, inr, if◌then◌else◌, ◌&&◌, List, [], ◌∷◌, ◌++◌,
  map, Option, none, some, Bytes, codes, bytes_equal, All, ℤ, Result, ok, err, text, take, drop,
  length, is_empty, ◌||◌, false, ap,
}
use multi_log.Witness.{decimal}
use multi_log.Logstore.{
  Row, Arg, text_arg, number_arg, time_arg, Conn, select_columns, search_query, join_and, table,
}
use multi_log.Logstore.Search.{
  Condition, of_tenant, ingested_from, ingested_to, with_text, of_source, sql, argument, meets,
  Meets, IsFiltering,
}

-- The comparison that a text begins with, given its argument, with the length of its text.
abbrev read_time : Bytes → ℤ → Option (Condition × ℕ)
read_time s n =
    if bytes_equal (take 16 s) (codes "ingest_time >= ?")
    then some (ingested_from n, 16)
    else if bytes_equal (take 16 s) (codes "ingest_time <= ?")
    then some (ingested_to n, 16)
    else none

abbrev read_text : Bytes → Bytes → Option (Condition × ℕ)
read_text s x =
    if bytes_equal (take 13 s) (codes "tenant_id = ?")
    then some (of_tenant x, 13)
    else if bytes_equal (take 10 s) (codes "source = ?")
    then some (of_source x, 10)
    else if bytes_equal (take 35 s) (codes "positionCaseInsensitive(raw, ?) > 0")
    then some (with_text x, 35)
    else none

abbrev read_one : Bytes → Arg → Option (Condition × ℕ)
read_one s (text_arg x) = read_text s x
read_one s (time_arg n) = read_time s n
read_one s (number_arg n) = none

abbrev prepend : Option (Condition × ℕ) → (ℕ → Option (List Condition)) → Option (List Condition)
prepend none f = none
prepend (some (c, n)) f = elim (f n) [ none ↦ none | some cs ↦ some (c ∷ cs) ]

abbrev prepended : Condition → Option (List Condition) → Option (List Condition)
prepended c found = prepend (some (c, 0)) (λ n. found)

-- The five bytes of " AND " stand between two comparisons.
abbrev read_all : Bytes → List Arg → Option (List Condition)
read_all s [] = some []
read_all s (a ∷ args) = prepend (read_one s a) (λ n. read_all (drop (n + 5) s) args)

read_all-sql :
    (cs : List Condition) (rest : Bytes)
    → read_all (join_and (map sql cs) ++ rest) (map argument cs) ≡ some cs
unfolding join_and
read_all-sql [] rest = refl
read_all-sql (of_tenant t ∷ []) rest = refl
read_all-sql (ingested_from n ∷ []) rest = refl
read_all-sql (ingested_to n ∷ []) rest = refl
read_all-sql (with_text x ∷ []) rest = refl
read_all-sql (of_source x ∷ []) rest = refl
read_all-sql (of_tenant t ∷ d ∷ cs) rest = ap (prepended (of_tenant t)) (read_all-sql (d ∷ cs) rest)
read_all-sql (ingested_from n ∷ d ∷ cs) rest =
    ap (prepended (ingested_from n)) (read_all-sql (d ∷ cs) rest)
read_all-sql (ingested_to n ∷ d ∷ cs) rest =
    ap (prepended (ingested_to n)) (read_all-sql (d ∷ cs) rest)
read_all-sql (with_text x ∷ d ∷ cs) rest = ap (prepended (with_text x)) (read_all-sql (d ∷ cs) rest)
read_all-sql (of_source x ∷ d ∷ cs) rest = ap (prepended (of_source x)) (read_all-sql (d ∷ cs) rest)

-- Whether a text occurs in another at its front or later.
abbrev pub occurs : Bytes → Bytes → Bool
occurs [] x = is_empty x
occurs (b ∷ bs) x = bytes_equal (take (length x) (b ∷ bs)) x || occurs bs x

abbrev all_meet : Row → List Condition → Bool
all_meet r [] = true
all_meet r (c ∷ cs) = meets occurs r c && all_meet r cs

all_meet-Meets : (r : Row) (cs : List Condition) → all_meet r cs ≡ true → Meets occurs cs r
all_meet-Meets r [] h = tt
all_meet-Meets r (c ∷ cs) h = elim (Bool-cases (meets occurs r c)) [
  | inl met ↦ (met, all_meet-Meets r cs (rw met at h))
  | inr failed ↦ let h' : false ≡ true = rw failed at h in absurd (cc)
]

abbrev meeting : List Condition → List Row → List Row
meeting cs [] = []
meeting cs (r ∷ rows) = let rest = meeting cs rows in if all_meet r cs then r ∷ rest else rest

meeting-Meets : (cs : List Condition) (rows : List Row) → All (Meets occurs cs) (meeting cs rows)
meeting-Meets cs [] = tt
meeting-Meets cs (r ∷ rows) = elim (Bool-cases (all_meet r cs)) [
  | inl met ↦ rw met (all_meet-Meets r cs met, meeting-Meets cs rows)
  | inr failed ↦ rw failed (meeting-Meets cs rows)
]

abbrev answer_of : Option (List Condition) → List Row → Result (List Row)
answer_of none rows = err (text (codes "syntax"))
answer_of (some cs) rows = ok (meeting cs rows)

abbrev prefix : Bytes
prefix = select_columns ++ codes "db.logs WHERE "

-- The comparisons are read from behind the table's name.
abbrev pub conn : Conn
conn = record {
  State = List Row;
  prepare_batch = λ q s. ok tt;
  append_row = λ r s. ok tt;
  send = λ rows s. (ok tt, s ++ rows);
  query_rows = λ q args s. answer_of (read_all (drop (length prefix) q) args) s;
  query_heads = λ q args s. ok [];
  query_tenants = λ q s. ok [];
  exec = λ q s. (ok tt, s);
}

pub conn-IsFiltering : IsFiltering conn (codes "db") occurs
unfolding search_query table
conn-IsFiltering cs limit s rows same =
    let whole = read_all-sql cs (codes " ORDER BY seq DESC LIMIT " ++ decimal limit) in
    let found : meeting cs s ≡ rows = let same' = rw whole at same in cc in
    rw (← found) (meeting-Meets cs s)

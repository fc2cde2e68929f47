-- ===== src/Logstore/Search.antt =====
-- What a search of the log store can return.
use multi_log.Prelude.{
  is_empty, and_then-ok, ℕ, leb, Bool, true, false, not, ◌||◌, ◌≡◌, refl, sym, ◌∙◌, ap, List, [],
  ◌∷◌, ◌++◌, map, Bytes, codes, bytes_equal, bytes_equal→eq, All, ℤ, pos, negsuc, ok, ok-injective,
}
use multi_log.Crypto.{Sha256}
use multi_log.Chain.{Entry}
use mathlib.Core.Path.{subst}
use multi_log.Logstore.{
  Row, Arg, text_arg, time_arg, Conn, to_row, from_row, from_hex, scan_entries, SearchParams,
  search_clauses, search_query, search_limit, search, add_clause, Clauses, is_zero,
}

-- The comparisons that a search is made of, their text in the statement, and their argument.
pub data Condition : Type 0 where
  of_tenant : Bytes → Condition
  ingested_from : ℤ → Condition
  ingested_to : ℤ → Condition
  with_text : Bytes → Condition
  of_source : Bytes → Condition

abbrev pub sql : Condition → Bytes
sql (of_tenant t) = codes "tenant_id = ?"
sql (ingested_from n) = codes "ingest_time >= ?"
sql (ingested_to n) = codes "ingest_time <= ?"
sql (with_text x) = codes "positionCaseInsensitive(raw, ?) > 0"
sql (of_source x) = codes "source = ?"

abbrev pub argument : Condition → Arg
argument (of_tenant t) = text_arg t
argument (ingested_from n) = time_arg n
argument (ingested_to n) = time_arg n
argument (with_text x) = text_arg x
argument (of_source x) = text_arg x

-- The order of the integers.
abbrev pub int_leb : ℤ → ℤ → Bool
int_leb (pos m) (pos n) = leb m n
int_leb (pos m) (negsuc n) = false
int_leb (negsuc m) (pos n) = true
int_leb (negsuc m) (negsuc n) = leb n m

-- What a comparison says of a row, where `occurs` stands for the database's search in a text.
abbrev pub meets : (Bytes → Bytes → Bool) → Row → Condition → Bool
meets occurs r (of_tenant t) = bytes_equal r.tenant_id t
meets occurs r (ingested_from n) = int_leb n r.ingest_time
meets occurs r (ingested_to n) = int_leb r.ingest_time n
meets occurs r (with_text x) = occurs r.raw x
meets occurs r (of_source x) = bytes_equal r.source x

abbrev pub Meets : (Bytes → Bytes → Bool) → List Condition → Row → Type 0
Meets occurs cs r = All (λ c. meets occurs r c ≡ true) cs

-- The database answers a SELECT whose WHERE clause joins such comparisons by AND with rows that meet
-- all of them.
abbrev pub IsFiltering : Conn → Bytes → (Bytes → Bytes → Bool) → Type 0
IsFiltering conn db occurs =
    (cs : List Condition) (limit : ℕ) (s : conn.State) (rows : List Row)
    → conn.query_rows (search_query db (map sql cs) limit) (map argument cs) s ≡ ok rows
    → All (Meets occurs cs) rows

-- One comparison more where it is asked for.
abbrev ask_if : Bool → Condition → List Condition → List Condition
ask_if true c cs = cs ++ c ∷ []
ask_if false c cs = cs

abbrev clauses_of : List Condition → Clauses
clauses_of cs = (map sql cs, map argument cs)

map-snoc {ℓ κ} :
    {A : Type ℓ} {B : Type κ} (f : A → B) (xs : List A) (x : A)
    → map f (xs ++ x ∷ []) ≡ map f xs ++ f x ∷ []
map-snoc f [] x = refl
map-snoc f (y ∷ xs) x = ap (λ ys. f y ∷ ys) (map-snoc f xs x)

add_clause-ask_if :
    (b : Bool) (c : Condition) (cs : List Condition)
    → add_clause b (sql c) (argument c) (clauses_of cs) ≡ clauses_of (ask_if b c cs)
add_clause-ask_if true c cs = rw (map-snoc sql cs c, map-snoc argument cs c) refl
add_clause-ask_if false c cs = refl

ask_if-All :
    (P : Condition → Bool) (b : Bool) (c : Condition) (cs : List Condition)
    → All (λ x. P x ≡ true) (ask_if (not b) c cs)
    → All (λ x. P x ≡ true) cs × (b || P c ≡ true)
ask_if-All P true c cs h = (h, refl)
ask_if-All P false c [] (h, _) = (tt, h)
ask_if-All P false c (x ∷ cs) (h, hs) =
    let (all, last) = ask_if-All P false c cs hs in ((h, all), last)

-- The comparisons of a search.
abbrev with_start : Bytes → SearchParams → List Condition
with_start t p = ask_if (not (is_zero p.start)) (ingested_from p.start) (of_tenant t ∷ [])

abbrev with_end : Bytes → SearchParams → List Condition
with_end t p = ask_if (not (is_zero p.end)) (ingested_to p.end) (with_start t p)

abbrev with_words : Bytes → SearchParams → List Condition
with_words t p = ask_if (not (is_empty p.text)) (with_text p.text) (with_end t p)

abbrev conditions : Bytes → SearchParams → List Condition
conditions t p = ask_if (not (is_empty p.source)) (of_source p.source) (with_words t p)

search_clauses-conditions :
    (t : Bytes) (p : SearchParams) → search_clauses t p ≡ clauses_of (conditions t p)
unfolding search_clauses
search_clauses-conditions t p =
    ap
      (λ c. add_clause (not (is_empty p.source)) (codes "source = ?") (text_arg p.source) (
        add_clause (not (is_empty p.text)) (codes "positionCaseInsensitive(raw, ?) > 0")
          (text_arg p.text)
          (add_clause (not (is_zero p.end)) (codes "ingest_time <= ?") (time_arg p.end) c)))
      (add_clause-ask_if (not (is_zero p.start)) (ingested_from p.start) (of_tenant t ∷ []))
    ∙ ap
        (λ c. add_clause (not (is_empty p.source)) (codes "source = ?") (text_arg p.source) (
          add_clause (not (is_empty p.text)) (codes "positionCaseInsensitive(raw, ?) > 0")
            (text_arg p.text) c))
        (add_clause-ask_if (not (is_zero p.end)) (ingested_to p.end) (with_start t p))
    ∙ ap (λ c. add_clause (not (is_empty p.source)) (codes "source = ?") (text_arg p.source) c)
        (add_clause-ask_if (not (is_empty p.text)) (with_text p.text) (with_end t p))
    ∙ add_clause-ask_if (not (is_empty p.source)) (of_source p.source) (with_words t p)

-- What was asked of an entry: the tenant always, and each parameter that is given.
pub record IsAsked (occurs : Bytes → Bytes → Bool) (t : Bytes) (p : SearchParams) (e : Entry)
    : Type 0 where
  pub tenant : e.tenant_id ≡ t
  pub from : is_zero p.start || int_leb p.start e.ingest_time ≡ true
  pub until : is_zero p.end || int_leb e.ingest_time p.end ≡ true
  pub words : is_empty p.text || occurs e.raw p.text ≡ true
  pub source : is_empty p.source || bytes_equal e.source p.source ≡ true

conditions-IsAsked :
    (occurs : Bytes → Bytes → Bool) (t : Bytes) (p : SearchParams) (e : Entry)
    → Meets occurs (conditions t p) (to_row e)
    → IsAsked occurs t p e
unfolding to_row
conditions-IsAsked occurs t p e h =
    let P : Condition → Bool = meets occurs (to_row e) in
    let (h1, source) = ask_if-All P (is_empty p.source) (of_source p.source) (with_words t p) h in
    let (h2, words) = ask_if-All P (is_empty p.text) (with_text p.text) (with_end t p) h1 in
    let (h3, until) = ask_if-All P (is_zero p.end) (ingested_to p.end) (with_start t p) h2 in
    let (h4, from) = ask_if-All P (is_zero p.start) (ingested_from p.start) (of_tenant t ∷ []) h3 in
    record {
      tenant = bytes_equal→eq e.tenant_id t h4.0;
      from = from;
      until = until;
      words = words;
      source = source;
    }

-- A row that is read back has the fields that the comparisons look at.
from_row-meets :
    (occurs : Bytes → Bytes → Bool) (c : Condition) (r : Row) (e : Entry)
    → from_row r ≡ ok e
    → meets occurs r c ≡ true
    → meets occurs (to_row e) c ≡ true
unfolding from_row to_row
from_row-meets occurs c r e h m =
    let (prev, _, h') = and_then-ok (from_hex r.prev_hash) _ h in
    let (hash, _, h'') = and_then-ok (from_hex r.entry_hash) _ h' in
    subst (λ x. meets occurs (to_row x) c ≡ true) (ok-injective h'')
      (elim c [
        | of_tenant t ↦ m
        | ingested_from n ↦ m
        | ingested_to n ↦ m
        | with_text x ↦ m
        | of_source x ↦ m
      ])

from_row-Meets :
    (occurs : Bytes → Bytes → Bool) (cs : List Condition) (r : Row) (e : Entry)
    → from_row r ≡ ok e
    → Meets occurs cs r
    → Meets occurs cs (to_row e)
from_row-Meets occurs [] r e h m = tt
from_row-Meets occurs (c ∷ cs) r e h (m, ms) =
    (from_row-meets occurs c r e h m, from_row-Meets occurs cs r e h ms)

scan_entries-IsAsked :
    (occurs : Bytes → Bytes → Bool) (t : Bytes) (p : SearchParams) (rows : List Row)
    (es : List Entry)
    → All (Meets occurs (conditions t p)) rows
    → scan_entries rows ≡ ok es
    → All (IsAsked occurs t p) es
unfolding scan_entries
scan_entries-IsAsked occurs t p [] [] met h = tt
scan_entries-IsAsked occurs t p [] (e ∷ es) met h = cc
scan_entries-IsAsked occurs t p (r ∷ rows) es (one, more) h =
    let (e, first, h') = and_then-ok (from_row r) _ h in
    let (es', others, h'') = and_then-ok (scan_entries rows) _ h' in
    let whole : e ∷ es' ≡ es = cc in
    rw (← whole) (
      conditions-IsAsked occurs t p e (from_row-Meets occurs (conditions t p) r e first one),
      scan_entries-IsAsked occurs t p rows es' more others,
    )

-- `Search` returns entries of the tenant that it is given alone, and those that the parameters ask
-- for, where the database answers with rows that meet the statement's comparisons.
pub search-IsAsked :
    ⦃sha : Sha256⦄ (conn : Conn) (db : Bytes) (occurs : Bytes → Bytes → Bool) (t : Bytes)
    (p : SearchParams) (s : conn.State) (es : List Entry)
    → IsFiltering conn db occurs
    → search conn db t p s ≡ ok es
    → All (IsAsked occurs t p) es
unfolding search
search-IsAsked conn db occurs t p s es filtering h =
    let (rows, answered, scanned) = and_then-ok _ scan_entries h in
    scan_entries-IsAsked occurs t p rows es
      (filtering (conditions t p) (search_limit p.limit) s rows (
        ap (λ (c : Clauses). conn.query_rows (search_query db c.0 (search_limit p.limit)) c.1 s)
          (sym (search_clauses-conditions t p))
        ∙ answered))
      scanned

-- ===== src/Chain.antt =====
-- internal/chain/store.go: log entries and the in-memory store.
-- The store's slices hold pointers, but the code reads and writes entries through the store alone,
-- so an entry is a value here. `sort.Slice` is insertion sort.
pub mod Sealer
pub mod Window
pub mod Sorted
use multi_log.Prelude.{
  ℕ, zero, suc, ◌+◌, ◌-◌, ◌%◌, ◌^◌, Bool, true, false, not, List, [], ◌∷◌, ◌++◌, Option, none, some,
  ltb, leb, ◌==◌, if◌then◌else◌, Bytes, bytes_less, ℤ, Map, ℕ_eq, Bytes_eq, get, put, keys, or_nil,
  Run, done, panicked, looping,
}
use mathlib.Core.List.{foldl, foldr}

pub record Entry : Type 0 where
  pub tenant_id : Bytes
  pub seq : ℕ
  pub event_time : ℤ
  pub ingest_time : ℤ
  pub source : Bytes
  pub raw : Bytes
  pub prev_hash : Bytes
  pub entry_hash : Bytes

pub record Store : Type 0 where
  pub entries : Map Bytes (List Entry)

abbrev pub new_store : Store
new_store = record { entries = [] }

unfoldable pub append : Entry → Store → Store
append e s = record {
  entries = put e.tenant_id (or_nil (get e.tenant_id s.entries) ++ e ∷ []) s.entries;
}

unfoldable pub insert_by_seq : Entry → List Entry → List Entry
insert_by_seq e [] = e ∷ []
insert_by_seq e (x ∷ xs) = if leb e.seq x.seq then e ∷ x ∷ xs else x ∷ insert_by_seq e xs

unfoldable pub sort_by_seq : List Entry → List Entry
sort_by_seq [] = []
sort_by_seq (e ∷ es) = insert_by_seq e (sort_by_seq es)

-- The slice that the map holds is sorted in place, so the store changes too.
unfoldable pub tenant : Bytes → Store → List Entry × Store
tenant id s = elim (get id s.entries) [
  | none ↦ ([], s)
  | some es ↦ (sort_by_seq es, record { entries = put id (sort_by_seq es) s.entries })
]

-- The map from sequence numbers that `Range` builds: a later entry replaces an earlier one.
unfoldable pub by_seq : List Entry → Map ℕ Entry → Map ℕ Entry
by_seq [] m = m
by_seq (e ∷ es) m = by_seq es (put e.seq e m)

-- `for seq := start; seq <= end; seq++`, with `rounds` rounds: `looping` where the test would still
-- hold after them.
unfoldable pub range_loop : ℕ → ℕ → ℕ → Map ℕ Entry → List Entry → Run (List Entry × Bool)
range_loop zero seq end byseq out = if leb seq end then looping else done (out, true)
range_loop (suc rounds) seq end byseq out = elim (leb seq end) [
  | false ↦ done (out, true)
  | true ↦ elim (get seq byseq) [
    | none ↦ done (out, false)
    | some e ↦ range_loop rounds ((seq + 1) % 2 ^ 64) end byseq (out ++ e ∷ [])
  ]
]

-- `make` panics where 8 bytes for each element pass the address space of 2 ^ 48 bytes.
abbrev pub max_pointers : ℕ
max_pointers = 2 ^ 45

-- `end - start + 1` on uint64.
abbrev pub window_size : ℕ → ℕ → ℕ
window_size start end = (end + 2 ^ 64 - start + 1) % 2 ^ 64

-- The rounds after which the loop of `Range` has ended, if it ends: up to the largest uint64 the number
-- wraps round and stays at most `end`, and after all 2 ^ 64 numbers the loop only repeats itself.
abbrev pub range_rounds : ℕ → ℕ → ℕ
range_rounds start end = if end + 1 == 2 ^ 64 then 2 ^ 64 else window_size start end

unfoldable pub range : Bytes → ℕ → ℕ → Store → Run (List Entry × Bool)
unfolding by_seq range_loop
range id start end s =
    if ltb max_pointers (window_size start end)
    then panicked
    else range_loop (range_rounds start end) start end (by_seq (or_nil (get id s.entries)) []) []

unfoldable pub without_seq : ℕ → List Entry → List Entry
without_seq seq [] = []
without_seq seq (e ∷ es) =
    let rest = without_seq seq es in if not (e.seq == seq) then e ∷ rest else rest

unfoldable pub delete : Bytes → ℕ → Store → Store
unfolding without_seq
delete tenant_id seq s = record {
  entries = put tenant_id (without_seq seq (or_nil (get tenant_id s.entries))) s.entries;
}

unfoldable pub insert_string : Bytes → List Bytes → List Bytes
insert_string x [] = x ∷ []
insert_string x (y ∷ ys) = if bytes_less y x then y ∷ insert_string x ys else x ∷ y ∷ ys

-- sort.Strings
unfoldable pub sort_strings : List Bytes → List Bytes
unfolding insert_string
sort_strings [] = []
sort_strings (x ∷ xs) = insert_string x (sort_strings xs)

unfoldable pub tenants : Store → List Bytes
unfolding sort_strings
tenants s = sort_strings (keys s.entries)

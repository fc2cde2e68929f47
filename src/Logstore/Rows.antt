-- ===== src/Logstore/Rows.antt =====
-- Rows of the log store, and what a search can return.
use multi_log.Prelude.{
  ◌≡◌, refl, List, [], ◌∷◌, map, Bytes, All, IsByte, encode_to_string,
  decode_string-encode_to_string, ok,
}
use multi_log.Chain.{Entry}
use multi_log.Logstore.{to_row, from_row, from_hex, scan_entries}

abbrev pub HashesAreBytes : Entry → Type 0
HashesAreBytes e = All IsByte e.prev_hash × All IsByte e.entry_hash

from_hex-encode_to_string : (b : Bytes) → All IsByte b → from_hex (encode_to_string b) ≡ ok b
from_hex-encode_to_string b bytes = rw (from_hex, decode_string-encode_to_string b bytes) refl

from_row-to_row : (e : Entry) → HashesAreBytes e → from_row (to_row e) ≡ ok e
unfolding from_row to_row
from_row-to_row e (prev, hash) =
    rw
      (
        from_row,
        to_row,
        from_hex-encode_to_string e.prev_hash prev,
        from_hex-encode_to_string e.entry_hash hash,
      )
      refl

-- Entries whose hashes are byte strings are read back by `scanEntries` from the rows that `Append`
-- sends for them, in the same order.
pub scan_entries-to_row :
    (es : List Entry) → All HashesAreBytes es → scan_entries (map to_row es) ≡ ok es
unfolding scan_entries
scan_entries-to_row [] bytes = refl
scan_entries-to_row (e ∷ es) (one, more) =
    rw (from_row-to_row e one, scan_entries-to_row es more) refl

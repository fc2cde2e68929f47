-- ===== src/Prelude/Http.antt =====
-- net/http, strconv and time, as far as the handlers use them.
use Prim.Native.Nat.{ℕ, zero, suc, ◌+◌, ◌-◌, ◌*◌, ◌^◌}
use mathlib.Core.Bool.{Bool, ◌&&◌}
use mathlib.Core.Option.{Option, none, some}
use mathlib.Core.List.{[], ◌∷◌}
use multi_log.Prelude.Tests.{ltb, leb, ◌==◌, if◌then◌else◌}
use multi_log.Prelude.ByteStrings.{Bytes}
use multi_log.Prelude.Int.{ℤ, pos, negsuc}

-- RFC 3339 with nanoseconds, from and to the nanoseconds since 1970: package time.
pub record TimeFormat : Type 0 where
  pub parse_rfc3339_nano : Bytes → Option ℤ
  pub format_rfc3339_nano : ℤ → Bytes

abbrev pub is_digit : ℕ → Bool
is_digit c = leb 48 c && leb c 57

abbrev pub digits_value : ℕ → Bytes → Option ℕ
digits_value acc [] = some acc
digits_value acc (c ∷ cs) =
    let rest = digits_value (acc * 10 + (c - 48)) cs in if is_digit c then rest else none

abbrev negated : ℕ → ℤ
negated zero = pos 0
negated (suc n) = negsuc n

abbrev pub in_range_pos : Option ℕ → Option ℤ
in_range_pos none = none
in_range_pos (some n) = if ltb n (2 ^ 63) then some (pos n) else none

abbrev pub in_range_neg : Option ℕ → Option ℤ
in_range_neg none = none
in_range_neg (some n) = if leb n (2 ^ 63) then some (negated n) else none

-- What follows a sign must be digits, one at least.
abbrev pub unsigned : Bytes → Option ℕ
unsigned [] = none
unsigned (c ∷ cs) = digits_value 0 (c ∷ cs)

-- strconv.Atoi and strconv.ParseInt in base 10, of 64 bits.
unfoldable pub parse_int : Bytes → Option ℤ
parse_int [] = none
parse_int (c ∷ cs) =
    if c == 45
    then in_range_neg (unsigned cs)
    else if c == 43
    then in_range_pos (unsigned cs)
    else in_range_pos (unsigned (c ∷ cs))

-- The statuses that the handlers answer with.
abbrev pub status_ok : ℕ
status_ok = 200

abbrev pub status_created : ℕ
status_created = 201

abbrev pub bad_request : ℕ
bad_request = 400

abbrev pub status_unauthorized : ℕ
status_unauthorized = 401

abbrev pub method_not_allowed : ℕ
method_not_allowed = 405

abbrev pub status_conflict : ℕ
status_conflict = 409

abbrev pub internal_server_error : ℕ
internal_server_error = 500

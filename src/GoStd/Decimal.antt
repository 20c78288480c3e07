-- ===== src/GoStd/Decimal.antt =====
-- `strconv`: `%d` of an int64 and `ParseInt(s, 10, 64)`; `Atoi` is the same function on a 64-bit
-- machine.
pub mod RoundTrip
use go_personal_web.Prelude.{
  ℕ, zero, suc, ◌+◌, ◌-◌, ◌*◌, ◌/◌, ◌%◌, ◌^◌, Bool, true, false, ◌||◌, Option, none, some, [], ◌∷◌,
  ltb, leb, ◌==◌, if◌then◌else◌, Bytes, ℤ, pos, negsuc,
}

-- The loop of `formatBits`: one digit a round, from the last. A 64-bit number has at most 20.
emit : ℕ → ℕ → Bytes → Bytes
emit zero n out = out
emit (suc f) n out =
    let more = emit f (n / 10) ((b'0' + n % 10) ∷ out) in
    if ltb n 10 then (b'0' + n % 10) ∷ out else more

unfoldable pub format_uint : ℕ → Bytes
unfolding emit
format_uint n = emit 20 n []

-- `%d`
unfoldable pub format_int : ℤ → Bytes
format_int (pos n) = format_uint n
format_int (negsuc n) = b'-' ∷ format_uint (n + 1)

-- The loop of `ParseUint` in base 10: `n >= cutoff` and the wrapped sum are its overflow tests.
scan : Bytes → ℕ → Option ℕ
scan [] n = some n
scan (c ∷ s) n =
    let more = scan s ((n * 10 + (c - b'0')) % 2 ^ 64) in
    if ltb c b'0' || ltb b'9' c
    then none
    else if leb ((2 ^ 64 - 1) / 10 + 1) n
    then none
    else if ltb ((n * 10 + (c - b'0')) % 2 ^ 64) (n * 10)
    then none
    else more

unfoldable pub parse_uint : Bytes → Option ℕ
unfolding scan
parse_uint [] = none
parse_uint (c ∷ s) = scan (c ∷ s) 0

-- The magnitude with its sign, where it fits.
signed : Bool → Option ℕ → Option ℤ
signed neg none = none
signed false (some n) = if leb (2 ^ 63) n then none else some (pos n)
signed true (some n) =
    if ltb (2 ^ 63) n then none else some (if n == 0 then pos 0 else negsuc (n - 1))

unfoldable pub parse_int : Bytes → Option ℤ
unfolding signed
parse_int [] = none
parse_int (c ∷ s) =
    if c == b'+'
    then signed false (parse_uint s)
    else if c == b'-'
    then signed true (parse_uint s)
    else signed false (parse_uint (c ∷ s))

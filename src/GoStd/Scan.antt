-- ===== src/GoStd/Scan.antt =====
-- `fmt.Sscanf` with literal bytes and `%d`: each step takes the input to a value and the input left.
-- Input behind the last verb is not looked at, as in Go.
use go_personal_web.Prelude.{
  ℕ, ◌^◌, ◌<◌, ◌≡◌, ◌≢◌, refl, Bool, true, false, ◌&&◌, ◌||◌, Option, none, some, [], ◌∷◌, ◌++◌,
  arith, leb, ltb, ◌==◌, if◌then◌else◌, Bytes, ℤ, All, Bool-cases, lt→ltb, inl, inr,
}
use go_personal_web.GoStd.Strings.{is_space1, is_space2, is_space3}
use go_personal_web.GoStd.Decimal.{parse_uint, parse_int, format_uint}
use go_personal_web.GoStd.Decimal.RoundTrip.{
  IsDigit, format_uint-IsDigit, format_uint-ne-nil, parse_uint-format_uint,
}

infixl 5 ◌>>=◌ ◌>>◌
abbrev pub ◌>>=◌ {ℓ κ} : {A : Type ℓ} {B : Type κ} → Option A → (A → Option B) → Option B
none >>= f = none
some a >>= f = f a

abbrev pub ◌>>◌ {ℓ} : {B : Type ℓ} → Option (Unit {0}) → Option B → Option B
m >> k = m >>= λ _. k

-- An early return with an error where the test fails.
abbrev pub check : Bool → Option (Unit {0})
check true = some tt
check false = none

-- A byte of the format that is no verb and no space.
unfoldable pub scan_byte : ℕ → Bytes → Option Bytes
scan_byte c [] = none
scan_byte c (d ∷ s) = if d == c then some s else none

-- `SkipSpace`: a newline is an error.
skip_space : Bytes → Option Bytes
skip_space [] = some []
skip_space (a ∷ []) = if a == 10 then none else if is_space1 a then some [] else some (a ∷ [])
skip_space (a ∷ b ∷ []) =
    let after1 = skip_space (b ∷ []) in
    if a == 10
    then none
    else if is_space1 a
    then after1
    else if is_space2 a b
    then some []
    else some (a ∷ b ∷ [])
skip_space (a ∷ b ∷ c ∷ s) =
    let after1 = skip_space (b ∷ c ∷ s) in
    let after2 = skip_space (c ∷ s) in
    let after3 = skip_space s in
    if a == 10
    then none
    else if is_space1 a
    then after1
    else if is_space2 a b
    then after2
    else if is_space3 a b c
    then after3
    else some (a ∷ b ∷ c ∷ s)

is_digit : ℕ → Bool
is_digit c = leb b'0' c && leb c b'9'

-- The digits at the front, and what follows them.
take_digits : Bytes → Bytes × Bytes
take_digits [] = ([], [])
take_digits (c ∷ s) =
    let rest = take_digits s in if is_digit c then (c ∷ rest.0, rest.1) else ([], c ∷ s)

abbrev keep_rest {ℓ} : {A : Type ℓ} → Option A → Bytes → Option (A × Bytes)
keep_rest none rest = none
keep_rest (some a) rest = some (a, rest)

-- `scanUint` into a word of `bits` bits.
unfoldable pub scan_uint : ℕ → Bytes → Option (ℕ × Bytes)
unfolding skip_space take_digits is_digit
scan_uint bits s = do
  t ← skip_space s
  n ← parse_uint (take_digits t).0
  if ltb n (2 ^ bits) then some (n, (take_digits t).1) else none

scan_signed : Bytes → Option (ℤ × Bytes)
scan_signed [] = none
scan_signed (c ∷ t) =
    if c == b'+' || c == b'-'
    then keep_rest (parse_int (c ∷ (take_digits t).0)) (take_digits t).1
    else keep_rest (parse_int (take_digits (c ∷ t)).0) (take_digits (c ∷ t)).1

-- `scanInt` into an `int`: a sign may come first.
unfoldable pub scan_int : Bytes → Option (ℤ × Bytes)
unfolding skip_space scan_signed take_digits is_digit
scan_int s = do t ← skip_space s; scan_signed t

abbrev pub NoDigit : Bytes → Type 0
NoDigit [] = Unit {0}
NoDigit (c ∷ s) = IsDigit c → ⊥

take_digits-append :
    (ds rest : Bytes) → All IsDigit ds → NoDigit rest → take_digits (ds ++ rest) ≡ (ds, rest)
unfolding take_digits is_digit
take_digits-append [] [] h k = refl
take_digits-append [] (c ∷ rest) h k = elim (Bool-cases (is_digit c)) [
  | inl e ↦ absurd (k (ground arith, ground arith))
  | inr e ↦ rw e
]
take_digits-append (d ∷ ds) rest (hd, h) k = ground (arith, take_digits-append ds rest h k)

skip_space-digit : (c : ℕ) (s : Bytes) → IsDigit c → skip_space (c ∷ s) ≡ some (c ∷ s)
unfolding skip_space is_space1 is_space2 is_space3
skip_space-digit c [] h = ground arith
skip_space-digit c (d ∷ []) h = ground arith
skip_space-digit c (d ∷ e ∷ s) h = ground arith

scan_uint-digits :
    (bits : ℕ) (ds rest : Bytes)
    → All IsDigit ds
    → ds ≢ []
    → NoDigit rest
    → scan_uint bits (ds ++ rest)
      ≡ (parse_uint ds >>= λ n. if ltb n (2 ^ bits) then some (n, rest) else none)
unfolding scan_uint
scan_uint-digits bits [] rest h ne k = absurd (ne refl)
scan_uint-digits bits (d ∷ ds) rest h ne k =
    rw (skip_space-digit d (ds ++ rest) h.0, take_digits-append (d ∷ ds) rest h k)

-- A printed number in range is read back, up to what follows it.
pub scan_uint-format_uint :
    (bits n : ℕ) (rest : Bytes)
    → n < 2 ^ bits
    → n < 2 ^ 64
    → NoDigit rest
    → scan_uint bits (format_uint n ++ rest) ≡ some (n, rest)
scan_uint-format_uint bits n rest small fits k =
    rw
      (
        scan_uint-digits bits (format_uint n) rest (format_uint-IsDigit n) (format_uint-ne-nil n) k,
        parse_uint-format_uint n fits,
      )
      (ground (arith, lt→ltb n (2 ^ bits) small))

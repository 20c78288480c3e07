-- ===== src/GoStd/Decimal/RoundTrip.antt =====
-- Reading back what `%d` prints, and which bytes it prints.
use go_personal_web.Prelude.{
  ℕ, zero, suc, ◌+◌, ◌-◌, ◌*◌, ◌/◌, ◌%◌, ◌^◌, ◌≤◌, ◌<◌, ◌≡◌, ◌≢◌, refl, none, some, [], ◌∷◌, ◌∙◌,
  false, Lacks, codes, IsByte, arith, ltb, Bytes, ℤ, pos, negsuc, IsInt64, All, Bool-cases, inl,
  inr,
}
use go_personal_web.GoStd.Decimal.{
  emit, format_uint, format_int, scan, parse_uint, signed, parse_int,
}

abbrev pow10 : ℕ → ℕ
pow10 zero = 1
pow10 (suc f) = 10 * pow10 f

scan_digit : (n : ℕ) (out : Bytes) → n < 2 ^ 64 → scan ((b'0' + n % 10) ∷ out) (n / 10) ≡ scan out n
unfolding scan
scan_digit n out h = ground arith

scan_first : (n : ℕ) (out : Bytes) → n < 10 → scan ((b'0' + n % 10) ∷ out) 0 ≡ scan out n
unfolding scan
scan_first n out h = ground arith

-- Twenty rounds are enough for every 64-bit number.
scan-emit :
    (f n : ℕ) (out : Bytes)
    → n < pow10 (suc f)
    → n < 2 ^ 64
    → scan (emit (suc f) n out) 0 ≡ scan out n
unfolding emit scan
scan-emit zero n out small fits = ground (arith, scan_first n out)
scan-emit (suc f) n out small fits = elim (Bool-cases (ltb n 10)) [
  | inl last ↦ rw (last, emit) (scan_first n out (ground arith))
  | inr more ↦
      rw (more, emit) (scan-emit f (n / 10) _ (omega arith) (omega arith) ∙ scan_digit n out fits)
]

abbrev pub IsDigit : ℕ → Type 0
IsDigit c = (b'0' ≤ c) × (c ≤ b'9')

emit-IsDigit : (f n : ℕ) (out : Bytes) → All IsDigit out → All IsDigit (emit f n out)
unfolding emit
emit-IsDigit zero n out h = h
emit-IsDigit (suc f) n out h =
    ground (arith, emit-IsDigit f (n / 10) ((b'0' + n % 10) ∷ out) ((omega arith, omega arith), h))

pub format_uint-IsDigit : (n : ℕ) → All IsDigit (format_uint n)
unfolding format_uint
format_uint-IsDigit n = emit-IsDigit 20 n [] tt

emit-ne-nil : (f n : ℕ) (out : Bytes) → out ≢ [] → emit f n out ≢ []
unfolding emit
emit-ne-nil zero n out h = h
emit-ne-nil (suc f) n out h = ground (arith, emit-ne-nil f (n / 10) ((b'0' + n % 10) ∷ out))

pub format_uint-ne-nil : (n : ℕ) → format_uint n ≢ []
unfolding format_uint emit
format_uint-ne-nil n = ground (arith, emit-ne-nil 19 (n / 10) ((b'0' + n % 10) ∷ []))

parse_uint-scan : (s : Bytes) → s ≢ [] → parse_uint s ≡ scan s 0
unfolding parse_uint
parse_uint-scan [] h = absurd (h refl)
parse_uint-scan (c ∷ s) h = refl

-- Every uint64 is read back from its decimal print.
pub parse_uint-format_uint : (n : ℕ) → n < 2 ^ 64 → parse_uint (format_uint n) ≡ some n
unfolding format_uint scan
parse_uint-format_uint n h =
    rw (parse_uint-scan _ (format_uint-ne-nil n)) (scan-emit 19 n [] (omega arith) h)

parse_int_of_digits :
    (s : Bytes) → All IsDigit s → s ≢ [] → parse_int s ≡ signed false (parse_uint s)
unfolding parse_int
parse_int_of_digits [] d h = absurd (h refl)
parse_int_of_digits (c ∷ s) d h = ground arith

-- Every int64 is read back from its decimal print.
pub parse_int-format_int : (z : ℤ) → IsInt64 z → parse_int (format_int z) ≡ some z
unfolding format_int
parse_int-format_int (pos n) h =
    rw
      (
        parse_int_of_digits _ (format_uint-IsDigit n) (format_uint-ne-nil n),
        parse_uint-format_uint n (omega arith),
      )
      (unfold signed in ground arith)
parse_int-format_int (negsuc n) h =
    unfold parse_int in
    rw (parse_uint-format_uint (n + 1) (omega arith)) (unfold signed in ground arith)

IsDigit-Lacks : (sep : ℕ) (s : Bytes) → b'9' < sep → All IsDigit s → Lacks sep s
IsDigit-Lacks sep [] h d = tt
IsDigit-Lacks sep (c ∷ s) h (d, ds) = ((λ e. omega arith), IsDigit-Lacks sep s h ds)

-- The bytes of a print are digits and a minus sign: it lacks every separator.
pub format_int-Lacks : (sep : ℕ) (z : ℤ) → b'9' < sep → Lacks sep (format_int z)
unfolding format_int
format_int-Lacks sep (pos n) h = IsDigit-Lacks sep _ h (format_uint-IsDigit n)
format_int-Lacks sep (negsuc n) h =
    ((λ e. omega arith), IsDigit-Lacks sep _ h (format_uint-IsDigit (n + 1)))

IsDigit-IsByte : (s : Bytes) → All IsDigit s → All IsByte s
IsDigit-IsByte [] d = tt
IsDigit-IsByte (c ∷ s) (d, ds) = (omega arith, IsDigit-IsByte s ds)

pub format_int-IsByte : (z : ℤ) → All IsByte (format_int z)
unfolding format_int
format_int-IsByte (pos n) = IsDigit-IsByte _ (format_uint-IsDigit n)
format_int-IsByte (negsuc n) = (omega arith, IsDigit-IsByte _ (format_uint-IsDigit (n + 1)))

prints : (format_int (pos 1795670842) ≡ codes "1795670842") × (format_int (negsuc 41) ≡ codes "-42")
unfolding format_int format_uint codes
prints = (refl, refl)

refused :
    (parse_int (codes "9223372036854775808") ≡ none)
    × (parse_int (codes "-9223372036854775808") ≡ some (negsuc (2 ^ 63 - 1)))
    × (parse_int (codes "") ≡ none)
    × (parse_int (codes "+7") ≡ some (pos 7))
    × (parse_int (codes "1_0") ≡ none)
unfolding parse_int parse_uint codes
refused = (refl, refl, refl, refl, refl)

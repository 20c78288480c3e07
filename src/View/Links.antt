-- ===== src/View/Links.antt =====
-- internal/view/view.go: the links of a list, read as a browser and `net/http` read them.
use go_personal_web.Prelude.{
  ℕ, ◌≡◌, ◌∙◌, ap, refl, subst, append-nil, [], ◌∷◌, ◌++◌, Bytes, Lacks, codes, All, IsByte,
  All-append, ◌=ᵇ◌, ℤ, pos, ltb_ℤ, if◌then◌else◌, arith, Bool-cases, inl, inr,
}
use mathlib.Core.List.{flat_map}
use go_personal_web.GoStd.Strings.{split}
use go_personal_web.GoStd.Urls.{query_escape, query_unescape, parse_part, parse_query, raw_query}
use go_personal_web.GoStd.Urls.Laws.{
  query_escape-Lacks, parse_part_pair, query_escape_digits, raw_query-append, raw_query-Lacks,
  parse_query_one, parse_query_two,
}
use go_personal_web.GoStd.Decimal.{format_int}
use go_personal_web.GoStd.Decimal.RoundTrip.{IsDigit, format_uint-IsDigit, format_int-IsByte}
use go_personal_web.Http.{Pairs}
use go_personal_web.View.{list_url}

-- The pairs that the URL of a list stands for.
abbrev pub link_pairs : Bytes → ℤ → Pairs
link_pairs query page =
    let number = if ltb_ℤ (pos 1) page then (codes "page", format_int page) ∷ [] else [] in
    if query =ᵇ [] then number else (codes "q", query) ∷ number

format_pos : (n : ℕ) → query_escape (format_int (pos n)) ≡ format_int (pos n)
unfolding format_int
format_pos n = query_escape_digits _ (format_uint-IsDigit n)

text_read :
    (query : Bytes)
    → All IsByte query
    → parse_part (codes "q" ++ b'=' ∷ query_escape query) ≡ (codes "q", query) ∷ []
unfolding codes
text_read query h =
    parse_part_pair (codes "q") query (λ e. cc) (omega arith) (omega arith)
      (unfold query_unescape in refl) h

page_read :
    (n : ℕ)
    → parse_part (codes "page" ++ b'=' ∷ format_int (pos n))
      ≡ (codes "page", format_int (pos n)) ∷ []
unfolding codes
page_read n =
    subst (λ s. parse_part (codes "page" ++ b'=' ∷ s) ≡ (codes "page", format_int (pos n)) ∷ [])
      (format_pos n)
      (parse_part_pair (codes "page") (format_int (pos n)) (λ e. cc) (omega arith) (omega arith)
        (unfold query_unescape in refl) (format_int-IsByte (pos n)))

text_Lacks :
    (query : Bytes) → All IsByte query → Lacks b'&' (codes "q" ++ b'=' ∷ query_escape query)
unfolding codes
text_Lacks query h =
    All-append _ (codes "q") (b'=' ∷ query_escape query) (omega arith)
      ((λ e. omega arith), query_escape-Lacks b'&' query (inl refl) h)

digits-Lacks : (s : Bytes) → All IsDigit s → Lacks b'&' s
digits-Lacks [] h = tt
digits-Lacks (c ∷ s) (d, h) = ((λ e. omega arith), digits-Lacks s h)

page_Lacks : (n : ℕ) → Lacks b'&' (codes "page" ++ b'=' ∷ format_int (pos n))
unfolding codes
page_Lacks n =
    All-append _ (codes "page") (b'=' ∷ format_int (pos n)) (omega arith)
      ((λ e. omega arith), unfold format_int in digits-Lacks _ (format_uint-IsDigit n))

one_part :
    (base part : Bytes)
    → Lacks b'?' base
    → Lacks b'&' part
    → parse_query (raw_query (base ++ b'?' ∷ part)) ≡ parse_part part
one_part base part hb hp = rw (raw_query-append base part hb, parse_query_one part hp)

two_parts :
    (base part next : Bytes)
    → Lacks b'?' base
    → Lacks b'&' part
    → Lacks b'&' next
    → parse_query (raw_query (base ++ b'?' ∷ (part ++ b'&' ∷ next)))
      ≡ parse_part part ++ parse_part next
two_parts base part next hb hp hn =
    rw (raw_query-append base (part ++ b'&' ∷ next) hb, parse_query_two part next hp hn)

no_part : (base : Bytes) → Lacks b'?' base → parse_query (raw_query (base ++ [])) ≡ []
no_part base hb =
    rw (append-nil, raw_query-Lacks base hb) (unfold parse_query parse_part flat_map split in refl)

-- The link of a list of page `n` is read back as the text and the page that it was made for; the
-- first page is left out.
pub list_url_roundtrip :
    (base query : Bytes) (n : ℕ)
    → Lacks b'?' base
    → All IsByte query
    → parse_query (raw_query (list_url base query (pos n))) ≡ link_pairs query (pos n)
unfolding list_url codes
list_url_roundtrip base query n hb hq =
    let text = codes "q" ++ b'=' ∷ query_escape query in
    let number = codes "page" ++ b'=' ∷ format_int (pos n) in
    elim (Bool-cases (query =ᵇ [])) [
      | inl empty ↦ elim (Bool-cases (ltb_ℤ (pos 1) (pos n))) [
        | inl later ↦ rw (empty, later) (one_part base number hb (page_Lacks n) ∙ page_read n)
        | inr first ↦ rw (empty, first) (no_part base hb)
      ]
      | inr filled ↦ elim (Bool-cases (ltb_ℤ (pos 1) (pos n))) [
        | inl later ↦
            rw (filled, later)
              (two_parts base text number hb (text_Lacks query hq) (page_Lacks n)
                ∙ rw (text_read query hq, page_read n))
        | inr first ↦
            rw (filled, first)
              (ap (λ t. parse_query (raw_query (base ++ b'?' ∷ b'q' ∷ b'=' ∷ t)))
                  (append-nil (query_escape query))
                ∙ one_part base text hb (text_Lacks query hq)
                ∙ text_read query hq)
      ]
    ]

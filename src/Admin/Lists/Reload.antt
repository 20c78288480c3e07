-- ===== src/Admin/Lists/Reload.antt =====
-- internal/admin/lists.go and internal/view/view.go: a list screen survives a reload of its URL.
use go_personal_web.Prelude.{
  ℕ, ◌^◌, ◌<◌, ◌≡◌, refl, sym, true, false, [], Bytes, Lacks, codes, All, IsByte, ℤ, pos, ltb_ℤ,
  ◌=ᵇ◌, =ᵇ_iff, arith, Bool-cases, inl, inr,
}
use go_personal_web.GoStd.Urls.{parse_query, raw_query}
use go_personal_web.GoStd.Decimal.{parse_int, format_int}
use go_personal_web.GoStd.Decimal.RoundTrip.{parse_int-format_int}
use go_personal_web.Http.{Request, get, find_pair}
use go_personal_web.View.{list_url}
use go_personal_web.View.Links.{link_pairs, list_url_roundtrip}
use go_personal_web.Admin.Lists.{page_of, listing_from}

get_text : (query : Bytes) (page : ℤ) → get (codes "q") (link_pairs query page) ≡ query
unfolding get find_pair codes ◌=ᵇ◌
get_text query page = elim (Bool-cases (query =ᵇ [])) [
  | inl empty ↦ elim (Bool-cases (ltb_ℤ (pos 1) page)) [
    | inl later ↦ rw (empty, later) (sym ((=ᵇ_iff query []).0 empty))
    | inr first ↦ rw (empty, first) (sym ((=ᵇ_iff query []).0 empty))
  ]
  | inr filled ↦ rw (filled) refl
]

back :
    (n : ℕ)
    → ltb_ℤ (pos 1) (pos n) ≡ true
    → n < 2 ^ 63
    → page_of (parse_int (format_int (pos n))) ≡ pos n
unfolding page_of
back n later h = rw (parse_int-format_int (pos n) (omega arith)) (ground arith)

only_first : (n : ℕ) → ltb_ℤ (pos 1) (pos n) ≡ false → 0 < n → page_of (parse_int []) ≡ pos n
unfolding page_of parse_int
only_first n first h = ground arith

get_page :
    (query : Bytes) (n : ℕ)
    → 0 < n
    → n < 2 ^ 63
    → page_of (parse_int (get (codes "page") (link_pairs query (pos n)))) ≡ pos n
unfolding get find_pair codes ◌=ᵇ◌
get_page query n h k = elim (Bool-cases (ltb_ℤ (pos 1) (pos n))) [
  | inl later ↦ elim (Bool-cases (query =ᵇ [])) [
    | inl empty ↦ rw (empty, later) (back n later k)
    | inr filled ↦ rw (filled, later) (back n later k)
  ]
  | inr first ↦ elim (Bool-cases (query =ᵇ [])) [
    | inl empty ↦ rw (empty, first) (only_first n first h)
    | inr filled ↦ rw (filled, first) (only_first n first h)
  ]
]

-- The URL that the list prints for a text and a page reads back as that text and that page.
pub listing_from-list_url :
    (r : Request) (base query : Bytes) (n : ℕ)
    → Lacks b'?' base
    → All IsByte query
    → 0 < n
    → n < 2 ^ 63
    → r.query ≡ parse_query (raw_query (list_url base query (pos n)))
    → listing_from r ≡ record { text = query; page = pos n; per_page = pos 51 }
unfolding listing_from
listing_from-list_url r base query n hb hq h k e =
    rw (e, list_url_roundtrip base query n hb hq, get_text query (pos n), get_page query n h k)

-- ===== src/Admin/Lists/Browsing.antt =====
-- internal/admin/lists.go: what a reader sees who loads more until nothing more is offered.
use go_personal_web.Prelude.{
  ℕ, zero, suc, ◌+◌, ◌-◌, ◌*◌, ◌^◌, ◌≤◌, ◌<◌, ◌≡◌, ◌≢◌, refl, ap, sym, subst, ◌∙◌, true, false,
  List, [], ◌∷◌, ◌++◌, Bytes, codes, ℤ, pos, leb, length, take, drop, if◌then◌else◌, arith,
  Bool-cases, inl, inr, All, IsByte,
}
use go_personal_web.GoStd.Time.{Time}
use go_personal_web.GoStd.Decimal.{parse_int}
use go_personal_web.Http.{Request, get}
use go_personal_web.View.{Zone, PostListing, list_url}
use go_personal_web.Content.{Post}
use go_personal_web.Admin.Render.{render}
use go_personal_web.Admin.Store.{Store}
use go_personal_web.Content.Store.{Listing}
use go_personal_web.GoStd.Urls.{parse_query, raw_query}
use go_personal_web.Admin.Lists.Reload.{listing_from-list_url}
use go_personal_web.Admin.Lists.{listing_from, page_of, post_screen, list_posts}
use go_personal_web.Admin.Lists.Paging.{IsPaged, list_posts_paged}

-- A list without the item behind the next `n`, and without each 51st item from there on.
unfoldable pub thinned {ℓ} : {A : Type ℓ} → ℕ → List A → List A
thinned n [] = []
thinned zero (x ∷ xs) = thinned 50 xs
thinned (suc n) (x ∷ xs) = x ∷ thinned n xs

-- What the browser of `r` asks for by the URL that the list prints for a page.
abbrev pub followed : Request → (text : Bytes) → ℤ → Request
followed r text p = record r {
  query = parse_query (raw_query (list_url (codes "/admin/posts") text p));
}

-- What a reader has seen from a page on who follows the URL of the next page as long as one is
-- offered; `now` is the instant at which each page is answered.
pub data Browsed (s : Store) (zone : Zone) (st : s.State) (text : Bytes) (r : Request)
    (now : ℤ → Time) : ℤ → List Post → Type 0 where
  last :
      (p : ℤ) (shown : PostListing)
      → list_posts s zone (now p) (followed r text p) st
        ≡ render (followed r text p) (post_screen p shown (now p))
      → shown.list.next_page ≡ pos 0
      → Browsed s zone st text r now p shown.posts
  more :
      (p : ℤ) (shown : PostListing) (rest : List Post)
      → list_posts s zone (now p) (followed r text p) st
        ≡ render (followed r text p) (post_screen p shown (now p))
      → shown.list.next_page ≢ pos 0
      → Browsed s zone st text r now shown.list.next_page rest
      → Browsed s zone st text r now p (shown.posts ++ rest)

thinned-page :
    (n : ℕ) (xs : List Post)
    → n < length xs
    → thinned n xs ≡ take n xs ++ thinned 50 (drop (suc n) xs)
unfolding thinned
thinned-page n [] h = absurd (omega arith)
thinned-page zero (x ∷ xs) h = refl
thinned-page (suc n) (x ∷ xs) h = ap (λ t. x ∷ t) (thinned-page n xs (omega arith))

thinned-last : (n : ℕ) (xs : List Post) → length xs ≤ n → thinned n xs ≡ take n xs
unfolding thinned
thinned-last zero [] h = refl
thinned-last (suc n) [] h = refl
thinned-last zero (x ∷ xs) h = absurd (omega arith)
thinned-last (suc n) (x ∷ xs) h = ap (λ t. x ∷ t) (thinned-last n xs (omega arith))

drop-drop : (n m k : ℕ) (xs : List Post) → k ≡ n + m → drop n (drop m xs) ≡ drop k xs
drop-drop n zero k xs e = ap (λ j. drop j xs) (omega (arith, e))
drop-drop n (suc m) zero xs e = absurd (omega (arith, e))
drop-drop zero (suc m) (suc k) [] e = refl
drop-drop (suc n) (suc m) (suc k) [] e = refl
drop-drop n (suc m) (suc k) (x ∷ xs) e = drop-drop n m k xs (omega (arith, e))

length-drop : (n : ℕ) (xs : List Post) → length (drop n xs) ≡ length xs - n
length-drop zero xs = omega arith
length-drop (suc n) [] = omega arith
length-drop (suc n) (x ∷ xs) = omega (arith, length-drop n xs)

module _ (s : Store) (rows : s.State → Bytes → List Post) (paged : IsPaged s rows) (zone : Zone)
    (st : s.State) (text : Bytes) (typed : All IsByte text) (r : Request) (now : ℤ → Time) where
  asks :
      (p : ℕ)
      → p < 2 ^ 32
      → let q = (followed r text (pos (suc p))).query in
        (page_of (parse_int (get (codes "page") q)) ≡ pos (suc p)) × (get (codes "q") q ≡ text)
  unfolding listing_from
  asks p h =
      let reads =
        listing_from-list_url (followed r text (pos (suc p))) (codes "/admin/posts") text (suc p)
          (unfold codes in omega arith) typed (omega arith) (omega arith) refl in
      (ap (λ (l : Listing). l.page) reads, ap (λ (l : Listing). l.text) reads)

  abbrev shown_at : ℕ → PostListing
  shown_at p =
      let rest = drop (p * 51) (rows st text) in
      record {
        list = record {
          query = text;
          next_page = if leb (length rest) 50 then pos 0 else pos (p + 2);
          zone = zone;
        };
        posts = take 50 rest;
      }

  answered :
      (p : ℕ)
      → p < 2 ^ 32
      → list_posts s zone (now (pos (suc p))) (followed r text (pos (suc p))) st
        ≡ render
            (followed r text (pos (suc p)))
            (post_screen (pos (suc p)) (shown_at p) (now (pos (suc p))))
  answered p h =
      subst
        (λ q.
          list_posts s zone (now (pos (suc p))) (followed r text (pos (suc p))) st
          ≡ render (followed r text (pos (suc p))) (
              post_screen (pos (suc p))
                (record {
                  list = record {
                    query = q;
                    next_page =
                        if leb (length (drop (p * 51) (rows st q))) 50 then pos 0 else pos (p + 2);
                    zone = zone;
                  };
                  posts = take 50 (drop (p * 51) (rows st q));
                })
                (now (pos (suc p)))))
        ((asks p h).1)
        (list_posts_paged s rows paged zone (now (pos (suc p))) (followed r text (pos (suc p))) st p
          ((asks p h).0) h)

  -- The rows from a page on, as one sees them.
  abbrev seen : ℕ → List Post
  seen p = thinned 50 (drop (p * 51) (rows st text))

  browsed_last :
      (p : ℕ)
      → p < 2 ^ 32
      → leb (length (drop (p * 51) (rows st text))) 50 ≡ true
      → Browsed s zone st text r now (pos (suc p)) (seen p)
  browsed_last p h short =
      subst (Browsed s zone st text r now (pos (suc p)))
        (sym (thinned-last 50 (drop (p * 51) (rows st text)) (ground arith)))
        (last (pos (suc p)) (shown_at p) (answered p h)
          (ap (λ b. if b then pos 0 else pos (p + 2)) short))

  browsed_more :
      (p : ℕ)
      → p < 2 ^ 32
      → leb (length (drop (p * 51) (rows st text))) 50 ≡ false
      → Browsed s zone st text r now (pos (suc (suc p))) (seen (suc p))
      → Browsed s zone st text r now (pos (suc p)) (seen p)
  browsed_more p h long following =
      let rest = drop (p * 51) (rows st text) in
      let next : pos (suc (suc p)) ≡ (shown_at p).list.next_page =
        ap pos (omega arith) ∙ sym (ap (λ b. if b then pos 0 else pos (p + 2)) long) in
      subst (Browsed s zone st text r now (pos (suc p)))
        (sym (
          thinned-page 50 rest (ground arith)
          ∙ ap (λ xs. take 50 rest ++ thinned 50 xs)
              (drop-drop 51 (p * 51) (suc p * 51) (rows st text) (omega arith))))
        (more (pos (suc p)) (shown_at p) (seen (suc p)) (answered p h)
          (λ e. absurd (let e' = next ∙ e in cc))
          (subst (λ q. Browsed s zone st text r now q (seen (suc p))) next following))

  browsed_from :
      (left p : ℕ)
      → length (rows st text) ≤ p * 51 + left
      → p < 2 ^ 32
      → length (rows st text) < 2 ^ 32 * 51
      → Browsed s zone st text r now (pos (suc p)) (seen p)
  browsed_from zero p enough h small =
      browsed_last p h (ground (arith, length-drop (p * 51) (rows st text)))
  browsed_from (suc left) p enough h small =
      elim (Bool-cases (leb (length (drop (p * 51) (rows st text))) 50)) [
        | inl short ↦ browsed_last p h short
        | inr long ↦
            let further : 50 < length (drop (p * 51) (rows st text)) = ground arith in
            let counted = length-drop (p * 51) (rows st text) in
            browsed_more p h long (browsed_from left (suc p) (omega arith) (omega arith) small)
      ]

  -- Over a store that pages as pop does, with fewer than 2 ^ 32 pages of matching Posts: a reader who
  -- starts at page 1 of a text of bytes and follows the URL of the next page as long as one is offered comes to
  -- an end, and has then seen the matching Posts in their order but for each 51st of them, the first of
  -- which stands behind 50 others.
  pub browsing_ends :
      length (rows st text) < 2 ^ 32 * 51
      → Browsed s zone st text r now (pos 1) (thinned 50 (rows st text))
  browsing_ends small = browsed_from (length (rows st text)) 0 (omega arith) (omega arith) small

-- ===== src/Admin/Lists/Paging.antt =====
-- internal/admin/lists.go: which rows the pages of the list of Posts show.
use go_personal_web.Prelude.{
  ℕ, zero, suc, ◌+◌, ◌*◌, ◌^◌, ◌≤◌, ◌<◌, ◌≡◌, refl, ap, ◌∙◌, List, [], ◌∷◌, Bytes, codes, pos, ◌+ℤ◌,
  wrap64, leb, length, take, drop, length-take, if◌then◌else◌, arith, Bool-cases, inl, inr,
}
use go_personal_web.GoStd.Time.{Time}
use go_personal_web.GoStd.Decimal.{parse_int}
use go_personal_web.Http.{Request, get}
use go_personal_web.View.{Zone}
use go_personal_web.Content.{Post, author}
use go_personal_web.Content.Errors.{Result, ok, err}
use go_personal_web.Content.Store.{Listing}
use go_personal_web.Admin.Render.{Reply, render, fail}
use go_personal_web.Admin.Store.{Store}
use go_personal_web.Admin.Lists.{page_of, listing_from, trim, post_screen, post_listing, list_posts}

-- What `Paginate` of pop and PostgreSQL promise of a page of `n` rows, as `FindPosts` passes it on:
-- `rows` are all the Posts that a text matches, in their order.
pub record IsPaged (s : Store) (rows : s.State → Bytes → List Post) : Type 0 where
  pub found :
      (st : s.State) (text : Bytes) (p n : ℕ)
      → 0 < n
      → p * n < 2 ^ 63
      → s.find_posts st author (record { text = text; page = pos (suc p); per_page = pos n })
        ≡ ok (take n (drop (p * n) (rows st text)))

next_page : (p : ℕ) → p < 2 ^ 32 → wrap64 (pos (suc p) +ℤ pos 1) ≡ pos (p + 2)
unfolding wrap64 ◌+ℤ◌
next_page p h = ground arith

module _ {A : Type 0} where
  take-take : (n m : ℕ) (xs : List A) → n ≤ m → take n (take m xs) ≡ take n xs
  take-take zero m xs h = refl
  take-take (suc n) zero xs h = absurd (omega arith)
  take-take (suc n) (suc m) [] h = refl
  take-take (suc n) (suc m) (x ∷ xs) h = ap (λ t. x ∷ t) (take-take n m xs (omega arith))

  take-all : (n : ℕ) (xs : List A) → length xs ≤ n → take n xs ≡ xs
  take-all zero [] h = refl
  take-all (suc n) [] h = refl
  take-all zero (x ∷ xs) h = absurd (omega arith)
  take-all (suc n) (x ∷ xs) h = ap (λ t. x ∷ t) (take-all n xs (omega arith))

  leb-take : (xs : List A) → leb (length (take 51 xs)) 50 ≡ leb (length xs) 50
  leb-take xs = ground (arith, length-take 51 xs)

  -- What `trim` shows of one row more than a page, and whether it offers the next page.
  pub trim-take :
      (xs : List A) (text : Bytes) (p n : ℕ)
      → p < 2 ^ 32
      → trim (take 51 xs) (record { text = text; page = pos (suc p); per_page = pos n })
        ≡ (take 50 xs, if leb (length xs) 50 then pos 0 else pos (p + 2))
  unfolding trim
  trim-take xs text p n h = elim (Bool-cases (leb (length xs) 50)) [
    | inl short ↦
        let few : length xs ≤ 50 = ground arith in
        rw (leb-take xs, short, take-all 51 xs (omega arith), take-all 50 xs few)
    | inr long ↦ rw (leb-take xs, long, take-take 50 51 xs (omega arith), next_page p h)
  ]

pub listing_from_page :
    (r : Request) (p : ℕ)
    → page_of (parse_int (get (codes "page") r.query)) ≡ pos p
    → listing_from r ≡ record { text = get (codes "q") r.query; page = pos p; per_page = pos 51 }
unfolding listing_from
listing_from_page r p e = rw (e)

post_listing-take :
    (zone : Zone) (xs : List Post) (text : Bytes) (p n : ℕ)
    → p < 2 ^ 32
    → post_listing zone (record { text = text; page = pos (suc p); per_page = pos n }) (take 51 xs)
      ≡ record {
        list = record {
          query = text;
          next_page = if leb (length xs) 50 then pos 0 else pos (p + 2);
          zone = zone;
        };
        posts = take 50 xs;
      }
unfolding post_listing
post_listing-take zone xs text p n h =
    ap (λ t. record { list = record { query = text; next_page = t.1; zone = zone }; posts = t.0 })
      (trim-take xs text p n h)

-- The answer of `list_posts` as a function of what the store returns.
abbrev post_answer : Zone → Time → Request → Listing → Result (List Post) → Reply
post_answer zone now r l (err e) = fail
post_answer zone now r l (ok found) = render r (post_screen l.page (post_listing zone l found) now)

-- Over a store that pages as pop does, with `rows` the Posts that the typed text matches: page p +
-- 1 of the list, for p below 2 ^ 32, answers with the rows from p * 51 on; it shows the first 50
-- of them, and offers page p + 2 exactly where there are more than 50.
pub list_posts_paged :
    (s : Store) (rows : s.State → Bytes → List Post)
    → IsPaged s rows
    → (zone : Zone) (now : Time) (r : Request) (st : s.State) (p : ℕ)
    → page_of (parse_int (get (codes "page") r.query)) ≡ pos (suc p)
    → p < 2 ^ 32
    → let text = get (codes "q") r.query in
      let rest = drop (p * 51) (rows st text) in
      list_posts s zone now r st
      ≡ render r (
          post_screen
            (pos (suc p))
            (record {
              list = record {
                query = text;
                next_page = if leb (length rest) 50 then pos 0 else pos (p + 2);
                zone = zone;
              };
              posts = take 50 rest;
            })
            now)
unfolding list_posts
list_posts_paged s rows paged zone now r st p e h =
    let text = get (codes "q") r.query in
    ap (λ l. post_answer zone now r l (s.find_posts st author l)) (listing_from_page r (suc p) e)
    ∙ ap (post_answer zone now r (record { text = text; page = pos (suc p); per_page = pos 51 }))
        (paged.found st text p 51 (omega arith) (omega arith))
    ∙ ap (λ t. render r (post_screen (pos (suc p)) t now))
        (post_listing-take zone (drop (p * 51) (rows st text)) text p 51 h)

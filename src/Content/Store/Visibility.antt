-- ===== src/Content/Store/Visibility.antt =====
-- What a reader of each Audience can be shown. `IsFaithful` is what PostgreSQL promises of a query:
-- a row that it returns is in the table and meets every clause, and where it returns no row at all
-- none meets them.
use go_personal_web.Prelude.{
  ◌≡◌, ◌≢◌, ◌⊎◌, inl, inr, refl, subst, Bool, true, Option, List, [], ◌∷◌, ◌++◌, Bytes, ◌=ᵇ◌, arith,
  All, Bool-cases,
}
use mathlib.Core.List.{Mem}
use go_personal_web.GoStd.Strings.{trim_space}
use go_personal_web.GoStd.Time.{Time}
use go_personal_web.Content.{
  Audience, public, author, UuidNumber, Post, Page, is_arrived, post_is_published,
  page_is_published,
}
use go_personal_web.Content.Errors.{
  no_rows, DbResult, row, fault, Result, ok, err, not_found, refused,
}
use go_personal_web.Content.Errors.Translation.{no_rows_of_refused}
use go_personal_web.Content.Store.{
  Clause, published, slug_is, id_is, like_either, Query, Table, Conn, Listing, visible,
  where_clause, matching, posts_query, pages_query, post_by_slug, find_posts, posts_page,
  find_pages, post_by_id, page_by_id, page_by_slug, wrapped,
}

-- The columns that clauses read.
pub record Columns (A : Type 0) : Type 0 where
  pub id_of : A → UuidNumber
  pub slug_of : A → Bytes
  pub title_of : A → Bytes
  pub date_of : A → Option Time

instance abbrev pub post_columns : Columns Post
post_columns = record {
  id_of = λ p. p.id;
  slug_of = λ p. p.slug;
  title_of = λ p. p.title;
  date_of = λ p. p.published_at;
}

instance abbrev pub page_columns : Columns Page
page_columns = record {
  id_of = λ p. p.id;
  slug_of = λ p. p.slug;
  title_of = λ p. p.title;
  date_of = λ p. p.published_at;
}

-- `like pattern text` is the database's `ilike`; `now` its clock.
module _ (like : Bytes → Bytes → Bool) (now : Time) {A : Type 0} ⦃cols : Columns A⦄ where
  abbrev pub Meets : A → Clause → Type 0
  Meets a published = is_arrived (cols.date_of a) now ≡ true
  Meets a (slug_is s) = cols.slug_of a ≡ s
  Meets a (id_is i) = cols.id_of a ≡ i
  Meets a (like_either p) = (like p (cols.title_of a) ≡ true) ⊎ (like p (cols.slug_of a) ≡ true)

  pub All-Meets-append :
      (a : A) (cs : List Clause) (c : Clause)
      → All (Meets a) (cs ++ c ∷ [])
      → All (Meets a) cs × Meets a c
  All-Meets-append a [] c (h, _) = (tt, h)
  All-Meets-append a (d ∷ cs) c (p, h) = let (k, m) = All-Meets-append a cs c h in ((p, k), m)

-- A table of a connection: its clock, its rows in a state, and the promises.
pub record IsFaithful (like : Bytes → Bytes → Bool) {State A : Type 0} ⦃cols : Columns A⦄
    (now : State → Time) (rows : State → List A) (t : Table State A) : Type 0 where
  pub first_found :
      (st : State) (q : Query) (a : A)
      → t.first st q ≡ row a
      → Mem a (rows st) × All (Meets like (now st) a) q.clauses
  pub first_missing :
      (st : State) (q : Query) (a : A)
      → t.first st q ≡ fault no_rows
      → Mem a (rows st)
      → ¬ All (Meets like (now st) a) q.clauses
  pub all_found :
      (st : State) (q : Query) (found : List A)
      → t.all st q ≡ row found
      → All (λ a. Mem a (rows st) × All (Meets like (now st) a) q.clauses) found

-- What holds of the value of a result, where it has one.
abbrev pub Returns : {A : Type 0} → (A → Type 0) → Result A → Type 0
Returns P (ok a) = P a
Returns P (err e) = Unit {0}

-- A row that the public may see.
abbrev pub IsShown : {A : Type 0} ⦃cols : Columns A⦄ → Time → A → Type 0
IsShown ⦃cols⦄ now a = is_arrived (cols.date_of a) now ≡ true

Returns-wrapped :
    {A : Type 0} (P : A → Type 0) (r : DbResult A) (what : Bytes)
    → ((a : A) → r ≡ row a → P a)
    → Returns P (wrapped r what)
Returns-wrapped P (row a) what h = h a refl
Returns-wrapped P (fault e) what h = tt

module _ (like : Bytes → Bytes → Bool) (now : Time) {A : Type 0} ⦃cols : Columns A⦄ where
  matching_published :
      (a : A) (text : Bytes)
      → All (Meets like now a) (matching (visible public) text).clauses
      → IsShown now a
  unfolding matching visible
  matching_published a text h = elim (Bool-cases (trim_space text =ᵇ [])) [
    | inl e ↦ (rw e at h).0
    | inr e ↦ (rw e at h).0
  ]

  All-published :
      (Q : A → Type 0) (found : List A) (text : Bytes) (q : Query)
      → q.clauses ≡ (matching (visible public) text).clauses
      → All (λ a. Q a × All (Meets like now a) q.clauses) found
      → All (IsShown now) found
  All-published Q [] text q e h = tt
  All-published Q (a ∷ found) text q e ((_, h), hs) = (
    matching_published a text (subst (All (Meets like now a)) e h),
    All-published Q found text q e hs,
  )

missing_of_refused :
    {A : Type 0} (r : DbResult A) (what what' : Bytes)
    → wrapped r what ≡ err (refused what' not_found)
    → r ≡ fault no_rows
missing_of_refused (row a) what what' h = cc
missing_of_refused (fault e) what what' h = ground (arith, no_rows_of_refused e what what')

module _ (like : Bytes → Bytes → Bool) {State A : Type 0} ⦃cols : Columns A⦄ (now : State → Time)
    (rows : State → List A) (t : Table State A) (faithful : IsFaithful like now rows t) where
  first-IsShown :
      (st : State) (c : Clause) (what : Bytes)
      → Returns
          (λ a. IsShown (now st) a × Meets like (now st) a c × Mem a (rows st))
          (wrapped (t.first st (where_clause (visible public) c)) what)
  unfolding where_clause visible
  first-IsShown st c what =
      Returns-wrapped _ (t.first st (where_clause (visible public) c)) what λ a e.
        let (member, (shown, (met, _))) = faithful.first_found st _ a e in (shown, met, member)

  all-IsShown :
      (st : State) (q : Query) (what text : Bytes)
      → q.clauses ≡ (matching (visible public) text).clauses
      → Returns (All (IsShown (now st))) (wrapped (t.all st q) what)
  all-IsShown st q what text e =
      Returns-wrapped _ (t.all st q) what
        λ found r. All-published like (now st) _ found text q e (faithful.all_found st q found r)

  first_complete :
      (st : State) (aud : Audience) (c : Clause) (a : A) (what what' : Bytes)
      → Mem a (rows st)
      → Meets like (now st) a c
      → (aud ≡ author) ⊎ IsShown (now st) a
      → wrapped (t.first st (where_clause (visible aud) c)) what ≢ err (refused what' not_found)
  unfolding where_clause visible
  first_complete st public c a what what' m h (inl e) r = cc
  first_complete st public c a what what' m h (inr s) r =
      faithful.first_missing st _ a (missing_of_refused _ what what' r) m (s, (h, tt))
  first_complete st author c a what what' m h s r =
      faithful.first_missing st _ a (missing_of_refused _ what what' r) m (h, tt)

-- Over a table that answers faithfully, no read that names the public returns a Post that is not
-- published at the database's clock: by Slug, by ID or in a list, whatever the text and the page.
-- One found by Slug or ID is the stored Post of that Slug or ID.
pub public_posts_shown :
    (c : Conn) (print_id : UuidNumber → Bytes) (like : Bytes → Bytes → Bool) (now : c.State → Time)
    (rows : c.State → List Post)
    → IsFaithful like now rows c.posts
    → (st : c.State) (slug : Bytes) (id : UuidNumber) (l : Listing)
    → Returns
        (λ p. (post_is_published p (now st) ≡ true) × (p.slug ≡ slug) × Mem p (rows st))
        (post_by_slug c print_id st slug public)
      × Returns
          (λ p. (post_is_published p (now st) ≡ true) × (p.id ≡ id) × Mem p (rows st))
          (post_by_id c print_id st id public)
      × Returns (All (λ p. post_is_published p (now st) ≡ true)) (find_posts c print_id st public l)
      × Returns
          (All (λ p. post_is_published p (now st) ≡ true))
          (posts_page c print_id st public l.page l.per_page)
unfolding post_by_slug post_by_id find_posts posts_page posts_query post_is_published
public_posts_shown c print_id like now rows f st slug id l = (
  first-IsShown like now rows c.posts f st (slug_is slug) _,
  first-IsShown like now rows c.posts f st (id_is id) _,
  all-IsShown like now rows c.posts f st (posts_query public l) _ l.text refl,
  all-IsShown like now rows c.posts f st _ _ [] refl,
)

-- Over a table that answers faithfully, no read that names the public returns a Page that is not
-- published at the database's clock: by Slug, by ID or in a list, whatever the text and the page.
-- One found by Slug or ID is the stored Page of that Slug or ID.
pub public_pages_shown :
    (c : Conn) (print_id : UuidNumber → Bytes) (like : Bytes → Bytes → Bool) (now : c.State → Time)
    (rows : c.State → List Page)
    → IsFaithful like now rows c.pages
    → (st : c.State) (slug : Bytes) (id : UuidNumber) (l : Listing)
    → Returns
        (λ p. (page_is_published p (now st) ≡ true) × (p.slug ≡ slug) × Mem p (rows st))
        (page_by_slug c print_id st slug public)
      × Returns
          (λ p. (page_is_published p (now st) ≡ true) × (p.id ≡ id) × Mem p (rows st))
          (page_by_id c print_id st id public)
      × Returns (All (λ p. page_is_published p (now st) ≡ true)) (find_pages c print_id st public l)
unfolding page_by_slug page_by_id find_pages pages_query page_is_published
public_pages_shown c print_id like now rows f st slug id l = (
  first-IsShown like now rows c.pages f st (slug_is slug) _,
  first-IsShown like now rows c.pages f st (id_is id) _,
  all-IsShown like now rows c.pages f st (pages_query public l) _ l.text refl,
)

-- Over a table that answers faithfully, a stored Post that the Audience may see is never reported
-- missing, by its Slug or by its ID.
pub post_not_missing :
    (c : Conn) (print_id : UuidNumber → Bytes) (like : Bytes → Bytes → Bool) (now : c.State → Time)
    (rows : c.State → List Post)
    → IsFaithful like now rows c.posts
    → (st : c.State) (aud : Audience) (p : Post) (what : Bytes) → Mem p (rows st)
    → (aud ≡ author) ⊎ (post_is_published p (now st) ≡ true)
    → (post_by_slug c print_id st p.slug aud ≢ err (refused what not_found))
      × (post_by_id c print_id st p.id aud ≢ err (refused what not_found))
unfolding post_by_slug post_by_id post_is_published
post_not_missing c print_id like now rows f st aud p what m s = (
  first_complete like now rows c.posts f st aud (slug_is p.slug) p _ what m refl s,
  first_complete like now rows c.posts f st aud (id_is p.id) p _ what m refl s,
)

-- ===== src/View/Reader/Rows.antt =====
-- The addresses that a browser finds in the rows of a list.
use go_personal_web.Prelude.{
  ◌≡◌, refl, ap, ◌∙◌, [], ◌∷◌, ◌++◌, List, Bytes, ◌=ᵇ◌, codes, ℤ, pos, ltb_ℤ, map, if◌then◌else◌,
  append-nil, Bool-cases, inl, inr,
}
use go_personal_web.GoStd.Time.{Time}
use go_personal_web.Http.{Pairs, get}
use go_personal_web.Content.{UuidNumber, Post}
use go_personal_web.View.{Zone, PostListing, list_url, post_state}
use go_personal_web.View.Markup.{Templ, print, join}
use go_personal_web.View.Markup.Controls.{load_more, state_badge}
use go_personal_web.View.Markup.Lists.{post_row, post_rows_each, post_rows, more}
use go_personal_web.View.Reader.{read_page, after, tokens}
use go_personal_web.View.Reader.Meaning.{IsEscaping}
use go_personal_web.View.Reader.Closing.{is_closed}
use go_personal_web.View.Reader.Closed.{
  post_row-IsClosed, post_rows_each-IsClosed, post_rows-IsClosed, state_badge-IsClosed,
}
use go_personal_web.View.Reader.Picking.{
  link, button_load, has, picks, picked, picked-component, picked-append, picked-split,
  picks-read_page,
}

badge_picks :
    {A : Type 0} (pick : Bytes → Pairs → List A) (s : Bytes)
    → ((a : Pairs) → pick (codes "span") a ≡ [])
    → picked pick (state_badge s) ≡ []
unfolding state_badge picked picks join codes after tokens
badge_picks pick s h = elim (Bool-cases (s =ᵇ codes "draft")) [
  | inl draft ↦ rw (draft) (rw (h))
  | inr dated ↦ elim (Bool-cases (s =ᵇ codes "scheduled")) [
    | inl later ↦ rw (dated, later) (rw (h))
    | inr live ↦ rw (dated, live) (rw (h))
  ]
]

more_picks :
    (base query : Bytes) (next : ℤ)
    → (picked link (more base query next) ≡ [])
      × (picked button_load (more base query next)
          ≡ (if ltb_ℤ (pos 0) next then list_url base query next ∷ [] else []))
unfolding more load_more picked picks link button_load join codes after tokens get has ◌=ᵇ◌
more_picks base query next = elim (Bool-cases (ltb_ℤ (pos 0) next)) [
  | inl shown ↦ rw (shown) (refl, refl)
  | inr last ↦ rw (last) (refl, refl)
]

module _ (print_id : UuidNumber → Bytes) (utc : Zone) where
  -- The editor's address of a row.
  abbrev pub post_link : Post → Bytes
  post_link p = codes "/admin/posts/" ++ (print_id p.id ++ codes "/edit")

  row_links :
      (l : PostListing) (now : Time) (p : Post)
      → picked link (post_row print_id utc l now p) ≡ post_link p ∷ []
  unfolding post_row picked picks join codes is_closed after tokens link ◌=ᵇ◌ get
  row_links l now p =
      picked-split link 5 (post_row print_id utc l now p) refl
      ∙ ap (λ x. post_link p ∷ x)
          (picked-append link (state_badge (post_state p now)) _ (state_badge-IsClosed _)
            ∙ rw (badge_picks link (post_state p now) (λ a. refl)))

  row_loads :
      (l : PostListing) (now : Time) (p : Post)
      → picked button_load (post_row print_id utc l now p) ≡ []
  unfolding post_row picked picks join codes is_closed after tokens button_load ◌=ᵇ◌
  row_loads l now p =
      picked-split button_load 5 (post_row print_id utc l now p) refl
      ∙ picked-append button_load (state_badge (post_state p now)) _ (state_badge-IsClosed _)
      ∙ rw (badge_picks button_load (post_state p now) (λ a. refl))

  each_picks :
      (l : PostListing) (now : Time) (ps : List Post)
      → (picked link (post_rows_each print_id utc l now ps) ≡ map post_link ps)
        × (picked button_load (post_rows_each print_id utc l now ps) ≡ [])
  unfolding post_rows_each
  each_picks l now [] = (unfold picked in refl, unfold picked in refl)
  each_picks l now (p ∷ ps) =
      let (links, loads) = each_picks l now ps in
      (
        picked-append link (post_row print_id utc l now p) _
              (post_row-IsClosed print_id utc l now p)
            ∙ rw (row_links l now p, links),
        picked-append button_load (post_row print_id utc l now p) _
              (post_row-IsClosed print_id utc l now p)
            ∙ rw (row_loads l now p, loads),
      )

  rows_picks :
      {A : Type 0} (pick : Bytes → Pairs → List A) (l : PostListing) (now : Time)
      → picked pick (post_rows print_id utc l now)
        ≡ picked pick (post_rows_each print_id utc l now l.posts)
          ++ picked pick (more (codes "/admin/posts") l.list.query l.list.next_page)
  unfolding post_rows
  rows_picks pick l now =
      picked-component pick _
      ∙ picked-append pick (post_rows_each print_id utc l now l.posts) _
          (post_rows_each-IsClosed print_id utc l now l.posts)

  -- With templ's documented escaping, the links that a browser finds in the rows of a list are the
  -- editor addresses of its Posts, in their order, and the only button that loads more asks for the
  -- next page of the same search; there is one exactly where there is a next page. No title and no
  -- search text adds to them.
  pub post_rows_links :
      (t : Templ)
      → IsEscaping t
      → (l : PostListing) (now : Time)
      → let page = read_page (print t (post_rows print_id utc l now)) in
        (picks link page ≡ map post_link l.posts)
        × (picks button_load page ≡ (
            if ltb_ℤ (pos 0) l.list.next_page
            then list_url (codes "/admin/posts") l.list.query l.list.next_page ∷ []
            else []))
  post_rows_links t e l now =
      let closed = post_rows-IsClosed print_id utc l now in
      let (links, loads) = each_picks l now l.posts in
      let (no_link, more) = more_picks (codes "/admin/posts") l.list.query l.list.next_page in
      (
        picks-read_page link t e _ closed ∙ rows_picks link l now ∙ rw (links, no_link, append-nil),
        picks-read_page button_load t e _ closed ∙ rows_picks button_load l now ∙ rw (loads, more),
      )

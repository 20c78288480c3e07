-- ===== src/Tests/Writing.antt =====
-- The editor over the store of one Post.
use go_personal_web.Prelude.{
  ℕ, zero, suc, ◌≡◌, ◌≢◌, ◌⊎◌, refl, subst, true, false, Option, none, some, [], ◌∷◌, Bytes, codes,
  pos, negsuc, ◌=ᵇ◌, ◌<ℤ◌, ◌+ℤ◌, int_laws,
}
use go_personal_web.GoStd.Time.{Time}
use go_personal_web.Http.{Request, Pairs, form_value, get, find_pair}
use go_personal_web.View.{Zone}
use go_personal_web.Content.{UuidNumber, Post}
use go_personal_web.Content.Errors.{ok, err, refused, slug_taken}
use go_personal_web.Admin.Writing.{Editor, submitted, form_of, parse_published_at}
use go_personal_web.Admin.Writing.Handlers.{autosave, overlaid, save, write, is_live}
use go_personal_web.Admin.Writing.Resources.{Resource, posts, record_of_post}
use go_personal_web.Admin.Writing.Autosave.{
  date_of, Stays, autosave_keeps_dates, autosave_keeps_live, autosave_races,
}
use go_personal_web.Admin.Writing.Save.{IsEditable, Posts, typed_at, save_publishes}
use go_personal_web.Admin.Writing.Fields.{IsTold, save_refused}
use go_personal_web.Tests.Data.{request}
use go_personal_web.Tests.Store.{one_post, kept, stored}

-- A zone whose editor layout is one byte, and IDs of one byte.
abbrev read_date : Bytes → Option Time
read_date [] = none
read_date (c ∷ s) = some (pos c)

abbrev show_date : Time → Bytes
show_date (pos n) = n ∷ []
show_date (negsuc n) = 0 ∷ []

abbrev read_id : Bytes → Option UuidNumber
read_id [] = none
read_id (c ∷ s) = some c

abbrev pub zone : Zone
zone = record {
  name = codes "UTC";
  parse_editor = read_date;
  format_editor = show_date;
  format_clock = show_date;
  format_list = show_date;
}

abbrev pub editor : Editor
editor = record { zone = zone; from_string = read_id; print_id = λ id. id ∷ [] }

abbrev fields : (slug date action : Bytes) → Pairs
fields slug date action =
    (codes "slug", slug)
    ∷ (codes "title", codes "Hello")
    ∷ (codes "body", codes "Text")
    ∷ (codes "published_at", date)
    ∷ (codes "action", action)
    ∷ []

abbrev posted : Pairs → Request
posted form = record (request (codes "POST") (codes "/admin/posts/4") [] (some form)) {
  path_id = 4 ∷ [];
}

abbrev clock : ℕ → Time
clock n = pos 9

abbrev res : Resource Post
res = posts one_post

abbrev typing : Request
typing = posted (fields (codes "other") [] [])

autosave_keeps_live_example :
    res.by_id (autosave editor res (λ i t. t) clock typing (stored (some (pos 5)))).0 4
    ≡ ok (record_of_post (stored (some (pos 5))))
autosave_keeps_live_example =
    autosave_keeps_live editor res kept clock typing (stored (some (pos 5))) 4
      (record_of_post (stored (some (pos 5)))) (unfold posts in refl) refl

-- Nobody removes the Post.
whole : Stays res (λ p. p)
whole st id old found = (old, found)

autosave_keeps_dates_example :
    let after = (autosave editor res (λ i t. t) clock typing (stored none)).0 in
    (date_of (res.by_id after 4) ≡ date_of (res.by_id (stored none) 4))
    ⊎ ((editor.from_string typing.path_id ≡ some 4)
        × (date_of (res.by_id after 4) ≡ date_of (res.by_id (stored none) 4)))
    ⊎ (after ≡ stored none)
    ⊎ (after ≡ stored none)
autosave_keeps_dates_example =
    autosave_keeps_dates editor res kept (λ i t. t) whole clock typing (stored none) 4

-- Another request publishes the Post between the load and the update.
abbrev publishing : ℕ → Post → Post
publishing zero p = stored (some (pos 5))
publishing (suc i) p = p

autosave_races_example :
    res.by_id (autosave editor res publishing clock typing (stored none)).0 4
    ≡ ok (record (overlaid editor res typing (pos 9) (record_of_post (stored none))) {
      published_at = some (pos 5);
    })
autosave_races_example =
    autosave_races editor res kept publishing clock typing (stored none) 4
      (fields (codes "other") [] []) (record_of_post (stored none))
      (record_of_post (stored (some (pos 5)))) (record_of_post (stored (some (pos 5))))
      (overlaid editor res typing (pos 9) (record_of_post (stored none))) refl refl
      (unfold posts in refl) refl (unfold posts in refl) (unfold posts in refl)
      (unfold posts overlaid in refl)

abbrev untouched : Request
untouched = posted (fields (codes "hello") (5 ∷ []) [])

pub editable : IsEditable editor (some (pos 5))
editable = record {
  parsed =
      λ t e. let same : pos 5 ≡ t = cc in subst (λ d. read_date (show_date d) ≡ some d) same refl;
  printed = λ t e. let same : pos 5 ≡ t = cc in subst (λ d. show_date d ≢ []) same (λ h. cc);
}

same_form :
    Posts editor untouched (form_of editor res (record_of_post (stored (some (pos 5)))) (pos 9)) 4
unfolding form_of form_value get find_pair codes ◌=ᵇ◌
same_form = record { id_read = refl; slug = refl; title = refl; body = refl; published_at = refl }

abbrev publish : Request
publish = posted (fields (codes "hello") [] (codes "publish_now"))

save_publishes_example :
    let date = kept.keep (pos 9) in
    (res.by_id (save editor res false (λ i t. t) clock publish (stored none)).0 4
      ≡ ok (typed_at publish 4 date))
    × (date <ℤ pos 9 +ℤ pos 1000)
    × (pos 9 <ℤ date +ℤ pos 1000)
    × (is_live (some date) (pos 2000) ≡ true)
save_publishes_example =
    save_publishes editor res kept (λ i t. t) clock publish (stored none)
      (fields (codes "hello") [] (codes "publish_now")) 4 none (typed_at publish 4 (pos 9))
      (record_of_post (stored none)) (record_of_post (stored none)) (pos 2000) refl refl
      (unfold parse_published_at form_value get find_pair codes ◌=ᵇ◌ in refl)
      (unfold form_value get find_pair codes ◌=ᵇ◌ in refl) (unfold posts in refl)
      (unfold posts in refl) (unfold posts in refl) (omega int_laws)

-- A path without an ID.
abbrev misplaced : Request
misplaced = record (posted (fields (codes "hello") [] [])) { path_id = [] }

-- A store that knows another writing of every slug.
abbrev taken : Resource ℕ
taken = record {
  kind = res.kind;
  nav = res.nav;
  by_id = λ st id. err (refused [] slug_taken);
  create = λ st rec. (st, err (refused [] slug_taken));
  update = λ between st rec with_date. (st, err (refused [] slug_taken));
}

save_refused_example :
    IsTold editor taken untouched
      (pos 9)
      (refused [] slug_taken)
      (save editor taken false (λ i t. t) clock untouched 0).1
save_refused_example =
    save_refused editor taken false (λ i t. t) clock untouched 0
      (fields (codes "hello") (5 ∷ []) []) (refused [] slug_taken) refl
      (unfold submitted parse_published_at form_value get find_pair codes ◌=ᵇ◌ in refl)
      (unfold write in refl)

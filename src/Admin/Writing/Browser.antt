-- ===== src/Admin/Writing/Browser.antt =====
-- internal/admin/writing.go and internal/view/form_templ.go: the editor through a browser, from the
-- printed form to the save of what is posted.
use go_personal_web.Prelude.{
  ◌≡◌, ◌≢◌, refl, ap, sym, ◌∙◌, false, some, ◌∷◌, Bytes, codes, ◌=ᵇ◌, Lacks, arith, length,
  Option-cases, inl, inr,
}
use go_personal_web.GoStd.Time.{Time}
use go_personal_web.Http.{Request, form_value, get, find_pair}
use go_personal_web.View.Markup.{Templ, print}
use go_personal_web.View.Markup.Editing.{editor_form}
use go_personal_web.View.Reader.{read_page}
use go_personal_web.View.Reader.Meaning.{IsEscaping}
use go_personal_web.View.Reader.Submission.{
  one_line, posted_text, to_crlf, submission, without_first,
}
use go_personal_web.View.Reader.Posting.{form_pairs, editor_form_pairs, normalized-to_crlf}
use go_personal_web.Admin.Writing.{Editor, form_of, submitted, date_value, parse_published_at}
use go_personal_web.Admin.Writing.Resources.{Record, Resource}
use go_personal_web.Admin.Writing.Save.{Posts}

-- The request that a browser makes of the editor's page of a record by "Save": `local_date` is what
-- its date field makes of a value.
pub record IsPosted {S : Type 0} (t : Templ) (local_date : Bytes → Bytes) (h : Editor)
    (res : Resource S) (rec : Record) (opened : Time) (r : Request) : Type 0 where
  pub escaping : IsEscaping t
  pub id_read : h.from_string r.path_id ≡ some rec.id
  pub form :
      r.form
      ≡ some (
          submission local_date
            (codes "action")
            (codes "save")
            (read_page (print t (editor_form (form_of h res rec opened)))))

-- The texts are such as a browser posts: Title and Slug of one line, a body of CR LF lines that no
-- newline begins, and a date that the date field keeps.
pub record IsPostable (local_date : Bytes → Bytes) (h : Editor) (rec : Record) : Type 0 where
  pub title : one_line rec.title ≡ rec.title
  pub slug : one_line rec.slug ≡ rec.slug
  pub body : posted_text rec.body ≡ rec.body
  pub date : local_date (date_value h.zone rec.published_at) ≡ date_value h.zone rec.published_at

submitted_body :
    {S : Type 0} (h : Editor) (res : Resource S) (r : Request) (now : Time)
    → (submitted h r res false now).rec.body ≡ form_value r (codes "body")
unfolding submitted
submitted_body h res r now = elim (Option-cases (h.from_string r.path_id)) [
  | inl no_id ↦ rw (no_id) refl
  | inr (id, read) ↦
      elim (Option-cases (parse_published_at h.zone (form_value r (codes "published_at")))) [
        | inl no_date ↦ rw (read, no_date) refl
        | inr (date, parsed) ↦ rw (read, parsed) refl
      ]
]

-- A newline that begins the text of a text area is not posted.
posted_text-newline : (s : Bytes) → Lacks b'\r' s → posted_text (to_crlf (b'\n' ∷ s)) ≡ to_crlf s
unfolding without_first
posted_text-newline s h = rw (normalized-to_crlf (b'\n' ∷ s) ((λ e. omega arith), h)) refl

to_crlf-newline_ne : (s : Bytes) → to_crlf s ≢ to_crlf (b'\n' ∷ s)
unfolding to_crlf
to_crlf-newline_ne s e = omega (arith, ap length e)

module _ {S : Type 0} (t : Templ) (local_date : Bytes → Bytes) (h : Editor) (res : Resource S)
    (rec : Record) (opened : Time) (r : Request)
    (posts : IsPosted t local_date h res rec opened r) where
  pairs : r.form ≡ some (form_pairs local_date (form_of h res rec opened) (codes "save"))
  pairs =
      posts.form
      ∙ ap some (editor_form_pairs local_date (form_of h res rec opened) t (posts.escaping)).0

  values :
      (form_value r (codes "title") ≡ one_line rec.title)
      × (form_value r (codes "slug") ≡ one_line rec.slug)
      × (form_value r (codes "body") ≡ posted_text rec.body)
      × (form_value r (codes "published_at") ≡ local_date (date_value h.zone rec.published_at))
      × ((form_value r (codes "action") =ᵇ codes "publish_now") ≡ false)
  unfolding form_value get find_pair form_of codes ◌=ᵇ◌
  values = rw (pairs) (refl, refl, refl, refl, refl)

  pub Posts-page : IsPostable local_date h rec → Posts h r (form_of h res rec opened) rec.id
  unfolding form_of
  Posts-page p =
      let (title, slug, body, date, _) = values in
      record {
        id_read = posts.id_read;
        slug = slug ∙ p.slug;
        title = title ∙ p.title;
        body = body ∙ p.body;
        published_at = date ∙ p.date;
      }

  -- A body that begins with a newline loses it when a browser posts the untouched form, with templ's
  -- documented escaping: the record that the save reads has the body behind the newline. The rest of
  -- the body is of CR LF lines.
  pub browser_drops_newline :
      (posted : Time) (s : Bytes)
      → rec.body ≡ to_crlf (b'\n' ∷ s)
      → Lacks b'\r' s
      → ((submitted h r res false posted).rec.body ≡ to_crlf s)
        × ((submitted h r res false posted).rec.body ≢ rec.body)
  browser_drops_newline posted s body lacks =
      let (_, _, read, _, _) = values in
      let shorter : (submitted h r res false posted).rec.body ≡ to_crlf s =
        submitted_body h res r posted ∙ read ∙ ap posted_text body ∙ posted_text-newline s lacks in
      (shorter, λ e. to_crlf-newline_ne s (sym shorter ∙ e ∙ body))

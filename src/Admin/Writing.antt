-- ===== src/Admin/Writing.antt =====
-- internal/admin/writing.go: the editor. A handler takes the state of the store and returns the new
-- one with its reply. `clock i` is the time at the i-th place where the handler reads the clock.
-- `from_string` and `print_id` are `uuid.FromString` and `uuid.UUID.String` of gofrs/uuid.
pub mod Resources
pub mod Handlers
pub mod Laws
pub mod Fields
pub mod Autosave
pub mod Save
pub mod Browser
pub mod Polling
use go_personal_web.Prelude.{
  ℕ, Bool, true, false, not, ◌&&◌, ◌||◌, Option, none, some, List, [], ◌∷◌, ◌++◌, Bytes, ◌=ᵇ◌,
  codes, if◌then◌else◌, is_absent,
}
use go_personal_web.GoStd.Time.{Time, is_after}
use go_personal_web.Http.{Request, Pairs, form_value, empty_response, see_other, with_header}
use go_personal_web.View.{
  Zone, Nav, nav_none, Form, Component, editor, editor_form, saved, not_saved_marker,
  published_marker,
}
use go_personal_web.Content.{UuidNumber, is_arrived}
use go_personal_web.Content.Errors.{
  Error, Result, ok, err, is, not_found, slug_taken, slug_invalid, title_required,
}
use go_personal_web.Admin.Render.{
  Reply, Screen, is_htmx, render, fail, not_found_reply, bad_request,
}
use Resources.{Record, Resource}

-- What the handlers of one server share.
pub record Editor : Type 0 where
  pub zone : Zone
  pub from_string : Bytes → Option UuidNumber
  pub print_id : UuidNumber → Bytes

-- `fieldErrors`; `none` is the nil map.
unfoldable pub field_errors : Error → Option Pairs
field_errors e =
    if is e slug_taken
    then some ((codes "slug", codes "Something else already answers to that slug.") ∷ [])
    else if is e slug_invalid
    then some ((codes "slug", codes "Lowercase words joined by hyphens, nothing else.") ∷ [])
    else if is e title_required
    then some ((codes "title", codes "A title is required.") ∷ [])
    else none

unfoldable pub first_of : Pairs → Bytes
first_of [] = codes "not saved"
first_of ((k, v) ∷ fields) = v

-- `rec.PublishedAt == nil || rec.PublishedAt.After(now)`: the writing is not live.
unfoldable pub is_unpublished : Option Time → Time → Bool
is_unpublished none now = true
is_unpublished (some t) now = is_after t now

-- `parsePublishedAt`; the outer `none` is its error.
unfoldable pub parse_published_at : Zone → Bytes → Option (Option Time)
parse_published_at zone value =
    if value =ᵇ []
    then some none
    else elim (zone.parse_editor value) [ none ↦ none | some t ↦ some (some t) ]

-- `time.Time.In(zone).Format(editorTimeFormat)`, or the empty value.
abbrev date_value : Zone → Option Time → Bytes
date_value zone none = []
date_value zone (some t) = zone.format_editor t

unfoldable pub form_of {ℓ} : {S : Type ℓ} → Editor → Resource S → Record → Time → Form
unfolding is_unpublished
form_of h res rec now = record {
  id = h.print_id rec.id;
  slug = rec.slug;
  title = rec.title;
  body = rec.body;
  published_at = date_value h.zone rec.published_at;
  errors = [];
  zone = h.zone.name;
  autosave = is_unpublished rec.published_at now;
  kind = res.kind;
}

-- What `submitted` returns: the form as typed, the record, and the message of its error.
pub record Submission : Type 0 where
  pub form : Form
  pub rec : Record
  pub error : Option Bytes

-- The form as typed and the record before its ID and date are read.
abbrev typed_form : Editor → Bytes → Request → Bytes → Form
typed_form h kind r id = record {
  id = id;
  slug = form_value r (codes "slug");
  title = form_value r (codes "title");
  body = form_value r (codes "body");
  published_at = form_value r (codes "published_at");
  errors = [];
  zone = h.zone.name;
  autosave = false;
  kind = kind;
}

abbrev typed_record : Request → UuidNumber → Record
typed_record r id = record {
  id = id;
  slug = form_value r (codes "slug");
  title = form_value r (codes "title");
  body = form_value r (codes "body");
  published_at = none;
}

-- The end of `submitted`: the Publication Date as `parsePublishedAt` read it.
abbrev with_date : Form → Record → Time → Option (Option Time) → Submission
with_date f rec now none = record {
  form = f;
  rec = rec;
  error = some (codes "that is not a date this form understands");
}
with_date f rec now (some date) = record {
  form = record f { autosave = is_unpublished date now };
  rec = record rec { published_at = date };
  error = none;
}

-- `submitted` behind the ID: `none` where the path's does not parse.
abbrev identified : Editor → Request → Bytes → Bytes → Time → Option UuidNumber → Submission
identified h r kind id now none = record {
  form = typed_form h kind r id;
  rec = typed_record r 0;
  error = some (codes "that is not a valid id");
}
identified h r kind id now (some number) =
    with_date (typed_form h kind r id) (typed_record r number) now
      (parse_published_at h.zone (form_value r (codes "published_at")))

unfoldable pub submitted {ℓ} :
    {S : Type ℓ} → Editor → Request → Resource S → Bool → Time → Submission
unfolding parse_published_at is_unpublished
submitted h r res true now = identified h r res.kind [] now (some 0)
submitted h r res false now = identified h r res.kind r.path_id now (h.from_string r.path_id)

unfoldable pub invalid {ℓ} : {S : Type ℓ} → Request → Resource S → Form → Pairs → Reply
invalid r res f fields = render r (record {
  title = codes "Edit " ++ res.kind;
  nav = res.nav;
  body = editor (record f { errors = fields });
  fragment = some (editor_form (record f { errors = fields }));
  status = 422;
})

unfoldable pub render_marker : Request → Component → Reply
render_marker r c =
    render r (record { title = []; nav = nav_none; body = c; fragment = some c; status = 0 })

-- `load`: the record, or the answer that stands in for it.
pub data Loaded : Type 0 where
  found : Record → Loaded
  answered : Reply → Loaded

unfoldable pub load : {S : Type 0} → Editor → Resource S → Request → S → Loaded
load h res r st = elim (h.from_string r.path_id) [
  | none ↦ answered not_found_reply
  | some id ↦ elim (res.by_id st id) [
    | ok rec ↦ found rec
    | err e ↦ answered (if is e not_found then not_found_reply else fail)
  ]
]

-- `blank`
unfoldable pub blank : {S : Type 0} → Editor → Resource S → Request → S → S × Reply
blank h res r st = (
  st,
  render r (record {
    title = codes "New " ++ res.kind;
    nav = res.nav;
    body = editor (record {
      id = [];
      slug = [];
      title = [];
      body = [];
      published_at = [];
      errors = [];
      zone = h.zone.name;
      autosave = false;
      kind = res.kind;
    });
    fragment = none;
    status = 0;
  }),
)

-- `edit` behind `load`.
unfoldable pub edit_loaded :
    {S : Type 0} → Editor → Resource S → Time → Request → S → Loaded → S × Reply
unfolding form_of
edit_loaded h res now r st (answered reply) = (st, reply)
edit_loaded h res now r st (found rec) = (
  st,
  render r (record {
    title = rec.title;
    nav = res.nav;
    body = editor (form_of h res rec now);
    fragment = none;
    status = 0;
  }),
)

unfoldable pub edit : {S : Type 0} → Editor → Resource S → (ℕ → Time) → Request → S → S × Reply
unfolding load edit_loaded
edit h res clock r st = edit_loaded h res (clock 0) r st (load h res r st)

-- The editor's address of a stored record.
unfoldable pub edit_path : Editor → Bytes → Record → Bytes
edit_path h kind rec =
    codes "/admin/" ++ (kind ++ (codes "s/" ++ (h.print_id rec.id ++ codes "/edit")))

-- The answer to a write: its error, or the way to the editor of the record.
unfoldable pub answer : {S : Type 0} → Editor → Resource S → Request → Form → Result Record → Reply
unfolding field_errors edit_path invalid
answer h res r f (ok rec) =
    if is_htmx r
    then with_header (codes "HX-Redirect") (edit_path h res.kind rec) (empty_response 204)
    else see_other (edit_path h res.kind rec)
answer h res r f (err e) = elim (field_errors e) [
  | some fields ↦ invalid r res f fields
  | none ↦ if is e not_found then not_found_reply else fail
]

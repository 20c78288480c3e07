-- ===== src/Admin/Writing/Polling.antt =====
-- internal/admin/writing.go and internal/view/form_templ.go: which answers to an autosave make the
-- browser go on autosaving.
use go_personal_web.Prelude.{◌≡◌, true, some, [], ◌∷◌, Bytes, codes, List}
use go_personal_web.GoStd.Time.{Time}
use go_personal_web.Http.{Request}
use go_personal_web.View.{Zone, Form, Component, autosave_path}
use go_personal_web.View.Markup.{Templ, print}
use go_personal_web.View.Markup.Editing
use go_personal_web.View.Markup.Layout.{markup}
use go_personal_web.View.Reader.{read_page}
use go_personal_web.View.Reader.Meaning.{IsEscaping}
use go_personal_web.View.Reader.Picking.{picks}
use go_personal_web.View.Reader.Controls.{Control, poll, control}
use go_personal_web.Content.{UuidNumber}
use go_personal_web.Content.Errors.{Result, ok, err, refused, broken, not_found}
use go_personal_web.Admin.Render.{Reply, component, is_htmx, fail}
use go_personal_web.Admin.Writing.Resources.{Record}

module _ (t : Templ) (print_id : UuidNumber → Bytes) (utc : Zone) where
  -- A browser that swaps a reply in finds these controls in it; a reply with no component is not
  -- swapped in.
  abbrev pub Shows : Reply → List Control → Type 0
  Shows reply controls =
      (c : Component) × (reply.body ≡ some (component c))
      × (picks control (read_page (print t (markup print_id utc c))) ≡ controls)

  module _ (e : IsEscaping t) (r : Request) (asked : is_htmx r ≡ true) where
    -- The answer to an update: one that is stored and one whose error has a field are answered by an element
    -- that autosaves again, any other error by the plain 500 of `fail`.
    abbrev pub IsAnswered : Form → Result Record → Reply → Type 0
    IsAnswered f (ok updated) reply = Shows reply (poll (autosave_path f) (codes "#editor") ∷ [])
    IsAnswered f (err (refused what not_found)) reply = reply ≡ fail
    IsAnswered f (err (refused what domain)) reply =
        Shows reply (poll (autosave_path f) (codes "#editor") ∷ [])
    IsAnswered f (err (broken what cause)) reply = reply ≡ fail

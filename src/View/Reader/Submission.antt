-- ===== src/View/Reader/Submission.antt =====
-- What a browser posts for the editor's form when one of its buttons is pressed, the texts untouched.
use go_personal_web.Prelude.{[], ◌∷◌, List, Bytes, ◌=ᵇ◌, codes, if◌then◌else◌, ◌==◌}
use go_personal_web.Http.{Pairs, get}
use go_personal_web.View.Reader.{Token, start_tag, end_tag, character}
use go_personal_web.View.Reader.Picking.{picks}
use go_personal_web.View.Reader.Controls.{Control, form, field, submitter, area, poll, control}

-- The text up to the next tag.
unfoldable pub text_before : List Token → Bytes
text_before (character c ∷ ts) = c ∷ text_before ts
text_before ts = []

-- The text areas with their texts.
unfoldable pub areas : List Token → Pairs
unfolding text_before get
areas [] = []
areas (start_tag n a ∷ ts) =
    if n =ᵇ codes "textarea" then (get (codes "name") a, text_before ts) ∷ areas ts else areas ts
areas (end_tag n ∷ ts) = areas ts
areas (character c ∷ ts) = areas ts

-- Newlines of a text as the HTML standard reads them: CR LF and CR become LF.
unfoldable pub normalized : Bytes → Bytes
normalized [] = []
normalized (c ∷ []) = if c == b'\r' then b'\n' ∷ [] else c ∷ []
normalized (c ∷ d ∷ s) =
    let both = normalized s in
    let next = normalized (d ∷ s) in
    if c == b'\r' then (if d == b'\n' then b'\n' ∷ both else b'\n' ∷ next) else c ∷ next

-- A newline right behind the tag of a text area is not part of its text.
unfoldable pub without_first : Bytes → Bytes
without_first [] = []
without_first (c ∷ s) = if c == b'\n' then s else c ∷ s

-- A text of LF lines as it is posted.
unfoldable pub to_crlf : Bytes → Bytes
to_crlf [] = []
to_crlf (c ∷ s) = if c == b'\n' then b'\r' ∷ b'\n' ∷ to_crlf s else c ∷ to_crlf s

-- What is posted for the content of a text area.
abbrev pub posted_text : Bytes → Bytes
posted_text s = to_crlf (without_first (normalized s))

-- A text field holds one line.
unfoldable pub one_line : Bytes → Bytes
one_line [] = []
one_line (c ∷ s) =
    if c == b'\n' then one_line s else if c == b'\r' then one_line s else c ∷ one_line s

module _ (local_date : Bytes → Bytes) where
  -- `local_date` is what the browser makes of the value of a `datetime-local` field.
  unfoldable pub sanitized : (type value : Bytes) → Bytes
  unfolding one_line
  sanitized type value =
      if type =ᵇ codes "text"
      then one_line value
      else if type =ᵇ codes "datetime-local"
      then local_date value
      else value

  -- The pairs that are posted with the button that adds (`name`, `value`).
  unfoldable pub posted : (name value : Bytes) → Pairs → List Control → Pairs
  unfolding sanitized
  posted name value texts [] = []
  posted name value texts (form method action ∷ cs) = posted name value texts cs
  posted name value texts (field type k v ∷ cs) = (k, sanitized type v) ∷ posted name value texts cs
  posted name value texts (area k ∷ cs) =
      (k, posted_text (get k texts)) ∷ posted name value texts cs
  posted name value texts (submitter k v ∷ cs) =
      let rest = posted name value texts cs in
      if k =ᵇ name then (if v =ᵇ value then (k, v) ∷ rest else rest) else rest
  posted name value texts (poll address include ∷ cs) = posted name value texts cs

  -- The submission of a page by that button.
  abbrev pub submission : (name value : Bytes) → List Token → Pairs
  submission name value page = posted name value (areas page) (picks control page)

-- ===== src/Admin/Writing/Save.antt =====
-- internal/admin/writing.go: what a save stores and what it answers.
use go_personal_web.Prelude.{
  ℕ, ◌≡◌, ◌≢◌, ◌⊎◌, inl, inr, refl, ap, ◌∙◌, sym, Bool, true, false, Option, none, some, [], codes,
  ◌=ᵇ◌, =ᵇ_iff, =ᵇ_refl, Bool-cases, ◌==◌, arith, ◌≤ℤ◌, ◌<ℤ◌, ◌+ℤ◌, pos, int_laws,
}
use go_personal_web.GoStd.Time.{Time}
use go_personal_web.Http.{Request, Pairs, form_value}
use go_personal_web.View.{Form}
use go_personal_web.Content.{UuidNumber}
use go_personal_web.Content.Errors.{Error, Result, ok, err}
use go_personal_web.Admin.Writing.{
  Editor, parse_published_at, date_value, with_date, identified, typed_form, typed_record, form_of,
  submitted, answer,
}
use go_personal_web.Admin.Writing.Handlers.{
  publish_now, write, save, save_submitted, parsed, is_live,
}
use go_personal_web.Admin.Writing.Resources.{Record, Resource}
use go_personal_web.Admin.Writing.Laws.{IsKept}

-- What the zone's editor layout promises of a date on the minute.
pub record IsEditable (h : Editor) (date : Option Time) : Type 0 where
  pub parsed : (t : Time) → date ≡ some t → h.zone.parse_editor (h.zone.format_editor t) ≡ some t
  pub printed : (t : Time) → date ≡ some t → h.zone.format_editor t ≢ []

date_read :
    (h : Editor) (date : Option Time)
    → IsEditable h date
    → parse_published_at h.zone (date_value h.zone date) ≡ some date
unfolding parse_published_at
date_read h none k = unfold ◌=ᵇ◌ in refl
date_read h (some t) k =
    let nonempty : (h.zone.format_editor t =ᵇ []) ≡ false =
      elim (Bool-cases (h.zone.format_editor t =ᵇ [])) [
        | inl e ↦ absurd (k.printed t refl ((=ᵇ_iff _ []).0 e))
        | inr e ↦ e
      ] in
    rw (nonempty, k.parsed t refl)

-- A request that posts the fields of a form back to the address of a record.
pub record Posts (h : Editor) (r : Request) (f : Form) (id : UuidNumber) : Type 0 where
  pub id_read : h.from_string r.path_id ≡ some id
  pub slug : form_value r (codes "slug") ≡ f.slug
  pub title : form_value r (codes "title") ≡ f.title
  pub body : form_value r (codes "body") ≡ f.body
  pub published_at : form_value r (codes "published_at") ≡ f.published_at

submitted_read :
    {S : Type 0} (h : Editor) (res : Resource S) (r : Request) (now : Time) (id : UuidNumber)
    (date : Option Time)
    → h.from_string r.path_id ≡ some id
    → parse_published_at h.zone (form_value r (codes "published_at")) ≡ some date
    → submitted h r res false now
      ≡ with_date (typed_form h res.kind r r.path_id) (typed_record r id) now (some date)
unfolding submitted
submitted_read h res r now id date i d =
    ap (identified h r res.kind r.path_id now) i
    ∙ ap (with_date (typed_form h res.kind r r.path_id) (typed_record r id) now) d

-- The editor's form, posted back untouched, is read as the record that it was opened on: no error, and
-- the same ID, texts and Publication Date.
pub submitted-form_of :
    {S : Type 0} (h : Editor) (res : Resource S) (rec : Record) (opened posted : Time) (r : Request)
    → IsEditable h rec.published_at
    → Posts h r (form_of h res rec opened) rec.id
    → let sub = submitted h r res false posted in (sub.rec ≡ rec) × (sub.error ≡ none)
unfolding submitted form_of
submitted-form_of h res rec opened posted r k p =
    let date : parse_published_at h.zone (form_value r (codes "published_at"))
        ≡ some rec.published_at =
      rw (p.published_at) (date_read h rec.published_at k) in
    let read = submitted_read h res r posted rec.id rec.published_at p.id_read date in
    (ap (λ t. t.rec) read ∙ rw (p.slug, p.title, p.body), ap (λ t. t.error) read)

-- A save that `submitted` accepts is one write of the record, with its answer.
pub save_accepted :
    {S : Type 0} (h : Editor) (res : Resource S) (new : Bool) (others : ℕ → S → S)
    (clock : ℕ → Time) (r : Request) (st : S) (form : Pairs)
    → r.form ≡ some form
    → let sub = submitted h r res new (clock 0) in
      let final = publish_now h r (clock 1) sub in
      sub.error ≡ none
      → save h res new others clock r st ≡ (
        (write res new (others 0) st final.rec).0,
        answer h res r final.form (write res new (others 0) st final.rec).1,
      )
unfolding save
save_accepted h res new others clock r st form f accepted =
    let sub = submitted h r res new (clock 0) in
    ap (λ t. parsed t st (save_submitted h res new (others 0) (clock 1) r st sub sub.error)) f
    ∙ ap (save_submitted h res new (others 0) (clock 1) r st sub) accepted
    ∙ (unfold save_submitted in refl)

Result-cases : (x : Result Record) → ((e : Error) × (x ≡ err e)) ⊎ ((a : Record) × (x ≡ ok a))
Result-cases (ok a) = inr (a, refl)
Result-cases (err e) = inl (e, refl)

-- Writing the stored record again changes no record.
rewrite_kept :
    {S : Type 0} (res : Resource S)
    → IsKept res
    → (st : S) (rec : Record) (id : UuidNumber) → res.by_id st rec.id ≡ ok rec
    → res.by_id (res.update (λ t. t) st rec true).0 id ≡ res.by_id st id
rewrite_kept res kept st rec id found = elim (Result-cases (res.update (λ t. t) st rec true).1) [
  | inl (e, failed) ↦ kept.update_failed (λ t. t) st rec true e id rec found failed
  | inr (new, done) ↦ elim (Bool-cases (id == rec.id)) [
    | inl same ↦
        let after = kept.update_same (λ t. t) st rec true new rec rec found found done in
        let here : id ≡ rec.id = ground arith in
        rw here (
          after
          ∙ ap (λ d. ok (record rec { published_at = d })) (kept.kept_date st rec.id rec found)
          ∙ sym found)
    | inr differ ↦ kept.update_other (λ t. t) st rec true id rec found (ground arith)
  ]
]

-- Over a resource that keeps the laws of a table, opening the editor of a stored record and saving
-- its form untouched leaves every record as it was, where nothing else writes meanwhile and the editor's
-- layout reads back the record's date.
pub save_untouched :
    {S : Type 0} (h : Editor) (res : Resource S)
    → IsKept res
    → (clock : ℕ → Time) (opened : Time) (r : Request) (st : S) (form : Pairs) (rec : Record)
      (id : UuidNumber)
    → res.by_id st rec.id ≡ ok rec
    → IsEditable h rec.published_at
    → r.form ≡ some form
    → (form_value r (codes "action") =ᵇ codes "publish_now") ≡ false
    → Posts h r (form_of h res rec opened) rec.id
    → res.by_id (save h res false (λ i t. t) clock r st).0 id ≡ res.by_id st id
save_untouched h res kept clock opened r st form rec id found k f no_action p =
    let (same, accepted) = submitted-form_of h res rec opened (clock 0) r k p in
    ap (λ t. res.by_id t.0 id) (save_accepted h res false (λ i t. t) clock r st form f accepted)
    ∙ (unfold publish_now write in rw (no_action, same) (rewrite_kept res kept st rec id found))

-- The typed texts under a date.
abbrev pub typed_at : Request → UuidNumber → Time → Record
typed_at r id now = record (typed_record r id) { published_at = some now }

-- "Publish now", over a resource that keeps the laws of a table: where the typed date reads, the
-- update re-reads the record, it is still there and the update succeeds, the save leaves it with the typed
-- texts and what the store keeps of the time of the save as its Publication Date, whatever date was typed
-- and whatever other requests do inside the update. That is less than a microsecond away from the time of
-- the save, and the record is live from a microsecond after it on.
pub save_publishes :
    {S : Type 0} (h : Editor) (res : Resource S) (kept : IsKept res) (others : ℕ → S → S)
    (clock : ℕ → Time) (r : Request) (st : S) (form : Pairs) (id : UuidNumber) (date : Option Time)
    (new old there : Record) (later : Time)
    → r.form ≡ some form
    → h.from_string r.path_id ≡ some id
    → parse_published_at h.zone (form_value r (codes "published_at")) ≡ some date
    → form_value r (codes "action") ≡ codes "publish_now"
    → res.by_id st id ≡ ok old
    → res.by_id (others 0 st) id ≡ ok there
    → (res.update (others 0) st (typed_at r id (clock 1)) true).1 ≡ ok new
    → clock 1 +ℤ pos 1000 ≤ℤ later
    → let date = kept.keep (clock 1) in
      (res.by_id (save h res false others clock r st).0 id ≡ ok (typed_at r id date))
      × (date <ℤ clock 1 +ℤ pos 1000)
      × (clock 1 <ℤ date +ℤ pos 1000)
      × (is_live (some date) later ≡ true)
unfolding is_live publish_now write
save_publishes h res kept others clock r st form id date new old there later f i d action found
      still done le =
    let typed = typed_at r id (clock 1) in
    let read = submitted_read h res r (clock 0) id date i d in
    let action_is : (form_value r (codes "action") =ᵇ codes "publish_now") ≡ true =
      rw (action, =ᵇ_refl) in
    let final : (publish_now h r (clock 1) (submitted h r res false (clock 0))).rec ≡ typed =
      ap (λ t. (publish_now h r (clock 1) t).rec) read ∙ rw (action_is) in
    let after = kept.update_same (others 0) st typed true new old there found still done in
    let (close, close') = kept.keep_close (clock 1) in
    let arrived : kept.keep (clock 1) ≤ℤ later = omega int_laws in
    (
      ap (λ t. res.by_id t.0 id)
            (save_accepted h res false others clock r st form f (ap (λ t. t.error) read))
          ∙ ap (λ t. res.by_id (res.update (others 0) st t true).0 id) final
          ∙ after,
      close,
      close',
      ground arith,
    )

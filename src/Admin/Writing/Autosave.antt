-- ===== src/Admin/Writing/Autosave.antt =====
-- internal/admin/writing.go: what autosave does to the stored writing.
use go_personal_web.Prelude.{
  ℕ, ◌≡◌, ◌⊎◌, inl, inr, refl, ap, ◌∙◌, sym, true, false, Option, none, some, Bool-cases,
  Option-cases, ◌==◌, if◌then◌else◌, arith,
}
use go_personal_web.GoStd.Time.{Time}
use go_personal_web.Http.{Request, Pairs}
use go_personal_web.Content.{UuidNumber, is_arrived}
use go_personal_web.Content.Errors.{Error, Result, ok, err, is, not_found}
use go_personal_web.Admin.Render.{fail, not_found_reply}
use go_personal_web.Admin.Writing.{Editor, Loaded, found, answered, load}
use go_personal_web.Admin.Writing.Handlers.{parsed, overlaid, autosave_loaded, is_live, autosave}
use go_personal_web.Admin.Writing.Resources.{Record, Resource}
use go_personal_web.Admin.Writing.Laws.{IsKept}

abbrev pub date_of : Result Record → Option (Option Time)
date_of (ok rec) = some rec.published_at
date_of (err e) = none

-- What autosave can do to the store: nothing, or one update of the record that it loaded and that
-- was not live then.
data Touched {S : Type 0} (h : Editor) (res : Resource S) (others : ℕ → S → S) (clock : ℕ → Time)
    (r : Request) (st : S) : S → Type 0 where
  untouched : Touched h res others clock r st st
  updated :
      (stored : Record) (id : UuidNumber)
      → h.from_string r.path_id ≡ some id
      → res.by_id st id ≡ ok stored
      → is_arrived stored.published_at (clock 1) ≡ false
      → Touched h res others clock r st
          (res.update (others 1) (others 0 st) (overlaid h res r (clock 2) stored) false).0

loaded_record :
    (found_by : Result Record) (stored : Record)
    → elim found_by [
      | ok rec ↦ found rec
      | err e ↦ answered (if is e not_found then not_found_reply else fail)
    ]
      ≡ found stored
    → found_by ≡ ok stored
loaded_record (ok rec) stored e = cc
loaded_record (err d) stored e = absurd cc

load_found :
    {S : Type 0} (h : Editor) (res : Resource S) (r : Request) (st : S) (stored : Record)
    → load h res r st ≡ found stored
    → (id : UuidNumber) × (h.from_string r.path_id ≡ some id) × (res.by_id st id ≡ ok stored)
unfolding load
load_found h res r st stored e = elim (Option-cases (h.from_string r.path_id)) [
  | inl f ↦ absurd (let e' = rw (load, f) at e in cc)
  | inr (id, f) ↦ (id, f, loaded_record (res.by_id st id) stored (rw (load, f) at e))
]

module _ {S : Type 0} (h : Editor) (res : Resource S) (others : ℕ → S → S) (clock : ℕ → Time)
    (r : Request) (st : S) where
  touched_loaded :
      (l : Loaded)
      → load h res r st ≡ l
      → Touched h res others clock r st (autosave_loaded h res others clock r st l).0
  unfolding autosave_loaded is_live
  touched_loaded (answered reply) e = untouched
  touched_loaded (found stored) e = elim (Bool-cases (is_arrived stored.published_at (clock 1))) [
    | inl live ↦ rw live untouched
    | inr draft ↦
        rw draft (let (id, i, f) = load_found h res r st stored e in updated stored id i f draft)
  ]

  autosave_touched : Touched h res others clock r st (autosave h res others clock r st).0
  unfolding autosave
  autosave_touched = go r.form
    where
      go :
          (f : Option Pairs)
          → Touched h res others clock r st
              (parsed f st (autosave_loaded h res others clock r st (load h res r st))).0
      go none = untouched
      go (some f) = touched_loaded _ refl

Result-cases : (x : Result Record) → ((e : Error) × (x ≡ err e)) ⊎ ((a : Record) × (x ≡ ok a))
Result-cases (ok a) = inr (a, refl)
Result-cases (err e) = inl (e, refl)

-- Other requests remove no record.
abbrev pub Stays : {S : Type 0} → Resource S → (S → S) → Type 0
Stays {S} res between =
    (st : S) (id : UuidNumber) (old : Record)
    → res.by_id st id ≡ ok old
    → (there : Record) × (res.by_id (between st) id ≡ ok there)

-- One update without the date leaves of each ID the date that others left, or the one that it re-read.
update_dates :
    {S : Type 0} (res : Resource S)
    → IsKept res
    → (between : S → S) → Stays res between
    → (st : S) (rec : Record) (id : UuidNumber)
    → let after = (res.update between st rec false).0 in
      (date_of (res.by_id after id) ≡ date_of (res.by_id (between st) id))
      ⊎ ((id ≡ rec.id) × (date_of (res.by_id after id) ≡ date_of (res.by_id st id)))
      ⊎ (after ≡ st)
update_dates res kept between stays st rec id = elim (Result-cases (res.by_id st rec.id)) [
  | inl (e, missing) ↦
      inr (inr (ap (λ t. t.0) (kept.update_missing between st rec false e missing)))
  | inr (old, read) ↦ elim (Result-cases (res.update between st rec false).1) [
    | inl (e, failed) ↦
        inl (ap date_of (kept.update_failed between st rec false e id old read failed))
    | inr (new, done) ↦ elim (Bool-cases (id == rec.id)) [
      | inl same ↦
          let (there, still) = stays st rec.id old read in
          let after = kept.update_same between st rec false new old there read still done in
          let here : id ≡ rec.id = ground arith in
          inr (inl (here, rw here (ap date_of after ∙ sym (ap date_of read))))
      | inr differ ↦
          inl (ap date_of (kept.update_other between st rec false id old read (ground arith)))
    ]
  ]
]

-- Over a resource that keeps the laws of a table, autosave makes up no Publication Date. Other requests,
-- which remove no record, do what they do between its load and its update (`others 0`) and inside the update,
-- between the re-reading and the writing of the row (`others 1`). Of each ID the store then holds the date
-- that they left there; or, of the record that autosave names only, the date that it re-read, which undoes what
-- others did to that date since; or the update found no row and did nothing, or autosave left the
-- store alone.
pub autosave_keeps_dates :
    {S : Type 0} (h : Editor) (res : Resource S)
    → IsKept res
    → (others : ℕ → S → S) → Stays res (others 1)
    → (clock : ℕ → Time) (r : Request) (st : S) (id : UuidNumber)
    → let after = (autosave h res others clock r st).0 in
      let reread = others 0 st in
      (date_of (res.by_id after id) ≡ date_of (res.by_id (others 1 reread) id))
      ⊎ ((h.from_string r.path_id ≡ some id)
          × (date_of (res.by_id after id) ≡ date_of (res.by_id reread id)))
      ⊎ (after ≡ reread)
      ⊎ (after ≡ st)
unfolding overlaid
autosave_keeps_dates {S} h res kept others stays clock r st id =
    go _ (autosave_touched h res others clock r st)
  where
    go :
        (after : S)
        → Touched h res others clock r st after
        → (date_of (res.by_id after id) ≡ date_of (res.by_id (others 1 (others 0 st)) id))
          ⊎ ((h.from_string r.path_id ≡ some id)
              × (date_of (res.by_id after id) ≡ date_of (res.by_id (others 0 st) id)))
          ⊎ (after ≡ others 0 st)
          ⊎ (after ≡ st)
    go _ untouched = inr (inr (inr refl))
    go _ (updated stored i named f draft) =
        elim (update_dates res kept (others 1) stays (others 0 st) _ id) [
          | inl left ↦ inl left
          | inr (inl (here, old)) ↦
              inr (inl (named ∙ ap some (sym (kept.found_id st i stored f) ∙ sym here), old))
          | inr (inr none_there) ↦ inr (inr (inl none_there))
        ]

-- Over a resource that keeps the laws of a table, live writing is out of reach of autosave where
-- nothing else writes meanwhile: a record that is live at the time of the test is stored as it
-- was, whichever record the request names.
pub autosave_keeps_live :
    {S : Type 0} (h : Editor) (res : Resource S)
    → IsKept res
    → (clock : ℕ → Time) (r : Request) (st : S) (id : UuidNumber) (rec : Record)
    → res.by_id st id ≡ ok rec
    → is_arrived rec.published_at (clock 1) ≡ true
    → res.by_id (autosave h res (λ i t. t) clock r st).0 id ≡ ok rec
unfolding overlaid
autosave_keeps_live h res kept clock r st id rec stored_now live =
    go _ (autosave_touched h res (λ i t. t) clock r st)
  where
    go : (after : _) → Touched h res (λ i t. t) clock r st after → res.by_id after id ≡ ok rec
    go _ untouched = stored_now
    go _ (updated stored i named f draft) = elim (Bool-cases (id == i)) [
      | inl same ↦
          let here : id ≡ i = ground arith in
          absurd (let f' = rw (← here) at f in let both : rec ≡ stored = cc in cc)
      | inr differ ↦
          let here = kept.found_id st i stored f in
          kept.update_other (λ t. t) st _ false id stored (ap (res.by_id st) here ∙ f)
            (λ e. let same : id ≡ i = e ∙ here in ground arith)
          ∙ stored_now
    ]

loads :
    {S : Type 0} (h : Editor) (res : Resource S) (r : Request) (st : S) (id : UuidNumber)
    (rec : Record)
    → h.from_string r.path_id ≡ some id
    → res.by_id st id ≡ ok rec
    → load h res r st ≡ found rec
unfolding load
loads h res r st id rec i d = rw (load, i, d)

autosave_writes :
    {S : Type 0} (h : Editor) (res : Resource S) (others : ℕ → S → S) (clock : ℕ → Time)
    (r : Request) (st : S) (id : UuidNumber) (form : Pairs) (draft : Record)
    → r.form ≡ some form
    → h.from_string r.path_id ≡ some id
    → res.by_id st id ≡ ok draft
    → is_arrived draft.published_at (clock 1) ≡ false
    → (autosave h res others clock r st).0
      ≡ (res.update (others 1) (others 0 st) (overlaid h res r (clock 2) draft) false).0
unfolding autosave
autosave_writes h res others clock r st id form draft f i d not_live =
    ap (λ t. (parsed t st (autosave_loaded h res others clock r st (load h res r st))).0) f
    ∙ ap (λ t. (autosave_loaded h res others clock r st t).0) (loads h res r st id draft i d)
    ∙ (unfold autosave_loaded is_live in rw (not_live))

-- Over a resource that keeps the laws of a table, a request that publishes between the load and
-- the update is not seen, and one that publishes inside the update is undone: where the record was not live
-- when autosave tested it, and the update re-reads a record, still finds it there and succeeds, the typed
-- texts stand under the date that it re-read, whatever other requests have made of that date since.
pub autosave_races :
    {S : Type 0} (h : Editor) (res : Resource S)
    → IsKept res
    → (others : ℕ → S → S) (clock : ℕ → Time) (r : Request) (st : S) (id : UuidNumber)
      (form : Pairs) (draft live there new : Record)
    → r.form ≡ some form
    → h.from_string r.path_id ≡ some id
    → res.by_id st id ≡ ok draft
    → is_arrived draft.published_at (clock 1) ≡ false
    → res.by_id (others 0 st) id ≡ ok live
    → res.by_id (others 1 (others 0 st)) id ≡ ok there
    → (res.update (others 1) (others 0 st) (overlaid h res r (clock 2) draft) false).1 ≡ ok new
    → res.by_id (autosave h res others clock r st).0 id
      ≡ ok (record (overlaid h res r (clock 2) draft) { published_at = live.published_at })
unfolding overlaid
autosave_races h res kept others clock r st id form draft live there new f i d not_live l still
      done =
    let rec = overlaid h res r (clock 2) draft in
    let here = kept.found_id st id draft d in
    let after =
      kept.update_same (others 1) (others 0 st) rec false new live there
        (ap (res.by_id (others 0 st)) here ∙ l)
        (ap (res.by_id (others 1 (others 0 st))) here ∙ still) done in
    ap (λ t. res.by_id t id) (autosave_writes h res others clock r st id form draft f i d not_live)
    ∙ ap (res.by_id (res.update (others 1) (others 0 st) rec false).0) (sym here)
    ∙ after

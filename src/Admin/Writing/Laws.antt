-- ===== src/Admin/Writing/Laws.antt =====
-- What the editor relies on of the store, for one kind of writing, and the resources of
-- internal/admin/writing.go over such a store.
use go_personal_web.Prelude.{
  ◌≡◌, ◌≢◌, refl, ap, ◌∙◌, sym, subst, Bool, Option, none, some, if◌then◌else◌, pos, ◌+ℤ◌, ◌<ℤ◌,
  Bool-cases, inl, inr,
}
use go_personal_web.GoStd.Time.{Time}
use go_personal_web.Content.{UuidNumber, Post, author}
use go_personal_web.Content.Errors.{Error, Result, ok, err}
use go_personal_web.Admin.Store.{Store}
use go_personal_web.Admin.Writing.Resources.{
  Record, Resource, record_of_post, map_result, merge_post, posts,
}

-- A date as the store keeps it.
abbrev pub map_date : (Time → Time) → Option Time → Option Time
map_date keep none = none
map_date keep (some t) = some (keep t)

-- PostgreSQL keeps microseconds: what it keeps of an instant is less than one away from it.
abbrev pub IsClose : (Time → Time) → Type 0
IsClose keep = (t : Time) → (keep t <ℤ t +ℤ pos 1000) × (t <ℤ keep t +ℤ pos 1000)

-- Reading by ID after an update, through the resource: the row is re-read, others act, and what was
-- re-read is written back with the fields of the record. `keep` is what the store keeps of a date, and a
-- date that it holds has been kept.
pub record IsKept {S : Type 0} (res : Resource S) : Type 0 where
  pub keep : Time → Time
  pub keep_close : IsClose keep
  pub kept_date :
      (st : S) (id : UuidNumber) (rec : Record)
      → res.by_id st id ≡ ok rec
      → map_date keep rec.published_at ≡ rec.published_at
  pub found_id : (st : S) (id : UuidNumber) (rec : Record) → res.by_id st id ≡ ok rec → rec.id ≡ id
  pub update_missing :
      (between : S → S) (st : S) (rec : Record) (with_date : Bool) (e : Error)
      → res.by_id st rec.id ≡ err e
      → res.update between st rec with_date ≡ (st, err e)
  pub update_other :
      (between : S → S) (st : S) (rec : Record) (with_date : Bool) (id : UuidNumber) (old : Record)
      → res.by_id st rec.id ≡ ok old
      → id ≢ rec.id
      → res.by_id (res.update between st rec with_date).0 id ≡ res.by_id (between st) id
  pub update_same :
      (between : S → S) (st : S) (rec : Record) (with_date : Bool) (new old there : Record)
      → res.by_id st rec.id ≡ ok old
      → res.by_id (between st) rec.id ≡ ok there
      → (res.update between st rec with_date).1 ≡ ok new
      → res.by_id (res.update between st rec with_date).0 rec.id
        ≡ ok (record rec {
          published_at = if with_date then map_date keep rec.published_at else old.published_at;
        })
  pub update_failed :
      (between : S → S) (st : S) (rec : Record) (with_date : Bool) (e : Error) (id : UuidNumber)
      (old : Record)
      → res.by_id st rec.id ≡ ok old
      → (res.update between st rec with_date).1 ≡ err e
      → res.by_id (res.update between st rec with_date).0 id ≡ res.by_id (between st) id

-- The same of a store's Posts: a table keyed by ID, whose `updated_at` the write sets.
pub record KeepsPosts (s : Store) : Type 0 where
  pub keep : Time → Time
  pub keep_close : IsClose keep
  pub kept_date :
      (st : s.State) (id : UuidNumber) (p : Post)
      → s.post_by_id st id author ≡ ok p
      → map_date keep p.published_at ≡ p.published_at
  pub found_id :
      (st : s.State) (id : UuidNumber) (p : Post) → s.post_by_id st id author ≡ ok p → p.id ≡ id
  pub update_other :
      (st : s.State) (p : Post) (id : UuidNumber)
      → id ≢ p.id
      → s.post_by_id (s.update_post st p).0 id author ≡ s.post_by_id st id author
  pub update_same :
      (st : s.State) (p q there : Post)
      → s.post_by_id st p.id author ≡ ok there
      → (s.update_post st p).1 ≡ ok q
      → (t : Time) × (s.post_by_id (s.update_post st p).0 p.id author
          ≡ ok (record p { published_at = map_date keep p.published_at; updated_at = t }))
  pub update_failed :
      (st : s.State) (p : Post) (e : Error) (id : UuidNumber)
      → (s.update_post st p).1 ≡ err e
      → s.post_by_id (s.update_post st p).0 id author ≡ s.post_by_id st id author

map_result_ok :
    {A : Type 0} (f : A → Record) (r : Result A) (rec : Record)
    → map_result f r ≡ ok rec
    → (a : A) × (r ≡ ok a) × (f a ≡ rec)
map_result_ok f (ok a) rec h = (a, refl, cc)
map_result_ok f (err e) rec h = absurd cc

map_result-err :
    {A : Type 0} (f : A → Record) (r : Result A) (e : Error) → map_result f r ≡ err e → r ≡ err e
map_result-err f (ok a) e h = absurd cc
map_result-err f (err d) e h = cc

module _ (s : Store) (k : KeepsPosts s) where
  -- The Post behind a record.
  found_post :
      (st : s.State) (id : UuidNumber) (old : Record)
      → (posts s).by_id st id ≡ ok old
      → (p : Post) × (s.post_by_id st id author ≡ ok p) × (record_of_post p ≡ old)
  unfolding posts
  found_post st id old h = map_result_ok record_of_post (s.post_by_id st id author) old h

  posts_missing :
      (between : s.State → s.State) (st : s.State) (rec : Record) (with_date : Bool) (e : Error)
      → (posts s).by_id st rec.id ≡ err e
      → (posts s).update between st rec with_date ≡ (st, err e)
  unfolding posts
  posts_missing between st rec with_date e h =
      let missing = map_result-err record_of_post (s.post_by_id st rec.id author) e h in
      rw (missing) refl

  module _ (between : s.State → s.State) (st : s.State) (rec : Record) (with_date : Bool) where
    -- An update of a row that is there writes the merged row.
    written :
        (p : Post)
        → s.post_by_id st rec.id author ≡ ok p
        → (posts s).update between st rec with_date ≡ (
          (s.update_post (between st) (merge_post p rec with_date)).0,
          map_result (λ q. rec) (s.update_post (between st) (merge_post p rec with_date)).1,
        )
    unfolding posts
    written p h = rw (h) refl

    posts_other :
        (id : UuidNumber) (old : Record)
        → (posts s).by_id st rec.id ≡ ok old
        → id ≢ rec.id
        → (posts s).by_id ((posts s).update between st rec with_date).0 id
          ≡ (posts s).by_id (between st) id
    posts_other id old h ne =
        let (p, found, _) = found_post st rec.id old h in
        ap (λ t. (posts s).by_id t.0 id) (written p found)
        ∙ (unfold posts merge_post in
            ap (map_result record_of_post) (
              k.update_other (between st) (merge_post p rec with_date) id
                (λ e. ne (e ∙ k.found_id st rec.id p found))))

    posts_failed :
        (e : Error) (id : UuidNumber) (old : Record)
        → (posts s).by_id st rec.id ≡ ok old
        → ((posts s).update between st rec with_date).1 ≡ err e
        → (posts s).by_id ((posts s).update between st rec with_date).0 id
          ≡ (posts s).by_id (between st) id
    posts_failed e id old h r =
        let (p, found, _) = found_post st rec.id old h in
        let failed = map_result-err _ _ e (sym (ap (λ t. t.1) (written p found)) ∙ r) in
        ap (λ t. (posts s).by_id t.0 id) (written p found)
        ∙ (unfold posts in
            ap (map_result record_of_post)
              (k.update_failed (between st) (merge_post p rec with_date) e id failed))

    dates_kept :
        (p : Post)
        → s.post_by_id st rec.id author ≡ ok p
        → map_date k.keep (if with_date then rec.published_at else p.published_at)
          ≡ (if with_date then map_date k.keep rec.published_at else p.published_at)
    dates_kept p found = elim (Bool-cases with_date) [
      | inl dated ↦ rw (dated) refl
      | inr plain ↦ rw (plain) (k.kept_date st rec.id p found)
    ]

    posts_same :
        (new old there : Record)
        → (posts s).by_id st rec.id ≡ ok old
        → (posts s).by_id (between st) rec.id ≡ ok there
        → ((posts s).update between st rec with_date).1 ≡ ok new
        → (posts s).by_id ((posts s).update between st rec with_date).0 rec.id
          ≡ ok (record rec {
            published_at = if with_date then map_date k.keep rec.published_at else old.published_at;
          })
    posts_same new old there h h' r =
        let (p, found, same) = found_post st rec.id old h in
        let (p', found', _) = found_post (between st) rec.id there h' in
        let here = k.found_id st rec.id p found in
        let merged = merge_post p rec with_date in
        let merged_id : merged.id ≡ rec.id = unfold merge_post in here in
        let (q, stored, _) = map_result_ok _ _ new (sym (ap (λ t. t.1) (written p found)) ∙ r) in
        let (t, after) =
          k.update_same (between st) merged q p'
            (ap (λ id. s.post_by_id (between st) id author) merged_id ∙ found') stored in
        let read : (posts s).by_id (s.update_post (between st) merged).0 merged.id
            ≡ ok (record rec {
              id = p.id;
              published_at =
                  map_date k.keep (if with_date then rec.published_at else p.published_at);
            }) =
          unfold posts merge_post in ap (map_result record_of_post) after in
        ap (λ t. (posts s).by_id t.0 rec.id) (written p found)
        ∙ ap (λ id. (posts s).by_id (s.update_post (between st) merged).0 id) (sym merged_id)
        ∙ read
        ∙ ap (λ d. ok (record rec { id = p.id; published_at = d })) (dates_kept p found)
        ∙ ap
            (λ id. ok (record rec {
              id = id;
              published_at = if with_date then map_date k.keep rec.published_at else p.published_at;
            }))
            here
        ∙ ap
            (λ (o : Record). ok (record rec {
              published_at = if with_date then map_date k.keep rec.published_at else o.published_at;
            }))
            same

  -- The Post resource keeps the laws of a table of records, over every store whose Posts keep theirs, and
  -- whatever other requests do inside an update: an update changes the one record, with the date where
  -- asked and with the date that it re-read where not, or nothing.
  pub posts-IsKept : IsKept (posts s)
  posts-IsKept = record {
    keep = k.keep;
    keep_close = k.keep_close;
    kept_date = λ st id rec h.
        let (p, found, same) = found_post st id rec h in
        subst (λ (o : Record). map_date k.keep o.published_at ≡ o.published_at) same
          (k.kept_date st id p found);
    found_id = λ st id rec h.
        let (p, found, same) = found_post st id rec h in
        ap (λ (o : Record). o.id) (sym same) ∙ k.found_id st id p found;
    update_missing = posts_missing;
    update_other = posts_other;
    update_same = posts_same;
    update_failed = posts_failed;
  }

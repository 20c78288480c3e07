-- ===== src/Content/Store/Publication.antt =====
-- internal/content/store.go: when the public can read a Post.
use go_personal_web.Prelude.{◌≡◌, ◌↔◌, ◌⊎◌, inl, inr, refl, ◌∙◌, ap, true, Bool, List, Bytes}
use mathlib.Core.List.{Mem}
use go_personal_web.GoStd.Time.{Time}
use go_personal_web.Content.{public, UuidNumber, Post, post_is_published}
use go_personal_web.Content.Errors.{no_rows, DbResult, row, fault, ok}
use go_personal_web.Content.Store.{
  slug_is, id_is, Clause, Conn, visible, where_clause, wrapped, post_by_slug, post_by_id,
}
use go_personal_web.Content.Store.Visibility.{post_columns, Meets, IsFaithful}

-- The database answers a query: with a row, or that there is none.
abbrev pub Answers : {A : Type 0} → DbResult A → Type 0
Answers {A} r = ((a : A) × (r ≡ row a)) ⊎ (r ≡ fault no_rows)

ok-inj : {A : Type 0} (a b : A) → ok a ≡ ok b → a ≡ b
ok-inj a b h = cc

wrapped-row :
    {A : Type 0} (r : DbResult A) (what : Bytes) (a : A) → wrapped r what ≡ ok a → r ≡ row a
wrapped-row (row b) what a h = ap row (ok-inj b a h)
wrapped-row (fault e) what a h = absurd (cc)

module _ (c : Conn) (print_id : UuidNumber → Bytes) (like : Bytes → Bytes → Bool)
    (now : c.State → Time) (rows : c.State → List Post) (f : IsFaithful like now rows c.posts)
    (st : c.State) (p : Post) (m : Mem p (rows st)) where
  read_by :
      (cl : Clause) (what : Bytes)
      → Meets like (now st) p cl
      → ((q : Post) → Mem q (rows st) → Meets like (now st) q cl → q ≡ p)
      → Answers (c.posts.first st (where_clause (visible public) cl))
      → (wrapped (c.posts.first st (where_clause (visible public) cl)) what ≡ ok p)
        ↔ (post_is_published p (now st) ≡ true)
  unfolding where_clause visible post_is_published
  read_by cl what met only answers = (
    (λ e. let (_, (shown, _)) = f.first_found st _ p (wrapped-row _ what p e) in shown),
    λ shown. elim answers [
      | inl (a, e) ↦
          let (member, (_, (meets, _))) = f.first_found st _ a e in
          ap (λ r. wrapped r what) e ∙ ap ok (only a member meets)
      | inr e ↦ absurd (f.first_missing st _ p e m (shown, (met, tt)))
    ],
  )

  -- Over a table that answers faithfully, and that does answer these two queries, a stored Post whose
  -- Slug and ID no other Post has is what the public reads by its Slug and by its ID exactly where it is
  -- published at the database's clock: a scheduled Post is read from the instant of its Publication Date on,
  -- with nothing written, and a draft never.
  pub public_reads_published :
      ((q : Post) → Mem q (rows st) → q.slug ≡ p.slug → q ≡ p)
      → ((q : Post) → Mem q (rows st) → q.id ≡ p.id → q ≡ p)
      → Answers (c.posts.first st (where_clause (visible public) (slug_is p.slug)))
      → Answers (c.posts.first st (where_clause (visible public) (id_is p.id)))
      → ((post_by_slug c print_id st p.slug public ≡ ok p) ↔ (post_is_published p (now st) ≡ true))
        × ((post_by_id c print_id st p.id public ≡ ok p) ↔ (post_is_published p (now st) ≡ true))
  unfolding post_by_slug post_by_id
  public_reads_published one_slug one_id by_slug by_id =
      (read_by (slug_is p.slug) _ refl one_slug by_slug, read_by (id_is p.id) _ refl one_id by_id)

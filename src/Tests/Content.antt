-- ===== src/Tests/Content.antt =====
-- An in-memory database: what it shows to whom.
use go_personal_web.Prelude.{
  ◌≡◌, inl, inr, refl, Bool, true, false, none, some, List, [], ◌∷◌, Bytes, ◌=ᵇ◌, =ᵇ_iff, ◌==◌,
  ◌&&◌, ◌||◌, ◌↔◌, subst, sym, ◌∙◌, Bool-cases, codes, pos, All, if◌then◌else◌, arith,
}
use mathlib.Core.List.{Mem, mem-cons_self}
use mathlib.Core.List.Memᴰ
use mathlib.Core.Logic.{∥∥₁_elim}
use go_personal_web.GoStd.Time.{Time}
use go_personal_web.Content.{public, UuidNumber, Post, Page, is_arrived, post_is_published}
use go_personal_web.Content.Errors.{row, fault, no_rows, ok}
use go_personal_web.Content.Store.{
  Clause, published, slug_is, id_is, like_either, Query, Table, Conn, Listing, post_by_slug,
  find_posts, posts_page, post_by_id, pattern_of, visible, where_clause,
}
use go_personal_web.Content.Store.Visibility.{
  Columns, post_columns, page_columns, Meets, IsFaithful, Returns, public_posts_shown,
}
use go_personal_web.Content.Store.Publication.{public_reads_published}
use go_personal_web.Content.Store.Matching.{like, any_rest, begins, like-pattern_of}

abbrev pub draft : Post
draft = record {
  id = 1;
  slug = codes "draft";
  title = codes "Draft";
  body = [];
  published_at = none;
  created_at = pos 0;
  updated_at = pos 0;
}

abbrev pub live : Post
live = record {
  id = 2;
  slug = codes "live";
  title = codes "Live";
  body = [];
  published_at = some (pos 5);
  created_at = pos 0;
  updated_at = pos 0;
}

abbrev about : Page
about = record {
  id = 3;
  slug = codes "about";
  title = codes "About";
  body = [];
  published_at = some (pos 5);
  created_at = pos 0;
  updated_at = pos 0;
}

abbrev matches : Bytes → Bytes → Bool
matches = like (λ c d. c == d)

-- A table of one row; the state is the clock.
module _ {A : Type 0} ⦃cols : Columns A⦄ (a : A) where
  abbrev meets : Time → Clause → Bool
  meets now published = is_arrived (cols.date_of a) now
  meets now (slug_is s) = cols.slug_of a =ᵇ s
  meets now (id_is i) = cols.id_of a == i
  meets now (like_either p) = matches p (cols.title_of a) || matches p (cols.slug_of a)

  abbrev all_met : Time → List Clause → Bool
  all_met now [] = true
  all_met now (c ∷ cs) = meets now c && all_met now cs

  unfoldable one_row : Table Time A
  one_row = record {
    first = λ now q. if all_met now q.clauses then row a else fault no_rows;
    all = λ now q. row (if all_met now q.clauses then a ∷ [] else []);
    create = λ now p. (now, row p);
    update = λ now p. (now, row p);
  }

  meets_iff : (now : Time) (c : Clause) → (meets now c ≡ true) ↔ Meets matches now a c
  meets_iff now published = (λ h. h, λ h. h)
  meets_iff now (slug_is s) = =ᵇ_iff (cols.slug_of a) s
  meets_iff now (id_is i) = ground arith
  meets_iff now (like_either p) = ground arith

  all_met_iff :
      (now : Time) (cs : List Clause) → (all_met now cs ≡ true) ↔ All (Meets matches now a) cs
  all_met_iff now [] = (λ h. tt, λ h. refl)
  all_met_iff now (c ∷ cs) = ground (arith, meets_iff now c, all_met_iff now cs)

  first_is :
      (now : Time) (q : Query) (m : Bool)
      → all_met now q.clauses ≡ m
      → one_row.first now q ≡ (if m then row a else fault no_rows)
  unfolding one_row
  first_is now q m e = rw (e)

  all_is :
      (now : Time) (q : Query) (m : Bool)
      → all_met now q.clauses ≡ m
      → one_row.all now q ≡ row (if m then a ∷ [] else [])
  unfolding one_row
  all_is now q m e = rw (e)

  row-injective : {B : Type 0} (b c : B) → row b ≡ row c → b ≡ c
  row-injective b c h = cc

  one_row-IsFaithful : IsFaithful matches (λ now. now) (λ now. a ∷ []) one_row
  one_row-IsFaithful = record {
    first_found = λ now q b h. elim (Bool-cases (all_met now q.clauses)) [
      | inl m ↦
          let same = row-injective a b (sym (first_is now q true m) ∙ h) in
          subst (λ b. Mem b (a ∷ []) × All (Meets matches now b) q.clauses) same
            (mem-cons_self, (all_met_iff now q.clauses).0 m)
      | inr m ↦ let no = sym (first_is now q false m) ∙ h in absurd cc
    ];
    first_missing = λ now q b h mem. elim (Bool-cases (all_met now q.clauses)) [
      | inl m ↦ let no = sym (first_is now q true m) ∙ h in λ met. absurd cc
      | inr m ↦ λ met.
          ∥∥₁_elim mem (λ x y. absurd x)
            (λ here.
              let same = Memᴰ.eq_of_singleton here in
              let met_a =
                (all_met_iff now q.clauses).1
                  (subst (λ b. All (Meets matches now b) q.clauses) same met) in
              absurd cc)
    ];
    all_found = λ now q found h. elim (Bool-cases (all_met now q.clauses)) [
      | inl m ↦
          let same = row-injective (a ∷ []) found (sym (all_is now q true m) ∙ h) in
          subst (All (λ b. Mem b (a ∷ []) × All (Meets matches now b) q.clauses)) same
            ((mem-cons_self, (all_met_iff now q.clauses).0 m), tt)
      | inr m ↦
          let same = row-injective [] found (sym (all_is now q false m) ∙ h) in
          subst (All (λ b. Mem b (a ∷ []) × All (Meets matches now b) q.clauses)) same tt
    ];
  }

abbrev print : UuidNumber → Bytes
print id = []

abbrev database : Conn
database = record { State = Time; posts = one_row live; pages = one_row about }

abbrev search : Listing
search = record { text = codes "li"; page = pos 0; per_page = pos 0 }

public_posts_shown_example :
    Returns
      (λ p. (post_is_published p (pos 7) ≡ true) × (p.slug ≡ codes "live") × Mem p (live ∷ []))
      (post_by_slug database print (pos 7) (codes "live") public)
    × Returns
        (λ p. (post_is_published p (pos 7) ≡ true) × (p.id ≡ 2) × Mem p (live ∷ []))
        (post_by_id database print (pos 7) 2 public)
    × Returns
        (All (λ p. post_is_published p (pos 7) ≡ true))
        (find_posts database print (pos 7) public search)
    × Returns
        (All (λ p. post_is_published p (pos 7) ≡ true))
        (posts_page database print (pos 7) public search.page search.per_page)
public_posts_shown_example =
    public_posts_shown database print matches (λ now. now) (λ now. live ∷ [])
      (one_row-IsFaithful live) (pos 7) (codes "live") 2 search

like-pattern_of_example :
    like (λ c d. c == d) (pattern_of (codes "50%")) (codes "up 50% more")
    ≡ any_rest (begins (λ c d. c == d) (codes "50%")) (codes "up 50% more")
like-pattern_of_example = like-pattern_of (λ c d. c == d) (codes "50%") (codes "up 50% more")

Post-IsSet : IsSet Post
Post-IsSet = hlevel

only_live : (q : Post) → Mem q (live ∷ []) → q ≡ live
only_live q m = ∥∥₁_elim m (λ x y. Post-IsSet q live x y) λ here. Memᴰ.eq_of_singleton here

public_reads_published_example :
    ((post_by_slug database print (pos 7) (codes "live") public ≡ ok live)
      ↔ (post_is_published live (pos 7) ≡ true))
    × ((post_by_id database print (pos 7) 2 public ≡ ok live)
        ↔ (post_is_published live (pos 7) ≡ true))
unfolding one_row visible where_clause codes ◌=ᵇ◌
public_reads_published_example =
    public_reads_published database print matches (λ now. now) (λ now. live ∷ [])
      (one_row-IsFaithful live) (pos 7) live mem-cons_self (λ q m e. only_live q m)
      (λ q m e. only_live q m) (inl (live, refl)) (inl (live, refl))

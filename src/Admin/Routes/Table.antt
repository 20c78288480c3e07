-- ===== src/Admin/Routes/Table.antt =====
-- internal/admin/admin.go and internal/view/view.go: the links that the screens print are routes.
use go_personal_web.Prelude.{
  ◌≡◌, ◌≢◌, refl, ap, ◌∙◌, false, some, List, [], ◌∷◌, ◌++◌, Bytes, Lacks, ◌=ᵇ◌, =ᵇ_iff, codes,
  Bool-cases, inl, inr, arith,
}
use go_personal_web.GoStd.Strings.{split, split-Lacks, split-append}
use go_personal_web.View.{Form, is_new, index_path, save_path, autosave_path}
use go_personal_web.Admin.Writing.{Editor, edit_path}
use go_personal_web.Admin.Writing.Resources.{Record}
use go_personal_web.Admin.Routes.{
  Kind, post, page, Action, list, create, update, edit_form, draft, kind_of, method_matches, select,
  Match, matched, matched_by, guarded_patterns, guarded_match,
}

-- The word of a kind, which the resources carry.
abbrev pub word : Kind → Bytes
word post = codes "post"
word page = codes "page"

split_one :
    (k : Kind)
    → split b'/' (codes "/admin/" ++ (word k ++ codes "s"))
      ≡ [] ∷ codes "admin" ∷ (word k ++ codes "s") ∷ []
unfolding split codes
split_one post = refl
split_one page = refl

split_two :
    (k : Kind) (id : Bytes)
    → Lacks b'/' id
    → split b'/' (codes "/admin/" ++ (word k ++ (codes "s/" ++ id)))
      ≡ [] ∷ codes "admin" ∷ (word k ++ codes "s") ∷ id ∷ []
unfolding split codes
split_two post id h = rw (split-Lacks b'/' id h)
split_two page id h = rw (split-Lacks b'/' id h)

split_three :
    (k : Kind) (id last : Bytes)
    → Lacks b'/' id
    → Lacks b'/' last
    → split b'/' (codes "/admin/" ++ (word k ++ (codes "s/" ++ (id ++ b'/' ∷ last))))
      ≡ [] ∷ codes "admin" ∷ (word k ++ codes "s") ∷ id ∷ last ∷ []
unfolding split codes
split_three post id last h l = rw (split-append b'/' id last h, split-Lacks b'/' last l)
split_three page id last h l = rw (split-append b'/' id last h, split-Lacks b'/' last l)

kind_of-word : (k : Kind) → kind_of (word k ++ codes "s") ≡ some k
unfolding kind_of codes ◌=ᵇ◌
kind_of-word post = refl
kind_of-word page = refl

-- What the guarded mux makes of a path by its segments.
abbrev match_of : Bytes → List Bytes → Match
match_of method segments =
    matched_by (select method (guarded_patterns segments)) (guarded_patterns segments)

match_one :
    (k : Kind) (b : Bytes)
    → kind_of b ≡ some k
    → (match_of (codes "GET") ([] ∷ codes "admin" ∷ b ∷ []) ≡ matched (list k))
      × (match_of (codes "POST") ([] ∷ codes "admin" ∷ b ∷ []) ≡ matched (create k))
unfolding guarded_patterns select method_matches codes ◌=ᵇ◌
match_one k b e = rw (e) (refl, refl)

match_two :
    (k : Kind) (b id : Bytes)
    → kind_of b ≡ some k
    → id ≢ []
    → match_of (codes "POST") ([] ∷ codes "admin" ∷ b ∷ id ∷ []) ≡ matched (update k id)
unfolding guarded_patterns select method_matches codes ◌=ᵇ◌
match_two k b [] e ne = absurd (ne refl)
match_two k b (x ∷ id) e ne = elim (Bool-cases (x ∷ id =ᵇ codes "new")) [
  | inl new ↦ rw (e, new) refl
  | inr old ↦ rw (e, old) refl
]

match_three :
    (k : Kind) (b id : Bytes)
    → kind_of b ≡ some k
    → id ≢ []
    → (match_of (codes "GET") ([] ∷ codes "admin" ∷ b ∷ id ∷ codes "edit" ∷ [])
        ≡ matched (edit_form k id))
      × (match_of (codes "POST") ([] ∷ codes "admin" ∷ b ∷ id ∷ codes "autosave" ∷ [])
          ≡ matched (draft k id))
unfolding guarded_patterns select method_matches codes ◌=ᵇ◌
match_three k b [] e ne = absurd (ne refl)
match_three k b (x ∷ id) e ne = rw (e) (refl, refl)

routed :
    (method path path' : Bytes) (segments : List Bytes) (a : Action)
    → path ≡ path'
    → split b'/' path' ≡ segments
    → match_of method segments ≡ matched a
    → guarded_match method path ≡ matched a
unfolding guarded_match
routed method path path' segments a p s m =
    ap (λ t. match_of method (split b'/' t)) p ∙ ap (match_of method) s ∙ m

save_path_new :
    (k : Kind) (f : Form)
    → f.kind ≡ word k
    → save_path (record f { id = [] }) ≡ codes "/admin/" ++ (word k ++ codes "s")
unfolding save_path is_new ◌=ᵇ◌
save_path_new k f named = rw (named)

save_path_old :
    (k : Kind) (f : Form)
    → f.kind ≡ word k
    → f.id ≢ []
    → save_path f ≡ codes "/admin/" ++ (word k ++ (codes "s/" ++ f.id))
unfolding save_path is_new
save_path_old k f named ne =
    let saved : (f.id =ᵇ []) ≡ false = ground (arith, =ᵇ_iff f.id []) in rw (saved, named)

autosave_path_of :
    (k : Kind) (f : Form)
    → f.kind ≡ word k
    → autosave_path f
      ≡ codes "/admin/" ++ (word k ++ (codes "s/" ++ (f.id ++ b'/' ∷ codes "autosave")))
unfolding autosave_path codes
autosave_path_of k f named = rw (named)

edit_path_of :
    (h : Editor) (k : Kind) (rec : Record) (id : Bytes)
    → h.print_id rec.id ≡ id
    → edit_path h (word k) rec
      ≡ codes "/admin/" ++ (word k ++ (codes "s/" ++ (id ++ b'/' ∷ codes "edit")))
unfolding edit_path codes
edit_path_of h k rec id printed = rw (printed)

last_Lacks : Lacks b'/' (codes "edit") × Lacks b'/' (codes "autosave")
unfolding codes
last_Lacks = (omega arith, omega arith)

-- The addresses that the screens print lead to their handlers: the list and the creation of a
-- kind, and for an ID that is not empty and has no slash the update, the autosave and the editor
-- of that ID.
pub links_routed :
    (h : Editor) (k : Kind) (f : Form) (rec : Record)
    → f.kind ≡ word k
    → f.id ≢ []
    → Lacks b'/' f.id
    → h.print_id rec.id ≡ f.id
    → (guarded_match (codes "GET") (index_path (word k)) ≡ matched (list k))
      × (guarded_match (codes "POST") (save_path (record f { id = [] })) ≡ matched (create k))
      × (guarded_match (codes "POST") (save_path f) ≡ matched (update k f.id))
      × (guarded_match (codes "POST") (autosave_path f) ≡ matched (draft k f.id))
      × (guarded_match (codes "GET") (edit_path h (word k) rec) ≡ matched (edit_form k f.id))
unfolding index_path
links_routed h k f rec named ne lacks printed =
    let word_of = kind_of-word k in
    let (no_edit, no_autosave) = last_Lacks in
    let (to_edit, to_draft) = match_three k _ f.id word_of ne in
    let (to_list, to_create) = match_one k _ word_of in
    (
      routed _ _ _ _ _ refl (split_one k) to_list,
      routed _ _ _ _ _ (save_path_new k f named) (split_one k) to_create,
      routed _ _ _ _ _ (save_path_old k f named ne) (split_two k f.id lacks)
          (match_two k _ f.id word_of ne),
      routed _ _ _ _ _ (autosave_path_of k f named) (split_three k f.id _ lacks no_autosave)
          to_draft,
      routed _ _ _ _ _ (edit_path_of h k rec f.id printed) (split_three k f.id _ lacks no_edit)
          to_edit,
    )

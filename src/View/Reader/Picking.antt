-- ===== src/View/Reader/Picking.antt =====
-- What a browser finds in a page: addresses that it picks from the start tags, markup by markup.
use go_personal_web.Prelude.{
  ℕ, ◌≡◌, refl, sym, ap, ◌∙◌, Bool, true, false, [], ◌∷◌, ◌++◌, List, Bytes, ◌=ᵇ◌, codes, take,
  drop, take-append-drop, if◌then◌else◌, append_assoc, is_absent, not, ◌&&◌,
}
use mathlib.Core.Path.{ap₂}
use go_personal_web.Http.{Pairs, get, find_pair}
use go_personal_web.View.Markup.{
  Markup, Templ, print, component, context, raw, escaped, url, attribute,
}
use go_personal_web.View.Reader.{
  Token, start_tag, end_tag, character, characters, content, read_page, tokens, after, Mode,
}
use go_personal_web.View.Reader.Meaning.{arrive, IsClosed, IsEscaping, meaning, read_page-print}
use go_personal_web.View.Reader.Closing.{IsClosed-of, is_closed, meaning-append}

-- The element has the attribute.
unfoldable pub has : Bytes → Pairs → Bool
unfolding find_pair
has k a = not (is_absent (find_pair k a))

-- The `href` of a link.
unfoldable pub link : Bytes → Pairs → List Bytes
unfolding get
link tag a = if tag =ᵇ codes "a" then get (codes "href") a ∷ [] else []

-- The `hx-get` of a button that loads more rows.
unfoldable pub button_load : Bytes → Pairs → List Bytes
unfolding get has
button_load tag a =
    if tag =ᵇ codes "button" && has (codes "hx-get") a then get (codes "hx-get") a ∷ [] else []

-- The `hx-post` of an element that posts by itself, on a trigger of its own.
unfoldable pub poll : Bytes → Pairs → List Bytes
unfolding get has
poll tag a =
    if has (codes "hx-trigger") a && has (codes "hx-post") a
    then get (codes "hx-post") a ∷ []
    else []

module _ {A : Type 0} (pick : Bytes → Pairs → List A) where
  unfoldable pub picks : List Token → List A
  picks [] = []
  picks (start_tag n a ∷ ts) = pick n a ++ picks ts
  picks (end_tag n ∷ ts) = picks ts
  picks (character c ∷ ts) = picks ts

  picks-append : (s u : List Token) → picks (s ++ u) ≡ picks s ++ picks u
  unfolding picks
  picks-append [] u = refl
  picks-append (start_tag n a ∷ ts) u =
      ap (λ x. pick n a ++ x) (picks-append ts u)
      ∙ sym (append_assoc (pick n a) (picks ts) (picks u))
  picks-append (end_tag n ∷ ts) u = picks-append ts u
  picks-append (character c ∷ ts) u = picks-append ts u

  picks-characters : (s : Bytes) → picks (characters s) ≡ []
  unfolding picks characters
  picks-characters [] = refl
  picks-characters (c ∷ s) = picks-characters s

  -- What is picked from the literals of a markup: its texts hold no tag.
  picked_from : Mode → Markup → List A
  unfolding picks arrive
  picked_from mode [] = []
  picked_from mode (raw s ∷ m) = picks (tokens mode s) ++ picked_from (after mode s) m
  picked_from mode (w ∷ m) = picked_from (arrive mode w) m

  picks-meaning : (mode : Mode) (m : Markup) → picks (meaning mode m) ≡ picked_from mode m
  unfolding picked_from meaning picks
  picks-meaning mode [] = refl
  picks-meaning mode (raw s ∷ m) =
      picks-append (tokens mode s) _
      ∙ ap (λ x. picks (tokens mode s) ++ x) (picks-meaning (after mode s) m)
  picks-meaning mode (escaped s ∷ m) =
      picks-append (characters s) _ ∙ rw (picks-characters) (picks-meaning mode m)
  picks-meaning mode (context ∷ m) = picks-meaning mode m
  picks-meaning mode (url s ∷ m) = picks-meaning (arrive mode (url s)) m
  picks-meaning mode (attribute s ∷ m) = picks-meaning (arrive mode (attribute s)) m

  unfoldable pub picked : Markup → List A
  unfolding picked_from
  picked m = picked_from content m

  pub picked-meaning : (m : Markup) → picks (meaning content m) ≡ picked m
  unfolding picked
  picked-meaning m = picks-meaning content m

  pub picked-component : (m : Markup) → picked (component m) ≡ picked m
  unfolding picked
  picked-component m = refl

  pub picked-append : (m n : Markup) → IsClosed m → picked (m ++ n) ≡ picked m ++ picked n
  unfolding picked
  picked-append m n c =
      sym (picks-meaning content (m ++ n))
      ∙ ap picks (meaning-append m n c)
      ∙ picks-append (meaning content m) (meaning content n)
      ∙ ap₂ ◌++◌ (picks-meaning content m) (picks-meaning content n)

  pub picked-split :
      (n : ℕ) (m : Markup)
      → is_closed content (take n m) ≡ true
      → picked m ≡ picked (take n m) ++ picked (drop n m)
  picked-split n m h =
      ap picked (sym (take-append-drop n m))
      ∙ picked-append (take n m) (drop n m) (IsClosed-of (take n m) h)

  -- The first writes by computation, then a block whose picks are known, then the rest.
  pub picked-block :
      (n : ℕ) (m block rest : Markup) {found others : List A}
      → is_closed content (take n m) ≡ true
      → IsClosed block
      → drop n m ≡ block ++ rest
      → picked block ≡ found
      → picked rest ≡ others
      → picked m ≡ picked (take n m) ++ (found ++ others)
  picked-block n m block rest h c e b r =
      picked-split n m h
      ∙ ap (λ x. picked (take n m) ++ x) (ap picked e ∙ picked-append block rest c ∙ ap₂ ◌++◌ b r)

  pub picked-if :
      (b : Bool) (m n : Markup) → picked (if b then m else n) ≡ (if b then picked m else picked n)
  picked-if true m n = refl
  picked-if false m n = refl

  pub picks-read_page :
      (t : Templ)
      → IsEscaping t
      → (m : Markup) → IsClosed m
      → picks (read_page (print t m)) ≡ picked m
  unfolding picked
  picks-read_page t e m c = ap picks (read_page-print t e m c) ∙ picks-meaning content m

-- ===== src/View/Reader/Closing.antt =====
-- When a markup is closed: by its parts, and by computation on its literals.
use go_personal_web.Prelude.{
  ℕ, ◌≡◌, refl, sym, ◌∙◌, ap, Bool, true, false, [], ◌∷◌, ◌++◌, append_assoc, ◌&&◌, if◌then◌else◌,
  arith, take, drop, take-append-drop, subst,
}
use go_personal_web.View.Markup.{Write, context, raw, escaped, url, attribute, Markup}
use go_personal_web.View.Reader.{Mode, content, value}
use go_personal_web.View.Reader.Meaning.{
  arrive, arrive_all, says, meaning, InValue, IsPlaced, ArePlaced, IsClosed,
}

pub arrive_all-append :
    (mode : Mode) (m n : Markup) → arrive_all mode (m ++ n) ≡ arrive_all (arrive_all mode m) n
unfolding arrive_all
arrive_all-append mode [] n = refl
arrive_all-append mode (w ∷ m) n = arrive_all-append (arrive mode w) m n

meaning-append_all :
    (mode : Mode) (m n : Markup)
    → meaning mode (m ++ n) ≡ meaning mode m ++ meaning (arrive_all mode m) n
unfolding meaning arrive_all
meaning-append_all mode [] n = refl
meaning-append_all mode (w ∷ m) n =
    ap (λ t. says mode w ++ t) (meaning-append_all (arrive mode w) m n)
    ∙ sym (append_assoc (says mode w) (meaning (arrive mode w) m) _)

ArePlaced-append :
    (mode : Mode) (m n : Markup)
    → ArePlaced mode m
    → ArePlaced (arrive_all mode m) n
    → ArePlaced mode (m ++ n)
unfolding arrive_all
ArePlaced-append mode [] n h k = k
ArePlaced-append mode (w ∷ m) n (p, h) k = (p, ArePlaced-append (arrive mode w) m n h k)

pub meaning-append :
    (m n : Markup) → IsClosed m → meaning content (m ++ n) ≡ meaning content m ++ meaning content n
meaning-append m n c = meaning-append_all content m n ∙ rw (c.ends)

pub IsClosed-append : (m n : Markup) → IsClosed m → IsClosed n → IsClosed (m ++ n)
IsClosed-append m n c d = record {
  placed = ArePlaced-append content m n c.placed (rw (c.ends) d.placed);
  ends = arrive_all-append content m n ∙ rw (c.ends) d.ends;
}

pub IsClosed-nil : IsClosed []
unfolding arrive_all
IsClosed-nil = record { placed = tt; ends = refl }

pub IsClosed-component : (m : Markup) → IsClosed m → IsClosed (context ∷ m)
unfolding arrive_all
IsClosed-component m c = record { placed = (tt, c.placed); ends = c.ends }

pub IsClosed-if :
    (b : Bool) (m n : Markup) → IsClosed m → IsClosed n → IsClosed (if b then m else n)
IsClosed-if true m n c d = c
IsClosed-if false m n c d = d

is_content : Mode → Bool
is_content content = true
is_content mode = false

in_value : Mode → Bool
in_value (value tag a k v) = true
in_value mode = false

fits : Mode → Write → Bool
unfolding is_content in_value
fits mode (escaped s) = is_content mode
fits mode (url s) = in_value mode
fits mode (attribute s) = in_value mode
fits mode w = true

-- Closedness as a computation.
unfoldable pub is_closed : Mode → Markup → Bool
unfolding fits is_content arrive
is_closed mode [] = is_content mode
is_closed mode (w ∷ m) = fits mode w && is_closed (arrive mode w) m

is_content_sound : (mode : Mode) → is_content mode ≡ true → mode ≡ content
unfolding is_content
is_content_sound content h = refl
is_content_sound mode h = absurd (cc)

in_value_sound : (mode : Mode) → in_value mode ≡ true → InValue mode
unfolding in_value
in_value_sound (value tag a k v) h = tt
in_value_sound mode h = absurd (cc)

fits_sound : (mode : Mode) (w : Write) → fits mode w ≡ true → IsPlaced mode w
unfolding fits
fits_sound mode (escaped s) h = is_content_sound mode h
fits_sound mode (url s) h = in_value_sound mode h
fits_sound mode (attribute s) h = in_value_sound mode h
fits_sound mode context h = tt
fits_sound mode (raw s) h = tt

both : (b c : Bool) → (b && c) ≡ true → (b ≡ true) × (c ≡ true)
both b c h = ground arith

is_closed_sound :
    (mode : Mode) (m : Markup)
    → is_closed mode m ≡ true
    → ArePlaced mode m × (arrive_all mode m ≡ content)
unfolding is_closed arrive_all
is_closed_sound mode [] h = (tt, is_content_sound mode h)
is_closed_sound mode (w ∷ m) h =
    let (fit, rest) = both (fits mode w) (is_closed (arrive mode w) m) h in
    let (placed, ends) = is_closed_sound (arrive mode w) m rest in
    ((fits_sound mode w fit, placed), ends)

pub IsClosed-of : (m : Markup) → is_closed content m ≡ true → IsClosed m
IsClosed-of m h =
    let (placed, ends) = is_closed_sound content m h in record { placed = placed; ends = ends }

-- The first writes of a markup are checked by computation, the rest apart.
pub IsClosed-split :
    (n : ℕ) (m : Markup) → is_closed content (take n m) ≡ true → IsClosed (drop n m) → IsClosed m
IsClosed-split n m h c =
    subst IsClosed (take-append-drop n m)
      (IsClosed-append (take n m) (drop n m) (IsClosed-of (take n m) h) c)

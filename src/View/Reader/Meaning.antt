-- ===== src/View/Reader/Meaning.antt =====
-- What a page means: its literals read as tags and its data as text or as the value of an attribute, and
-- never as anything else. A browser reads exactly that.
use go_personal_web.Prelude.{◌≡◌, refl, ◌∙◌, [], ◌∷◌, ◌++◌, List, Bytes}
use go_personal_web.GoStd.Html
use go_personal_web.View.Markup.{
  Write, context, raw, escaped, url, attribute, Markup, Templ, written, print,
}
use go_personal_web.View.Reader.{
  Mode, content, value, broken, Token, after, tokens, characters, read_page,
}
use go_personal_web.View.Reader.Escaping.{
  tokens-append, after-escape_content, tokens-escape_content, after-escape_value,
  tokens-escape_value,
}

-- templ's documentation: texts and attribute values are escaped as `html.EscapeString` does.
pub record IsEscaping (t : Templ) : Type 0 where
  pub in_text : (s : Bytes) → t.escape_string s ≡ Html.escape_string s
  pub in_attribute : (s : Bytes) → t.resolve_attribute_value s ≡ Html.escape_string s

-- A value goes on by a text.
unfoldable pub typed : Mode → Bytes → Mode
typed (value tag a k v) s = value tag a k (v ++ s)
typed mode s = broken

-- The state behind a write, its data left unread.
unfoldable pub arrive : Mode → Write → Mode
unfolding typed
arrive mode context = mode
arrive mode (raw s) = after mode s
arrive mode (escaped s) = mode
arrive mode (url s) = typed mode s
arrive mode (attribute s) = typed mode s

unfoldable pub arrive_all : Mode → Markup → Mode
unfolding arrive
arrive_all mode [] = mode
arrive_all mode (w ∷ m) = arrive_all (arrive mode w) m

unfoldable pub says : Mode → Write → List Token
says mode context = []
says mode (raw s) = tokens mode s
says mode (escaped s) = characters s
says mode (url s) = []
says mode (attribute s) = []

-- The tokens that a markup stands for.
unfoldable pub meaning : Mode → Markup → List Token
unfolding arrive says
meaning mode [] = []
meaning mode (w ∷ m) = says mode w ++ meaning (arrive mode w) m

abbrev pub InValue : Mode → Type 0
InValue (value tag a k v) = Unit
InValue mode = ⊥

-- A text is written in the content, a URL or an attribute in a quoted value.
abbrev pub IsPlaced : Mode → Write → Type 0
IsPlaced mode (escaped s) = mode ≡ content
IsPlaced mode (url s) = InValue mode
IsPlaced mode (attribute s) = InValue mode
IsPlaced mode w = Unit

abbrev pub ArePlaced : Mode → Markup → Type 0
ArePlaced mode [] = Unit
ArePlaced mode (w ∷ m) = IsPlaced mode w × ArePlaced (arrive mode w) m

-- A markup with its data in place that begins and ends in the content.
pub record IsClosed (m : Markup) : Type 0 where
  pub placed : ArePlaced content m
  pub ends : arrive_all content m ≡ content

module _ (t : Templ) (e : IsEscaping t) where
  value_read :
      (mode : Mode) (s : Bytes)
      → InValue mode
      → (after mode (Html.escape_string s) ≡ typed mode s)
        × (tokens mode (Html.escape_string s) ≡ [])
  unfolding typed
  value_read (value tag a k v) s h =
      (after-escape_value tag a k v s, tokens-escape_value tag a k v s)
  value_read mode s h = absurd h

  write_read :
      (mode : Mode) (w : Write)
      → IsPlaced mode w
      → (after mode (written t w) ≡ arrive mode w) × (tokens mode (written t w) ≡ says mode w)
  unfolding written arrive says
  write_read mode context h = (unfold after in refl, unfold tokens in refl)
  write_read mode (raw s) h = (refl, refl)
  write_read mode (escaped s) h =
      rw (e.in_text, h) (after-escape_content s, tokens-escape_content s)
  write_read mode (url s) h = rw (e.in_text) (value_read mode s h)
  write_read mode (attribute s) h = rw (e.in_attribute) (value_read mode s h)

  pub tokens-print :
      (mode : Mode) (m : Markup) → ArePlaced mode m → tokens mode (print t m) ≡ meaning mode m
  unfolding print meaning
  tokens-print mode [] h = unfold tokens in refl
  tokens-print mode (w ∷ m) (h, hs) =
      tokens-append mode (written t w) (print t m)
      ∙ rw ((write_read mode w h).0, (write_read mode w h).1, tokens-print (arrive mode w) m hs)

  -- A browser reads a closed markup as what it means.
  pub read_page-print : (m : Markup) → IsClosed m → read_page (print t m) ≡ meaning content m
  unfolding read_page
  read_page-print m c = tokens-print content m c.placed

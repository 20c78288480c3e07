-- ===== src/View/Reader.antt =====
-- How a browser reads what internal/view prints: the states of the HTML standard's tokenizer that a page
-- of the program comes through, byte by byte. Attribute values stand in double quotes, and of the
-- character references it knows those that `html.EscapeString` writes. What is none of this is `broken`.
pub mod Escaping
pub mod Meaning
pub mod Closing
pub mod Closed
pub mod Screens
pub mod Picking
pub mod Rows
pub mod Controls
pub mod Submission
pub mod Limits
pub mod Areas
pub mod Posting
use go_personal_web.Prelude.{
  ℕ, Bool, true, false, ◌||◌, [], ◌∷◌, ◌++◌, List, Bytes, ◌=ᵇ◌, codes, ◌==◌, leb, ◌&&◌,
  if◌then◌else◌,
}
use go_personal_web.Http.{Pairs}

-- A start tag with its attributes, an end tag, and a byte of text.
pub data Token : Type 0 where
  start_tag : (name : Bytes) → Pairs → Token
  end_tag : (name : Bytes) → Token
  character : ℕ → Token

-- The states, each with what is read of the tag so far: its name, its attributes, the name and the
-- value of the attribute, and the character reference.
pub data Mode : Type 0 where
  content tag_open declaration broken : Mode
  content_reference end_tag_name tag_name : Bytes → Mode
  inside : (tag : Bytes) → Pairs → Mode
  attribute_name before_value : (tag : Bytes) → Pairs → (name : Bytes) → Mode
  value : (tag : Bytes) → Pairs → (name value : Bytes) → Mode
  value_reference : (tag : Bytes) → Pairs → (name value reference : Bytes) → Mode

-- The text of a character reference.
unfoldable pub referenced : Bytes → Bytes
referenced r =
    if r =ᵇ codes "amp"
    then b'&' ∷ []
    else if r =ᵇ codes "#39"
    then b'\'' ∷ []
    else if r =ᵇ codes "lt"
    then b'<' ∷ []
    else if r =ᵇ codes "gt"
    then b'>' ∷ []
    else if r =ᵇ codes "#34"
    then b'"' ∷ []
    else b'&' ∷ (r ++ b';' ∷ [])

is_letter : ℕ → Bool
is_letter c = (leb b'a' c && leb c b'z') || (leb b'A' c && leb c b'Z')

-- The state behind one byte.
unfoldable pub step : Mode → ℕ → Mode
unfolding referenced is_letter
step content c = if c == b'<' then tag_open else if c == b'&' then content_reference [] else content
step (content_reference r) c = if c == b';' then content else content_reference (r ++ c ∷ [])
step tag_open c =
    if c == b'/'
    then end_tag_name []
    else if c == b'!'
    then declaration
    else if is_letter c
    then tag_name (c ∷ [])
    else broken
step declaration c = if c == b'>' then content else declaration
step (end_tag_name n) c = if c == b'>' then content else end_tag_name (n ++ c ∷ [])
step (tag_name n) c =
    if c == b' ' then inside n [] else if c == b'>' then content else tag_name (n ++ c ∷ [])
step (inside n a) c =
    if c == b' ' then inside n a else if c == b'>' then content else attribute_name n a (c ∷ [])
step (attribute_name n a k) c =
    if c == b'='
    then before_value n a k
    else if c == b' '
    then inside n (a ++ (k, []) ∷ [])
    else if c == b'>'
    then content
    else attribute_name n a (k ++ c ∷ [])
step (before_value n a k) c = if c == b'"' then value n a k [] else broken
step (value n a k v) c =
    if c == b'"'
    then inside n (a ++ (k, v) ∷ [])
    else if c == b'&'
    then value_reference n a k v []
    else value n a k (v ++ c ∷ [])
step (value_reference n a k v r) c =
    if c == b';' then value n a k (v ++ referenced r) else value_reference n a k v (r ++ c ∷ [])
step broken c = broken

unfoldable pub characters : Bytes → List Token
characters [] = []
characters (c ∷ s) = character c ∷ characters s

-- What a byte completes.
unfoldable pub emitted : Mode → ℕ → List Token
unfolding referenced characters
emitted content c = if c == b'<' || c == b'&' then [] else character c ∷ []
emitted (content_reference r) c = if c == b';' then characters (referenced r) else []
emitted (end_tag_name n) c = if c == b'>' then end_tag n ∷ [] else []
emitted (tag_name n) c = if c == b'>' then start_tag n [] ∷ [] else []
emitted (inside n a) c = if c == b'>' then start_tag n a ∷ [] else []
emitted (attribute_name n a k) c = if c == b'>' then start_tag n (a ++ (k, []) ∷ []) ∷ [] else []
emitted mode c = []

unfoldable pub after : Mode → Bytes → Mode
unfolding step
after mode [] = mode
after mode (c ∷ s) = after (step mode c) s

-- The tokens of a text that is read from a state on.
unfoldable pub tokens : Mode → Bytes → List Token
unfolding step emitted
tokens mode [] = []
tokens mode (c ∷ s) = emitted mode c ++ tokens (step mode c) s

-- A text is a page's when it is read to the end of the content.
unfoldable pub read_page : Bytes → List Token
unfolding tokens
read_page s = tokens content s

-- ===== src/View/Markup.antt =====
-- internal/view/*_templ.go: a templ function as the sequence of its writes, and what a writer receives
-- of them. The functions themselves are in the children. The runtime of templ is outside the
-- repository: its escaping is a parameter, and its buffer passes each write on.
pub mod Rendering
pub mod Controls
pub mod Lists
pub mod Editing
pub mod Layout
use go_personal_web.Prelude.{ℕ, suc, Option, none, some, List, [], ◌∷◌, ◌++◌, Bytes, codes}
use mathlib.Core.List.{flat_map}
use Prim.Native.String.{String}

-- `context` is the test of `ctx.Err()` at the start of a function, `raw` a literal,
-- `escaped` a text behind `templ.EscapeString`, `url` a `templ.SafeURL` behind it, and
-- `attribute` a text behind `templ.ResolveAttributeValue`.
pub data Write : Type 0 where
  context : Write
  raw escaped url attribute : Bytes → Write

abbrev pub Markup : Type 0
Markup = List Write

-- A long literal in pieces.
unfoldable pub join : List String → Bytes
unfolding codes
join [] = []
join (s ∷ parts) = codes s ++ join parts

-- A templ function: the context is tested before anything is written.
abbrev pub component : Markup → Markup
component m = context ∷ m

-- What the program uses of templ: escaping in texts and in attribute values.
pub record Templ : Type 0 where
  pub escape_string : Bytes → Bytes
  pub resolve_attribute_value : Bytes → Bytes

module _ (t : Templ) where
  -- The bytes of one write.
  unfoldable pub written : Write → Bytes
  written context = []
  written (raw s) = s
  written (escaped s) = t.escape_string s
  written (url s) = t.escape_string s
  written (attribute s) = t.resolve_attribute_value s

  -- The bytes of a component that is written to the end.
  unfoldable pub print : Markup → Bytes
  unfolding written
  print [] = []
  print (w ∷ m) = written w ++ print m

  -- `Render`: `failure i` is the error of the i-th step, where there is one. The first error ends
  -- the rendering and is returned, behind the bytes that are written by then.
  unfoldable pub render_from :
      {E : Type 0} → (failure : ℕ → Option E) → ℕ → Markup → Bytes × Option E
  unfolding written
  render_from failure i [] = ([], none)
  render_from failure i (w ∷ m) =
      let (bytes, error) = render_from failure (suc i) m in
      elim (failure i) [ some e ↦ ([], some e) | none ↦ (written w ++ bytes, error) ]

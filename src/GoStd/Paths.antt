-- ===== src/GoStd/Paths.antt =====
-- `path.Clean` on rooted paths, and the `Location` that `http.Redirect` writes.
pub mod Laws
pub mod Backslash
use go_personal_web.Prelude.{
  ℕ, ◌+◌, ◌-◌, ◌/◌, ◌%◌, ◌≡◌, refl, Bool, true, false, not, ◌&&◌, ◌||◌, List, [], ◌∷◌, ◌++◌, ltb,
  ◌==◌, if◌then◌else◌, Bytes, ◌=ᵇ◌, codes,
}
use go_personal_web.GoStd.Strings.{cut, split}
use go_personal_web.GoStd.Urls.{before_query, parses_reference}

drop_last : List Bytes → List Bytes
drop_last [] = []
drop_last (p ∷ []) = []
drop_last (p ∷ q ∷ ps) = p ∷ drop_last (q ∷ ps)

-- The parts that are kept, after one more: an empty part and "." add nothing, and ".." takes the last
-- one away.
unfoldable pub clean_part : List Bytes → Bytes → List Bytes
unfolding drop_last
clean_part kept part =
    if (part =ᵇ []) || (part =ᵇ codes ".")
    then kept
    else if part =ᵇ codes ".."
    then drop_last kept
    else kept ++ part ∷ []

unfoldable pub clean_parts : List Bytes → List Bytes → List Bytes
clean_parts kept [] = kept
clean_parts kept (p ∷ ps) = clean_parts (clean_part kept p) ps

-- The parts, each behind a slash, or a slash where there is none.
unfoldable pub joined : List Bytes → Bytes
joined [] = []
joined (p ∷ ps) = b'/' ∷ p ++ joined ps

unfoldable pub rooted : List Bytes → Bytes
unfolding joined
rooted [] = b'/' ∷ []
rooted (p ∷ ps) = joined (p ∷ ps)

-- `path.Clean(s)` of a rooted path.
unfoldable pub clean : Bytes → Bytes
unfolding rooted clean_parts clean_part
clean s = rooted (clean_parts [] (split b'/' s))

-- `strings.HasSuffix` of one byte.
unfoldable pub ends_in : ℕ → Bytes → Bool
ends_in c [] = false
ends_in c (d ∷ []) = d == c
ends_in c (d ∷ e ∷ s) = ends_in c (e ∷ s)

-- The text from its first question mark on.
unfoldable pub from_query : Bytes → Bytes
from_query [] = []
from_query (c ∷ s) = if c == b'?' then c ∷ s else from_query s

lower_hex : ℕ → ℕ
lower_hex d = if ltb d 10 then b'0' + d else b'a' + (d - 10)

-- `hexEscapeNonASCII`
unfoldable pub hex_escape : Bytes → Bytes
unfolding lower_hex
hex_escape [] = []
hex_escape (c ∷ s) =
    let rest = hex_escape s in
    if ltb c 0x80 then c ∷ rest else b'%' ∷ lower_hex (c / 16) ∷ lower_hex (c % 16) ∷ rest

-- The path of a reference cleaned, with a slash at its end kept.
unfoldable pub clean_path : Bytes → Bytes
unfolding clean ends_in
clean_path path =
    if ends_in b'/' path && not (ends_in b'/' (clean path))
    then clean path ++ b'/' ∷ []
    else clean path

-- The `Location` that `http.Redirect` writes for a text that begins with one slash, as every text does that
-- the program gives it: where the text parses, its path is cleaned.
unfoldable pub redirect_target : Bytes → Bytes
unfolding hex_escape clean_path from_query
redirect_target to =
    hex_escape (if parses_reference to then clean_path (before_query to) ++ from_query to else to)

cleaned :
    (redirect_target (codes "/admin/a/../b/?x=/../y") ≡ codes "/admin/b/?x=/../y")
    × (redirect_target (codes "/admin/../..//x") ≡ codes "/x")
    × (redirect_target (codes "/admin/..?q#%") ≡ codes "/admin/..?q#%")
    × (redirect_target (b'/' ∷ 0xc3 ∷ 0xa9 ∷ []) ≡ codes "/%c3%a9")
unfolding redirect_target codes parses_reference before_query ◌=ᵇ◌ split cut
cleaned = (refl, refl, refl, refl)

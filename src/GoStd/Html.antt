-- ===== src/GoStd/Html.antt =====
-- `html.EscapeString`.
use go_personal_web.Prelude.{ℕ, [], ◌∷◌, ◌++◌, Bytes, codes, ◌==◌, if◌then◌else◌}

unfoldable pub escape_byte : ℕ → Bytes
escape_byte c =
    if c == b'&'
    then codes "&amp;"
    else if c == b'\''
    then codes "&#39;"
    else if c == b'<'
    then codes "&lt;"
    else if c == b'>'
    then codes "&gt;"
    else if c == b'"'
    then codes "&#34;"
    else c ∷ []

-- `html.EscapeString(s)`
unfoldable pub escape_string : Bytes → Bytes
unfolding escape_byte
escape_string [] = []
escape_string (c ∷ s) = escape_byte c ++ escape_string s

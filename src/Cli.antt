-- ===== src/Cli.antt =====
-- internal/cli/version.go and admin.go: the text of a version, and a password from a pipe.
pub mod Commands
use go_personal_web.Prelude.{
  ℕ, Bool, true, false, not, ◌&&◌, ◌||◌, Option, none, some, List, [], ◌∷◌, ◌++◌, Bytes, ◌=ᵇ◌,
  codes, ltb, ◌==◌, length, take, if◌then◌else◌,
}

pub record BuildInfo : Type 0 where
  pub version : Bytes
  pub commit : Bytes
  pub date : Bytes
  pub dirty : Bool

abbrev with_setting : BuildInfo → Bytes × Bytes → BuildInfo
with_setting b (key, value) =
    if key =ᵇ codes "vcs.revision"
    then record b { commit = value }
    else if key =ᵇ codes "vcs.time"
    then record b { date = value }
    else if key =ᵇ codes "vcs.modified"
    then record b { dirty = value =ᵇ codes "true" }
    else b

abbrev with_settings : BuildInfo → List (Bytes × Bytes) → BuildInfo
with_settings b [] = b
with_settings b (s ∷ settings) = with_settings (with_setting b s) settings

-- `NewBuildInfo`; `settings` are those of `debug.ReadBuildInfo`, `none` where there are none.
unfoldable pub new_build_info : Bytes → Option (List (Bytes × Bytes)) → BuildInfo
new_build_info version settings =
    let b : BuildInfo = record {
      version = if version =ᵇ [] then codes "dev" else version;
      commit = [];
      date = [];
      dirty = false;
    } in
    elim settings [ none ↦ b | some list ↦ with_settings b list ]

-- `strings.Join(parts, ", ")`
abbrev join : List Bytes → Bytes
join [] = []
join (p ∷ []) = p
join (p ∷ q ∷ parts) = p ++ (codes ", " ++ join (q ∷ parts))

abbrev part : Bool → Bytes → List Bytes
part true text = text ∷ []
part false text = []

-- `BuildInfo.String`
unfoldable pub build_info_string : BuildInfo → Bytes
build_info_string b =
    let commit = if ltb 7 (length b.commit) then take 7 b.commit else b.commit in
    let parts =
      part (not (b.commit =ᵇ [])) commit
      ++ (part b.dirty (codes "dirty") ++ part (not (b.date =ᵇ [])) b.date) in
    let s = codes "personal-web " ++ b.version in
    elim parts [ [] ↦ s | p ∷ ps ↦ s ++ (codes " (" ++ (join (p ∷ ps) ++ codes ")")) ]

abbrev is_line_end : ℕ → Bool
is_line_end c = c == b'\r' || c == b'\n'

-- `strings.TrimRight(line, "\r\n")`
unfoldable pub trim_line_end : Bytes → Bytes
trim_line_end [] = []
trim_line_end (c ∷ s) =
    let rest = trim_line_end s in if (rest =ᵇ []) && is_line_end c then [] else c ∷ rest

-- What stands up to the first newline, that included, as `ReadString('\n')` reads it.
unfoldable pub first_line : Bytes → Bytes
first_line [] = []
first_line (c ∷ s) = let rest = first_line s in if c == b'\n' then c ∷ [] else c ∷ rest

-- `readPassword` on a pipe that holds `input`; `none` is the error of an empty pipe.
unfoldable pub read_password : Bytes → Option Bytes
unfolding trim_line_end first_line
read_password [] = none
read_password (c ∷ input) = some (trim_line_end (first_line (c ∷ input)))

-- The password that `hash-password` hashes: an empty one is refused.
unfoldable pub given_password : Bytes → Option Bytes
unfolding read_password
given_password input = elim (read_password input) [
  | none ↦ none
  | some password ↦ if password =ᵇ [] then none else some password
]

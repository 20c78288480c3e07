-- ===== src/Http.antt =====
-- Requests and responses of `net/http`, as far as the handlers read and write them.
use go_personal_web.Prelude.{
  ℕ, Bool, Option, none, some, List, [], ◌∷◌, Bytes, ◌=ᵇ◌, ℤ, if◌then◌else◌,
}
use go_personal_web.GoStd.Paths.{redirect_target}

abbrev pub Pairs : Type 0
Pairs = List (Bytes × Bytes)

-- The first value under a name.
unfoldable pub find_pair : Bytes → Pairs → Option Bytes
find_pair k [] = none
find_pair k ((j, v) ∷ m) = if j =ᵇ k then some v else find_pair k m

-- `url.Values.Get`: the first value or the empty text.
unfoldable pub get : Bytes → Pairs → Bytes
unfolding find_pair
get k m = elim (find_pair k m) [ none ↦ [] | some v ↦ v ]

-- `path` and `request_uri` are those of the URL, `query` its decoded pairs, `form` the decoded POST
-- body (`none` where `ParseForm` fails), `path_id` the `{id}` of the matched pattern.
pub record Request : Type 0 where
  pub method : Bytes
  pub path : Bytes
  pub request_uri : Bytes
  pub query : Pairs
  pub headers : Pairs
  pub cookies : Pairs
  pub form : Option Pairs
  pub path_id : Bytes
  pub remote_addr : Bytes

-- `r.PostFormValue(name)`
unfoldable pub form_value : Request → Bytes → Bytes
unfolding get
form_value r name = elim r.form [ none ↦ [] | some m ↦ get name m ]

pub record Cookie : Type 0 where
  pub name : Bytes
  pub value : Bytes
  pub path : Bytes
  pub same_site_strict : Bool
  pub http_only : Bool
  pub secure : Bool
  pub max_age : ℤ

-- What a handler writes. `redirect` is the `Location` that `http.Redirect` sets.
pub record Response {ℓ} (Body : Type ℓ) : Type ℓ where
  pub status : ℕ
  pub headers : Pairs
  pub cookies : List Cookie
  pub redirect : Option Bytes
  pub body : Option Body

module _ {ℓ} {Body : Type ℓ} where
  -- `w.WriteHeader(code)` with no body.
  unfoldable pub empty_response : ℕ → Response Body
  empty_response code = record {
    status = code;
    headers = [];
    cookies = [];
    redirect = none;
    body = none;
  }

  -- `http.Redirect(w, r, to, http.StatusSeeOther)` of a text that begins with one slash. The short page that
  -- it writes for a GET is left out.
  unfoldable pub see_other : Bytes → Response Body
  unfolding empty_response
  see_other to = record (empty_response 303) { redirect = some (redirect_target to) }

  -- `w.Header().Set(name, value)` on a header that is not set yet.
  unfoldable pub with_header : Bytes → Bytes → Response Body → Response Body
  with_header name value w = record w { headers = (name, value) ∷ w.headers }

  -- `http.SetCookie(w, c)`
  unfoldable pub with_cookie : Cookie → Response Body → Response Body
  with_cookie c w = record w { cookies = c ∷ w.cookies }

pub data LogLevel : Type 0 where
  debug info warn error : LogLevel

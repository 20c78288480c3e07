-- ===== src/Tests/Data.antt =====
-- Concrete functions for what lies outside the repository, and sample requests.
use go_personal_web.Prelude.{
  ℕ, zero, suc, ◌+◌, ◌*◌, false, Option, [], ◌∷◌, ◌++◌, Bytes, codes, pos, take,
}
use go_personal_web.GoStd.Time.{Time}
use go_personal_web.Http.{Pairs, Request}
use go_personal_web.Admin.Session.{Sessions}
use go_personal_web.Admin.Limiter.{Limiter}

abbrev pub mac : Bytes → Bytes → Bytes
mac key text = key ++ take 1 text

abbrev pad : ℕ → Bytes → Bytes
pad zero s = []
pad (suc n) [] = 0 ∷ pad n []
pad (suc n) (c ∷ s) = c ∷ pad n s

abbrev pub derive : (password salt : Bytes) (time memory threads key_len : ℕ) → Bytes
derive password salt time memory threads key_len = pad key_len (password ++ salt)

-- The first second of a day in 2023, and what is some seconds later.
abbrev pub at : ℕ → Time
at n = pos (1_700_000_000_000_000_000 + 1_000_000_000 * n)

abbrev pub sessions : Sessions
sessions = record { key = 107 ∷ []; ttl = pos 3_600_000_000_000; insecure = false }

abbrev pub logins : ℕ → Limiter
logins n = record { limit = pos n; window = pos 900_000_000_000; windows = [] }

abbrev pub request : (method path : Bytes) → (cookies : Pairs) → Option Pairs → Request
request method path cookies form = record {
  method = method;
  path = path;
  request_uri = path;
  query = [];
  headers = [];
  cookies = cookies;
  form = form;
  path_id = [];
  remote_addr = codes "192.0.2.1:4711";
}

-- ===== src/Tests/Config.antt =====
-- A configuration that is accepted, and what it mounts.
use go_personal_web.Prelude.{
  ◌≡◌, ◌↔◌, inl, inr, refl, true, false, Option, none, some, List, [], ◌∷◌, Bytes, codes, pos, ◌=ᵇ◌,
}
use go_personal_web.Http.{Request}
use go_personal_web.GoStd.Strings.{has_prefix}
use go_personal_web.Config.{
  Url, Config, Timeout, read, write, shutdown, is_set, validate, validate_dsn, validate_admin,
  check_timeouts, log_levels,
}
use go_personal_web.Config.Dsn.{IsDsn, IsLevel}
use go_personal_web.Config.Validity.{Visits, IsBounded, IsTimed, IsAdmin, validate_iff}
use go_personal_web.Config.Sources.{defaults}
use go_personal_web.Config.Rendering.{marshal_yaml, with_secrets, marshal_yaml_hides}
use go_personal_web.Admin.Assets.{page_not_found}
use go_personal_web.Server.{Outside, respond}
use go_personal_web.Server.Fresh.{fresh_clone}
use go_personal_web.Tests.Data.{mac, derive, logins, request, at}
use go_personal_web.Tests.Store.{one_post, stored}
use go_personal_web.Tests.Writing.{zone, editor}

-- A parser that reads the whole text as a password.
abbrev pub parse : Bytes → Option Url
parse d = some (record {
  scheme = codes "postgres";
  user = some (codes "pw", some d);
  host = codes "db";
  rest = [];
})

abbrev pub print : Url → Bytes
print u = u.host

abbrev pub config : Config
config = record {
  server = record {
    port = pos 8080;
    read_timeout = pos 5;
    write_timeout = pos 10;
    shutdown_timeout = pos 10;
  };
  database = record {
    url = codes "postgres://db";
    pool = pos 5;
    idle_pool = pos 2;
    conn_max_lifetime = pos 30;
  };
  admin = record {
    password_hash = codes "hash";
    session_secret = codes "secret";
    session_ttl = pos 7;
    insecure_cookie = false;
    timezone = codes "UTC";
    login_attempts = pos 10;
    login_window = pos 15;
  };
  log_level = codes "info";
}

abbrev pub order : List Timeout
order = write ∷ read ∷ shutdown ∷ []

pub visits : (t : Timeout) → Visits t order
visits read = inr (inl refl)
visits write = inl refl
visits shutdown = inr (inr (inl refl))

abbrev pub outside : Outside
outside = record {
  hmac = mac;
  id_key = derive;
  from_string = editor.from_string;
  print_id = editor.print_id;
  load_location = λ name. some zone;
  utc = zone;
}

validate_iff_example : (validate parse outside.load_location order config ≡ none) ↔ (
    IsBounded config
    × IsTimed config.server
    × IsDsn parse config.database.url
    × IsAdmin outside.load_location config.admin
    × IsLevel config.log_level)
validate_iff_example = validate_iff parse outside.load_location order config visits

abbrev pub visitor : Request
visitor = request (codes "GET") (codes "/admin/posts") [] none

abbrev bare : Config
bare = record config { admin = record config.admin { password_hash = []; session_secret = [] } }

bare_valid : validate parse outside.load_location order bare ≡ none
unfolding validate check_timeouts validate_dsn validate_admin log_levels is_set ◌=ᵇ◌ codes
bare_valid = refl

-- A parser that takes every text for the address of a host.
abbrev host_only : Bytes → Option Url
host_only d = some (record { scheme = codes "postgres"; user = none; host = codes "db"; rest = [] })

fresh_clone_example :
    (validate host_only outside.load_location order defaults ≡ none)
    × (respond outside one_post defaults true (λ i t. t) at visitor (logins 3) (stored none)
        ≡ record { logins = logins 3; state = stored none; reply = page_not_found; effects = [] })
unfolding codes
fresh_clone_example =
    fresh_clone host_only outside.load_location order visits
      (record { scheme = codes "postgres"; user = none; host = codes "db"; rest = [] }) refl refl
      (λ e. cc) (λ e. cc) outside one_post true (λ i t. t) at visitor (logins 3) (stored none) refl
      (unfold has_prefix codes in refl)

-- The parser takes the whole text for the password.
marshal_yaml_hides_example :
    marshal_yaml parse print
      (λ d. [])
      (with_secrets parse print (λ d. []) config (codes "b") (codes "c") (codes "d"))
    ≡ marshal_yaml parse print (λ d. []) config
unfolding codes
marshal_yaml_hides_example =
    marshal_yaml_hides parse print (λ d. []) config (codes "b") (codes "c") (codes "d") (codes "pw")
      config.database.url (codes "b")
      (record { scheme = codes "postgres"; user = none; host = codes "db"; rest = [] }) (λ e. cc)
      (λ e. cc) refl refl (λ e. cc) (λ e. cc) (λ e. cc) (λ e. cc)

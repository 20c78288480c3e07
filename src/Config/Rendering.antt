-- ===== src/Config/Rendering.antt =====
-- `MarshalYAML` of internal/config/config.go: what `config show` prints of a configuration.
use go_personal_web.Prelude.{◌≡◌, ◌≢◌, refl, Bool, Option, some, List, [], ◌∷◌, Bytes, codes, ℤ}
use go_personal_web.GoStd.Time.{Duration}
use go_personal_web.Config.{Url, Config, dsn_string, secret_string}
use go_personal_web.Config.Redaction.{with_password, rendering_hides}

-- The values of a map, by their keys; the printer of YAML sorts them itself.
pub data Yaml : Type 0 where
  text : Bytes → Yaml
  number : ℤ → Yaml
  flag : Bool → Yaml

-- `parse` and `print` are `url.Parse` and `URL.String`, `print_duration` is `time.Duration.String`.
module _ (parse : Bytes → Option Url) (print : Url → Bytes)
    (print_duration : Duration → Bytes) where
  -- The maps of "server", "database" and "admin", behind the level.
  unfoldable pub marshal_yaml : Config → Yaml × List (Bytes × List (Bytes × Yaml))
  marshal_yaml c = (
    text c.log_level,
    (
      codes "server",
      (codes "port", number c.server.port)
          ∷ (codes "read_timeout", text (print_duration c.server.read_timeout))
          ∷ (codes "write_timeout", text (print_duration c.server.write_timeout))
          ∷ (codes "shutdown_timeout", text (print_duration c.server.shutdown_timeout))
          ∷ [],
    )
        ∷ (
          codes "database",
          (codes "url", text (dsn_string parse print c.database.url))
              ∷ (codes "pool", number c.database.pool)
              ∷ (codes "idle_pool", number c.database.idle_pool)
              ∷ (codes "conn_max_lifetime", text (print_duration c.database.conn_max_lifetime))
              ∷ [],
        )
        ∷ (
          codes "admin",
          (codes "password_hash", text (secret_string c.admin.password_hash))
              ∷ (codes "session_secret", text (secret_string c.admin.session_secret))
              ∷ (codes "session_ttl", text (print_duration c.admin.session_ttl))
              ∷ (codes "insecure_cookie", flag c.admin.insecure_cookie)
              ∷ (codes "timezone", text c.admin.timezone)
              ∷ (codes "login_attempts", number c.admin.login_attempts)
              ∷ (codes "login_window", text (print_duration c.admin.login_window))
              ∷ [],
        )
        ∷ [],
  )

  -- The same configuration with another connection string and other secrets.
  abbrev pub with_secrets : Config → (url hash secret : Bytes) → Config
  with_secrets c url hash secret = record c {
    database = record c.database { url = url };
    admin = record c.admin { password_hash = hash; session_secret = secret };
  }

  -- What `config show` prints does not depend on the password in the user part of the connection string's URL,
  -- on the password hash or on the session secret: a configuration and the same with others of the three, all of
  -- them set in both, are rendered the same. It says nothing of a password in the rest of the URL, which is
  -- printed.
  pub marshal_yaml_hides :
      (c : Config) (url hash secret name password password' : Bytes) (u : Url)
      → c.database.url ≢ []
      → url ≢ []
      → parse c.database.url ≡ some (with_password u name password)
      → parse url ≡ some (with_password u name password')
      → c.admin.password_hash ≢ []
      → hash ≢ []
      → c.admin.session_secret ≢ []
      → secret ≢ []
      → marshal_yaml (with_secrets c url hash secret) ≡ marshal_yaml c
  unfolding marshal_yaml
  marshal_yaml_hides c url hash secret name password password' u set set' p p' has_hash has_hash'
        has_secret has_secret' =
      let (dsn, hashes) =
        rendering_hides parse print c.database.url url name password password' u
          c.admin.password_hash hash set set' p p' has_hash has_hash' in
      let (_, secrets) =
        rendering_hides parse print c.database.url url name password password' u
          c.admin.session_secret secret set set' p p' has_secret has_secret' in
      rw (dsn, hashes, secrets) refl

-- ===== src/Config/Validity.antt =====
-- internal/config/config.go: what a configuration that `Validate` accepts is like.
use go_personal_web.Prelude.{
  ◌≡◌, ◌≢◌, ◌↔◌, ◌⊎◌, inl, inr, refl, subst, sym, Bool, true, false, ◌||◌, Option, none, some, List,
  [], ◌∷◌, Bytes, ℤ, pos, ltb_ℤ, leb_ℤ, ◌≤ℤ◌, ◌<ℤ◌, is_absent, arith, Bool-cases,
}
use go_personal_web.View.{Zone}
use go_personal_web.Config.Dsn.{IsDsn, IsLevel, validate_dsn-none, log_levels-known}
use go_personal_web.Config.{
  Url, ServerConfig, AdminConfig, Config, Timeout, read, write, shutdown, Invalid, bad_port,
  bad_pool, negative_idle_pool, idle_above_pool, bad_lifetime, bad_log_level, is_set, log_levels,
  validate_dsn, timeout_of, check_timeouts, validate_admin, validate, ◌or_else◌, when, dsn_invalid,
}

-- The rules on the numbers of a configuration.
abbrev pub IsBounded : Config → Type 0
IsBounded c =
    (pos 1 ≤ℤ c.server.port)
    × (c.server.port ≤ℤ pos 65535)
    × (pos 1 ≤ℤ c.database.pool)
    × (pos 0 ≤ℤ c.database.idle_pool)
    × (c.database.idle_pool ≤ℤ c.database.pool)
    × (pos 0 <ℤ c.database.conn_max_lifetime)

abbrev pub IsTimed : ServerConfig → Type 0
IsTimed s = (pos 0 <ℤ s.read_timeout) × (pos 0 <ℤ s.write_timeout) × (pos 0 <ℤ s.shutdown_timeout)

-- The rules on the Admin settings: the secrets are both there or both absent.
abbrev pub IsAdmin : (Bytes → Option Zone) → AdminConfig → Type 0
IsAdmin load_location a =
    (pos 0 <ℤ a.session_ttl)
    × (load_location a.timezone ≢ none)
    × (pos 1 ≤ℤ a.login_attempts)
    × (pos 0 <ℤ a.login_window)
    × (is_set a.password_hash ≡ is_set a.session_secret)

-- A range over the map of timeouts visits each key.
abbrev pub Visits : Timeout → List Timeout → Type 0
Visits t [] = ⊥
Visits t (u ∷ order) = (t ≡ u) ⊎ Visits t order

or_else-none : (a b : Option Invalid) → ((a or_else b) ≡ none) ↔ ((a ≡ none) × (b ≡ none))
or_else-none none b = (λ h. (refl, h), λ h. h.1)
or_else-none (some e) b = (λ h. absurd cc, λ h. h.0)

when-none : (b : Bool) (e : Invalid) → (when b e ≡ none) ↔ (b ≡ false)
when-none true e = (λ h. absurd cc, λ h. absurd cc)
when-none false e = (λ h. refl, λ h. refl)

dsn_none : (d : _) → (dsn_invalid d ≡ none) ↔ (d ≡ none)
dsn_none none = (λ h. refl, λ h. refl)
dsn_none (some e) = (λ h. absurd cc, λ h. absurd cc)

positive : (z : ℤ) → leb_ℤ z (pos 0) ≡ false → pos 0 <ℤ z
positive z h = ground arith

timeout_checked :
    (s : ServerConfig) (order : List Timeout) (t : Timeout)
    → check_timeouts s order ≡ none
    → Visits t order
    → pos 0 <ℤ timeout_of s t
unfolding check_timeouts
timeout_checked s [] t h v = elim v [ ]
timeout_checked s (u ∷ order) t h v = elim (Bool-cases (leb_ℤ (timeout_of s u) (pos 0))) [
  | inl bad ↦ absurd (let h' = rw (check_timeouts, bad) at h in cc)
  | inr good ↦ elim v [
    | inl same ↦ subst (λ k. pos 0 <ℤ timeout_of s k) (sym same) (positive (timeout_of s u) good)
    | inr later ↦ timeout_checked s order t (rw (check_timeouts, good) at h) later
  ]
]

all_positive : (s : ServerConfig) (order : List Timeout) → IsTimed s → check_timeouts s order ≡ none
unfolding check_timeouts
all_positive s [] h = refl
all_positive s (read ∷ order) h = ground (arith, all_positive s order h)
all_positive s (write ∷ order) h = ground (arith, all_positive s order h)
all_positive s (shutdown ∷ order) h = ground (arith, all_positive s order h)

validate_admin-none :
    (load_location : Bytes → Option Zone) (a : AdminConfig)
    → (validate_admin load_location a ≡ none) ↔ IsAdmin load_location a
unfolding validate_admin
validate_admin-none load_location a = ground arith

nine :
    (a b c d e f g h i : Option Invalid)
    → ((a or_else b or_else c or_else d or_else e or_else f or_else g or_else h or_else i) ≡ none)
      ↔ ((a ≡ none)
          × (b ≡ none)
          × (c ≡ none)
          × (d ≡ none)
          × (e ≡ none)
          × (f ≡ none)
          × (g ≡ none)
          × (h ≡ none)
          × (i ≡ none))
nine a b c d e f g h i =
    let hi = or_else-none h i in
    let gi = or_else-none g (h or_else i) in
    let fi = or_else-none f (g or_else h or_else i) in
    let ei = or_else-none e (f or_else g or_else h or_else i) in
    let di = or_else-none d (e or_else f or_else g or_else h or_else i) in
    let ci = or_else-none c (d or_else e or_else f or_else g or_else h or_else i) in
    let bi = or_else-none b (c or_else d or_else e or_else f or_else g or_else h or_else i) in
    let ai =
      or_else-none a (b or_else c or_else d or_else e or_else f or_else g or_else h or_else i) in
    ground arith

bounds_checked :
    (c : Config)
    → ((when (ltb_ℤ c.server.port (pos 1) || ltb_ℤ (pos 65535) c.server.port) bad_port ≡ none)
        × (when (ltb_ℤ c.database.pool (pos 1)) bad_pool ≡ none)
        × (when (ltb_ℤ c.database.idle_pool (pos 0)) negative_idle_pool ≡ none)
        × (when (ltb_ℤ c.database.pool c.database.idle_pool) idle_above_pool ≡ none)
        × (when (leb_ℤ c.database.conn_max_lifetime (pos 0)) bad_lifetime ≡ none))
      ↔ IsBounded c
bounds_checked c = ground arith

known_iff : {A : Type 0} (o : Option A) (e : Invalid) → (when (is_absent o) e ≡ none) ↔ (o ≢ none)
known_iff none e = (λ h. absurd cc, λ h. absurd (h refl))
known_iff (some a) e = (λ h k. cc, λ h. refl)

-- `Validate` accepts exactly the configurations that keep every rule, in whatever order the map of
-- timeouts is visited: a port of 1 to 65535, positive timeouts and lifetimes, pool sizes in their bounds,
-- a connection string that parses to a `postgres` or `postgresql` URL with a host, Admin settings with a known
-- zone and both secrets or neither, and one of the four log levels.
pub validate_iff :
    (parse : Bytes → Option Url) (load_location : Bytes → Option Zone) (order : List Timeout)
    (c : Config)
    → ((t : Timeout) → Visits t order)
    → (validate parse load_location order c ≡ none) ↔ (
        IsBounded c
        × IsTimed c.server
        × IsDsn parse c.database.url
        × IsAdmin load_location c.admin
        × IsLevel c.log_level)
unfolding validate
validate_iff parse load_location order c visits =
    let parts =
      nine (when (ltb_ℤ c.server.port (pos 1) || ltb_ℤ (pos 65535) c.server.port) bad_port)
        (check_timeouts c.server order) (dsn_invalid (validate_dsn parse c.database.url))
        (when (ltb_ℤ c.database.pool (pos 1)) bad_pool)
        (when (ltb_ℤ c.database.idle_pool (pos 0)) negative_idle_pool)
        (when (ltb_ℤ c.database.pool c.database.idle_pool) idle_above_pool)
        (when (leb_ℤ c.database.conn_max_lifetime (pos 0)) bad_lifetime)
        (validate_admin load_location c.admin)
        (when (is_absent (log_levels c.log_level)) bad_log_level) in
    (
      λ h.
          let (port, timeouts, dsn, pool, idle, above, lifetime, admin, level) = parts.0 h in
          (
            (bounds_checked c).0 (port, pool, idle, above, lifetime),
            (
              timeout_checked c.server order read timeouts (visits read),
              timeout_checked c.server order write timeouts (visits write),
              timeout_checked c.server order shutdown timeouts (visits shutdown),
            ),
            (validate_dsn-none parse c.database.url).0 ((dsn_none _).0 dsn),
            (validate_admin-none load_location c.admin).0 admin,
            (log_levels-known c.log_level).0
                ((known_iff (log_levels c.log_level) bad_log_level).0 level),
          ),
      λ (bounds, timed, dsn, admin, level).
          let (port, pool, idle, above, lifetime) = (bounds_checked c).1 bounds in
          parts.1 (
            port,
            all_positive c.server order timed,
            (dsn_none _).1 ((validate_dsn-none parse c.database.url).1 dsn),
            pool,
            idle,
            above,
            lifetime,
            (validate_admin-none load_location c.admin).1 admin,
            (known_iff (log_levels c.log_level) bad_log_level).1
                ((log_levels-known c.log_level).1 level),
          ),
    )

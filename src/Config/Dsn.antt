-- ===== src/Config/Dsn.antt =====
-- internal/config/dsn.go and the log levels of config.go: which connection strings and levels are accepted.
use go_personal_web.Prelude.{
  ◌≡◌, ◌≢◌, ◌↔◌, ◌⊎◌, inl, inr, refl, subst, sym, true, false, ◌||◌, Option, none, some, [], Bytes,
  arith, Bool-cases, Option-cases, ◌=ᵇ◌, =ᵇ_iff, codes, not, if◌then◌else◌,
}
use go_personal_web.Config.{Url, dsn_scheme, dsn_host, log_levels, validate_dsn}

-- The connection string parses to a URL with one of PostgreSQL's two schemes and a host.
abbrev pub IsDsn : (Bytes → Option Url) → Bytes → Type 0
IsDsn parse d =
    (d ≢ [])
    × ((u : Url) × (parse d ≡ some u)
        × ((u.scheme ≡ codes "postgres") ⊎ (u.scheme ≡ codes "postgresql"))
        × (u.host ≢ []))

abbrev pub IsLevel : Bytes → Type 0
IsLevel name =
    (name ≡ codes "debug") ⊎ (name ≡ codes "info") ⊎ (name ≡ codes "warn") ⊎ (name ≡ codes "error")

some-inj : (u v : Url) → some u ≡ some v → u ≡ v
some-inj u v h = cc

empty_or_filled : (s : Bytes) → ((s ≡ []) × ((s =ᵇ []) ≡ true)) ⊎ ((s ≢ []) × ((s =ᵇ []) ≡ false))
empty_or_filled s = elim (Bool-cases (s =ᵇ [])) [
  | inl e ↦ inl ((=ᵇ_iff s []).0 e, e)
  | inr e ↦ inr ((λ h. absurd (let e' = (=ᵇ_iff s []).1 h in cc)), e)
]

url_checked :
    (u : Url)
    → ((if not ((u.scheme =ᵇ codes "postgres") || (u.scheme =ᵇ codes "postgresql"))
          then some dsn_scheme
          else if u.host =ᵇ []
          then some dsn_host
          else none)
        ≡ none)
      ↔ (((u.scheme ≡ codes "postgres") ⊎ (u.scheme ≡ codes "postgresql")) × (u.host ≢ []))
url_checked u = ground (
  arith,
  =ᵇ_iff u.scheme (codes "postgres"),
  =ᵇ_iff u.scheme (codes "postgresql"),
  empty_or_filled u.host,
)

pub validate_dsn-none :
    (parse : Bytes → Option Url) (d : Bytes) → (validate_dsn parse d ≡ none) ↔ IsDsn parse d
unfolding validate_dsn
validate_dsn-none parse d = elim (empty_or_filled d) [
  | inl (empty, is) ↦ rw (is) ((λ h. absurd (cc)), λ (filled, _). absurd (filled empty))
  | inr (filled, is) ↦ elim (Option-cases (parse d)) [
    | inl fails ↦ rw (is, fails) ((λ h. absurd (cc)), λ (_, (u, parsed, _, _)). absurd (cc))
    | inr (u, parsed) ↦
        rw (is, parsed)
          (
            (λ h. let (scheme, host) = (url_checked u).0 h in (filled, (u, refl, scheme, host))),
            λ (_, (v, same, scheme, host)). (url_checked u).1 (
                subst
                  (λ (w : Url).
                    ((w.scheme ≡ codes "postgres") ⊎ (w.scheme ≡ codes "postgresql"))
                    × (w.host ≢ []))
                  (some-inj v u (sym same)) (scheme, host)),
          )
  ]
]

pub log_levels-known : (name : Bytes) → (log_levels name ≢ none) ↔ IsLevel name
unfolding log_levels
log_levels-known name = ground (
  arith,
  =ᵇ_iff name (codes "debug"),
  =ᵇ_iff name (codes "info"),
  =ᵇ_iff name (codes "warn"),
  =ᵇ_iff name (codes "error"),
)

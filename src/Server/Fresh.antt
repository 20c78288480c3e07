-- ===== src/Server/Fresh.antt =====
-- internal/config/load.go and internal/server/server.go: a program that nothing is configured for.
use go_personal_web.Prelude.{
  ◌≡◌, ◌≢◌, refl, sym, subst, Bool, true, Option, none, some, List, [], Bytes, ◌=ᵇ◌, codes, arith,
  ℕ, inl, inr,
}
use go_personal_web.GoStd.Time.{Time}
use go_personal_web.GoStd.Strings.{has_prefix}
use go_personal_web.View.{Zone}
use go_personal_web.Http.{Request}
use go_personal_web.Config.{Url, Timeout, is_set, validate}
use go_personal_web.Config.Validity.{Visits, validate_iff}
use go_personal_web.Config.Sources.{defaults, dev_database_url}
use go_personal_web.Admin.Limiter.{Limiter}
use go_personal_web.Admin.Store.{Store}
use go_personal_web.Admin.Assets.{page_not_found}
use go_personal_web.Server.{Outside, respond, admin_absent}

module _ (parse : Bytes → Option Url) (load_location : Bytes → Option Zone) (order : List Timeout)
    (visits : (t : Timeout) → Visits t order) (u : Url) (read : parse dev_database_url ≡ some u)
    (scheme : u.scheme ≡ codes "postgres") (host : u.host ≢ [])
    (utc_known : load_location (codes "UTC") ≢ none) where
  defaults_valid : validate parse load_location order defaults ≡ none
  unfolding is_set ◌=ᵇ◌
  defaults_valid = (validate_iff parse load_location order defaults visits).1 (
    omega arith,
    omega arith,
    ((unfold codes in λ e. cc), (u, read, inl scheme, host)),
    (omega arith, utc_known, omega arith, omega arith, refl),
    inr (inl refl),
  )

  -- The defaults are accepted by `Validate`, and a program that runs with them answers every request
  -- under "/admin/" with 404 and touches nothing: where the default connection string parses with its
  -- scheme and a host, the zone "UTC" is known, and the map of timeouts is ranged over in full.
  pub fresh_clone :
      (o : Outside) (store : Store) (answers : Bool) (others : ℕ → store.State → store.State)
      (clock : ℕ → Time) (r : Request) (l : Limiter) (st : store.State)
      → o.load_location ≡ load_location
      → has_prefix r.path (codes "/admin/") ≡ true
      → (validate parse load_location order defaults ≡ none)
        × (respond o store defaults answers others clock r l st
            ≡ record { logins = l; state = st; reply = page_not_found; effects = [] })
  fresh_clone o store answers others clock r l st same under = (
    defaults_valid,
    admin_absent o parse order defaults store answers others clock r l st visits
        (subst (λ ll. validate parse ll order defaults ≡ none) (sym same) defaults_valid) under
        (unfold is_set ◌=ᵇ◌ in refl),
  )

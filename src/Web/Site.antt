-- ===== src/Web/Site.antt =====
-- cmd/piping/main.go: the web server as `run` puts it together, over the store of internal/postgres.
use piping.Prelude.{ℤ, String, Bool, Option, none, some, List}
use piping.Error.{Error, Result, ok, err}
use piping.Seal.{Codec, Sealer}
use piping.Session.{Session, new_manager}
use piping.Oidc.{Client}
use piping.Store.World.{World, query}
use piping.Store.Quotas.{remaining_quota, granted_quota}
use piping.Store.Listings.{enabled_queues, jobs_with_destination_for_user}
use piping.App.Postgres.{Config, submitter}
use piping.App.Provision.Grants.{provisioner}
use piping.Web.{Server, DashboardStore, Outside, new_server}

-- `*postgres.Store` as the pages use it; `before` is the collation of the database.
unfoldable pub dashboard : (String → String → Bool) → DashboardStore World
dashboard before = record {
  remaining_quota = remaining_quota;
  granted_quota = granted_quota;
  enabled_queues = enabled_queues before;
  jobs_with_destination_for_user = jobs_with_destination_for_user;
}

abbrev pub error_of : Result (Unit {0}) × World → Option Error × World
error_of (ok _, w) = (none, w)
error_of (err e, w) = (some e, w)

-- `pool.Ping`
unfoldable pub ping : World → Option Error × World
ping w = error_of (query none (λ d. ok tt) w)

-- What is left of the configuration beside that of the submissions.
pub record SiteConfig : Type 0 where
  pub config : Config
  pub default_quota : ℤ
  pub color_rate : ℤ
  pub session_ttl : ℤ
  pub origin : String
  pub build : String

unfoldable pub site :
    SiteConfig
    → (String → String → Bool)
    → Codec Session
    → Sealer
    → Client
    → (List ℤ → List ℤ)
    → Outside
    → Server World
unfolding new_server new_manager submitter provisioner dashboard ping
site c before json sealer client in_order outside =
    new_server (submitter c.config) (provisioner c.default_quota in_order) (dashboard before) client
      (new_manager json sealer c.session_ttl) (some ping) c.config.max_bytes c.config.max_copies
      c.color_rate c.origin c.build outside

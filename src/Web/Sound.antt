-- ===== src/Web/Sound.antt =====
-- Soundness of the database under every request to the site.
use piping.Prelude.{ℤ, String, Bool, Option, none, some, List, ◌≡◌, subst}
use piping.Error.{Result, ok, err}
use piping.Seal.{Codec, Sealer}
use piping.Session.{Session}
use piping.Oidc.{Client}
use piping.Store.World.{World, query}
use piping.Store.Jobs.Safe.{Sound, query-Sound}
use piping.Store.Quotas.{remaining_quota, granted_quota}
use piping.Store.Listings.{enabled_queues, jobs_with_destination_for_user}
use piping.App.Sound.{submit-Sound}
use piping.App.Provision.Grants.{provision-Sound}
use piping.Web.{Request, Moment, Outside, new_server}
use piping.Web.Routes.{routes}
use piping.Web.Keeps.{IsKept, routes-Ends}
use piping.Web.Site.{SiteConfig, site, dashboard, ping, error_of}

error_of-Sound : (p : Result (Unit {0}) × World) → Sound p.1 → Sound (error_of p).1
error_of-Sound (ok _, w) h = h
error_of-Sound (err e, w) h = h

ping-Sound : (w : World) → Sound w → Sound (ping w).1
unfolding ping
ping-Sound w h = error_of-Sound (query none _ w) (query-Sound none _ w h)

some_inj : {A : Type 0} {a b : A} → ◌≡◌ {A = Option A} (some a) (some b) → a ≡ b
some_inj h = cc

module _ (c : SiteConfig) (before : String → String → Bool) (json : Codec Session) (sealer : Sealer)
    (client : Client) (in_order : List ℤ → List ℤ) (outside : Outside) where
  site-IsKept : IsKept (site c before json sealer client in_order outside) Sound
  unfolding site new_server dashboard remaining_quota granted_quota enabled_queues
      jobs_with_destination_for_user
  site-IsKept = record {
    submits = submit-Sound c.config;
    provisions = provision-Sound c.default_quota in_order;
    remains = λ u w h. query-Sound none _ w h;
    grants = λ u w h. query-Sound none _ w h;
    lists = λ w h. query-Sound none _ w h;
    shows = λ u t n w h. query-Sound none _ w h;
    pings = λ f e w h. subst (λ g. Sound (g w).1) (some_inj e) (ping-Sound w h);
  }

  -- No request to the site, whatever it carries and whoever sends it, leaves a database behind that is not
  -- sound if it found a sound one, under every schedule of failures and of other processes.
  pub routes-Sound :
      (m : Moment) (r : Request) (w : World)
      → Sound w
      → Sound (routes (site c before json sealer client in_order outside) m r w).1
  routes-Sound m r w h =
      (routes-Ends (site c before json sealer client in_order outside) Sound site-IsKept m r w
        h).still

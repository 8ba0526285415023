-- ===== src/Settings/Start.antt =====
-- cmd/piping/main.go: how `run` makes the web server of its settings. The sweeper that it starts beside the
-- server is in App/Sweep.
pub mod Ready
use piping.Prelude.{ℕ, ℤ, pos, String, Bool, true, Option, none, some, List, []}
use piping.Error.{Error, Result, ok, err, other, ◌>>=◌, ◌>>◌}
use piping.Seal.{Aead, Codec, Sealer, new_sealer, seals}
use piping.Session.{Session}
use piping.Oidc.{State, Client, ClientConfig, Http, Json, new, new_from_discovery}
use piping.Store.World.{World}
use piping.App.Postgres.{Config}
use piping.Web.{Server, Outside}
use piping.Web.Site.{SiteConfig, site}
use piping.Settings.{Env, Settings, Provider, load, env_required, env_str}

-- What `run` meets outside: whether the database answers, whether Ghostscript can be used and what it counts at
-- a threshold, AES-GCM of a key, encoding/json, the scheme and host of a URL as `scheme://host`, the
-- collation of the database, the order of a map, a text of code points as a string.
pub record Machine (F : Type 0) : Type 0 where
  pub connect : Result (Unit {0})
  pub verify_device : Result (Unit {0})
  pub gs : F → List ℕ → Result (ℤ × ℤ)
  pub gcm : List ℕ → Result Aead
  pub state_json : Codec State
  pub session_json : Codec Session
  pub origin_of : List ℕ → Result String
  pub before : String → String → Bool
  pub in_order : List ℤ → List ℤ
  pub string : List ℕ → String
  pub outside : Outside

module _ {F : Type 0} (env : Env F) (m : Machine F) where
  abbrev pub client_config : Provider → Sealer → ClientConfig
  client_config p sealer = record {
    redirect_uri = p.redirect_uri;
    client_id = p.client_id;
    client_secret = p.client_secret;
    scopes = p.scopes;
    sealer = some (seals m.state_json sealer);
    log = true;
  }

  -- The endpoints of the environment, where those that the provider publishes cannot be had.
  abbrev pub or_given : ClientConfig → Result Client → Result Client
  or_given cfg (ok c) = ok c
  or_given cfg (err e) = do
    auth ← env_required env "OIDC_AUTHORIZATION_ENDPOINT"
    token ← env_required env "OIDC_TOKEN_ENDPOINT"
    user ← env_required env "OIDC_USER_INFO_ENDPOINT"
    new cfg auth token user

  unfoldable pub make_client : Provider → Sealer → Result Client
  unfolding new new_from_discovery env_required
  make_client p sealer =
      or_given (client_config p sealer)
        (new_from_discovery m.outside.http m.outside.json (client_config p sealer) p.discovery_url)

  abbrev pub site_config : Settings F → String → SiteConfig
  site_config s origin = record {
    config = record {
      gs = m.gs s.color_threshold;
      rates = record { color_rate = s.limits.color_rate };
      max_bytes = s.limits.max_bytes;
      max_pages = s.limits.max_pages;
      max_copies = s.limits.max_copies;
      max_send_attempts = s.limits.max_send_attempts;
    };
    default_quota = s.default_quota;
    color_rate = s.limits.color_rate;
    session_ttl = s.session_ttl;
    origin = origin;
    build = m.string (env_str env "PIPING_BUILD" []);
  }

  unfoldable pub start : F → Result (Server World)
  unfolding load new_sealer make_client site env_str
  start default_threshold = do
    s ← load env default_threshold
    m.connect
    m.verify_device
    sealer ← new_sealer m.gcm s.provider.seal_key
    client ← make_client s.provider sealer
    origin ← m.origin_of s.provider.redirect_uri
    ok (site (site_config s origin) m.before m.session_json sealer client m.in_order m.outside)

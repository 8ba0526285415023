-- ===== src/Examples/Starts.antt =====
-- Theorems on the start of the program, on its pages as a whole, and on the counting of pages.
use piping.Prelude.{
  ℕ, ◌-◌, ◌*◌, ◌^◌, ◌≤◌, pos, ltb, str_eq, any, String, Bool, true, false, some, List, [], ◌∷◌,
  if◌then◌else◌, ◌≡◌, refl, arith,
}
use piping.Decimal.{codes}
use piping.Error.{ok}
use piping.Store.World.{World}
use piping.Store.Jobs.Safe.{Sound}
use piping.Web.Routes.{routes}
use piping.Web.{Server}
use piping.Web.Site.{SiteConfig, site}
use piping.Web.Sound.{routes-Sound}
use piping.Seal.{seals}
use piping.Settings.{Env, Settings, seconds}
use piping.Settings.Start.{Machine, start}
use piping.Settings.Start.Ready.{IsReady, start-IsReady}
use piping.Ghostscript.{Floats, is_color, parse_inkcov}
use piping.Ghostscript.Lines.{Decimal as Number, Gap, Line, IsLine}
use piping.Ghostscript.Counts.{render, parse_inkcov-render}
use piping.Examples.Samples.{scene, config, department-IsSound}
use piping.Examples.Cipher.{cipher, sealer, session_json, state_json}
use piping.Examples.Kiosk.{client, outside, moment, post_job}

abbrev before : String → String → Bool
before a b = false

abbrev site_of : SiteConfig
site_of = record {
  config = config;
  default_quota = pos 250;
  color_rate = pos 3;
  session_ttl = seconds 3600;
  origin = "https://print";
  build = "1";
}

routes-Sound_example :
    Sound
      (routes
        (site site_of before session_json sealer client (λ cs. cs) outside)
        moment
        post_job
        scene).1
routes-Sound_example =
    routes-Sound site_of before session_json sealer client (λ cs. cs) outside moment post_job scene
      department-IsSound

-- What is required is set to "x", the rest is left out.
abbrev required : List String
required =
    "DB_USER" ∷ "DB_PASSWORD" ∷ "DB_HOST" ∷ "DB_NAME" ∷ "SMB_AUTH_FILE" ∷ "OIDC_CLIENT_ID"
    ∷ "OIDC_CLIENT_SECRET" ∷ "OIDC_REDIRECT_URI" ∷ "OIDC_SCOPES" ∷ "OIDC_DISCOVERY_URL"
    ∷ "ENCRYPTION_KEY" ∷ []

abbrev long_key : List ℕ
long_key = codes "0123456789abcdef0123456789abcdef"

abbrev env : Env ℕ
env = record {
  getenv = λ k. if any (str_eq k) required then codes "x" else [];
  parse_float = λ s. ok 5;
  parse_duration = λ s. ok (seconds 1);
  decode_key = λ s. ok long_key;
}

abbrev settings : Settings ℕ
settings = record {
  listen_addr = codes ":8080";
  database = record {
    db_user = codes "x";
    db_password = codes "x";
    db_host = codes "x";
    db_name = codes "x";
    smb_auth_file = codes "x";
  };
  limits = record {
    send_timeout = seconds 5;
    sweep_every = seconds 60;
    sweep_age = seconds 60;
    sweep_batch = pos 100;
    max_bytes = pos (50 * 2 ^ 20);
    max_pages = pos 100;
    max_copies = pos 50;
    max_send_attempts = pos 5;
    color_rate = pos 3;
  };
  color_threshold = 5;
  default_quota = pos 250;
  provider = record {
    client_id = codes "x";
    client_secret = codes "x";
    redirect_uri = codes "x";
    scopes = codes "x";
    discovery_url = codes "x";
    seal_key = long_key;
  };
  session_ttl = seconds 3600;
}

abbrev machine : Machine ℕ
machine = record {
  connect = ok tt;
  verify_device = ok tt;
  gs = λ t doc. ok (pos 1, pos 0);
  gcm = λ k. ok cipher;
  state_json = state_json;
  session_json = session_json;
  origin_of = λ u. ok "https://print";
  before = before;
  in_order = λ cs. cs;
  string = λ s. "";
  outside = outside;
}

abbrev site_started : SiteConfig
site_started = record {
  config = record {
    gs = λ doc. ok (pos 1, pos 0);
    rates = record { color_rate = pos 3 };
    max_bytes = pos (50 * 2 ^ 20);
    max_pages = pos 100;
    max_copies = pos 50;
    max_send_attempts = pos 5;
  };
  default_quota = pos 250;
  color_rate = pos 3;
  session_ttl = seconds 3600;
  origin = "https://print";
  build = "";
}

abbrev server : Server World
unfolding seals
server =
    site site_started before session_json sealer
      (record {
        cfg = record {
          redirect_uri = codes "x";
          client_id = codes "x";
          client_secret = codes "x";
          scopes = codes "x";
          sealer = some (seals state_json sealer);
          log = true;
        };
        auth_endpoint = codes "https://id/auth";
        token_endpoint = codes "https://id/token";
        user_info_endpoint = codes "https://id/user";
      })
      (λ cs. cs) outside

started : start env machine 5 ≡ ok server
unfolding start seals
started = refl

start-IsReady_example : IsReady env machine 5 server
start-IsReady_example = start-IsReady env machine 5 started

-- A number with one digit before and one after the point.
abbrev short : ℕ → ℕ → Number
short a b = record { first = a; whole = []; tenth = b; places = [] }

abbrev gap : Gap
gap = record { first = 32; more = 32 ∷ [] }

-- "0.1  0.c  0.1  0.0 CMYK OK"
abbrev line_of : ℕ → Line
line_of c = record {
  before = 32 ∷ [];
  cyan = short b'0' b'1';
  magenta = short b'0' c;
  yellow = short b'0' b'1';
  black = short b'0' b'0';
  gap1 = gap;
  gap2 = gap;
  gap3 = gap;
  gap4 = gap;
}

line_of-IsLine : (c : ℕ) → 48 ≤ c → c ≤ 57 → IsLine (line_of c)
line_of-IsLine c h k = record {
  before = (refl, tt);
  cyan = record { whole = (refl, tt); places = (refl, tt) };
  magenta = record { whole = (refl, tt); places = (ground arith, tt) };
  yellow = record { whole = (refl, tt); places = (refl, tt) };
  black = record { whole = (refl, tt); places = (refl, tt) };
  gap1 = (refl, (refl, tt));
  gap2 = (refl, (refl, tt));
  gap3 = (refl, (refl, tt));
  gap4 = (refl, (refl, tt));
}

-- Numbers in tenths.
last : List ℕ → ℕ
last [] = 0
last (c ∷ []) = c - 48
last (c ∷ d ∷ s) = last (d ∷ s)

abbrev tenths : Floats ℕ
unfolding last
tenths = record {
  parse = λ s. ok (last s);
  max = λ a b. if ltb a b then b else a;
  min = λ a b. if ltb a b then a else b;
  sub = ◌-◌;
  less = ltb;
}

abbrev two_pages : List Line
two_pages = line_of b'9' ∷ line_of b'1' ∷ []

abbrev has_magenta : Line → Bool
has_magenta l = ltb b'1' l.magenta.tenth

parse_inkcov-render_example : parse_inkcov tenths 3 (render two_pages (10 ∷ [])) ≡ ok (2, 1)
unfolding is_color last
parse_inkcov-render_example =
    parse_inkcov-render tenths 3 has_magenta two_pages (10 ∷ [])
      (
        line_of-IsLine b'9' (omega arith) (omega arith),
        (line_of-IsLine b'1' (omega arith) (omega arith), tt),
      )
      (refl, (refl, tt)) (refl, tt)

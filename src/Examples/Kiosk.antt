-- ===== src/Examples/Kiosk.antt =====
-- A web server over a store that counts the jobs it was given, and requests to it.
use piping.Prelude.{ℕ, ◌+◌, ◌*◌, pos, true, none, some, List, [], ◌∷◌, ◌++◌, str_eq}
use piping.Decimal.{codes}
use piping.Error.{ok}
use piping.Job.{quota_deducted}
use piping.Queue.{Queue, uniform_policy}
use piping.User.{role_staff}
use piping.Base64.{encode}
use piping.Seal.{seals}
use piping.Session.{session_label, new_manager, Manager, Session}
use piping.Oidc.{Client, UserInfo, Http, Json, AuthUrl}
use piping.App.Deliver.{delivery_succeeded}
use piping.App.Submit.{Submitter}
use piping.App.Provision.{Provisioner}
use piping.Web.{Server, Form, Request, Moment, Outside, DashboardStore}
use piping.Examples.Cipher.{cipher, sealer, session_json, state_json, key, one_value}

abbrev pub nonce : List ℕ
nonce = 10 ∷ 11 ∷ []

-- The cookie of Alice's session, and the state of her sign-in.
abbrev pub session_cookie : List ℕ
unfolding encode
session_cookie = encode (nonce ++ cipher.seal nonce (7 ∷ []) session_label)

abbrev main_queue : Queue
main_queue = record { id = 7; name = "main"; enabled = true; policy = uniform_policy }

abbrev desk : Submitter ℕ
desk = record {
  count_pages = λ doc n. (ok (pos 3, pos 1), n);
  get_queue = λ q n. (ok main_queue, n);
  check_quota_and_store = λ j n. ((record j { id = n; state = quota_deducted }, none), n + 1);
  deliver = λ j doc n. ((delivery_succeeded, none), n);
  rates = record { color_rate = pos 3 };
  max_bytes = pos 1000;
  max_pages = pos 100;
  max_copies = pos 10;
}

abbrev register : Provisioner ℕ
register = record {
  store = record {
    ensure_semester = λ c q n. (ok q, n);
    ensure_grant = λ u c q n. (ok tt, n);
    ensure_user = λ u n. (ok tt, n);
  };
  default_quota = pos 250;
  in_order = λ cs. cs;
}

abbrev board : DashboardStore ℕ
board = record {
  remaining_quota = λ u n. (ok (pos 90), n);
  granted_quota = λ u n. (ok (pos 100), n);
  enabled_queues = λ n. (ok (main_queue ∷ []), n);
  jobs_with_destination_for_user = λ u t l n. (ok [], n);
}

abbrev pub client : Client
unfolding seals
client = record {
  cfg = record {
    redirect_uri = codes "https://print/auth/callback";
    client_id = codes "print";
    client_secret = codes "secret";
    scopes = codes "openid";
    sealer = some (seals state_json sealer);
    log = true;
  };
  auth_endpoint = codes "https://id/auth";
  token_endpoint = codes "https://id/token";
  user_info_endpoint = codes "https://id/user";
}

abbrev pub alice_info : UserInfo
alice_info = record {
  username = "alice";
  full_name = "Alice";
  email = "alice@campus";
  faculty = [];
  groups = codes "Org-Users" ∷ [];
  courses =
      record { course_code = []; section = []; course_name = []; semester = codes "Fall 2026" }
      ∷ record { course_code = []; section = []; course_name = []; semester = codes "soon" }
      ∷ record { course_code = []; section = []; course_name = []; semester = codes "Fall 2026" }
      ∷ [];
}

abbrev pub http : Http
http = record { parses = λ u. true; answer = λ r. ok (record { status = 200; body = [] }) }

abbrev pub json : Json
json = record {
  discovery = λ b. ok (record {
    auth_endpoint = codes "https://id/auth";
    token_endpoint = codes "https://id/token";
    user_info_endpoint = codes "https://id/user";
  });
  token = λ b. ok (record { access_token = codes "t"; scope = [] });
  user_info = λ b. ok alice_info;
}

-- "%PDF-1"
abbrev form : Form
form = record {
  values = ("queue_id", codes "7") ∷ ("copies", codes "2") ∷ ("color", codes "on") ∷ [];
  document = some (ok (37 ∷ 80 ∷ 68 ∷ 70 ∷ 45 ∷ 49 ∷ []), "notes.pdf");
}

abbrev pub outside : Outside
outside = record {
  http = http;
  json = json;
  sha = λ s. s;
  first_rdn = λ dn. some dn;
  order = λ cs. cs;
  parse_form = λ r. ok form;
  file_status = λ r. 200;
  executes = λ b v. true;
}

abbrev pub manager : Manager
unfolding new_manager
manager = new_manager session_json sealer (pos (3600 * 1000000000))

abbrev pub kiosk : Server ℕ
kiosk = record {
  submit = desk;
  prov = register;
  dash = board;
  oidc = client;
  session = manager;
  ready = none;
  max_bytes = pos 1000;
  max_copies = pos 10;
  color_rate = pos 3;
  origin = "https://print";
  build = "1";
  pages = "home" ∷ "jobs" ∷ "result" ∷ "admin" ∷ [];
  outside = outside;
}

abbrev pub moment : Moment
moment = record { now = 100 * 1000000000 + 5; year = pos 2026; month = 9; key = key; nonce = nonce }

-- An upload with Alice's cookie.
abbrev pub post_job : Request
post_job = record {
  method = "POST";
  path = codes "/job";
  uri = codes "/job";
  query = [];
  headers = ("Sec-Fetch-Site", "same-origin") ∷ [];
  cookies = ("theme", []) ∷ ("piping_session", session_cookie) ∷ [];
  body = [];
}

-- The list of jobs, with no cookie.
abbrev pub get_jobs : Request
get_jobs = record {
  method = "GET";
  path = codes "/jobs";
  uri = codes "/jobs";
  query = [];
  headers = [];
  cookies = [];
  body = [];
}

-- The URL that a request for the list of jobs is redirected to.
abbrev pub auth_url : AuthUrl
unfolding encode
auth_url = record {
  endpoint = codes "https://id/auth";
  query =
      ("client_id", codes "print")
      ∷ ("code_challenge", encode (encode key))
      ∷ ("code_challenge_method", codes "S256")
      ∷ ("redirect_uri", codes "https://print/auth/callback")
      ∷ ("response_type", codes "code")
      ∷ ("scope", codes "openid")
      ∷ ("state", encode (nonce ++ cipher.seal nonce (7 ∷ []) (codes "oidc_state")))
      ∷ [];
}

abbrev pub come_back : Request
unfolding encode
come_back = record {
  method = "GET";
  path = codes "/auth/callback";
  uri = codes "/auth/callback";
  query =
      ("code", codes "xyz")
      ∷ ("state", encode (nonce ++ cipher.seal nonce (7 ∷ []) (codes "oidc_state")))
      ∷ [];
  headers = [];
  cookies = [];
  body = [];
}

-- The kiosk where a member of the staff is signed in.
abbrev pub staff_session : Session
staff_session = record { sub = "bob"; role = role_staff; exp = pos 3700 }

abbrev pub office : Server ℕ
unfolding new_manager
office = record kiosk {
  session =
      new_manager (one_value staff_session (λ s. str_eq s.sub "bob")) sealer
        (pos (3600 * 1000000000));
}

abbrev pub get_admin : Request
get_admin = record post_job { method = "HEAD"; path = codes "/admin"; uri = codes "/admin" }

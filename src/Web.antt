-- ===== src/Web.antt =====
-- internal/web: what the web server is made of (server.go), what it shows (views.go, the data of
-- templates.go), and the requests and responses of net/http as far as the handlers read and write them.
-- Paths and values are lists of code points.
pub mod Views
pub mod Handlers
pub mod Auth
pub mod Routes
pub mod Gate
pub mod Submits
pub mod Keeps
pub mod Site
pub mod Sound
pub mod Login
pub mod Granted
pub mod Safe
use piping.Prelude.{
  ℕ, ◌*◌, ℤ, pos, ◌-ℤ◌, quot_ℤ, rem_ℤ, ltb_ℤ, leb, String, Bool, Option, none, some, List, [], ◌∷◌,
  ◌++◌, map, str_eq, any, if◌then◌else◌,
}
use piping.Decimal.{codes, itoa}
use piping.Error.{Error, Result, ok, err, other}
use piping.Job.{State, name}
use piping.Queue.{Queue}
use piping.User.{Role, role_staff, role_rank}
use piping.Session.{Session, Manager, Cookie}
use piping.Oidc.{Client, Http, Json, AuthUrl}
use piping.Store.Listings.{WithDestinationName}
use piping.App.Submit.{Submitter}
use piping.App.Provision.{Provisioner}

-- The form of an upload: its values, and `r.FormFile("document")` with what reading the file gives and its
-- name.
pub record Form : Type 0 where
  pub values : List (String × List ℕ)
  pub document : Option (Result (List ℕ) × String)

-- `path` is the path as net/http hands it to a handler: to a path that is not clean it answers with a
-- redirect to the cleaned one, and no handler runs, unless the method is CONNECT. `uri` is
-- `r.URL.RequestURI()`.
pub record Request : Type 0 where
  pub method : String
  pub path : List ℕ
  pub uri : List ℕ
  pub query : List (String × List ℕ)
  pub headers : List (String × String)
  pub cookies : List (String × List ℕ)
  pub body : List ℕ

pub record BaseView : Type 0 where
  pub username : String
  pub is_staff : Bool
  pub build : String

pub record JobView : Type 0 where
  pub submitted_at : ℕ
  pub time_since : List ℕ
  pub document_name : String
  pub pages : ℤ
  pub copies : ℤ
  pub cost : ℤ
  pub state : String
  pub destination : String

pub record QueueView : Type 0 where
  pub id : ℕ
  pub name : String

pub record HomeView : Type 0 where
  pub remaining : ℤ
  pub granted : ℤ
  pub queues : List QueueView
  pub recent : List JobView
  pub max_copies : ℤ
  pub max_size : ℤ
  pub color_rate : ℤ

-- The data of a page; each view has the base beside it.
pub data View : Type 0 where
  home_view : HomeView → View
  jobs_view : List JobView → View
  admin_view : View
  result_view : (title : String) (message : List ℕ) → View

pub data Body : Type 0 where
  text : String → Body
  page : BaseView → View → Body
  static_file : List ℕ → Body

-- What `http.Redirect` is called with.
pub data Location : Type 0 where
  sign_in : AuthUrl → Location
  local_uri : List ℕ → Location

pub record Response : Type 0 where
  pub status : ℕ
  pub body : Body
  pub location : Option Location
  pub cookie : Option Cookie

abbrev pub plain : ℕ → Body → Response
plain status body = record { status = status; body = body; location = none; cookie = none }

-- `http.Error`
abbrev pub http_error : ℕ → String → Response
http_error status message = plain status (text message)

abbrev pub redirect : Location → Option Cookie → Response
redirect to cookie = record { status = 303; body = text ""; location = some to; cookie = cookie }

pub record DashboardStore (S : Type 0) : Type 0 where
  pub remaining_quota : String → S → Result ℤ × S
  pub granted_quota : String → S → Result ℤ × S
  pub enabled_queues : S → Result (List Queue) × S
  pub jobs_with_destination_for_user :
      String → Option ℕ → ℕ → S → Result (List WithDestinationName) × S

-- What the handlers call that is not of this repository: the provider, encoding/json, SHA-256, the names
-- of LDAP, the order of a map, `ParseMultipartForm`, which gives the values of the body, the status that
-- `http.FileServerFS` answers with, and html/template.
pub record Outside : Type 0 where
  pub http : Http
  pub json : Json
  pub sha : List ℕ → List ℕ
  pub first_rdn : List ℕ → Option (List ℕ)
  pub order : List ℤ → List ℤ
  pub parse_form : Request → Result Form
  pub file_status : Request → ℕ
  pub executes : BaseView → View → Bool

-- `ready` may be nil. `pages` are the names of the templates.
pub record Server (S : Type 0) : Type 0 where
  pub submit : Submitter S
  pub prov : Provisioner S
  pub dash : DashboardStore S
  pub oidc : Client
  pub session : Manager
  pub ready : Option (S → Option Error × S)
  pub max_bytes : ℤ
  pub max_copies : ℤ
  pub color_rate : ℤ
  pub origin : String
  pub build : String
  pub pages : List String
  pub outside : Outside

-- What a request reads of the clock, in nanoseconds since 1970 and as a date, and of crypto/rand.
pub record Moment : Type 0 where
  pub now : ℕ
  pub year : ℤ
  pub month : ℕ
  pub key : List ℕ
  pub nonce : List ℕ

abbrev pub page_names : List String
page_names = "home" ∷ "jobs" ∷ "result" ∷ "admin" ∷ []

-- `NewServer`, after the templates were parsed.
unfoldable pub new_server :
    {S : Type 0}
    → Submitter S
    → Provisioner S
    → DashboardStore S
    → Client
    → Manager
    → Option (S → Option Error × S)
    → ℤ
    → ℤ
    → ℤ
    → String
    → String
    → Outside
    → Server S
new_server submit prov dash oidc sess ready max_upload max_copies color_rate origin build outside =
    record {
      submit = submit;
      prov = prov;
      dash = dash;
      oidc = oidc;
      session = sess;
      ready = ready;
      max_bytes = max_upload;
      max_copies = max_copies;
      color_rate = color_rate;
      origin = origin;
      build = build;
      pages = page_names;
      outside = outside;
    }

-- ===== src/Web/Routes.antt =====
-- internal/web/server.go: the routes, and the checks in front of the handlers.
use piping.Prelude.{
  ℕ, pos, ltb, String, Bool, true, false, not, ◌&&◌, ◌||◌, none, some, List, [], ◌∷◌, ◌++◌, str_eq,
  if◌then◌else◌,
}
use piping.Decimal.{codes}
use piping.Semester.{eq_text}
use piping.Url.{cut_at}
use piping.Error.{Result, ok, err}
use piping.User.{Role, role_staff, role_rank}
use piping.Session.{Session, from_request}
use piping.Oidc.{AuthUrl, get_auth_url}
use piping.Web.{
  Request, Response, Server, Moment, text, static_file, sign_in, local_uri, plain, http_error,
  redirect,
}
use piping.Web.Handlers.{header, handle_home, handle_jobs, handle_admin, handle_submit}
use piping.Web.Auth.{handle_auth_callback, handle_ready}

-- A pattern for GET matches HEAD too.
abbrev pub is_get : Request → Bool
is_get r = str_eq r.method "GET" || str_eq r.method "HEAD"

abbrev pub is_post : Request → Bool
is_post r = str_eq r.method "POST"

abbrev pub starts_with : List ℕ → List ℕ → Bool
starts_with [] s = true
starts_with (c ∷ p) [] = false
starts_with (c ∷ p) (d ∷ s) = eq_text (c ∷ []) (d ∷ []) && starts_with p s

abbrev pub at : String → Request → Bool
at p r = eq_text r.path (codes p)

module _ {S : Type 0} (s : Server S) where
  unfoldable pub require_role : Role → Session → (S → Response × S) → S → Response × S
  require_role required sess next w =
      if ltb (role_rank sess.role) (role_rank required)
      then (http_error 403 "you do not have the required permissions", w)
      else next w

  -- An empty `Origin` is one that the request does not have.
  abbrev pub same_origin : Request → Bool
  same_origin r =
      str_eq (header "Sec-Fetch-Site" r.headers) "same-origin"
      && (str_eq (header "Origin" r.headers) "" || str_eq (header "Origin" r.headers) s.origin)

  unfoldable pub check_origin : Request → (S → Response × S) → S → Response × S
  unfolding header
  check_origin r next w =
      if not (str_eq (header "Sec-Fetch-Site" r.headers) "same-origin")
      then (http_error 403 "there was an error with your request", w)
      else if not (str_eq (header "Origin" r.headers) "")
          && not (str_eq (header "Origin" r.headers) s.origin)
      then (http_error 403 "there was an error with your request", w)
      else next w

  -- The routes behind a session. A path that has a pattern for another method only is answered with 405.
  unfoldable pub app_routes : Moment → Request → Session → S → Response × S
  unfolding eq_text require_role check_origin handle_home handle_jobs handle_admin handle_submit
  app_routes m r sess w =
      if at "/" r
      then (if is_get r then handle_home s m sess w else (http_error 405 "Method Not Allowed", w))
      else if at "/job" r
      then (if is_post r
          then check_origin r (handle_submit s r sess) w
          else (http_error 405 "Method Not Allowed", w))
      else if at "/jobs" r
      then (if is_get r then handle_jobs s m sess w else (http_error 405 "Method Not Allowed", w))
      else if at "/admin" r
      then (if is_get r
          then require_role role_staff sess (handle_admin s sess) w
          else (http_error 405 "Method Not Allowed", w))
      else (http_error 404 "404 page not found", w)

  -- The redirect of a request that has no session.
  abbrev pub to_sign_in : Result AuthUrl → S → Response × S
  to_sign_in (err e) w = (http_error 500 "server error while logging in", w)
  to_sign_in (ok url) w = (redirect (sign_in url) none, w)

  abbrev pub with_session :
      Moment → Request → (Session → S → Response × S) → Result Session → S → Response × S
  with_session m r next (ok sess) w = next sess w
  with_session m r next (err e) w =
      to_sign_in (get_auth_url s.oidc s.outside.http.parses s.outside.sha m.key m.nonce r.uri) w

  unfoldable pub require_session :
      Moment → Request → (Session → S → Response × S) → S → Response × S
  require_session m r next w =
      with_session m r next (from_request s.session (pos m.now) r.cookies) w

  -- The files below /static/, or that there is none.
  abbrev pub serve_static : Request → Response
  serve_static r = plain (s.outside.file_status r) (static_file r.path)

  abbrev pub query_text : List ℕ → List ℕ
  query_text [] = []
  query_text (c ∷ q) = b'?' ∷ c ∷ q

  -- From /static net/http redirects to /static/, and keeps the query.
  abbrev pub to_static : Request → Response
  to_static r = record {
    status = 307;
    body = text "";
    location = some (local_uri (codes "/static/" ++ query_text (cut_at b'?' r.uri).1));
    cookie = none;
  }

  unfoldable pub routes : Moment → Request → S → Response × S
  unfolding eq_text cut_at app_routes require_session handle_auth_callback handle_ready
  routes m r w =
      if is_get r && (starts_with (codes "/static/") r.path || at "/static" r)
      then (if at "/static" r then to_static r else serve_static r, w)
      else if is_get r && at "/healthz" r
      then (plain 200 (text "ok\n"), w)
      else if is_get r && at "/readyz" r
      then handle_ready s w
      else if is_get r && at "/auth/callback" r
      then handle_auth_callback s m r w
      else require_session m r (app_routes m r) w

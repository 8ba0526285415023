-- ===== src/Web/Auth.antt =====
-- internal/web/handlers.go: the callback of a sign-in, and the test for readiness.
use piping.Prelude.{
  ℕ, pos, String, Bool, not, ◌||◌, Option, none, some, List, str_eq, any, if◌then◌else◌,
}
use piping.Decimal.{codes}
use piping.Semester.{current}
use piping.Error.{Error, Result, ok, err}
use piping.User.{User}
use piping.Session.{Cookie, issue}
use piping.Oidc.{UserInfo, value_of, get_user_info}
use piping.Oidc.Users.{to_user}
use piping.App.Provision.{provision}
use piping.Url.{Parsed, absolute, hosted, bare, parse, request_uri, starts}
use piping.Web.{Request, Response, Server, Moment, text, local_uri, plain, http_error, redirect}

-- `url.Values.Has`
unfoldable pub has : String → List (String × List ℕ) → Bool
has name query = any (λ v. str_eq v.0 name) query

abbrev pub safe_url : Result Parsed → List ℕ
safe_url (err e) = codes "/"
safe_url (ok absolute) = codes "/"
safe_url (ok hosted) = codes "/"
safe_url (ok (bare path raw_path query force)) =
    if not (starts (codes "/") path) then codes "/" else request_uri path raw_path query force

unfoldable pub safe_path : List ℕ → List ℕ
unfolding parse request_uri starts
safe_path p = safe_url (parse p)

module _ {S : Type 0} (s : Server S) where
  abbrev pub login_error : ℕ → Response
  login_error status = http_error status "server error while logging in"

  abbrev pub with_cookie : List ℕ → Result Cookie → S → Response × S
  with_cookie original_url (err e) w = (login_error 500, w)
  with_cookie original_url (ok c) w = (redirect (local_uri (safe_path original_url)) (some c), w)

  abbrev pub after_provision : Moment → User → List ℕ → Result (Unit {0}) × S → Response × S
  after_provision m u original_url (err e, w) = (login_error 500, w)
  after_provision m u original_url (ok _, w) =
      with_cookie original_url (issue s.session m.nonce (pos m.now) u.username u.role) w

  abbrev pub with_user_info : Moment → Result (UserInfo × List ℕ) → S → Response × S
  with_user_info m (err e) w = (login_error 400, w)
  with_user_info m (ok (info, original_url)) w =
      let u = to_user s.outside.first_rdn s.outside.order info in
      after_provision m u original_url (provision s.prov u (current m.year m.month) w)

  unfoldable pub handle_auth_callback : Moment → Request → S → Response × S
  unfolding has value_of safe_path
  handle_auth_callback m r w =
      if not (has "code" r.query) || not (has "state" r.query)
      then (login_error 400, w)
      else with_user_info m
          (get_user_info s.oidc s.outside.http s.outside.json (value_of "code" r.query)
            (value_of "state" r.query))
          w

  abbrev pub readiness : Option Error × S → Response × S
  readiness (none, w) = (plain 200 (text "ready\n"), w)
  readiness (some e, w) = (http_error 503 "not ready", w)

  unfoldable pub handle_ready : S → Response × S
  handle_ready w = elim s.ready [
    | none ↦ (http_error 503 "not ready", w)
    | some ping ↦ readiness (ping w)
  ]

-- ===== src/Web/Keeps.antt =====
-- What every request keeps that the parts behind the server keep.
use piping.Prelude.{
  ℕ, ℤ, pos, String, Bool, not, ◌&&◌, ◌||◌, Option, none, some, List, ◌≡◌, refl, if_case,
  if◌then◌else◌, str_eq, ltb,
}
use piping.Decimal.{codes}
use piping.Error.{Error, Result, ok, err}
use piping.Semester.{current}
use piping.Session.{Session, Cookie, from_request}
use piping.User.{User, role_staff, role_rank}
use piping.Oidc.{UserInfo, AuthUrl}
use piping.Oidc.Users.{to_user}
use piping.App.Submit.{submit, SubmitInput}
use piping.App.Provision.{provision}
use piping.Web.{Form, Request, Response, Server, Moment, http_error}
use piping.Web.Handlers.{
  header, handle_home, handle_jobs, handle_admin, handle_submit, or_internal, with_copies,
  with_queue, with_document, with_form, read_form,
}
use piping.Web.Auth.{
  handle_auth_callback, handle_ready, has, with_cookie, after_provision, with_user_info, readiness,
}
use piping.Web.Routes.{
  is_get, is_post, at, starts_with, require_role, check_origin, app_routes, to_sign_in,
  with_session, require_session, routes,
}

-- What is left after a request.
pub record Ends {S : Type 0} (P : S → Type 0) (p : Response × S) : Type 0 where
  pub still : P p.1

pub record IsKept {S : Type 0} (s : Server S) (P : S → Type 0) : Type 0 where
  pub submits : (i : SubmitInput) (w : S) → P w → P (submit s.submit i w).1
  pub provisions : (u : User) (now : ℤ) (w : S) → P w → P (provision s.prov u now w).1
  pub remains : (u : String) (w : S) → P w → P (s.dash.remaining_quota u w).1
  pub grants : (u : String) (w : S) → P w → P (s.dash.granted_quota u w).1
  pub lists : (w : S) → P w → P (s.dash.enabled_queues w).1
  pub shows :
      (u : String) (t : Option ℕ) (n : ℕ) (w : S)
      → P w
      → P (s.dash.jobs_with_destination_for_user u t n w).1
  pub pings : (f : S → Option Error × S) → s.ready ≡ some f → (w : S) → P w → P (f w).1

module _ {S : Type 0} (s : Server S) (P : S → Type 0) (k : IsKept s P) where
  same : (a : Response) (w : S) → P w → Ends P (a, w)
  same a w h = record { still = h }

  or_internal-Ends :
      {A : Type 0} (r : Result A × S) (f : A → S → Response × S)
      → P r.1
      → ((a : A) (w : S) → P w → Ends P (f a w))
      → Ends P (or_internal s r f)
  or_internal-Ends (err e, w) f h g = same _ w h
  or_internal-Ends (ok a, w) f h g = g a w h

  handle_home-Ends : (m : Moment) (sess : Session) (w : S) → P w → Ends P (handle_home s m sess w)
  unfolding handle_home
  handle_home-Ends m sess w h =
      or_internal-Ends (s.dash.remaining_quota sess.sub w) _ (k.remains sess.sub w h) λ a w1 h1.
        or_internal-Ends (s.dash.granted_quota sess.sub w1) _ (k.grants sess.sub w1 h1) λ b w2 h2.
          or_internal-Ends (s.dash.enabled_queues w2) _ (k.lists w2 h2) λ c w3 h3.
            or_internal-Ends (s.dash.jobs_with_destination_for_user sess.sub _ 5 w3) _
              (k.shows sess.sub _ 5 w3 h3) λ d w4 h4. same _ w4 h4

  handle_jobs-Ends : (m : Moment) (sess : Session) (w : S) → P w → Ends P (handle_jobs s m sess w)
  unfolding handle_jobs
  handle_jobs-Ends m sess w h =
      or_internal-Ends (s.dash.jobs_with_destination_for_user sess.sub none 50 w) _
        (k.shows sess.sub none 50 w h) λ d w1 h1. same _ w1 h1

  handle_admin-Ends : (sess : Session) (w : S) → P w → Ends P (handle_admin s sess w)
  unfolding handle_admin
  handle_admin-Ends sess w h = same _ w h

  module _ (r : Request) (sess : Session) (w : S) (h : P w) where
    with_copies-Ends :
        (f : Form) (doc : List ℕ) (name : String) (q : ℤ) (c : Result ℤ)
        → Ends P (with_copies s r sess f doc name q c w)
    with_copies-Ends f doc name q (err e) = same _ w h
    with_copies-Ends f doc name q (ok c) = record { still = k.submits _ w h }

    with_queue-Ends :
        (f : Form) (doc : List ℕ) (name : String) (q : Result ℤ)
        → Ends P (with_queue s r sess f doc name q w)
    with_queue-Ends f doc name (err e) = same _ w h
    with_queue-Ends f doc name (ok q) = with_copies-Ends f doc name q _

    with_document-Ends :
        (f : Form) (d : Option (Result (List ℕ) × String)) → Ends P (with_document s r sess f d w)
    with_document-Ends f none = same _ w h
    with_document-Ends f (some (err e, name)) = same _ w h
    with_document-Ends f (some (ok doc, name)) = with_queue-Ends f doc name _

    with_form-Ends : (f : Result Form) → Ends P (with_form s r sess f w)
    with_form-Ends (err e) = same _ w h
    with_form-Ends (ok f) = with_document-Ends f f.document

    handle_submit-Ends : Ends P (handle_submit s r sess w)
    unfolding handle_submit
    handle_submit-Ends = with_form-Ends (read_form s r)

  module _ (m : Moment) where
    with_cookie-Ends :
        (url : List ℕ) (c : Result Cookie) (w : S) → P w → Ends P (with_cookie s url c w)
    with_cookie-Ends url (err e) w h = same _ w h
    with_cookie-Ends url (ok c) w h = same _ w h

    after_provision-Ends :
        (u : User) (url : List ℕ) (r : Result (Unit {0}) × S)
        → P r.1
        → Ends P (after_provision s m u url r)
    after_provision-Ends u url (err e, w) h = same _ w h
    after_provision-Ends u url (ok _, w) h = with_cookie-Ends url _ w h

    with_user_info-Ends :
        (i : Result (UserInfo × List ℕ)) (w : S) → P w → Ends P (with_user_info s m i w)
    with_user_info-Ends (err e) w h = same _ w h
    with_user_info-Ends (ok (i, url)) w h =
        let u = to_user s.outside.first_rdn s.outside.order i in
        after_provision-Ends u url (provision s.prov u (current m.year m.month) w)
          (k.provisions u (current m.year m.month) w h)

    handle_auth_callback-Ends : (r : Request) (w : S) → P w → Ends P (handle_auth_callback s m r w)
    unfolding handle_auth_callback
    handle_auth_callback-Ends r w h =
        if_case (Ends P) (not (has "code" r.query) || not (has "state" r.query)) (λ _. same _ w h)
          (λ _. with_user_info-Ends _ w h)

  readiness-Ends : (p : Option Error × S) → P p.1 → Ends P (readiness s p)
  readiness-Ends (none, w) h = same _ w h
  readiness-Ends (some e, w) h = same _ w h

  handle_ready-Ends : (w : S) → P w → Ends P (handle_ready s w)
  unfolding handle_ready
  handle_ready-Ends w h = go s.ready refl
    where
      go :
          (o : Option (S → Option Error × S))
          → s.ready ≡ o
          → Ends P
              (elim o [ none ↦ (http_error 503 "not ready", w) | some ping ↦ readiness s (ping w) ])
      go none e = same _ w h
      go (some f) e = readiness-Ends (f w) (k.pings f e w h)

  to_sign_in-Ends : (a : Result AuthUrl) (w : S) → P w → Ends P (to_sign_in s a w)
  to_sign_in-Ends (err e) w h = same _ w h
  to_sign_in-Ends (ok u) w h = same _ w h

  check_origin-Ends :
      (r : Request) (next : S → Response × S) (w : S)
      → P w
      → Ends P (next w)
      → Ends P (check_origin s r next w)
  unfolding check_origin
  check_origin-Ends r next w h n =
      if_case (Ends P) (not (str_eq (header "Sec-Fetch-Site" r.headers) "same-origin"))
        (λ _. same _ w h)
        (λ _.
          if_case (Ends P)
            (not (str_eq (header "Origin" r.headers) "")
              && not (str_eq (header "Origin" r.headers) s.origin))
            (λ _. same _ w h) (λ _. n))

  require_role-Ends :
      (sess : Session) (next : S → Response × S) (w : S)
      → P w
      → Ends P (next w)
      → Ends P (require_role s role_staff sess next w)
  unfolding require_role
  require_role-Ends sess next w h n =
      if_case (Ends P) (ltb (role_rank sess.role) (role_rank role_staff)) (λ _. same _ w h) (λ _. n)

  -- A page for GET, or the refusal of another method.
  for_method :
      (b : Bool) (x : Response × S) (w : S)
      → P w
      → Ends P x
      → Ends P (if b then x else (http_error 405 "Method Not Allowed", w))
  for_method b x w h n = if_case (Ends P) b (λ _. n) (λ _. same _ w h)

  app_routes-Ends :
      (m : Moment) (r : Request) (sess : Session) (w : S) → P w → Ends P (app_routes s m r sess w)
  unfolding app_routes
  app_routes-Ends m r sess w h =
      if_case (Ends P) (at "/" r) (λ _. for_method (is_get r) _ w h (handle_home-Ends m sess w h))
        λ _.
          if_case (Ends P) (at "/job" r)
            (λ _.
              for_method (is_post r) _ w h
                (check_origin-Ends r (handle_submit s r sess) w h (handle_submit-Ends r sess w h)))
            λ _.
              if_case (Ends P) (at "/jobs" r)
                (λ _. for_method (is_get r) _ w h (handle_jobs-Ends m sess w h))
                λ _.
                  if_case (Ends P) (at "/admin" r)
                    (λ _. for_method (is_get r) _ w h (
                      require_role-Ends sess (handle_admin s sess) w h
                        (handle_admin-Ends sess w h)))
                    λ _. same _ w h

  with_session-Ends :
      (m : Moment) (r : Request) (a : Result Session) (w : S)
      → P w
      → Ends P (with_session s m r (app_routes s m r) a w)
  with_session-Ends m r (ok sess) w h = app_routes-Ends m r sess w h
  with_session-Ends m r (err e) w h = to_sign_in-Ends _ w h

  -- What a submission, the provisioning of a user, the reads of the pages and the test for readiness keep is
  -- kept by every request, whoever sends it.
  pub routes-Ends : (m : Moment) (r : Request) (w : S) → P w → Ends P (routes s m r w)
  unfolding routes require_session
  routes-Ends m r w h =
      if_case (Ends P) (is_get r && (starts_with (codes "/static/") r.path || at "/static" r))
        (λ _. same _ w h)
        λ _.
          if_case (Ends P) (is_get r && at "/healthz" r) (λ _. same _ w h)
            λ _.
              if_case (Ends P) (is_get r && at "/readyz" r) (λ _. handle_ready-Ends w h)
                λ _.
                  if_case (Ends P) (is_get r && at "/auth/callback" r)
                    (λ _. handle_auth_callback-Ends m r w h)
                    λ _. with_session-Ends m r (from_request s.session (pos m.now) r.cookies) w h

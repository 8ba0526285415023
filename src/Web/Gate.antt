-- ===== src/Web/Gate.antt =====
-- What a request needs to get past the checks in front of the handlers.
use piping.Prelude.{
  ℕ, pos, eq_iff, ltb, ◌≤◌, String, Bool, true, false, ◌&&◌, ◌||◌, none, List, [], ◌∷◌, str_eq,
  if◌then◌else◌, ◌≡◌, refl, ◌∙◌, arith, inl, inr, ◌⊎◌,
}
use piping.Decimal.{codes}
use piping.Semester.{eq_text}
use piping.Error.{Error, Result, ok, err}
use piping.User.{role_staff, role_rank}
use piping.Session.{Session, from_request}
use piping.Oidc.{AuthUrl, get_auth_url}
use piping.Web.{Request, Response, Server, Moment, text, sign_in, plain, http_error, redirect}
use piping.Web.Handlers.{handle_admin}
use piping.Web.Auth.{handle_auth_callback, handle_ready}
use piping.Web.Routes.{
  to_static, serve_static, is_get, at, starts_with, require_role, app_routes, to_sign_in,
  require_session, routes,
}

eq_text→eq : (s t : List ℕ) → eq_text s t ≡ true → s ≡ t
unfolding eq_text
eq_text→eq [] [] h = refl
eq_text→eq [] (d ∷ t) h = cc
eq_text→eq (c ∷ s) [] h = cc
eq_text→eq (c ∷ s) (d ∷ t) h = ground (arith, eq_text→eq s t)

-- The routes that need no session.
abbrev pub is_public : Request → Bool
is_public r =
    is_get r
    && (starts_with (codes "/static/") r.path
        || at "/static" r
        || at "/healthz" r
        || at "/readyz" r
        || at "/auth/callback" r)

abbrev pub Untouched : {S : Type 0} → S → Response × S → Type 0
Untouched w p = p.1 ≡ w

none_of :
    {A : Type 0} (g a b c d e : Bool) (x1 x2 x3 x4 : A) {x5 : A}
    → (g && (a || b || c || d || e)) ≡ false
    → (if g && (a || b)
        then x1
        else if g && c
        then x2
        else if g && d
        then x3
        else if g && e
        then x4
        else x5)
      ≡ x5
none_of g a b c d e x1 x2 x3 x4 h = ground arith

-- A path is at one place only.
pub at_other :
    (x : List ℕ) (p q : String)
    → eq_text x (codes p) ≡ true
    → eq_text (codes p) (codes q) ≡ false
    → eq_text x (codes q) ≡ false
at_other x p q h d = rw (eq_text→eq x (codes p) h) d

pub post-get :
    (method : String)
    → str_eq method "POST" ≡ true
    → (str_eq method "GET" || str_eq method "HEAD") ≡ false
post-get method h = rw ((eq_iff method "POST").0 h) refl

pub starts_other :
    (x : List ℕ) (p q : String)
    → eq_text x (codes p) ≡ true
    → starts_with (codes q) (codes p) ≡ false
    → starts_with (codes q) x ≡ false
starts_other x p q h d = rw (eq_text→eq x (codes p) h) d

admin_private : (r : Request) → at "/admin" r ≡ true → is_public r ≡ false
admin_private r here =
    rw
      (
        starts_other r.path "/admin" "/static/" here (unfold eq_text in refl),
        at_other r.path "/admin" "/static" here (unfold eq_text in refl),
        at_other r.path "/admin" "/healthz" here (unfold eq_text in refl),
        at_other r.path "/admin" "/readyz" here (unfold eq_text in refl),
        at_other r.path "/admin" "/auth/callback" here (unfold eq_text in refl),
      )
      (ground arith)

module _ {S : Type 0} (s : Server S) (m : Moment) (r : Request) where
  pub routes_private :
      (w : S) → is_public r ≡ false → routes s m r w ≡ require_session s m r (app_routes s m r) w
  unfolding routes
  routes_private w h =
      none_of (is_get r) (starts_with (codes "/static/") r.path) (at "/static" r) (at "/healthz" r)
        (at "/readyz" r) (at "/auth/callback" r)
        (if at "/static" r then to_static s r else serve_static s r, w) (plain 200 (text "ok\n"), w)
        (handle_ready s w) (handle_auth_callback s m r w) h

  pub with_session_ok :
      (sess : Session) (w : S)
      → from_request s.session (pos m.now) r.cookies ≡ ok sess
      → require_session s m r (app_routes s m r) w ≡ app_routes s m r sess w
  unfolding require_session
  with_session_ok sess w h = rw h refl

  pub sent_away :
      (e : Error) (w : S)
      → from_request s.session (pos m.now) r.cookies ≡ err e
      → require_session s m r (app_routes s m r) w
        ≡ to_sign_in s
            (get_auth_url s.oidc s.outside.http.parses s.outside.sha m.key m.nonce r.uri)
            w
  unfolding require_session
  sent_away e w h = rw h refl

  abbrev Away : S → Response × S → Type 0
  Away w p =
      (Untouched w p)
      × ((p.0.status ≡ 500)
          ⊎ ((u : AuthUrl) × (get_auth_url s.oidc s.outside.http.parses s.outside.sha m.key m.nonce
                  r.uri
                ≡ ok u)
              × (p.0 ≡ redirect (sign_in u) none)))

  signs_in :
      (w : S) (a : Result AuthUrl)
      → get_auth_url s.oidc s.outside.http.parses s.outside.sha m.key m.nonce r.uri ≡ a
      → Away w (to_sign_in s a w)
  signs_in w (err e) h = (refl, inl refl)
  signs_in w (ok u) h = (refl, inr (u, h, refl))

  -- Without a session every request but those for the public routes leaves everything as it was, and is
  -- answered with a redirect to the provider or with the status 500.
  pub routes_without_session :
      (e : Error) (w : S)
      → from_request s.session (pos m.now) r.cookies ≡ err e
      → is_public r ≡ false
      → (Untouched w (routes s m r w))
        × (((routes s m r w).0.status ≡ 500)
            ⊎ ((u : AuthUrl) × (get_auth_url s.oidc s.outside.http.parses s.outside.sha m.key
                    m.nonce r.uri
                  ≡ ok u)
                × ((routes s m r w).0 ≡ redirect (sign_in u) none)))
  routes_without_session e w none_there private =
      rw (routes_private w private ∙ sent_away e w none_there) (
        signs_in w (get_auth_url s.oidc s.outside.http.parses s.outside.sha m.key m.nonce r.uri)
          refl)

  not_shown : (w : S) (a : Result AuthUrl) → (to_sign_in s a w).0.status ≡ 200 → ⊥
  not_shown w (err e) h = ground arith
  not_shown w (ok u) h = ground arith

  permitted :
      (g t : Bool) (a : Response × S) (w : S)
      → (if g
          then (if t then (http_error 403 "you do not have the required permissions", w) else a)
          else (http_error 405 "Method Not Allowed", w)).0.status
        ≡ 200
      → t ≡ false
  permitted g t a w h = ground arith

  staff_only :
      (sess : Session) (w : S)
      → at "/admin" r ≡ true
      → (app_routes s m r sess w).0.status ≡ 200
      → role_rank role_staff ≤ role_rank sess.role
  unfolding app_routes require_role
  staff_only sess w here shown =
      let fit =
        permitted (is_get r) (ltb (role_rank sess.role) (role_rank role_staff))
          (handle_admin s sess w) w
          (rw
            (
              at_other r.path "/admin" "/" here (unfold eq_text in refl),
              at_other r.path "/admin" "/job" here (unfold eq_text in refl),
              at_other r.path "/admin" "/jobs" here (unfold eq_text in refl),
              here,
            )
            at shown) in
      ground arith

  -- The page of the staff is shown in a session of the staff only.
  pub routes_staff :
      (w : S)
      → at "/admin" r ≡ true
      → (routes s m r w).0.status ≡ 200
      → (sess : Session) × (from_request s.session (pos m.now) r.cookies ≡ ok sess)
        × (role_rank role_staff ≤ role_rank sess.role)
  routes_staff w here shown = split (from_request s.session (pos m.now) r.cookies) refl
    where
      reached : routes s m r w ≡ require_session s m r (app_routes s m r) w
      reached = routes_private w (admin_private r here)

      split :
          (a : Result Session)
          → from_request s.session (pos m.now) r.cookies ≡ a
          → (sess : Session) × (from_request s.session (pos m.now) r.cookies ≡ ok sess)
            × (role_rank role_staff ≤ role_rank sess.role)
      split (ok sess) e =
          (sess, e, staff_only sess w here (rw (reached ∙ with_session_ok sess w e) at shown))
      split (err x) e = absurd (
          not_shown w (get_auth_url s.oidc s.outside.http.parses s.outside.sha m.key m.nonce r.uri)
            (rw (reached ∙ sent_away x w e) at shown))

-- ===== src/Examples/Pages.antt =====
-- Theorems on requests to the web server, at the kiosk.
use piping.Prelude.{
  ℕ, pos, ◌+ℤ◌, wrap64, quot_ℤ, ◌≤◌, ltb_ℤ, true, false, none, some, List, [], ◌∷◌, ◌++◌, ◌*◌, any,
  ◌≡◌, ◌⊎◌, refl, arith, if◌then◌else◌,
}
use piping.Error.{ok, err, other, expired, ◌>>=◌}
use piping.Decimal.{codes, atoi}
use piping.Base64.{encode, decode}
use piping.Base64.RoundTrip.{Bytes}
use piping.App.Provision.{provision}
use piping.Semester.{current, code}
use piping.User.{contains_fold, equal_fold, role_from_groups, role_staff, role_rank}
use piping.Semester.{eq_text}
use piping.Seal.{seals, open_as_json, seal_as_json}
use piping.App.Submit.{submit, store_and_deliver, job_of}
use piping.Quota.{cost}
use piping.Pdf.{is_pdf}
use piping.Session.{
  Session, Cookie, session_label, cookie_name, cookie_of, from_request, unix, new_manager, issue,
}
use piping.Session.Lasts.{from_request_authentic}
use piping.Oidc.{AuthUrl, get_auth_url, get_user_info, fetch_user_info, value_of}
use piping.Oidc.Users.{to_user}
use piping.Oidc.Answers.{SignedIn, get_user_info-SignedIn}
use piping.Oidc.Enrolled.{times, is_in, times-enrolments}
use piping.Web.{redirect, sign_in}
use piping.Web.Handlers.{header, handle_submit}
use piping.Web.Auth.{has, handle_auth_callback, with_user_info}
use piping.Web.Routes.{routes}
use piping.Url.{starts}
use piping.Web.Auth.{safe_path}
use piping.Web.Safe.{safe_path_plain, safe_path_elsewhere}
use piping.Web.Gate.{routes_without_session, routes_staff}
use piping.Web.Submits.{Submits, Accepted, routes-Submits, handle_submit-Accepted}
use piping.Web.Login.{ComesBack, LedBack, routes_sign_in}
use piping.Web.Granted.{SetsCookie, from_request-handle_auth_callback}
use piping.Examples.Cipher.{
  cipher, cipher-IsAead, sealer, session, session_json, session_json-IsCodec, state_json,
  state_json-IsCodec, key,
}
use piping.Examples.Kiosk.{
  nonce, session_cookie, client, http, json, outside, manager, kiosk, moment, post_job, get_admin,
  office, staff_session, get_jobs, auth_url, come_back, alice_info,
}

has_session : from_request manager (pos moment.now) post_job.cookies ≡ ok session
unfolding from_request new_manager seals open_as_json decode encode unix eq_text
has_session = refl

routes-Submits_example :
    ((routes kiosk moment post_job 5).1 ≡ 5)
    ⊎ Submits kiosk post_job session 5 (routes kiosk moment post_job 5)
routes-Submits_example =
    routes-Submits kiosk moment post_job session 5 has_session (unfold eq_text in refl) refl

accepted_page : (handle_submit kiosk post_job session 5).0.status ≡ 200
unfolding handle_submit submit store_and_deliver cost job_of is_pdf wrap64 ◌+ℤ◌ atoi
accepted_page = refl

handle_submit-Accepted_example :
    Accepted kiosk post_job session 5 (handle_submit kiosk post_job session 5)
unfolding header
handle_submit-Accepted_example = handle_submit-Accepted kiosk post_job session 5 refl accepted_page

-- The list of jobs, with a cookie that is not in base64.
no_session : from_request manager (pos moment.now) get_jobs.cookies ≡ err other
unfolding from_request
no_session = refl

routes_without_session_example :
    ((routes kiosk moment get_jobs 5).1 ≡ 5)
    × (((routes kiosk moment get_jobs 5).0.status ≡ 500)
        ⊎ ((u : AuthUrl) × (get_auth_url client http.parses outside.sha key nonce get_jobs.uri
              ≡ ok u)
            × ((routes kiosk moment get_jobs 5).0 ≡ redirect (sign_in u) none)))
routes_without_session_example =
    routes_without_session kiosk moment get_jobs other 5 no_session (unfold eq_text in refl)

from_request_authentic_example :
    (n : List ℕ) × (plain : List ℕ) × (value : List ℕ) × (cookie_of cookie_name post_job.cookies
      ≡ ok value)
    × (decode value ≡ ok (n ++ cipher.seal n plain session_label))
    × (session_json.unmarshal plain ≡ ok session)
    × (ltb_ℤ session.exp (unix (pos moment.now)) ≡ false)
unfolding new_manager
from_request_authentic_example =
    from_request_authentic session_json sealer cipher-IsAead (pos (3600 * 1000000000))
      (pos moment.now) post_job.cookies has_session

sent : get_auth_url client http.parses outside.sha key nonce get_jobs.uri ≡ ok auth_url
unfolding get_auth_url seals seal_as_json encode eq_text
sent = refl

back : ComesBack auth_url come_back
unfolding has value_of eq_text encode
back = record { by_get = refl; here = refl; has_code = refl; has_state = refl; state = refl }

nonce-Bytes : Bytes nonce
nonce-Bytes = (omega arith, (omega arith, tt))

routes_sign_in_example :
    (verifier : List ℕ) × (value_of "code_challenge" auth_url.query ≡ encode verifier)
    × (routes kiosk moment come_back 5
        ≡ with_user_info kiosk moment
            (fetch_user_info client http json (value_of "code" come_back.query) verifier >>= λ i.
              ok (i, get_jobs.uri))
            5)
    × LedBack kiosk get_jobs.uri (routes kiosk moment come_back 5)
routes_sign_in_example =
    routes_sign_in kiosk state_json sealer cipher-IsAead state_json-IsCodec (unfold seals in refl)
      moment moment get_jobs come_back 5 refl nonce-Bytes sent back

named_user :
    get_user_info client http json
      (value_of "code" come_back.query)
      (value_of "state" come_back.query)
    ≡ ok (alice_info, codes "/jobs")
unfolding get_user_info value_of seals open_as_json decode encode eq_text
named_user = refl

get_user_info-SignedIn_example :
    SignedIn client http json
      (value_of "code" come_back.query)
      (value_of "state" come_back.query)
      alice_info
      (codes "/jobs")
get_user_info-SignedIn_example =
    get_user_info-SignedIn client http json (value_of "code" come_back.query)
      (value_of "state" come_back.query) named_user

alices_cookie : Cookie
alices_cookie = record {
  name = "piping_session";
  value = session_cookie;
  path = "/";
  http_only = true;
  secure = true;
  same_site_lax = true;
  max_age = pos 3600;
}

cookie_given : (handle_auth_callback kiosk moment come_back 5).0.cookie ≡ some alices_cookie
unfolding handle_auth_callback get_user_info to_user role_from_groups issue alices_cookie seals
    open_as_json seal_as_json decode encode eq_text unix new_manager provision current code
    contains_fold equal_fold ◌+ℤ◌ quot_ℤ
cookie_given = refl

from_request-handle_auth_callback_example :
    (signed : SetsCookie kiosk moment come_back 5 alices_cookie) × (from_request manager
        (pos 9)
        (("piping_session", session_cookie) ∷ [])
      ≡ (if ltb_ℤ (unix (pos moment.now +ℤ pos (3600 * 1000000000))) (unix (pos 9))
          then err expired
          else ok (record {
            sub = signed.info.username;
            role = (to_user outside.first_rdn outside.order signed.info).role;
            exp = unix (pos moment.now +ℤ pos (3600 * 1000000000));
          })))
unfolding new_manager
from_request-handle_auth_callback_example =
    from_request-handle_auth_callback kiosk session_json sealer (pos (3600 * 1000000000))
      cipher-IsAead session_json-IsCodec refl moment come_back 5 refl nonce-Bytes cookie_given
      (pos 9) (("piping_session", session_cookie) ∷ []) (unfold cookie_of alices_cookie in refl)

times-enrolments_example :
    times (pos 202609) (to_user outside.first_rdn outside.order alice_info).enrolments
    ≡ (if any (is_in (pos 202609)) alice_info.courses then 1 else 0)
times-enrolments_example =
    times-enrolments outside.first_rdn outside.order (λ x ys. refl) alice_info (pos 202609)

in_office : from_request office.session (pos moment.now) get_admin.cookies ≡ ok staff_session
unfolding from_request new_manager seals open_as_json decode encode unix eq_text
in_office = refl

admin_page : (routes office moment get_admin 5).0.status ≡ 200
unfolding routes from_request new_manager seals open_as_json decode encode unix eq_text role_rank
admin_page = refl

routes_staff_example :
    (sess : Session) × (from_request office.session (pos moment.now) get_admin.cookies ≡ ok sess)
    × (role_rank role_staff ≤ role_rank sess.role)
routes_staff_example = routes_staff office moment get_admin 5 (unfold eq_text in refl) admin_page

safe_path_plain_example :
    safe_path (codes "/jobs/7")
    ≡ (if starts (codes "/") (codes "/jobs/7") then codes "/jobs/7" else codes "/")
safe_path_plain_example =
    safe_path_plain (codes "/jobs/7") (refl, (refl, (refl, (refl, (refl, (refl, (refl, tt)))))))
      (unfold starts in refl)

safe_path_elsewhere_example : safe_path (codes "//@//" ++ codes "a.b") ≡ codes "//" ++ codes "a.b"
safe_path_elsewhere_example = safe_path_elsewhere (codes "a.b") (refl, (refl, (refl, tt)))

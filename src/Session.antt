-- ===== src/Session.antt =====
-- internal/session/session.go: the session cookie. A time is the number of nanoseconds since 1970, a
-- request the cookies that it carries.
pub mod Lasts
use piping.Prelude.{
  ℕ, ◌/◌, ◌^◌, ℤ, pos, negsuc, ◌+ℤ◌, quot_ℤ, ltb_ℤ, String, Bool, true, Option, none, some, List,
  [], ◌∷◌, str_eq, select, not, if◌then◌else◌,
}
use piping.Decimal.{codes}
use piping.Error.{Error, Result, ok, err, expired, other, ◌>>=◌}
use piping.User.{Role}
use piping.Seal.{Seals, Codec, Sealer, seals}

abbrev pub session_label : List ℕ
session_label = codes "session"

abbrev pub cookie_name : String
cookie_name = "piping_session"

pub record Session : Type 0 where
  pub sub : String
  pub role : Role
  pub exp : ℤ

-- `ttl` is in nanoseconds.
pub record Manager : Type 0 where
  pub seal : Seals Session
  pub ttl : ℤ

-- `NewManager` with the sealer of the program.
unfoldable pub new_manager : Codec Session → Sealer → ℤ → Manager
unfolding seals
new_manager json s ttl = record { seal = seals json s; ttl = ttl }

-- `time.Time.Unix`, which rounds down
unfoldable pub unix : ℤ → ℤ
unix (pos n) = pos (n / 1000000000)
unix (negsuc n) = negsuc (n / 1000000000)

-- `r.Cookie(name)`: the first of that name
unfoldable pub cookie_of : String → List (String × List ℕ) → Result (List ℕ)
cookie_of name [] = err other
cookie_of name ((n, v) ∷ rest) =
    let next = cookie_of name rest in if str_eq n name then ok v else next

pub record Cookie : Type 0 where
  pub name : String
  pub value : List ℕ
  pub path : String
  pub http_only : Bool
  pub secure : Bool
  pub same_site_lax : Bool
  pub max_age : ℤ

-- `now` is the time at the check, which the session must not have outlived.
abbrev pub check_expiry : ℤ → Session → Result Session
check_expiry now s = if ltb_ℤ s.exp (unix now) then err expired else ok s

unfoldable pub from_request : Manager → ℤ → List (String × List ℕ) → Result Session
unfolding cookie_of
from_request m now cookies =
    cookie_of cookie_name cookies >>= λ c. m.seal.open_json session_label c >>= check_expiry now

-- The session that a sign-in gets. `time.Time.Add` is exact.
unfoldable pub new_session : Manager → ℤ → String → Role → Session
new_session m now sub role = record { sub = sub; role = role; exp = unix (now +ℤ m.ttl) }

-- `int(m.ttl.Seconds())`, of a ttl below 2^24 seconds, where the float keeps the whole seconds.
unfoldable pub issue : Manager → List ℕ → ℤ → String → Role → Result Cookie
unfolding new_session
issue m nonce now sub role =
    m.seal.seal_json nonce session_label (new_session m now sub role) >>= λ sealed. ok (record {
      name = cookie_name;
      value = sealed;
      path = "/";
      http_only = true;
      secure = true;
      same_site_lax = true;
      max_age = quot_ℤ m.ttl 1000000000;
    })

unfoldable pub clear : Manager → Cookie
clear m = record {
  name = cookie_name;
  value = [];
  path = "/";
  http_only = true;
  secure = true;
  same_site_lax = true;
  max_age = negsuc 0;
}

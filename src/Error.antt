-- ===== src/Error.antt =====
-- The sentinel errors that `errors.Is` looks for (internal/job/job.go, internal/quota/quota.go,
-- internal/queue/queue.go, internal/pdf/pdf.go, internal/app/submit.go, internal/session/session.go
-- and `context.DeadlineExceeded`). A wrapped error is the sentinel that it wraps, any other is `other`;
-- the messages only reach the log.
pub mod Inverse
use piping.Prelude.{Bool, true, false}

pub data Error : Type 0 where
  unexpected_state invalid_transition : Error
  insufficient grant_exists : Error
  unavailable : Error
  not_pdf unreadable : Error
  too_large too_many_pages invalid_copies : Error
  expired : Error
  deadline_exceeded : Error
  other : Error

-- A pair of a value and an error, where the caller drops the value if the error is not nil.
pub data Result {ℓ} (A : Type ℓ) : Type ℓ where
  ok : A → Result A
  err : Error → Result A

infixl 5 ◌>>=◌
abbrev pub ◌>>=◌ {ℓ κ} : {A : Type ℓ} {B : Type κ} → Result A → (A → Result B) → Result B
ok a >>= f = f a
err e >>= f = err e

abbrev pub guard : Bool → Error → Result (Unit {0})
guard true e = ok tt
guard false e = err e

infixl 5 ◌>>◌
abbrev pub ◌>>◌ {ℓ} : {B : Type ℓ} → Result (Unit {0}) → Result B → Result B
m >> k = m >>= λ _. k

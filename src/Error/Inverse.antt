-- ===== src/Error/Inverse.antt =====
-- What follows from a result that is no error.
use piping.Prelude.{Bool, true, false, if◌then◌else◌, ◌≡◌, refl}
use piping.Error.{Error, Result, ok, err, other, ◌>>=◌}

pub err_ne : {A : Type 0} {e : Error} {a : A} → ◌≡◌ {A = Result A} (err e) (ok a) → ⊥
err_ne h = cc

pub ok_inj : {A : Type 0} {a b : A} → ◌≡◌ {A = Result A} (ok a) (ok b) → a ≡ b
ok_inj h = cc

-- What the first of two steps has given, where both go well.
pub >>=-ok :
    {A B : Type 0} (step : Result A) (next : A → Result B) {end : B}
    → (step >>= next) ≡ ok end
    → (mid : A) × (step ≡ ok mid) × (next mid ≡ ok end)
>>=-ok (err why) next gone = absurd (err_ne gone)
>>=-ok (ok mid) next gone = (mid, refl, gone)

pub if_ok :
    {A : Type 0} (b : Bool) {m : Result A} {a : A}
    → (if b then m else err other) ≡ ok a
    → (b ≡ true) × (m ≡ ok a)
if_ok true h = (refl, h)
if_ok false h = absurd (err_ne h)

pub if_not_ok :
    {A : Type 0} (b : Bool) {m : Result A} {a : A}
    → (if b then err other else m) ≡ ok a
    → (b ≡ false) × (m ≡ ok a)
if_not_ok true h = absurd (err_ne h)
if_not_ok false h = (refl, h)

-- ===== src/Settings/Usable.antt =====
-- What holds of every configuration that the program starts with.
use piping.Prelude.{
  ℕ, ◌<◌, ◌*◌, ◌^◌, ℤ, pos, negsuc, ◌≤ℤ◌, ◌<ℤ◌, ltb_ℤ, leb_ℤ, eq_ℤ, ◌==◌, String, false, List,
  length, ◌≡◌, arith, ap, sym, ◌∙◌, Bool-cases, inl, inr, subst,
}
use piping.Decimal.{atoi}
use piping.Error.Inverse.{>>=-ok, ok_inj, if_not_ok}
use piping.Error.{ok}
use piping.Settings.{
  Env, Settings, Limits, Database, Provider, env_required, env_int, env_pos_int, env_duration,
  env_float, nonneg, nonzero, load_database, load_limits, load_provider, load, seconds,
}

positive : (n : ℤ) → pos 0 ≤ℤ n → eq_ℤ n (pos 0) ≡ false → pos 1 ≤ℤ n
positive (pos n) p e = ground arith
positive (negsuc n) p e = ground arith

module _ {F : Type 0} (env : Env F) where
  required_set : (key : String) {v : List ℕ} → env_required env key ≡ ok v → 0 < length v
  unfolding env_required
  required_set key {v} h =
      let (set, e) = if_not_ok (length (env.getenv key) == 0) h in
      subst (λ x. 0 < length x) (ok_inj e) (ground arith)

  required_same : (key : String) {v : List ℕ} → env_required env key ≡ ok v → v ≡ env.getenv key
  unfolding env_required
  required_same key h = let (_, e) = if_not_ok (length (env.getenv key) == 0) h in sym (ok_inj e)

  nonneg_ok : (n : ℤ) {k : ℤ} → nonneg env n ≡ ok k → pos 0 ≤ℤ k
  nonneg_ok n h =
      let (e, same) = if_not_ok (ltb_ℤ n (pos 0)) h in
      subst (λ k. pos 0 ≤ℤ k) (ok_inj same) (ground arith)

  int_nonneg :
      (key : String) (def : ℤ) {n : ℤ} → pos 0 ≤ℤ def → env_int env key def ≡ ok n → pos 0 ≤ℤ n
  unfolding env_int
  int_nonneg key def d h = elim (Bool-cases (length (env.getenv key) == 0)) [
    | inl unset ↦ subst (λ k. pos 0 ≤ℤ k) (ok_inj (rw unset at h)) d
    | inr there ↦
        let (k, _, e) = >>=-ok (atoi (env.getenv key)) (nonneg env) (rw there at h) in nonneg_ok k e
  ]

  nonzero_ok : (n : ℤ) {k : ℤ} → pos 0 ≤ℤ n → nonzero env n ≡ ok k → pos 1 ≤ℤ k
  nonzero_ok n p h =
      let (e, same) = if_not_ok (eq_ℤ n (pos 0)) h in
      subst (λ k. pos 1 ≤ℤ k) (ok_inj same) (positive n p e)

  pos_int_pos :
      (key : String) (def : ℤ) {n : ℤ} → pos 0 ≤ℤ def → env_pos_int env key def ≡ ok n → pos 1 ≤ℤ n
  unfolding env_pos_int
  pos_int_pos key def d h =
      let (k, i, e) = >>=-ok (env_int env key def) (nonzero env) h in
      nonzero_ok k (int_nonneg key def d i) e

pub record IsNamed (d : Database) : Type 0 where
  pub user : 0 < length d.db_user
  pub password : 0 < length d.db_password
  pub host : 0 < length d.db_host
  pub name : 0 < length d.db_name
  pub auth_file : 0 < length d.smb_auth_file

pub record IsLimited (l : Limits) : Type 0 where
  pub batch : pos 1 ≤ℤ l.sweep_batch
  pub bytes : pos 1 ≤ℤ l.max_bytes
  pub pages : pos 1 ≤ℤ l.max_pages
  pub copies : pos 1 ≤ℤ l.max_copies
  pub attempts : pos 1 ≤ℤ l.max_send_attempts
  pub rate : pos 1 ≤ℤ l.color_rate

pub record IsKnown {F : Type 0} (env : Env F) (p : Provider) : Type 0 where
  pub id : 0 < length p.client_id
  pub secret : 0 < length p.client_secret
  pub redirect : 0 < length p.redirect_uri
  pub scopes : 0 < length p.scopes
  pub discovery : 0 < length p.discovery_url
  pub key64 : 0 < length (env.getenv "ENCRYPTION_KEY")
  pub decoded : env.decode_key (env.getenv "ENCRYPTION_KEY") ≡ ok p.seal_key

pub record IsUsable {F : Type 0} (env : Env F) (s : Settings F) : Type 0 where
  pub database : IsNamed s.database
  pub limits : IsLimited s.limits
  pub provider : IsKnown env s.provider
  pub quota : pos 0 ≤ℤ s.default_quota
  pub patient : s.limits.send_timeout <ℤ s.limits.sweep_age

module _ {F : Type 0} (env : Env F) where
  database-IsNamed : {d : Database} → load_database env ≡ ok d → IsNamed d
  unfolding load_database
  database-IsNamed h =
      let (user, u, h1) = >>=-ok (env_required env "DB_USER") _ h in
      let (password, p, h2) = >>=-ok (env_required env "DB_PASSWORD") _ h1 in
      let (host, o, h3) = >>=-ok (env_required env "DB_HOST") _ h2 in
      let (name, n, h4) = >>=-ok (env_required env "DB_NAME") _ h3 in
      let (file, f, h5) = >>=-ok (env_required env "SMB_AUTH_FILE") _ h4 in
      subst IsNamed (ok_inj h5) (record {
        user = required_set env _ u;
        password = required_set env _ p;
        host = required_set env _ o;
        name = required_set env _ n;
        auth_file = required_set env _ f;
      })

  limits-IsLimited : {l : Limits} → load_limits env ≡ ok l → IsLimited l
  unfolding load_limits
  limits-IsLimited h =
      let (timeout, t, h1) = >>=-ok (env_duration env "SEND_TIMEOUT" (seconds 5)) _ h in
      let (every, e, h2) = >>=-ok (env_duration env "SWEEP_INTERVAL" (seconds 60)) _ h1 in
      let (age, a, h3) = >>=-ok (env_duration env "SWEEP_AGE_BOUND" (seconds 60)) _ h2 in
      let (batch, b, h4) = >>=-ok (env_pos_int env "SWEEP_BATCH" (pos 100)) _ h3 in
      let (bytes, y, h5) = >>=-ok (env_pos_int env "MAX_BYTES" (pos (50 * 2 ^ 20))) _ h4 in
      let (pages, p, h6) = >>=-ok (env_pos_int env "MAX_PAGES" (pos 100)) _ h5 in
      let (copies, c, h7) = >>=-ok (env_pos_int env "MAX_COPIES" (pos 50)) _ h6 in
      let (attempts, m, h8) = >>=-ok (env_pos_int env "MAX_SEND_ATTEMPTS" (pos 5)) _ h7 in
      let (rate, r, h9) = >>=-ok (env_pos_int env "COLOR_RATE" (pos 3)) _ h8 in
      subst IsLimited (ok_inj h9) (record {
        batch = pos_int_pos env _ (pos 100) (omega arith) b;
        bytes = pos_int_pos env _ (pos (50 * 2 ^ 20)) (omega arith) y;
        pages = pos_int_pos env _ (pos 100) (omega arith) p;
        copies = pos_int_pos env _ (pos 50) (omega arith) c;
        attempts = pos_int_pos env _ (pos 5) (omega arith) m;
        rate = pos_int_pos env _ (pos 3) (omega arith) r;
      })

  provider-IsKnown : {p : Provider} → load_provider env ≡ ok p → IsKnown env p
  unfolding load_provider
  provider-IsKnown h =
      let (id, i, h1) = >>=-ok (env_required env "OIDC_CLIENT_ID") _ h in
      let (secret, s, h2) = >>=-ok (env_required env "OIDC_CLIENT_SECRET") _ h1 in
      let (redirect, r, h3) = >>=-ok (env_required env "OIDC_REDIRECT_URI") _ h2 in
      let (scopes, c, h4) = >>=-ok (env_required env "OIDC_SCOPES") _ h3 in
      let (discovery, d, h5) = >>=-ok (env_required env "OIDC_DISCOVERY_URL") _ h4 in
      let (key64, k, h6) = >>=-ok (env_required env "ENCRYPTION_KEY") _ h5 in
      let (key, e, h7) = >>=-ok (env.decode_key key64) _ h6 in
      subst (IsKnown env) (ok_inj h7) (record {
        id = required_set env _ i;
        secret = required_set env _ s;
        redirect = required_set env _ r;
        scopes = required_set env _ c;
        discovery = required_set env _ d;
        key64 = subst (λ v. 0 < length v) (required_same env _ k) (required_set env _ k);
        decoded = ap env.decode_key (sym (required_same env _ k)) ∙ e;
      })

module _ {F : Type 0} (env : Env F) (default_threshold : F) where
  pub load-IsUsable : {s : Settings F} → load env default_threshold ≡ ok s → IsUsable env s
  unfolding load
  load-IsUsable h =
      let (database, d, h1) = >>=-ok (load_database env) _ h in
      let (limits, l, h2) = >>=-ok (load_limits env) _ h1 in
      let (threshold, _, h3) = >>=-ok (env_float env "COLOR_THRESHOLD" default_threshold) _ h2 in
      let (quota, q, h4) = >>=-ok (env_int env "DEFAULT_QUOTA" (pos 250)) _ h3 in
      let (provider, p, h5) = >>=-ok (load_provider env) _ h4 in
      let (ttl, _, h6) = >>=-ok (env_duration env "SESSION_TTL" (seconds 3600)) _ h5 in
      let (longer, h7) = if_not_ok (leb_ℤ limits.sweep_age limits.send_timeout) h6 in
      subst (IsUsable env) (ok_inj h7) (record {
        database = database-IsNamed env d;
        limits = limits-IsLimited env l;
        provider = provider-IsKnown env p;
        quota = int_nonneg env _ (pos 250) (omega arith) q;
        patient = ground arith;
      })

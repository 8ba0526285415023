-- ===== src/Settings.antt =====
-- cmd/piping/main.go: what `run` reads of the environment before it starts anything. A value is the list
-- of its code points, and empty where the variable is not set; durations are in nanoseconds.
pub mod Usable
pub mod Start
use piping.Prelude.{
  ℕ, ◌*◌, ◌^◌, ℤ, pos, ltb_ℤ, leb_ℤ, eq_ℤ, ◌==◌, String, Bool, List, [], ◌∷◌, length, if◌then◌else◌,
}
use piping.Decimal.{codes, atoi}
use piping.Error.{Error, Result, ok, err, other, ◌>>=◌}

-- The environment, and what reads its values that is modelled no further: strconv.ParseFloat,
-- time.ParseDuration, and `DecodeString` of base64.StdEncoding. `F` are the numbers of type float64.
pub record Env (F : Type 0) : Type 0 where
  pub getenv : String → List ℕ
  pub parse_float : List ℕ → Result F
  pub parse_duration : List ℕ → Result ℤ
  pub decode_key : List ℕ → Result (List ℕ)

abbrev pub seconds : ℕ → ℤ
seconds n = pos (n * 1000000000)

module _ {F : Type 0} (env : Env F) where
  -- The value, or what follows from there being none.
  abbrev pub if_set : {A : Type 0} → String → A → (List ℕ → A) → A
  if_set key unset f = let v = env.getenv key in if length v == 0 then unset else f v

  unfoldable pub env_str : String → List ℕ → List ℕ
  env_str key def = if_set key def (λ v. v)

  unfoldable pub env_required : String → Result (List ℕ)
  env_required key = if_set key (err other) ok

  abbrev pub nonneg : ℤ → Result ℤ
  nonneg n = if ltb_ℤ n (pos 0) then err other else ok n

  unfoldable pub env_int : String → ℤ → Result ℤ
  env_int key def = if_set key (ok def) (λ v. atoi v >>= nonneg)

  abbrev pub nonzero : ℤ → Result ℤ
  nonzero n = if eq_ℤ n (pos 0) then err other else ok n

  unfoldable pub env_pos_int : String → ℤ → Result ℤ
  unfolding env_int
  env_pos_int key def = env_int key def >>= nonzero

  unfoldable pub env_float : String → F → Result F
  env_float key def = if_set key (ok def) env.parse_float

  unfoldable pub env_duration : String → ℤ → Result ℤ
  env_duration key def = if_set key (ok def) env.parse_duration

pub record Limits : Type 0 where
  pub send_timeout : ℤ
  pub sweep_every : ℤ
  pub sweep_age : ℤ
  pub sweep_batch : ℤ
  pub max_bytes : ℤ
  pub max_pages : ℤ
  pub max_copies : ℤ
  pub max_send_attempts : ℤ
  pub color_rate : ℤ

pub record Database : Type 0 where
  pub db_user : List ℕ
  pub db_password : List ℕ
  pub db_host : List ℕ
  pub db_name : List ℕ
  pub smb_auth_file : List ℕ

pub record Provider : Type 0 where
  pub client_id : List ℕ
  pub client_secret : List ℕ
  pub redirect_uri : List ℕ
  pub scopes : List ℕ
  pub discovery_url : List ℕ
  pub seal_key : List ℕ

pub record Settings (F : Type 0) : Type 0 where
  pub listen_addr : List ℕ
  pub database : Database
  pub limits : Limits
  pub color_threshold : F
  pub default_quota : ℤ
  pub provider : Provider
  pub session_ttl : ℤ

module _ {F : Type 0} (env : Env F) where
  unfoldable pub load_database : Result Database
  unfolding env_required
  load_database = do
    user ← env_required env "DB_USER"
    password ← env_required env "DB_PASSWORD"
    host ← env_required env "DB_HOST"
    name ← env_required env "DB_NAME"
    file ← env_required env "SMB_AUTH_FILE"
    ok (record {
      db_user = user;
      db_password = password;
      db_host = host;
      db_name = name;
      smb_auth_file = file;
    })

  unfoldable pub load_limits : Result Limits
  unfolding env_duration env_pos_int
  load_limits = do
    timeout ← env_duration env "SEND_TIMEOUT" (seconds 5)
    every ← env_duration env "SWEEP_INTERVAL" (seconds 60)
    age ← env_duration env "SWEEP_AGE_BOUND" (seconds 60)
    batch ← env_pos_int env "SWEEP_BATCH" (pos 100)
    bytes ← env_pos_int env "MAX_BYTES" (pos (50 * 2 ^ 20))
    pages ← env_pos_int env "MAX_PAGES" (pos 100)
    copies ← env_pos_int env "MAX_COPIES" (pos 50)
    attempts ← env_pos_int env "MAX_SEND_ATTEMPTS" (pos 5)
    rate ← env_pos_int env "COLOR_RATE" (pos 3)
    ok (record {
      send_timeout = timeout;
      sweep_every = every;
      sweep_age = age;
      sweep_batch = batch;
      max_bytes = bytes;
      max_pages = pages;
      max_copies = copies;
      max_send_attempts = attempts;
      color_rate = rate;
    })

  unfoldable pub load_provider : Result Provider
  unfolding env_required
  load_provider = do
    id ← env_required env "OIDC_CLIENT_ID"
    secret ← env_required env "OIDC_CLIENT_SECRET"
    redirect ← env_required env "OIDC_REDIRECT_URI"
    scopes ← env_required env "OIDC_SCOPES"
    discovery ← env_required env "OIDC_DISCOVERY_URL"
    key64 ← env_required env "ENCRYPTION_KEY"
    key ← env.decode_key key64
    ok (record {
      client_id = id;
      client_secret = secret;
      redirect_uri = redirect;
      scopes = scopes;
      discovery_url = discovery;
      seal_key = key;
    })

  abbrev pub check_ages : Settings F → Result (Settings F)
  check_ages s = if leb_ℤ s.limits.sweep_age s.limits.send_timeout then err other else ok s

module _ {F : Type 0} (env : Env F) (default_threshold : F) where
  -- The settings that `run` starts with; `default_threshold` is 0.0005.
  unfoldable pub load : Result (Settings F)
  unfolding env_str load_database load_limits env_float env_int load_provider env_duration
  load = do
    database ← load_database env
    limits ← load_limits env
    threshold ← env_float env "COLOR_THRESHOLD" default_threshold
    quota ← env_int env "DEFAULT_QUOTA" (pos 250)
    provider ← load_provider env
    ttl ← env_duration env "SESSION_TTL" (seconds 3600)
    check_ages env (record {
      listen_addr = env_str env "LISTEN_ADDR" (codes ":8080");
      database = database;
      limits = limits;
      color_threshold = threshold;
      default_quota = quota;
      provider = provider;
      session_ttl = ttl;
    })

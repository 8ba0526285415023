-- ===== src/Settings/Start/Ready.antt =====
-- What a server has that was started.
use piping.Prelude.{
  ℕ, ℤ, pos, ◌≤ℤ◌, ◌==◌, not, String, some, List, [], length, ◌≡◌, refl, ap, ◌∙◌, arith, subst, inl,
  inr,
}
use piping.Error.{Result, ok, err}
use piping.Error.Inverse.{>>=-ok, ok_inj, if_not_ok}
use piping.Seal.{Sealer, new_sealer, seals}
use piping.Session.{new_manager}
use piping.Oidc.{
  Client, ClientConfig, new, new_from_discovery, from_endpoints, exchange, get_request,
}
use piping.Oidc.Answers.{IsComplete, new-IsComplete}
use piping.Store.World.{World}
use piping.App.Postgres.{submitter}
use piping.Web.{Server, new_server}
use piping.Web.Site.{site}
use piping.Settings.{Env, Settings, Provider, load, env_required}
use piping.Settings.Usable.{IsUsable, load-IsUsable}
use piping.Settings.Start.{Machine, client_config, or_given, make_client, site_config, start}

module _ {F : Type 0} (env : Env F) (m : Machine F) where
  pub record IsReady (default_threshold : F) (s : Server World) : Type 0 where
    pub settings : Settings F
    pub loaded : load env default_threshold ≡ ok settings
    pub key : List ℕ
    pub sealer : Sealer
    pub ttl : ℤ
    pub strong : length key ≡ 32
    pub keyed : m.gcm key ≡ ok sealer.aead
    pub states : s.oidc.cfg.sealer ≡ some (seals m.state_json sealer)
    pub sessions : s.session ≡ new_manager m.session_json sealer ttl
    pub complete : IsComplete s.oidc
    pub given_key : key ≡ settings.provider.seal_key
    pub given_bytes : s.submit.max_bytes ≡ settings.limits.max_bytes
    pub given_pages : s.submit.max_pages ≡ settings.limits.max_pages
    pub given_copies : s.submit.max_copies ≡ settings.limits.max_copies
    pub bytes : pos 1 ≤ℤ s.submit.max_bytes
    pub pages : pos 1 ≤ℤ s.submit.max_pages
    pub copies : pos 1 ≤ℤ s.submit.max_copies
    pub same_bytes : s.max_bytes ≡ s.submit.max_bytes
    pub same_copies : s.max_copies ≡ s.submit.max_copies

  -- A client has the configuration that it is made of.
  new_cfg : (cfg : ClientConfig) (a t u : List ℕ) {c : Client} → new cfg a t u ≡ ok c → c.cfg ≡ cfg
  unfolding new
  new_cfg cfg a t u {c} h =
      let (_, e) = if_not_ok _ h in subst (λ (d : Client). d.cfg ≡ cfg) (ok_inj e) refl

  sealer_keyed :
      (key : List ℕ) {s : Sealer}
      → new_sealer m.gcm key ≡ ok s
      → (length key ≡ 32) × (m.gcm key ≡ ok s.aead)
  unfolding new_sealer
  sealer_keyed key h =
      let (e, g) = if_not_ok (not (length key == 32)) h in
      let (a, k, r) = >>=-ok (m.gcm key) _ g in
      (ground arith, subst (λ (t : Sealer). m.gcm key ≡ ok t.aead) (ok_inj r) k)

  discovered_cfg :
      (cfg : ClientConfig) (url : List ℕ) {c : Client}
      → new_from_discovery m.outside.http m.outside.json cfg url ≡ ok c
      → c.cfg ≡ cfg
  unfolding new_from_discovery
  discovered_cfg cfg url h =
      let (_, a) = if_not_ok _ h in
      let (body, _, b) = >>=-ok (exchange m.outside.http (get_request url [])) _ a in
      let (d, _, e) = >>=-ok (m.outside.json.discovery body) (from_endpoints cfg) b in
      let (_, f) = if_not_ok _ e in subst (λ (k : Client). k.cfg ≡ cfg) (ok_inj f) refl

  given :
      (cfg : ClientConfig) (url : List ℕ) (r : Result Client) {c : Client}
      → new_from_discovery m.outside.http m.outside.json cfg url ≡ r
      → or_given env m cfg r ≡ ok c
      → IsComplete c × (c.cfg ≡ cfg)
  given cfg url (ok d) {c} e h =
      let e' = e ∙ h in
      (
        new-IsComplete m.outside.http m.outside.json cfg [] [] [] url c (inr e'),
        discovered_cfg cfg url e',
      )
  given cfg url (err x) {c} e h =
      let (a, _, h1) = >>=-ok (env_required env "OIDC_AUTHORIZATION_ENDPOINT") _ h in
      let (t, _, h2) = >>=-ok (env_required env "OIDC_TOKEN_ENDPOINT") _ h1 in
      let (u, _, h3) = >>=-ok (env_required env "OIDC_USER_INFO_ENDPOINT") _ h2 in
      (new-IsComplete m.outside.http m.outside.json cfg a t u url c (inl h3), new_cfg cfg a t u h3)

  made :
      (p : Provider) (sealer : Sealer) {c : Client}
      → make_client env m p sealer ≡ ok c
      → IsComplete c × (c.cfg ≡ client_config env m p sealer)
  unfolding make_client
  made p sealer h = given (client_config env m p sealer) p.discovery_url _ refl h

  site-IsReady :
      (default_threshold : F) (s : Settings F) (sealer : Sealer) (c : Client) (origin : String)
      → load env default_threshold ≡ ok s
      → IsUsable env s
      → length s.provider.seal_key ≡ 32
      → m.gcm s.provider.seal_key ≡ ok sealer.aead
      → IsComplete c × (c.cfg ≡ client_config env m s.provider sealer)
      → IsReady default_threshold
          (site (site_config env m s origin) m.before m.session_json sealer c m.in_order m.outside)
  unfolding site new_server submitter
  site-IsReady default_threshold s sealer c origin loaded u l k (complete, cfg) = record {
    settings = s;
    loaded = loaded;
    key = s.provider.seal_key;
    sealer = sealer;
    ttl = s.session_ttl;
    strong = l;
    keyed = k;
    states = ap (λ (d : ClientConfig). d.sealer) cfg;
    sessions = refl;
    complete = complete;
    given_key = refl;
    given_bytes = refl;
    given_pages = refl;
    given_copies = refl;
    bytes = u.limits.bytes;
    pages = u.limits.pages;
    copies = u.limits.copies;
    same_bytes = refl;
    same_copies = refl;
  }

  -- A server that the program starts seals sessions and sign-ins with the key of the configuration,
  -- which has 32 bytes, its client of the provider lacks nothing, and its limits on bytes, pages and
  -- copies are those of the configuration and at least 1; the limits on bytes and copies are those
  -- that the pages show.
  pub start-IsReady :
      (default_threshold : F) {s : Server World}
      → start env m default_threshold ≡ ok s
      → IsReady default_threshold s
  unfolding start
  start-IsReady default_threshold h =
      let (s, l, h1) = >>=-ok (load env default_threshold) _ h in
      let (_, _, h2) = >>=-ok m.connect _ h1 in
      let (_, _, h3) = >>=-ok m.verify_device _ h2 in
      let (sealer, a, h4) = >>=-ok (new_sealer m.gcm s.provider.seal_key) _ h3 in
      let (client, c, h5) = >>=-ok (make_client env m s.provider sealer) _ h4 in
      let (origin, _, h6) = >>=-ok (m.origin_of s.provider.redirect_uri) _ h5 in
      let (long, keyed) = sealer_keyed s.provider.seal_key a in
      subst (IsReady default_threshold) (ok_inj h6) (
        site-IsReady default_threshold s sealer client origin l
          (load-IsUsable env default_threshold l) long keyed (made s.provider sealer c))

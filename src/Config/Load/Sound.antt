-- ===== src/Config/Load/Sound.antt =====
-- internal/config/config.go: what Load gives, and when.
use devplat_agent.Base.{
  ◌≡◌, ◌≢◌, refl, sym, ap, subst, ◌∙◌, [], Option, some, inl, inr, arith, Bool-cases, ◌⊎◌,
}
use devplat_agent.Base.Int.{ℤ, pos}
use devplat_agent.Base.Words.{mul64}
use devplat_agent.Base.Text.{Bytes, codes, text_eq, text_eq_iff, atoi}
use devplat_agent.Network.Address.{Ipv4}
use devplat_agent.Network.Address.Parse.{parse_ip4}
use devplat_agent.Config.{Config}
use devplat_agent.Config.Load.{
  Environment, Checked, ok, bad, ◌>>=◌, required_string, int_env, tap_ip_base, load,
}

-- A step of the chain that did not fail.
bind-ok {ℓ κ μ} :
    {A : Type ℓ} {B : Type κ} {P : Type μ} (m : Checked A) (f : A → Checked B) (b : B)
    → (m >>= f) ≡ ok b
    → ((a : A) → m ≡ ok a → f a ≡ ok b → P)
    → P
unfolding ◌>>=◌
bind-ok (ok a) f b h then' = then' a refl h
bind-ok (bad p) f b h then' = absurd (cc)

-- A step that gives a value, and a rest of the chain that gives one.
bind-step {ℓ κ} :
    {A : Type ℓ} {B : Type κ} {m : Checked A} {a : A} (f : A → Checked B)
    → m ≡ ok a
    → (b : B) × (f a ≡ ok b)
    → (b : B) × ((m >>= f) ≡ ok b)
unfolding ◌>>=◌
bind-step f e (b, rest) = (b, ap (λ c. c >>= f) e ∙ rest)

ok_injective {ℓ} : {A : Type ℓ} (a b : A) → ok a ≡ ok b → a ≡ b
ok_injective a b h = ap (λ c. elim c [ ok x ↦ x | bad p ↦ a ]) h

module _ (env : Environment) where
  -- The variable is set, and this is its text.
  abbrev pub IsPresent : Bytes → Bytes → Type 0
  IsPresent name text = (text ≡ env name) × (env name ≢ [])

  -- The number of a variable, or the default where it is not set.
  abbrev pub IsNumber : Bytes → ℤ → ℤ → Type 0
  IsNumber name default n =
      ((env name ≡ []) × (n ≡ default)) ⊎ ((env name ≢ []) × (atoi (env name) ≡ some n))

  pub record Loaded (colon_notation : Bytes → Option Ipv4) (cfg : Config) : Type 0 where
    pub listen_addr : IsPresent (codes "LISTEN_ADDR") cfg.listen_addr
    pub agent_token : IsPresent (codes "AGENT_TOKEN") cfg.agent_token
    pub scheduler_url : IsPresent (codes "SCHEDULER_URL") cfg.scheduler_url
    pub golden_image_path : IsPresent (codes "GOLDEN_IMAGE_PATH") cfg.golden_image_path
    pub kernel_image_path : IsPresent (codes "KERNEL_IMAGE_PATH") cfg.kernel_image_path
    pub wireguard_cidr : IsPresent (codes "WIREGUARD_CIDR") cfg.wireguard_cidr
    pub tap_ip_base : parse_ip4 colon_notation (env (codes "TAP_IP_BASE")) ≡ some cfg.tap_ip_base
    pub heartbeat_seconds : ℤ
    pub heartbeat_number : IsNumber (codes "HEARTBEAT_INTERVAL_SECONDS") (pos 20) heartbeat_seconds
    pub heartbeat_interval : cfg.heartbeat_interval ≡ mul64 heartbeat_seconds (pos 1_000_000_000)
    pub host_reserved_ram_mb :
        IsNumber (codes "HOST_RESERVED_RAM_MB") (pos 8192) cfg.host_reserved_ram_mb
    pub default_ttl_minutes :
        IsNumber (codes "DEFAULT_TTL_MINUTES") (pos 60) cfg.default_ttl_minutes
    pub reaper_interval_seconds :
        IsNumber (codes "REAPER_INTERVAL_SECONDS") (pos 30) cfg.reaper_interval_seconds
    pub docker_port_base : IsNumber (codes "DOCKER_PORT_BASE") (pos 10000) cfg.docker_port_base
    pub bandwidth_cap_mbit : IsNumber (codes "BANDWIDTH_CAP_MBIT") (pos 200) cfg.bandwidth_cap_mbit

  required_string-IsPresent :
      (name text : Bytes) → required_string env name ≡ ok text → IsPresent name text
  unfolding required_string
  required_string-IsPresent name text h = elim (Bool-cases (text_eq (env name) [])) [
    | inl unset ↦ absurd (ground arith)
    | inr set ↦ (ground arith, ground (arith, text_eq_iff (env name) []))
  ]

  int_env-IsNumber :
      (name : Bytes) (default n : ℤ) → int_env env name default ≡ ok n → IsNumber name default n
  unfolding int_env
  int_env-IsNumber name default n h = elim (Bool-cases (text_eq (env name) [])) [
    | inl unset ↦ inl (ground (arith, text_eq_iff (env name) []), ground arith)
    | inr set ↦ inr (ground (arith, text_eq_iff (env name) []), ground arith)
  ]

  tap_ip_base-parse :
      (colon_notation : Bytes → Option Ipv4) (text : Bytes) (a : Ipv4)
      → tap_ip_base env colon_notation text ≡ ok a
      → parse_ip4 colon_notation text ≡ some a
  unfolding tap_ip_base
  tap_ip_base-parse colon_notation text a h = ground arith

  -- A configuration that Load returns has the text of every required variable, none empty, the IPv4
  -- address of TAP_IP_BASE, and every number as its variable has it or by its default where it is
  -- not set.
  pub load-Loaded :
      (colon_notation : Bytes → Option Ipv4) (cfg : Config)
      → load env colon_notation ≡ ok cfg
      → Loaded colon_notation cfg
  unfolding load
  load-Loaded colon_notation cfg h = bind-ok _ _ _ h (λ listen e1 h1.
      bind-ok _ _ _ h1 (λ token e2 h2. bind-ok _ _ _ h2 (λ url e3 h3.
        bind-ok _ _ _ h3 (λ golden e4 h4. bind-ok _ _ _ h4 (λ kernel e5 h5.
          bind-ok _ _ _ h5 (λ text e6 h6. bind-ok _ _ _ h6 (λ base e7 h7.
            bind-ok _ _ _ h7 (λ cidr e8 h8. bind-ok _ _ _ h8 (λ beat e9 h9.
              bind-ok _ _ _ h9 (λ reserved e10 h10. bind-ok _ _ _ h10 (λ minutes e11 h11.
                bind-ok _ _ _ h11 (λ interval e12 h12. bind-ok _ _ _ h12 (λ port e13 h13.
                  bind-ok _ _ _ h13 (λ cap e14 h14.
                    subst (Loaded colon_notation) (ok_injective _ _ h14) (record {
                      listen_addr = required_string-IsPresent _ _ e1;
                      agent_token = required_string-IsPresent _ _ e2;
                      scheduler_url = required_string-IsPresent _ _ e3;
                      golden_image_path = required_string-IsPresent _ _ e4;
                      kernel_image_path = required_string-IsPresent _ _ e5;
                      wireguard_cidr = required_string-IsPresent _ _ e8;
                      tap_ip_base =
                          ap (parse_ip4 colon_notation) (sym (required_string-IsPresent _ _ e6).0)
                          ∙ tap_ip_base-parse colon_notation text base e7;
                      heartbeat_seconds = beat;
                      heartbeat_number = int_env-IsNumber _ _ _ e9;
                      heartbeat_interval = refl;
                      host_reserved_ram_mb = int_env-IsNumber _ _ _ e10;
                      default_ttl_minutes = int_env-IsNumber _ _ _ e11;
                      reaper_interval_seconds = int_env-IsNumber _ _ _ e12;
                      docker_port_base = int_env-IsNumber _ _ _ e13;
                      bandwidth_cap_mbit = int_env-IsNumber _ _ _ e14;
                    })))))))))))))))

  -- The variable is set, or is not set and has a default.
  abbrev pub IsReadable : Bytes → Type 0
  IsReadable name = (env name ≡ []) ⊎ ((n : ℤ) × (atoi (env name) ≡ some n))

  -- An environment that lacks nothing.
  pub record IsComplete (colon_notation : Bytes → Option Ipv4) : Type 0 where
    pub listen_addr : env (codes "LISTEN_ADDR") ≢ []
    pub agent_token : env (codes "AGENT_TOKEN") ≢ []
    pub scheduler_url : env (codes "SCHEDULER_URL") ≢ []
    pub golden_image_path : env (codes "GOLDEN_IMAGE_PATH") ≢ []
    pub kernel_image_path : env (codes "KERNEL_IMAGE_PATH") ≢ []
    pub tap_ip_base : env (codes "TAP_IP_BASE") ≢ []
    pub wireguard_cidr : env (codes "WIREGUARD_CIDR") ≢ []
    pub base : Ipv4
    pub base_read : parse_ip4 colon_notation (env (codes "TAP_IP_BASE")) ≡ some base
    pub heartbeat : IsReadable (codes "HEARTBEAT_INTERVAL_SECONDS")
    pub host_reserved : IsReadable (codes "HOST_RESERVED_RAM_MB")
    pub default_ttl : IsReadable (codes "DEFAULT_TTL_MINUTES")
    pub reaper_interval : IsReadable (codes "REAPER_INTERVAL_SECONDS")
    pub docker_port : IsReadable (codes "DOCKER_PORT_BASE")
    pub bandwidth_cap : IsReadable (codes "BANDWIDTH_CAP_MBIT")

  required_string_set : (name : Bytes) → env name ≢ [] → required_string env name ≡ ok (env name)
  unfolding required_string
  required_string_set name set = ground (arith, text_eq_iff (env name) [])

  int_env_readable :
      (name : Bytes) (default : ℤ) → IsReadable name → (n : ℤ) × (int_env env name default ≡ ok n)
  unfolding int_env
  int_env_readable name default (inl unset) = (default, ground (arith, text_eq_iff (env name) []))
  int_env_readable name default (inr (n, read)) = elim (Bool-cases (text_eq (env name) [])) [
    | inl unset ↦ (default, rw unset)
    | inr set ↦ (n, rw (set, read))
  ]

  tap_ip_base_read :
      (colon_notation : Bytes → Option Ipv4) (text : Bytes) (a : Ipv4)
      → parse_ip4 colon_notation text ≡ some a
      → tap_ip_base env colon_notation text ≡ ok a
  unfolding tap_ip_base
  tap_ip_base_read colon_notation text a h = rw (tap_ip_base, h)

  -- Load returns a configuration if every required variable is set, TAP_IP_BASE is an IPv4 address,
  -- and every number is not set or an int.
  pub load_complete :
      (colon_notation : Bytes → Option Ipv4)
      → IsComplete colon_notation
      → (cfg : Config) × (load env colon_notation ≡ ok cfg)
  unfolding load
  load_complete colon_notation c = bind-step _ (required_string_set _ c.listen_addr) (
      bind-step _ (required_string_set _ c.agent_token) (
        bind-step _ (required_string_set _ c.scheduler_url) (
          bind-step _ (required_string_set _ c.golden_image_path) (
            bind-step _ (required_string_set _ c.kernel_image_path) (
              bind-step _ (required_string_set _ c.tap_ip_base) (
                bind-step _ (tap_ip_base_read colon_notation _ c.base c.base_read) (
                  bind-step _ (required_string_set _ c.wireguard_cidr) (
                    bind-step _ (int_env_readable _ _ c.heartbeat).1 (
                      bind-step _ (int_env_readable _ _ c.host_reserved).1 (
                        bind-step _ (int_env_readable _ _ c.default_ttl).1 (
                          bind-step _ (int_env_readable _ _ c.reaper_interval).1 (
                            bind-step _ (int_env_readable _ _ c.docker_port).1 (
                              bind-step _ (int_env_readable _ _ c.bandwidth_cap).1
                                (_, refl))))))))))))))

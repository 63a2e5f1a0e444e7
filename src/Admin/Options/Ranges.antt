-- ===== src/Admin/Options/Ranges.antt =====
-- The common options that a command goes on with are in their ranges.
use nginx_auth_webauthn.Base.{
  ℕ, ◌≤◌, Bytes, length, ◌==◌, true, ◌&&◌, ◌||◌, Option, none, some, List, [], ◌∷◌, ◌≡◌, ◌↔◌, inl,
  inr, refl, subst, arith,
}
use nginx_auth_webauthn.Base.Rc.{
  Rc, ok, declined, error, bind_ok, error_guard, if_cases, ok-injective,
}
use nginx_auth_webauthn.Base.Word.{ℤ, pos, negsuc}
use nginx_auth_webauthn.Platform.{Nginx}
use nginx_auth_webauthn.Admin.Source.{Files}
use nginx_auth_webauthn.Admin.Options.{
  AdminConf, strtol, number_in, at_last_colon, host_port, CommonOpt, redis, redis_password,
  redis_db, redis_timeout, key_prefix, password_of, parse_common_opt, Event, own, common, help,
  unknown, Scanned, go, after_common, scan_options, in_range, magnitude,
}

-- The address is there with its port or not at all, and the numbers are in their ranges.
pub record IsInRange (conf : AdminConf) : Type 0 where
  pub port : conf.redis_port ≤ 65535
  pub db : conf.redis_db ≤ 65535
  pub timeout : conf.redis_timeout_ms ≤ 600000
  pub address : (length conf.redis_host ≡ 0) ↔ (conf.redis_port ≡ 0)

in_range_lem :
    (low high : ℕ) (v : ℤ) → in_range low high v ≡ true → (low ≤ magnitude v) × (magnitude v ≤ high)
in_range_lem low high (pos n) h = (ground arith, ground arith)
in_range_lem low high (negsuc n) h = cc

number_in-ranges :
    (low high : ℕ) (text : Bytes) (n : ℕ) → number_in low high text ≡ ok n → (low ≤ n) × (n ≤ high)
unfolding number_in
number_in-ranges low high text n h =
    elim (if_cases (length (strtol text).end == 0 && in_range low high (strtol text).value) _ _ h) [
      | inl (e, r) ↦
          subst (λ n. (low ≤ n) × (n ≤ high)) (ok-injective r)
            (in_range_lem low high (strtol text).value (ground (arith, e)))
      | inr (e, r) ↦ cc
    ]

host_port-IsInRange :
    (parts : Option (Bytes × Bytes)) (conf next : AdminConf)
    → IsInRange conf
    → host_port parts conf ≡ ok next
    → IsInRange next
unfolding host_port
host_port-IsInRange none conf next s h = cc
host_port-IsInRange (some (host, port)) conf next s h =
    let (g, h1) = error_guard (length host == 0 || length port == 0) _ h in
    let (n, e, h2) = bind_ok (number_in 1 65535 port) _ h1 in
    let (low, high) = number_in-ranges 1 65535 port n e in
    subst IsInRange (ok-injective h2) (record {
      port = high;
      db = s.db;
      timeout = s.timeout;
      address = (λ z. absurd (ground (arith, g, z)), λ z. absurd (omega (arith, low, z)));
    })

module _ (ng : Nginx) (files : Files) where
  parse_common_opt-IsInRange :
      (opt : CommonOpt) (arg : Bytes) (conf next : AdminConf)
      → IsInRange conf
      → parse_common_opt ng files opt arg conf ≡ ok next
      → IsInRange next
  unfolding parse_common_opt
  parse_common_opt-IsInRange redis arg conf next s h =
      host_port-IsInRange (at_last_colon arg) conf next s h
  parse_common_opt-IsInRange redis_password arg conf next s h =
      let (p, _, h1) = bind_ok (password_of ng files arg) _ h in
      subst IsInRange (ok-injective h1)
        (record { port = s.port; db = s.db; timeout = s.timeout; address = s.address })
  parse_common_opt-IsInRange redis_db arg conf next s h =
      let (n, e, h1) = bind_ok (number_in 0 65535 arg) _ h in
      subst IsInRange (ok-injective h1) (record {
        port = s.port;
        db = (number_in-ranges 0 65535 arg n e).1;
        timeout = s.timeout;
        address = s.address;
      })
  parse_common_opt-IsInRange redis_timeout arg conf next s h =
      let (n, e, h1) = bind_ok (number_in 0 600000 arg) _ h in
      subst IsInRange (ok-injective h1) (record {
        port = s.port;
        db = s.db;
        timeout = (number_in-ranges 0 600000 arg n e).1;
        address = s.address;
      })
  parse_common_opt-IsInRange key_prefix arg conf next s h =
      subst IsInRange (ok-injective h)
        (record { port = s.port; db = s.db; timeout = s.timeout; address = s.address })

  module _ {Opt Args : Type 0} (take_own : Opt → Bytes → Args → Args) where
    go-injective : {a b : AdminConf} {x y : Args} → go a x ≡ go b y → a ≡ b
    go-injective h = cc

    after_common_lem :
        (rest : AdminConf → Scanned Args) (r : Rc AdminConf) (next : AdminConf) (taken : Args)
        → ((mid : AdminConf) → r ≡ ok mid → rest mid ≡ go next taken → IsInRange next)
        → after_common rest r ≡ go next taken
        → IsInRange next
    unfolding after_common
    after_common_lem rest (ok mid) next taken k h = k mid refl h
    after_common_lem rest declined next taken k h = cc
    after_common_lem rest error next taken k h = cc

    -- Whatever options a command is given, the settings that it goes on with have a Redis port of at most 65535, which is 0 just where there
    -- is no host, a database of at most 65535, and a timeout of at most ten minutes.
    pub scan_options-IsInRange :
        (events : List (Event Opt)) (conf next : AdminConf) (args taken : Args)
        → IsInRange conf
        → scan_options ng files take_own events conf args ≡ go next taken
        → IsInRange next
    unfolding scan_options
    scan_options-IsInRange [] conf next args taken s h = subst IsInRange (go-injective h) s
    scan_options-IsInRange (own opt arg ∷ events) conf next args taken s h =
        scan_options-IsInRange events conf next (take_own opt arg args) taken s h
    scan_options-IsInRange (common opt arg ∷ events) conf next args taken s h =
        after_common_lem (λ c. scan_options ng files take_own events c args)
          (parse_common_opt ng files opt arg conf) next taken
          (λ mid e g.
            scan_options-IsInRange events mid next args taken
              (parse_common_opt-IsInRange opt arg conf mid s e) g)
          h
    scan_options-IsInRange (help ∷ events) conf next args taken s h = cc
    scan_options-IsInRange (unknown ∷ events) conf next args taken s h = cc

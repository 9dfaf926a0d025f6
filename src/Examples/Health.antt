-- ===== src/Examples/Health.antt =====
-- The theorems on health checks at concrete values.
use mesher.Prelude.{◌≡◌, ◌↔◌, ◌⊎◌, inl, refl, [], ◌∷◌, ◌++◌, none, some, true, false}
use mesher.Prelude.Text.{codes, text_eq, lookup, has_prefix}
use mesher.Prelude.Go.{ret}
use mesher.Health.{
  HealthCheck, connection, Libraries, atoi, digits, parse_uint, check_url, http_check,
  local_address, parsed, parse_config, running, down, Instance, run_checks,
}
use mesher.Health.Lifecycle.{run_checks-last}
use mesher.Health.Checks.{Answered, http_check_iff}

-- A service that answers 500, and a regexp library that takes every pattern.
abbrev libraries : Libraries
libraries = record {
  has_client = true;
  builds_request = λ url. true;
  answer = λ url. some (record { status_code = 500; body = some (codes "down") });
  compiles = λ pattern. true;
  matches = λ pattern body. text_eq pattern body;
  dial = λ address. true;
  close = λ address. true;
}

abbrev check : HealthCheck
check = record {
  port = codes "8080";
  protocol = codes "rest";
  uri = codes "/health";
  interval = [];
  matching = some (record { status = codes "200"; body = [] });
}

http_check_iff_example : (http_check libraries check (codes "h:1") ≡ ret none) ↔ (
    (libraries.has_client ≡ false)
    ⊎ (libraries.builds_request (check_url check (codes "h:1")) ≡ false)
    ⊎ Answered libraries check (codes "h:1"))
http_check_iff_example = http_check_iff libraries check (codes "h:1")

check-parsed :
    parse_config libraries check
    ≡ parsed (local_address (codes "8080")) (some (http_check libraries))
unfolding parse_config lookup has_prefix atoi parse_uint digits text_eq
check-parsed = refl

abbrev instance_running : Instance
instance_running = record { local_status = running; registered_status = running }

-- A failure that the registry did not take, a success, and then a failure.
run_checks-last_example :
    ((run_checks
        (((some connection, some false) ∷ (none, some true) ∷ [])
          ++ ((some connection, some true) ∷ []))
        instance_running).local_status
      ≡ down)
    × ((run_checks
          (((some connection, some false) ∷ (none, some true) ∷ [])
            ++ ((some connection, some true) ∷ []))
          instance_running).registered_status
        ≡ down)
run_checks-last_example =
    run_checks-last ((some connection, some false) ∷ (none, some true) ∷ []) (some connection)
      instance_running (refl, inl refl)

-- ===== src/Health.antt =====
-- health/health.go and health/l7check.go: the checks of the local service's health, and the status
-- that the instance has in the registry. The HTTP client, the dialer, the registry and Go's regexp are
-- parameters.
pub mod Lifecycle
pub mod Checks
use mesher.Prelude.{
  ℕ, ◌+◌, ◌-◌, ◌*◌, ◌^◌, List, [], ◌∷◌, ◌++◌, Option, none, some, Bool, true, false, ◌&&◌, ◌||◌,
  leb, ltb, ◌==◌, if◌then◌else◌,
}
use mesher.Prelude.Int.{ℤ, pos, negsuc}
use mesher.Prelude.Text.{Text, Table, codes, text_eq, is_empty, has_prefix, lookup}
use mesher.Prelude.Go.{Go, ret, panic}

pub record Match : Type 0 where
  pub status : Text
  pub body : Text

pub record HealthCheck : Type 0 where
  pub port : Text
  pub protocol : Text
  pub uri : Text
  pub interval : Text
  pub matching : Option Match

-- The errors the code builds itself, and those it passes on.
pub data HealthError : Type 0 where
  err_port_empty : HealthError
  err_invalid_uri : HealthError
  no_checker : Text → HealthError
  bad_status : HealthError
  bad_body : HealthError
  status_is_not : Text → HealthError
  body_does_not_match : Text → HealthError
  connection : HealthError
  unread_body : HealthError

-- `strconv.ParseUint` of decimal digits: the value, a byte that is no digit, or more than 64 bits.
pub data Digits : Type 0 where
  value : ℕ → Digits
  syntax : Digits
  range : Digits

unfoldable pub digits : ℕ → Text → Digits
digits n [] = value n
digits n (c ∷ s) =
    let m = n * 10 + (c - 48) in
    let rest = digits m s in
    if leb 48 c && leb c 57 then (if ltb m (2 ^ 64) then rest else range) else syntax

unfoldable pub parse_uint : Text → Digits
unfolding digits
parse_uint [] = syntax
parse_uint (c ∷ s) = digits 0 (c ∷ s)

-- The number and whether there was no error.
abbrev pub as_nonneg : Digits → ℤ × Bool
as_nonneg (value n) = if ltb n (2 ^ 63) then (pos n, true) else (pos (2 ^ 63 - 1), false)
as_nonneg syntax = (pos 0, false)
as_nonneg range = (pos (2 ^ 63 - 1), false)

abbrev pub as_negative : Digits → ℤ × Bool
as_negative (value n) =
    if n == 0
    then (pos 0, true)
    else (if leb n (2 ^ 63) then (negsuc (n - 1), true) else (negsuc (2 ^ 63 - 1), false))
as_negative syntax = (pos 0, false)
as_negative range = (negsuc (2 ^ 63 - 1), false)

-- `strconv.Atoi` with an int of 64 bits
unfoldable pub atoi : Text → ℤ × Bool
unfolding parse_uint
atoi [] = (pos 0, false)
atoi (c ∷ s) =
    if c == 43
    then as_nonneg (parse_uint s)
    else (if c == 45 then as_negative (parse_uint s) else as_nonneg (parse_uint (c ∷ s)))

abbrev pub local_address : Text → Text
local_address port = codes "127.0.0.1:" ++ port

pub record Response : Type 0 where
  pub status_code : ℕ
  pub body : Option Text

-- What the libraries do: the client that `GetURLClient` gives, the request that `NewRequest` builds,
-- the answer to it, and the regular expressions.
pub record Libraries : Type 0 where
  pub has_client : Bool
  pub builds_request : Text → Bool
  pub answer : Text → Option Response
  pub compiles : Text → Bool
  pub matches : Text → Text → Bool
  pub dial : Text → Bool
  pub close : Text → Bool

abbrev pub L7Check : Type 0
L7Check = HealthCheck → Text → Go (Option HealthError)

abbrev pub equals_code : ℤ → ℕ → Bool
equals_code (pos n) code = code == n
equals_code (negsuc n) code = false

abbrev pub check_url : HealthCheck → Text → Text
check_url check address =
    let url = codes "http://" ++ address in if is_empty check.uri then url else url ++ check.uri

module _ (lib : Libraries) where
  -- `none` is the nil error. A pattern that does not compile makes `MustCompile` panic.
  abbrev pub check_body : Text → Text → Go (Option HealthError)
  check_body pattern body =
      if is_empty pattern
      then ret none
      else (if lib.compiles pattern
          then (if lib.matches pattern body
              then ret none
              else ret (some (body_does_not_match pattern)))
          else panic)

  abbrev pub check_match : Option Match → ℕ → Text → Go (Option HealthError)
  check_match none code body = ret none
  check_match (some m) code body =
      if is_empty m.status
      then check_body m.body body
      else (if equals_code (atoi m.status).0 code
          then check_body m.body body
          else ret (some (status_is_not m.status)))

  abbrev pub check_read : Option Match → ℕ → Option Text → Go (Option HealthError)
  check_read m code none = ret (some unread_body)
  check_read m code (some b) = check_match m code b

  abbrev pub check_response : Option Match → Option Response → Go (Option HealthError)
  check_response m none = ret (some connection)
  check_response m (some r) = check_read m r.status_code r.body

  -- `HTTPCheck`
  unfoldable pub http_check : L7Check
  http_check check address =
      let url = check_url check address in
      if lib.has_client
      then (if lib.builds_request url
          then check_response check.matching (lib.answer url)
          else ret none)
      else ret none

  unfoldable pub l4_check : Text → Option HealthError
  l4_check address =
      if lib.dial address
      then (if lib.close address then none else some connection)
      else some connection

  unfoldable pub check_service : HealthCheck → Option L7Check → Text → Go (Option HealthError)
  check_service c (some check) address = check c address
  check_service c none address = ret (l4_check address)

  -- The l7 checkers after `init`.
  abbrev pub l7_checks : Table L7Check
  l7_checks = (codes "rest", http_check) ∷ []

  abbrev pub parse_match : Option Match → Option HealthError
  parse_match none = none
  parse_match (some m) =
      let body_error =
        if is_empty m.body then none else (if lib.compiles m.body then none else some bad_body) in
      if is_empty m.status
      then body_error
      else (if (atoi m.status).1 then body_error else some bad_status)

  pub data Parsed : Type 0 where
    parsed : Text → Option L7Check → Parsed
    refused : HealthError → Parsed

  abbrev pub parse_matching : Text → Option L7Check → Option HealthError → Parsed
  parse_matching port check none = parsed (local_address port) check
  parse_matching port check (some e) = refused e

  abbrev pub parse_rest : HealthCheck → Option L7Check → Parsed
  parse_rest c check =
      if is_empty c.uri || has_prefix c.uri (codes "/")
      then parse_matching c.port check (parse_match c.matching)
      else refused err_invalid_uri

  abbrev pub parse_protocol : HealthCheck → Option L7Check → Parsed
  parse_protocol c none = refused (no_checker c.protocol)
  parse_protocol c (some check) = parse_rest c (some check)

  -- `ParseConfig`
  unfoldable pub parse_config : HealthCheck → Parsed
  parse_config c =
      if is_empty c.port
      then refused err_port_empty
      else (if is_empty c.protocol
          then parse_rest c none
          else parse_protocol c (lookup c.protocol l7_checks))

-- The status in the process and the one in the registry.
pub data Status : Type 0 where
  running : Status
  down : Status
  other_status : Text → Status

pub record Instance : Type 0 where
  pub local_status : Status
  pub registered_status : Status

-- `ChangeStatus`, with whether the registry takes the update.
unfoldable pub change_status : Bool → Status → Instance → Instance
change_status true s i = record i { local_status = s; registered_status = s }
change_status false s i = i

abbrev pub after_failure : Bool → Status → Instance → Instance
after_failure accepts running i = change_status accepts down i
after_failure accepts down i = i
after_failure accepts (other_status t) i = i

abbrev pub after_success : Bool → Status → Instance → Instance
after_success accepts down i = change_status accepts running i
after_success accepts running i = i
after_success accepts (other_status t) i = i

-- `UpdateInstanceStatus`; none is a nil registrator, and the error is nil where the check passed.
unfoldable pub update_instance_status : Option Bool → Option HealthError → Instance → Instance
update_instance_status none err i = i
update_instance_status (some accepts) (some e) i = after_failure accepts i.local_status i
update_instance_status (some accepts) none i = after_success accepts i.local_status i

-- The ticks of `runCheckers`: what each check returned and whether the registry took an update.
unfoldable pub run_checks : List (Option HealthError × Option Bool) → Instance → Instance
unfolding update_instance_status
run_checks [] i = i
run_checks ((err, registry) ∷ ts) i = run_checks ts (update_instance_status registry err i)

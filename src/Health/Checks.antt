-- ===== src/Health/Checks.antt =====
-- What the checks report, and how they go with the configurations that `ParseConfig` takes.
use mesher.Prelude.{
  subst, ap, sym, ◌∙◌, ℕ, ◌≡◌, ◌≢◌, ◌↔◌, ◌⊎◌, inl, inr, refl, [], ◌∷◌, Option, none, some, true,
  false, arith, if◌then◌else◌, Bool-cases,
}
use mesher.Prelude.Int.{ℤ, pos, negsuc}
use mesher.Prelude.Text.{Text, codes, text_eq, is_empty, lookup}
use mesher.Prelude.Go.{Go, ret, panic}
use mesher.Health.{
  Match, HealthCheck, HealthError, Response, Libraries, L7Check, atoi, equals_code, check_body,
  check_match, check_read, check_response, parse_matching, check_url, http_check, check_service,
  parse_match, parsed, parse_rest, parse_config, local_address, status_is_not,
}

some-inj : {A : Type 0} {a b : A} → some a ≡ some b → a ≡ b
some-inj e = cc

equals_code_iff : (n : ℤ) (code : ℕ) → (equals_code n code ≡ true) ↔ (n ≡ pos code)
equals_code_iff (pos n) code = ground arith
equals_code_iff (negsuc n) code = (λ e. cc, λ e. cc)

module _ (lib : Libraries) where
  -- What a match asks for: the status and a pattern in the body, each only where it is given.
  abbrev pub Accepts : Option Match → ℕ → Text → Type 0
  Accepts none code body = Unit {0}
  Accepts (some m) code body =
      (m.status ≢ [] → (atoi m.status).0 ≡ pos code)
      × (m.body ≢ [] → (lib.compiles m.body ≡ true) × (lib.matches m.body body ≡ true))

  abbrev pub Answered : HealthCheck → Text → Type 0
  Answered c address =
      (r : Response) × (b : Text) × (lib.answer (check_url c address) ≡ some r)
      × (r.body ≡ some b)
      × Accepts c.matching r.status_code b

  check_body_iff :
      (pattern body : Text)
      → (check_body lib pattern body ≡ ret none)
        ↔ (pattern ≢ [] → (lib.compiles pattern ≡ true) × (lib.matches pattern body ≡ true))
  check_body_iff [] body = (λ e n. absurd (n refl), λ h. refl)
  check_body_iff (c ∷ s) body = (λ e n. ground arith, λ h. let k = h (λ e. cc) in ground (arith, k))

  -- The test of the status in front of the test of the body.
  status_part_iff :
      (status : Text) (code : ℕ) (rest : Go (Option HealthError)) (e : HealthError)
      → ((if is_empty status
            then rest
            else (if equals_code (atoi status).0 code then rest else ret (some e)))
          ≡ ret none)
        ↔ ((status ≢ [] → (atoi status).0 ≡ pos code) × (rest ≡ ret none))
  status_part_iff [] code rest e = (λ h. (λ n. absurd (n refl), h), λ (n, h). h)
  status_part_iff (c ∷ s) code rest e = (
    λ h. (λ n. ground (arith, equals_code_iff (atoi (c ∷ s)).0 code, h), ground arith),
    λ (n, h). let k = n (λ x. cc) in ground (arith, k, equals_code_iff (atoi (c ∷ s)).0 code),
  )

  check_match_iff :
      (m : Option Match) (code : ℕ) (body : Text)
      → (check_match lib m code body ≡ ret none) ↔ Accepts m code body
  check_match_iff none code body = (λ e. tt, λ e. refl)
  check_match_iff (some m) code body =
      let status =
        status_part_iff m.status code (check_body lib m.body body) (status_is_not m.status) in
      let text = check_body_iff m.body body in
      (λ e. let (a, b) = status.0 e in (a, text.0 b), λ (a, b). status.1 (a, text.1 b))

  check_read_iff :
      (m : Option Match) (code : ℕ) (body : Option Text)
      → (check_read lib m code body ≡ ret none) ↔ ((b : Text) × (body ≡ some b) × Accepts m code b)
  check_read_iff m code none = (λ e. cc, λ (b, e, a). cc)
  check_read_iff m code (some b) = (
    λ e. (b, refl, (check_match_iff m code b).0 e),
    λ (d, e, a). (check_match_iff m code b).1 (subst (Accepts m code) (some-inj (sym e)) a),
  )

  check_response_iff :
      (m : Option Match) (o : Option Response)
      → (check_response lib m o ≡ ret none) ↔ (
          (r : Response) × (b : Text) × (o ≡ some r)
          × (r.body ≡ some b)
          × Accepts m r.status_code b)
  check_response_iff m none = (λ e. cc, λ (r, b, e, f, a). cc)
  check_response_iff m (some r) = (
    λ e. let (b, f, a) = (check_read_iff m r.status_code r.body).0 e in (r, b, refl, f, a),
    λ (q, b, e, f, a).
        let q=r : q ≡ r = some-inj (sym e) in
        subst (λ x. check_read lib m x.status_code x.body ≡ ret none) q=r
          ((check_read_iff m q.status_code q.body).1 (b, f, a)),
  )

  -- The HTTP check reports no error exactly when no client or no request can be had, or when the
  -- answer came, its body was read, and it is what the configured match asks for; without a match
  -- every status is.
  pub http_check_iff :
      (c : HealthCheck) (address : Text)
      → (http_check lib c address ≡ ret none) ↔ (
          (lib.has_client ≡ false)
          ⊎ (lib.builds_request (check_url c address) ≡ false)
          ⊎ Answered c address)
  unfolding http_check
  http_check_iff c address = elim (Bool-cases lib.has_client) [
    | inr lost ↦ (λ e. inl lost, λ h. ground (arith, lost))
    | inl client ↦ elim (Bool-cases (lib.builds_request (check_url c address))) [
      | inr lost ↦ (λ e. inr (inl lost), λ h. ground (arith, client, lost))
      | inl request ↦
          let step : http_check lib c address
              ≡ check_response lib c.matching (lib.answer (check_url c address)) =
            ground (arith, client, request) in
          let body = check_response_iff c.matching (lib.answer (check_url c address)) in
          (
            λ e. inr (inr (body.0 (sym step ∙ e))),
            λ h. elim h [
              | inl lost ↦ cc
              | inr (inl lost) ↦ cc
              | inr (inr answered) ↦ step ∙ body.1 answered
            ],
          )
    ]
  ]

  check_body-panic :
      (pattern body : Text)
      → check_body lib pattern body ≡ panic
      → (is_empty pattern ≡ false) × (lib.compiles pattern ≡ false)
  check_body-panic [] body e = cc
  check_body-panic (c ∷ s) body e = (refl, ground arith)

  parse_match-check_match :
      (m : Option Match) (code : ℕ) (body : Text)
      → parse_match lib m ≡ none
      → check_match lib m code body ≢ panic
  parse_match-check_match none code body p e = cc
  parse_match-check_match (some m) code body p e =
      let b : check_body lib m.body body ≡ panic = ground (arith, e) in
      let (some_body, no_regexp) = check_body-panic m.body body b in
      ground (arith, p, some_body, no_regexp)

  parse_match-check_read :
      (m : Option Match) (code : ℕ) (body : Option Text)
      → parse_match lib m ≡ none
      → check_read lib m code body ≢ panic
  parse_match-check_read m code none p e = cc
  parse_match-check_read m code (some b) p e = parse_match-check_match m code b p e

  parse_matching-parsed :
      (port : Text) (check : Option L7Check) (a : Text) (k : Option L7Check)
      (o : Option HealthError)
      → parse_matching lib port check o ≡ parsed a k
      → (a ≡ local_address port) × (o ≡ none) × (k ≡ check)
  parse_matching-parsed port check a k none e = (cc, refl, cc)
  parse_matching-parsed port check a k (some x) e = cc

  parse_match-check_response :
      (m : Option Match) (o : Option Response)
      → parse_match lib m ≡ none
      → check_response lib m o ≢ panic
  parse_match-check_response m none p e = cc
  parse_match-check_response m (some r) p e = parse_match-check_read m r.status_code r.body p e

  parse_match-http_check :
      (c : HealthCheck) (address : Text)
      → parse_match lib c.matching ≡ none
      → http_check lib c address ≢ panic
  unfolding http_check
  parse_match-http_check c address p e =
      parse_match-check_response c.matching (lib.answer (check_url c address)) p (ground (arith, e))

  parse_rest-parsed :
      (c : HealthCheck) (check : Option L7Check) (a : Text) (k : Option L7Check)
      → parse_rest lib c check ≡ parsed a k
      → (a ≡ local_address c.port) × (parse_match lib c.matching ≡ none) × (k ≡ check)
  parse_rest-parsed c check a k e =
      parse_matching-parsed c.port check a k (parse_match lib c.matching) (ground (arith, e))

  abbrev Checkable : HealthCheck → Text → Option L7Check → Type 0
  Checkable c a k =
      (a ≡ local_address c.port) × ((address : Text) → check_service lib c k address ≢ panic)

  no_checker-Checkable :
      (c : HealthCheck) (a : Text) (k : Option L7Check)
      → parse_rest lib c none ≡ parsed a k
      → Checkable c a k
  unfolding check_service
  no_checker-Checkable c a k e =
      let (at, p, same) = parse_rest-parsed c none a k e in
      (at, λ address f. cc (ap (λ x. check_service lib c x address) (sym same) ∙ f))

  rest-Checkable :
      (c : HealthCheck) (a : Text) (k : Option L7Check)
      → parse_rest lib c (some (http_check lib)) ≡ parsed a k
      → Checkable c a k
  unfolding check_service
  rest-Checkable c a k e =
      let (at, p, same) = parse_rest-parsed c (some (http_check lib)) a k e in
      (
        at,
        λ address f.
            parse_match-http_check c address p
              (ap (λ x. check_service lib c x address) (sym same) ∙ f),
      )

  -- `ParseConfig` gives the local address of the port, and a configuration that it takes can be checked at
  -- any address with the checker that it gives: no pattern in it makes the check panic.
  parse_config-check_service :
      (c : HealthCheck) (a : Text) (k : Option L7Check)
      → parse_config lib c ≡ parsed a k
      → (a ≡ local_address c.port) × ((address : Text) → check_service lib c k address ≢ panic)
  unfolding parse_config lookup
  parse_config-check_service c a k e = elim (Bool-cases (is_empty c.port)) [
    | inl no_port ↦ absurd (ground (arith, e, no_port))
    | inr port ↦ elim (Bool-cases (is_empty c.protocol)) [
      | inl l4 ↦ no_checker-Checkable c a k (ground (arith, e, port, l4))
      | inr l7 ↦ elim (Bool-cases (text_eq (codes "rest") c.protocol)) [
        | inl found ↦ rest-Checkable c a k (ground (arith, e, port, l7, found))
        | inr missing ↦ absurd (ground (arith, e, port, l7, missing))
      ]
    ]
  ]

-- ===== src/Http/Reach.antt =====
-- src/bin/r2r-mcp-remote.rs: the requests that reach the tool server. A service that keeps what it is
-- given stands behind the middleware; what it holds is what the middleware forwarded.
use Prim.Native.String.{◌++◌ as ◌<>◌}
use r2r_jev.Prelude.{
  ℕ, ◌+◌, ◌*◌, ◌^◌, ◌≤◌, ◌<◌, ◌≡◌, refl, subst, ap, ◌∙◌, String, List, [], ◌∷◌, Bool, true, false,
  ok, some, arith, length, Bool-cases, inl, inr, if◌then◌else◌,
}
use r2r_jev.Http.{
  Instant, RateWindow, Mutex, free, RemoteHttpSecurity, new, consume_rate_limit, authenticate,
  Response, Request, security_middleware, limited,
}
use r2r_jev.Http.Equality.{authenticate_iff}
use r2r_jev.Http.Forward.{serve, serve-accepted}
use r2r_jev.Http.Limit.{consume_all, AreWithin, consume_all-after_new, new-ok}

module _ {B : Type 0} where
  abbrev pub keep : Response → Request B → List (Request B) → Response × List (Request B)
  keep answer request received = (answer, request ∷ received)

  -- The instants at which authenticated requests take the lock.
  abbrev pub instants : String → List (Instant × Request B) → List Instant
  instants bearer_token [] = []
  instants bearer_token ((now, request) ∷ rest) =
      let others = instants bearer_token rest in
      if authenticate bearer_token request.authorization then now ∷ others else others

  -- Every request carries the bearer token.
  abbrev pub HaveToken : String → List (Request B) → Type 0
  HaveToken bearer_token [] = Unit {0}
  HaveToken bearer_token (request ∷ rest) =
      (request.authorization ≡ some ("Bearer " <> bearer_token)) × HaveToken bearer_token rest

abbrev secured : String → ℕ → Mutex RateWindow → RemoteHttpSecurity
secured bearer_token limit window = record {
  bearer_token = bearer_token;
  requests_per_minute = limit;
  window = window;
}

module _ {B : Type 0} (answer : Response) where
  abbrev kept_by : Request B → List (Request B) → Bool → List (Request B)
  kept_by request log let_through = if let_through then request ∷ log else log

  limited-keep :
      (token : String) (limit : ℕ) (window : Mutex RateWindow) (request : Request B)
      (log : List (Request B)) (consumed : Bool × Mutex RateWindow)
      → (limited (keep answer) (secured token limit window) request log consumed).1
        ≡ (secured token limit consumed.1, kept_by request log consumed.0)
  limited-keep token limit window request log (false, after) = refl
  limited-keep token limit window request log (true, after) = refl

  serve-refused :
      (now : Instant) (request : Request B) (rest : List (Instant × Request B)) (token : String)
      (limit : ℕ) (window : Mutex RateWindow) (log : List (Request B))
      → authenticate token request.authorization ≡ false
      → serve (keep answer) ((now, request) ∷ rest) (secured token limit window) log
        ≡ serve (keep answer) rest (secured token limit window) log
  unfolding security_middleware
  serve-refused now request rest token limit window log refused = rw refused refl

  serve-kept :
      (now : Instant) (request : Request B) (rest : List (Instant × Request B)) (token : String)
      (limit : ℕ) (window : Mutex RateWindow) (log : List (Request B))
      → authenticate token request.authorization ≡ true
      → let consumed = consume_rate_limit limit now window in
        serve (keep answer) ((now, request) ∷ rest) (secured token limit window) log
        ≡ serve (keep answer) rest (secured token limit consumed.1) (kept_by request log consumed.0)
  serve-kept now request rest token limit window log accepted =
      let consumed = consume_rate_limit limit now window in
      serve-accepted (keep answer) now request rest (secured token limit window) log accepted
      ∙ ap
          (λ (after : RemoteHttpSecurity × List (Request B)).
            serve (keep answer) rest after.0 after.1)
          (limited-keep token limit window request log consumed)

  -- What the sequence leaves: the window of the instants that count, and as many requests.
  -- What the sequence leaves in the window.
  serve-window :
      (requests : List (Instant × Request B)) (token : String) (limit : ℕ)
      (window : Mutex RateWindow) (log : List (Request B))
      → (serve (keep answer) requests (secured token limit window) log).0
        ≡ secured token limit (consume_all limit (instants token requests) window).1
  serve-window [] token limit window log = refl
  serve-window ((now, request) ∷ rest) token limit window log =
      let consumed = consume_rate_limit limit now window in
      elim (Bool-cases (authenticate token request.authorization)) [
        | inl accepted ↦
            rw (serve-kept now request rest token limit window log accepted, accepted)
              (serve-window rest token limit consumed.1 (kept_by request log consumed.0))
        | inr refused ↦
            rw (serve-refused now request rest token limit window log refused, refused)
              (serve-window rest token limit window log)
      ]

  -- What the sequence forwards.
  serve-count :
      (requests : List (Instant × Request B)) (token : String) (limit : ℕ)
      (window : Mutex RateWindow) (log : List (Request B))
      → length (serve (keep answer) requests (secured token limit window) log).1
        ≡ (consume_all limit (instants token requests) window).0 + length log
  serve-count [] token limit window log = omega arith
  serve-count ((now, request) ∷ rest) token limit window log =
      let consumed = consume_rate_limit limit now window in
      elim (Bool-cases (authenticate token request.authorization)) [
        | inl accepted ↦
            rw (serve-kept now request rest token limit window log accepted, accepted)
              (ground
                (arith, serve-count rest token limit consumed.1 (kept_by request log consumed.0)))
        | inr refused ↦
            rw (serve-refused now request rest token limit window log refused, refused)
              (serve-count rest token limit window log)
      ]

  serve-HaveToken :
      (requests : List (Instant × Request B)) (token : String) (limit : ℕ)
      (window : Mutex RateWindow) (log : List (Request B))
      → HaveToken token log
      → HaveToken token (serve (keep answer) requests (secured token limit window) log).1
  serve-HaveToken [] token limit window log h = h
  serve-HaveToken ((now, request) ∷ rest) token limit window log h =
      let consumed = consume_rate_limit limit now window in
      elim (Bool-cases (authenticate token request.authorization)) [
        | inl accepted ↦ rw (serve-kept now request rest token limit window log accepted) (
            serve-HaveToken rest token limit consumed.1 (kept_by request log consumed.0) (
              kept_by-HaveToken consumed.0
                ((authenticate_iff token request.authorization).0 accepted)))
        | inr refused ↦
            rw (serve-refused now request rest token limit window log refused)
              (serve-HaveToken rest token limit window log h)
      ]
    where
      kept_by-HaveToken :
          (let_through : Bool)
          → request.authorization ≡ some ("Bearer " <> token)
          → HaveToken token (kept_by request log let_through)
      kept_by-HaveToken true e = (e, h)
      kept_by-HaveToken false e = h

-- In any one minute the tool server receives at most twice the configured number of requests,
-- whatever came before and however many arrive, and each one it receives carries the configured
-- token. Requests that arrive without it are not counted.
pub serve-bounded :
    {B : Type 0} (answer : Response) (start : Instant) (bearer_token : String) (limit : ℕ)
    {security : RemoteHttpSecurity}
    → new start bearer_token limit ≡ ok security
    → limit < 2 ^ 64
    → (before during : List (Instant × Request B)) (from : Instant)
    → AreWithin from (instants bearer_token during)
    → let received = (serve (keep answer) during (serve (keep answer) before security []).0 []).1 in
      (length received ≤ 2 * limit) × HaveToken bearer_token received
serve-bounded answer start bearer_token limit {security} e w before during from r =
    rw (created, serve-window answer before bearer_token limit window [])
      ((
        omega (arith, serve-count answer during bearer_token limit after [], bounded),
        serve-HaveToken answer during bearer_token limit after [] tt,
      ))
  where
    window : Mutex RateWindow
    window = free (record { started_at = start; count = 0 })

    created : security ≡ secured bearer_token limit window
    created = (new-ok start bearer_token limit e).2

    after : Mutex RateWindow
    after = (consume_all limit (instants bearer_token before) window).1

    bounded : (consume_all limit (instants bearer_token during) after).0 ≤ 2 * limit
    bounded =
        subst
          (λ (s : RemoteHttpSecurity).
            (consume_all limit (instants bearer_token during)
              (consume_all limit (instants bearer_token before) s.window).1).0
            ≤ 2 * limit)
          created
          (consume_all-after_new start bearer_token limit e w (instants bearer_token before)
            (instants bearer_token during) from r)

-- ===== src/Http/Forward.antt =====
-- src/bin/r2r-mcp-remote.rs: what passes the middleware, over any sequence of requests.
use r2r_jev.Prelude.{
  ◌≡◌, refl, sym, ap, ◌∙◌, String, List, [], ◌∷◌, Bool, true, false, filter, Bool-cases, inl, inr,
}
use r2r_jev.Http.{
  Instant, RateWindow, Mutex, RemoteHttpSecurity, consume_rate_limit, authenticate, Response,
  Request, security_middleware, limited,
}

module _ {B W : Type 0} (next : Request B → W → Response × W) where
  -- The requests in the order in which they take the lock, each with the instant at which it does.
  abbrev pub serve : List (Instant × Request B) → RemoteHttpSecurity → W → RemoteHttpSecurity × W
  serve [] security state = (security, state)
  serve ((now, request) ∷ rest) security state =
      let after = (security_middleware next now security request state).1 in
      serve rest after.0 after.1

abbrev pub has_token : {B : Type 0} → String → Instant × Request B → Bool
has_token bearer_token (now, request) = authenticate bearer_token request.authorization

abbrev with_window : RemoteHttpSecurity → Mutex RateWindow → RemoteHttpSecurity
with_window security window = record security { window = window }

module _ {B W : Type 0} (next : Request B → W → Response × W) where
  limited-bearer_token :
      (security : RemoteHttpSecurity) (request : Request B) (state : W)
      (consumed : Bool × Mutex RateWindow)
      → (limited next security request state consumed).1.0.bearer_token ≡ security.bearer_token
  limited-bearer_token security request state (false, window) = refl
  limited-bearer_token security request state (true, window) = refl

  pub serve-accepted :
      (now : Instant) (request : Request B) (rest : List (Instant × Request B))
      (security : RemoteHttpSecurity) (state : W)
      → authenticate security.bearer_token request.authorization ≡ true
      → let after =
          (limited next security request state
            (consume_rate_limit security.requests_per_minute now security.window)).1 in
        serve next ((now, request) ∷ rest) security state ≡ serve next rest after.0 after.1
  unfolding security_middleware
  serve-accepted now request rest security state accepted = rw accepted refl

  -- A request without the token leaves no trace: a sequence of requests leaves the rate window and
  -- the tool server exactly as its authenticated requests alone would.
  pub serve-authenticated :
      (requests : List (Instant × Request B)) (security : RemoteHttpSecurity) (state : W)
      → serve next requests security state
        ≡ serve next (filter (has_token security.bearer_token) requests) security state
  unfolding security_middleware
  serve-authenticated [] security state = refl
  serve-authenticated ((now, request) ∷ rest) security state =
      let consumed = consume_rate_limit security.requests_per_minute now security.window in
      let after = (limited next security request state consumed).1 in
      elim (Bool-cases (authenticate security.bearer_token request.authorization)) [
        | inl accepted ↦
            serve-accepted now request rest security state accepted
            ∙ (serve-authenticated rest after.0 after.1
                ∙ (ap (λ token. serve next (filter (has_token token) rest) after.0 after.1)
                      (limited-bearer_token security request state consumed)
                    ∙ (sym (
                          serve-accepted now request (filter (has_token security.bearer_token) rest)
                            security state accepted)
                        ∙ ap (λ one. serve next one security state) (kept accepted))))
        | inr refused ↦ rw refused (serve-authenticated rest security state)
      ]
    where
      kept :
          authenticate security.bearer_token request.authorization ≡ true
          → (now, request) ∷ filter (has_token security.bearer_token) rest
            ≡ filter (has_token security.bearer_token) ((now, request) ∷ rest)
      kept accepted = rw accepted refl

-- ===== src/Http.antt =====
-- src/bin/r2r-mcp-remote.rs: the HTTP service in front of the principal's server. A request passes a
-- bearer token check, then a limit on requests per minute, before the tool server sees it.
pub mod Environment
pub mod Equality
pub mod Forward
pub mod Limit
pub mod Reach
pub mod Recovers
pub mod Start
use Prim.Native.Char.{code}
use Prim.Native.Nat.{bit_or, bit_xor}
use Prim.Native.String.{len}
use r2r_jev.Prelude.{
  ℕ, ◌+◌, ◌-◌, ◌*◌, ◌/◌, ◌%◌, String, List, [], ◌∷◌, ◌++◌, Option, none, some, Bool, true, false,
  Result, ok, err, not, ltb, leb, nat_eq, if◌then◌else◌, inc64, length,
}
use r2r_jev.Prelude.Assoc.{text_key, Assoc, insert}

-- An `Instant`, in nanoseconds of the monotonic clock.
abbrev pub Instant : Type 0
Instant = ℕ

-- `Duration::from_secs(60)`
abbrev pub minute : ℕ
minute = 60000000000

pub record RateWindow : Type 0 where
  pub started_at : Instant
  pub count : ℕ

-- A thread that panics while it holds the lock leaves it poisoned.
pub data Mutex (A : Type 0) : Type 0 where
  free : (value : A) → Mutex A
  poisoned : (value : A) → Mutex A

pub record RemoteHttpSecurity : Type 0 where
  pub bearer_token : String
  pub requests_per_minute : ℕ
  pub window : Mutex RateWindow

unfoldable pub new : Instant → String → ℕ → Result RemoteHttpSecurity
new now bearer_token requests_per_minute =
    if ltb (len bearer_token) 32
    then err "R2R_REMOTE_BEARER_TOKEN must contain at least 32 bytes"
    else if nat_eq requests_per_minute 0
    then err "R2R_REMOTE_RATE_LIMIT_PER_MINUTE must be greater than zero"
    else ok (record {
      bearer_token = bearer_token;
      requests_per_minute = requests_per_minute;
      window = free (record { started_at = now; count = 0 });
    })

-- The bytes of a character in UTF-8.
abbrev pub encode : ℕ → List ℕ
encode c =
    if ltb c 128
    then c ∷ []
    else if ltb c 2048
    then (192 + c / 64) ∷ (128 + c % 64) ∷ []
    else if ltb c 65536
    then (224 + c / 4096) ∷ (128 + c / 64 % 64) ∷ (128 + c % 64) ∷ []
    else (240 + c / 262144) ∷ (128 + c / 4096 % 64) ∷ (128 + c / 64 % 64) ∷ (128 + c % 64) ∷ []

-- `str::as_bytes`
abbrev pub as_bytes : String → List ℕ
as_bytes String.[] = []
as_bytes (String.◌∷◌ c s) = encode (code c) ++ as_bytes s

-- `str::strip_prefix`
abbrev pub strip_prefix : String → String → Option String
strip_prefix s String.[] = some s
strip_prefix String.[] (String.◌∷◌ d t) = none
strip_prefix (String.◌∷◌ c s) (String.◌∷◌ d t) =
    let rest = strip_prefix s t in if nat_eq (code c) (code d) then rest else none

-- The loop of `constant_time_eq`, over the zipped bytes.
abbrev pub difference_of : ℕ → List ℕ → List ℕ → ℕ
difference_of difference [] right = difference
difference_of difference (l ∷ left) [] = difference
difference_of difference (l ∷ left) (r ∷ right) =
    difference_of (bit_or difference (bit_xor l r)) left right

unfoldable pub constant_time_eq : List ℕ → List ℕ → Bool
constant_time_eq left right =
    if not (nat_eq (length left) (length right))
    then false
    else nat_eq (difference_of 0 left right) 0

abbrev pub token_matches : String → Option String → Bool
token_matches bearer_token none = false
token_matches bearer_token (some token) = constant_time_eq (as_bytes token) (as_bytes bearer_token)

abbrev pub scheme_of : Option String → Option String
scheme_of none = none
scheme_of (some value) = strip_prefix value "Bearer "

-- The window after a request at `now`, and whether the request is within the limit.
abbrev pub reset_window : Instant → RateWindow → RateWindow
reset_window now window =
    if leb minute (now - window.started_at) then record { started_at = now; count = 0 } else window

abbrev pub count_request : ℕ → RateWindow → Bool × RateWindow
count_request requests_per_minute window =
    if leb requests_per_minute window.count
    then (false, window)
    else (true, record window { count = inc64 window.count })

unfoldable pub consume_rate_limit : ℕ → Instant → Mutex RateWindow → Bool × Mutex RateWindow
consume_rate_limit requests_per_minute now (poisoned window) = (false, poisoned window)
consume_rate_limit requests_per_minute now (free window) =
    let counted = count_request requests_per_minute (reset_window now window) in
    (counted.0, free counted.1)

pub record Response : Type 0 where
  pub status : ℕ
  pub headers : Assoc String String
  pub body : String

abbrev pub unauthorized : Response
unauthorized = record {
  status = 401;
  headers = insert "www-authenticate" "Bearer" [];
  body = "unauthorized";
}

abbrev pub too_many_requests : Response
too_many_requests = record {
  status = 429;
  headers = insert "retry-after" "60" [];
  body = "rate limit exceeded";
}

-- A request carries its `Authorization` header as `HeaderValue::to_str` reads it: `none` where the
-- header is missing or is not visible ASCII.
pub record Request (B : Type 0) : Type 0 where
  pub authorization : Option String
  pub content : B

unfoldable pub authenticate : String → Option String → Bool
authenticate bearer_token header_value = token_matches bearer_token (scheme_of header_value)

-- The service behind the middleware changes a state of its own.
module _ {B W : Type 0} (next : Request B → W → Response × W) where
  abbrev pub limited :
      RemoteHttpSecurity
      → Request B
      → W
      → Bool × Mutex RateWindow
      → Response × (RemoteHttpSecurity × W)
  limited security request state (false, window) =
      (too_many_requests, (record security { window = window }, state))
  limited security request state (true, window) =
      let answer = next request state in (answer.0, (record security { window = window }, answer.1))

  unfoldable pub security_middleware :
      Instant → RemoteHttpSecurity → Request B → W → Response × (RemoteHttpSecurity × W)
  security_middleware now security request state =
      if not (authenticate security.bearer_token request.authorization)
      then (unauthorized, (security, state))
      else limited security request state
          (consume_rate_limit security.requests_per_minute now security.window)

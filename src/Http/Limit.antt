-- ===== src/Http/Limit.antt =====
-- src/bin/r2r-mcp-remote.rs: how many requests the rate window lets through, over any sequence of
-- requests. They take the lock one after the other, so a sequence of instants is all there is.
use Prim.Native.String.{len}
use r2r_jev.Prelude.{
  ℕ, ◌+◌, ◌*◌, ◌^◌, ◌≤◌, ◌<◌, ◌≡◌, refl, String, List, [], ◌∷◌, ok, arith, inc64, if◌then◌else◌,
  ◌⊎◌, inl, inr, inc64-eq_add,
}
use r2r_jev.Http.{
  Instant, minute, RateWindow, Mutex, free, poisoned, RemoteHttpSecurity, new, consume_rate_limit,
  reset_window, count_request,
}

-- How many of the requests at these instants are let through, and the window they leave.
abbrev pub consume_all : ℕ → List Instant → Mutex RateWindow → ℕ × Mutex RateWindow
consume_all limit [] window = (0, window)
consume_all limit (now ∷ rest) window =
    let first = consume_rate_limit limit now window in
    let others = consume_all limit rest first.1 in
    ((if first.0 then others.0 + 1 else others.0), others.1)

-- Every instant lies in the minute that begins at `from`.
abbrev pub AreWithin : Instant → List Instant → Type 0
AreWithin from [] = Unit {0}
AreWithin from (now ∷ rest) = (from ≤ now) × (now < from + minute) × AreWithin from rest

-- The window has let through at most the limit since it started.
abbrev pub IsWithinLimit : ℕ → Mutex RateWindow → Type 0
IsWithinLimit limit (free window) = window.count ≤ limit
IsWithinLimit limit (poisoned window) = window.count ≤ limit

pub consume-IsWithinLimit :
    (limit : ℕ) (now : Instant) (window : Mutex RateWindow)
    → limit < 2 ^ 64
    → IsWithinLimit limit window
    → IsWithinLimit limit (consume_rate_limit limit now window).1
unfolding consume_rate_limit
consume-IsWithinLimit limit now (poisoned window) w h = h
consume-IsWithinLimit limit now (free window) w h =
    ground (arith, inc64-eq_add (reset_window now window).count)

consume_all-IsWithinLimit :
    (limit : ℕ) (before : List Instant) (window : Mutex RateWindow)
    → limit < 2 ^ 64
    → IsWithinLimit limit window
    → IsWithinLimit limit (consume_all limit before window).1
consume_all-IsWithinLimit limit [] window w h = h
consume_all-IsWithinLimit limit (now ∷ rest) window w h =
    consume_all-IsWithinLimit limit rest (consume_rate_limit limit now window).1 w
      (consume-IsWithinLimit limit now window w h)

-- Of a request whose window is up to date and of those after it, how many are let through.
abbrev taken : ℕ → List Instant → RateWindow → ℕ
taken limit rest window =
    let first = count_request limit window in
    let others = (consume_all limit rest (free first.1)).0 in if first.0 then others + 1 else others

-- One request after the reset: what bounds the others from either count bounds all.
taken-bounded :
    (limit bound : ℕ) (rest : List Instant) (window : RateWindow)
    → limit < 2 ^ 64
    → window.count ≤ limit
    → ((count : ℕ)
        → count ≤ limit
        → (consume_all limit rest (free (record window { count = count }))).0 + count ≤ bound)
    → taken limit rest window + window.count ≤ bound
taken-bounded limit bound rest window w h others =
    ground (arith, inc64-eq_add window.count, others window.count, others (inc64 window.count))

-- Requests that come before the window's minute is over share what is left of its limit.
consume_all-same_window :
    (limit : ℕ) (from : Instant) (during : List Instant) (window : RateWindow)
    → limit < 2 ^ 64
    → from ≤ window.started_at
    → window.count ≤ limit
    → AreWithin from during
    → (consume_all limit during (free window)).0 + window.count ≤ limit
unfolding consume_rate_limit
consume_all-same_window limit from [] window w s h r = omega arith
consume_all-same_window limit from (now ∷ rest) window w s h r = rw same (
    taken-bounded limit limit rest window w h (λ count c.
      consume_all-same_window limit from rest (record window { count = count }) w s c r.2))
  where
    same : reset_window now window ≡ window
    same = ground arith

-- Either the window begins anew at this request, or it stays.
reset_window-cases :
    (now : Instant) (window : RateWindow)
    → (reset_window now window ≡ record { started_at = now; count = 0 })
      ⊎ (reset_window now window ≡ window)
reset_window-cases now window = ground arith

consume_all-minute :
    (limit : ℕ) (from : Instant) (during : List Instant) (window : RateWindow)
    → limit < 2 ^ 64
    → window.count ≤ limit
    → AreWithin from during
    → (consume_all limit during (free window)).0 + window.count ≤ 2 * limit
unfolding consume_rate_limit
consume_all-minute limit from [] window w h r = omega arith
consume_all-minute limit from (now ∷ rest) window w h r = elim (reset_window-cases now window) [
  | inl fresh ↦ rw fresh (
      omega (
        arith,
        taken-bounded limit limit rest (record { started_at = now; count = 0 }) w (omega arith)
            (λ count c.
              consume_all-same_window limit from rest (record { started_at = now; count = count }) w
                r.0 c r.2),
      ))
  | inr kept ↦ rw kept (
      taken-bounded limit (2 * limit) rest window w h
        (λ count c. consume_all-minute limit from rest (record window { count = count }) w c r.2))
]

consume_all-poisoned :
    (limit : ℕ) (during : List Instant) (window : RateWindow)
    → (consume_all limit during (poisoned window)).0 ≡ 0
unfolding consume_rate_limit
consume_all-poisoned limit [] window = refl
consume_all-poisoned limit (now ∷ rest) window = consume_all-poisoned limit rest window

consume_all-bounded :
    (limit : ℕ) (from : Instant) (during : List Instant) (window : Mutex RateWindow)
    → limit < 2 ^ 64
    → IsWithinLimit limit window
    → AreWithin from during
    → (consume_all limit during window).0 ≤ 2 * limit
consume_all-bounded limit from during (poisoned window) w h r =
    omega (arith, consume_all-poisoned limit during window)
consume_all-bounded limit from during (free window) w h r =
    omega (arith, consume_all-minute limit from during window w h r)

-- What `new` accepts starts with an empty window and a limit above zero.
pub new-ok :
    (now : Instant) (bearer_token : String) (limit : ℕ) {security : RemoteHttpSecurity}
    → new now bearer_token limit ≡ ok security
    → (0 < limit)
      × (32 ≤ len bearer_token)
      × (security ≡ record {
        bearer_token = bearer_token;
        requests_per_minute = limit;
        window = free (record { started_at = now; count = 0 });
      })
unfolding new
new-ok now bearer_token limit e = ground arith

-- Whatever came before, the requests of any one minute that the limit lets through are at most
-- twice the configured number: the window is fixed, so two of them may share the minute.
pub consume_all-after_new :
    (start : Instant) (bearer_token : String) (limit : ℕ) {security : RemoteHttpSecurity}
    → new start bearer_token limit ≡ ok security
    → limit < 2 ^ 64
    → (before during : List Instant) (from : Instant) → AreWithin from during
    → (consume_all limit during (consume_all limit before security.window).1).0 ≤ 2 * limit
consume_all-after_new start bearer_token limit {security} e w before during from r =
    consume_all-bounded limit from during (consume_all limit before security.window).1 w
      (consume_all-IsWithinLimit limit before security.window w
        (rw (new-ok start bearer_token limit e).2 (omega arith)))
      r

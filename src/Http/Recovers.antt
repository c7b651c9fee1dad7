-- ===== src/Http/Recovers.antt =====
-- src/bin/r2r-mcp-remote.rs: the rate window opens again. No run of requests shuts the service for
-- longer than the minute that follows it.
use r2r_jev.Prelude.{ℕ, ◌+◌, ◌≤◌, ◌<◌, ◌≡◌, String, List, [], ◌∷◌, true, ok, arith}
use r2r_jev.Http.{
  Instant, minute, RateWindow, Mutex, free, poisoned, RemoteHttpSecurity, new, consume_rate_limit,
}
use r2r_jev.Http.Limit.{consume_all, new-ok}

-- Every instant lies at or before `last`.
abbrev pub AreBefore : Instant → List Instant → Type 0
AreBefore last [] = Unit {0}
AreBefore last (now ∷ rest) = (now ≤ last) × AreBefore last rest

-- The lock is not poisoned, and the window started at or before `last`.
abbrev StartedBy : Instant → Mutex RateWindow → Type 0
StartedBy last (free window) = window.started_at ≤ last
StartedBy last (poisoned window) = ⊥

consume-StartedBy :
    (limit : ℕ) (last now : Instant) (window : Mutex RateWindow)
    → now ≤ last
    → StartedBy last window
    → StartedBy last (consume_rate_limit limit now window).1
unfolding consume_rate_limit
consume-StartedBy limit last now (free window) b h = ground arith
consume-StartedBy limit last now (poisoned window) b h = absurd h

consume_all-StartedBy :
    (limit : ℕ) (last : Instant) (before : List Instant) (window : Mutex RateWindow)
    → AreBefore last before
    → StartedBy last window
    → StartedBy last (consume_all limit before window).1
consume_all-StartedBy limit last [] window b h = h
consume_all-StartedBy limit last (now ∷ rest) window b h =
    consume_all-StartedBy limit last rest (consume_rate_limit limit now window).1 b.1
      (consume-StartedBy limit last now window b.0 h)

consume-after_minute :
    (limit : ℕ) (last now : Instant) (window : Mutex RateWindow)
    → 0 < limit
    → last + minute ≤ now
    → StartedBy last window
    → (consume_rate_limit limit now window).0 ≡ true
unfolding consume_rate_limit
consume-after_minute limit last now (free window) l b h = ground arith
consume-after_minute limit last now (poisoned window) l b h = absurd h

-- The service is never shut for good: however many requests came at or before `last`, and however
-- many of them were refused, a request a minute after `last` is within the limit.
pub consume-recovers :
    (start : Instant) (bearer_token : String) (limit : ℕ) {security : RemoteHttpSecurity}
    → new start bearer_token limit ≡ ok security
    → (before : List Instant) (last now : Instant) → AreBefore last (start ∷ before)
    → last + minute ≤ now
    → (consume_rate_limit limit now (consume_all limit before security.window).1).0 ≡ true
consume-recovers start bearer_token limit {security} e before last now b later =
    let created = new-ok start bearer_token limit e in
    consume-after_minute limit last now (consume_all limit before security.window).1 created.0 later
      (consume_all-StartedBy limit last before security.window b.1 (rw created.2 b.0))

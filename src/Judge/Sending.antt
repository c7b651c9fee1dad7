-- ===== src/Judge/Sending.antt =====
-- src/jev.rs: the API key goes only to an address that is reached over TLS.
use text.Mathlib.Text.{starts_with}
use r2r_jev.Prelude.{◌≡◌, refl, String, List, [], ◌∷◌, true, err, ◌⊎◌, inl, inr, Bool-cases}
use r2r_jev.Judge.{JudgeProvider, validate_endpoint, Asked, Post, Client, judge_live}

-- Every request goes to an `https://` address.
abbrev pub AreSecure : List Post → Type 0
AreSecure [] = Unit {0}
AreSecure (post ∷ rest) = (starts_with post.endpoint "https://" ≡ true) × AreSecure rest

module _ {V F : Type 0} (client : Client V F) where
  -- A live judgment sends the key to an `https://` address or to none: for any other endpoint, also
  -- one from the environment, nothing is sent and the call is an error.
  pub judge_live-AreSecure :
      (provider : JudgeProvider) (api_key : String) (asked : Asked)
      → AreSecure (judge_live client provider api_key asked).1
        × ((starts_with provider.endpoint "https://" ≡ true)
            ⊎ ((message : String) × (judge_live client provider api_key asked ≡ (err message, []))))
  unfolding judge_live validate_endpoint
  judge_live-AreSecure provider api_key asked =
      elim (Bool-cases (starts_with provider.endpoint "https://")) [
        | inl secure ↦ (rw secure (secure, tt), inl secure)
        | inr plain ↦ (
          rw plain tt,
          inr (
            "live judge endpoints must use https:// because the adapter sends a bearer API key",
            rw plain refl,
          ),
        )
      ]

-- ===== src/Demo/Sending.antt =====
-- src/main.rs: which runs of the program send a request to a judge, and where.
use r2r_jev.Prelude.{
  ◌≡◌, refl, ap, ◌∙◌, eq_iff, String, List, [], ◌∷◌, ok, err, panic, ◌⊎◌, inl, inr, Result, ◌==◌,
  Bool-cases,
}
use r2r_jev.Prelude.Format.{format}
use r2r_jev.Judge.{JudgeProvider, Post}
use r2r_jev.Judge.Sending.{AreSecure, judge_live-AreSecure}
use r2r_jev.Demo.{Live, live_args, default_live, Outside}
use r2r_jev.Demo.Run.{credentials, ended, live_from, live_judged, main, run_live, run_mode}

-- What is sent does not depend on the answer.
ended-posts : (r : Result (List String)) (posts : List Post) → (ended r posts).posts ≡ posts
ended-posts (ok lines) posts = refl
ended-posts (err e) posts = refl
ended-posts panic posts = refl

abbrev pub IsLive : List String → Type 0
IsLive args = (rest : List String) × (args ≡ "live" ∷ rest)

module _ {V F : Type 0} (outside : Outside V F) where
  live_judged-AreSecure :
      (live : Live) (r : Result (JudgeProvider × String))
      → AreSecure (live_judged outside live r).posts
  live_judged-AreSecure live (ok (provider, api_key)) =
      rw ended-posts (judge_live-AreSecure outside.client provider api_key live.asked).0
  live_judged-AreSecure live (err e) = tt
  live_judged-AreSecure live panic = tt

  live_from-AreSecure : (r : Result Live) → AreSecure (live_from outside r).posts
  live_from-AreSecure (ok live) = live_judged-AreSecure live (credentials outside live)
  live_from-AreSecure (err e) = tt
  live_from-AreSecure panic = tt

  run_live-AreSecure : (args : List String) → AreSecure (run_live outside args).posts
  unfolding run_live
  run_live-AreSecure args = live_from-AreSecure (live_args args default_live)

  unsent :
      (args : List String) (r : Result (List String))
      → AreSecure (ended r []).posts × (((ended r []).posts ≡ []) ⊎ IsLive args)
  unsent args r = rw ended-posts (tt, inl refl)

  run_mode-AreSecure :
      (mode : String) (rest args : List String)
      → args ≡ mode ∷ rest
      → AreSecure (run_mode outside mode rest).posts
        × (((run_mode outside mode rest).posts ≡ []) ⊎ IsLive args)
  run_mode-AreSecure mode rest args e = elim (Bool-cases (mode == "fixture")) [
    | inl fixture ↦ rw fixture (unsent args _)
    | inr other ↦ elim (Bool-cases (mode == "live")) [
      | inl live ↦ rw other (
          rw live (
            run_live-AreSecure rest,
            inr (rest, e ∙ ap (λ m. m ∷ rest) ((eq_iff mode "live").0 live)),
          ))
      | inr unknown ↦ rw other (
          rw unknown (
            unsent args
              (err (format ("unknown mode: " ∷ mode ∷ ". Use `fixture` or `live`." ∷ [])))))
    ]
  ]

  -- Whatever the arguments, the environment and the files: a run of the program sends requests to
  -- `https://` addresses only, and sends none unless its first argument is `live`.
  pub main-AreSecure :
      (args : List String)
      → AreSecure (main outside args).posts × (((main outside args).posts ≡ []) ⊎ IsLive args)
  unfolding main
  main-AreSecure [] = unsent [] _
  main-AreSecure (mode ∷ rest) = run_mode-AreSecure mode rest (mode ∷ rest) refl

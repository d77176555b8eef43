-- ===== src/Server/Tests.antt =====
-- Tests of rate_limiter.rs.
use gobrowseos.Prelude.{ℕ, ◌≡◌, refl, true, false, List, [], ◌∷◌, arith}
use gobrowseos.Server.RateLimiter.{new}
use gobrowseos.Server.RateLimiter.Window.{run_hits, over_limit, IsAscending, run_hits_exact}

abbrev times : List ℕ
times = 1000 ∷ 1500 ∷ 1900 ∷ 3500 ∷ []

times-IsAscending : IsAscending 0 times
times-IsAscending = (omega arith, (omega arith, (omega arith, (omega arith, tt))))

run_hits_exact_example : run_hits (new 2) 2 times ≡ over_limit 2 2 [] times
run_hits_exact_example =
    run_hits_exact 2 2 times (omega arith) (omega arith) (omega arith) times-IsAscending

third_rejected : over_limit 2 2 [] times ≡ false ∷ false ∷ true ∷ false ∷ []
third_rejected = refl

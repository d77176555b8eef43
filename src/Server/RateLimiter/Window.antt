-- ===== src/Server/RateLimiter/Window.antt =====
-- rate_limiter.rs, `WindowCounter`: a window counter against the times of all its hits.
use gobrowseos.Prelude.{
  ℕ, suc, ◌+◌, ◌*◌, ◌/◌, ◌^◌, ◌≤◌, ◌<◌, ◌≡◌, refl, ap, ◌∙◌, Bool, List, [], ◌∷◌, arith, leb, ltb,
  if◌then◌else◌, length,
}
use gobrowseos.Server.RateLimiter.{
  Slot, WindowCounter, new, window_start, retain_from, bump_last, sum_hits, hit,
}

-- The hits of slots from a time on.
abbrev pub slots_from : ℕ → List Slot → ℕ
slots_from s [] = 0
slots_from s ((ts, c) ∷ m) = (if leb s ts then c else 0) + slots_from s m

-- The hits whose second begins at or after a time.
abbrev pub hits_from : ℕ → List ℕ → ℕ
hits_from s [] = 0
hits_from s (t ∷ ts) = (if leb s (t / 1000 * 1000) then 1 else 0) + hits_from s ts

hits_from-le : (s : ℕ) (ts : List ℕ) → hits_from s ts ≤ length ts
hits_from-le s [] = omega arith
hits_from-le s (t ∷ ts) = ground (arith, hits_from-le s ts)

slots_from-retain :
    (s start : ℕ) (m : List Slot) → start ≤ s → slots_from s (retain_from start m) ≡ slots_from s m
unfolding retain_from
slots_from-retain s start [] h = refl
slots_from-retain s start ((ts, c) ∷ m) h = ground (arith, slots_from-retain s start m h)

-- All that is retained is counted from any time up to the start.
all_retained :
    (s start : ℕ) (m : List Slot)
    → s ≤ start
    → slots_from s (retain_from start m) ≡ slots_from start (retain_from start m)
unfolding retain_from
all_retained s start [] h = refl
all_retained s start ((ts, c) ∷ m) h = ground (arith, all_retained s start m h)

slots_from-bump :
    (s slot : ℕ) (m : List Slot)
    → slots_from 0 m + 1 < 2 ^ 32
    → slots_from s (bump_last slot m) ≡ slots_from s m + (if leb s slot then 1 else 0)
unfolding bump_last
slots_from-bump s slot [] h = ground arith
slots_from-bump s slot ((ts, c) ∷ []) h = ground arith
slots_from-bump s slot ((ts, c) ∷ (us, d) ∷ m) h =
    ground (arith, slots_from-bump s slot ((us, d) ∷ m))

sum_hits_lem : (m : List Slot) → slots_from 0 m < 2 ^ 32 → sum_hits m ≡ slots_from 0 m
unfolding sum_hits
sum_hits_lem [] h = refl
sum_hits_lem ((ts, c) ∷ m) h = ground (arith, sum_hits_lem m)

slots_from-retain_le :
    (s start : ℕ) (m : List Slot) → slots_from s (retain_from start m) ≤ slots_from s m
unfolding retain_from
slots_from-retain_le s start [] = omega arith
slots_from-retain_le s start ((ts, c) ∷ m) = ground (arith, slots_from-retain_le s start m)

-- The counter agrees with the hits from a time on.
pub record Counts (w : WindowCounter) (times : List ℕ) (low : ℕ) : Type 0 where
  pub agrees : (s : ℕ) → low ≤ s → slots_from s w.slots ≡ hits_from s times
  pub few : slots_from 0 w.slots ≤ length times

-- The second of a hit stands in the window.
slot_in_window :
    (window_secs now : ℕ)
    → 1 ≤ window_secs
    → window_secs * 1000 < 2 ^ 64
    → window_start window_secs now ≤ now / 1000 * 1000
slot_in_window window_secs now h g = omega arith

hit_slots :
    (w : WindowCounter) (now low : ℕ) (times : List ℕ)
    → Counts w times low
    → low ≤ window_start w.window_secs now
    → length times + 1 < 2 ^ 32
    → let start = window_start w.window_secs now in
      let slots = bump_last (now / 1000 * 1000) (retain_from start w.slots) in
      (s : ℕ) → start ≤ s → slots_from s slots ≡ hits_from s (now ∷ times)
hit_slots w now low times c h g s p =
    let start = window_start w.window_secs now in
    let few = slots_from-retain_le 0 start w.slots in
    omega (
      arith,
      slots_from-bump s (now / 1000 * 1000) (retain_from start w.slots) (omega (arith, few, c.few)),
      slots_from-retain s start w.slots p,
      c.agrees s (omega arith),
    )

hit_few :
    (slot start : ℕ) (m : List Slot) (times : List ℕ)
    → slots_from 0 m ≤ length times
    → length times + 1 < 2 ^ 32
    → slots_from 0 (bump_last slot (retain_from start m)) ≤ suc (length times)
hit_few slot start m times h g =
    let few = slots_from-retain_le 0 start m in
    ground (arith, slots_from-bump 0 slot (retain_from start m) (omega (arith, few, h)), few)

hit-Counts :
    (w : WindowCounter) (now limit low : ℕ) (times : List ℕ)
    → Counts w times low
    → low ≤ window_start w.window_secs now
    → length times + 1 < 2 ^ 32
    → Counts (hit w now limit).0 (now ∷ times) (window_start w.window_secs now)
unfolding hit
hit-Counts w now limit low times c h g =
    let few = hit_few (now / 1000 * 1000) (window_start w.window_secs now) w.slots times c.few g in
    record { agrees = hit_slots w now low times c h g; few = few }

hit_sum :
    (w : WindowCounter) (now low : ℕ) (times : List ℕ)
    → Counts w times low
    → low ≤ window_start w.window_secs now
    → length times + 1 < 2 ^ 32
    → 1 ≤ w.window_secs
    → w.window_secs * 1000 < 2 ^ 64
    → let start = window_start w.window_secs now in
      sum_hits (bump_last (now / 1000 * 1000) (retain_from start w.slots))
      ≡ hits_from start (now ∷ times)
hit_sum w now low times c h g one fits =
    let start = window_start w.window_secs now in
    let slot = now / 1000 * 1000 in
    let kept = retain_from start w.slots in
    let few = slots_from-retain_le 0 start w.slots in
    let room : slots_from 0 kept + 1 < 2 ^ 32 = omega (arith, few, c.few) in
    let all = slots_from-bump 0 slot kept room in
    let same = all_retained 0 start w.slots (omega arith) in
    let inside = slot_in_window w.window_secs now one fits in
    let total = sum_hits_lem (bump_last slot kept) (ground (arith, all, room)) in
    total
    ∙ all
    ∙ ground (arith, same, inside, slots_from-retain start start w.slots, c.agrees start h)

hit_verdict :
    (w : WindowCounter) (now limit low : ℕ) (times : List ℕ)
    → Counts w times low
    → low ≤ window_start w.window_secs now
    → length times + 1 < 2 ^ 32
    → 1 ≤ w.window_secs
    → w.window_secs * 1000 < 2 ^ 64
    → (hit w now limit).1 ≡ ltb limit (hits_from (window_start w.window_secs now) (now ∷ times))
unfolding hit
hit_verdict w now limit low times c h g one fits =
    ap (ltb limit) (hit_sum w now low times c h g one fits)

hit-window_secs :
    (w : WindowCounter) (now limit : ℕ) → (hit w now limit).0.window_secs ≡ w.window_secs
unfolding hit
hit-window_secs w now limit = refl

-- What a counter answers to hits at the given times, in order.
unfoldable pub run_hits : WindowCounter → ℕ → List ℕ → List Bool
run_hits w limit [] = []
run_hits w limit (now ∷ nows) = (hit w now limit).1 ∷ run_hits (hit w now limit).0 limit nows

-- Whether each hit finds more hits than the limit in the window that ends with it, given the earlier
-- hits. A hit counts from the beginning of its second.
abbrev pub over_limit : ℕ → ℕ → List ℕ → List ℕ → List Bool
over_limit window_secs limit times [] = []
over_limit window_secs limit times (now ∷ nows) =
    ltb limit (hits_from (window_start window_secs now) (now ∷ times))
    ∷ over_limit window_secs limit (now ∷ times) nows

-- The clock does not go back.
abbrev pub IsAscending : ℕ → List ℕ → Type 0
IsAscending last [] = Unit {0}
IsAscending last (now ∷ nows) = (last ≤ now) × IsAscending now nows

run_hits_from :
    (w : WindowCounter) (limit last : ℕ) (times nows : List ℕ)
    → Counts w times (window_start w.window_secs last)
    → 1 ≤ w.window_secs
    → w.window_secs * 1000 < 2 ^ 64
    → length times + length nows < 2 ^ 32
    → IsAscending last nows
    → run_hits w limit nows ≡ over_limit w.window_secs limit times nows
unfolding run_hits hit
run_hits_from w limit last times [] c one fits few up = refl
run_hits_from w limit last times (now ∷ nows) c one fits few up =
    let later : window_start w.window_secs last ≤ window_start w.window_secs now =
      omega (arith, up.0) in
    let room : length times + 1 < 2 ^ 32 = omega (arith, few) in
    ap (λ b. b ∷ run_hits (hit w now limit).0 limit nows)
      (hit_verdict w now limit (window_start w.window_secs last) times c later room one fits)
    ∙ ap (λ l. ltb limit (hits_from (window_start w.window_secs now) (now ∷ times)) ∷ l)
        (run_hits_from (hit w now limit).0 limit now (now ∷ times) nows
          (hit-Counts w now limit (window_start w.window_secs last) times c later room) one fits
          (omega (arith, few)) up.1)

-- A new counter with a window of at least one second that fits its arithmetic rejects, of fewer
-- than 2 ^ 32 hits by a clock that does not go back, exactly those that find more hits than the
-- limit in the window that ends with them, where a hit counts from the beginning of its second.
pub run_hits_exact :
    (window_secs limit : ℕ) (nows : List ℕ)
    → 1 ≤ window_secs
    → window_secs * 1000 < 2 ^ 64
    → length nows < 2 ^ 32
    → IsAscending 0 nows
    → run_hits (new window_secs) limit nows ≡ over_limit window_secs limit [] nows
run_hits_exact window_secs limit nows one fits few up =
    run_hits_from (new window_secs) limit 0 [] nows
      (record { agrees = λ s h. refl; few = omega arith }) one fits (omega (arith, few)) up

-- ===== src/Server/RateLimiter.antt =====
-- crates/gobrowse-server/src/rate_limiter.rs: the sliding-window rate limiter. A key is a number that
-- stands for the string; the clock is an argument. Arithmetic wraps, as it does in a release build.
pub mod Window
use gobrowseos.Prelude.{
  ℕ, zero, suc, ◌+◌, ◌-◌, ◌*◌, ◌/◌, ◌%◌, ◌^◌, Bool, true, false, not, Option, none, some, List, [],
  ◌∷◌, ◌++◌, leb, ltb, ◌==◌, if◌then◌else◌, length, Assoc, lookup, insert,
}

-- A slot: the start of its second, in milliseconds, and its hits.
abbrev pub Slot : Type 0
Slot = ℕ × ℕ

pub record WindowCounter : Type 0 where
  pub slots : List Slot
  pub window_secs : ℕ

abbrev pub new : ℕ → WindowCounter
new window_secs = record { slots = []; window_secs = window_secs }

-- The first millisecond of the window.
abbrev pub window_start : ℕ → ℕ → ℕ
window_start window_secs now = now - window_secs * 1000 % 2 ^ 64

pub retain_from : ℕ → List Slot → List Slot
retain_from start [] = []
retain_from start ((ts, c) ∷ m) =
    let rest = retain_from start m in if leb start ts then (ts, c) ∷ rest else rest

-- One hit in the last slot, or in a new slot behind it.
pub bump_last : ℕ → List Slot → List Slot
bump_last slot [] = (slot, 1) ∷ []
bump_last slot ((ts, c) ∷ []) =
    if ts == slot then (ts, (c + 1) % 2 ^ 32) ∷ [] else (ts, c) ∷ (slot, 1) ∷ []
bump_last slot (s ∷ t ∷ m) = s ∷ bump_last slot (t ∷ m)

pub sum_hits : List Slot → ℕ
sum_hits [] = 0
sum_hits ((ts, c) ∷ m) = (c + sum_hits m) % 2 ^ 32

unfoldable pub hit : WindowCounter → ℕ → ℕ → WindowCounter × Bool
unfolding retain_from bump_last sum_hits
hit w now limit =
    let slots =
      bump_last (now / 1000 * 1000) (retain_from (window_start w.window_secs now) w.slots) in
    (record w { slots = slots }, ltb limit (sum_hits slots))

pub record RateLimiter : Type 0 where
  pub key_buckets : Assoc (ℕ × WindowCounter)
  pub global_buckets : Assoc WindowCounter

-- The bucket of a key: a new one if there is none, or if its window has changed.
abbrev pub key_bucket : ℕ → Option (ℕ × WindowCounter) → WindowCounter
key_bucket window_secs none = new window_secs
key_bucket window_secs (some (w, counter)) = if w == window_secs then counter else new window_secs

abbrev pub global_bucket : ℕ → Option WindowCounter → WindowCounter
global_bucket window_secs none = new window_secs
global_bucket window_secs (some counter) =
    if counter.window_secs == window_secs then counter else new window_secs

unfoldable pub check_key : RateLimiter → ℕ → ℕ → ℕ → ℕ → RateLimiter × Bool
unfolding hit
check_key r key window_secs limit now =
    let (counter, over) = hit (key_bucket window_secs (lookup key r.key_buckets)) now limit in
    (record r { key_buckets = insert key (window_secs, counter) r.key_buckets }, over)

unfoldable pub check_global : RateLimiter → ℕ → ℕ → ℕ → ℕ → RateLimiter × Bool
unfolding hit
check_global r bucket window_secs limit now =
    let (counter, over) =
      hit (global_bucket window_secs (lookup bucket r.global_buckets)) now limit in
    (record r { global_buckets = insert bucket counter r.global_buckets }, over)

abbrev pub is_empty : List Slot → Bool
is_empty [] = true
is_empty (s ∷ m) = false

abbrev pub pruned : WindowCounter → ℕ → ℕ → WindowCounter
pruned w window_secs now = record w { slots = retain_from (window_start window_secs now) w.slots }

unfoldable pub prune_keys : ℕ → Assoc (ℕ × WindowCounter) → Assoc (ℕ × WindowCounter)
unfolding retain_from
prune_keys now [] = []
prune_keys now ((k, (window_secs, w)) ∷ m) =
    let rest = prune_keys now m in
    let kept = pruned w window_secs now in
    if is_empty kept.slots then rest else (k, (window_secs, kept)) ∷ rest

unfoldable pub prune_global : ℕ → Assoc WindowCounter → Assoc WindowCounter
unfolding retain_from
prune_global now [] = []
prune_global now ((k, w) ∷ m) =
    let rest = prune_global now m in
    let kept = pruned w w.window_secs now in if is_empty kept.slots then rest else (k, kept) ∷ rest

unfoldable pub prune : RateLimiter → ℕ → RateLimiter
unfolding prune_keys prune_global
prune r now = record {
  key_buckets = prune_keys now r.key_buckets;
  global_buckets = prune_global now r.global_buckets;
}

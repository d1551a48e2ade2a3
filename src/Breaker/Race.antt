-- ===== src/Breaker/Race.antt =====
-- The slot check of `Execute` under threads: memory.go loads the counter and adds to it in two
-- atomic operations, with no lock held across them.
use abraxis.Base.{
  ℕ, zero, suc, ◌+◌, ◌<◌, ◌≡◌, refl, false, i32_half, arith, sle32, inc32, dec32, sle32-leb,
  inc32_lem,
}

-- The counter, and the threads that have loaded a low value and not yet added.
pub record Slots : Type 0 where
  pub concurrent_requests : ℕ  -- int32
  pub past_check : ℕ

-- One atomic operation of one thread, `max` being the limit.
pub data Step (max : ℕ) (s t : Slots) : Type 0 where
  -- `atomic.LoadInt32(&circuit.concurrentRequests) >= circuit.maxConcurrent` is false
  load :
      sle32 max s.concurrent_requests ≡ false
      → t ≡ record s { past_check = s.past_check + 1 }
      → Step max s t
  -- `atomic.AddInt32(&circuit.concurrentRequests, 1)`
  add :
      (n : ℕ)
      → s.past_check ≡ n + 1
      → t ≡ record { concurrent_requests = inc32 s.concurrent_requests; past_check = n }
      → Step max s t
  -- the deferred `atomic.AddInt32(&circuit.concurrentRequests, -1)`
  leave :
      0 < s.concurrent_requests
      → t ≡ record s { concurrent_requests = dec32 s.concurrent_requests }
      → Step max s t

pub data Reach (max : ℕ) (s : Slots) : Slots → Type 0 where
  here : Reach max s s
  next : {t u : Slots} → Reach max s t → Step max t u → Reach max s u

abbrev pub idle : Slots
idle = record { concurrent_requests = 0; past_check = 0 }

all_load :
    (max n : ℕ)
    → 0 < max
    → max < i32_half
    → Reach max idle (record { concurrent_requests = 0; past_check = n })
all_load max zero h w = here
all_load max (suc n) h w =
    next (all_load max n h w)
      (load (rw (sle32-leb max 0 w (omega arith)) (ground arith)) (ground arith))

then_add :
    (max k n : ℕ)
    → 0 < max
    → max < i32_half
    → k < i32_half
    → Reach max idle (record { concurrent_requests = k; past_check = n })
then_add max zero n h w b = all_load max n h w
then_add max (suc k) n h w b =
    next (then_add max k (suc n) h w (omega arith))
      (add n (omega arith) (ground (arith, inc32_lem k)))

-- The limit on concurrent requests is not kept by threads: for every limit, and for every number
-- of requests that an int32 holds, some order of the threads' atomic operations has that many
-- requests run at once.
pub limit_exceeded :
    (max n : ℕ)
    → 0 < max
    → max < i32_half
    → n < i32_half
    → (s : Slots) × Reach max idle s × (s.concurrent_requests ≡ n)
limit_exceeded max n h w b =
    (record { concurrent_requests = n; past_check = 0 }, then_add max n 0 h w b, refl)

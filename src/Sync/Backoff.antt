-- ===== src/Sync/Backoff.antt =====
-- The waits between two connections to aegis: `backoff` of
-- prism/internal/features/gateway/adapters/aegis/client.go.
use abraxis.Base.{
  ℕ, zero, suc, ◌*◌, ◌%◌, ◌^◌, ◌<◌, ◌≤◌, ◌≡◌, inl, inr, leb, i64_mod, sle64-leb, if◌then◌else◌,
  arith, Bool-cases,
}
use abraxis.Sync.Client.{backoff_loop, backoff}

-- Doubled a number of times.
abbrev pub doubled : ℕ → ℕ → ℕ
doubled d zero = d
doubled d (suc n) = doubled (d * 2) n

le-doubled : (d n : ℕ) → d ≤ doubled d n
le-doubled d zero = omega arith
le-doubled d (suc n) = omega (arith, le-doubled (d * 2) n)

backoff_loop_lem :
    (max n d : ℕ)
    → max < 2 ^ 62
    → d ≤ max
    → backoff_loop max n d ≡ (if leb max (doubled d n) then max else doubled d n)
unfolding backoff_loop
backoff_loop_lem max zero d hm hd = ground arith
backoff_loop_lem max (suc n) d hm hd =
    let same : d * 2 % i64_mod ≡ d * 2 = omega arith in
    let grows = le-doubled (d * 2) n in
    let order = sle64-leb max (d * 2) (omega arith) (omega arith) in
    elim (Bool-cases (leb max (d * 2))) [
      | inl e ↦ rw same (ground arith)
      | inr e ↦ rw same (ground (arith, backoff_loop_lem max n (d * 2)))
    ]

-- The wait before a retry is one second, doubled once for each attempt before, but the maximum from there
-- on where this reaches it, for every maximum from one second and below 2^62 nanoseconds: it does not wrap.
pub backoff-doubled :
    (max attempt : ℕ)
    → 1000000000 ≤ max
    → max < 2 ^ 62
    → backoff max attempt
      ≡ (if leb max (doubled 1000000000 attempt) then max else doubled 1000000000 attempt)
unfolding backoff
backoff-doubled max attempt low high = backoff_loop_lem max attempt 1000000000 high low

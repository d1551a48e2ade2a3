-- ===== src/Limits/Walk.antt =====
-- The loop of GetRecentViolations over the buffer:
-- prism/internal/features/ratelimit/service_rate_limit.go.
use mathlib.Core.List.{append_assoc, append-nil}
use native.Mathlib.Nat.{mod-eq_of_lt, add-mod_right}
use abraxis.Base.{
  ℕ, zero, suc, ◌+◌, ◌-◌, ◌%◌, ◌≤◌, ◌<◌, ◌≡◌, refl, sym, ap, ◌∙◌, inl, inr, true, false, Option,
  none, some, List, [], ◌∷◌, ◌++◌, length, take, get_or, length-append, ltb, leb, ◌==◌,
  if◌then◌else◌, sle64, slt64, arith, Bool-cases, i64_half, i64_mod,
}
use abraxis.Limits.Ring.{before, append_some, recent_loop, clamp_limit}

-- One index back, without the remainder.
abbrev pub prev : ℕ → ℕ → ℕ
prev max i = if i == 0 then max - 1 else i - 1

abbrev pub next : ℕ → ℕ → ℕ
next max i = if i + 1 == max then 0 else i + 1

pub before_lem : (max i : ℕ) → i < max → before max i ≡ prev max i
unfolding before
before_lem max zero h =
    let small : (0 + max - 1) % max ≡ 0 + max - 1 = mod-eq_of_lt (omega arith) in
    rw small (omega arith)
before_lem max (suc j) h =
    let e : suc j + max - 1 ≡ j + max = omega arith in
    let small : j % max ≡ j = mod-eq_of_lt (omega arith) in
    rw (e, add-mod_right j max, small) (ground arith)

pub step_lem : (max i : ℕ) → i < max → (i + 1) % max ≡ next max i
step_lem max i h = grind arith

pub clamp_limit-le :
    (max limit : ℕ) → max < i64_half → limit < i64_mod → clamp_limit max limit ≤ max
unfolding clamp_limit sle64 slt64
clamp_limit-le max limit h w = ground arith

-- How many slots lie from an index back to the one where the walk began, both counted.
abbrev pub remaining : ℕ → ℕ → ℕ → ℕ
remaining max start idx = if leb idx start then max - (start - idx) else idx - start

module _ {A : Type 0} where
  -- The slots from an index backwards.
  abbrev pub back : List (Option A) → ℕ → ℕ → List (Option A)
  back slots zero i = []
  back slots (suc k) i = get_or slots i none ∷ back slots k (prev (length slots) i)

  abbrev cons_some : Option A → List A → List A
  cons_some none xs = xs
  cons_some (some x) xs = x ∷ xs

  abbrev pub somes : List (Option A) → List A
  somes [] = []
  somes (o ∷ os) = cons_some o (somes os)

  pub take_nil : (n : ℕ) → take {A = A} n [] ≡ []
  take_nil zero = refl
  take_nil (suc n) = refl

  append_some-length :
      (result : List A) (o : Option A) → length (append_some result o) ≤ length result + 1
  append_some-length result none = omega arith
  append_some-length result (some v) = omega (arith, length-append result (v ∷ []))

  append_some-take :
      (limit : ℕ) (result : List A) (o : Option A) (xs : List A)
      → length result < limit
      → append_some result o ++ take (limit - length (append_some result o)) xs
        ≡ result ++ take (limit - length result) (cons_some o xs)
  append_some-take limit result none xs h = refl
  append_some-take limit result (some v) xs h =
      let left : limit - length result ≡ suc (limit - length (result ++ v ∷ [])) =
        omega (arith, length-append result (v ∷ [])) in
      rw left (rw (append_assoc result (v ∷ []) (take (limit - length (result ++ v ∷ [])) xs)))

  abbrev Walks : ℕ → ℕ → List (Option A) → ℕ → ℕ → ℕ → List A → Type 0
  Walks fuel k slots limit start idx result =
      recent_loop fuel slots limit start idx result
      ≡ some (result ++ take (limit - length result) (somes (back slots (suc k) idx)))

  -- One round below the limit.
  recent_loop_more :
      (fuel k : ℕ) (slots : List (Option A)) (limit start idx : ℕ) (result : List A)
      → idx < length slots
      → start < length slots
      → suc k ≡ remaining (length slots) start idx
      → k < suc fuel
      → length result < limit
      → (prev (length slots) idx < length slots
          → start < length slots
          → suc (k - 1) ≡ remaining (length slots) start (prev (length slots) idx)
          → k - 1 < fuel
          → length (append_some result (get_or slots idx none)) ≤ limit
          → Walks fuel
              (k - 1)
              slots
              limit
              start
              (prev (length slots) idx)
              (append_some result (get_or slots idx none)))
      → Walks (suc fuel) k slots limit start idx result
  unfolding recent_loop
  recent_loop_more fuel zero slots limit start idx result hi hs hk hf hl ih =
      let o : Option A = get_or slots idx none in
      let more : ltb (length result) limit ≡ true = ground arith in
      let last : prev (length slots) idx == start ≡ true = ground arith in
      rw (more, before_lem (length slots) idx hi, last, recent_loop)
        (ap some (
          sym (append-nil (append_some result o))
          ∙ ap (λ t. append_some result o ++ t)
              (sym (take_nil (limit - length (append_some result o))))
          ∙ append_some-take limit result o [] hl))
  recent_loop_more fuel (suc k) slots limit start idx result hi hs hk hf hl ih =
      let o : Option A = get_or slots idx none in
      let more : ltb (length result) limit ≡ true = ground arith in
      let further : prev (length slots) idx == start ≡ false = ground arith in
      let kk : suc k - 1 ≡ k = omega arith in
      let step =
        ih (ground arith) hs (ground arith) (omega arith)
          (omega (arith, append_some-length result o)) in
      rw (more, before_lem (length slots) idx hi, further, recent_loop)
        ((rw kk at step)
          ∙ ap some (
              append_some-take limit result o (somes (back slots (suc k) (prev (length slots) idx)))
                hl))

  -- The walk collects, up to the limit, what the slots behind the index hold.
  pub recent_loop_lem :
      (fuel k : ℕ) (slots : List (Option A)) (limit start idx : ℕ) (result : List A)
      → idx < length slots
      → start < length slots
      → suc k ≡ remaining (length slots) start idx
      → k < fuel
      → length result ≤ limit
      → recent_loop fuel slots limit start idx result
        ≡ some (result ++ take (limit - length result) (somes (back slots (suc k) idx)))
  unfolding recent_loop
  recent_loop_lem zero k slots limit start idx result hi hs hk hf hl = absurd (omega arith)
  recent_loop_lem (suc fuel) k slots limit start idx result hi hs hk hf hl =
      elim (Bool-cases (ltb (length result) limit)) [
        | inr done ↦
            let full : limit - length result ≡ 0 = ground arith in
            rw (done, recent_loop, full, append-nil result) refl
        | inl more ↦
            recent_loop_more fuel k slots limit start idx result hi hs hk hf (ground arith) (
              recent_loop_lem fuel (k - 1) slots limit start (prev (length slots) idx)
                (append_some result (get_or slots idx none)))
      ]

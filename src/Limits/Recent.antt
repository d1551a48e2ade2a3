-- ===== src/Limits/Recent.antt =====
-- `GetRecentViolations` of service_rate_limit.go against the list of all violations so far.
use mathlib.Core.List.{reverse, reverse-cons, append_assoc, append-nil}
use abraxis.Base.{
  ℕ, zero, suc, ◌+◌, ◌-◌, ◌%◌, ◌≤◌, ◌<◌, ◌≡◌, refl, ap, ◌∙◌, Option, none, some, List, [], ◌∷◌,
  ◌++◌, length, take, get_or, set_at, replicate, length-set_at, length-replicate, get_or-replicate,
  get_or-set_at_self, get_or-set_at_ne, leb, if◌then◌else◌, arith, i64_half, i64_mod,
}
use abraxis.Limits.Ring.{
  Ring, new_ring, store, before, recent_loop, clamp_limit, get_recent_violations, store_all,
}
use abraxis.Limits.Walk.{
  prev, next, before_lem, step_lem, clamp_limit-le, back, somes, take_nil, recent_loop_lem,
}

module _ {A : Type 0} where
  -- What the buffer holds, the newest first, for a list of all violations, the newest first.
  abbrev pad : ℕ → List A → List (Option A)
  pad zero h = []
  pad (suc k) [] = none ∷ pad k []
  pad (suc k) (x ∷ h) = some x ∷ pad k h

  record Holds (max : ℕ) (r : Ring A) (h : List A) : Type 0 where
    size : length r.slots ≡ max
    within : r.index < max
    newest_first : back r.slots max (prev max r.index) ≡ pad max h

  -- A write is not seen from an index that does not reach it.
  back-set_at :
      (k : ℕ) (slots : List (Option A)) (j i : ℕ) (v : Option A)
      → i < length slots
      → j < length slots
      → k ≤ (if leb j i then i - j else i + length slots - j)
      → back (set_at slots j v) k i ≡ back slots k i
  back-set_at zero slots j i v hi hj far = refl
  back-set_at (suc k) slots j i v hi hj far =
      rw (get_or-set_at_ne slots j i v none (λ e. ground arith), length-set_at slots j v)
        (ap (λ t. get_or slots i none ∷ t)
          (back-set_at k slots j (prev (length slots) i) v (ground arith) hj (ground arith)))

  take-pad : (k : ℕ) (h : List A) → somes (pad k h) ≡ take k h
  take-pad zero h = refl
  take-pad (suc k) [] = take-pad k [] ∙ take_nil k
  take-pad (suc k) (x ∷ h) = ap (λ t. x ∷ t) (take-pad k h)

  take-take : (n k : ℕ) (h : List A) → n ≤ k → take n (take k h) ≡ take n h
  take-take zero k h le = refl
  take-take (suc n) zero h le = absurd (omega arith)
  take-take (suc n) (suc k) [] le = refl
  take-take (suc n) (suc k) (x ∷ h) le = ap (λ t. x ∷ t) (take-take n k h (omega arith))

  abbrev no_slot : Option A
  no_slot = none

  back-replicate : (k n i : ℕ) → back (replicate n none) k i ≡ pad k []
  back-replicate zero n i = refl
  back-replicate (suc k) n i =
      rw (get_or-replicate n i no_slot)
        (ap (λ t. none ∷ t) (back-replicate k n (prev (length (replicate n no_slot)) i)))

  new_ring-Holds : (max : ℕ) → 0 < max → Holds max (new_ring max) []
  unfolding new_ring
  new_ring-Holds max pos = record {
    size = length-replicate max none;
    within = pos;
    newest_first = back-replicate max max (prev max 0);
  }

  back-pad :
      (k : ℕ) (slots : List (Option A)) (i : ℕ) (h : List A)
      → back slots (suc k) i ≡ pad (suc k) h
      → back slots k i ≡ pad k h
  back-pad zero slots i h e = refl
  back-pad (suc k) slots i [] e =
      let rest : back slots (suc k) (prev (length slots) i) ≡ pad (suc k) [] = cc in
      let head : get_or slots i none ≡ no_slot = cc in
      rw head (ap (λ t. none ∷ t) (back-pad k slots (prev (length slots) i) [] rest))
  back-pad (suc k) slots i (x ∷ h) e =
      let rest : back slots (suc k) (prev (length slots) i) ≡ pad (suc k) h = cc in
      let head : get_or slots i none ≡ some x = cc in
      rw head (ap (λ t. some x ∷ t) (back-pad k slots (prev (length slots) i) h rest))

  store-Holds :
      (max : ℕ) (v : A) (r : Ring A) (h : List A) → Holds max r h → Holds max (store v r) (v ∷ h)
  unfolding store
  store-Holds zero v r h holds = absurd (omega (arith, holds.within))
  store-Holds (suc m) v r h holds =
      let below : r.index < length r.slots = omega (arith, holds.size, holds.within) in
      let old : back r.slots (suc m) (prev (length r.slots) r.index) ≡ pad (suc m) h =
        ap (λ n. back r.slots (suc m) (prev n r.index)) holds.size ∙ holds.newest_first in
      let stepped : (r.index + 1) % length r.slots ≡ next (length r.slots) r.index =
        step_lem (length r.slots) r.index below in
      let here : prev (suc m) ((r.index + 1) % length r.slots) ≡ r.index =
        rw stepped (ground (arith, holds.size)) in
      record {
        size = length-set_at r.slots r.index (some v) ∙ holds.size;
        within = rw stepped (ground (arith, holds.size));
        newest_first = rw here (
            rw
              (
                get_or-set_at_self r.slots r.index (some v) no_slot below,
                length-set_at r.slots r.index (some v),
              )
              (ap (λ t. some v ∷ t)
                (back-set_at m r.slots r.index (prev (length r.slots) r.index) (some v)
                    (ground arith) below (ground (arith, holds.size))
                  ∙ back-pad m r.slots (prev (length r.slots) r.index) h old)));
      }

  store_all-Holds :
      (max : ℕ) (vs : List A) (r : Ring A) (h : List A)
      → Holds max r h
      → Holds max (store_all vs r) (reverse vs ++ h)
  unfolding store_all
  store_all-Holds max [] r h holds = holds
  store_all-Holds max (v ∷ vs) r h holds =
      rw (reverse-cons v vs, append_assoc (reverse vs) (v ∷ []) h)
        (store_all-Holds max vs (store v r) (v ∷ h) (store-Holds max v r h holds))

  get_recent-Holds :
      (max limit : ℕ) (r : Ring A) (h : List A)
      → 0 < max
      → max < i64_half
      → limit < i64_mod
      → Holds max r h
      → get_recent_violations limit r ≡ some (take (clamp_limit max limit) h)
  unfolding get_recent_violations
  get_recent-Holds zero limit r h pos word lword holds = absurd (omega arith)
  get_recent-Holds (suc m) limit r h pos word lword holds =
      let max : ℕ = length r.slots in
      let from : ℕ = prev max r.index in
      let limit' : ℕ = clamp_limit max limit in
      let start : before max r.index ≡ from =
        before_lem max r.index (omega (arith, holds.size, holds.within)) in
      let held : back r.slots (suc m) from ≡ pad (suc m) h =
        ap (λ n. back r.slots (suc m) (prev n r.index)) holds.size ∙ holds.newest_first in
      let below : limit' ≤ suc m =
        omega (arith, clamp_limit-le max limit (omega (arith, holds.size)) lword, holds.size) in
      ap (λ i. recent_loop max r.slots limit' i i []) start
      ∙ recent_loop_lem max m r.slots limit' from from [] (ground (arith, holds.size, holds.within))
          (ground (arith, holds.size, holds.within)) (ground (arith, holds.size, holds.within))
          (omega (arith, holds.size)) (omega arith)
      ∙ ap some (
          ap (λ n. take n (somes (back r.slots (suc m) from))) (omega arith)
          ∙ ap (λ t. take limit' (somes t)) held
          ∙ ap (λ t. take limit' t) (take-pad (suc m) h)
          ∙ take-take limit' (suc m) h below
          ∙ ap (λ n. take (clamp_limit n limit) h) holds.size)

  -- The buffer refines the list of all violations: whatever was stored in a new buffer of `max` slots,
  -- `GetRecentViolations` ends, and gives the newest violations, the newest first, as many as there
  -- are up to the limit asked for, or up to `max` where that limit is not between 1 and `max`.
  pub get_recent_violations-store_all :
      (max limit : ℕ) (vs : List A)
      → 0 < max
      → max < i64_half
      → limit < i64_mod
      → get_recent_violations limit (store_all vs (new_ring max))
        ≡ some (take (clamp_limit max limit) (reverse vs))
  get_recent_violations-store_all max limit vs pos word lword =
      let holds = store_all-Holds max vs (new_ring max) [] (new_ring-Holds max pos) in
      get_recent-Holds max limit (store_all vs (new_ring max)) (reverse vs) pos word lword
        (rw (append-nil (reverse vs)) at holds)

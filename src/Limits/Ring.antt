-- ===== src/Limits/Ring.antt =====
-- The circular buffer of violations of service_rate_limit.go: the part of `recordViolation` that stores
-- one, and `GetRecentViolations`.
use abraxis.Base.{
  ℕ, zero, suc, ◌+◌, ◌-◌, ◌%◌, Option, none, some, List, [], ◌∷◌, ◌++◌, length, get_or, set_at,
  replicate, ltb, ◌==◌, ◌||◌, if◌then◌else◌, sle64, slt64,
}

-- `violations` and `violationIndex`; `maxViolations` is the length of the buffer.
pub record Ring (A : Type 0) : Type 0 where
  pub slots : List (Option A)
  pub index : ℕ

-- `(i - 1 + max) % max`
unfoldable pub before : ℕ → ℕ → ℕ
before max i = (i + max - 1) % max

-- The limit that `GetRecentViolations` uses, an `int`.
unfoldable pub clamp_limit : ℕ → ℕ → ℕ
clamp_limit max limit = if sle64 limit 0 || slt64 max limit then max else limit

module _ {A : Type 0} where
  unfoldable pub new_ring : ℕ → Ring A
  new_ring max = record { slots = replicate max none; index = 0 }

  -- `s.violations[s.violationIndex] = violation`, and the step of the index.
  unfoldable pub store : A → Ring A → Ring A
  store v r = record {
    slots = set_at r.slots r.index (some v);
    index = (r.index + 1) % length r.slots;
  }

  abbrev pub append_some : List A → Option A → List A
  append_some acc none = acc
  append_some acc (some v) = acc ++ v ∷ []

  -- The loop of `GetRecentViolations`: `result` so far, whose length is `count`, and the next index.
  -- `none` means that the fuel ran out.
  unfoldable pub recent_loop : ℕ → List (Option A) → ℕ → ℕ → ℕ → List A → Option (List A)
  recent_loop zero slots limit start idx result = none
  recent_loop (suc fuel) slots limit start idx result =
      let found = append_some result (get_or slots idx none) in
      let next = before (length slots) idx in
      let rest = recent_loop fuel slots limit start next found in
      if ltb (length result) limit
      then (if next == start then some found else rest)
      else some result

  -- `GetRecentViolations`, on fuel for one round for each slot.
  unfoldable pub get_recent_violations : ℕ → Ring A → Option (List A)
  get_recent_violations limit r =
      let max = length r.slots in
      recent_loop max r.slots (clamp_limit max limit) (before max r.index) (before max r.index) []

  -- Violations stored one after another.
  unfoldable pub store_all : List A → Ring A → Ring A
  store_all [] r = r
  store_all (v ∷ vs) r = store_all vs (store v r)

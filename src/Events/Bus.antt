-- ===== src/Events/Bus.antt =====
-- `AuthEventBus` and `PolicyEventBus` of aegis/internal/grpc/eventbus.go: the same code for two kinds
-- of event, with channels of capacity 64 and 16. A channel is a number, and `channels` is the heap.
use abraxis.Base.{
  ℕ, ◌+◌, Text, Bool, true, false, Option, none, some, List, [], ◌∷◌, ◌++◌, length, ltb, ◌==◌,
  lookup, insert, erase, if◌then◌else◌, inc64,
}

-- An event with the version that `Publish` writes into it, whose decimal text is the field `Version`.
pub record Event (A : Type 0) : Type 0 where
  pub content : A
  pub version : ℕ  -- int64

pub record Channel (A : Type 0) : Type 0 where
  pub queue : List (Event A)
  pub closed : Bool

pub record Bus (A : Type 0) : Type 0 where
  pub capacity : ℕ
  pub subscribers : List (Text × ℕ)
  pub version : ℕ  -- int64
  pub channels : ℕ → Channel A
  pub made : ℕ

module _ {A : Type 0} where
  -- The heap with one channel changed.
  abbrev pub put : ℕ → Channel A → (ℕ → Channel A) → ℕ → Channel A
  put n c channels k = if k == n then c else channels k

  -- `NewAuthEventBus` and `NewPolicyEventBus`; the capacity is that of the channels that `Subscribe`
  -- makes.
  unfoldable pub new_bus : ℕ → Bus A
  new_bus capacity = record {
    capacity = capacity;
    subscribers = [];
    version = 0;
    channels = λ k. record { queue = []; closed = false };
    made = 0;
  }

  -- `Subscribe`: the bus and the channel that it returns.
  unfoldable pub subscribe : Text → Bus A → Bus A × ℕ
  subscribe id b = (
    record b {
      subscribers = insert id b.made b.subscribers;
      channels = put b.made (record { queue = []; closed = false }) b.channels;
      made = b.made + 1;
    },
    b.made,
  )

  -- `Unsubscribe`
  unfoldable pub unsubscribe : Text → Bus A → Bus A
  unsubscribe id b = elim (lookup id b.subscribers) [
    | none ↦ b
    | some n ↦ record b {
      subscribers = erase id b.subscribers;
      channels = put n (record (b.channels n) { closed = true }) b.channels;
    }
  ]

  -- The channel after a send that does not block: full, it stays as it is.
  unfoldable pub offered : ℕ → Event A → Channel A → Channel A
  offered capacity e c =
      if ltb (length c.queue) capacity then record c { queue = c.queue ++ e ∷ [] } else c

  -- The `select` of `Publish`; `none` is a send on a closed channel, which panics.
  unfoldable pub send : ℕ → Event A → Channel A → Option (Channel A)
  send capacity e c = if c.closed then none else some (offered capacity e c)

  -- The loop of `Publish` over the subscribers.
  unfoldable pub send_all : ℕ → Event A → List (Text × ℕ) → (ℕ → Channel A) → Option (ℕ → Channel A)
  send_all capacity e [] channels = some channels
  send_all capacity e ((id, n) ∷ m) channels = elim (send capacity e (channels n)) [
    | none ↦ none
    | some c ↦ send_all capacity e m (put n c channels)
  ]

  abbrev pub versioned : A → Bus A → Event A
  versioned content b = record { content = content; version = inc64 b.version }

  -- `Publish`; `none` is a panic.
  unfoldable pub publish : A → Bus A → Option (Bus A)
  publish content b = elim (send_all b.capacity (versioned content b) b.subscribers b.channels) [
    | none ↦ none
    | some channels ↦ some (record b { version = inc64 b.version; channels = channels })
  ]

  -- `NextVersion`, as the number that it prints.
  unfoldable pub next_version : Bus A → ℕ
  next_version b = b.version

  -- A receive by the subscriber that holds the channel.
  unfoldable pub receive : ℕ → Bus A → Bus A × Option (Event A)
  receive n b = elim (b.channels n).queue [
    | [] ↦ (b, none)
    | e ∷ es ↦
        (record b { channels = put n (record (b.channels n) { queue = es }) b.channels }, some e)
  ]

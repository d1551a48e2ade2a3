-- ===== src/Discovery/Watch.antt =====
-- The channels of the watchers of LocalDiscovery: WatchServices, notifyWatchers, removeWatchChannel and
-- Close of prism/internal/features/discovery/adapters/provider/local.go. A channel is a number. What is
-- sent on it, each value by its own goroutine, is not followed.
use abraxis.Base.{
  ℕ, ◌+◌, ◌≡◌, refl, Text, Bool, true, false, ◌||◌, none, some, List, [], ◌∷◌, ◌++◌, map, text_eq,
  text_eq_iff, is_empty, lookup, insert, lookup-insert, if◌then◌else◌, ◌==◌, arith,
}
use abraxis.Discovery.Local.{Local}

pub record Watchers : Type 0 where
  pub watch_channels : List (Text × List ℕ)
  pub next_channel : ℕ

unfoldable pub channels_of : Text → List (Text × List ℕ) → List ℕ
channels_of name m = elim (lookup name m) [ none ↦ [] | some chs ↦ chs ]

-- The services that a call watches: those of the map if no name is given or the first is empty.
abbrev pub services_to_watch : List Text → Local → List Text
services_to_watch [] d = map (λ e. e.0) d.service_map
services_to_watch (n ∷ ns) d = if is_empty n then map (λ e. e.0) d.service_map else n ∷ ns

-- `watchChannels[service] = append(watchChannels[service], ch)` for each of them.
unfoldable pub watch_each : List Text → ℕ → List (Text × List ℕ) → List (Text × List ℕ)
watch_each [] ch m = m
watch_each (n ∷ ns) ch m = watch_each ns ch (insert n (channels_of n m ++ ch ∷ []) m)

-- `WatchServices`, and the channel that it returns.
unfoldable pub watch_services : List Text → Local → Watchers → Watchers × ℕ
watch_services names d w = (
  record {
    watch_channels = watch_each (services_to_watch names d) w.next_channel w.watch_channels;
    next_channel = w.next_channel + 1;
  },
  w.next_channel,
)

-- The channels that `notifyWatchers` sends a change of a service to.
unfoldable pub notified : Text → Watchers → List ℕ
notified name w = channels_of name w.watch_channels ++ channels_of [] w.watch_channels

-- `append(channels[:i], channels[i+1:]...)` for the first `i` with the channel.
unfoldable pub drop_channel : ℕ → List ℕ → List ℕ
drop_channel ch [] = []
drop_channel ch (c ∷ cs) = let rest = drop_channel ch cs in if c == ch then cs else c ∷ rest

unfoldable pub has_channel : ℕ → List ℕ → Bool
has_channel ch [] = false
has_channel ch (c ∷ cs) = if c == ch then true else has_channel ch cs

abbrev no_channels : List ℕ → Bool
no_channels [] = true
no_channels (c ∷ cs) = false

-- The loop of `removeWatchChannel`: the map after it, and `found`.
unfoldable pub remove_watch_channel : ℕ → List (Text × List ℕ) → List (Text × List ℕ) × Bool
remove_watch_channel ch [] = ([], false)
remove_watch_channel ch ((n, chs) ∷ m) =
    let (rest, found) = remove_watch_channel ch m in
    let left = drop_channel ch chs in
    if has_channel ch chs
    then (if no_channels left then rest else (n, left) ∷ rest, true)
    else ((n, chs) ∷ rest, found)

-- The channels that `Close` closes, and the map after it.
unfoldable pub close_watchers : Watchers → Watchers × List ℕ
close_watchers w = (record w { watch_channels = [] }, all_channels w.watch_channels)
  where
    all_channels : List (Text × List ℕ) → List ℕ
    all_channels [] = []
    all_channels ((n, chs) ∷ m) = chs ++ all_channels m

unfoldable pub is_among : Text → List Text → Bool
is_among name [] = false
is_among name (n ∷ ns) = if text_eq n name then true else is_among name ns

channels_of-insert :
    (k j : Text) (chs : List ℕ) (m : List (Text × List ℕ))
    → channels_of j (insert k chs m) ≡ (if text_eq k j then chs else channels_of j m)
unfolding channels_of
channels_of-insert k j chs m = ground (arith, lookup-insert k j chs m)

has_channel-append :
    (ch : ℕ) (a b : List ℕ) → has_channel ch (a ++ b) ≡ (has_channel ch a || has_channel ch b)
unfolding has_channel
has_channel-append ch [] b = refl
has_channel-append ch (c ∷ a) b = ground (arith, has_channel-append ch a b)

has_channel_self : (ch : ℕ) → has_channel ch (ch ∷ []) ≡ true
unfolding has_channel
has_channel_self ch = ground arith

has_channel-watch_each :
    (ns : List Text) (ch : ℕ) (name : Text) (m : List (Text × List ℕ))
    → has_channel ch (channels_of name (watch_each ns ch m))
      ≡ (is_among name ns || has_channel ch (channels_of name m))
unfolding watch_each is_among
has_channel-watch_each [] ch name m = refl
has_channel-watch_each (n ∷ ns) ch name m =
    let chs = channels_of n m ++ ch ∷ [] in
    ground (
      arith,
      has_channel-watch_each ns ch name (insert n chs m),
      channels_of-insert n name chs m,
      has_channel-append ch (channels_of n m) (ch ∷ []),
      has_channel_self ch,
      text_eq_iff n name,
    )

-- A new watcher, whose channel is in no list yet, hears of a change of a service exactly if the services
-- that it watches, all those of that time or the named ones, have that name or the empty one among them.
pub notified-watch_services :
    (names : List Text) (name : Text) (d : Local) (w : Watchers)
    → ((n : Text) → has_channel w.next_channel (channels_of n w.watch_channels) ≡ false)
    → has_channel w.next_channel (notified name (watch_services names d w).0)
      ≡ (is_among name (services_to_watch names d) || is_among [] (services_to_watch names d))
unfolding notified watch_services
notified-watch_services names name d w fresh =
    let ns = services_to_watch names d in
    let m = w.watch_channels in
    let ch = w.next_channel in
    ground (
      arith,
      has_channel-append ch (channels_of name (watch_each ns ch m))
          (channels_of [] (watch_each ns ch m)),
      has_channel-watch_each ns ch name m,
      has_channel-watch_each ns ch [] m,
      fresh name,
      fresh [],
    )

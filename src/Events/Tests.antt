-- ===== src/Events/Tests.antt =====
-- A bus with one subscriber, and the theorems on buses at concrete inputs.
use abraxis.Base.{◌≡◌, refl, Text, bytes, some, text_eq, lookup, insert, inc64}
use abraxis.Events.Bus.{
  Bus, new_bus, subscribe, unsubscribe, offered, send, send_all, publish, receive,
}

program : Unit {0}
unfolding new_bus subscribe unsubscribe offered send send_all publish receive lookup insert text_eq
    inc64
program = tt

abbrev prism : Text
prism = bytes "prism"

abbrev quiet : Bus Text
quiet = new_bus 64

abbrev joined : Bus Text
joined = (subscribe prism quiet).0

prism_found : lookup prism joined.subscribers ≡ some 0
unfolding program
prism_found = refl

-- ===== src/Peer/Dispatch.antt =====
-- transport/peer.c: dispatch_message. The search for the transaction of an answer and its end are those
-- of Trans, here with no other thread in between. A message behind which the peer machine is not called
-- goes into the queue of the sessions, whose result is not looked at, or is dropped.
use disc.Base.{ℕ, ◌==◌, Option, none, some, List, ◌∷◌, bit_and, drop, if◌then◌else◌}
use disc.Utils.{Bytes}
use disc.Msg.Wire.{Result, ok, ◌>>=◌, get_byte, load_word}
use disc.Peer.{
  Event, cer_received, cea_received, dwr_received, dwa_received, dpr_received, dpa_received,
}
use disc.Peer.Sent.{ce_msg_code, dw_msg_code, dp_msg_code, masked_word, word_of}
use disc.Trans.{
  World, Task, found, releasing, transaction_lookup, advance, atomic_dec, destroy_transaction,
}

-- What becomes of a message
pub data Dispatched : Type 0 where
  in_queue : Dispatched
  to_machine : Event → Dispatched
  no_transaction : Dispatched

-- The event of a request, and `event + 1`
unfoldable pub events_of : ℕ → Option (Event × Event)
events_of code =
    if code == ce_msg_code
    then some (cer_received, cea_received)
    else if code == dw_msg_code
    then some (dwr_received, dwa_received)
    else if code == dp_msg_code
    then some (dpr_received, dpa_received)
    else none

-- The end of `transaction_lookup`
abbrev pub released : World × List Task → World
released (w, releasing tr ∷ ts) = atomic_dec tr w
released (w, _) = w

abbrev pub given_up : ℕ → World → World
given_up tr w = destroy_transaction tr (released (advance (found tr) w))

abbrev pub answered : Event → World × List Task → Dispatched × World
answered event (w, found tr ∷ ts) = (to_machine event, given_up tr w)
answered event (w, _) = (no_transaction, w)

unfoldable pub dispatch_answer : Event → Bytes → World → Result (Dispatched × World)
dispatch_answer event buf w = do
  ete ← load_word (word_of 4 buf)
  hop ← load_word (word_of 3 buf)
  ok (answered event (transaction_lookup ete hop w))

unfoldable pub dispatch_event : Option (Event × Event) → Bytes → World → Result (Dispatched × World)
dispatch_event none buf w = ok (in_queue, w)
dispatch_event (some (event, next)) buf w = do
  flags ← get_byte (drop 4 buf)
  if bit_and flags 0x80 == 0 then dispatch_answer next buf w else ok (to_machine event, w)

unfoldable pub dispatch_message : Bytes → World → Result (Dispatched × World)
dispatch_message buf w = do
  code ← load_word (masked_word (word_of 1 buf))
  dispatch_event (events_of code) buf w

-- ===== src/Peer/Timers.antt =====
-- The machine's view of the timer link of a peer, against the timer lists.
use disc.Base.{ℕ, ◌≡◌, Option, none, some, arith}
use disc.Timer.{Timers, add_to_timer_list, rmv_from_timer_list}
use disc.Peer.{TimerList, reconn_timer, wait_cer_timer, Peer, add_timer, rmv_timer}

-- The addresses of the two lists.
abbrev pub list_id : TimerList → ℕ
list_id reconn_timer = 1
list_id wait_cer_timer = 2

abbrev pub owner_of : Option TimerList → Option ℕ
owner_of none = none
owner_of (some l) = some (list_id l)

-- While the field `timer_list` of the link of a peer is the list that the machine's view of the peer
-- tells, it still is after `add_to_timer_list` and after `rmv_from_timer_list` on either of the two
-- lists, set against `add_timer` and `rmv_timer` on the view.
add_timer-owner :
    (t : Timers) (tl timeout : ℕ) (p : Peer) (l : TimerList)
    → t.owner tl ≡ owner_of p.timer
    → ((add_to_timer_list tl (list_id l) timeout t).1.owner tl ≡ owner_of (add_timer l p).timer)
      × ((rmv_from_timer_list tl (list_id l) t).1.owner tl ≡ owner_of (rmv_timer l p).timer)
unfolding add_to_timer_list rmv_from_timer_list add_timer rmv_timer
add_timer-owner t tl timeout p reconn_timer e = ground arith
add_timer-owner t tl timeout p wait_cer_timer e = ground arith

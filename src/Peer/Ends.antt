-- ===== src/Peer/Ends.antt =====
-- When the functions that read the messages between peers end.
use disc.Base.{ℕ, ◌+◌, ◌≤◌, ◌≡◌, drop, length}
use disc.Utils.{Bytes}
use disc.Msg.Wire.{ok, get_3bytes}
use disc.Peer.Scan.{Scan}

-- An AVP behind the header of the message, inside the buffer, whose length field is 0.
abbrev pub HasEmpty : Bytes → Type 0
HasEmpty buf = (p : ℕ) × (20 ≤ p) × (p + 8 ≤ length buf) × (get_3bytes (drop (p + 5) buf) ≡ ok 0)

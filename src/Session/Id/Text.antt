-- ===== src/Session/Id/Text.antt =====
-- The text of a session identifier: its length, and what can be read off it.
use disc.Base.{
  ℕ, ◌*◌, ◌^◌, ◌<◌, ◌≤◌, ◌≡◌, refl, sym, ◌∙◌, ap, drop, drop_all, length, length-append,
  append_assoc, arith,
}
use disc.Utils.{Bytes}
use disc.Utils.Hex.{length-int2hexstr}
use disc.Utils.Decimal.{length-int2str, read_decimal, read_decimal-int2str}
use disc.Session.Id.{
  Monotonic, session_id_room, generate_session_id, append_hash_and_label, start_session_id, parsed,
  parse_session_id,
}
use disc.Session.Id.Counter.{IsCounter, counter}
use disc.Session.Id.RoundTrip.{parse_session_id-append}

-- What `AAAStartSession` writes in two steps fits the room that `generate_sessionID` allocated, with
-- the 18 bytes of padding that `AAAStartSession` asks for.
pub length-start_session_id :
    (aaa_identity : Bytes) (v : Monotonic) (rand hash_code label : ℕ)
    → length (start_session_id aaa_identity v rand hash_code label).0
      ≤ session_id_room aaa_identity (2 * 9)
unfolding start_session_id generate_session_id append_hash_and_label session_id_room
length-start_session_id aaa_identity v rand hash_code label = simp length-append (
    omega (
      arith,
      length-int2str v.high,
      length-int2str v.low,
      length-int2hexstr rand,
      length-int2hexstr hash_code,
      length-int2hexstr label,
    ))

-- For a hash code and a label of 32 bits, `parse_sessionID` on the identifier that `AAAStartSession`
-- made finds this hash code and this label.
pub parse_session_id-start_session_id :
    (aaa_identity : Bytes) (v : Monotonic) (rand hash_code label : ℕ)
    → hash_code < 2 ^ 32
    → label < 2 ^ 32
    → parse_session_id (start_session_id aaa_identity v rand hash_code label).0
      ≡ parsed (hash_code, label)
unfolding start_session_id generate_session_id
parse_session_id-start_session_id aaa_identity v rand hash_code label hh hl =
    parse_session_id-append _ hash_code label (simp length-append (omega arith)) hh hl

-- The two numbers of the counter, read off behind the identity of the node.
unfoldable pub read_counter : Bytes → Bytes → ℕ × ℕ
read_counter aaa_identity id =
    let (high, rest) = read_decimal (drop 1 (drop (length aaa_identity) id)) 0 in
    (high, (read_decimal (drop 1 rest) 0).0)

-- For a counter of two 32-bit halves, the identifier of a node shows both halves of the counter
-- that it was made from.
pub read_counter-start_session_id :
    (aaa_identity : Bytes) (v : Monotonic) (rand hash_code label : ℕ)
    → IsCounter v
    → read_counter aaa_identity (start_session_id aaa_identity v rand hash_code label).0
      ≡ (v.high, v.low)
unfolding read_counter start_session_id generate_session_id append_hash_and_label
read_counter-start_session_id aaa_identity v rand hash_code label h =
    rw (append_assoc, drop_all)
      (simp (append_assoc) (
        rw (
          read_decimal-int2str v.high b';' _ h.high_fits refl,
          read_decimal-int2str v.low b';' _ h.low_fits refl,
        )))

-- Two identifiers of one node that are made from different values of the 64-bit counter differ.
start_session_id-injective :
    (aaa_identity : Bytes) (v w : Monotonic) (rand hash_code label rand' hash_code' label' : ℕ)
    → IsCounter v
    → IsCounter w
    → (start_session_id aaa_identity v rand hash_code label).0
      ≡ (start_session_id aaa_identity w rand' hash_code' label').0
    → counter v ≡ counter w
unfolding counter
start_session_id-injective aaa_identity v w rand hash_code label rand' hash_code' label' hv hw e =
    let same =
      sym (read_counter-start_session_id aaa_identity v rand hash_code label hv)
      ∙ ap (read_counter aaa_identity) e
      ∙ read_counter-start_session_id aaa_identity w rand' hash_code' label' hw in
    cc (ap (λ (p : ℕ × ℕ). p.0) same, ap (λ (p : ℕ × ℕ). p.1) same)

-- ===== src/Tests/Sessions.antt =====
-- Sessions: their identifiers, and runs of the state machine.
use disc.Base.{ℕ, ◌*◌, ◌≤◌, ◌≡◌, refl, none, some, [], ◌∷◌, length, arith}
use disc.Utils.{Bytes, int2str, int2hexstr, int2str_loop, int2hexstr_loop, hex_digit}
use disc.Session.Id.{Monotonic, session_id_room, start_session_id, parsed, parse_session_id}
use disc.Session.Id.Counter.{IsCounter}
use disc.Session.Id.Text.{length-start_session_id, parse_session_id-start_session_id}
use disc.Session.Machine.{
  server_stateless, idle, pending, to_destroy, Session, Message, create_session, auth_a_received,
  rejected, mismatch, session_state_machine, end_session,
}
use disc.Session.Machine.World.{
  live, gone, send_auth, auth_answered, ended, Reach, start, next, Good,
}
use disc.Session.Machine.Reach.{Reach-Good}

abbrev node : Bytes
node = b'n' ∷ b'1' ∷ []

-- The low half is about to carry.
abbrev full : Monotonic
full = record { low = 4294967295; high = 7 }

full-IsCounter : IsCounter full
full-IsCounter = record { low_fits = omega arith; high_fits = omega arith }

length-start_session_id_example :
    length (start_session_id node full 4294967295 4294967295 4294967295).0
    ≤ session_id_room node (2 * 9)
length-start_session_id_example = length-start_session_id node full 4294967295 4294967295 4294967295

parse_session_id-start_session_id_example :
    parse_session_id (start_session_id node full 99 0 0x1F0).0 ≡ parsed (0, 0x1F0)
parse_session_id-start_session_id_example =
    parse_session_id-start_session_id node full 99 0 0x1F0 (omega arith) (omega arith)

abbrev fresh : Session
fresh = create_session server_stateless

abbrev auth_message : ℕ → Message
auth_message code = record { command_code = 265; auth_ses_state = none; res_code = some code }

abbrev acct_message : Message
acct_message = record { command_code = 271; auth_ses_state = none; res_code = none }

-- An answer that nobody waits for.
unasked :
    session_state_machine fresh auth_a_received (some (auth_message 2001)) ≡ rejected mismatch fresh
unfolding session_state_machine create_session
unasked = refl

-- A request, the end of the session while the answer is on its way, and the answer.
abbrev waiting : Session
waiting = record fresh { prev_state = idle; state = pending }

abbrev ending : Session
ending = record fresh { prev_state = pending; state = to_destroy }

run : Reach (gone 0 0)
unfolding session_state_machine create_session end_session
run =
    next
      (next (next start (send_auth {s = fresh} {t = waiting} (auth_message 0) refl))
        (ended {s = waiting} {w = live ending 1 0} (ground arith) refl))
      (auth_answered {s = ending} (auth_message 2001)
        (record { no_state = ground arith; code = 2001; has_code = refl }) refl)

Reach-Good_example : Good (gone 0 0)
Reach-Good_example = Reach-Good run

hex_test : int2hexstr 0x1A0F 8 ≡ b'1' ∷ b'A' ∷ b'0' ∷ b'F' ∷ []
unfolding int2hexstr int2hexstr_loop hex_digit
hex_test = refl

dec_test : int2str 1203 10 ≡ b'1' ∷ b'2' ∷ b'0' ∷ b'3' ∷ []
unfolding int2str int2str_loop
dec_test = refl

-- ===== src/Tests/Messages.antt =====
-- A message on its way through the buffer.
use disc.Base.{
  zero, suc, one_of, ◌+◌, ◌≡◌, refl, true, false, none, some, [], ◌∷◌, ◌++◌, All, map, length,
  arith,
}
use disc.Utils.{Bytes, to_32x_len}
use disc.Shm.{Allocator, Shm, shm_malloc}
use disc.Msg.{data_type, string_type, duplicate_data, Avp, Message, zero_message}
use disc.Msg.Wire.{IsByte}
use disc.Msg.Create.{set_avp_fields, new_avp, create_avp, clone_avp}
use disc.Msg.Create.Balance.{clone_avp-IsClone, IsClone}
use disc.Msg.Build.{has_vendor, avp_header, built, build_msg_buffer}
use disc.Msg.Build.Encode.{
  encode_message, Fits, encode_avps, encode_avp, build_msg_buffer-encode_message, padding,
}
use disc.Msg.Translate.{translated, translate_message}
use disc.Msg.Translate.Avps.{IsWire}
use disc.Msg.Translate.Safe.{translate_message-IsSafe, IsSafe}
use disc.Msg.Translate.Views.{view, view_header, Succeeds}
use disc.Msg.Translate.RoundTrip.{HeaderFits, translate_message-build_msg_buffer}

abbrev addresses : Allocator
addresses i = some (i + 1)

-- The first two calls succeed, then the memory is full.
abbrev two_blocks : Allocator
two_blocks zero = some 64
two_blocks (suc zero) = some 128
two_blocks _ = none

abbrev one_block : Allocator
one_block zero = some 64
one_block _ = none

abbrev shm : Shm
shm = record { calls = 0; live = 0 }

addresses-Succeeds : Succeeds addresses
addresses-Succeeds = record { gives = λ i. (i + 1, refl); fresh = λ i j p e f. ground arith }

abbrev session_avp : Avp
session_avp = record {
  addr = 900;
  code = 263;
  flags = 0x40;
  type = string_type;
  vendor_id = 0;
  payload = b'a' ∷ b';' ∷ b'7' ∷ [];
  free_it = false;
}

abbrev vendor_avp : Avp
vendor_avp = record {
  addr = 901;
  code = 999;
  flags = 0x80;
  type = data_type;
  vendor_id = 10415;
  payload = 1 ∷ 2 ∷ 3 ∷ 4 ∷ 5 ∷ [];
  free_it = false;
}

abbrev request : Message
request = record zero_message {
  flags = 0x80;
  command_code = 265;
  application_id = 4;
  hopbyhop_id = 77;
  endtoend_id = 4000000000;
  avps = session_avp ∷ vendor_avp ∷ [];
}

session_avp-IsWire : IsWire session_avp
unfolding set_avp_fields has_vendor one_of
session_avp-IsWire = record {
  code_fits = omega arith;
  flags_fit = omega arith;
  vendor_fits = omega arith;
  vendor_flagged = λ _. refl;
  not_empty = omega arith;
  small = omega arith;
  fields_set = refl;
}

vendor_avp-IsWire : IsWire vendor_avp
unfolding set_avp_fields has_vendor one_of
vendor_avp-IsWire = record {
  code_fits = omega arith;
  flags_fit = omega arith;
  vendor_fits = omega arith;
  vendor_flagged = λ e. cc;
  not_empty = omega arith;
  small = omega arith;
  fields_set = refl;
}

request_length : length (encode_avps request.avps) ≡ 32
unfolding encode_avps encode_avp to_32x_len padding has_vendor avp_header
request_length = refl

request-Fits : Fits request
request-Fits = record {
  small = (omega arith, (omega arith, tt));
  total = omega (arith, request_length);
}

request-HeaderFits : HeaderFits request
request-HeaderFits = record {
  flags_fit = omega arith;
  command_fits = omega arith;
  application_fits = omega arith;
  hopbyhop_fits = omega arith;
  endtoend_fits = omega arith;
}

translate_message-build_msg_buffer_example :
    (bytes : Bytes) × (m' : Shm) × (msg' : Message) × (n' : Shm) × (build_msg_buffer addresses
        request shm
      ≡ built (record request { buf = some bytes }) m')
    × (translate_message addresses (bytes ++ (7 ∷ [])) (length bytes + 1) false shm
        ≡ translated msg' n')
    × (map view msg'.avps ≡ map view request.avps)
    × (view_header msg' ≡ view_header request)
translate_message-build_msg_buffer_example =
    translate_message-build_msg_buffer addresses addresses request (7 ∷ []) shm shm
      addresses-Succeeds addresses-Succeeds request-Fits request-HeaderFits
      (session_avp-IsWire, (vendor_avp-IsWire, tt))

build_msg_buffer-encode_message_example :
    build_msg_buffer two_blocks request shm
    ≡ built
        (record request { buf = some (encode_message request) })
        (record { calls = 1; live = 1 })
build_msg_buffer-encode_message_example =
    build_msg_buffer-encode_message two_blocks request shm request-Fits refl

-- An answer that is cut off in its only AVP.
abbrev cut_off : Bytes
cut_off =
    1 ∷ 0 ∷ 0 ∷ 36 ∷ 0 ∷ 0 ∷ 1 ∷ 9 ∷ 0 ∷ 0 ∷ 0 ∷ 4 ∷ 1 ∷ 2 ∷ 3 ∷ 4 ∷ 5 ∷ 6 ∷ 7 ∷ 8 ∷ 0 ∷ 0 ∷ 1 ∷ 7
    ∷ 64 ∷ 0 ∷ 0 ∷ 40 ∷ 97 ∷ 98 ∷ 99 ∷ 100 ∷ 101 ∷ 102 ∷ 103 ∷ 104 ∷ []

cut_off-bytes : All IsByte cut_off
cut_off-bytes = ground arith

translate_message-IsSafe_example : IsSafe shm (translate_message addresses cut_off 36 true shm)
translate_message-IsSafe_example =
    translate_message-IsSafe addresses cut_off 36 true shm cut_off-bytes (omega arith) (omega arith)

abbrev copied : Avp
copied = record session_avp { addr = 1; free_it = true }

copied_created :
    create_avp addresses 263 0x40 0 (b'a' ∷ b';' ∷ b'7' ∷ []) duplicate_data shm
    ≡ (some copied, record { calls = 2; live = 2 })
unfolding create_avp new_avp set_avp_fields shm_malloc one_of
copied_created = refl

clone_avp-IsClone_example : IsClone vendor_avp shm (clone_avp one_block vendor_avp true shm)
clone_avp-IsClone_example = clone_avp-IsClone one_block vendor_avp true shm

-- ===== src/Tests/Lists.antt =====
-- AVP lists with two nodes and more.
use disc.Base.{ℕ, true, false, refl, none, some, [], ◌∷◌, reverse, arith}
use disc.Msg.{string_type, integer32_type, Avp, Message, zero_message}
use disc.Msg.AvpList.{forward_search, backward_search, find_matching_avp, remove_avp}
use disc.Msg.AvpList.Order.{Absent, Absent, Distinct}
use disc.Msg.AvpList.Invariant.{shortcut, Has, IsIndexed, remove_avp-IsIndexed}
use disc.Msg.AvpList.Find.{IsFirst, find_matching_avp-IsFirst}

abbrev host : ℕ → Avp
host p = record {
  addr = p;
  code = 264;
  flags = 0x40;
  type = string_type;
  vendor_id = 0;
  payload = b'h' ∷ [];
  free_it = false;
}

abbrev result : ℕ → Avp
result p = record {
  addr = p;
  code = 268;
  flags = 0x40;
  type = integer32_type;
  vendor_id = 0;
  payload = 0 ∷ 0 ∷ 7 ∷ 209 ∷ [];
  free_it = true;
}

-- Two origins and a result code.
abbrev answer : Message
answer = record zero_message {
  avps = host 100 ∷ result 200 ∷ host 300 ∷ [];
  shortcuts = record (zero_message.shortcuts) { orig_host = some 300; res_code = some 200 };
}

answer-Distinct : Distinct answer.avps
answer-Distinct = ground arith

answer-IsIndexed : IsIndexed answer
unfolding IsIndexed shortcut Has
answer-IsIndexed c p e = ground arith

remove_avp-IsIndexed_example : IsIndexed (remove_avp answer 300).1
remove_avp-IsIndexed_example = remove_avp-IsIndexed answer 300 answer-IsIndexed

find_matching_avp-IsFirst_example :
    IsFirst 264 0 answer.avps (find_matching_avp answer none 264 0 forward_search)
    × IsFirst 264 0 (reverse answer.avps) (find_matching_avp answer none 264 0 backward_search)
    × IsFirst 264 0
        (result 200 ∷ host 300 ∷ [])
        (find_matching_avp answer (some 200) 264 0 forward_search)
    × IsFirst 264 0
        (result 200 ∷ host 100 ∷ [])
        (find_matching_avp answer (some 200) 264 0 backward_search)
find_matching_avp-IsFirst_example =
    find_matching_avp-IsFirst answer (host 100 ∷ []) (host 300 ∷ []) (result 200) 264 0
      answer-Distinct refl

answer-Absent : Absent 400 answer.avps
answer-Absent = ground arith

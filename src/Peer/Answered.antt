-- ===== src/Peer/Answered.antt =====
-- A watchdog request that a peer sends, and the transaction that its answer finds.
use disc.Base.{ℕ, ◌≡◌, refl, ap, ◌∙◌, Bool, true, false, none, [], ◌∷◌, ◌++◌, drop, arith}
use disc.Utils.{Bytes}
use disc.Msg.Wire.{ok, set_4bytes, get_byte, load_word, load_word-store_word}
use disc.Msg.Build.Encode.{encode_avps}
use disc.Trans.{World, transaction_lookup, code_of}
use disc.Peer.{dwr_received, dwa_received}
use disc.Peer.Buffers.{Globals, Buffers, build_msg_buffers}
use disc.Peer.Parts.{std_avp}
use disc.Peer.Standard.{IsShort, origin}
use disc.Peer.Sent.{dwr, dwa, masked_word, word_of, dw_msg_code}
use disc.Peer.Headers.{request_header, answer_header}
use disc.Peer.Made.{build_msg_buffers-Holds}
use disc.Peer.Heartbeat.{dwr_lem, req_size, ans_size, answer_lem}
use disc.Peer.Dispatch.{
  to_machine, answered, events_of, dispatch_answer, dispatch_event, dispatch_message,
}
use disc.Peer.Returned.{requested, label_of, Ready, label_taken, settled}

-- What dispatch_message does with a watchdog message
dispatch_request :
    (m : Bytes) (w : World)
    → load_word (masked_word (word_of 1 m)) ≡ ok dw_msg_code
    → get_byte (drop 4 m) ≡ ok 0x80
    → dispatch_message m w ≡ ok (to_machine dwr_received, w)
unfolding dispatch_message dispatch_event events_of
dispatch_request m w code flags = rw code (rw flags refl)

dispatch_response :
    (m : Bytes) (w : World) (ete hop : ℕ)
    → load_word (masked_word (word_of 1 m)) ≡ ok dw_msg_code
    → get_byte (drop 4 m) ≡ ok 0
    → load_word (word_of 4 m) ≡ ok ete
    → load_word (word_of 3 m) ≡ ok hop
    → dispatch_message m w ≡ ok (answered dwa_received (transaction_lookup ete hop w))
unfolding dispatch_message dispatch_event dispatch_answer events_of
dispatch_response m w ete hop code flags a b = rw code (rw flags (rw (a, b) refl))

-- Two peers with identities and realms of less than 2 ^ 14 bytes, whose message buffers were built, with
-- memory for the messages; the table of the first has between 1 and 2 ^ 32 - 1 entries, its labels are in
-- order, fewer than 2 ^ 32 - 1 cells were added to an entry, the cell of the new transaction is not linked,
-- and the next end-to-end id is below 2 ^ 32. The watchdog
-- request with the ids that internal_send_request takes makes dispatch_message of the other call the
-- machine with DWR_RECEIVED; the answer that this builds to it, with any result code, makes
-- dispatch_message of the first, right after the request, call the machine with DWA_RECEIVED, and its
-- transaction is then out of the table and freed.
pub watchdog_answered :
    (got got' : ℕ → Bool) (g h : Globals) (t u : Buffers) (n tr ticks result_code : ℕ) (w x : World)
    → IsShort g
    → IsShort h
    → build_msg_buffers got g ≡ ok t
    → build_msg_buffers got' h ≡ ok u
    → Ready n tr w
    → (req : Bytes) × (ans : Bytes) × (after : World) × (((requested tr ticks w).table.links
          tr).label
        ≡ label_of w)
      × (dwr true t w.end_to_end (label_of w) ≡ ok req)
      × (dispatch_message req x ≡ ok (to_machine dwr_received, x))
      × (dwa true u req result_code ≡ ok ans)
      × (dispatch_message ans (requested tr ticks w) ≡ ok (to_machine dwa_received, after))
      × ((after.table.links tr).linked ≡ false)
      × (after.trans tr ≡ none)
unfolding dwa load_word get_byte
watchdog_answered got got' g h t u n tr ticks result_code w x sg sh bg bh r =
    let ete : ℕ = w.end_to_end in
    let label : ℕ = label_of w in
    let req : Bytes = request_header (req_size g) 280 ete label ++ encode_avps (origin g) in
    let ans : Bytes =
      answer_header (ans_size h) req
      ++ encode_avps (std_avp 268 (set_4bytes result_code) ∷ origin h) in
    let (after, e, out, freed) = settled n tr ticks w dwa_received r in
    (
      req,
      ans,
      after,
      label_taken n tr ticks w r,
      dwr_lem g t ete label sg (build_msg_buffers-Holds got g t sg bg),
      dispatch_request req x refl refl,
      answer_lem h u req result_code sh (build_msg_buffers-Holds got' h u sh bh) (omega arith)
          (omega arith),
      dispatch_response ans (requested tr ticks w) ete label refl refl
            (load_word-store_word ete [] r.ids)
            (load_word-store_word label [] (r.labelled.next (code_of ete w)))
          ∙ ap ok e,
      out,
      freed,
    )

-- ===== src/Msg/Translate/Safe.antt =====
-- `AAATranslateMessage` on any source: it stays inside it, ends, and keeps the books of the blocks.
use disc.Base.{
  ℕ, zero, suc, ◌+◌, ◌-◌, ◌≤◌, ◌≡◌, refl, ◌∙◌, Bool, true, false, inl, inr, Option, none, some,
  List, [], ◌∷◌, ltb, le→leb, Bool-cases, length, All, arith,
}
use disc.Utils.{Bytes}
use disc.Shm.{Allocator, Shm, shm_malloc}
use disc.Msg.{Avp, Message}
use disc.Msg.Wire.{Result, ok, err, fault, IsByte}
use disc.Msg.Create.{create_avp, new_avp, free_avp}
use disc.Msg.AvpList.Blocks.{blocks_of, blocks, add_avp-blocks}
use disc.Msg.Translate.{
  AvpHeader, create_from, Loop, finished, dropped, outside, out_of_fuel, Round, advanced, halted,
  link_created, read_round, translate_avps, translate_in, translate_message, Outcome, translated,
  refused, faulted, undefined, stuck, free_avps, free_message, free_buf, conclude, translate_body,
}
use disc.Msg.Translate.Reads.{
  Holds, Read, IsRead, parse_avp_header-IsRead, IsParsed, parse_header-IsParsed,
}

-- A creation takes one block for an AVP that does not own its data, or none if it fails.
abbrev Balanced : Shm → Option Avp × Shm → Type 0
Balanced m (none, m') = m'.live ≡ m.live
Balanced m (some avp, m') = (m'.live ≡ m.live + 1) × (blocks_of avp ≡ 1)

create_from-Balanced :
    (alloc : Allocator) (source : Bytes) (h : AvpHeader) (m : Shm)
    → Balanced m (create_from alloc source h m)
unfolding create_from create_avp new_avp shm_malloc
create_from-Balanced alloc source h m = ground arith

-- The loop ended without an access outside the source and with fuel left, and the message holds the
-- blocks that were allocated since.
abbrev IsSound : Message → Shm → Loop → Type 0
IsSound msg m (finished msg' m') =
    (m'.live + blocks msg.avps ≡ m.live + blocks msg'.avps) × (msg'.buf ≡ msg.buf)
IsSound msg m (dropped msg' m') =
    (m'.live + blocks msg.avps ≡ m.live + blocks msg'.avps) × (msg'.buf ≡ msg.buf)
IsSound msg m outside = ⊥
IsSound msg m out_of_fuel = ⊥

-- A round that goes on is sound so far, and goes on 8 bytes further at least.
abbrev IsSoundRound : ℕ → Message → Shm → Round → Type 0
IsSoundRound ptr msg m (advanced ptr' msg' m') =
    (ptr + 8 ≤ ptr')
    × (m'.live + blocks msg.avps ≡ m.live + blocks msg'.avps)
    × (msg'.buf ≡ msg.buf)
IsSoundRound ptr msg m (halted l) = IsSound msg m l

link_created-IsSoundRound :
    (end ptr : ℕ) (h : AvpHeader) (msg : Message) (m : Shm) (r : Option Avp × Shm)
    → Read end ptr h
    → Balanced m r
    → IsSoundRound ptr msg m (link_created h msg r)
unfolding link_created
link_created-IsSoundRound end ptr h msg m (none, m') read b = (omega arith, refl)
link_created-IsSoundRound end ptr h msg m (some avp, m') read (taken, one) =
    let (sum, same) = add_avp-blocks msg avp in (omega (arith, read.later), omega arith, same)

read_round-IsSoundRound :
    (alloc : Allocator) (source : Bytes) (end ptr : ℕ) (r : Result AvpHeader) (msg : Message)
    (m : Shm)
    → end ≤ length source
    → IsRead end ptr r
    → IsSoundRound ptr msg m (read_round alloc source r msg m)
unfolding read_round
read_round-IsSoundRound alloc source end ptr (ok h) msg m room read =
    rw (le→leb (h.data_at + h.data_len) (length source) (omega (arith, read.inside)))
      (link_created-IsSoundRound end ptr h msg m _ read (create_from-Balanced alloc source h m))
read_round-IsSoundRound alloc source end ptr err msg m room read = (refl, refl)
read_round-IsSoundRound alloc source end ptr fault msg m room read = read

-- Soundness from a later point carries over to an earlier one.
IsSound-trans :
    (msg msg' : Message) (m m' : Shm) (l : Loop)
    → m'.live + blocks msg.avps ≡ m.live + blocks msg'.avps
    → msg'.buf ≡ msg.buf
    → IsSound msg' m' l
    → IsSound msg m l
IsSound-trans msg msg' m m' (finished t n) e b (h, c) = (omega arith, c ∙ b)
IsSound-trans msg msg' m m' (dropped t n) e b (h, c) = (omega arith, c ∙ b)
IsSound-trans msg msg' m m' outside e b h = h
IsSound-trans msg msg' m m' out_of_fuel e b h = h

translate_avps-IsSound :
    (alloc : Allocator) (source : Bytes) (end fuel ptr : ℕ) (msg : Message) (m : Shm)
    → Holds source end
    → end ≤ ptr + fuel
    → IsSound msg m (translate_avps alloc source end fuel ptr msg m)
unfolding translate_avps
translate_avps-IsSound alloc source end zero ptr msg m h e =
    let done : ltb ptr end ≡ false = ground arith in rw done (refl, refl)
translate_avps-IsSound alloc source end (suc fuel) ptr msg m h e = elim (Bool-cases (ltb ptr end)) [
  | inl more ↦ rw more (
      go (λ p t n le. translate_avps-IsSound alloc source end fuel p t n h le) _
        (read_round-IsSoundRound alloc source end ptr _ msg m h.room
          (parse_avp_header-IsRead source end ptr h)))
  | inr done ↦ rw done (refl, refl)
]
  where
    go :
        ((p : ℕ) (t : Message) (n : Shm)
          → end ≤ p + fuel
          → IsSound t n (translate_avps alloc source end fuel p t n))
        → (r : Round) → IsSoundRound ptr msg m r
        → IsSound msg m (elim r as (λ _. Loop) [
          | advanced ptr' msg' m' ↦ translate_avps alloc source end fuel ptr' msg' m'
          | halted l ↦ l
        ])
    go ih (advanced ptr' msg' m') (further, live, buf) =
        IsSound-trans msg msg' m m' _ live buf (ih ptr' msg' m' (omega arith))
    go ih (halted l) s = s

free_avps-live : (xs : List Avp) (m : Shm) → (free_avps xs m).live ≡ m.live - blocks xs
unfolding free_avps blocks free_avp
free_avps-live [] m = omega arith
free_avps-live (a ∷ xs) m = ground (arith, free_avps-live xs (free_avp a m))

free_message-live :
    (msg : Message) (m : Shm)
    → msg.buf ≡ none
    → (free_message msg m).live ≡ m.live - blocks msg.avps - 1
unfolding free_message
free_message-live msg m e = rw e (omega (arith, free_avps-live msg.avps m))

-- What a caller may rely on.
abbrev pub IsSafe : Shm → Outcome → Type 0
IsSafe m (translated msg m') = m'.live ≡ m.live + 1 + blocks msg.avps
IsSafe m (refused m') = m'.live ≡ m.live
IsSafe m faulted = ⊥
IsSafe m undefined = ⊥
IsSafe m stuck = ⊥

conclude-IsSafe :
    (attach_buf : Bool) (buf : Bytes) (msg : Message) (m m₀ : Shm) (l : Loop)
    → blocks msg.avps ≡ 0
    → msg.buf ≡ none
    → m.live ≡ m₀.live + 1
    → IsSound msg m l
    → IsSafe m₀ (conclude attach_buf buf l)
unfolding conclude
conclude-IsSafe true buf msg m m₀ (finished t n) e b c (h, _) = omega arith
conclude-IsSafe false buf msg m m₀ (finished t n) e b c (h, _) = omega arith
conclude-IsSafe attach_buf buf msg m m₀ (dropped t n) e b c (h, d) =
    omega (arith, free_message-live t n (d ∙ b))
conclude-IsSafe attach_buf buf msg m m₀ outside e b c h = h
conclude-IsSafe attach_buf buf msg m m₀ out_of_fuel e b c h = h

translate_body-IsSafe :
    (alloc : Allocator) (source : Bytes) (source_len : ℕ) (attach_buf : Bool)
    (r : Result (ℕ × Message)) (m m₀ : Shm)
    → Holds source source_len
    → m.live ≡ m₀.live + 1
    → IsParsed source_len r
    → IsSafe m₀ (translate_body alloc source source_len attach_buf r m)
unfolding translate_body
translate_body-IsSafe alloc source source_len attach_buf (ok (msg_len, msg)) m m₀ h c p =
    let inside : Holds source msg_len = record {
      bytes = h.bytes;
      room = omega (arith, h.room, p.within);
    } in
    conclude-IsSafe attach_buf _ msg m m₀ _ (rw p.no_avps (unfold blocks in refl)) p.no_buf c (
      translate_avps-IsSound alloc source msg_len source_len 20 msg m inside
        (omega (arith, p.within)))
translate_body-IsSafe alloc source source_len attach_buf err m m₀ h c p =
    unfold free_message free_avps free_buf in omega arith
translate_body-IsSafe alloc source source_len attach_buf fault m m₀ h c p = p

translate_in-IsSafe :
    (alloc : Allocator) (source : Bytes) (source_len : ℕ) (attach_buf : Bool) (r : Option ℕ × Shm)
    (m₀ : Shm)
    → Holds source source_len
    → 20 ≤ source_len
    → ((p : ℕ) → r.0 ≡ some p → r.1.live ≡ m₀.live + 1)
    → (r.0 ≡ none → r.1.live ≡ m₀.live)
    → IsSafe m₀ (translate_in alloc source source_len attach_buf r)
unfolding translate_in
translate_in-IsSafe alloc source source_len attach_buf (none, m) m₀ h l c d = d refl
translate_in-IsSafe alloc source source_len attach_buf (some p, m) m₀ h l c d =
    translate_body-IsSafe alloc source source_len attach_buf _ m m₀ h (c p refl)
      (parse_header-IsParsed source source_len h l)

-- With pointers of 8 bytes, so that a pointer plus a length of 32 bits does not wrap, for any bytes in a
-- source of at least 20 bytes, and any behaviour of the allocator: `AAATranslateMessage` reads nothing outside the `source_len` bytes that it was given and
-- ends, and the data of every AVP that it creates lie inside these bytes. If
-- it returns NULL, every block that it allocated has been freed; if it returns a message, the blocks
-- allocated are the message and those of its AVPs.
pub translate_message-IsSafe :
    (alloc : Allocator) (source : Bytes) (source_len : ℕ) (attach_buf : Bool) (m : Shm)
    → All IsByte source
    → source_len ≤ length source
    → 20 ≤ source_len
    → IsSafe m (translate_message alloc source source_len attach_buf m)
unfolding translate_message shm_malloc
translate_message-IsSafe alloc source source_len attach_buf m bytes room l =
    let long : ltb source_len 20 ≡ false = ground arith in
    rw long (
      translate_in-IsSafe alloc source source_len attach_buf (shm_malloc alloc m) m
        (record { bytes = bytes; room = room }) l (λ p e. ground arith) (λ e. ground arith))

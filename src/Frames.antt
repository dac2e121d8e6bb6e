-- ===== src/Frames.antt =====
-- packages/opencode/src/raw-ws-node.ts: WebSocket frames as the client reads them, from the bytes
-- that arrive to the events that it emits. A byte is a number, and the text of a message or of a
-- close reason is given by its UTF-8 bytes.
pub mod Parsing
pub mod Chunks
pub mod Handshake
pub mod Upgrade
pub mod Writing
pub mod Masking
pub mod Receiving
pub mod Closing
pub mod Keeping
pub mod Opening
pub mod Runs
mod Tests
use openai_auth.Prelude.{
  ℕ, zero, suc, ◌+◌, ◌-◌, ◌*◌, ◌/◌, ◌%◌, String, Bool, true, false, ◌&&◌, ◌||◌, not, Option, none,
  some, List, [], ◌∷◌, ◌++◌, length, ltb, leb, if◌then◌else◌, ◌==◌, nat_eq,
}

abbrev pub Bytes : Type 0
Bytes = List ℕ

pub record Frame : Type 0 where
  pub fin : Bool
  pub opcode : ℕ
  pub payload : Bytes

abbrev pub take : ℕ → Bytes → Bytes
take zero xs = []
take (suc n) [] = []
take (suc n) (x ∷ xs) = x ∷ take n xs

abbrev pub skip : ℕ → Bytes → Bytes
skip zero xs = xs
skip (suc n) [] = []
skip (suc n) (x ∷ xs) = skip n xs

-- `(b & 0x80) !== 0`
abbrev pub high_bit : ℕ → Bool
high_bit b = b / 128 % 2 == 1

-- The big-endian number of some bytes.
abbrev pub number_of : ℕ → Bytes → ℕ
number_of n [] = n
number_of n (b ∷ bytes) = number_of (n * 256 + b) bytes

-- The length of the payload, and how many bytes of `rest` say it, if they are there.
abbrev pub payload_length : ℕ → Bytes → Option (ℕ × ℕ)
payload_length len rest =
    if len == 126
    then if ltb (length rest) 2 then none else some (number_of 0 (take 2 rest), 2)
    else if len == 127
    then if ltb (length rest) 8 then none else some (number_of 0 (take 8 rest), 8)
    else some (len, 0)

abbrev pub mask_length : ℕ → ℕ
mask_length b1 = if high_bit b1 then 4 else 0

-- The payload behind `offset` bytes of `rest`, if all of it is there, and what follows it.
abbrev pub cut_payload : ℕ → ℕ → ℕ → Bytes → Option (Frame × Bytes)
cut_payload b0 offset len rest =
    if ltb (length rest) (offset + len)
    then none
    else some (
      record { fin = high_bit b0; opcode = b0 % 16; payload = take len (skip offset rest) },
      skip (offset + len) rest,
    )

abbrev pub with_length : ℕ → ℕ → Bytes → Option (ℕ × ℕ) → Option (Frame × Bytes)
with_length b0 b1 rest none = none
with_length b0 b1 rest (some (len, said)) = cut_payload b0 (said + mask_length b1) len rest

-- The body of the loop of `drainFrames`: the first frame and the buffer behind it, or none where
-- the buffer has no whole frame.
pub parse_frame : Bytes → Option (Frame × Bytes)
parse_frame [] = none
parse_frame (b0 ∷ []) = none
parse_frame (b0 ∷ b1 ∷ rest) = with_length b0 b1 rest (payload_length (b1 % 128) rest)

-- What is behind the frame that a buffer starts with.
abbrev pub behind : Option (Frame × Bytes) → Bytes
behind none = []
behind (some (frame, rest)) = rest

abbrev pub put_frame : Bytes → Option (Frame × Bytes) → List Frame × Bytes → List Frame × Bytes
put_frame buffer none drained = ([], buffer)
put_frame buffer (some (frame, rest)) drained = (frame ∷ drained.0, drained.1)

-- The loop of `drainFrames`: the frames of a buffer, and the bytes that are left.
pub drain : ℕ → Bytes → List Frame × Bytes
unfolding parse_frame
drain zero buffer = ([], buffer)
drain (suc fuel) buffer =
    let drained = drain fuel (behind (parse_frame buffer)) in
    put_frame buffer (parse_frame buffer) drained

-- On the buffer's length as fuel: each frame takes two bytes at least.
pub frames_of : Bytes → List Frame × Bytes
unfolding drain
frames_of buffer = drain (length buffer) buffer

-- An error event, by the text or the answer that it carries.
pub data ErrorEvent : Type 0 where
  upgrade_failed : Bytes → ErrorEvent
  accept_mismatch : ErrorEvent
  upgrade_rejected : ℕ → Bytes → ErrorEvent
  socket_error : Bytes → ErrorEvent

-- What the socket does to the outside: a frame that it writes, the end of the TCP socket, and the
-- events that it emits.
pub data Effect : Type 0 where
  opens : Effect
  errors : ErrorEvent → Effect
  destroys : Effect
  writes : ℕ → Bytes → Effect
  ends : Effect
  closes : ℕ → Bytes → Effect
  messages : Bytes → Effect

-- The state once the TCP socket is there. `effects` is in order.
pub record Socket : Type 0 where
  pub handshake_done : Bool
  pub upgrade_failure_emitted : Bool
  pub expected_accept : Bytes
  pub rx_buffer : Bytes
  pub ready_state : ℕ
  pub frag_opcode : ℕ
  pub frag_chunks : List Bytes
  pub peer_close : Option (ℕ × Bytes)
  pub close_emitted : Bool
  pub effects : List Effect

abbrev pub emit : Effect → Socket → Socket
emit effect s = record s { effects = s.effects ++ effect ∷ [] }

-- At most one close event.
abbrev pub emit_close : ℕ → Bytes → Socket → Socket
emit_close code reason s =
    if s.close_emitted then s else emit (closes code reason) (record s { close_emitted = true })

-- The code and the reason of a close frame.
abbrev pub close_of : Bytes → ℕ × Bytes
close_of (high ∷ low ∷ reason) = (high * 256 + low, reason)
close_of _ = (1005, [])

abbrev pub concat_all : List Bytes → Bytes
concat_all [] = []
concat_all (chunk ∷ chunks) = chunk ++ concat_all chunks

abbrev pub add_fragment : ℕ → Bytes → Socket → Socket
add_fragment opcode payload s =
    if opcode == 1 || opcode == 2
    then record s { frag_opcode = opcode; frag_chunks = payload ∷ [] }
    else if opcode == 0
    then record s { frag_chunks = s.frag_chunks ++ payload ∷ [] }
    else s

abbrev pub finish_message : Socket → Socket
finish_message s =
    let cleared = record s { frag_chunks = [] } in
    if s.frag_opcode == 1 then emit (messages (concat_all s.frag_chunks)) cleared else cleared

pub handle_frame : Frame → Socket → Socket
handle_frame frame s =
    if frame.opcode == 9
    then emit (writes 10 frame.payload) s
    else if frame.opcode == 10
    then s
    else if frame.opcode == 8
    then emit_close (close_of frame.payload).0 (close_of frame.payload).1
        (emit ends (record s { ready_state = 3; peer_close = some (close_of frame.payload) }))
    else if frame.fin
    then finish_message (add_fragment frame.opcode frame.payload s)
    else add_fragment frame.opcode frame.payload s

pub handle_frames : List Frame → Socket → Socket
unfolding handle_frame
handle_frames [] s = s
handle_frames (frame ∷ frames) s = handle_frames frames (handle_frame frame s)

-- `drainFrames`, once the bytes `d` are behind those of the buffer.
unfoldable pub drain_frames : Bytes → Socket → Socket
unfolding frames_of handle_frames
drain_frames d s =
    let drained = frames_of (s.rx_buffer ++ d) in
    handle_frames drained.0 (record s { rx_buffer = drained.1 })

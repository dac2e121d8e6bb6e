-- ===== src/Frames/Tests.antt =====
-- Runs of the frame reader, and its theorem at concrete bytes.
use openai_auth.Prelude.{
  ◌≤◌, ◌≡◌, ◌⊎◌, ◌↔◌, refl, true, false, none, some, List, [], ◌∷◌, ◌++◌, arith, if◌then◌else◌,
}
use openai_auth.Frames.Writing.{Mask, write_frame, receive}
use openai_auth.Frames.Receiving.{receive-write_frame}
use openai_auth.Frames.Closing.{
  SocketCall, receives, sends, loses_socket, closes_socket, socket_run,
}
use openai_auth.Frames.Upgrade.{on_data}
use openai_auth.Frames.Opening.{Accepts, on_data_opens_iff}
use openai_auth.Frames.Runs.{close_events, text_frames, one_close_event, closed_for_good}
use openai_auth.Frames.Chunks.{drain_frames-append}
use openai_auth.Frames.{Bytes, Socket, messages, writes, ends, opens, drain_frames}

abbrev idle : Socket
idle = record {
  handshake_done = true;
  upgrade_failure_emitted = false;
  expected_accept = 107 ∷ [];
  rx_buffer = [];
  ready_state = 1;
  frag_opcode = 0;
  frag_chunks = [];
  peer_close = none;
  close_emitted = false;
  effects = [];
}

-- A text frame of two bytes, and a ping of one byte.
abbrev text_and_ping : Bytes
text_and_ping = 129 ∷ 2 ∷ 104 ∷ 105 ∷ 137 ∷ 1 ∷ 7 ∷ []

reads_both :
    (drain_frames text_and_ping idle).effects ≡ messages (104 ∷ 105 ∷ []) ∷ writes 10 (7 ∷ []) ∷ []
unfolding drain_frames
reads_both = refl

abbrev half : Bytes
half = 129 ∷ 2 ∷ 104 ∷ []

abbrev other_half : Bytes
other_half = 105 ∷ []

drain_frames-append_example :
    drain_frames other_half (drain_frames half idle) ≡ drain_frames (half ++ other_half) idle
drain_frames-append_example = drain_frames-append half other_half idle

abbrev mask : Mask
mask = record { first = 17; second = 34; third = 51; fourth = 68 }

-- The text "hi", masked.
writes_hi : write_frame 1 (104 ∷ 105 ∷ []) mask ≡ 129 ∷ 130 ∷ 17 ∷ 34 ∷ 51 ∷ 68 ∷ 121 ∷ 75 ∷ []
unfolding write_frame
writes_hi = refl

receive-write_frame_example :
    receive (write_frame 1 (104 ∷ 105 ∷ []) mask ++ 7 ∷ [])
    ≡ some (record { fin = true; opcode = 1; payload = 104 ∷ 105 ∷ [] }, 7 ∷ [])
receive-write_frame_example =
    receive-write_frame 1 (104 ∷ 105 ∷ []) mask (7 ∷ []) (omega arith) (omega arith)
      (record {
        first = omega arith;
        second = omega arith;
        third = omega arith;
        fourth = omega arith;
      })
      (omega arith, (omega arith, _))

-- A close frame of the peer, then the loss of the connection, then a text that is not sent.
abbrev calls : List SocketCall
calls = receives (136 ∷ 2 ∷ 3 ∷ 233 ∷ []) ∷ loses_socket [] ∷ sends (104 ∷ []) ∷ []

one_close_event_example :
    (close_events (socket_run calls idle) ≤ 1)
    × (close_events (socket_run calls idle)
        ≡ (if (socket_run calls idle).close_emitted then 1 else 0))
one_close_event_example = one_close_event calls idle (record { counted = refl })

abbrev shut : Socket
shut = record idle { ready_state = 3 }

closed_for_good_example :
    (((socket_run calls shut).ready_state ≡ 3)
      × (text_frames (socket_run calls shut) ≡ text_frames shut))
    ⊎ ((true ≡ false) × ((socket_run calls shut).handshake_done ≡ true))
closed_for_good_example = closed_for_good calls shut refl

abbrev connecting : Socket
connecting = record idle { handshake_done = false; ready_state = 0 }

-- HTTP/1.1 101, with the accept text "k".
abbrev accepted : Bytes
accepted =
    72 ∷ 84 ∷ 84 ∷ 80 ∷ 47 ∷ 49 ∷ 46 ∷ 49 ∷ 32 ∷ 49 ∷ 48 ∷ 49 ∷ 13 ∷ 10 ∷ 83 ∷ 101 ∷ 99 ∷ 45 ∷ 87
    ∷ 101 ∷ 98 ∷ 83 ∷ 111 ∷ 99 ∷ 107 ∷ 101 ∷ 116 ∷ 45 ∷ 65 ∷ 99 ∷ 99 ∷ 101 ∷ 112 ∷ 116 ∷ 58 ∷ 32
    ∷ 107 ∷ 13 ∷ 10 ∷ 13 ∷ 10 ∷ []

opens_on_accept : (on_data accepted connecting).ready_state ≡ 1
unfolding on_data
opens_on_accept = refl

refuses_other :
    (on_data accepted (record connecting { expected_accept = 108 ∷ [] })).ready_state ≡ 3
unfolding on_data
refuses_other = refl

-- Closed while it connects, it is opened by the answer, and writes the text.
reopens :
    (socket_run (closes_socket ∷ receives accepted ∷ sends (104 ∷ []) ∷ []) connecting).effects
    ≡ writes 8 (3 ∷ 232 ∷ []) ∷ ends ∷ opens ∷ writes 1 (104 ∷ []) ∷ []
unfolding socket_run
reopens = refl

on_data_opens_iff_example :
    ((on_data accepted connecting).handshake_done ≡ true) ↔ Accepts (107 ∷ []) accepted
on_data_opens_iff_example = on_data_opens_iff accepted connecting refl

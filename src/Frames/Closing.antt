-- ===== src/Frames/Closing.antt =====
-- packages/opencode/src/raw-ws-node.ts: what the socket still does once it is closing.
use openai_auth.Prelude.{
  Bool, true, ℕ, Option, none, some, List, [], ◌∷◌, if◌then◌else◌, ◌==◌, nat_eq,
}
use openai_auth.Frames.{Bytes, writes, ends, Socket, emit, emit_close, errors, socket_error}
use openai_auth.Frames.Upgrade.{emit_rejected_upgrade, on_data}

-- `send`, of the UTF-8 bytes of the text.
unfoldable pub send : Bytes → Socket → Socket
send bytes s = if s.ready_state == 1 then emit (writes 1 bytes) s else s

-- `close`; its frame has the code 1000.
unfoldable pub close : Socket → Socket
close s =
    if s.ready_state == 3
    then s
    else record (emit ends (emit (writes 8 (3 ∷ 232 ∷ [])) (record s { ready_state = 2 }))) {
      ready_state = 3;
    }

-- What a lost connection is closed with.
abbrev pub last_code : Option (ℕ × Bytes) → ℕ
last_code none = 1006
last_code (some (code, reason)) = code

abbrev pub last_reason : Bytes → Option (ℕ × Bytes) → Bytes
last_reason lost none = lost
last_reason lost (some (code, reason)) = reason

-- The handlers of the TCP socket's close and of its error. `lost` is the text "socket closed".
abbrev pub closed_unless : Bytes → Bool × Socket → Socket
closed_unless lost (rejected, s) =
    if rejected
    then s
    else emit_close (last_code s.peer_close) (last_reason lost s.peer_close)
        (record s { ready_state = 3 })

unfoldable pub on_close : Bytes → Socket → Socket
unfolding emit_rejected_upgrade
on_close lost s = closed_unless lost (emit_rejected_upgrade true s)

abbrev pub failed_unless : Bytes → Bool × Socket → Socket
failed_unless message (rejected, s) =
    if rejected then s else emit (errors (socket_error message)) (record s { ready_state = 3 })

unfoldable pub on_error : Bytes → Socket → Socket
unfolding emit_rejected_upgrade
on_error message s = failed_unless message (emit_rejected_upgrade true s)

-- All that may happen to the socket, in any order.
pub data SocketCall : Type 0 where
  receives : Bytes → SocketCall
  sends : Bytes → SocketCall
  closes_socket : SocketCall
  loses_socket : Bytes → SocketCall
  fails_socket : Bytes → SocketCall

unfoldable pub socket_step : SocketCall → Socket → Socket
unfolding send close on_close on_error on_data
socket_step (receives bytes) s = on_data bytes s
socket_step (sends bytes) s = send bytes s
socket_step closes_socket s = close s
socket_step (loses_socket lost) s = on_close lost s
socket_step (fails_socket message) s = on_error message s

unfoldable pub socket_run : List SocketCall → Socket → Socket
unfolding socket_step
socket_run [] s = s
socket_run (call ∷ calls) s = socket_run calls (socket_step call s)

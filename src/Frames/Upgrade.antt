-- ===== src/Frames/Upgrade.antt =====
-- packages/opencode/src/raw-ws-node.ts: bytes that arrive before and after the upgrade, and its refusal as
-- packages/opencode/src/raw-ws-upgrade.ts reads it.
use openai_auth.Prelude.{
  ℕ, ◌+◌, ◌-◌, ◌*◌, Bool, true, false, ◌&&◌, not, Option, none, some, List, [], ◌∷◌, ◌++◌, length,
  ltb, if◌then◌else◌, ◌==◌, nat_eq,
}
use openai_auth.Frames.{
  Bytes, upgrade_failed, accept_mismatch, upgrade_rejected, opens, errors, destroys, Socket, emit,
  drain_frames,
}
use openai_auth.Frames.Handshake.{
  is_decimal, lower_all, same_bytes, skip_blanks, cut_at, header_of, status_line,
  rejected_upgrade_status, accept_of, is_accepted, is_blank,
}

abbrev drop_lf : List Bytes → List Bytes
drop_lf [] = []
drop_lf ([] ∷ lines) = [] ∷ lines
drop_lf ((c ∷ line) ∷ lines) = line ∷ lines

abbrev put_char : ℕ → List Bytes → List Bytes
put_char c [] = (c ∷ []) ∷ []
put_char c (line ∷ lines) = (c ∷ line) ∷ lines

abbrev starts_lf : Bytes → Bool
starts_lf [] = false
starts_lf (c ∷ cs) = c == 10

-- `split('\r\n')`
abbrev split_lines : Bytes → List Bytes
split_lines [] = [] ∷ []
split_lines (c ∷ cs) =
    let lines = split_lines cs in
    if c == 13 && starts_lf cs then [] ∷ drop_lf lines else put_char c lines

abbrev lacks_bytes : Bytes → Bool
lacks_bytes [] = true
lacks_bytes (c ∷ cs) = false

abbrev drop_last_blanks : Bytes → Bytes
drop_last_blanks [] = []
drop_last_blanks (c ∷ cs) =
    let rest = drop_last_blanks cs in if is_blank c && lacks_bytes rest then [] else c ∷ rest

abbrev trimmed : Bytes → Bytes
trimmed bytes = drop_last_blanks (skip_blanks bytes)

abbrev content_length_name : Bytes
content_length_name =
    99 ∷ 111 ∷ 110 ∷ 116 ∷ 101 ∷ 110 ∷ 116 ∷ 45 ∷ 108 ∷ 101 ∷ 110 ∷ 103 ∷ 116 ∷ 104 ∷ []

abbrev length_in : Option (Bytes × Bytes) → Option Bytes
length_in none = none
length_in (some (name, value)) =
    if same_bytes (lower_all (trimmed name)) content_length_name then some (trimmed value) else none

abbrev or_earlier : Option Bytes → Option Bytes → Option Bytes
or_earlier none earlier = earlier
or_earlier (some later) earlier = some later

-- The last line of the name counts.
abbrev last_length : List Bytes → Option Bytes
last_length [] = none
last_length (line ∷ lines) = or_earlier (last_length lines) (length_in (cut_at (58 ∷ []) line))

abbrev without_first : List Bytes → List Bytes
without_first [] = []
without_first (line ∷ lines) = lines

unfoldable pub content_length_header : Bytes → Option Bytes
content_length_header header = last_length (without_first (split_lines header))

abbrev all_digits : Bytes → Bool
all_digits [] = true
all_digits (c ∷ cs) = is_decimal c && all_digits cs

abbrev decimal : ℕ → Bytes → ℕ
decimal n [] = n
decimal n (c ∷ cs) = decimal (n * 10 + (c - 48)) cs

-- More of the body is awaited.
abbrev is_partial : Option Bytes → Bytes → Bool
is_partial none body = true
is_partial (some text) body = if all_digits text then ltb (length body) (decimal 0 text) else false

abbrev rejection : ℕ → Bool → Bytes → Bytes → Option (ℕ × Bytes)
rejection status finalize_partial header body =
    if status == 101
    then none
    else if not finalize_partial && is_partial (content_length_header header) body
    then none
    else some (status, body)

abbrev rejection_of : Option ℕ → Bool → Bytes → Bytes → Option (ℕ × Bytes)
rejection_of none finalize_partial header body = none
rejection_of (some status) finalize_partial header body =
    rejection status finalize_partial header body

-- The status and the body of the event.
unfoldable pub rejected_upgrade_event : Bytes → Bytes → Bool → Option (ℕ × Bytes)
unfolding rejected_upgrade_status content_length_header
rejected_upgrade_event header body finalize_partial =
    rejection_of (rejected_upgrade_status (status_line header)) finalize_partial header body

abbrev event_of : Option (Bytes × Bytes) → Bool → Option (ℕ × Bytes)
event_of none finalize_partial = none
event_of (some (header, body)) finalize_partial =
    rejected_upgrade_event header body finalize_partial

-- Whether the upgrade was rejected, now or before, and the state.
abbrev pub reject_with : Option (ℕ × Bytes) → Socket → Bool × Socket
reject_with none s = (false, s)
reject_with (some (status, body)) s = (
  true,
  emit (errors (upgrade_rejected status body))
      (record s { upgrade_failure_emitted = true; ready_state = 3 }),
)

unfoldable pub emit_rejected_upgrade : Bool → Socket → Bool × Socket
unfolding rejected_upgrade_event
emit_rejected_upgrade finalize_partial s =
    if s.upgrade_failure_emitted
    then (true, s)
    else if s.handshake_done
    then (false, s)
    else reject_with (event_of (header_of s.rx_buffer) finalize_partial) s

-- The answer is no HTTP status.
abbrev pub upgrade_fails : Bytes → Socket → Socket
upgrade_fails line s =
    emit (errors (upgrade_failed line)) (emit destroys (record s { ready_state = 3 }))

abbrev pub destroy_rejected : Bool × Socket → Socket
destroy_rejected (rejected, s) = if rejected then emit destroys s else s

-- The accept text of a 101 answer.
abbrev pub open_or_mismatch : Bool → Bytes → Socket → Socket
open_or_mismatch accepted rest s =
    if accepted
    then drain_frames []
        (emit opens (record s { handshake_done = true; ready_state = 1; rx_buffer = rest }))
    else emit (errors accept_mismatch) (emit destroys (record s { ready_state = 3 }))

abbrev pub by_status : Option ℕ → Bytes → Bytes → Socket → Socket
by_status none header rest s = upgrade_fails (status_line header) s
by_status (some status) header rest s =
    if not (status == 101)
    then destroy_rejected (emit_rejected_upgrade false s)
    else open_or_mismatch (is_accepted (accept_of header) s.expected_accept) rest s

abbrev pub shake_hands : Option (Bytes × Bytes) → Socket → Socket
shake_hands none s = s
shake_hands (some (header, rest)) s =
    by_status (rejected_upgrade_status (status_line header)) header rest s

unfoldable pub on_data : Bytes → Socket → Socket
unfolding drain_frames emit_rejected_upgrade rejected_upgrade_status accept_of
on_data d s =
    if s.handshake_done
    then drain_frames d s
    else shake_hands (header_of (s.rx_buffer ++ d)) (record s { rx_buffer = s.rx_buffer ++ d })

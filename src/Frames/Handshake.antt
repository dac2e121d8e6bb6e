-- ===== src/Frames/Handshake.antt =====
-- packages/opencode/src/raw-ws-node.ts: the answer to the upgrade, and the bytes that arrive before and
-- after it; packages/opencode/src/raw-ws-upgrade.ts: an upgrade that is refused. A header is its
-- Latin-1 bytes. `Number` of a content length is that of a text of digits; any other text counts as no
-- number. Of a refused upgrade the event keeps the status and the body.
use openai_auth.Prelude.{
  ℕ, ◌+◌, ◌-◌, ◌*◌, Bool, true, false, ◌&&◌, ◌||◌, Option, none, some, [], ◌∷◌, leb, if◌then◌else◌,
  ◌==◌, nat_eq,
}
use openai_auth.Frames.{Bytes}

abbrev pub is_blank : ℕ → Bool
is_blank c = leb 9 c && leb c 13 || c == 32 || c == 160

abbrev pub is_decimal : ℕ → Bool
is_decimal c = leb 48 c && leb c 57

abbrev lower : ℕ → ℕ
lower c = if leb 65 c && leb c 90 then c + 32 else c

abbrev pub lower_all : Bytes → Bytes
lower_all [] = []
lower_all (c ∷ cs) = lower c ∷ lower_all cs

abbrev pub same_bytes : Bytes → Bytes → Bool
same_bytes [] [] = true
same_bytes [] (y ∷ ys) = false
same_bytes (x ∷ xs) [] = false
same_bytes (x ∷ xs) (y ∷ ys) = x == y && same_bytes xs ys

-- What follows `prefix`, if the bytes start with it, whatever the case of letters.
abbrev after_prefix : Bytes → Bytes → Option Bytes
after_prefix [] bytes = some bytes
after_prefix (p ∷ prefix) [] = none
after_prefix (p ∷ prefix) (b ∷ bytes) =
    let rest = after_prefix prefix bytes in if lower b == p then rest else none

abbrev put_byte : ℕ → Option (Bytes × Bytes) → Option (Bytes × Bytes)
put_byte b none = none
put_byte b (some (before, behind)) = some (b ∷ before, behind)

abbrev cut_here : ℕ → Option Bytes → Option (Bytes × Bytes) → Option (Bytes × Bytes)
cut_here b none later = put_byte b later
cut_here b (some rest) later = some ([], rest)

-- The bytes before a mark and those behind it, at its first place.
abbrev pub cut_at : Bytes → Bytes → Option (Bytes × Bytes)
cut_at mark [] = none
cut_at mark (b ∷ bytes) =
    let later = cut_at mark bytes in cut_here b (after_prefix mark (b ∷ bytes)) later

abbrev crlf : Bytes
crlf = 13 ∷ 10 ∷ []

-- The header, and what follows the blank line.
abbrev pub header_of : Bytes → Option (Bytes × Bytes)
header_of buffer = cut_at (13 ∷ 10 ∷ 13 ∷ 10 ∷ []) buffer

abbrev first_of : Bytes → Option (Bytes × Bytes) → Bytes
first_of whole none = whole
first_of whole (some (line, rest)) = line

abbrev pub status_line : Bytes → Bytes
status_line header = first_of header (cut_at crlf header)

abbrev pub skip_blanks : Bytes → Bytes
skip_blanks [] = []
skip_blanks (c ∷ cs) = let rest = skip_blanks cs in if is_blank c then rest else c ∷ cs

abbrev word_of : Bytes → Bytes
word_of [] = []
word_of (c ∷ cs) = let rest = word_of cs in if is_blank c then [] else c ∷ rest

-- `(\d{3})`
abbrev three_digits : Bytes → Option ℕ
three_digits (a ∷ b ∷ c ∷ rest) =
    if is_decimal a && is_decimal b && is_decimal c
    then some ((a - 48) * 100 + (b - 48) * 10 + (c - 48))
    else none
three_digits _ = none

-- `\s+(\d{3})`
abbrev spaced_status : Bytes → Option ℕ
spaced_status [] = none
spaced_status (c ∷ cs) = if is_blank c then three_digits (skip_blanks cs) else none

-- `(?:\.\d)?`
abbrev after_minor : Bytes → Bytes
after_minor (p ∷ d ∷ rest) = if p == 46 && is_decimal d then rest else p ∷ d ∷ rest
after_minor bytes = bytes

abbrev after_major : Bytes → Option ℕ
after_major [] = none
after_major (d ∷ rest) = if is_decimal d then spaced_status (after_minor rest) else none

abbrev after_exactly : Bytes → Bytes → Option Bytes
after_exactly [] bytes = some bytes
after_exactly (p ∷ prefix) [] = none
after_exactly (p ∷ prefix) (b ∷ bytes) =
    let rest = after_exactly prefix bytes in if b == p then rest else none

abbrev status_after : Option Bytes → Option ℕ
status_after none = none
status_after (some rest) = after_major rest

-- `HTTP/`
unfoldable pub rejected_upgrade_status : Bytes → Option ℕ
rejected_upgrade_status line = status_after (after_exactly (72 ∷ 84 ∷ 84 ∷ 80 ∷ 47 ∷ []) line)

-- `sec-websocket-accept:`
abbrev accept_name : Bytes
accept_name =
    115 ∷ 101 ∷ 99 ∷ 45 ∷ 119 ∷ 101 ∷ 98 ∷ 115 ∷ 111 ∷ 99 ∷ 107 ∷ 101 ∷ 116 ∷ 45 ∷ 97 ∷ 99 ∷ 99
    ∷ 101 ∷ 112 ∷ 116 ∷ 58 ∷ []

abbrev some_word : Bytes → Option Bytes → Option Bytes
some_word [] later = later
some_word (c ∷ cs) later = some (c ∷ cs)

abbrev accept_here : Option Bytes → Option Bytes → Option Bytes
accept_here none later = later
accept_here (some rest) later = some_word (word_of (skip_blanks rest)) later

-- `match(/sec-websocket-accept:\s*(\S+)/i)`
unfoldable pub accept_of : Bytes → Option Bytes
accept_of [] = none
accept_of (b ∷ header) =
    let later = accept_of header in accept_here (after_prefix accept_name (b ∷ header)) later

abbrev pub is_accepted : Option Bytes → Bytes → Bool
is_accepted none expected = false
is_accepted (some accept) expected = same_bytes accept expected

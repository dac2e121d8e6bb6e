-- ===== src/Fence/Migration.antt =====
-- packages/opencode/src/core/version-fence.ts: whether the migration of the account pool may run. The
-- directories, the files and the processes as they are while it looks are arguments.
use openai_auth.Prelude.{
  ℕ, ◌+◌, ◌-◌, ◌^◌, Bool, true, false, ◌&&◌, ◌||◌, not, Option, none, some, List, [], ◌∷◌, ◌++◌,
  ltb, leb, if◌then◌else◌, ◌==◌, nat_eq, JsNumber, finite, infinity, nan,
}
use openai_auth.Fence.Versions.{
  Text, is_digit, taken, left_of, is_empty, number_from, Sign, less, equal, greater,
  compare_versions,
}

abbrev pub same_text : Text → Text → Bool
same_text [] [] = true
same_text [] (y ∷ ys) = false
same_text (x ∷ xs) [] = false
same_text (x ∷ xs) (y ∷ ys) = x == y && same_text xs ys

abbrev pub unknown_version : Text
unknown_version = 117 ∷ 110 ∷ 107 ∷ 110 ∷ 111 ∷ 119 ∷ 110 ∷ []

abbrev legacy : Text
legacy = 108 ∷ 101 ∷ 103 ∷ 97 ∷ 99 ∷ 121 ∷ []

pub data DirError : Type 0 where
  no_entry : DirError
  not_directory : DirError
  other_error : DirError

-- What `readdir` gives, and its error's text.
pub data DirRead : Type 0 where
  lists : List Text → DirRead
  raises : DirError → Text → DirRead

pub data Listing : Type 0 where
  listed : List Text → Listing
  unlisted : DirError → Text → Listing

abbrev pub list_dir : DirRead → Listing
list_dir (lists names) = listed names
list_dir (raises no_entry error) = listed []
list_dir (raises not_directory error) = unlisted not_directory error
list_dir (raises other_error error) = unlisted other_error error

pub data StartedAt : Type 0 where
  not_given : StartedAt
  at_time : JsNumber → StartedAt
  no_time : StartedAt

-- A layout is none where it is no text, and `layouts` where it is no object.
pub record ProcessBody : Type 0 where
  pub pid : Option ℕ
  pub version : Option Text
  pub started_at : StartedAt
  pub layouts : Option (List (Option Text))

-- `holds none` is a text that is not JSON, or not that of an object.
pub data FileRead : Type 0 where
  missing : FileRead
  failing : FileRead
  holds : Option ProcessBody → FileRead

pub data ProcessRecord : Type 0 where
  gone : ProcessRecord
  unreadable : ProcessRecord
  readable : Text → StartedAt → Option (List (Option Text)) → ProcessRecord

abbrev has_pid : Option ℕ → ℕ → Bool
has_pid none pid = false
has_pid (some n) pid = n == pid

abbrev version_of : Option Text → Text
version_of none = unknown_version
version_of (some version) = version

unfoldable pub read_process_record : FileRead → ℕ → ProcessRecord
read_process_record missing pid = gone
read_process_record failing pid = unreadable
read_process_record (holds none) pid = unreadable
read_process_record (holds (some body)) pid =
    if has_pid body.pid pid
    then readable (version_of body.version) body.started_at body.layouts
    else unreadable

-- `uptime_ms` is 1000 times what `uptime` gives, `older_generation` whether the process is this one
-- and ran an older generation, and `is_alive` is none where it throws.
pub record FenceOptions : Type 0 where
  pub heartbeats : DirRead
  pub heartbeat_file : Text → FileRead
  pub projects : DirRead
  pub is_state_dir : Text → Bool
  pub ports : Text → DirRead
  pub port_file : Text → Text → FileRead
  pub modified_at : Text → Text → Option JsNumber
  pub is_alive : ℕ → Option Bool
  pub self_pid : ℕ
  pub current_version : Text
  pub now : ℕ
  pub uptime_ms : ℕ
  pub layout_move : Bool
  pub older_generation : Bool

-- The file, or the error of a directory.
pub data Detail : Type 0 where
  older_plugin : Detail
  heartbeat_path : Text → Detail
  port_path : Text → Text → Detail
  dir_error : Text → Detail

-- `pid` is none where it is unknown.
pub record VersionFenceBlocker : Type 0 where
  pub pid : Option ℕ
  pub version : Text
  pub detail : Detail

abbrev same_error : Detail → Detail → Bool
same_error (dir_error x) (dir_error y) = same_text x y
same_error _ _ = false

abbrev pub same_key : VersionFenceBlocker → VersionFenceBlocker → Bool
same_key a b = keys a.pid b.pid
  where
    keys : Option ℕ → Option ℕ → Bool
    keys (some m) (some n) = m == n
    keys none none = same_error a.detail b.detail
    keys _ _ = false

unfoldable pub has_key : VersionFenceBlocker → List VersionFenceBlocker → Bool
has_key entry [] = false
has_key entry (b ∷ bs) = same_key b entry || has_key entry bs

pub record FenceState : Type 0 where
  pub blockers : List VersionFenceBlocker
  pub removed : List Text

abbrev pub block : VersionFenceBlocker → FenceState → FenceState
block entry s =
    if has_key entry s.blockers then s else record s { blockers = s.blockers ++ entry ∷ [] }

-- Five minutes before the boot.
abbrev pub stale_by_boot : FenceOptions → StartedAt → Bool
stale_by_boot o not_given = false
stale_by_boot o no_time = false
stale_by_boot o (at_time (finite time)) = ltb (time + 300000 + o.uptime_ms) o.now
stale_by_boot o (at_time infinity) = false
stale_by_boot o (at_time nan) = false

abbrev answer : Option Bool → Bool
answer none = true
answer (some alive) = alive

abbrev pub alive : FenceOptions → ℕ → Bool
alive o pid = answer (o.is_alive pid)

abbrev json : Text
json = 46 ∷ 106 ∷ 115 ∷ 111 ∷ 110 ∷ []

abbrev port : Text
port = 112 ∷ 111 ∷ 114 ∷ 116 ∷ 45 ∷ []

abbrev strip : Text → Text → Option Text
strip [] name = some name
strip (c ∷ prefix) [] = none
strip (c ∷ prefix) (d ∷ name) = let rest = strip prefix name in if c == d then rest else none

abbrev safe_pid : ℕ → Option ℕ
safe_pid n = if leb 1 n && leb n (2 ^ 53 - 1) then some n else none

abbrev number_name : Option Text → Option ℕ
number_name none = none
number_name (some name) =
    if not (is_empty (taken is_digit name)) && same_text (left_of is_digit name) json
    then safe_pid (number_from 0 (taken is_digit name))
    else none

-- The pid in `<pid>.json`, and in `port-<pid>.json`.
unfoldable pub heartbeat_pid : Text → Option ℕ
heartbeat_pid name = number_name (some name)

unfoldable pub port_pid : Text → Option ℕ
port_pid name = number_name (strip port name)

abbrev pub is_older_sign : Option Sign → Bool
is_older_sign none = true
is_older_sign (some less) = true
is_older_sign (some equal) = false
is_older_sign (some greater) = false

abbrev pub is_older : FenceOptions → Text → Bool
is_older o version = is_older_sign (compare_versions version o.current_version)

abbrev is_legacy : Option Text → Bool
is_legacy none = false
is_legacy (some layout) = same_text layout legacy

abbrev any_legacy : List (Option Text) → Bool
any_legacy [] = false
any_legacy (layout ∷ layouts) = is_legacy layout || any_legacy layouts

abbrev pub on_legacy_layout : Option (List (Option Text)) → Bool
on_legacy_layout none = true
on_legacy_layout (some layouts) = any_legacy layouts

-- ===== src/Recovery.antt =====
-- The recovery journal of ormas_subnet/_recovery.py: what is on disk and how a record is read and
-- written. JSON and SHA-256 are parameters; a file holds the value that its text parses to.
pub mod Journal
pub mod Replay
pub mod Roundtrip
pub mod Leases
pub mod Turns
mod Tests
use ormas_subnet.Common.{
  ℕ, ◌==◌, leb, Bool, true, false, not, ◌&&◌, ◌||◌, String, List, [], ◌∷◌, Option, none, some, ℤ,
  pos, Float, finite, float_eq, int_eq, Value, null, boolean, int, float, str, arr, obj, Entries,
  end, entry, get, get_or_null, is_text, Exc, recovery_required, Result, ok, err, ◌>>=◌, ◌>>◌,
  guard, str_eq, len, if◌then◌else◌,
}
use ormas_subnet.Workdir.{is_safe_component}

-- `_encoded`, or the exception that `json.dumps` raises, and the hexadecimal SHA-256 of a text.
pub record Codec : Type 0 where
  pub encoded : Value → Result String
  pub sha256 : String → String

pub record Owner : Type 0 where
  pub namespace : String
  pub runner_id : String

-- What `_read` sees of an open file: its metadata, and the value that its text parses to, if any.
pub record File : Type 0 where
  pub is_regular : Bool
  -- `st_mode & 0o077`
  pub is_shared : Bool
  -- `st_uid != os.getuid()`
  pub is_foreign : Bool
  pub size : ℕ
  pub parsed : Option Value

abbrev pub corrupt : Exc
corrupt = recovery_required "public recovery record is corrupt"

abbrev pub mismatch : Exc
mismatch = recovery_required "public recovery identity mismatch"

abbrev pub max_record : ℕ
max_record = 1048576

-- `d[k]` and `envelope[k]`, where a `KeyError` or a `TypeError` is a corrupt record
abbrev pub need : String → Entries → Result Value
need k es = elim (get k es) [ none ↦ err corrupt | some v ↦ ok v ]

abbrev pub need_of : String → Value → Result Value
need_of k (obj es) = need k es
need_of k _ = err corrupt

abbrev pub parsed_or_corrupt : Option Value → Result Value
parsed_or_corrupt none = err corrupt
parsed_or_corrupt (some v) = ok v

abbrev pub dictionary : Value → Result Entries
dictionary (obj es) = ok es
dictionary _ = err mismatch

abbrev pub encoded_or_corrupt : Result String → Result String
encoded_or_corrupt (ok s) = ok s
encoded_or_corrupt (err e) = err corrupt

-- `v == s`
abbrev pub is_str : String → Value → Bool
is_str s (str t) = str_eq t s
is_str s _ = false

-- `v == n` in Python, where `True` is 1
abbrev pub equals_int : ℕ → Value → Bool
equals_int n (int m) = int_eq m (pos n)
equals_int n (boolean b) = (if b then 1 else 0) == n
equals_int n (float x) = float_eq x (finite (pos n) (pos 0))
equals_int n _ = false

abbrev pub hashable : Value → Bool
hashable (arr vs) = false
hashable (obj es) = false
hashable _ = true

-- `None` or the `int` 2
abbrev pub is_capture_version : Value → Bool
is_capture_version null = true
is_capture_version (int n) = int_eq n (pos 2)
is_capture_version _ = false

abbrev pub is_stage : Value → Bool
is_stage v = is_str "claimed" v || is_str "artifact" v || is_str "completion" v

-- `require_task_id`
abbrev pub is_task_id : Value → Bool
is_task_id (str s) = is_safe_component s
is_task_id _ = false

abbrev pub same_str : Value → Value → Bool
same_str v (str s) = is_str s v
same_str v _ = false

abbrev pub lease_matches : Value → Value → Bool
lease_matches null task = true
lease_matches (obj es) task = same_str (get_or_null "task_id" es) task
lease_matches _ task = false

-- The identity that a record must have, in the order of the checks.
unfoldable pub check_body : Owner → Entries → Result Entries
check_body owner body = do
  version ← need "version" body
  guard (hashable version) corrupt
  guard (equals_int 1 version || equals_int 2 version) mismatch
  gateway ← need "gateway" body
  guard (is_str owner.namespace gateway) mismatch
  runner ← need "runner_id" body
  guard (is_str owner.runner_id runner) mismatch
  guard (is_capture_version (get_or_null "completion_capture_version" body)) mismatch
  stage ← need "stage" body
  guard (hashable stage) corrupt
  guard (is_stage stage) mismatch
  task ← need "task_id" body
  guard (is_text task) mismatch
  lease_id ← need "lease_id" body
  guard (is_text lease_id) mismatch
  packet ← need "packet_hash" body
  guard (is_text packet) mismatch
  base ← need "base_commit" body
  guard (is_text base) mismatch
  guard (is_task_id task) mismatch
  guard (lease_matches (get_or_null "lease" body) task) mismatch
  ok body

unfoldable pub read_file : Codec → Owner → File → Result Entries
read_file codec owner file = do
  guard (file.is_regular && not file.is_shared && not file.is_foreign && leb file.size max_record)
      (recovery_required "public recovery record is unsafe")
  envelope ← parsed_or_corrupt file.parsed
  raw ← need_of "record" envelope
  body ← dictionary raw
  declared ← need_of "sha256" envelope
  text ← encoded_or_corrupt (codec.encoded (obj body))
  guard (is_str (codec.sha256 text) declared) mismatch
  check_body owner body

abbrev pub found : Result Entries → Result (Option Entries)
found (ok body) = ok (some body)
found (err e) = err e

-- `_read`: an absent file is no record.
unfoldable pub read : Codec → Owner → Option File → Result (Option Entries)
read codec owner none = ok none
read codec owner (some file) = found (read_file codec owner file)

abbrev pub envelope_of : Codec → Entries → String → Value
envelope_of codec body text =
    obj (entry "record" (obj body) (entry "sha256" (str (codec.sha256 text)) end))

-- `save`: the file that replaces the pending one.
unfoldable pub save : Codec → Entries → Result File
save codec body = do
  text ← codec.encoded (obj body)
  raw ← codec.encoded (envelope_of codec body text)
  guard (leb (len raw) max_record) (recovery_required "public recovery record exceeds its bound")
  ok (record {
    is_regular = true;
    is_shared = false;
    is_foreign = false;
    size = len raw;
    parsed = some (envelope_of codec body text);
  })

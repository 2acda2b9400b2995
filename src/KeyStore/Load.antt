-- ===== src/KeyStore/Load.antt =====
-- src/bin/axsh.rs, src/bin/axshd.rs and src/bin/axsh-fingerprint.rs: reading the key files, and adding
-- a host to known_hosts.
use axsh.Prelude.{
  ℕ, suc, ◌+◌, Bool, false, Bytes, bytes_eq, is_empty, List, [], ◌∷◌, ◌++◌, ◌||◌, not, Option, none,
  some, ◌==◌, if◌then◌else◌, Result, ok, err, ◌>>=◌, map_err,
}
use axsh.Base64.{codes}
use axsh.Crypto.{Crypto}
use axsh.KeyFile.{LineError, parse_authorized_conn_key, parse_known_host, format_known_host}
use axsh.KeyStore.Text.{newline, trim, lines, word_count}

-- What reading a file finds. A file that is there and can be read is UTF-8.
pub data File : Type 0 where
  missing unreadable : File
  holds : Bytes → File

-- The numbers are those of lines, from 1.
pub data LoadError : Type 0 where
  unreadable_file missing_file : LoadError
  invalid : ℕ → LineError → LoadError
  duplicate : ℕ → LoadError
  bad_word_count : ℕ → LoadError
  several_entries no_entry : LoadError

-- A `HashMap` is the list of its entries, the last one first.
abbrev pub Map : Type 0
Map = List (Bytes × Bytes)

unfoldable pub get : Bytes → Map → Option Bytes
get key [] = none
get key ((k, v) ∷ rest) = let later = get key rest in if bytes_eq k key then some v else later

-- `insert`, with the value that it replaces.
abbrev pub insert : Bytes → Bytes → Map → Option Bytes × Map
insert key value map = (get key map, (key, value) ∷ map)

-- A line that is empty or a comment is skipped.
abbrev pub starts_with_hash : Bytes → Bool
starts_with_hash [] = false
starts_with_hash (b ∷ rest) = b == 35

abbrev pub skipped : Bytes → Bool
skipped line = is_empty line || starts_with_hash line

-- The `is_some` test of `insert`.
abbrev pub unless_replaced : ℕ → Option Bytes × Map → Result LoadError Map
unless_replaced number (none, map) = ok map
unless_replaced number (some old, map) = err (duplicate number)

-- The loop of `load_known_hosts` and of `load_authorized_keys`. `entry` makes a key and a value of a
-- line, and `lineno` counts from 0.
module _ (entry : Bytes → Result LineError (Bytes × Bytes)) where
  unfoldable pub load_line : ℕ → Map → Bytes → Result LoadError Map
  load_line lineno map line = if skipped (trim line) then ok map else (do
    (key, value) ← map_err (invalid (lineno + 1)) (entry (trim line))
    unless_replaced (lineno + 1) (insert key value map))

  unfoldable pub load_lines : ℕ → Map → List Bytes → Result LoadError Map
  load_lines lineno map [] = ok map
  load_lines lineno map (line ∷ rest) =
      load_line lineno map line >>= λ map. load_lines (suc lineno) map rest

-- A missing file is no error.
unfoldable pub load_known_hosts : File → Result LoadError Map
load_known_hosts missing = ok []
load_known_hosts unreadable = err unreadable_file
load_known_hosts (holds contents) = load_lines parse_known_host 0 [] (lines contents)

abbrev pub by_digest : Crypto → Bytes → Result LineError (Bytes × Bytes)
by_digest c line = do key ← parse_authorized_conn_key line; ok (c.sha256 key, key)

unfoldable pub load_authorized_keys : Crypto → File → Result LoadError Map
load_authorized_keys c missing = err missing_file
load_authorized_keys c unreadable = err unreadable_file
load_authorized_keys c (holds contents) = load_lines (by_digest c) 0 [] (lines contents)

-- The key of a line by its number of words.
unfoldable pub public_key_of : ℕ → Bytes → Result LoadError Bytes
public_key_of lineno line =
    let words = word_count false line in
    if words == 2
    then map_err (invalid (lineno + 1)) (parse_authorized_conn_key line)
    else if words == 3
    then (do (host, key) ← map_err (invalid (lineno + 1)) (parse_known_host line); ok key)
    else err (bad_word_count (lineno + 1))

-- `replace`, with the test that nothing was there.
abbrev pub unless_several : Option Bytes → Bytes → Result LoadError (Option Bytes)
unless_several none key = ok (some key)
unless_several (some old) key = err several_entries

unfoldable pub public_key_line : ℕ → Option Bytes → Bytes → Result LoadError (Option Bytes)
public_key_line lineno found line =
    if skipped (trim line)
    then ok found
    else (do key ← public_key_of lineno (trim line); unless_several found key)

unfoldable pub public_key_lines : ℕ → Option Bytes → List Bytes → Result LoadError (Option Bytes)
public_key_lines lineno found [] = ok found
public_key_lines lineno found (line ∷ rest) =
    public_key_line lineno found line >>= λ found. public_key_lines (suc lineno) found rest

abbrev pub or_no_entry : Option Bytes → Result LoadError Bytes
or_no_entry none = err no_entry
or_no_entry (some key) = ok key

unfoldable pub load_public_key : File → Result LoadError Bytes
load_public_key missing = err missing_file
load_public_key unreadable = err unreadable_file
load_public_key (holds contents) = public_key_lines 0 none (lines contents) >>= or_no_entry

-- `contents.last()` is there and no newline. Newlines are one byte of UTF-8 and of no other character.
unfoldable pub needs_newline : Bytes → Bool
needs_newline [] = false
needs_newline (b ∷ []) = not (b == newline)
needs_newline (b ∷ (x ∷ rest)) = needs_newline (x ∷ rest)

pub data AppendError : Type 0 where
  append_failed unreadable_hosts not_accepted : AppendError

abbrev pub entry_line : Bytes → Bytes → Bytes
entry_line host public_key = format_known_host host public_key ++ (newline ∷ [])

-- The file that `append_known_host` leaves; `writable` says that opening it and the writes succeed.
unfoldable pub append_known_host : File → Bool → Bytes → Bytes → Result AppendError Bytes
append_known_host unreadable writable host public_key = err unreadable_hosts
append_known_host missing writable host public_key =
    if writable then ok (entry_line host public_key) else err append_failed
append_known_host (holds contents) writable host public_key =
    if writable
    then ok (
        contents
        ++ ((if needs_newline contents then newline ∷ [] else []) ++ entry_line host public_key))
    else err append_failed

-- `response` is the line that the user types. The question and the warning go to a stderr that takes
-- them.
unfoldable pub confirm_and_add_known_host :
    Bytes → File → Bool → Bytes → Bytes → Result AppendError Bytes
confirm_and_add_known_host response file writable host public_key =
    if bytes_eq (trim response) (codes "yes")
    then append_known_host file writable host public_key
    else err not_accepted

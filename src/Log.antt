-- ===== src/Log.antt =====
-- src/main.go: `rotatingWriter`, the log file with its numbered backups.
-- File 0 is the log itself, and file `i` the backup `path.i`. What the system calls return is an
-- argument: whether `OpenFile` succeeds, how many bytes `File.Write` takes, and whether file `i`
-- can be moved away.
-- `Rotation` and `Writing` prove what is kept, `Limits` the bounds on sizes.
pub mod Rotation
pub mod Writing
pub mod Limits
use rfmpd.Base.{
  Bool, Bytes, Option, [], false, if◌then◌else◌, length, ltb, none, some, suc, take, true, zero, ℕ,
  ◌&&◌, ◌++◌, ◌+◌, ◌-◌, ◌==◌,
}

abbrev pub Files : Type 0
Files = ℕ → Option Bytes

abbrev pub set_file : ℕ → Option Bytes → Files → Files
set_file i o f j = if j == i then o else f j

-- `maxSize` and `backupCount` below 0 act as 0.
pub record RotatingWriter : Type 0 where
  pub max_size : ℕ
  pub backup_count : ℕ
  -- `file != nil`
  pub opened : Bool
  pub size : ℕ
  pub files : Files

abbrev pub content_of : Option Bytes → Bytes
content_of none = []
content_of (some bs) = bs

-- Which files the system lets `os.Rename` move to the next place, and whether it lets `os.Remove`
-- remove the log, where no backups are kept; `rotate` drops the errors of both.
abbrev pub Moves : Type 0
Moves = ℕ → Bool

-- a rename that succeeds, or fails on a missing file
abbrev pub move_file : ℕ → ℕ → Option Bytes → Files → Files
move_file src dst none f = f
move_file src dst (some bs) f = set_file src none (set_file dst (some bs) f)

unfoldable pub rename : Bool → ℕ → ℕ → Files → Files
rename moves src dst f = if moves then move_file src dst (f src) f else f

-- the loop over the backups, from the oldest but one
unfoldable pub shift : Moves → ℕ → Files → Files
shift moves zero f = f
shift moves (suc i) f = shift moves i (rename (moves (suc i)) (suc i) (suc (suc i)) f)

-- `openFile`, with `O_CREATE` and `O_APPEND`
unfoldable pub open_file : Bool → RotatingWriter → RotatingWriter
open_file false w = w
open_file true w = record w {
  opened = true;
  size = length (content_of (w.files 0));
  files = set_file 0 (some (content_of (w.files 0))) w.files;
}

unfoldable pub rotated : Moves → RotatingWriter → Files
rotated moves w =
    if ltb 0 w.backup_count
    then rename (moves 0) 0 1 (shift moves (w.backup_count - 1) w.files)
    else if moves 0
    then set_file 0 none w.files
    else w.files

unfoldable pub rotate : Moves → Bool → RotatingWriter → RotatingWriter
rotate moves opens w = open_file opens (record w { opened = false; files = rotated moves w })

-- The file takes the first `taken` bytes. Without a file, `Write` gives an error.
unfoldable pub append_file : ℕ → Bytes → RotatingWriter → RotatingWriter × ℕ
append_file taken p w =
    if w.opened
    then (
      record w {
        size = w.size + length (take taken p);
        files = set_file 0 (some (content_of (w.files 0) ++ take taken p)) w.files;
      },
      length (take taken p),
    )
    else (w, 0)

-- whether `p` would take the file past its limit
abbrev pub is_full : Bytes → RotatingWriter → Bool
is_full p w = ltb 0 w.max_size && ltb w.max_size (w.size + length p)

-- the writer once `Write` has tried to open its file
unfoldable pub ready : Bool → RotatingWriter → RotatingWriter
ready opens w = if w.opened then w else open_file opens w

-- what `Write` does with it
unfoldable pub write_ready : Moves → Bool → ℕ → Bytes → RotatingWriter → RotatingWriter × ℕ
write_ready moves opens taken p w =
    if w.opened
    then append_file taken p (if is_full p w then rotate moves opens w else w)
    else (w, 0)

-- `Write`, with the number of bytes that it returns; an error comes with fewer than it was given.
unfoldable pub write : Moves → Bool → ℕ → Bytes → RotatingWriter → RotatingWriter × ℕ
write moves opens taken p w = write_ready moves opens taken p (ready opens w)

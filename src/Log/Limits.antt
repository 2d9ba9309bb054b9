-- ===== src/Log/Limits.antt =====
-- The bounds that `Write` keeps on the log and its backups, where the log can be moved away.
use rfmpd.Base.{
  Bool, Bool-cases, Bytes, Option, [], ap, arith, false, inl, inr, length, length-append,
  length-take, ltb, ltb→lt, none, refl, some, suc, sym, take, true, zero, ℕ, ◌++◌, ◌+◌, ◌-◌, ◌<◌,
  ◌==◌, ◌≡◌, ◌≤◌,
}
use rfmpd.Log.{
  Files, Moves, set_file, RotatingWriter, content_of, move_file, rename, shift, open_file, rotated,
  rotate, append_file, is_full, ready, write_ready, write,
}
use rfmpd.Log.Rotation.{rename-empty}

-- Every file is within the limit, no backup is numbered past the count, and the size that is
-- kept is the log's.
pub record IsWithin (w : RotatingWriter) : Type 0 where
  pub small : (j : ℕ) → length (content_of (w.files j)) ≤ w.max_size
  pub few : (j : ℕ) → w.backup_count < j → w.files j ≡ none
  pub sized : w.opened ≡ true → w.size ≡ length (content_of (w.files 0))

-- The same of the files alone.
abbrev IsSmall : ℕ → Files → Type 0
IsSmall limit f = (j : ℕ) → length (content_of (f j)) ≤ limit

abbrev IsFew : ℕ → Files → Type 0
IsFew count f = (j : ℕ) → count < j → f j ≡ none

set_file-IsSmall :
    (limit i : ℕ) (o : Option Bytes) (f : Files)
    → length (content_of o) ≤ limit
    → IsSmall limit f
    → IsSmall limit (set_file i o f)
set_file-IsSmall limit i o f h s j = elim (Bool-cases (j == i)) [
  | inl e ↦ rw e h
  | inr e ↦ rw e (s j)
]

set_file-IsFew :
    (count i : ℕ) (o : Option Bytes) (f : Files)
    → i ≤ count
    → IsFew count f
    → IsFew count (set_file i o f)
set_file-IsFew count i o f h s j k = let e : (j == i) ≡ false = ground arith in rw e (s j k)

rename-IsSmall :
    (m : Bool) (limit i : ℕ) (f : Files) → IsSmall limit f → IsSmall limit (rename m i (suc i) f)
unfolding rename
rename-IsSmall false limit i f s = s
rename-IsSmall true limit i f s = by_source (f i) (s i)
  where
    by_source :
        (o : Option Bytes) → length (content_of o) ≤ limit → IsSmall limit (move_file i (suc i) o f)
    by_source none h = s
    by_source (some bs) h =
        set_file-IsSmall limit i none (set_file (suc i) (some bs) f) (omega arith)
          (set_file-IsSmall limit (suc i) (some bs) f h s)

rename-IsFew :
    (m : Bool) (count i : ℕ) (f : Files)
    → suc i ≤ count
    → IsFew count f
    → IsFew count (rename m i (suc i) f)
unfolding rename
rename-IsFew false count i f h s = s
rename-IsFew true count i f h s = by_source (f i)
  where
    by_source : (o : Option Bytes) → IsFew count (move_file i (suc i) o f)
    by_source none = s
    by_source (some bs) =
        set_file-IsFew count i none (set_file (suc i) (some bs) f) (omega (arith, h))
          (set_file-IsFew count (suc i) (some bs) f h s)

shift-IsSmall :
    (moves : Moves) (limit n : ℕ) (f : Files) → IsSmall limit f → IsSmall limit (shift moves n f)
unfolding shift
shift-IsSmall moves limit zero f s = s
shift-IsSmall moves limit (suc i) f s =
    shift-IsSmall moves limit i (rename (moves (suc i)) (suc i) (suc (suc i)) f)
      (rename-IsSmall (moves (suc i)) limit (suc i) f s)

shift-IsFew :
    (moves : Moves) (count n : ℕ) (f : Files)
    → n < count
    → IsFew count f
    → IsFew count (shift moves n f)
unfolding shift
shift-IsFew moves count zero f h s = s
shift-IsFew moves count (suc i) f h s =
    shift-IsFew moves count i (rename (moves (suc i)) (suc i) (suc (suc i)) f) (omega (arith, h))
      (rename-IsFew (moves (suc i)) count (suc i) f (omega (arith, h)) s)

rotated-IsSmall :
    (moves : Moves) (limit : ℕ) (w : RotatingWriter)
    → IsSmall limit w.files
    → IsSmall limit (rotated moves w)
unfolding rotated
rotated-IsSmall moves limit w s = elim (Bool-cases (ltb 0 w.backup_count)) [
  | inl e ↦ rw e (
      rename-IsSmall (moves 0) limit 0 (shift moves (w.backup_count - 1) w.files)
        (shift-IsSmall moves limit (w.backup_count - 1) w.files s))
  | inr e ↦ elim (Bool-cases (moves 0)) [
    | inl m ↦ rw (e, m) (set_file-IsSmall limit 0 none w.files (omega arith) s)
    | inr m ↦ rw (e, m) s
  ]
]

rotated-IsFew :
    (moves : Moves) (w : RotatingWriter)
    → IsFew w.backup_count w.files
    → IsFew w.backup_count (rotated moves w)
unfolding rotated
rotated-IsFew moves w s = elim (Bool-cases (ltb 0 w.backup_count)) [
  | inl e ↦
      let h = ltb→lt 0 w.backup_count e in
      rw e (
        rename-IsFew (moves 0) w.backup_count 0 (shift moves (w.backup_count - 1) w.files)
          (omega (arith, h))
          (shift-IsFew moves w.backup_count (w.backup_count - 1) w.files (omega (arith, h)) s))
  | inr e ↦ elim (Bool-cases (moves 0)) [
    | inl m ↦ rw (e, m) (set_file-IsFew w.backup_count 0 none w.files (omega arith) s)
    | inr m ↦ rw (e, m) s
  ]
]

open_file-IsWithin :
    (opens : Bool) (w : RotatingWriter)
    → w.opened ≡ false
    → IsWithin w
    → IsWithin (open_file opens w)
unfolding open_file
open_file-IsWithin false w e v = v
open_file-IsWithin true w e v = record {
  small = set_file-IsSmall w.max_size 0 (some (content_of (w.files 0))) w.files (v.small 0) v.small;
  few = set_file-IsFew w.backup_count 0 (some (content_of (w.files 0))) w.files (omega arith) v.few;
  sized = λ h. refl;
}

rotate-IsWithin :
    (moves : Moves) (opens : Bool) (w : RotatingWriter)
    → IsWithin w
    → IsWithin (rotate moves opens w)
unfolding rotate
rotate-IsWithin moves opens w v =
    open_file-IsWithin opens (record w { opened = false; files = rotated moves w }) refl
      (record {
        small = rotated-IsSmall moves w.max_size w v.small;
        few = rotated-IsFew moves w v.few;
        sized = λ h. absurd (cc);
      })

-- A log that is open after a rotation is empty.
rotated-empty :
    (moves : Moves) (w : RotatingWriter) → moves 0 ≡ true → content_of (rotated moves w 0) ≡ []
unfolding rotated
rotated-empty moves w m = elim (Bool-cases (ltb 0 w.backup_count)) [
  | inl e ↦ rw (e, m) (ap content_of (rename-empty 0 (shift moves (w.backup_count - 1) w.files)))
  | inr e ↦ rw (e, m) refl
]

-- The log, where it is open, takes `p` within its limit.
abbrev HasRoom : Bytes → RotatingWriter → Type 0
HasRoom p w = w.opened ≡ true → w.size + length p ≤ w.max_size

rotate-HasRoom :
    (moves : Moves) (opens : Bool) (p : Bytes) (w : RotatingWriter)
    → moves 0 ≡ true
    → length p ≤ w.max_size
    → HasRoom p (rotate moves opens w)
unfolding rotate open_file
rotate-HasRoom moves false p w m h e = absurd (cc)
rotate-HasRoom moves true p w m h e =
    let k = ap length (rotated-empty moves w m) in omega (arith, h, k)

append_file-IsWithin :
    (taken : ℕ) (p : Bytes) (w : RotatingWriter)
    → IsWithin w
    → HasRoom p w
    → IsWithin (append_file taken p w).0
unfolding append_file
append_file-IsWithin taken p w v room = elim (Bool-cases w.opened) [
  | inr e ↦ simp e v
  | inl e ↦
      let bs = content_of (w.files 0) ++ take taken p in
      let long : length bs ≡ w.size + length (take taken p) =
        omega (arith, length-append (content_of (w.files 0)) (take taken p), v.sized e) in
      let fits : length bs ≤ w.max_size = omega (arith, long, room e, length-take taken p) in
      let kept : IsWithin (record w {
        opened = true;
        size = w.size + length (take taken p);
        files = set_file 0 (some bs) w.files;
      }) =
        record {
          small = set_file-IsSmall w.max_size 0 (some bs) w.files fits v.small;
          few = set_file-IsFew w.backup_count 0 (some bs) w.files (omega arith) v.few;
          sized = λ h. sym long;
        } in
      simp e kept
]

write_ready-IsWithin :
    (moves : Moves) (opens : Bool) (taken : ℕ) (p : Bytes) (w : RotatingWriter)
    → moves 0 ≡ true
    → 0 < w.max_size
    → length p ≤ w.max_size
    → IsWithin w
    → IsWithin (write_ready moves opens taken p w).0
unfolding write_ready
write_ready-IsWithin moves opens taken p w m some_limit h v = elim (Bool-cases w.opened) [
  | inr e ↦ simp e v
  | inl e ↦ elim (Bool-cases (is_full p w)) [
    | inl f ↦
        simp (e, f)
          (append_file-IsWithin taken p (rotate moves opens w) (rotate-IsWithin moves opens w v)
            (rotate-HasRoom moves opens p w m h))
    | inr f ↦
        let room : w.size + length p ≤ w.max_size = ground (arith, f, some_limit) in
        simp (e, f) (append_file-IsWithin taken p w v (λ x. room))
  ]
]

ready-IsWithin : (opens : Bool) (w : RotatingWriter) → IsWithin w → IsWithin (ready opens w)
unfolding ready
ready-IsWithin opens w v = elim (Bool-cases w.opened) [
  | inl e ↦ simp e v
  | inr e ↦ simp e (open_file-IsWithin opens w e v)
]

ready-max_size : (opens : Bool) (w : RotatingWriter) → (ready opens w).max_size ≡ w.max_size
unfolding ready open_file
ready-max_size false w = ground arith
ready-max_size true w = ground arith

-- With a limit above 0 and a text within it, a write keeps the log and every backup within the
-- limit, makes no backup numbered past the count, and keeps `size` equal to the length of the
-- open log, provided that the system lets a rotation move the log itself away, or remove it where
-- no backups are kept. Any backup may have to stay where it is, the log may not open, and the
-- file may take fewer bytes.
pub write-IsWithin :
    (moves : Moves) (opens : Bool) (taken : ℕ) (p : Bytes) (w : RotatingWriter)
    → moves 0 ≡ true
    → 0 < w.max_size
    → length p ≤ w.max_size
    → IsWithin w
    → IsWithin (write moves opens taken p w).0
unfolding write
write-IsWithin moves opens taken p w m some_limit h v =
    let e = ready-max_size opens w in
    write_ready-IsWithin moves opens taken p (ready opens w) m (omega (arith, e, some_limit))
      (omega (arith, e, h)) (ready-IsWithin opens w v)

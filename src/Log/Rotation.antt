-- ===== src/Log/Rotation.antt =====
-- A rotation moves every backup up by one: it loses at most the oldest, and keeps the order, unless
-- a file is moved onto one that had to stay.
use rfmpd.Base.{
  ==_refl, Bool, Bool-cases, Bytes, Option, [], ap, append-nil, append_assoc, arith, false,
  if◌then◌else◌, inl, inr, ltb, lt→ltb, none, refl, some, subst, suc, sym, true, zero, ℕ, ◌++◌, ◌-◌,
  ◌<◌, ◌∙◌, ◌≡◌, ◌≢◌, ◌≤◌, ◌⊎◌,
}
use rfmpd.Log.{
  Files, Moves, set_file, RotatingWriter, content_of, move_file, rename, shift, open_file, rotated,
}

-- What the files up to backup `k` hold together, oldest first, and the log itself last.
unfoldable pub history : ℕ → Files → Bytes
history zero f = content_of (f 0)
history (suc k) f = content_of (f (suc k)) ++ history k f

history-same : (k : ℕ) (f g : Files) → ((j : ℕ) → j ≤ k → f j ≡ g j) → history k f ≡ history k g
unfolding history
history-same zero f g h = ap content_of (h 0 (omega arith))
history-same (suc k) f g h =
    rw (h (suc k) (omega arith), history-same k f g (λ j p. h j (omega (arith, p))))

set_file_other : (i j : ℕ) (o : Option Bytes) (f : Files) → j ≢ i → set_file i o f j ≡ f j
set_file_other i j o f n = ground arith

history-set_file :
    (k i : ℕ) (o : Option Bytes) (f : Files) → k < i → history k (set_file i o f) ≡ history k f
history-set_file k i o f h =
    history-same k (set_file i o f) f (λ j p. set_file_other i j o f (omega (arith, p)))

move_file_other :
    (i j : ℕ) (o : Option Bytes) (f : Files) → j ≢ i → j ≢ suc i → move_file i (suc i) o f j ≡ f j
move_file_other i j none f a b = refl
move_file_other i j (some bs) f a b = ground arith

rename_other : (m : Bool) (i j : ℕ) (f : Files) → j ≢ i → j ≢ suc i → rename m i (suc i) f j ≡ f j
unfolding rename
rename_other true i j f a b = move_file_other i j (f i) f a b
rename_other false i j f a b = refl

-- The moves from `n` down, the last one that of the log itself.
cascade : Moves → ℕ → Files → Files
cascade moves zero f = rename (moves 0) 0 1 f
cascade moves (suc i) f = cascade moves i (rename (moves (suc i)) (suc i) (suc (suc i)) f)

shift-cascade :
    (moves : Moves) (n : ℕ) (f : Files) → rename (moves 0) 0 1 (shift moves n f) ≡ cascade moves n f
unfolding shift cascade
shift-cascade moves zero f = refl
shift-cascade moves (suc i) f =
    shift-cascade moves i (rename (moves (suc i)) (suc i) (suc (suc i)) f)

cascade_above : (moves : Moves) (n j : ℕ) (f : Files) → suc n < j → cascade moves n f j ≡ f j
unfolding cascade
cascade_above moves zero j f h = rename_other (moves 0) 0 j f (omega (arith, h)) (omega (arith, h))
cascade_above moves (suc i) j f h =
    cascade_above moves i j (rename (moves (suc i)) (suc i) (suc (suc i)) f) (omega (arith, h))
    ∙ rename_other (moves (suc i)) (suc i) j f (omega (arith, h)) (omega (arith, h))

-- `lost` leads the history, and is what the file behind the last move held, or nothing.
abbrev Loses : Bool → Bytes → ℕ → Files → Files → Type 0
Loses moved lost i f g =
    (lost ++ history (suc i) g ≡ history (suc i) f)
    × ((lost ≡ []) ⊎ ((moved ≡ true) × (lost ≡ content_of (f (suc i)))))

-- the log of the files below `i`, where file `i` was moved away
history_moved :
    (i : ℕ) (bs : Bytes) (f : Files)
    → f i ≡ some bs
    → bs ++ history i (move_file i (suc i) (some bs) f) ≡ history i f
unfolding history
history_moved zero bs f e = rw e (append-nil bs)
history_moved (suc k) bs f e =
    let g = set_file (suc (suc k)) (some bs) f in
    let same : history k (set_file (suc k) none g) ≡ history k f =
      history-set_file k (suc k) none g (omega arith)
      ∙ history-set_file k (suc (suc k)) (some bs) f (omega arith) in
    rw (e, ==_refl (suc k)) (ap (λ l. bs ++ l) same)

move_file-Loses :
    (i : ℕ) (o : Option Bytes) (f : Files)
    → f i ≡ o
    → (lost : Bytes) × Loses true lost i f (move_file i (suc i) o f)
move_file-Loses i none f e = ([], (refl, inl refl))
move_file-Loses i (some bs) f e =
    let g = move_file i (suc i) (some bs) f in
    let top : g (suc i) ≡ some bs = ground arith in
    let all : history (suc i) g ≡ history i f = unfold history in rw top (history_moved i bs f e) in
    (
      content_of (f (suc i)),
      (ap (λ l. content_of (f (suc i)) ++ l) all ∙ (unfold history in refl), inr (refl, refl)),
    )

rename-Loses :
    (m : Bool) (i : ℕ) (f : Files) → (lost : Bytes) × Loses m lost i f (rename m i (suc i) f)
unfolding rename
rename-Loses true i f = move_file-Loses i (f i) f refl
rename-Loses false i f = ([], (refl, inl refl))

move_file-empty :
    (i : ℕ) (o : Option Bytes) (f : Files) → f i ≡ o → move_file i (suc i) o f i ≡ none
move_file-empty i none f e = e
move_file-empty i (some bs) f e = ground arith

pub rename-empty : (i : ℕ) (f : Files) → rename true i (suc i) f i ≡ none
unfolding rename
rename-empty i f = move_file-empty i (f i) f refl

history_parts :
    (k : ℕ) (f g : Files)
    → content_of (f (suc k)) ≡ content_of (g (suc k))
    → history k f ≡ history k g
    → history (suc k) f ≡ history (suc k) g
unfolding history
history_parts k f g e h = rw (e, h) refl

-- With `count` backups, a file that is moved finds its place free: the file there, unless it is the
-- oldest, was moved before it. So it is where all moves succeed, where none does, and where only
-- those of the older files do.
abbrev pub InOrder : Moves → ℕ → Type 0
InOrder moves count = (i : ℕ) → suc i < count → moves i ≡ true → moves (suc i) ≡ true

rename_moved-empty :
    (m : Bool) (i : ℕ) (f : Files) → m ≡ true → content_of (rename m i (suc i) f i) ≡ []
rename_moved-empty true i f e = ap content_of (rename-empty i f)
rename_moved-empty false i f e = absurd (cc)

-- The whole loop loses what the oldest backup held, or nothing.
cascade-Loses :
    (moves : Moves) (n : ℕ) (f : Files)
    → InOrder moves (suc n)
    → (lost : Bytes) × Loses (moves n) lost n f (cascade moves n f)
unfolding cascade
cascade-Loses moves zero f h = rename-Loses (moves 0) 0 f
cascade-Loses moves (suc m) f h =
    let g = rename (moves (suc m)) (suc m) (suc (suc m)) f in
    let f' = cascade moves m g in
    let (l, (p, q)) = cascade-Loses moves m g (λ i k. h i (omega (arith, k))) in
    let nothing : l ≡ [] = elim q [
      | inl e ↦ e
      | inr (t, e) ↦ e ∙ rename_moved-empty (moves (suc m)) (suc m) f (h m (omega arith) t)
    ] in
    let kept : history (suc m) f' ≡ history (suc m) g =
      ap (λ x. x ++ history (suc m) f') (sym nothing) ∙ p in
    let top : content_of (f' (suc (suc m))) ≡ content_of (g (suc (suc m))) =
      ap content_of (cascade_above moves m (suc (suc m)) g (omega arith)) in
    let all : history (suc (suc m)) f' ≡ history (suc (suc m)) g =
      history_parts (suc m) f' g top kept in
    let (lost, (r, s)) = rename-Loses (moves (suc m)) (suc m) f in
    (lost, (ap (λ x. lost ++ x) all ∙ r, s))

-- What a writer holds: the backups that it keeps, oldest first, and the log.
abbrev pub held : RotatingWriter → Bytes
held w = history w.backup_count w.files

-- A rotation loses what the oldest of the kept files held, or nothing.
pub rotated-Loses :
    (moves : Moves) (w : RotatingWriter)
    → InOrder moves w.backup_count
    → (lost : Bytes) × (lost ++ history w.backup_count (rotated moves w) ≡ held w)
      × ((lost ≡ []) ⊎ (lost ≡ content_of (w.files w.backup_count)))
unfolding rotated
rotated-Loses moves w h = by_count w.backup_count refl h
  where
    by_count :
        (k : ℕ)
        → w.backup_count ≡ k
        → InOrder moves w.backup_count
        → (lost : Bytes) × (lost
              ++ history w.backup_count (
                  if ltb 0 w.backup_count
                  then rename (moves 0) 0 1 (shift moves (w.backup_count - 1) w.files)
                  else if moves 0
                  then set_file 0 none w.files
                  else w.files)
            ≡ held w)
          × ((lost ≡ []) ⊎ (lost ≡ content_of (w.files w.backup_count)))
    by_count zero e o = elim (Bool-cases (moves 0)) [
      | inl t ↦
          rw (e, t)
            (
              content_of (w.files 0),
              unfold history in append-nil (content_of (w.files 0)),
              inr refl,
            )
      | inr t ↦ rw (e, t) ([], refl, inl refl)
    ]
    by_count (suc n) e o =
        let (lost, (p, q)) = cascade-Loses moves n w.files (subst (InOrder moves) e o) in
        let r : (lost ≡ []) ⊎ (lost ≡ content_of (w.files (suc n))) = elim q [
          | inl x ↦ inl x
          | inr x ↦ inr x.1
        ] in
        let k : suc n - 1 ≡ n = omega arith in
        let t : ltb 0 (suc n) ≡ true = lt→ltb 0 (suc n) (omega arith) in
        rw (e, t, k, shift-cascade moves n w.files) (lost, p, r)

-- What is appended to the log follows all that is held.
pub history-append :
    (k : ℕ) (p : Bytes) (f : Files)
    → history k (set_file 0 (some (content_of (f 0) ++ p)) f) ≡ history k f ++ p
unfolding history
history-append zero p f = refl
history-append (suc k) p f =
    let g = set_file 0 (some (content_of (f 0) ++ p)) f in
    let top : content_of (g (suc k)) ≡ content_of (f (suc k)) =
      ap content_of (set_file_other 0 (suc k) (some (content_of (f 0) ++ p)) f (omega arith)) in
    ap (λ x. x ++ history k g) top
    ∙ ap (λ x. content_of (f (suc k)) ++ x) (history-append k p f)
    ∙ sym (append_assoc (content_of (f (suc k))) (history k f) p)

pub held-open_file : (opens : Bool) (w : RotatingWriter) → held (open_file opens w) ≡ held w
unfolding open_file
held-open_file false w = refl
held-open_file true w =
    let e = history-append w.backup_count [] w.files in
    ap (λ x. history w.backup_count (set_file 0 (some x) w.files))
      (sym (append-nil (content_of (w.files 0))))
    ∙ e
    ∙ append-nil (held w)

-- ===== src/Log/Writing.antt =====
-- What `Write` keeps of the log and its backups.
use rfmpd.Base.{
  Bool, Bool-cases, Bytes, [], ap, append-nil, append_assoc, arith, false, inl, inr, length, refl,
  subst, suc, sym, take, true, zero, ℕ, ◌++◌, ◌∙◌, ◌∷◌, ◌≡◌, ◌⊎◌,
}
use rfmpd.Log.{
  Moves, RotatingWriter, content_of, open_file, rotated, rotate, append_file, is_full, ready,
  write_ready, write,
}
use rfmpd.Log.Rotation.{InOrder, held, rotated-Loses, history-append, held-open_file}

take-length-take : (n : ℕ) (p : Bytes) → take (length (take n p)) p ≡ take n p
take-length-take zero p = refl
take-length-take (suc n) [] = refl
take-length-take (suc n) (b ∷ p) = ap (λ l. b ∷ l) (take-length-take n p)

append_file-held :
    (taken : ℕ) (p : Bytes) (w : RotatingWriter)
    → held (append_file taken p w).0 ≡ held w ++ take (append_file taken p w).1 p
unfolding append_file
append_file-held taken p w = elim (Bool-cases w.opened) [
  | inl e ↦
      simp e
        (simp (take-length-take taken p) (history-append w.backup_count (take taken p) w.files))
  | inr e ↦ simp e (sym (append-nil (held w)))
]

-- What may be lost: nothing, or what the oldest file held when the log was full.
abbrev pub IsLoss : Bytes → Bool → RotatingWriter → Type 0
IsLoss lost full w = (lost ≡ []) ⊎ ((full ≡ true) × (lost ≡ content_of (w.files w.backup_count)))

rotate-held :
    (moves : Moves) (opens : Bool) (w : RotatingWriter)
    → InOrder moves w.backup_count
    → (lost : Bytes) × (lost ++ held (rotate moves opens w) ≡ held w) × IsLoss lost true w
unfolding rotate
rotate-held moves opens w o =
    let (lost, p, q) = rotated-Loses moves w o in
    (
      lost,
      ap (λ x. lost ++ x)
            (held-open_file opens (record w { opened = false; files = rotated moves w }))
          ∙ p,
      elim q [ inl e ↦ inl e | inr e ↦ inr (refl, e) ],
    )

write_ready-held :
    (moves : Moves) (opens : Bool) (taken : ℕ) (p : Bytes) (w : RotatingWriter)
    → InOrder moves w.backup_count
    → (lost : Bytes) × (lost ++ held (write_ready moves opens taken p w).0
        ≡ held w ++ take (write_ready moves opens taken p w).1 p)
      × IsLoss lost (is_full p w) w
unfolding write_ready
write_ready-held moves opens taken p w o = elim (Bool-cases w.opened) [
  | inr e ↦ simp e ([], sym (append-nil (held w)), inl refl)
  | inl e ↦ elim (Bool-cases (is_full p w)) [
    | inr f ↦ simp (e, f) ([], append_file-held taken p w, inl refl)
    | inl f ↦
        let (lost, q, r) = rotate-held moves opens w o in
        let w' = rotate moves opens w in
        let n = (append_file taken p w').1 in
        simp (e, f)
          (
            lost,
            ap (λ x. lost ++ x) (append_file-held taken p w')
                ∙ sym (append_assoc lost (held w') (take n p))
                ∙ ap (λ x. x ++ take n p) q,
            r,
          )
  ]
]

ready-held : (opens : Bool) (w : RotatingWriter) → held (ready opens w) ≡ held w
unfolding ready
ready-held opens w = elim (Bool-cases w.opened) [
  | inl e ↦ simp e refl
  | inr e ↦ simp e (held-open_file opens w)
]

open_file-file :
    (opens : Bool) (k : ℕ) (w : RotatingWriter)
    → content_of ((open_file opens w).files k) ≡ content_of (w.files k)
unfolding open_file
open_file-file false k w = refl
open_file-file true zero w = refl
open_file-file true (suc k) w = ground arith

open_file-backup_count :
    (opens : Bool) (w : RotatingWriter) → (open_file opens w).backup_count ≡ w.backup_count
unfolding open_file
open_file-backup_count false w = refl
open_file-backup_count true w = refl

ready-backup_count :
    (opens : Bool) (w : RotatingWriter) → (ready opens w).backup_count ≡ w.backup_count
unfolding ready
ready-backup_count opens w = elim (Bool-cases w.opened) [
  | inl e ↦ simp e refl
  | inr e ↦ simp e (open_file-backup_count opens w)
]

ready-file :
    (opens : Bool) (w : RotatingWriter)
    → content_of ((ready opens w).files (ready opens w).backup_count)
      ≡ content_of (w.files w.backup_count)
unfolding ready
ready-file opens w = elim (Bool-cases w.opened) [
  | inl e ↦ simp e refl
  | inr e ↦ simp (e, open_file-backup_count opens w) (open_file-file opens w.backup_count w)
]

-- Whether the log can be opened or not, however many bytes it takes, and whichever files cannot be
-- moved away in a rotation, as long as no file is moved onto another that could not be moved
-- itself: after a write the backups from the oldest to the newest and then the log hold what they
-- held before and then the bytes that `Write` says it took, in order. Only a full log loses
-- something at the front: at most what the oldest of the kept files held.
pub write-held :
    (moves : Moves) (opens : Bool) (taken : ℕ) (p : Bytes) (w : RotatingWriter)
    → InOrder moves w.backup_count
    → (lost : Bytes) × (lost ++ held (write moves opens taken p w).0
        ≡ held w ++ take (write moves opens taken p w).1 p)
      × IsLoss lost (is_full p (ready opens w)) w
unfolding write
write-held moves opens taken p w o =
    let (lost, q, r) =
      write_ready-held moves opens taken p (ready opens w)
        (subst (InOrder moves) (sym (ready-backup_count opens w)) o) in
    (
      lost,
      q
          ∙ ap (λ x. x ++ take (write_ready moves opens taken p (ready opens w)).1 p)
              (ready-held opens w),
      elim r [ inl e ↦ inl e | inr (f, e) ↦ inr (f, e ∙ ready-file opens w) ],
    )

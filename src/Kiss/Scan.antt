-- ===== src/Kiss/Scan.antt =====
-- An automaton that reads a stream a byte at a time and emits something for every frame between two
-- FENDs. It is what `DecodeFrames` and `splitKISSFrames` are compared with.
use rfmpd.Base.{
  Bool-cases, Bytes, List, Option, [], ap, append-nil, append_assoc, arith, false, if◌then◌else◌,
  inl, inr, none, refl, some, true, ℕ, ◌++◌, ◌==◌, ◌>>=◌, ◌∙◌, ◌∷◌, ◌≡◌, ◌≢◌, ◌⊎◌,
}
use rfmpd.Kiss.{fend, split_at_fend}
use rfmpd.Kiss.Codec.{HasNoFend}

-- Between frames, or inside one with the bytes read since its opening FEND.
pub data Scan : Type 0 where
  outside : Scan
  inside : Bytes → Scan

-- the receive buffer that stands for a state of the automaton
abbrev pub buffer_of : Scan → Bytes
buffer_of outside = []
buffer_of (inside body) = fend ∷ body

abbrev pub IsScan : Scan → Type 0
IsScan outside = Unit
IsScan (inside body) = HasNoFend body

-- What the search for a FEND finds.
abbrev pub Split : Bytes → Option (Bytes × Bytes) → Type 0
Split xs none = HasNoFend xs
Split xs (some (pre, post)) = (xs ≡ pre ++ (fend ∷ post)) × HasNoFend pre

Split-cons :
    (b : ℕ) (xs : Bytes) (r : Option (Bytes × Bytes))
    → (b ≢ fend)
    → Split xs r
    → Split (b ∷ xs) (r >>= λ (pre, post). some (b ∷ pre, post))
Split-cons b xs none n h = (n, h)
Split-cons b xs (some (pre, post)) n h = (ap (◌∷◌ b) h.0, (n, h.1))

pub split_at_fend-Split : (xs : Bytes) → Split xs (split_at_fend xs)
unfolding split_at_fend
split_at_fend-Split [] = tt
split_at_fend-Split (b ∷ xs) = step (Bool-cases (b == fend)) (split_at_fend-Split xs)
  where
    step :
        ((b == fend) ≡ true) ⊎ ((b == fend) ≡ false)
        → Split xs (split_at_fend xs)
        → Split (b ∷ xs) (split_at_fend (b ∷ xs))
    step (inl e) h = rw e (ground arith)
    step (inr n) h = rw n (Split-cons b xs (split_at_fend xs) (ground arith) h)

HasNoFend-snoc : (bs : Bytes) (b : ℕ) → HasNoFend bs → b ≢ fend → HasNoFend (bs ++ b ∷ [])
HasNoFend-snoc [] b h n = (n, tt)
HasNoFend-snoc (c ∷ bs) b h n = (h.0, HasNoFend-snoc bs b h.1 n)

-- `emit` is applied to what stands between two FENDs.
module _ {ℓ} {A : Type ℓ} (emit : Bytes → List A) where
  unfoldable pub scan : Scan → Bytes → List A × Scan
  scan s [] = ([], s)
  scan outside (b ∷ bs) = scan (if b == fend then inside [] else outside) bs
  scan (inside body) (b ∷ bs) =
      let r = scan (if b == fend then outside else inside (body ++ b ∷ [])) bs in
      ((if b == fend then emit body else []) ++ r.0, r.1)

  -- Two chunks give the frames of their concatenation.
  pub scan-append :
      (s : Scan) (xs ys : Bytes)
      → scan s (xs ++ ys) ≡ ((scan s xs).0 ++ (scan (scan s xs).1 ys).0, (scan (scan s xs).1 ys).1)
  unfolding scan
  scan-append s [] ys = refl
  scan-append outside (b ∷ xs) ys = scan-append (if b == fend then inside [] else outside) xs ys
  scan-append (inside body) (b ∷ xs) ys =
      rw (scan-append (if b == fend then outside else inside (body ++ b ∷ [])) xs ys, append_assoc)

  -- Runs of the automaton over bytes with no FEND.
  pub scan_outside-HasNoFend :
      (pre post : Bytes) → HasNoFend pre → scan outside (pre ++ post) ≡ scan outside post
  unfolding scan
  scan_outside-HasNoFend [] post h = refl
  scan_outside-HasNoFend (b ∷ pre) post h = ground (arith, scan_outside-HasNoFend pre post)

  pub scan_inside-HasNoFend :
      (pre body post : Bytes)
      → HasNoFend pre
      → scan (inside body) (pre ++ post) ≡ scan (inside (body ++ pre)) post
  unfolding scan
  scan_inside-HasNoFend [] body post h = rw append-nil
  scan_inside-HasNoFend (b ∷ pre) body post h =
      step (scan_inside-HasNoFend pre (body ++ b ∷ []) post h.1)
    where
      step :
          scan (inside (body ++ b ∷ [])) (pre ++ post)
            ≡ scan (inside ((body ++ b ∷ []) ++ pre)) post
          → scan (inside body) ((b ∷ pre) ++ post) ≡ scan (inside (body ++ (b ∷ pre))) post
      step e = ground (arith, e, append_assoc body (b ∷ []) pre)

  pub scan_frame :
      (body post : Bytes)
      → HasNoFend body
      → scan outside (fend ∷ (body ++ (fend ∷ post)))
        ≡ (emit body ++ (scan outside post).0, (scan outside post).1)
  scan_frame body post h = unfold scan in scan_inside-HasNoFend body [] (fend ∷ post) h

  -- The buffer left over stands for the state reached.
  pub scan-resume :
      (s : Scan) (bs : Bytes) → IsScan s → scan outside (buffer_of s ++ bs) ≡ scan s bs
  scan-resume outside bs h = refl
  scan-resume (inside body) bs h = unfold scan in scan_inside-HasNoFend body [] bs h

  pub scan-IsScan : (bs : Bytes) (s : Scan) → IsScan s → IsScan (scan s bs).1
  unfolding scan
  scan-IsScan [] s h = h
  scan-IsScan (b ∷ bs) outside h =
      ground (arith, scan-IsScan bs outside tt, scan-IsScan bs (inside []) tt)
  scan-IsScan (b ∷ bs) (inside body) h = ground (
    arith,
    scan-IsScan bs outside tt,
    scan-IsScan bs (inside (body ++ b ∷ [])),
    HasNoFend-snoc body b h,
  )

  pub scan_garbage : (xs : Bytes) → HasNoFend xs → scan outside xs ≡ ([], outside)
  scan_garbage xs h = rw append-nil at (scan_outside-HasNoFend xs [] h) ∙ unfold scan in refl

  pub scan_partial : (xs : Bytes) → HasNoFend xs → scan outside (fend ∷ xs) ≡ ([], inside xs)
  scan_partial xs h = unfold scan in rw append-nil at (scan_inside-HasNoFend xs [] [] h)

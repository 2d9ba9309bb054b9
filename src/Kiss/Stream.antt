-- ===== src/Kiss/Stream.antt =====
-- The buffered decoder `DecodeFrames` against a byte-at-a-time automaton.
use rfmpd.Base.{
  Bytes, List, Option, [], ap, append-nil, append_assoc, arith, length, length-append, none, refl,
  some, subst, suc, sym, zero, ℕ, ◌++◌, ◌<◌, ◌∙◌, ◌∷◌, ◌≡◌,
}
use rfmpd.Kiss.{
  KissFrame, KissProtocol, fend, decode, keep_data, split_at_fend, decode_loop, decode_frames,
  new_kiss_protocol,
}
use rfmpd.Kiss.Codec.{HasNoFend}
use rfmpd.Kiss.Scan.{
  Scan, outside, buffer_of, Split, split_at_fend-Split, scan, scan-append, scan_outside-HasNoFend,
  scan_frame, scan-resume, scan-IsScan, scan_garbage, scan_partial,
}

-- the frame that a closing FEND completes
abbrev pub completed : Bytes → List KissFrame
completed body = keep_data (decode (fend ∷ (body ++ fend ∷ [])))

-- One round of the loop, by what the two searches find.
module _ (fuel : ℕ) (buf : Bytes) where
  round_none : split_at_fend buf ≡ none → decode_loop (suc fuel) buf ≡ ([], [])
  unfolding decode_loop
  round_none e = ground arith

  round_partial :
      (garbage rest : Bytes)
      → split_at_fend buf ≡ some (garbage, rest)
      → split_at_fend rest ≡ none
      → decode_loop (suc fuel) buf ≡ ([], fend ∷ rest)
  unfolding decode_loop
  round_partial garbage rest e e' = ground arith

  round_frame :
      (garbage rest body rest' : Bytes)
      → split_at_fend buf ≡ some (garbage, rest)
      → split_at_fend rest ≡ some (body, rest')
      → decode_loop (suc fuel) buf
        ≡ (completed body ++ (decode_loop fuel rest').0, (decode_loop fuel rest').1)
  unfolding decode_loop
  round_frame garbage rest body rest' e e' = ground arith

abbrev Simulates : List KissFrame × Bytes → List KissFrame × Scan → Type 0
Simulates r q = r ≡ (q.0, buffer_of q.1)

-- With more fuel than bytes the loop ends by itself, in the state of the automaton.
decode_loop-scan :
    (fuel : ℕ) (buf : Bytes)
    → length buf < fuel
    → Simulates (decode_loop fuel buf) (scan completed outside buf)
decode_loop-scan zero buf h = absurd (omega arith)
decode_loop-scan (suc fuel) buf h =
    first (split_at_fend buf) refl (split_at_fend-Split buf) (decode_loop-scan fuel)
  where
    second :
        (garbage rest : Bytes)
        → split_at_fend buf ≡ some (garbage, rest)
        → buf ≡ garbage ++ (fend ∷ rest)
        → HasNoFend garbage
        → (r : Option (Bytes × Bytes)) → split_at_fend rest ≡ r
        → Split rest r
        → ((b : Bytes)
            → length b < fuel
            → Simulates (decode_loop fuel b) (scan completed outside b))
        → Simulates (decode_loop (suc fuel) buf) (scan completed outside buf)
    second garbage rest e eq g none e' p rec = rw (
      round_partial fuel buf garbage rest e e',
      eq,
      scan_outside-HasNoFend completed garbage (fend ∷ rest) g,
      scan_partial completed rest p,
    )
    second garbage rest e eq g (some (body, rest')) e' p rec = rw (
      round_frame fuel buf garbage rest body rest' e e',
      eq,
      scan_outside-HasNoFend completed garbage (fend ∷ rest) g,
      p.0,
      scan_frame completed body rest' p.1,
      rec rest' (
          omega (
            arith,
            ap length eq,
            ap length p.0,
            length-append garbage (fend ∷ rest),
            length-append body (fend ∷ rest'),
          )),
    )

    first :
        (r : Option (Bytes × Bytes))
        → split_at_fend buf ≡ r
        → Split buf r
        → ((b : Bytes)
            → length b < fuel
            → Simulates (decode_loop fuel b) (scan completed outside b))
        → Simulates (decode_loop (suc fuel) buf) (scan completed outside buf)
    first none e p rec = rw (round_none fuel buf e, scan_garbage completed buf p)
    first (some (garbage, rest)) e p rec =
        second garbage rest e p.0 p.1 (split_at_fend rest) refl (split_at_fend-Split rest) rec

-- The decoder, on the bytes of its buffer and those that arrive, does what the automaton does that
-- reads them one at a time: the same frames, and a buffer that stands for the automaton's state.
pub decode_frames-scan :
    (kp : KissProtocol) (bs : Bytes)
    → decode_frames kp bs ≡ (
      (scan completed outside (kp.buffer ++ bs)).0,
      record kp { buffer = buffer_of (scan completed outside (kp.buffer ++ bs)).1 },
    )
unfolding decode_frames
decode_frames-scan kp bs =
    rw (decode_loop-scan (suc (length (kp.buffer ++ bs))) (kp.buffer ++ bs) (omega arith))

-- A decoder that starts with an empty buffer.
pub decode_frames_fresh :
    (port : ℕ) (bs : Bytes)
    → (decode_frames (new_kiss_protocol port) bs).0 ≡ (scan completed outside bs).0
unfolding new_kiss_protocol
decode_frames_fresh port bs = rw decode_frames-scan

-- Bytes that arrive in two chunks give the same frames, in the same order, and leave the same
-- decoder state as the same bytes in one chunk, whatever the buffer holds at first.
pub decode_frames-append :
    (kp : KissProtocol) (xs ys : Bytes)
    → decode_frames kp (xs ++ ys) ≡ (
      (decode_frames kp xs).0 ++ (decode_frames (decode_frames kp xs).1 ys).0,
      (decode_frames (decode_frames kp xs).1 ys).1,
    )
decode_frames-append kp xs ys = rw (
  decode_frames-scan kp (xs ++ ys),
  decode_frames-scan kp xs,
  decode_frames-scan (record kp { buffer = buffer_of (scan completed outside (kp.buffer ++ xs)).1 })
      ys,
  scan-resume completed (scan completed outside (kp.buffer ++ xs)).1 ys
      (scan-IsScan completed (kp.buffer ++ xs) outside tt),
  ← append_assoc kp.buffer xs ys,
  scan-append completed outside (kp.buffer ++ xs) ys,
)

-- The loop of DecodeFrames ends by itself: with any fuel above the length of the buffer it gives
-- the same frames and the same rest, and on that rest it finds nothing more, whatever fuel
-- above its length it has.
pub decode_loop_ends :
    (fuel more : ℕ) (buf : Bytes)
    → length buf < fuel
    → length (decode_loop fuel buf).1 < more
    → (decode_loop fuel buf ≡ decode_loop (suc (length buf)) buf)
      × (decode_loop more (decode_loop fuel buf).1 ≡ ([], (decode_loop fuel buf).1))
decode_loop_ends fuel more buf h k =
    let q = scan completed outside buf in
    let e = decode_loop-scan fuel buf h in
    let rest : (decode_loop fuel buf).1 ≡ buffer_of q.1 = ap (λ r. r.1) e in
    let quiet : scan completed outside (buffer_of q.1) ≡ ([], q.1) =
      ap (scan completed outside) (sym (append-nil (buffer_of q.1)))
      ∙ scan-resume completed q.1 [] (scan-IsScan completed buf outside tt)
      ∙ (unfold scan in refl) in
    let again : decode_loop more (buffer_of q.1) ≡ ([], buffer_of q.1) =
      decode_loop-scan more (buffer_of q.1) (subst (λ b. length b < more) rest k)
      ∙ ap (λ r. (r.0, buffer_of r.1)) quiet in
    (
      e ∙ sym (decode_loop-scan (suc (length buf)) buf (omega arith)),
      ap (decode_loop more) rest ∙ again ∙ ap (λ b. ([], b)) (sym rest),
    )

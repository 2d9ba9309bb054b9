-- ===== src/Broker/Splitting.antt =====
-- `splitKISSFrames` against the automaton of `Kiss.Scan`: what it cuts out, and what stays in the
-- buffer when a stream arrives in pieces.
use rfmpd.Base.{
  Bytes, List, Option, [], ap, append_assoc, arith, concat, length, length-append, none, refl, some,
  suc, zero, ℕ, ◌++◌, ◌<◌, ◌∙◌, ◌∷◌, ◌≡◌,
}
use rfmpd.Kiss.{fend, split_at_fend, KissFrame}
use rfmpd.Kiss.Codec.{HasNoFend, escape-HasNoFend}
use rfmpd.Kiss.Scan.{
  Scan, outside, inside, Split, split_at_fend-Split, scan, scan_outside-HasNoFend, scan_frame,
  scan_garbage, scan_partial,
}
use rfmpd.Kiss.Sequence.{encode_all, escaped, encode-escaped}
use rfmpd.Broker.{split_loop, split_kiss_frames}

-- the frame with its two FENDs
abbrev pub framed : Bytes → List Bytes
framed body = (fend ∷ (body ++ fend ∷ [])) ∷ []

-- The same frames, and a buffer from which the automaton goes on in the same state.
abbrev pub Resumes : List Bytes × Bytes → List Bytes × Scan → Type 0
Resumes r q = (r.0 ≡ q.0) × (scan framed outside r.1 ≡ ([], q.1))

-- One round of the loop, by what the two searches find.
module _ (fuel : ℕ) (buf : Bytes) where
  split_none : split_at_fend buf ≡ none → split_loop (suc fuel) buf ≡ ([], buf)
  unfolding split_loop
  split_none e = ground arith

  split_partial :
      (garbage rest : Bytes)
      → split_at_fend buf ≡ some (garbage, rest)
      → split_at_fend rest ≡ none
      → split_loop (suc fuel) buf ≡ ([], fend ∷ rest)
  unfolding split_loop
  split_partial garbage rest e e' = ground arith

  split_frame :
      (garbage rest body rest' : Bytes)
      → split_at_fend buf ≡ some (garbage, rest)
      → split_at_fend rest ≡ some (body, rest')
      → split_loop (suc fuel) buf
        ≡ (framed body ++ (split_loop fuel rest').0, (split_loop fuel rest').1)
  unfolding split_loop
  split_frame garbage rest body rest' e e' = ground arith

-- With more fuel than bytes the loop ends by itself.
split_loop-Resumes :
    (fuel : ℕ) (buf : Bytes)
    → length buf < fuel
    → Resumes (split_loop fuel buf) (scan framed outside buf)
split_loop-Resumes zero buf h = absurd (omega arith)
split_loop-Resumes (suc fuel) buf h =
    opening (split_at_fend buf) refl (split_at_fend-Split buf) (split_loop-Resumes fuel)
  where
    closing :
        (garbage rest : Bytes)
        → split_at_fend buf ≡ some (garbage, rest)
        → buf ≡ garbage ++ (fend ∷ rest)
        → HasNoFend garbage
        → (r : Option (Bytes × Bytes)) → split_at_fend rest ≡ r
        → Split rest r
        → ((xs : Bytes) → length xs < fuel → Resumes (split_loop fuel xs) (scan framed outside xs))
        → Resumes (split_loop (suc fuel) buf) (scan framed outside buf)
    closing garbage rest e eq g none e' p rec =
        let u = split_partial fuel buf garbage rest e e' in
        let v : scan framed outside buf ≡ ([], inside rest) =
          rw eq (scan_outside-HasNoFend framed garbage (fend ∷ rest) g)
          ∙ scan_partial framed rest p in
        (rw (u, v), rw (u, v) (scan_partial framed rest p))
    closing garbage rest e eq g (some (body, rest')) e' p rec =
        let u = split_frame fuel buf garbage rest body rest' e e' in
        let v : scan framed outside buf
            ≡ (framed body ++ (scan framed outside rest').0, (scan framed outside rest').1) =
          rw (eq, scan_outside-HasNoFend framed garbage (fend ∷ rest) g, p.0)
            (scan_frame framed body rest' p.1) in
        let small : length rest' < fuel = omega (
          arith,
          ap length eq,
          ap length p.0,
          length-append garbage (fend ∷ rest),
          length-append body (fend ∷ rest'),
        ) in
        let r = rec rest' small in (rw (u, v, r.0), rw (u, v) r.1)

    opening :
        (r : Option (Bytes × Bytes))
        → split_at_fend buf ≡ r
        → Split buf r
        → ((xs : Bytes) → length xs < fuel → Resumes (split_loop fuel xs) (scan framed outside xs))
        → Resumes (split_loop (suc fuel) buf) (scan framed outside buf)
    opening none e p rec = rw (split_none fuel buf e, scan_garbage framed buf p) (refl, refl)
    opening (some (garbage, rest)) e p rec =
        closing garbage rest e p.0 p.1 (split_at_fend rest) refl (split_at_fend-Split rest) rec

pub split_kiss_frames-Resumes :
    (buf : Bytes) → Resumes (split_kiss_frames buf) (scan framed outside buf)
unfolding split_kiss_frames
split_kiss_frames-Resumes buf = split_loop-Resumes (suc (length buf)) buf (omega arith)

-- a stream of encoded frames is cut into the encoded frames
pub scan-framed-encode_all :
    (fs : List KissFrame) → concat (scan framed outside (encode_all fs)).0 ≡ encode_all fs
scan-framed-encode_all [] = unfold scan in refl
scan-framed-encode_all (f ∷ fs) = rw (
  encode-escaped f,
  append_assoc (escaped f) (fend ∷ []) (encode_all fs),
  scan_frame framed (escaped f) (encode_all fs) (escape-HasNoFend _),
  append_assoc (escaped f) (fend ∷ []) (concat (scan framed outside (encode_all fs)).0),
  scan-framed-encode_all fs,
)

-- ===== src/Kiss/Sequence.antt =====
-- Whole streams of encoded frames through `DecodeFrames`, and one stray FEND before them.
use rfmpd.Base.{All, Bytes, List, [], append_assoc, refl, some, ℕ, ◌++◌, ◌<◌, ◌∙◌, ◌∷◌, ◌≡◌}
use rfmpd.Kiss.{
  KissFrame, fend, is_valid_kiss_command, kiss_data_frame, escape, command_byte, encode, decode,
  keep_data, decode_frames, new_kiss_protocol,
}
use rfmpd.Kiss.Codec.{HasNoFend, escape-HasNoFend, decode-encode}
use rfmpd.Kiss.Scan.{outside, inside, scan, scan_outside-HasNoFend, scan_frame}
use rfmpd.Kiss.Stream.{completed, decode_frames_fresh}

-- A data frame with a port below 16.
abbrev pub IsDataFrame : KissFrame → Type 0
IsDataFrame f = (f.port < 16) × (f.command ≡ kiss_data_frame)

abbrev pub encode_all : List KissFrame → Bytes
encode_all [] = []
encode_all (f ∷ fs) = encode f ++ encode_all fs

decode-IsDataFrame : (f : KissFrame) → IsDataFrame f → decode (encode f) ≡ some f
decode-IsDataFrame f (p, c) = decode-encode f p (rw c (unfold is_valid_kiss_command in refl))

keep_data-IsDataFrame : (f : KissFrame) → IsDataFrame f → keep_data (some f) ≡ f ∷ []
unfolding keep_data
keep_data-IsDataFrame f (p, c) = rw c

abbrev pub escaped : KissFrame → Bytes
escaped f = escape (command_byte f ∷ f.payload)

pub encode-escaped : (f : KissFrame) → encode f ≡ fend ∷ (escaped f ++ fend ∷ [])
unfolding encode
encode-escaped f = refl

completed-escaped : (f : KissFrame) → IsDataFrame f → completed (escaped f) ≡ f ∷ []
completed-escaped f d =
    rw (← encode-escaped f) (rw (decode-IsDataFrame f d) (keep_data-IsDataFrame f d))

scan-encode :
    (f : KissFrame) (rest : Bytes)
    → IsDataFrame f
    → (scan completed outside (encode f ++ rest)).0 ≡ f ∷ (scan completed outside rest).0
scan-encode f rest d = rw (
  encode-escaped f,
  append_assoc (escaped f) (fend ∷ []) rest,
  scan_frame completed (escaped f) rest (escape-HasNoFend _),
  completed-escaped f d,
)

scan-encode_all :
    (fs : List KissFrame) → All IsDataFrame fs → (scan completed outside (encode_all fs)).0 ≡ fs
scan-encode_all [] h = unfold scan in refl
scan-encode_all (f ∷ fs) h = rw (scan-encode f (encode_all fs) h.0, scan-encode_all fs h.1)

-- A fresh decoder returns exactly the data frames that were encoded, in order, whatever bytes
-- their payloads hold.
pub decode_frames-encode_all :
    (port : ℕ) (fs : List KissFrame)
    → All IsDataFrame fs
    → (decode_frames (new_kiss_protocol port) (encode_all fs)).0 ≡ fs
decode_frames-encode_all port fs h = rw decode_frames_fresh (scan-encode_all fs h)

completed-nil : completed [] ≡ []
unfolding decode keep_data
completed-nil = refl

-- A FEND closes the empty frame; the bytes up to the next one are then skipped.
scan_shifted :
    (e rest : Bytes)
    → HasNoFend e
    → (scan completed (inside []) (fend ∷ (e ++ fend ∷ rest))).0
      ≡ (scan completed (inside []) rest).0
scan_shifted e rest h =
    let skip : scan completed outside (e ++ fend ∷ rest) ≡ scan completed (inside []) rest =
      scan_outside-HasNoFend completed e (fend ∷ rest) h ∙ unfold scan in refl in
    unfold scan in rw (completed-nil, skip)

scan_stray : (fs : List KissFrame) → (scan completed (inside []) (encode_all fs)).0 ≡ []
scan_stray [] = unfold scan in refl
scan_stray (f ∷ fs) =
    rw (encode-escaped f, append_assoc (escaped f) (fend ∷ []) (encode_all fs))
      (scan_shifted (escaped f) (encode_all fs) (escape-HasNoFend _) ∙ scan_stray fs)

-- One FEND too many before a stream of encoded frames makes the decoder take the closing FEND of
-- each frame for the opening one of the next: no frame of the stream is ever returned.
pub decode_frames_stray_fend :
    (port : ℕ) (fs : List KissFrame)
    → (decode_frames (new_kiss_protocol port) (fend ∷ encode_all fs)).0 ≡ []
decode_frames_stray_fend port fs = rw decode_frames_fresh (unfold scan in scan_stray fs)

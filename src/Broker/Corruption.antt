-- ===== src/Broker/Corruption.antt =====
-- `corruptFrame`: what the noise of the broker leaves as it is.
use Prim.Native.Nat.{bit_xor}
use rfmpd.Base.{
  Bytes, List, [], ap, arith, false, leb, length, length-append, refl, suc, zero, ℕ, ◌%◌, ◌++◌, ◌+◌,
  ◌-◌, ◌<◌, ◌^◌, ◌∙◌, ◌∷◌, ◌≡◌,
}
use rfmpd.Broker.{flip_at, flip_all, corrupt_frame}

-- One flip inside a frame.
flip_inner :
    (i bit : ℕ) (body : Bytes) (z : ℕ)
    → i < length body
    → (body' : Bytes) × (flip_at i bit (body ++ z ∷ []) ≡ body' ++ z ∷ [])
      × (length body' ≡ length body)
unfolding flip_at
flip_inner i bit [] z h = absurd (omega arith)
flip_inner zero bit (c ∷ body) z h = (bit_xor c (2 ^ bit) ∷ body, refl, refl)
flip_inner (suc i) bit (c ∷ body) z h =
    let (b, e, l) = flip_inner i bit body z (omega arith) in (c ∷ b, ap (◌∷◌ c) e, ap suc l)

flip_at_cons : (i bit a : ℕ) (cs : Bytes) → flip_at (suc i) bit (a ∷ cs) ≡ a ∷ flip_at i bit cs
unfolding flip_at
flip_at_cons i bit a cs = refl

flip_inner_all :
    (draws : List (ℕ × ℕ)) (a z : ℕ) (body : Bytes)
    → 0 < length body
    → (body' : Bytes) × (flip_all draws (length body) (a ∷ (body ++ z ∷ []))
        ≡ a ∷ (body' ++ z ∷ []))
      × (length body' ≡ length body)
unfolding flip_all
flip_inner_all [] a z body h = (body, refl, refl)
flip_inner_all ((i, bit) ∷ ds) a z body h =
    let (b, e, l) = flip_inner (i % length body) (bit % 8) body z (omega arith) in
    let (b', e', l') = flip_inner_all ds a z b (rw l h) in
    (b', rw (flip_at_cons (i % length body) (bit % 8) a (body ++ z ∷ []), e) (rw l at e'), l' ∙ l)

-- Whatever is drawn, a corrupted frame is as long as the frame, and its first and last bytes are
-- those of the frame.
corrupt_frame_bounds :
    (draws : List (ℕ × ℕ)) (a z : ℕ) (body : Bytes)
    → (body' : Bytes) × (corrupt_frame draws (a ∷ (body ++ z ∷ [])) ≡ a ∷ (body' ++ z ∷ []))
      × (length body' ≡ length body)
unfolding corrupt_frame
corrupt_frame_bounds draws a z [] = ([], refl, refl)
corrupt_frame_bounds draws a z (c ∷ body) =
    let (b, e, l) = flip_inner_all draws a z (c ∷ body) (omega arith) in
    let n : length (a ∷ ((c ∷ body) ++ z ∷ [])) ≡ 3 + length body =
      omega (arith, length-append body (z ∷ [])) in
    let g : leb (length (a ∷ ((c ∷ body) ++ z ∷ []))) 2 ≡ false = ground (arith, n) in
    let q : length (a ∷ ((c ∷ body) ++ z ∷ [])) - 2 ≡ length (c ∷ body) = omega (arith, n) in
    (b, rw (g, q) e, l)

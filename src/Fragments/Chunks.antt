-- ===== src/Fragments/Chunks.antt =====
-- Fragments carry the encoded message in order, in pieces of a bounded size.
use rfmpd.Base.{
  All, All-mono, Bytes, List, [], ap, arith, concat, drop, drop-drop, false, leb, length,
  length-take, map, refl, suc, take, take-nil, take_all, zero, ℕ, ◌*◌, ◌++◌, ◌+◌, ◌<◌, ◌∙◌, ◌∷◌,
  ◌≡◌, ◌≤◌,
}
use rfmpd.Message.{MessageId}
use rfmpd.Frames.{Frag}
use rfmpd.Fragments.{fragment_size, fragment_count, chunk, fragments_from, fragment_bytes}

-- `i * size + size` is where the next chunk starts.
pub suc_mul : (i size : ℕ) → suc i * size ≡ i * size + size
suc_mul i size = grind arith

pub take-add {ℓ} :
    {A : Type ℓ} (a b : ℕ) (xs : List A) → take (a + b) xs ≡ take a xs ++ take b (drop a xs)
take-add zero b xs = let e : 0 + b ≡ b = omega arith in rw e
take-add (suc a) b [] = rw (take-nil b, take-nil (suc a + b))
take-add (suc a) b (x ∷ xs) =
    let e : suc a + b ≡ suc (a + b) = omega arith in rw e (ap (◌∷◌ x) (take-add a b xs))

abbrev pub payloads : List Frag → List Bytes
payloads = map (λ f. f.payload)

pub concat-chunks :
    (id : MessageId) (bs : Bytes) (size total i k : ℕ)
    → concat (payloads (fragments_from id bs size total i k)) ≡ take (k * size) (drop (i * size) bs)
unfolding fragments_from
concat-chunks id bs size total i zero = let e : 0 * size ≡ 0 = omega arith in rw e
concat-chunks id bs size total i (suc k) =
    let e : suc k * size ≡ size + k * size = suc_mul k size ∙ omega arith in
    rw (
      e,
      concat-chunks id bs size total (suc i) k,
      suc_mul i size,
      take-add,
      drop-drop size (i * size) bs,
    )

pub count_covers : (len size : ℕ) → 1 ≤ size → len ≤ fragment_count len size * size
count_covers len size h = grind arith

-- An element of a run of fragments: its index, total and message, and the chunk that it carries.
abbrev pub IsPart : MessageId → Bytes → ℕ → ℕ → Frag → Type 0
IsPart id bs size total f =
    (f.message_id ≡ id) × (f.total ≡ total) × (f.idx < total) × (f.payload ≡ chunk bs size f.idx)

pub fragments_from-IsPart :
    (id : MessageId) (bs : Bytes) (size total i k : ℕ)
    → i + k ≤ total
    → All (IsPart id bs size total) (fragments_from id bs size total i k)
unfolding fragments_from
fragments_from-IsPart id bs size total i zero h = tt
fragments_from-IsPart id bs size total i (suc k) h = (
  (refl, refl, omega arith, refl),
  fragments_from-IsPart id bs size total (suc i) k (omega arith),
)

pub length-fragments_from :
    (id : MessageId) (bs : Bytes) (size total i k : ℕ)
    → length (fragments_from id bs size total i k) ≡ k
unfolding fragments_from
length-fragments_from id bs size total i zero = refl
length-fragments_from id bs size total i (suc k) =
    ap suc (length-fragments_from id bs size total (suc i) k)

pub size_pos : (threshold : ℕ) → 1 ≤ fragment_size threshold
size_pos threshold = omega arith

pub zero_mul : (size : ℕ) → 0 * size ≡ 0
zero_mul size = omega arith

pub fragment_bytes-cut :
    (threshold : ℕ) (id : MessageId) (bs : Bytes)
    → threshold < length bs
    → fragment_bytes threshold id bs
      ≡ fragments_from id bs
          (fragment_size threshold)
          (fragment_count (length bs) (fragment_size threshold))
          0
          (fragment_count (length bs) (fragment_size threshold))
unfolding fragment_bytes
fragment_bytes-cut threshold id bs h =
    let e : leb (length bs) threshold ≡ false = ground arith in rw e

-- A message over the threshold is cut into fragments that together carry all its bytes, in
-- order. Each carries at most the fragment size, the index and the number of fragments.
pub fragment_bytes_lem :
    (threshold : ℕ) (id : MessageId) (bs : Bytes)
    → threshold < length bs
    → (concat (payloads (fragment_bytes threshold id bs)) ≡ bs)
      × All
          (IsPart id bs (fragment_size threshold) (length (fragment_bytes threshold id bs)))
          (fragment_bytes threshold id bs)
      × All (λ f. length f.payload ≤ fragment_size threshold) (fragment_bytes threshold id bs)
fragment_bytes_lem threshold id bs h =
    let size = fragment_size threshold in
    let n = fragment_count (length bs) size in
    rw (fragment_bytes-cut threshold id bs h, length-fragments_from id bs size n 0 n)
      (
        concat-chunks id bs size n 0 n
            ∙ rw (zero_mul size)
                (take_all (n * size) bs (count_covers (length bs) size (size_pos threshold))),
        fragments_from-IsPart id bs size n 0 n (omega arith),
        All-mono (fragments_from id bs size n 0 n)
            (λ f p. rw p.3 (omega (arith, length-take size (drop (f.idx * size) bs))))
            (fragments_from-IsPart id bs size n 0 n (omega arith)),
      )

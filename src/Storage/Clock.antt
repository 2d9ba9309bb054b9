-- ===== src/Storage/Clock.antt =====
-- The vector clock: the longest run of sequence numbers from 1 that a node's messages cover.
use rfmpd.Base.{
  All, All-mono, Bool-cases, Bytes, List, Option, [], ap, arith, false, inl, inr, leb, leb→le, none,
  refl, some, subst, true, ℕ, ◌+◌, ◌<◌, ◌==◌, ◌↔◌, ◌∷◌, ◌≡◌, ◌≢◌, ◌≤◌, ◌⊎◌,
}
use rfmpd.Text.{text_eq}
use rfmpd.Storage.Messages.{MessageRow, insert_seq, with_seq, seqs_of, contiguous, clock_of}

abbrev In : ℕ → List ℕ → Type 0
In n [] = ⊥
In n (m ∷ ms) = (m ≡ n) ⊎ In n ms

-- A message of the node with this sequence number is stored.
abbrev pub HasSeq : Bytes → ℕ → List MessageRow → Type 0
HasSeq node n [] = ⊥
HasSeq node n (r ∷ rs) = ((text_eq r.from_node node ≡ true) × (r.seq ≡ some n)) ⊎ HasSeq node n rs

abbrev IsAscending : List ℕ → Type 0
IsAscending [] = Unit
IsAscending (m ∷ ms) = All (λ n. m ≤ n) ms × IsAscending ms

All-insert_seq :
    (k n : ℕ) (ms : List ℕ) → k ≤ n → All (λ m. k ≤ m) ms → All (λ m. k ≤ m) (insert_seq n ms)
unfolding insert_seq
All-insert_seq k n [] h v = (h, tt)
All-insert_seq k n (m ∷ ms) h v = elim (Bool-cases (leb n m)) [
  | inl e ↦ rw e (h, v)
  | inr e ↦ rw e (v.0, All-insert_seq k n ms h v.1)
]

insert_seq-IsAscending : (n : ℕ) (ms : List ℕ) → IsAscending ms → IsAscending (insert_seq n ms)
unfolding insert_seq
insert_seq-IsAscending n [] v = (tt, tt)
insert_seq-IsAscending n (m ∷ ms) v = elim (Bool-cases (leb n m)) [
  | inl e ↦ rw e ((leb→le n m e, All-mono ms (λ a h. omega (arith, leb→le n m e)) v.0), v)
  | inr e ↦ rw e (All-insert_seq m n ms (ground arith) v.0, insert_seq-IsAscending n ms v.1)
]

with_seq-IsAscending : (o : Option ℕ) (ms : List ℕ) → IsAscending ms → IsAscending (with_seq o ms)
with_seq-IsAscending none ms v = v
with_seq-IsAscending (some n) ms v = insert_seq-IsAscending n ms v

seqs_of-IsAscending : (node : Bytes) (rs : List MessageRow) → IsAscending (seqs_of node rs)
unfolding seqs_of
seqs_of-IsAscending node [] = tt
seqs_of-IsAscending node (r ∷ rs) = elim (Bool-cases (text_eq r.from_node node)) [
  | inl e ↦ rw e (with_seq-IsAscending r.seq (seqs_of node rs) (seqs_of-IsAscending node rs))
  | inr e ↦ rw e (seqs_of-IsAscending node rs)
]

In-insert_seq : (k n : ℕ) (ms : List ℕ) → In k (insert_seq n ms) ↔ ((n ≡ k) ⊎ In k ms)
unfolding insert_seq
In-insert_seq k n [] = (λ h. h, λ h. h)
In-insert_seq k n (m ∷ ms) = elim (Bool-cases (leb n m)) [
  | inl e ↦ rw e (λ h. h, λ h. h)
  | inr e ↦ rw e (swap (In-insert_seq k n ms))
]
  where
    swap :
        (In k (insert_seq n ms) ↔ ((n ≡ k) ⊎ In k ms))
        → ((m ≡ k) ⊎ In k (insert_seq n ms)) ↔ ((n ≡ k) ⊎ ((m ≡ k) ⊎ In k ms))
    swap i = (
      λ h. elim h [
        | inl p ↦ inr (inl p)
        | inr q ↦ elim (i.0 q) [ inl p ↦ inl p | inr p ↦ inr (inr p) ]
      ],
      λ h. elim h [
        | inl p ↦ inr (i.1 (inl p))
        | inr q ↦ elim q [ inl p ↦ inl p | inr p ↦ inr (i.1 (inr p)) ]
      ],
    )

In-with_seq : (k : ℕ) (o : Option ℕ) (ms : List ℕ) → In k (with_seq o ms) ↔ ((o ≡ some k) ⊎ In k ms)
In-with_seq k none ms = (λ h. inr h, λ h. elim h [ inl p ↦ absurd (cc p) | inr q ↦ q ])
In-with_seq k (some n) ms =
    let i = In-insert_seq k n ms in
    (
      λ h. elim (i.0 h) [ inl p ↦ inl (ap some p) | inr q ↦ inr q ],
      λ h. elim h [ inl p ↦ i.1 (inl (cc p)) | inr q ↦ i.1 (inr q) ],
    )

In-seqs_of :
    (node : Bytes) (k : ℕ) (rs : List MessageRow) → In k (seqs_of node rs) ↔ HasSeq node k rs
unfolding seqs_of
In-seqs_of node k [] = (λ h. h, λ h. h)
In-seqs_of node k (r ∷ rs) = elim (Bool-cases (text_eq r.from_node node)) [
  | inl e ↦ rw e (own e (In-with_seq k r.seq (seqs_of node rs)) (In-seqs_of node k rs))
  | inr e ↦ rw e (other e (In-seqs_of node k rs))
]
  where
    own :
        text_eq r.from_node node ≡ true
        → (In k (with_seq r.seq (seqs_of node rs)) ↔ ((r.seq ≡ some k) ⊎ In k (seqs_of node rs)))
        → (In k (seqs_of node rs) ↔ HasSeq node k rs)
        → In k (with_seq r.seq (seqs_of node rs))
          ↔ (((true ≡ true) × (r.seq ≡ some k)) ⊎ HasSeq node k rs)
    own e i j = (
      λ h. elim (i.0 h) [ inl p ↦ inl (refl, p) | inr q ↦ inr (j.0 q) ],
      λ h. elim h [ inl p ↦ i.1 (inl p.1) | inr q ↦ i.1 (inr (j.1 q)) ],
    )

    other :
        text_eq r.from_node node ≡ false
        → (In k (seqs_of node rs) ↔ HasSeq node k rs)
        → In k (seqs_of node rs) ↔ (((false ≡ true) × (r.seq ≡ some k)) ⊎ HasSeq node k rs)
    other e j = (λ h. inr (j.0 h), λ h. elim h [ inl p ↦ absurd (cc p.0) | inr q ↦ j.1 q ])

contiguous_above : (c : ℕ) (ms : List ℕ) → All (λ m. c + 1 < m) ms → contiguous c ms ≡ c
unfolding contiguous
contiguous_above c [] v = refl
contiguous_above c (m ∷ ms) v = ground (arith, contiguous_above c ms v.1)

le-contiguous : (c : ℕ) (ms : List ℕ) → c ≤ contiguous c ms
unfolding contiguous
le-contiguous c [] = omega arith
le-contiguous c (m ∷ ms) = ground (arith, le-contiguous c ms, le-contiguous (c + 1) ms)

-- Every number that the run takes in is there.
contiguous-In : (c s : ℕ) (ms : List ℕ) → c < s → s ≤ contiguous c ms → In s ms
unfolding contiguous
contiguous-In c s [] h k = absurd (omega arith)
contiguous-In c s (m ∷ ms) h k = elim (Bool-cases (m == c + 1)) [
  | inl e ↦ elim (Bool-cases (m == s)) [
    | inl f ↦ inl (ground arith)
    | inr n ↦ inr (contiguous-In m s ms (ground arith) (rw e at k))
  ]
  | inr e ↦ inr (contiguous-In c s ms h (rw e at k))
]

-- The number behind the run is not.
contiguous-not_In : (c : ℕ) (ms : List ℕ) → IsAscending ms → ¬ In (contiguous c ms + 1) ms
unfolding contiguous
contiguous-not_In c [] v = λ h. h
contiguous-not_In c (m ∷ ms) v = elim (Bool-cases (m == c + 1)) [
  | inl e ↦
      let q : contiguous m ms ≡ contiguous c (m ∷ ms) = rw e in
      subst (λ k. ¬ In (k + 1) (m ∷ ms)) q
        λ h. elim h [
          | inl p ↦ absurd (omega (arith, p, le-contiguous m ms))
          | inr i ↦ contiguous-not_In m ms v.1 i
        ]
  | inr e ↦
      let q : contiguous c ms ≡ contiguous c (m ∷ ms) = rw e in
      subst (λ k. ¬ In (k + 1) (m ∷ ms)) q
        λ h. elim h [ inl p ↦ gap (ground arith) p | inr i ↦ contiguous-not_In c ms v.1 i ]
]
  where
    gap : m ≢ c + 1 → m ≢ contiguous c ms + 1
    gap n p =
        let big : c + 1 < m = omega (arith, le-contiguous c ms) in
        absurd (omega (arith, contiguous_above c ms (All-mono ms (λ a h. omega arith) v.0)))

-- Every sequence number from 1 up to the clock's entry for a node is stored.
pub clock_of-HasSeq :
    (node : Bytes) (rs : List MessageRow) (s : ℕ) → 1 ≤ s → s ≤ clock_of node rs → HasSeq node s rs
unfolding clock_of
clock_of-HasSeq node rs s h k = (In-seqs_of node s rs).0 (contiguous-In 0 s (seqs_of node rs) h k)

-- The sequence number behind the clock's entry for a node is not stored.
pub clock_of-gap : (node : Bytes) (rs : List MessageRow) → ¬ HasSeq node (clock_of node rs + 1) rs
unfolding clock_of
clock_of-gap node rs h =
    contiguous-not_In 0 (seqs_of node rs) (seqs_of-IsAscending node rs) ((In-seqs_of node _ rs).1 h)

-- The clock's entry for a node is at least `n` exactly if all sequence numbers from 1 to `n` are
-- stored: it is the end of their run without a gap, in whatever order the messages are stored.
pub le-clock_of :
    (node : Bytes) (rs : List MessageRow) (n : ℕ)
    → (n ≤ clock_of node rs) ↔ ((s : ℕ) → 1 ≤ s → s ≤ n → HasSeq node s rs)
le-clock_of node rs n = (
  λ h s j k. clock_of-HasSeq node rs s j (omega (arith, h, k)),
  λ h. elim (Bool-cases (leb n (clock_of node rs))) [
    | inl e ↦ leb→le n (clock_of node rs) e
    | inr e ↦
        absurd (clock_of-gap node rs (h (clock_of node rs + 1) (omega arith) (ground (arith, e))))
  ],
)

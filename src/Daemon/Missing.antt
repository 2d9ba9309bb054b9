-- ===== src/Daemon/Missing.antt =====
-- What the sync asks of the tables: the rows behind a number, and the entries of a vector.
use rfmpd.Base.{
  Any, Bool-cases, Bytes, List, [], arith, inl, inr, leb, ltb, lt→ltb, refl, some, subst, sym, true,
  ℕ, ◌<◌, ◌∷◌, ◌≡◌,
}
use rfmpd.Base.Int.{ℤ}
use rfmpd.Text.{text_eq, text_eq→≡, text_eq_refl}
use rfmpd.Frames.{Vector, lookup_vector}
use rfmpd.Storage.Messages.{
  MessageRow, insert_by_seq, messages_after, after_seq, seq_of, clock_of, nodes_of, mem_text,
  clock_entries, vector_clock,
}

insert_by_seq-new : (r : MessageRow) (qs : List MessageRow) → Any (λ x. x ≡ r) (insert_by_seq r qs)
unfolding insert_by_seq
insert_by_seq-new r [] = inl refl
insert_by_seq-new r (q ∷ qs) = elim (Bool-cases (leb (seq_of r.seq) (seq_of q.seq))) [
  | inl e ↦ rw e (inl refl)
  | inr e ↦ rw e (inr (insert_by_seq-new r qs))
]

insert_by_seq-old :
    (r x : MessageRow) (qs : List MessageRow)
    → Any (λ y. y ≡ x) qs
    → Any (λ y. y ≡ x) (insert_by_seq r qs)
unfolding insert_by_seq
insert_by_seq-old r x [] h = absurd h
insert_by_seq-old r x (q ∷ qs) h = elim (Bool-cases (leb (seq_of r.seq) (seq_of q.seq))) [
  | inl e ↦ rw e (inr h)
  | inr e ↦ rw e (elim h [ inl p ↦ inl p | inr i ↦ inr (insert_by_seq-old r x qs i) ])
]

-- `GetMessagesAfterSeq` leaves out no row that it asks for.
pub messages_after-all :
    (node : Bytes) (n : ℕ) (r : MessageRow) (rs : List MessageRow)
    → after_seq node n r ≡ true
    → Any (λ x. x ≡ r) rs
    → Any (λ x. x ≡ r) (messages_after node n rs)
unfolding messages_after
messages_after-all node n r [] a h = absurd h
messages_after-all node n r (q ∷ rs) a h = elim h [
  | inl p ↦
      let t : after_seq node n q ≡ true = rw p a in
      let u : Any (λ x. x ≡ r) (insert_by_seq q (messages_after node n rs)) =
        subst (λ y. Any (λ x. x ≡ r) (insert_by_seq y (messages_after node n rs))) (sym p)
          (insert_by_seq-new r (messages_after node n rs)) in
      rw t u
  | inr i ↦
      let ih = messages_after-all node n r rs a i in
      elim (Bool-cases (after_seq node n q)) [
        | inl e ↦ rw e (insert_by_seq-old q r (messages_after node n rs) ih)
        | inr e ↦ rw e ih
      ]
]

pub lookup_vector-entry :
    (k : Bytes) (n : ℤ) (v : Vector) → lookup_vector k v ≡ some n → Any (λ x. x ≡ (k, n)) v
unfolding lookup_vector
lookup_vector-entry k n [] h = absurd (cc)
lookup_vector-entry k n ((j, m) ∷ v) h = elim (Bool-cases (text_eq j k)) [
  | inl e ↦
      let p : j ≡ k = text_eq→≡ j k e in let q : m ≡ n = ground (arith, h, e) in inl (rw (p, q))
  | inr e ↦ inr (lookup_vector-entry k n v (rw e at h))
]

mem_text-nodes_of :
    (r : MessageRow) (rs : List MessageRow)
    → Any (λ x. x ≡ r) rs
    → mem_text r.from_node (nodes_of rs) ≡ true
unfolding nodes_of
mem_text-nodes_of r [] h = absurd h
mem_text-nodes_of r (q ∷ rs) h = elim h [
  | inl p ↦
      subst (λ y. mem_text y.from_node (nodes_of (q ∷ rs)) ≡ true) p
        (ground (arith, text_eq_refl q.from_node))
  | inr i ↦ ground (arith, mem_text-nodes_of r rs i)
]

pub clock_entries-entry :
    (node : Bytes) (rs : List MessageRow) (ns : List Bytes)
    → mem_text node ns ≡ true
    → 0 < clock_of node rs
    → Any (λ x. x ≡ (node, clock_of node rs)) (clock_entries rs ns)
clock_entries-entry node rs [] h c = absurd (cc)
clock_entries-entry node rs (n ∷ ns) h c = elim (Bool-cases (text_eq n node)) [
  | inl e ↦
      let p : n ≡ node = text_eq→≡ n node e in
      let t : ltb 0 (clock_of n rs) ≡ true = rw p (lt→ltb 0 (clock_of node rs) c) in
      rw t (inl (rw p))
  | inr e ↦
      let ih = clock_entries-entry node rs ns (rw e at h) c in
      elim (Bool-cases (ltb 0 (clock_of n rs))) [ inl t ↦ rw t (inr ih) | inr t ↦ rw t ih ]
]

pub vector_clock-entry :
    (r : MessageRow) (rs : List MessageRow)
    → Any (λ x. x ≡ r) rs
    → 0 < clock_of r.from_node rs
    → Any (λ x. x ≡ (r.from_node, clock_of r.from_node rs)) (vector_clock rs)
unfolding vector_clock
vector_clock-entry r rs h c =
    clock_entries-entry r.from_node rs (nodes_of rs) (mem_text-nodes_of r rs h) c

-- ===== src/Daemon/Agreeing.antt =====
-- Two nodes that have the same messages of every node tell each other nothing.
use rfmpd.Base.{
  All, All-mono, Any, Bool-cases, Bytes, List, Option-cases, [], ap, append-nil, arith, false,
  if◌then◌else◌, inl, inr, ltb, ltb→lt, map, max, none, refl, subst, sym, true, ℕ, ◌++◌, ◌<◌, ◌∙◌,
  ◌∷◌, ◌≡◌, ◌≢◌, ◌≤◌,
}
use rfmpd.Base.Int.{ℤ, pos, to_ℕ}
use rfmpd.Text.{text_eq, text_eq→≡, text_eq_refl}
use rfmpd.Frames.{Vector, lookup_vector}
use rfmpd.Wire.{Proto}
use rfmpd.Storage.{Database, mark_seen, update_node_sync}
use rfmpd.Storage.Messages.{
  MessageRow, messages_after, after_seq, max_seq, seq_of, clock_of, nodes_of, mem_text,
  clock_entries, vector_clock,
}
use rfmpd.Storage.Clock.{HasSeq, clock_of-HasSeq}
use rfmpd.Daemon.{Json, Daemon}
use rfmpd.Daemon.Handlers.{queue_rows, missing_nodes, answer_nodes, handle_svec}
use rfmpd.Daemon.Sending.{own_svec}
use rfmpd.Daemon.Missing.{clock_entries-entry}

-- Nothing is stored above the largest number.
messages_after-max :
    (node : Bytes) (n : ℕ) (rs : List MessageRow)
    → max_seq node rs ≤ n
    → messages_after node n rs ≡ []
unfolding messages_after max_seq
messages_after-max node n [] h = refl
messages_after-max node n (r ∷ rs) h = elim (Bool-cases (text_eq r.from_node node)) [
  | inl e ↦
      let k : max (seq_of r.seq) (max_seq node rs) ≤ n = rw e at h in
      let t : after_seq node n r ≡ false = ground (arith, e, k) in
      rw t (messages_after-max node n rs (omega (arith, k)))
  | inr e ↦
      let t : after_seq node n r ≡ false = ground (arith, e) in
      rw t (messages_after-max node n rs (rw e at h))
]

-- The entries of a clock.
abbrev IsEntry : List MessageRow → Bytes × ℕ → Type 0
IsEntry rs x = (x.1 ≡ clock_of x.0 rs) × (0 < x.1)

clock_entries-IsEntry :
    (rs : List MessageRow) (ns : List Bytes) → All (IsEntry rs) (clock_entries rs ns)
clock_entries-IsEntry rs [] = tt
clock_entries-IsEntry rs (n ∷ ns) = elim (Bool-cases (ltb 0 (clock_of n rs))) [
  | inl e ↦ rw e ((refl, ltb→lt 0 (clock_of n rs) e), clock_entries-IsEntry rs ns)
  | inr e ↦ rw e (clock_entries-IsEntry rs ns)
]

vector_clock-IsEntry : (rs : List MessageRow) → All (IsEntry rs) (vector_clock rs)
unfolding vector_clock
vector_clock-IsEntry rs = clock_entries-IsEntry rs (nodes_of rs)

HasSeq-mem_text :
    (node : Bytes) (n : ℕ) (rs : List MessageRow)
    → HasSeq node n rs
    → mem_text node (nodes_of rs) ≡ true
unfolding nodes_of
HasSeq-mem_text node n [] h = absurd h
HasSeq-mem_text node n (r ∷ rs) h = elim h [
  | inl p ↦
      let q : r.from_node ≡ node = text_eq→≡ r.from_node node p.0 in
      subst (λ y. mem_text y (nodes_of (r ∷ rs)) ≡ true) q
        (ground (arith, text_eq_refl r.from_node))
  | inr i ↦ ground (arith, HasSeq-mem_text node n rs i)
]

lookup_vector-ne-none :
    (k : Bytes) (n : ℕ) (c : List (Bytes × ℕ))
    → Any (λ x. x ≡ (k, n)) c
    → lookup_vector k (map (λ (j, m). (j, pos m)) c) ≢ none
unfolding lookup_vector
lookup_vector-ne-none k n [] h = absurd h
lookup_vector-ne-none k n ((j, m) ∷ c) h = elim (Bool-cases (text_eq j k)) [
  | inl e ↦ rw e (λ f. absurd (cc f))
  | inr e ↦ elim h [
    | inl p ↦ absurd (ground (arith, e, ap (λ x. text_eq x.0 k) p, text_eq_refl k))
    | inr i ↦ rw e (lookup_vector-ne-none k n c i)
  ]
]

missing_entry :
    (rs qs : List MessageRow)
    → ((node : Bytes) → clock_of node qs ≡ clock_of node rs)
    → (x : Bytes × ℕ) → IsEntry rs x
    → lookup_vector x.0 (map (λ (j, m). (j, pos m)) (vector_clock qs)) ≢ none
unfolding vector_clock
missing_entry rs qs same (k, n) (e, p) =
    let q : clock_of k qs ≡ n = same k ∙ sym e in
    let c : 0 < clock_of k qs = omega (arith, q) in
    let m = HasSeq-mem_text k 1 qs (clock_of-HasSeq k qs 1 (omega arith) (omega (arith, c))) in
    lookup_vector-ne-none k (clock_of k qs) (vector_clock qs)
      (clock_entries-entry k qs (nodes_of qs) m c)

module _ (json : Json) (proto : Proto) where
  missing_nodes-nil :
      (v : Vector) (clock : List (Bytes × ℕ))
      → All (λ x. lookup_vector x.0 v ≢ none) clock
      → missing_nodes json proto v clock ≡ []
  unfolding missing_nodes
  missing_nodes-nil v [] h = refl
  missing_nodes-nil v ((k, n) ∷ clock) h = elim (Option-cases (lookup_vector k v)) [
    | inl e ↦ absurd (h.0 e)
    | inr (z, e) ↦ rw (e, missing_nodes) (missing_nodes-nil v clock h.1)
  ]

  answer_nodes-nil :
      (now : ℕ) (delays : Bytes → ℕ → ℕ) (d : Daemon) (from : Bytes) (v : Vector) (db : Database)
      → All (λ x. messages_after x.0 (to_ℕ x.1) db.messages ≡ []) v
      → answer_nodes json proto now delays d from v db ≡ db
  unfolding answer_nodes queue_rows
  answer_nodes-nil now delays d from [] db h = refl
  answer_nodes-nil now delays d from ((k, n) ∷ v) db h =
      let same : (if text_eq k from
            then db
            else queue_rows json proto now delays d (messages_after k (to_ℕ n) db.messages) db)
          ≡ db =
        elim (Bool-cases (text_eq k from)) [ inl e ↦ rw e refl | inr e ↦ rw (e, h.0) refl ] in
      ap (answer_nodes json proto now delays d from v) same
      ∙ answer_nodes-nil now delays d from v db h.1

  -- The entries of a peer's own clock ask for nothing.
  own_entries :
      (rs : List MessageRow) (qs : List MessageRow)
      → ((node : Bytes) → clock_of node qs ≡ clock_of node rs)
      → ((node : Bytes) → max_seq node rs ≤ clock_of node rs)
      → (c : List (Bytes × ℕ)) → All (IsEntry qs) c
      → All
          (λ (x : Bytes × ℤ). messages_after x.0 (to_ℕ x.1) rs ≡ [])
          (map (λ (j, m). (j, pos m)) c)
  own_entries rs qs same full [] h = tt
  own_entries rs qs same full ((k, n) ∷ c) h = (
    messages_after-max k n rs (omega (arith, full k, same k, h.0.0)),
    own_entries rs qs same full c h.1,
  )

  -- A node whose stored numbers have no gap gets the vector clock of a peer whose clock has the
  -- same entry for every node: it queues nothing, so that nodes that agree fall silent.
  pub handle_svec-own_svec :
      (now : ℕ) (delays : Bytes → ℕ → ℕ) (peer d : Daemon)
      → ((node : Bytes) → clock_of node peer.db.messages ≡ clock_of node d.db.messages)
      → ((node : Bytes) → max_seq node d.db.messages ≤ clock_of node d.db.messages)
      → (handle_svec json proto now delays (own_svec peer) d).db.queue ≡ d.db.queue
  unfolding handle_svec own_svec update_node_sync mark_seen
  handle_svec-own_svec now delays peer d same full =
      let rs = d.db.messages in
      let qs = peer.db.messages in
      let s = own_svec peer in
      let db = update_node_sync now s.from_node (mark_seen now s.from_node none false d.db) in
      let entries = vector_clock-IsEntry rs in
      let none_missing : missing_nodes json proto s.vector (vector_clock rs) ≡ [] =
        missing_nodes-nil s.vector (vector_clock rs)
          (All-mono (vector_clock rs) (missing_entry rs qs same) entries) in
      let asked = own_entries rs qs same full (vector_clock qs) (vector_clock-IsEntry qs) in
      let e : s.vector ++ missing_nodes json proto s.vector (vector_clock rs) ≡ s.vector =
        ap (λ l. s.vector ++ l) none_missing ∙ append-nil s.vector in
      ap (λ x. x.queue)
        (ap (λ v. answer_nodes json proto now delays d s.from_node v db) e
          ∙ answer_nodes-nil now delays d s.from_node s.vector db asked)

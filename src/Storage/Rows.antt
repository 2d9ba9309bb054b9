-- ===== src/Storage/Rows.antt =====
-- The constraints of the message table, and the sequence numbers that a node gives out.
use rfmpd.Base.{
  All, All-append, Bool-cases, Bytes, List, Option, [], arith, false, if◌then◌else◌, inl, inr, ltb,
  ltb→lt, refl, some, suc, true, ℕ, ◌&&◌, ◌++◌, ◌+◌, ◌<◌, ◌==◌, ◌∷◌, ◌≡◌, ◌≤◌, ◌⊎◌,
}
use rfmpd.Text.{text_eq, text_eq_refl}
use rfmpd.Storage.{Database, count_message, save_message, save_message_with_seq}
use rfmpd.Storage.Messages.{
  MessageRow, NewMessage, new_row, same_seq, conflicts, max_seq, seq_of, clock_of,
}
use rfmpd.Storage.Clock.{HasSeq, clock_of-HasSeq, clock_of-gap}

-- A later row has another ID, and another sequence number if it is of the same node.
abbrev pub Differ : MessageRow → MessageRow → Type 0
Differ r q =
    (text_eq r.id q.id ≡ false)
    × ((text_eq r.from_node q.from_node && same_seq r.seq q.seq) ≡ false)

-- The primary key and the unique index hold.
abbrev pub IsTable : List MessageRow → Type 0
IsTable [] = Unit
IsTable (r ∷ rs) = All (Differ r) rs × IsTable rs

pub IsTable-insert :
    (now : ℕ) (m : NewMessage) (seq : Option ℕ) (rs : List MessageRow)
    → IsTable rs
    → conflicts m seq rs ≡ false
    → IsTable (rs ++ new_row now m seq ∷ [])
unfolding conflicts
IsTable-insert now m seq [] v c = (tt, tt)
IsTable-insert now m seq (r ∷ rs) v c = (
  All-append (Differ r) rs (new_row now m seq ∷ []) v.0 ((ground arith, ground arith), tt),
  IsTable-insert now m seq rs v.1 (ground arith),
)

messages-count_message :
    (now : ℕ) (channel node : Bytes) (db : Database)
    → (count_message now channel node db).messages ≡ db.messages
unfolding count_message
messages-count_message now channel node db = refl

-- `SaveMessage` adds the row and reports it as new, or leaves the table as it is and reports it
-- as known; either way no two rows share an ID or a sequence number of one node.
save_message-IsTable :
    (now : ℕ) (m : NewMessage) (seq : Option ℕ) (db : Database)
    → IsTable db.messages
    → IsTable (save_message now m seq db).0.messages
      × ((save_message now m seq db).0.messages ≡ (
          if (save_message now m seq db).1
          then db.messages ++ new_row now m seq ∷ []
          else db.messages))
unfolding save_message
save_message-IsTable now m seq db v = elim (Bool-cases (conflicts m seq db.messages)) [
  | inl e ↦ rw e (v, refl)
  | inr e ↦ rw e (rw messages-count_message (IsTable-insert now m seq db.messages v e, refl))
]

HasSeq-le-max_seq :
    (node : Bytes) (s : ℕ) (rs : List MessageRow) → HasSeq node s rs → s ≤ max_seq node rs
unfolding max_seq
HasSeq-le-max_seq node s [] h = absurd h
HasSeq-le-max_seq node s (r ∷ rs) h = elim h [
  | inl p ↦ rw p.0 (let e : seq_of r.seq ≡ s = rw p.1 in omega arith)
  | inr q ↦ elim (Bool-cases (text_eq r.from_node node)) [
    | inl e ↦ rw e (omega (arith, HasSeq-le-max_seq node s rs q))
    | inr e ↦ rw e (HasSeq-le-max_seq node s rs q)
  ]
]

HasSeq-append :
    (node : Bytes) (s : ℕ) (rs : List MessageRow) (r : MessageRow)
    → HasSeq node s (rs ++ r ∷ [])
    → HasSeq node s rs ⊎ ((text_eq r.from_node node ≡ true) × (r.seq ≡ some s))
HasSeq-append node s [] r h = elim h [ inl p ↦ inr p | inr q ↦ absurd q ]
HasSeq-append node s (q ∷ rs) r h = elim h [
  | inl p ↦ inl (inl p)
  | inr i ↦ elim (HasSeq-append node s rs r i) [ inl j ↦ inl (inr j) | inr j ↦ inr j ]
]

HasSeq-append_old :
    (node : Bytes) (s : ℕ) (rs : List MessageRow) (r : MessageRow)
    → HasSeq node s rs
    → HasSeq node s (rs ++ r ∷ [])
HasSeq-append_old node s [] r h = absurd h
HasSeq-append_old node s (q ∷ rs) r h = elim h [
  | inl p ↦ inl p
  | inr i ↦ inr (HasSeq-append_old node s rs r i)
]

HasSeq-append_new :
    (node : Bytes) (s : ℕ) (rs : List MessageRow) (r : MessageRow)
    → text_eq r.from_node node ≡ true
    → r.seq ≡ some s
    → HasSeq node s (rs ++ r ∷ [])
HasSeq-append_new node s [] r e f = inl (e, f)
HasSeq-append_new node s (q ∷ rs) r e f = inr (HasSeq-append_new node s rs r e f)

-- What a successful `SaveMessageWithSeq` did.
saved :
    (now : ℕ) (m : NewMessage) (db db' : Database) (seq : ℕ)
    → save_message_with_seq now m db ≡ some (db', seq)
    → (seq ≡ suc (max_seq m.from_node db.messages))
      × (db'.messages ≡ db.messages ++ new_row now m (some seq) ∷ [])
unfolding save_message_with_seq
saved now m db db' seq e = (
  ground arith,
  ground (
    arith,
    messages-count_message now m.channel m.from_node (record db {
      messages = db.messages ++ new_row now m (some (suc (max_seq m.from_node db.messages))) ∷ [];
    }),
  ),
)

-- A number given out by `SaveMessageWithSeq` is above all that the node's stored messages have.
save_message_with_seq-above :
    (now : ℕ) (m : NewMessage) (db db' : Database) (seq s : ℕ)
    → save_message_with_seq now m db ≡ some (db', seq)
    → HasSeq m.from_node s db.messages
    → s < seq
save_message_with_seq-above now m db db' seq s e h =
    let (q, rows) = saved now m db db' seq e in
    omega (arith, HasSeq-le-max_seq m.from_node s db.messages h)

-- If the stored numbers of a node have no gap, then `SaveMessageWithSeq` leaves none, and the
-- node's entry in the vector clock is the number that it gives out.
pub save_message_with_seq-clock :
    (now : ℕ) (m : NewMessage) (db db' : Database) (seq : ℕ)
    → save_message_with_seq now m db ≡ some (db', seq)
    → clock_of m.from_node db.messages ≡ max_seq m.from_node db.messages
    → clock_of m.from_node db'.messages ≡ seq
save_message_with_seq-clock now m db db' seq e full =
    let (q, rows) = saved now m db db' seq e in rw rows (clock q)
  where
    node : Bytes
    node = m.from_node

    present :
        seq ≡ suc (max_seq node db.messages)
        → (s : ℕ) → 1 ≤ s
        → s ≤ seq
        → HasSeq node s (db.messages ++ new_row now m (some seq) ∷ [])
    present q s lo hi = elim (Bool-cases (s == seq)) [
      | inl e ↦
          HasSeq-append_new node s db.messages (new_row now m (some seq)) (text_eq_refl node)
            (ground arith)
      | inr n ↦
          HasSeq-append_old node s db.messages (new_row now m (some seq))
            (clock_of-HasSeq node db.messages s lo (ground arith))
    ]

    above :
        seq ≡ suc (max_seq node db.messages)
        → (s : ℕ) → seq < s
        → ¬ HasSeq node s (db.messages ++ new_row now m (some seq) ∷ [])
    above q s lt h = elim (HasSeq-append node s db.messages (new_row now m (some seq)) h) [
      | inl old ↦ absurd (omega (arith, HasSeq-le-max_seq node s db.messages old))
      | inr new ↦ absurd (ground arith)
    ]

    clock :
        seq ≡ suc (max_seq m.from_node db.messages)
        → clock_of m.from_node (db.messages ++ new_row now m (some seq) ∷ []) ≡ seq
    clock q =
        let rows = db.messages ++ new_row now m (some seq) ∷ [] in
        let k = clock_of node rows in
        elim (Bool-cases (ltb k seq)) [
          | inl lt ↦ absurd (
              clock_of-gap node rows
                (present q (k + 1) (omega arith) (omega (arith, ltb→lt k seq lt))))
          | inr ge ↦ elim (Bool-cases (ltb seq k)) [
            | inl gt ↦ absurd (
                above q k (ltb→lt seq k gt)
                  (clock_of-HasSeq node rows k (omega (arith, ltb→lt seq k gt)) (omega arith)))
            | inr le ↦ ground arith
          ]
        ]

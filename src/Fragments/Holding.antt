-- ===== src/Fragments/Holding.antt =====
-- What a collector of one message holds, and what a fragment of the message adds to it.
use rfmpd.Base.{
  ==_refl, All, Bool, Bool-cases, Bytes, List, Option, [], arith, drop, drop-drop, false, inl, inr,
  length, none, refl, some, suc, take, true, zero, ℕ, ◌*◌, ◌+◌, ◌<◌, ◌==◌, ◌∙◌, ◌∷◌, ◌≡◌, ◌≢◌,
}
use rfmpd.Text.{text_eq_refl}
use rfmpd.Message.{MessageId}
use rfmpd.Message.Timestamp.{Time}
use rfmpd.Frames.{Frag}
use rfmpd.Fragments.{
  Pieces, find_piece, Collector, new_collector, collector_add, is_complete, join_from, reassemble,
  find_collector, set_collector, delete_collector, chunk,
}
use rfmpd.Fragments.Chunks.{IsPart, suc_mul, zero_mul, take-add}
use rfmpd.Fragments.Collected.{IsPieces, find-full}

pub find-set_collector :
    (k : Bytes) (c : Collector) (cs : List (Bytes × Collector))
    → find_collector k (set_collector k c cs) ≡ some c
unfolding find_collector set_collector
find-set_collector k c [] = rw (text_eq_refl k)
find-set_collector k c ((j, d) ∷ cs) = ground (arith, text_eq_refl k, find-set_collector k c cs)

pub find-delete_collector :
    (k : Bytes) (cs : List (Bytes × Collector)) → find_collector k (delete_collector k cs) ≡ none
unfolding find_collector delete_collector
find-delete_collector k [] = refl
find-delete_collector k ((j, d) ∷ cs) = ground (arith, find-delete_collector k cs)

-- The pieces are chunks of the encoded message.
abbrev pub AreChunks : Bytes → ℕ → Pieces → Type 0
AreChunks bs size = All (λ p. p.1 ≡ chunk bs size p.0)

-- A collector of the message `id`, cut into `total` chunks of `bs`.
pub record Holds (id : MessageId) (bs : Bytes) (size total : ℕ) (c : Collector) : Type 0 where
  pub id_is : c.message_id ≡ id
  pub total_is : c.total_fragments ≡ total
  pub pieces_ok : IsPieces total c.fragments
  pub chunks_ok : AreChunks bs size c.fragments

find-AreChunks :
    (bs : Bytes) (size i : ℕ) (ps : Pieces)
    → AreChunks bs size ps
    → find_piece i ps ≢ none
    → find_piece i ps ≡ some (chunk bs size i)
find-AreChunks bs size i [] h n = absurd (n refl)
find-AreChunks bs size i ((j, b) ∷ ps) h n = elim (Bool-cases (j == i)) [
  | inl e ↦ rw e (let g : j ≡ i = ground arith in rw (h.0, g))
  | inr e ↦ rw e (find-AreChunks bs size i ps h.1 (λ q. n (rw e q)))
]

-- With every index from `i` on present, the joined pieces are the bytes that they were cut from.
join_from-chunks :
    (bs : Bytes) (size i k : ℕ) (ps : Pieces)
    → AreChunks bs size ps
    → ((j : ℕ) → j < i + k → find_piece j ps ≢ none)
    → join_from ps i k ≡ take (k * size) (drop (i * size) bs)
unfolding join_from
join_from-chunks bs size i zero ps h all = rw (zero_mul size)
join_from-chunks bs size i (suc k) ps h all =
    let e : suc k * size ≡ size + k * size = suc_mul k size ∙ omega arith in
    rw (
      find-AreChunks bs size i ps h (all i (omega arith)),
      join_from-chunks bs size (suc i) k ps h (λ j lt. all j (omega arith)),
      e,
      suc_mul i size,
      take-add,
      drop-drop size (i * size) bs,
    )

length_complete : (c : Collector) → is_complete c ≡ true → length c.fragments ≡ c.total_fragments
unfolding is_complete
length_complete c full = ground arith

-- What a fragment adds, by what is there under its index.
abbrev pub with_piece : Collector → Frag → Option Bytes → Collector × Bool
with_piece c f (some b) = (c, false)
with_piece c f none = (record c { fragments = (f.idx, f.payload) ∷ c.fragments }, true)

module _ (id : MessageId) (bs : Bytes) (size total : ℕ) where
  pub complete-all :
      (c : Collector) (i : ℕ)
      → Holds id bs size total c
      → is_complete c ≡ true
      → i < total
      → find_piece i c.fragments ≢ none
  complete-all c i h full lt =
      find-full total i c.fragments h.pieces_ok (length_complete c full ∙ h.total_is) lt

  pub reassemble-chunks :
      (c : Collector)
      → Holds id bs size total c
      → is_complete c ≡ true
      → reassemble c ≡ take (total * size) bs
  reassemble-chunks c h full =
      unfold reassemble in
      rw (
        full,
        h.total_is,
        join_from-chunks bs size 0 total c.fragments h.chunks_ok
            (λ j lt. complete-all c j h full (omega arith)),
        zero_mul size,
      )

  pub not_complete :
      (c : Collector) (i : ℕ)
      → Holds id bs size total c
      → i < total
      → find_piece i c.fragments ≡ none
      → is_complete c ≡ false
  not_complete c i h lt missing = elim (Bool-cases (is_complete c)) [
    | inl full ↦ absurd (complete-all c i h full lt missing)
    | inr e ↦ e
  ]

  pub new_collector-Holds :
      (f : Frag) (now : Time)
      → IsPart id bs size total f
      → Holds id bs size total (new_collector f.message_id f.total now)
  unfolding new_collector
  new_collector-Holds f now p = record {
    id_is = p.0;
    total_is = p.1;
    pieces_ok = tt;
    chunks_ok = tt;
  }

  -- Adding a fragment of the message: a new index is stored, a known one is ignored.
  pub collector_add-part :
      (c : Collector) (f : Frag)
      → Holds id bs size total c
      → IsPart id bs size total f
      → collector_add c f ≡ with_piece c f (find_piece f.idx c.fragments)
  unfolding collector_add
  collector_add-part c f h p =
      rw (p.0, h.id_is, text_eq_refl id, p.1, h.total_is, ==_refl total) (ground arith)

  pub collector_add-Holds :
      (c : Collector) (f : Frag)
      → Holds id bs size total c
      → IsPart id bs size total f
      → Holds id bs size total (collector_add c f).0
  collector_add-Holds c f h p =
      rw (collector_add-part c f h p) (by_piece (find_piece f.idx c.fragments) refl)
    where
      by_piece :
          (o : Option Bytes)
          → find_piece f.idx c.fragments ≡ o
          → Holds id bs size total (with_piece c f o).0
      by_piece (some b) e = h
      by_piece none e = record {
        id_is = h.id_is;
        total_is = h.total_is;
        pieces_ok = (p.2, e, h.pieces_ok);
        chunks_ok = (p.3, h.chunks_ok);
      }

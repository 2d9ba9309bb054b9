-- ===== src/Fragments/Adding.antt =====
-- Adding fragments one by one: the pieces after each, and the two ends of `AddFragment`.
use rfmpd.Base.{
  ==_refl, Bool, Bytes, List, Option, [], arith, false, is_empty, length, none, refl, some, true, ℕ,
  ◌++◌, ◌∷◌, ◌≡◌, ◌≢◌, ◌⊎◌,
}
use rfmpd.Message.Timestamp.{Time}
use rfmpd.Frames.{Msg, Frag}
use rfmpd.Wire.{Proto, decode_msg_raw}
use rfmpd.Fragments.{
  Pieces, find_piece, Collector, is_complete, reassemble, Fragmenter, set_collector,
  delete_collector, add_fragment, finish_add,
}
use rfmpd.Fragments.Holding.{with_piece}

abbrev pub pieces_of : Option Collector → Pieces
pieces_of none = []
pieces_of (some c) = c.fragments

abbrev pub opt_list {ℓ} : {A : Type ℓ} → Option A → List A
opt_list none = []
opt_list (some a) = a ∷ []

-- Fragments that arrive one after another, and the messages that they complete.
unfoldable pub add_all : Proto → Fragmenter → List (Time × Frag) → Fragmenter × List Msg
add_all proto fr [] = (fr, [])
add_all proto fr ((t, f) ∷ es) =
    let r = add_fragment proto t fr f in
    let rest = add_all proto r.0 es in (rest.0, opt_list r.2 ++ rest.1)

abbrev pub Occurs : ℕ → List (Time × Frag) → Type 0
Occurs i [] = ⊥
Occurs i ((t, f) ∷ es) = (f.idx ≡ i) ⊎ Occurs i es

-- Pieces after a fragment: its own is there, the others stay.
pub find-with_piece_self :
    (c : Collector) (f : Frag)
    → find_piece f.idx (with_piece c f (find_piece f.idx c.fragments)).0.fragments ≢ none
find-with_piece_self c f = self (find_piece f.idx c.fragments) refl
  where
    self :
        (o : Option Bytes)
        → find_piece f.idx c.fragments ≡ o
        → find_piece f.idx (with_piece c f o).0.fragments ≢ none
    self none e = ground (arith, ==_refl f.idx)
    self (some b) e = ground arith

pub find-with_piece_ne :
    (c : Collector) (f : Frag) (j : ℕ)
    → f.idx ≢ j
    → find_piece j (with_piece c f (find_piece f.idx c.fragments)).0.fragments
      ≡ find_piece j c.fragments
find-with_piece_ne c f j n = other (find_piece f.idx c.fragments)
  where
    other :
        (o : Option Bytes) → find_piece j (with_piece c f o).0.fragments ≡ find_piece j c.fragments
    other none = ground arith
    other (some b) = refl

pub is_complete-length :
    (c : Collector) → length c.fragments ≡ c.total_fragments → is_complete c ≡ true
unfolding is_complete
is_complete-length c e = ground arith

module _ (proto : Proto) (key : Bytes) (fr : Fragmenter) (added : Collector × Bool) where
  pub finish_pending :
      is_complete added.0 ≡ false
      → finish_add proto key fr added
        ≡ (record fr { collectors = set_collector key added.0 fr.collectors }, added.1, none)
  unfolding finish_add
  finish_pending e = ground arith

  pub finish_done :
      (m : Msg)
      → is_complete added.0 ≡ true
      → reassemble added.0 ≢ []
      → decode_msg_raw proto (reassemble added.0) ≡ some m
      → finish_add proto key fr added ≡ (
        record fr { collectors = delete_collector key (set_collector key added.0 fr.collectors) },
        added.1,
        some m,
      )
  unfolding finish_add
  finish_done m e n d = let q : is_empty (reassemble added.0) ≡ false = ground arith in ground arith

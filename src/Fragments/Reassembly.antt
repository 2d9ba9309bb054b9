-- ===== src/Fragments/Reassembly.antt =====
-- Fragments of one message, added in any order and any number of times, give the message back
-- when the last missing one arrives, and nothing before.
use rfmpd.Base.{Bytes, List, Option, [], length, none, some, ℕ, ◌<◌, ◌≡◌, ◌≢◌, ◌≤◌}
use rfmpd.Message.{MessageId, id_to_hex}
use rfmpd.Message.Timestamp.{Time}
use rfmpd.Frames.{Msg, Frag}
use rfmpd.Wire.{Proto, max_fragments, encode_msg_raw}
use rfmpd.Fragments.{
  find_piece, Collector, collector_add, Fragmenter, find_collector, collector_or_new, fragment_size,
  fragment_message,
}
use rfmpd.Fragments.Chunks.{IsPart}
use rfmpd.Fragments.Adding.{pieces_of, Occurs}
use rfmpd.Fragments.Holding.{Holds}

module _ (proto : Proto) (id : MessageId) (bs : Bytes) (size total : ℕ)
    (small : total ≤ max_fragments) where
  abbrev HoldsOpt : Option Collector → Type 0
  HoldsOpt none = Unit
  HoldsOpt (some c) = Holds id bs size total c

  abbrev current : Fragmenter → Option Collector
  current fr = find_collector (id_to_hex id) fr.collectors

  -- The collector that a fragment is added to.
  record Target (o : Option Collector) (c : Collector) : Type 0 where
    holds : Holds id bs size total c
    same : c.fragments ≡ pieces_of o

  -- One more fragment, while index `i` stays missing.
  module _ (i : ℕ) (lt : i < total) (now : Time) (fr : Fragmenter) (f : Frag)
      (holds : HoldsOpt (current fr)) (part : IsPart id bs size total f) where
    target : Collector
    target = collector_or_new (current fr) f now

    stored : Collector
    stored = (collector_add target f).0

  -- Fragments with another index than `i` complete nothing, and are all kept.
  record Kept (i : ℕ) (es : List (Time × Frag)) (fr : Fragmenter) (r : Fragmenter × List Msg)
      : Type 0 where
    quiet : r.1 ≡ []
    holds : HoldsOpt (current r.0)
    missing : find_piece i (pieces_of (current r.0)) ≡ none
    old :
        (j : ℕ)
        → find_piece j (pieces_of (current fr)) ≢ none
        → find_piece j (pieces_of (current r.0)) ≢ none
    new : (j : ℕ) → Occurs j es → find_piece j (pieces_of (current r.0)) ≢ none

  abbrev Other : ℕ → Time × Frag → Type 0
  Other i e = IsPart id bs size total e.1 × (e.1.idx ≢ i)

-- `f` is one of the fragments that `m` is cut into by the sender `fr`.
abbrev pub IsFragmentOf : Proto → Fragmenter → Msg → Frag → Type 0
IsFragmentOf proto fr m =
    IsPart m.id (encode_msg_raw proto m) (fragment_size fr.threshold)
      (length (fragment_message proto fr m))

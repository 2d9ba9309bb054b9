-- ===== src/System/History.antt =====
-- What a run of the node never takes back: stored messages, and the entries of the vector clock.
use rfmpd.Base.{
  Bool-cases, Bytes, List, Option, [], ap, arith, false, inl, inr, leb, leb→le, map, none, refl,
  some, true, ℕ, ◌++◌, ◌+◌, ◌∙◌, ◌∷◌, ◌≡◌, ◌≤◌,
}
use rfmpd.Text.{text, text_eq}
use rfmpd.Wire.{Proto}
use rfmpd.Storage.Messages.{MessageRow, find_message, clock_of}
use rfmpd.Storage.Clock.{HasSeq, clock_of-HasSeq, clock_of-gap}
use rfmpd.Storage.Evolution.{content, Grows}
use rfmpd.Daemon.{Json}
use rfmpd.Api.{Server, get, answer, one_message}
use rfmpd.Api.Requests.{path_param}
use rfmpd.Api.Messages.{found_message, message_of, handle_message_by_id}
use rfmpd.System.{Event, run}
use rfmpd.System.Invariant.{run-Advances}

-- A row that is found is found with the same content once the table has grown.
abbrev Found : Option MessageRow → MessageRow → Type 0
Found o r = (q : MessageRow) × (o ≡ some q) × (content q ≡ content r)

find_message-Grows :
    (id : Bytes) (rs qs more : List MessageRow) (r : MessageRow)
    → map content qs ≡ map content rs ++ more
    → find_message id rs ≡ some r
    → Found (find_message id qs) r
unfolding find_message
find_message-Grows id [] qs more r g f = absurd (cc)
find_message-Grows id (x ∷ rs) [] more r g f = absurd (cc)
find_message-Grows id (x ∷ rs) (y ∷ qs) more r g f =
    let same : content y ≡ content x = cc in
    let rest : map content qs ≡ map content rs ++ more = cc in
    let ids : y.id ≡ x.id = ap (λ k. k.id) same in
    elim (Bool-cases (text_eq x.id id)) [
      | inl e ↦
          let p : x ≡ r = ground (arith, e, f) in
          let t : text_eq y.id id ≡ true = rw ids e in rw t (y, refl, same ∙ ap content p)
      | inr e ↦
          let p : find_message id rs ≡ some r = ground (arith, e, f) in
          let t : text_eq y.id id ≡ false = rw ids e in
          rw t (find_message-Grows id rs qs more r rest p)
    ]

HasSeq-Grows :
    (node : Bytes) (n : ℕ) (rs qs more : List MessageRow)
    → map content qs ≡ map content rs ++ more
    → HasSeq node n rs
    → HasSeq node n qs
HasSeq-Grows node n [] qs more g h = absurd h
HasSeq-Grows node n (x ∷ rs) [] more g h = absurd (cc)
HasSeq-Grows node n (x ∷ rs) (y ∷ qs) more g h =
    let same : content y ≡ content x = cc in
    let rest : map content qs ≡ map content rs ++ more = cc in
    elim h [
      | inl (e, s) ↦
          let t : text_eq y.from_node node ≡ true = ap (λ k. text_eq k.from_node node) same ∙ e in
          inl (t, ap (λ k. k.seq) same ∙ s)
      | inr i ↦ inr (HasSeq-Grows node n rs qs more rest i)
    ]

-- An entry of the clock never falls when the table grows.
clock_of-Grows :
    (node : Bytes) (rs qs : List MessageRow) → Grows rs qs → clock_of node rs ≤ clock_of node qs
clock_of-Grows node rs qs (more, g) =
    let k = clock_of node qs in
    elim (Bool-cases (leb (clock_of node rs) k)) [
      | inl e ↦ leb→le (clock_of node rs) k e
      | inr e ↦ absurd (
          clock_of-gap node qs (
            HasSeq-Grows node (k + 1) rs qs more g
              (clock_of-HasSeq node rs (k + 1) (omega arith) (ground arith))))
    ]

-- The same through the answer of the API.
message_of-one :
    {Float : Type 0} (id : Bytes) (s t : Server Float) (r : MessageRow)
    → Grows s.daemon.db.messages t.daemon.db.messages
    → message_of {Float = Float} id s.daemon.db ≡ answer 200 (one_message r)
    → (q : MessageRow) × (message_of {Float = Float} id t.daemon.db ≡ answer 200 (one_message q))
      × (content q ≡ content r)
message_of-one [] s t r g h = absurd (cc)
message_of-one {Float} (c ∷ cs) s t r (more, g) h =
    known (find_message (c ∷ cs) s.daemon.db.messages) refl h
  where
    known :
        (o : Option MessageRow)
        → find_message (c ∷ cs) s.daemon.db.messages ≡ o
        → found_message {Float = Float} o ≡ answer 200 (one_message r)
        → (q : MessageRow) × (message_of {Float = Float} (c ∷ cs) t.daemon.db
            ≡ answer 200 (one_message q))
          × (content q ≡ content r)
    known none e k = absurd (cc)
    known (some x) e k =
        let p : x ≡ r = cc in
        let (q, f, s) =
          find_message-Grows (c ∷ cs) _ t.daemon.db.messages more r g (e ∙ ap some p) in
        (q, rw f, s)

module _ {Float : Type 0} (json : Json) (proto : Proto) (sha256 : Bytes → Bytes) where
  -- If `GET /messages/<id>` answers with a message, then after any frames, ticks, requests and
  -- restarts, as long as the process goes on, it still answers with one, which differs at most in
  -- when it was transmitted and in the count of its rebroadcasts.
  pub run-handle_message_by_id :
      (es : List (Event Float)) (s s' : Server Float) (path : Bytes) (r : MessageRow)
      → run json proto sha256 es s ≡ some s'
      → handle_message_by_id get path s ≡ answer 200 (one_message r)
      → (q : MessageRow) × (handle_message_by_id get path s' ≡ answer 200 (one_message q))
        × (content q ≡ content r)
  unfolding handle_message_by_id
  run-handle_message_by_id es s s' path r h f =
      message_of-one (path_param path (text "/messages/")) s s' r
        (run-Advances json proto sha256 es s s' h).evolves.grows f

  -- Whatever reaches the node, as long as the process goes on, no entry of its vector clock falls: what it tells its peers to
  -- have of a node's messages, it has from then on.
  pub run-clock_of :
      (es : List (Event Float)) (s s' : Server Float) (node : Bytes)
      → run json proto sha256 es s ≡ some s'
      → clock_of node s.daemon.db.messages ≤ clock_of node s'.daemon.db.messages
  run-clock_of es s s' node h =
      clock_of-Grows node s.daemon.db.messages s'.daemon.db.messages
        (run-Advances json proto sha256 es s s' h).evolves.grows

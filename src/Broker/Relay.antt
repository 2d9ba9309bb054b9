-- ===== src/Broker/Relay.antt =====
-- What reaches a client of the broker, over a whole stream of another client.
use rfmpd.Base.{
  ==_iff, ==_refl, All, Bool, Bool-cases, Bytes, List, Option, [], append-nil, append_assoc, arith,
  concat, concat-append, false, if◌then◌else◌, inl, inr, none, refl, subst, suc, sym, true, ℕ, ◌++◌,
  ◌<◌, ◌==◌, ◌∙◌, ◌∷◌, ◌≡◌, ◌≢◌, ◌≤◌,
}
use rfmpd.Kiss.{KissFrame, decode_frames, new_kiss_protocol}
use rfmpd.Kiss.Scan.{Scan, outside, scan, scan-append}
use rfmpd.Kiss.Sequence.{encode_all, IsDataFrame, decode_frames-encode_all}
use rfmpd.Broker.{
  Broker, Moment, RfCondition, member, can_deliver, partition, split_kiss_frames, is_target,
  is_faded, targets, out_frame, write_all, broadcast, broadcast_all, read_loop,
}
use rfmpd.Broker.Clients.{IsClients}
use rfmpd.Broker.Splitting.{framed, Resumes, scan-framed-encode_all, split_kiss_frames-Resumes}

-- the bytes that one client reads
unfoldable pub received : ℕ → List (ℕ × Bytes) → Bytes
received t [] = []
received t ((id, bs) ∷ w) = (if id == t then bs else []) ++ received t w

received-append :
    (t : ℕ) (v w : List (ℕ × Bytes)) → received t (v ++ w) ≡ received t v ++ received t w
unfolding received
received-append t [] w = refl
received-append t ((id, bs) ∷ v) w =
    rw (received-append t v w) (sym (append_assoc (if id == t then bs else []) _ _))

module _ {Float : Type 0} (positive : Float → Bool) where
  -- The client `t` hears `sender`, without loss or noise.
  pub record IsClear (b : Broker Float) (sender t : ℕ) : Type 0 where
    pub numbered : IsClients b.next_id b.clients
    pub listens : member t b.clients ≡ true
    pub other : t ≢ sender
    pub reachable : can_deliver b sender t ≡ true
    pub no_loss : positive b.drop_rate ≡ false
    pub no_noise : b.rf_condition ≡ none

  module _ (m : Moment Float) (b : Broker Float) (sender t : ℕ) where
    -- the clients other than `t` get nothing for `t`
    received_other :
        (c : Option (RfCondition Float)) (frame : Bytes) (id : ℕ) (w : Bool) (ids : List ℕ)
        → (id == t) ≡ false
        → received t (write_all positive m c frame (if w then id ∷ ids else ids))
          ≡ received t (write_all positive m c frame ids)
    unfolding received write_all
    received_other c frame id true ids h = rw h
    received_other c frame id false ids h = refl

    received_absent :
        (c : Option (RfCondition Float)) (frame : Bytes) (n : ℕ) (ids : List ℕ)
        → IsClients n ids
        → n ≤ t
        → received t (write_all positive m c frame (targets positive m b sender ids)) ≡ []
    unfolding targets received write_all
    received_absent c frame n [] h k = refl
    received_absent c frame n (id ∷ ids) h k =
        let p : id < n = h.0 in
        let e : (id == t) ≡ false = ground arith in
        received_other c frame id (is_target positive m b sender id)
          (targets positive m b sender ids) e
        ∙ received_absent c frame id ids h.1 (omega arith)

    received_first :
        (c : Option (RfCondition Float)) (frame : Bytes) (ids : List ℕ)
        → IsClients t ids
        → is_target positive m b sender t ≡ true
        → received t (write_all positive m c frame (targets positive m b sender (t ∷ ids)))
          ≡ out_frame positive m c t frame
    unfolding targets received write_all
    received_first c frame ids h g =
        rw (g, ==_refl t, received_absent c frame t ids h (omega arith), append-nil)

    received_skipped :
        (c : Option (RfCondition Float)) (frame : Bytes) (id : ℕ) (ids : List ℕ)
        → (id == t) ≡ false
        → received t (write_all positive m c frame (targets positive m b sender (id ∷ ids)))
          ≡ received t (write_all positive m c frame (targets positive m b sender ids))
    unfolding targets
    received_skipped c frame id ids e =
        received_other c frame id (is_target positive m b sender id)
          (targets positive m b sender ids) e

    received-targets :
        (c : Option (RfCondition Float)) (frame : Bytes) (n : ℕ) (ids : List ℕ)
        → IsClients n ids
        → member t ids ≡ true
        → is_target positive m b sender t ≡ true
        → received t (write_all positive m c frame (targets positive m b sender ids))
          ≡ out_frame positive m c t frame
    unfolding member
    received-targets c frame n [] h k g = absurd (cc)
    received-targets c frame n (id ∷ ids) h k g = elim (Bool-cases (id == t)) [
      | inl e ↦
          let q : id ≡ t = (==_iff id t).0 e in
          rw (q) (received_first c frame ids (subst (λ x. IsClients x ids) q h.1) g)
      | inr e ↦
          let f : (t == id) ≡ false = ground arith in
          received_skipped c frame id ids e ∙ received-targets c frame id ids h.1 (ground arith) g
    ]

    received_untargeted :
        (c : Option (RfCondition Float)) (frame : Bytes) (ids : List ℕ)
        → is_target positive m b sender t ≡ false
        → received t (write_all positive m c frame (targets positive m b sender ids)) ≡ []
    unfolding targets received write_all
    received_untargeted c frame [] g = refl
    received_untargeted c frame (id ∷ ids) g = elim (Bool-cases (id == t)) [
      | inl e ↦ let q : id ≡ t = (==_iff id t).0 e in rw (q, g) (received_untargeted c frame ids g)
      | inr e ↦ received_skipped c frame id ids e ∙ received_untargeted c frame ids g
    ]

    broadcast-received :
        (frame : Bytes)
        → IsClear b sender t
        → received t (broadcast positive m b sender frame) ≡ frame
    unfolding broadcast out_frame
    broadcast-received frame k =
        let o : (t == sender) ≡ false = let q = k.other in ground arith in
        let g : is_target positive m b sender t ≡ true = rw (o, k.reachable, k.no_loss) in
        simp (k.no_noise, received-targets none frame b.next_id b.clients k.numbered k.listens g)

    broadcast-untargeted :
        (frame : Bytes)
        → can_deliver b sender t ≡ false
        → received t (broadcast positive m b sender frame) ≡ []
    unfolding broadcast
    broadcast-untargeted frame k =
        let g : is_target positive m b sender t ≡ false = ground (arith, k) in
        unless (is_faded positive m b.start_time b.rf_condition) g
      where
        unless :
            (f : Bool)
            → is_target positive m b sender t ≡ false
            → received t (
                if f
                then []
                else write_all positive m b.rf_condition frame
                    (targets positive m b sender b.clients))
              ≡ []
        unless true g = unfold received in refl
        unless false g = received_untargeted b.rf_condition frame b.clients g

  broadcast_all-received :
      (ms : ℕ → Moment Float) (b : Broker Float) (sender t : ℕ) (frames : List Bytes)
      → IsClear b sender t
      → received t (broadcast_all positive ms b sender frames) ≡ concat frames
  unfolding broadcast_all
  broadcast_all-received ms b sender t [] k = unfold received in refl
  broadcast_all-received ms b sender t (f ∷ fs) k = rw (
    received-append t (broadcast positive (ms 0) b sender f)
        (broadcast_all positive (λ i. ms (suc i)) b sender fs),
    broadcast-received (ms 0) b sender t f k,
    broadcast_all-received (λ i. ms (suc i)) b sender t fs k,
  )

  broadcast_all-untargeted :
      (ms : ℕ → Moment Float) (b : Broker Float) (sender t : ℕ) (frames : List Bytes)
      → can_deliver b sender t ≡ false
      → received t (broadcast_all positive ms b sender frames) ≡ []
  unfolding broadcast_all
  broadcast_all-untargeted ms b sender t [] k = unfold received in refl
  broadcast_all-untargeted ms b sender t (f ∷ fs) k = rw (
    received-append t (broadcast positive (ms 0) b sender f)
        (broadcast_all positive (λ i. ms (suc i)) b sender fs),
    broadcast-untargeted (ms 0) b sender t f k,
    broadcast_all-untargeted (λ i. ms (suc i)) b sender t fs k,
  )

  -- the reads of a stream, from a buffer that stands for a state of the automaton
  read_loop-received :
      (ms : ℕ → ℕ → Moment Float) (b : Broker Float) (sender t : ℕ) (buffer : Bytes) (st : Scan)
      (chunks : List Bytes)
      → IsClear b sender t
      → scan framed outside buffer ≡ ([], st)
      → received t (read_loop positive ms b sender buffer chunks)
        ≡ concat (scan framed st (concat chunks)).0
  unfolding read_loop
  read_loop-received ms b sender t buffer st [] k h = unfold received in unfold scan in refl
  read_loop-received ms b sender t buffer st (c ∷ cs) k h =
      let r = split_kiss_frames (buffer ++ c) in
      let v : scan framed outside (buffer ++ c) ≡ scan framed st c =
        scan-append framed outside buffer c ∙ rw h in
      let q : Resumes r (scan framed st c) = rw⁻¹ v (split_kiss_frames-Resumes (buffer ++ c)) in
      rw (
        received-append t (broadcast_all positive (ms 0) b sender r.0)
            (read_loop positive (λ i. ms (suc i)) b sender r.1 cs),
        broadcast_all-received (ms 0) b sender t r.0 k,
        q.0,
        read_loop-received (λ i. ms (suc i)) b sender t r.1 (scan framed st c).1 cs k q.1,
        scan-append framed st c (concat cs),
        concat-append (scan framed st c).0 (scan framed (scan framed st c).1 (concat cs)).0,
      )

  -- A client that another one can reach, over a channel without loss or noise, reads the bytes of
  -- the data frames that were encoded, however the stream is cut into reads of the broker, and its
  -- fresh decoder returns exactly these frames.
  pub read_loop-encode_all :
      (ms : ℕ → ℕ → Moment Float) (b : Broker Float) (sender t port : ℕ) (fs : List KissFrame)
      (chunks : List Bytes)
      → IsClear b sender t
      → concat chunks ≡ encode_all fs
      → All IsDataFrame fs
      → (received t (read_loop positive ms b sender [] chunks) ≡ encode_all fs)
        × ((decode_frames
              (new_kiss_protocol port)
              (received t (read_loop positive ms b sender [] chunks))).0
            ≡ fs)
  read_loop-encode_all ms b sender t port fs chunks k e h =
      let u : received t (read_loop positive ms b sender [] chunks) ≡ encode_all fs =
        read_loop-received ms b sender t [] outside chunks k (unfold scan in refl)
        ∙ rw e (scan-framed-encode_all fs) in
      (u, rw u (decode_frames-encode_all port fs h))

  read_loop-untargeted :
      (ms : ℕ → ℕ → Moment Float) (b : Broker Float) (sender t : ℕ) (buffer : Bytes)
      (chunks : List Bytes)
      → can_deliver b sender t ≡ false
      → received t (read_loop positive ms b sender buffer chunks) ≡ []
  unfolding read_loop
  read_loop-untargeted ms b sender t buffer [] k = unfold received in refl
  read_loop-untargeted ms b sender t buffer (c ∷ cs) k =
      let r = split_kiss_frames (buffer ++ c) in
      rw (
        received-append t (broadcast_all positive (ms 0) b sender r.0)
            (read_loop positive (λ i. ms (suc i)) b sender r.1 cs),
        broadcast_all-untargeted (ms 0) b sender t r.0 k,
        read_loop-untargeted (λ i. ms (suc i)) b sender t r.1 cs k,
      )

  -- Across a partition not a byte is relayed, in either direction, whatever is sent and whatever
  -- the random numbers and the noise are.
  pub read_loop-partition :
      (ms : ℕ → ℕ → Moment Float) (b : Broker Float) (group_a group_b : List ℕ) (x y : ℕ)
      (buffer : Bytes) (chunks : List Bytes)
      → member x group_a ≡ true
      → member y group_b ≡ true
      → (received y (read_loop positive ms (partition group_a group_b b) x buffer chunks) ≡ [])
        × (received x (read_loop positive ms (partition group_a group_b b) y buffer chunks) ≡ [])
  read_loop-partition ms b group_a group_b x y buffer chunks h k = (
    read_loop-untargeted ms (partition group_a group_b b) x y buffer chunks
        (unfold partition in unfold can_deliver in rw (h, k)),
    read_loop-untargeted ms (partition group_a group_b b) y x buffer chunks
        (unfold partition in unfold can_deliver in ground (arith, h, k)),
  )

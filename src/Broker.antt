-- ===== src/Broker.antt =====
-- cmd/rf-sim/broker.go: the simulated radio channel. A client is the number that it was given when
-- it connected. Floating-point rates are a parameter, and so are the random numbers and the clock,
-- which come with each frame as a `Moment`; logging and the delay of the baud rate are left out.
pub mod Splitting
pub mod Relay
pub mod Corruption
pub mod Clients
use Prim.Native.Nat.{bit_xor}
use rfmpd.Base.{
  Bool, Bytes, List, Option, [], false, if◌then◌else◌, leb, length, ltb, none, not, some, suc, true,
  zero, ℕ, ◌%◌, ◌&&◌, ◌++◌, ◌+◌, ◌-◌, ◌==◌, ◌^◌, ◌||◌, ◌∷◌,
}
use rfmpd.Base.Int.{ℤ, pos, negsuc}
use rfmpd.Kiss.{fend, split_at_fend}

module _ (Float : Type 0) where
  pub record RfCondition : Type 0 where
    pub drop_rate : Float
    pub corrupt_rate : Float
    pub burst_fade : Bool
    pub fade_cycle_ms : ℤ
    pub fade_down_ms : ℤ

  -- `clients` lists the keys of the map, the last one first. A partition of `none` is a nil map.
  pub record Broker : Type 0 where
    pub clients : List ℕ
    pub next_id : ℕ
    pub partition_a : Option (List ℕ)
    pub partition_b : Option (List ℕ)
    pub drop_rate : Float
    pub baud_rate : ℤ
    pub rf_condition : Option (RfCondition)
    pub start_time : ℕ

  -- What `math/rand` and `time` give while one frame is relayed: the time in milliseconds, whether
  -- the draw for a client is below a rate, and the draws of `corruptFrame`.
  pub record Moment : Type 0 where
    pub now : ℕ
    pub drops : ℕ → Float → Bool
    pub corrupts : ℕ → Float → Bool
    pub flips : ℕ → List (ℕ × ℕ)

-- `NewBroker`, at a time in milliseconds; the argument is the floating-point 0.
unfoldable pub new_broker : {Float : Type 0} → Float → ℕ → Broker Float
new_broker nought now = record {
  clients = [];
  next_id = 0;
  partition_a = none;
  partition_b = none;
  drop_rate = nought;
  baud_rate = pos 0;
  rf_condition = none;
  start_time = now;
}

unfoldable pub member : ℕ → List ℕ → Bool
member id [] = false
member id (c ∷ cs) = id == c || member id cs

-- a lookup in a map that may be nil
abbrev pub in_group : ℕ → Option (List ℕ) → Bool
in_group id none = false
in_group id (some ids) = member id ids

unfoldable pub remove_id : ℕ → List ℕ → List ℕ
remove_id id [] = []
remove_id id (c ∷ cs) = if id == c then cs else c ∷ remove_id id cs

module _ {Float : Type 0} where
  -- `Reset`; the baud rate stays.
  unfoldable pub reset_broker : Float → ℕ → Broker Float → Broker Float
  reset_broker nought now b = record b {
    clients = [];
    next_id = 0;
    partition_a = none;
    partition_b = none;
    drop_rate = nought;
    rf_condition = none;
    start_time = now;
  }

  -- `Partition`
  unfoldable pub partition : List ℕ → List ℕ → Broker Float → Broker Float
  partition group_a group_b b = record b { partition_a = some group_a; partition_b = some group_b }

  -- `Heal`
  unfoldable pub heal : Broker Float → Broker Float
  heal b = record b { partition_a = none; partition_b = none }

  unfoldable pub set_drop_rate : Float → Broker Float → Broker Float
  set_drop_rate rate b = record b { drop_rate = rate }

  unfoldable pub set_baud_rate : ℤ → Broker Float → Broker Float
  set_baud_rate baud b = record b { baud_rate = baud }

  -- `acceptLoop`, for one connection
  unfoldable pub accept : Broker Float → Broker Float
  accept b = record b { clients = b.next_id ∷ b.clients; next_id = suc b.next_id }

  -- what `readLoop` does when its connection fails
  unfoldable pub disconnect : ℕ → Broker Float → Broker Float
  disconnect id b = record b { clients = remove_id id b.clients }

  -- `canDeliver`
  unfoldable pub can_deliver : Broker Float → ℕ → ℕ → Bool
  unfolding member
  can_deliver b from to = elim b.partition_a [
    | none ↦ true
    | some group ↦ not (
        (member from group && in_group to b.partition_b)
        || (in_group from b.partition_b && member to group))
  ]

-- One round of the loop of `splitKISSFrames` takes at least two bytes.
unfoldable pub split_loop : ℕ → Bytes → List Bytes × Bytes
unfolding split_at_fend
split_loop zero bytes = ([], bytes)
split_loop (suc fuel) bytes = elim (split_at_fend bytes) [
  | none ↦ ([], bytes)
  | some (garbage, rest) ↦ elim (split_at_fend rest) [
    | none ↦ ([], fend ∷ rest)
    | some (body, rest') ↦
        let r = split_loop fuel rest' in ((fend ∷ (body ++ fend ∷ [])) ∷ r.0, r.1)
  ]
]

-- `splitKISSFrames`: the frames, and what stays in the buffer
unfoldable pub split_kiss_frames : Bytes → List Bytes × Bytes
unfolding split_loop
split_kiss_frames bytes = split_loop (suc (length bytes)) bytes

-- Byte `i` with one bit flipped.
unfoldable pub flip_at : ℕ → ℕ → Bytes → Bytes
flip_at i bit [] = []
flip_at zero bit (c ∷ cs) = bit_xor c (2 ^ bit) ∷ cs
flip_at (suc i) bit (c ∷ cs) = c ∷ flip_at i bit cs

-- A draw of `rand.Intn(n)` is a number modulo `n`.
unfoldable pub flip_all : List (ℕ × ℕ) → ℕ → Bytes → Bytes
unfolding flip_at
flip_all [] inner frame = frame
flip_all ((i, bit) ∷ ds) inner frame = flip_all ds inner (flip_at (suc (i % inner)) (bit % 8) frame)

-- `corruptFrame`, on its draws
unfoldable pub corrupt_frame : List (ℕ × ℕ) → Bytes → Bytes
unfolding flip_all
corrupt_frame draws frame =
    if leb (length frame) 2 then frame else flip_all draws (length frame - 2) frame

-- `BurstFade`: the time in the cycle is below the time that the signal is down.
abbrev pub below_ℤ : ℕ → ℤ → Bool
below_ℤ n (pos m) = ltb n m
below_ℤ n (negsuc m) = false

abbrev pub in_fade : ℤ → ℤ → ℕ → Bool
in_fade (pos zero) down elapsed = false
in_fade (pos (suc n)) down elapsed = below_ℤ (elapsed % suc n) down
in_fade (negsuc n) down elapsed = false

module _ {Float : Type 0} (positive : Float → Bool) where
  -- `SetRFCondition`; the first argument is the floating-point 0.
  unfoldable pub set_rf_condition : Float → Option (RfCondition Float) → Broker Float → Broker Float
  set_rf_condition nought none b = record b { rf_condition = none; drop_rate = nought }
  set_rf_condition nought (some c) b = record b {
    rf_condition = some c;
    drop_rate = if positive c.drop_rate then c.drop_rate else b.drop_rate;
  }

  abbrev pub is_target : Moment Float → Broker Float → ℕ → ℕ → Bool
  is_target m b sender id =
      not (id == sender)
      && can_deliver b sender id
      && not (positive b.drop_rate && m.drops id b.drop_rate)

  unfoldable pub targets : Moment Float → Broker Float → ℕ → List ℕ → List ℕ
  targets m b sender [] = []
  targets m b sender (id ∷ ids) =
      let rest = targets m b sender ids in if is_target m b sender id then id ∷ rest else rest

  abbrev pub is_faded : Moment Float → ℕ → Option (RfCondition Float) → Bool
  is_faded m start none = false
  is_faded m start (some c) = c.burst_fade && in_fade c.fade_cycle_ms c.fade_down_ms (m.now - start)

  -- the frame as it goes to one client
  unfoldable pub out_frame : Moment Float → Option (RfCondition Float) → ℕ → Bytes → Bytes
  unfolding corrupt_frame
  out_frame m none id frame = frame
  out_frame m (some c) id frame =
      if positive c.corrupt_rate && m.corrupts id c.corrupt_rate
      then corrupt_frame (m.flips id) frame
      else frame

  unfoldable pub write_all :
      Moment Float → Option (RfCondition Float) → Bytes → List ℕ → List (ℕ × Bytes)
  write_all m c frame [] = []
  write_all m c frame (id ∷ ids) = (id, out_frame m c id frame) ∷ write_all m c frame ids

  -- `broadcast`: what is written to whom
  unfoldable pub broadcast : Moment Float → Broker Float → ℕ → Bytes → List (ℕ × Bytes)
  broadcast m b sender frame =
      let ts = targets m b sender b.clients in
      if is_faded m b.start_time b.rf_condition then [] else write_all m b.rf_condition frame ts

  -- The frames of one read, in order; `ms` gives the moment of each.
  unfoldable pub broadcast_all :
      (ℕ → Moment Float) → Broker Float → ℕ → List Bytes → List (ℕ × Bytes)
  broadcast_all ms b sender [] = []
  broadcast_all ms b sender (f ∷ fs) =
      broadcast (ms 0) b sender f ++ broadcast_all (λ i. ms (suc i)) b sender fs

  -- The reads of `readLoop`: `buffer` is `frameBuf`.
  unfoldable pub read_loop :
      (ℕ → ℕ → Moment Float) → Broker Float → ℕ → Bytes → List Bytes → List (ℕ × Bytes)
  unfolding split_kiss_frames
  read_loop ms b sender buffer [] = []
  read_loop ms b sender buffer (chunk ∷ chunks) =
      let r = split_kiss_frames (buffer ++ chunk) in
      broadcast_all (ms 0) b sender r.0 ++ read_loop (λ i. ms (suc i)) b sender r.1 chunks

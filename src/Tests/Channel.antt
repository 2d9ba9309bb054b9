-- ===== src/Tests/Channel.antt =====
-- The broker of the simulator, with natural numbers for its rates.
use rfmpd.Base.{
  Bool, List, [], append-nil, arith, drop, ltb, refl, take, take-append-drop, true, ℕ, ◌∷◌, ◌≡◌,
}
use rfmpd.Kiss.{KissFrame, encode, escape, command_byte, decode_frames, new_kiss_protocol}
use rfmpd.Kiss.Sequence.{encode_all}
use rfmpd.Broker.{Broker, Moment, new_broker, accept, can_deliver, member, partition, read_loop}
use rfmpd.Broker.Relay.{IsClear, received, read_loop-encode_all, read_loop-partition}

abbrev positive : ℕ → Bool
positive n = ltb 0 n

abbrev moments : ℕ → ℕ → Moment ℕ
moments i j = record {
  now = 1000;
  drops = λ id rate. true;
  corrupts = λ id rate. true;
  flips = λ id. (0, 3) ∷ [];
}

abbrev broker : Broker ℕ
broker = new_broker 0 0

abbrev three_clients : Broker ℕ
three_clients = accept (accept (accept broker))

abbrev frames : List KissFrame
frames =
    record { port = 12; command = 0; payload = 0xC0 ∷ 5 ∷ [] }
    ∷ record { port = 0; command = 0; payload = 7 ∷ [] }
    ∷ []

three_clients-IsClear : IsClear positive three_clients 0 2
unfolding new_broker accept member can_deliver
three_clients-IsClear = record {
  numbered = (omega arith, (omega arith, (omega arith, tt)));
  listens = refl;
  other = λ e. omega (arith, e);
  reachable = refl;
  no_loss = refl;
  no_noise = refl;
}

-- the stream is cut inside its first frame
read_loop-encode_all_example :
    (received 2 (
        read_loop positive moments three_clients 0 []
          (take 3 (encode_all frames) ∷ drop 3 (encode_all frames) ∷ []))
      ≡ encode_all frames)
    × ((decode_frames (new_kiss_protocol 0) (
          received 2 (
            read_loop positive moments three_clients 0 []
              (take 3 (encode_all frames) ∷ drop 3 (encode_all frames) ∷ [])))).0
        ≡ frames)
unfolding encode escape command_byte
read_loop-encode_all_example =
    read_loop-encode_all positive moments three_clients 0 2 0 frames
      (take 3 (encode_all frames) ∷ drop 3 (encode_all frames) ∷ []) three_clients-IsClear
      (rw append-nil (take-append-drop 3 (encode_all frames)))
      ((omega arith, refl), ((omega arith, refl), tt))

read_loop-partition_example :
    (received 2 (
        read_loop positive moments
          (partition (0 ∷ 1 ∷ []) (2 ∷ []) three_clients)
          0
          []
          (encode_all frames ∷ []))
      ≡ [])
    × (received 0 (
          read_loop positive moments
            (partition (0 ∷ 1 ∷ []) (2 ∷ []) three_clients)
            2
            []
            (encode_all frames ∷ []))
        ≡ [])
unfolding member
read_loop-partition_example =
    read_loop-partition positive moments three_clients (0 ∷ 1 ∷ []) (2 ∷ []) 0 2 []
      (encode_all frames ∷ []) refl refl

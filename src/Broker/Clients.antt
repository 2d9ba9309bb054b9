-- ===== src/Broker/Clients.antt =====
-- The clients of the broker over a run, and a read loop that ends late.
use rfmpd.Base.{Bool-cases, List, [], arith, inl, inr, refl, ℕ, ◌<◌, ◌==◌, ◌∷◌, ◌≡◌, ◌≤◌}
use rfmpd.Broker.{
  Broker, remove_id, reset_broker, partition, heal, set_drop_rate, accept, disconnect,
}

-- Each client is below the one before it, and the first below `n`.
abbrev pub IsClients : ℕ → List ℕ → Type 0
IsClients n [] = Unit
IsClients n (c ∷ cs) = (c < n) × IsClients c cs

module _ (Float : Type 0) where
  pub data Event : Type 0 where
    connects : Event
    fails : ℕ → Event
    resets : Float → ℕ → Event
    partitions : List ℕ → List ℕ → Event
    heals : Event
    drop_rate_is : Float → Event

unfoldable pub step : {Float : Type 0} → Broker Float → Event Float → Broker Float
unfolding accept disconnect reset_broker partition heal set_drop_rate
step b connects = accept b
step b (fails id) = disconnect id b
step b (resets nought now) = reset_broker nought now b
step b (partitions group_a group_b) = partition group_a group_b b
step b heals = heal b
step b (drop_rate_is rate) = set_drop_rate rate b

unfoldable pub run : {Float : Type 0} → Broker Float → List (Event Float) → Broker Float
run b [] = b
run b (e ∷ es) = run (step b e) es

IsClients-mono : (m n : ℕ) (cs : List ℕ) → m ≤ n → IsClients m cs → IsClients n cs
IsClients-mono m n [] h k = tt
IsClients-mono m n (c ∷ cs) h k = let p : c < m = k.0 in (omega arith, k.1)

remove_id-IsClients : (id n : ℕ) (cs : List ℕ) → IsClients n cs → IsClients n (remove_id id cs)
unfolding remove_id
remove_id-IsClients id n [] h = tt
remove_id-IsClients id n (c ∷ cs) h =
    let p : c < n = h.0 in
    elim (Bool-cases (id == c)) [
      | inl e ↦ rw e (IsClients-mono c n cs (omega arith) h.1)
      | inr e ↦ rw e (h.0, remove_id-IsClients id c cs h.1)
    ]

module _ {Float : Type 0} where
  step-IsClients :
      (b : Broker Float) (e : Event Float)
      → IsClients b.next_id b.clients
      → IsClients (step b e).next_id (step b e).clients
  unfolding step accept disconnect reset_broker partition heal set_drop_rate
  step-IsClients b connects h = (omega arith, h)
  step-IsClients b (fails id) h = remove_id-IsClients id b.next_id b.clients h
  step-IsClients b (resets nought now) h = tt
  step-IsClients b (partitions group_a group_b) h = h
  step-IsClients b heals h = h
  step-IsClients b (drop_rate_is rate) h = h

  -- Over any run of connections, failures, resets, partitions and changes of the drop rate, the
  -- clients of the broker are distinct, and below the next number that it gives out.
  run-IsClients :
      (es : List (Event Float)) (b : Broker Float)
      → IsClients b.next_id b.clients
      → IsClients (run b es).next_id (run b es).clients
  unfolding run
  run-IsClients [] b h = h
  run-IsClients (e ∷ es) b h = run-IsClients es (step b e) (step-IsClients b e h)

  -- The first client after a reset takes the number 0 again: when the read loop of the client that
  -- had it before the reset ends after that, it removes the new client, which is still connected.
  late_failure :
      (b : Broker Float) (nought : Float) (now : ℕ)
      → (run b (resets nought now ∷ connects ∷ [])).clients ≡ 0 ∷ []
        × ((run b (resets nought now ∷ connects ∷ fails 0 ∷ [])).clients ≡ [])
  unfolding run step reset_broker accept disconnect remove_id
  late_failure b nought now = (refl, refl)

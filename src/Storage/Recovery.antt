-- ===== src/Storage/Recovery.antt =====
-- `CleanupTransmissionQueue`: what waits is kept, and what is stuck is tried again.
use rfmpd.Base.{
  All, Bool-cases, List, [], arith, false, if◌then◌else◌, inl, inr, le→leb, lt→ltb, none, refl,
  subst, sym, true, ℕ, ◌+◌, ◌<◌, ◌∙◌, ◌∷◌, ◌≡◌, ◌≢◌,
}
use rfmpd.Storage.{Database, get_next_transmission, cleanup_transmission_queue}
use rfmpd.Storage.Queue.{QueueItem, pending, transmitting, is_due, is_garbage, revive, cleanup}
use rfmpd.Storage.Retry.{Among, IsNext, get_next_transmission-IsNext}

cleanup-Among :
    (now : ℕ) (it : QueueItem) (items : List QueueItem)
    → Among it items
    → is_garbage now it ≡ false
    → Among (revive now it) (cleanup now items)
unfolding cleanup
cleanup-Among now it [] m g = absurd m
cleanup-Among now it (item ∷ items) m g = elim m [
  | inl e ↦ head e
  | inr m' ↦ behind (cleanup-Among now it items m' g)
]
  where
    head :
        it ≡ item
        → Among
            (revive now it)
            (if is_garbage now item then cleanup now items else revive now item ∷ cleanup now items)
    head e = rw (← e, g) (inl refl)

    behind :
        Among (revive now it) (cleanup now items)
        → Among
            (revive now it)
            (if is_garbage now item then cleanup now items else revive now item ∷ cleanup now items)
    behind m' = elim (Bool-cases (is_garbage now item)) [ inl e ↦ rw e m' | inr e ↦ rw e (inr m') ]

All-Among :
    (now : ℕ) (it : QueueItem) (items : List QueueItem)
    → Among it items
    → All (λ item. is_due now item ≡ false) items
    → is_due now it ≡ false
All-Among now it [] m h = absurd m
All-Among now it (item ∷ items) m h = elim m [
  | inl e ↦ rw e h.0
  | inr m' ↦ All-Among now it items m' h.1
]

-- The cleanup loses no item that waits for its transmission.
cleanup-pending :
    (now : ℕ) (db : Database) (it : QueueItem)
    → Among it db.queue
    → it.status ≡ pending
    → Among it (cleanup_transmission_queue now db).queue
unfolding cleanup_transmission_queue
cleanup-pending now db it m s =
    let r : revive now it ≡ it = rw s in
    subst (λ x. Among x (cleanup now db.queue)) r (cleanup-Among now it db.queue m (rw s))

-- An item that is under transmission for more than a minute past its time, as a crash leaves it,
-- does not stay so: behind the cleanup there is a due item to hand out.
pub cleanup-revives :
    (now : ℕ) (db : Database) (it : QueueItem)
    → Among it db.queue
    → it.status ≡ transmitting
    → it.scheduled_at + 60 < now
    → (get_next_transmission now (cleanup_transmission_queue now db)).1 ≢ none
unfolding cleanup_transmission_queue
cleanup-revives now db it m s h e =
    let db' = cleanup_transmission_queue now db in
    let due : is_due now (revive now it) ≡ true =
      rw (s, lt→ltb (it.scheduled_at + 60) now h) (le→leb it.scheduled_at now (omega arith)) in
    let idle : is_due now (revive now it) ≡ false =
      All-Among now (revive now it) (cleanup now db.queue) (cleanup-Among now it db.queue m (rw s))
        (subst (IsNext now db'.queue) e (get_next_transmission-IsNext now db')) in
    absurd (cc (sym due ∙ idle))

-- ===== src/Storage/Retry.antt =====
-- The transmission queue: which item is next, that a taken item is not taken twice, and how often
-- a failing item is tried.
use rfmpd.Base.{
  All, All-mono, Bool-cases, List, Option, [], arith, false, if◌then◌else◌, inl, inr, leb, leb→le,
  length, none, refl, some, subst, sym, true, ℕ, ◌+◌, ◌==◌, ◌∙◌, ◌∷◌, ◌≡◌, ◌≢◌, ◌≤◌, ◌⊎◌,
}
use mathlib.Core.Option
use rfmpd.Storage.{Database, get_next_transmission, mark_transmission_failed}
use rfmpd.Storage.Queue.{
  Status, QueueItem, pending, transmitting, failed, is_due, earlier, earliest, set_status,
  attempts_of, give_up, retry_later, update_item, fail_item,
}

abbrev pub Among : QueueItem → List QueueItem → Type 0
Among it [] = ⊥
Among it (item ∷ items) = (it ≡ item) ⊎ Among it items

-- What `earliest` may answer: nothing is due, or an item that is, and that no due item precedes.
abbrev pub IsNext : ℕ → List QueueItem → Option QueueItem → Type 0
IsNext now items none = All (λ item. is_due now item ≡ false) items
IsNext now items (some it) =
    Among it items
    × (is_due now it ≡ true)
    × All (λ item. is_due now item ≡ true → it.scheduled_at ≤ item.scheduled_at) items

earliest-IsNext : (now : ℕ) (items : List QueueItem) → IsNext now items (earliest now items)
unfolding earliest
earliest-IsNext now [] = tt
earliest-IsNext now (item ∷ items) = elim (Bool-cases (is_due now item)) [
  | inl e ↦ rw e (due e (earliest now items) (earliest-IsNext now items))
  | inr e ↦ rw e (not_due e (earliest now items) (earliest-IsNext now items))
]
  where
    due :
        is_due now item ≡ true
        → (o : Option QueueItem) → IsNext now items o
        → IsNext now (item ∷ items) (some (earlier item o))
    due e none v =
        (inl refl, e, (λ _. omega arith, All-mono items (λ q f g. absurd (cc (sym f ∙ g))) v))
    due e (some other) v = elim (Bool-cases (leb item.scheduled_at other.scheduled_at)) [
      | inl l ↦
          let q : item ≡ earlier item (some other) = rw l in
          subst (λ x. IsNext now (item ∷ items) (some x)) q
            (
              inl refl,
              e,
              (λ _. omega arith, All-mono items (λ a f g. omega (arith, f g, leb→le _ _ l)) v.2),
            )
      | inr l ↦
          let q : other ≡ earlier item (some other) = rw l in
          subst (λ x. IsNext now (item ∷ items) (some x)) q (inr v.0, v.1, (λ _. ground arith, v.2))
    ]

    not_due :
        is_due now item ≡ false
        → (o : Option QueueItem) → IsNext now items o
        → IsNext now (item ∷ items) o
    not_due e none v = (e, v)
    not_due e (some it) v = (inr v.0, v.1, (λ g. absurd (cc (sym e ∙ g)), v.2))

-- `GetNextTransmission` hands out a pending item whose time has come, and of these one with the
-- earliest time; it hands out nothing only if there is no such item.
pub get_next_transmission-IsNext :
    (now : ℕ) (db : Database) → IsNext now db.queue (get_next_transmission now db).1
unfolding get_next_transmission
get_next_transmission-IsNext now db =
    next (earliest now db.queue) refl (earliest-IsNext now db.queue)
  where
    next :
        (o : Option QueueItem)
        → earliest now db.queue ≡ o
        → IsNext now db.queue o
        → IsNext now db.queue (get_next_transmission now db).1
    next none e v = rw (e, get_next_transmission) v
    next (some it) e v = rw (e, get_next_transmission) v

-- An item under transmission is not due.
set_status-not_due :
    (now id : ℕ) (it : QueueItem) (items : List QueueItem)
    → Among it (set_status id transmitting items)
    → is_due now it ≡ true
    → it.id ≢ id
unfolding set_status
set_status-not_due now id it [] m d = absurd m
set_status-not_due now id it (item ∷ items) m d = elim m [
  | inl e ↦ λ q. rewritten e q
  | inr m' ↦ set_status-not_due now id it items m' d
]
  where
    rewritten :
        it ≡ (if item.id == id then record item { status = transmitting } else item) → it.id ≢ id
    rewritten e = ground arith

queue-get_next_transmission :
    (now : ℕ) (db : Database) (it : QueueItem)
    → (get_next_transmission now db).1 ≡ some it
    → (get_next_transmission now db).0.queue ≡ set_status it.id transmitting db.queue
unfolding get_next_transmission
queue-get_next_transmission now db it e = ground arith

-- What the queue holds of an item that was handed out is under transmission, so a second call
-- hands out another one.
get_next_transmission_again :
    (now later : ℕ) (db : Database) (it again : QueueItem)
    → (get_next_transmission now db).1 ≡ some it
    → (get_next_transmission later (get_next_transmission now db).0).1 ≡ some again
    → again.id ≢ it.id
get_next_transmission_again now later db it again e f =
    let v : IsNext later (get_next_transmission now db).0.queue (some again) =
      subst (IsNext later (get_next_transmission now db).0.queue) f
        (get_next_transmission-IsNext later (get_next_transmission now db).0) in
    set_status-not_due later it.id again db.queue
      (subst (Among again) (queue-get_next_transmission now db it e) v.0) v.1

unfoldable pub find_item : ℕ → List QueueItem → Option QueueItem
find_item id [] = none
find_item id (item ∷ items) = if item.id == id then some item else find_item id items

find-update_item :
    (f : QueueItem → QueueItem) (id : ℕ) (items : List QueueItem)
    → ((item : QueueItem) → (f item).id ≡ item.id)
    → find_item id (update_item f id items) ≡ Option.map f (find_item id items)
unfolding find_item update_item
find-update_item f id [] k = refl
find-update_item f id (item ∷ items) k = elim (Bool-cases (item.id == id)) [
  | inl e ↦ rw (e, k item, e)
  | inr e ↦ rw (e, e) (find-update_item f id items k)
]

attempts-find_item :
    (id : ℕ) (items : List QueueItem) (it : QueueItem)
    → find_item id items ≡ some it
    → attempts_of id items ≡ it.attempts
unfolding find_item attempts_of
attempts-find_item id [] it e = cc
attempts-find_item id (item ∷ items) it e = ground (arith, attempts-find_item id items it)

abbrev pub after_failure : ℕ → ℕ → QueueItem → QueueItem
after_failure now max_retries it =
    if leb max_retries (it.attempts + 1) then give_up it else retry_later now it

find-fail_item :
    (now id max_retries : ℕ) (items : List QueueItem) (it : QueueItem)
    → find_item id items ≡ some it
    → find_item id (fail_item now id max_retries items) ≡ some (after_failure now max_retries it)
unfolding fail_item
find-fail_item now id max_retries items it e =
    elim (Bool-cases (leb max_retries (it.attempts + 1))) [
      | inl l ↦
          rw (attempts-find_item id items it e, l, find-update_item give_up id items (λ _. refl), e)
      | inr l ↦ rw (
        attempts-find_item id items it e,
        l,
        find-update_item (retry_later now) id items (λ _. refl),
        e,
      )
    ]

set_status-update_item :
    (id : ℕ) (st : Status) (items : List QueueItem)
    → set_status id st items ≡ update_item (λ item. record item { status = st }) id items
unfolding set_status update_item
set_status-update_item id st [] = refl
set_status-update_item id st (item ∷ items) = rw (set_status-update_item id st items)

-- An attempt that fails: the item is under transmission, and the write fails.
pub fail_once : ℕ → ℕ → ℕ → Database → Database
fail_once now id max_retries db =
    mark_transmission_failed now id max_retries
      (record db { queue = set_status id transmitting db.queue })

-- Failing attempts at each of the times in turn.
pub fail_all : List ℕ → ℕ → ℕ → Database → Database
fail_all [] id max_retries db = db
fail_all (now ∷ later) id max_retries db =
    fail_all later id max_retries (fail_once now id max_retries db)

find-fail_once :
    (now id max_retries : ℕ) (db : Database) (it : QueueItem)
    → find_item id db.queue ≡ some it
    → find_item id (fail_once now id max_retries db).queue
      ≡ some (after_failure now max_retries (record it { status = transmitting }))
unfolding fail_once mark_transmission_failed
find-fail_once now id max_retries db it e =
    find-fail_item now id max_retries (set_status id transmitting db.queue)
      (record it { status = transmitting })
      (rw (
        set_status-update_item id transmitting db.queue,
        find-update_item (λ item. record item { status = transmitting }) id db.queue (λ _. refl),
        e,
      ))

-- After one or more failing attempts to transmit an item, its attempts have grown by their
-- number, and it is given up exactly if they have reached the limit, and waits for another try
-- if not.
pub fail_all_lem :
    (now : ℕ) (later : List ℕ) (id max_retries : ℕ) (db : Database) (it : QueueItem)
    → find_item id db.queue ≡ some it
    → (it' : QueueItem) × (find_item id (fail_all (now ∷ later) id max_retries db).queue ≡ some it')
      × (it'.attempts ≡ it.attempts + length (now ∷ later))
      × (it'.status ≡ (if leb max_retries it'.attempts then failed else pending))
unfolding fail_all
fail_all_lem now [] id max_retries db it e = (
  after_failure now max_retries (record it { status = transmitting }),
  find-fail_once now id max_retries db it e,
  ground arith,
  ground arith,
)
fail_all_lem now (next ∷ later) id max_retries db it e =
    let (it', f, a, s) =
      fail_all_lem next later id max_retries (fail_once now id max_retries db) _
        (find-fail_once now id max_retries db it e) in
    (it', f, ground arith, s)

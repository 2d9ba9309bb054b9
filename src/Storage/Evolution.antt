-- ===== src/Storage/Evolution.antt =====
-- What every statement of the database keeps: the constraints of its tables, and the content of
-- the messages that are stored.
use rfmpd.Base.{
  All, All-append, Bool-cases, Bytes, List, Option, [], arith, false, inl, inr, ltb, map, none,
  refl, subst, suc, sym, ℕ, ◌++◌, ◌+◌, ◌<◌, ◌==◌, ◌∷◌, ◌≡◌,
}
use rfmpd.Text.{text_eq}
use rfmpd.Storage.Messages.{MessageRow, set_transmitted, add_rebroadcast}
use rfmpd.Storage.Queue.{QueueItem, Status, set_status, update_item, cleanup, revive, is_garbage}
use rfmpd.Storage.Seen.{SeenRow, is_key, is_seen, drop_key, drop_old_seen, replace_seen}
use rfmpd.Storage.Rows.{Differ, IsTable}

-- A row but for the two columns that later statements change.
abbrev pub content : MessageRow → MessageRow
content r = record r { transmitted_at = none; rebroadcast_count = 0 }

-- The rows of the first list lead the second, with the same content.
abbrev pub Grows : List MessageRow → List MessageRow → Type 0
Grows rs qs = (more : List MessageRow) × (map content qs ≡ map content rs ++ more)

-- The IDs of the queue ascend, and all are below the counter.
abbrev pub IsQueue : ℕ → List QueueItem → Type 0
IsQueue next [] = Unit
IsQueue next (it ∷ its) = (it.id < next) × All (λ q. it.id < q.id) its × IsQueue next its

-- No two rows of the seen cache have the same key.
abbrev pub IsCache : List SeenRow → Type 0
IsCache [] = Unit
IsCache (r ∷ rs) = (is_seen r.message_id r.fragment_idx rs ≡ false) × IsCache rs

All-content :
    (r : MessageRow) (rs : List MessageRow) → All (Differ r) (map content rs) → All (Differ r) rs
All-content r [] v = tt
All-content r (q ∷ rs) v = (v.0, All-content r rs v.1)

content-All :
    (r : MessageRow) (rs : List MessageRow) → All (Differ r) rs → All (Differ r) (map content rs)
content-All r [] v = tt
content-All r (q ∷ rs) v = (v.0, content-All r rs v.1)

IsTable-content : (rs : List MessageRow) → IsTable (map content rs) → IsTable rs
IsTable-content [] v = tt
IsTable-content (r ∷ rs) v = (All-content r rs v.0, IsTable-content rs v.1)

content-IsTable : (rs : List MessageRow) → IsTable rs → IsTable (map content rs)
content-IsTable [] v = tt
content-IsTable (r ∷ rs) v = (content-All r rs v.0, content-IsTable rs v.1)

-- The constraints of the message table read nothing but the content.
pub IsTable-same_content :
    (rs qs : List MessageRow) → map content qs ≡ map content rs → IsTable rs → IsTable qs
IsTable-same_content rs qs e v = IsTable-content qs (subst IsTable (sym e) (content-IsTable rs v))

pub set_transmitted-content :
    (now : ℕ) (id : Bytes) (rs : List MessageRow)
    → map content (set_transmitted now id rs) ≡ map content rs
unfolding set_transmitted
set_transmitted-content now id [] = refl
set_transmitted-content now id (r ∷ rs) = elim (Bool-cases (text_eq r.id id)) [
  | inl e ↦ rw (e, set_transmitted-content now id rs)
  | inr e ↦ rw (e, set_transmitted-content now id rs)
]

pub add_rebroadcast-content :
    (id : Bytes) (rs : List MessageRow) → map content (add_rebroadcast id rs) ≡ map content rs
unfolding add_rebroadcast
add_rebroadcast-content id [] = refl
add_rebroadcast-content id (r ∷ rs) = elim (Bool-cases (text_eq r.id id)) [
  | inl e ↦ rw (e, add_rebroadcast-content id rs)
  | inr e ↦ rw (e, add_rebroadcast-content id rs)
]

All-set_status :
    (k id : ℕ) (st : Status) (its : List QueueItem)
    → All (λ q. k < q.id) its
    → All (λ q. k < q.id) (set_status id st its)
unfolding set_status
All-set_status k id st [] v = tt
All-set_status k id st (it ∷ its) v = elim (Bool-cases (it.id == id)) [
  | inl e ↦ rw e (v.0, All-set_status k id st its v.1)
  | inr e ↦ rw e (v.0, All-set_status k id st its v.1)
]

pub set_status-IsQueue :
    (next id : ℕ) (st : Status) (its : List QueueItem)
    → IsQueue next its
    → IsQueue next (set_status id st its)
unfolding set_status
set_status-IsQueue next id st [] v = tt
set_status-IsQueue next id st (it ∷ its) v =
    let rest = set_status-IsQueue next id st its v.2 in
    let above = All-set_status it.id id st its v.1 in
    elim (Bool-cases (it.id == id)) [
      | inl e ↦ rw e (v.0, above, rest)
      | inr e ↦ rw e (v.0, above, rest)
    ]

All-update_item :
    (f : QueueItem → QueueItem)
    → ((it : QueueItem) → (f it).id ≡ it.id)
    → (k id : ℕ) (its : List QueueItem) → All (λ q. k < q.id) its
    → All (λ q. k < q.id) (update_item f id its)
unfolding update_item
All-update_item f h k id [] v = tt
All-update_item f h k id (it ∷ its) v = elim (Bool-cases (it.id == id)) [
  | inl e ↦ rw e (rw (h it) v.0, All-update_item f h k id its v.1)
  | inr e ↦ rw e (v.0, All-update_item f h k id its v.1)
]

pub update_item-IsQueue :
    (f : QueueItem → QueueItem)
    → ((it : QueueItem) → (f it).id ≡ it.id)
    → (next id : ℕ) (its : List QueueItem) → IsQueue next its
    → IsQueue next (update_item f id its)
unfolding update_item
update_item-IsQueue f h next id [] v = tt
update_item-IsQueue f h next id (it ∷ its) v =
    let rest = update_item-IsQueue f h next id its v.2 in
    let above = All-update_item f h it.id id its v.1 in
    elim (Bool-cases (it.id == id)) [
      | inl e ↦ rw (e, h it) (v.0, above, rest)
      | inr e ↦ rw e (v.0, above, rest)
    ]

revive-id : (now : ℕ) (it : QueueItem) → (revive now it).id ≡ it.id
revive-id now it = ground arith

All-cleanup :
    (k now : ℕ) (its : List QueueItem)
    → All (λ q. k < q.id) its
    → All (λ q. k < q.id) (cleanup now its)
unfolding cleanup
All-cleanup k now [] v = tt
All-cleanup k now (it ∷ its) v = elim (Bool-cases (is_garbage now it)) [
  | inl e ↦ rw e (All-cleanup k now its v.1)
  | inr e ↦ rw e (rw (revive-id now it) v.0, All-cleanup k now its v.1)
]

pub cleanup-IsQueue :
    (next now : ℕ) (its : List QueueItem) → IsQueue next its → IsQueue next (cleanup now its)
unfolding cleanup
cleanup-IsQueue next now [] v = tt
cleanup-IsQueue next now (it ∷ its) v =
    let rest = cleanup-IsQueue next now its v.2 in
    let above = All-cleanup it.id now its v.1 in
    elim (Bool-cases (is_garbage now it)) [
      | inl e ↦ rw e rest
      | inr e ↦ rw (e, revive-id now it) (v.0, above, rest)
    ]

-- An item with the next ID keeps the queue sound.
pub IsQueue-append :
    (next : ℕ) (its : List QueueItem) (it : QueueItem)
    → it.id ≡ next
    → IsQueue next its
    → IsQueue (suc next) (its ++ it ∷ [])
IsQueue-append next [] it e v = (omega (arith), tt, tt)
IsQueue-append next (q ∷ its) it e v = (
  omega (arith, v.0),
  All-append (λ x. q.id < x.id) its (it ∷ []) v.1 (omega (arith, v.0), tt),
  IsQueue-append next its it e v.2,
)

-- What is not seen is not seen once rows are gone.
not_seen-drop_key :
    (id key : Bytes) (idx i : Option ℕ) (rs : List SeenRow)
    → is_seen id idx rs ≡ false
    → is_seen id idx (drop_key key i rs) ≡ false
unfolding is_seen drop_key
not_seen-drop_key id key idx i [] v = refl
not_seen-drop_key id key idx i (r ∷ rs) v = ground (arith, not_seen-drop_key id key idx i rs)

not_seen-drop_old_seen :
    (id : Bytes) (idx : Option ℕ) (now ttl : ℕ) (rs : List SeenRow)
    → is_seen id idx rs ≡ false
    → is_seen id idx (drop_old_seen now ttl rs) ≡ false
unfolding is_seen drop_old_seen
not_seen-drop_old_seen id idx now ttl [] v = refl
not_seen-drop_old_seen id idx now ttl (r ∷ rs) v =
    ground (arith, not_seen-drop_old_seen id idx now ttl rs)

pub drop_key-IsCache :
    (key : Bytes) (i : Option ℕ) (rs : List SeenRow) → IsCache rs → IsCache (drop_key key i rs)
unfolding drop_key
drop_key-IsCache key i [] v = tt
drop_key-IsCache key i (r ∷ rs) v =
    let rest = drop_key-IsCache key i rs v.1 in
    let gone = not_seen-drop_key r.message_id key r.fragment_idx i rs v.0 in
    elim (Bool-cases (is_key key i r)) [ inl e ↦ rw e rest | inr e ↦ rw e (gone, rest) ]

pub drop_old_seen-IsCache :
    (now ttl : ℕ) (rs : List SeenRow) → IsCache rs → IsCache (drop_old_seen now ttl rs)
unfolding drop_old_seen
drop_old_seen-IsCache now ttl [] v = tt
drop_old_seen-IsCache now ttl (r ∷ rs) v =
    let rest = drop_old_seen-IsCache now ttl rs v.1 in
    let gone = not_seen-drop_old_seen r.message_id r.fragment_idx now ttl rs v.0 in
    elim (Bool-cases (ltb (r.seen_at + ttl) now)) [ inl e ↦ rw e rest | inr e ↦ rw e (gone, rest) ]

drop_key-gone :
    (id : Bytes) (idx : Option ℕ) (rs : List SeenRow) → is_seen id idx (drop_key id idx rs) ≡ false
unfolding is_seen drop_key
drop_key-gone id idx [] = refl
drop_key-gone id idx (r ∷ rs) = ground (arith, drop_key-gone id idx rs)

-- `INSERT OR REPLACE` leaves one row of the key.
pub replace_seen-IsCache :
    (r : SeenRow) (rs : List SeenRow) → IsCache rs → IsCache (replace_seen r rs)
unfolding replace_seen
replace_seen-IsCache r rs v = (
  drop_key-gone r.message_id r.fragment_idx rs,
  drop_key-IsCache r.message_id r.fragment_idx rs v,
)

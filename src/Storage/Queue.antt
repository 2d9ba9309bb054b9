-- ===== src/Storage/Queue.antt =====
-- The table `transmission_queue`.
use rfmpd.Base.{
  Bool, Bytes, List, Option, [], false, if◌then◌else◌, leb, ltb, none, some, true, ℕ, ◌&&◌, ◌+◌,
  ◌==◌, ◌||◌, ◌∷◌,
}

pub data Status : Type 0 where
  pending transmitting sent failed : Status

-- `frame_type`: MSG, FRAG or SVEC.
pub data FrameType : Type 0 where
  type_msg type_frag type_svec : FrameType

pub record QueueItem : Type 0 where
  pub id : ℕ
  pub type : FrameType
  pub text : Bytes
  pub status : Status
  pub attempts : ℕ
  pub created_at : ℕ
  pub scheduled_at : ℕ

abbrev pub new_item : ℕ → FrameType → Bytes → ℕ → ℕ → QueueItem
new_item id type text now scheduled = record {
  id = id;
  type = type;
  text = text;
  status = pending;
  attempts = 0;
  created_at = now;
  scheduled_at = scheduled;
}

abbrev pub is_pending : Status → Bool
is_pending pending = true
is_pending _ = false

abbrev pub is_sent : Status → Bool
is_sent sent = true
is_sent _ = false

abbrev pub is_failed : Status → Bool
is_failed failed = true
is_failed _ = false

abbrev pub is_transmitting : Status → Bool
is_transmitting transmitting = true
is_transmitting _ = false

-- `status = 'pending' AND scheduled_at <= ?`
abbrev pub is_due : ℕ → QueueItem → Bool
is_due now item = is_pending item.status && leb item.scheduled_at now

abbrev pub earlier : QueueItem → Option QueueItem → QueueItem
earlier item none = item
earlier item (some other) = if leb item.scheduled_at other.scheduled_at then item else other

-- the first of the due items by `scheduled_at`, and by id among equals
unfoldable pub earliest : ℕ → List QueueItem → Option QueueItem
earliest now [] = none
earliest now (item ∷ items) =
    let rest = earliest now items in if is_due now item then some (earlier item rest) else rest

unfoldable pub set_status : ℕ → Status → List QueueItem → List QueueItem
set_status id st [] = []
set_status id st (item ∷ items) =
    (if item.id == id then record item { status = st } else item) ∷ set_status id st items

unfoldable pub attempts_of : ℕ → List QueueItem → ℕ
attempts_of id [] = 0
attempts_of id (item ∷ items) = if item.id == id then item.attempts else attempts_of id items

abbrev pub give_up : QueueItem → QueueItem
give_up item = record item { status = failed; attempts = item.attempts + 1 }

abbrev pub retry_later : ℕ → QueueItem → QueueItem
retry_later now item = record item {
  status = pending;
  attempts = item.attempts + 1;
  scheduled_at = now + 60;
}

unfoldable pub update_item : (QueueItem → QueueItem) → ℕ → List QueueItem → List QueueItem
update_item f id [] = []
update_item f id (item ∷ items) = (if item.id == id then f item else item) ∷ update_item f id items

-- `MarkTransmissionFailed`; `attempts >= maxRetries-1`
unfoldable pub fail_item : ℕ → ℕ → ℕ → List QueueItem → List QueueItem
fail_item now id max_retries items =
    if leb max_retries (attempts_of id items + 1)
    then update_item give_up id items
    else update_item (retry_later now) id items

-- One item under the three statements of `CleanupTransmissionQueue`.
abbrev pub is_garbage : ℕ → QueueItem → Bool
is_garbage now item =
    (is_sent item.status && ltb (item.created_at + 3600) now)
    || (is_failed item.status && ltb (item.created_at + 86400) now)

abbrev pub revive : ℕ → QueueItem → QueueItem
revive now item =
    if is_transmitting item.status && ltb (item.scheduled_at + 60) now
    then record item { status = pending }
    else item

unfoldable pub cleanup : ℕ → List QueueItem → List QueueItem
cleanup now [] = []
cleanup now (item ∷ items) =
    let rest = cleanup now items in if is_garbage now item then rest else revive now item ∷ rest

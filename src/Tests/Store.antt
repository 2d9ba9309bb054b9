-- ===== src/Tests/Store.antt =====
-- The database: messages and their numbers, the transmission queue.
use Prim.Native.String.{String}
use rfmpd.Base.{
  List, [], arith, if◌then◌else◌, inl, inr, leb, length, none, refl, some, ℕ, ◌+◌, ◌↔◌, ◌∷◌, ◌≡◌,
  ◌≢◌, ◌≤◌,
}
use rfmpd.Storage.{
  Database, empty_database, save_message_with_seq, get_next_transmission,
  cleanup_transmission_queue,
}
use rfmpd.Storage.Messages.{
  MessageRow, NewMessage, new_row, clock_of, max_seq, seqs_of, contiguous, insert_seq, conflicts,
}
use rfmpd.Storage.Queue.{
  QueueItem, new_item, type_msg, type_frag, pending, failed, earliest, set_status, transmitting,
}
use rfmpd.Storage.Clock.{HasSeq, le-clock_of}
use rfmpd.Storage.Rows.{save_message_with_seq-clock}
use rfmpd.Storage.Retry.{IsNext, get_next_transmission-IsNext, find_item, fail_all, fail_all_lem}
use rfmpd.Text.{text, text_eq}
use rfmpd.Storage.Recovery.{cleanup-revives}

abbrev new_message : String → String → NewMessage
new_message id node = record {
  id = text id;
  from_node = text node;
  author = none;
  timestamp = text "20240101T000000Z";
  channel = text "general";
  reply_to = none;
  body = text "hello";
}

-- the numbers 1, 2 and 4 of one node, stored out of order, and one of another
abbrev rows : List MessageRow
rows =
    new_row 5 (new_message "b" "N1") (some 2)
    ∷ new_row 6 (new_message "d" "N1") (some 4)
    ∷ new_row 7 (new_message "a" "N1") (some 1)
    ∷ new_row 8 (new_message "e" "N2") (some 1)
    ∷ []

abbrev db : Database
db = record empty_database { messages = rows }

le-clock_of_example :
    (2 ≤ clock_of (text "N1") rows) ↔ ((s : ℕ) → 1 ≤ s → s ≤ 2 → HasSeq (text "N1") s rows)
le-clock_of_example = le-clock_of (text "N1") rows 2

abbrev saved : NewMessage → Database × ℕ
saved m = elim (save_message_with_seq 9 m db) [ none ↦ (db, 0) | some p ↦ p ]

saved_n1 :
    save_message_with_seq 9 (new_message "f" "N1") db ≡ some ((saved (new_message "f" "N1")).0, 5)
unfolding save_message_with_seq conflicts max_seq text_eq
saved_n1 = refl

saved_n2 :
    save_message_with_seq 9 (new_message "f" "N2") db ≡ some ((saved (new_message "f" "N2")).0, 2)
unfolding save_message_with_seq conflicts max_seq text_eq
saved_n2 = refl

no_gap : clock_of (text "N2") rows ≡ max_seq (text "N2") rows
unfolding clock_of max_seq seqs_of contiguous insert_seq text_eq
no_gap = refl

save_message_with_seq-clock_example :
    clock_of (text "N2") (saved (new_message "f" "N2")).0.messages ≡ 2
save_message_with_seq-clock_example =
    save_message_with_seq-clock 9 (new_message "f" "N2") db (saved (new_message "f" "N2")).0 2
      saved_n2 no_gap

abbrev item_one : QueueItem
item_one = new_item 1 type_msg (text "x") 100 130

abbrev item_two : QueueItem
item_two = new_item 2 type_frag (text "y") 100 110

abbrev queued : Database
queued = record empty_database { queue = item_one ∷ item_two ∷ []; next_id = 3 }

get_next_transmission-IsNext_example :
    IsNext 140 (item_one ∷ item_two ∷ []) (get_next_transmission 140 queued).1
get_next_transmission-IsNext_example = get_next_transmission-IsNext 140 queued

first_next : (get_next_transmission 140 queued).1 ≡ some item_two
unfolding get_next_transmission earliest
first_next = refl

second_next : (get_next_transmission 141 (get_next_transmission 140 queued).0).1 ≡ some item_one
unfolding get_next_transmission earliest set_status
second_next = refl

abbrev failures : List ℕ
failures = 210 ∷ 280 ∷ []

fail_all_lem_example :
    (it' : QueueItem) × (find_item 1 (fail_all (140 ∷ failures) 1 3 queued).queue ≡ some it')
    × (it'.attempts ≡ item_one.attempts + length {A = ℕ} (140 ∷ failures))
    × (it'.status ≡ (if leb 3 it'.attempts then failed else pending))
unfolding find_item
fail_all_lem_example = fail_all_lem 140 failures 1 3 queued item_one refl

-- an item that was handed out at 140 and never finished
abbrev stuck : QueueItem
stuck = record item_two { status = transmitting }

abbrev half_done : Database
half_done = record empty_database { queue = item_one ∷ stuck ∷ []; next_id = 3 }

cleanup-revives_example :
    (get_next_transmission 9000 (cleanup_transmission_queue 9000 half_done)).1 ≢ none
cleanup-revives_example = cleanup-revives 9000 half_done stuck (inr (inl refl)) refl (omega arith)

-- ===== src/Tests/Sync.antt =====
-- Vector clocks that arrive at a node with one stored message.
use rfmpd.Base.{Any, Bool-cases, Bytes, [], arith, inl, inr, refl, some, ℕ, ◌∷◌, ◌≡◌, ◌≤◌}
use rfmpd.Text.{text, text_eq}
use rfmpd.Frames.{Msg, Svec, msg_to_dict, lookup_vector}
use rfmpd.Message.{id_from_hex, id_to_hex}
use rfmpd.Message.Hex.{hex_encode, hex_decode}
use rfmpd.Message.Timestamp.{
  parse_timestamp, digits4, format_timestamp, civil, find_year, year_days, find_month, expect,
  digits_hour, skip_fraction, to_time, days_before,
}
use rfmpd.Wire.{encode_msg_raw, msg_to_pb}
use rfmpd.Fragments.{fragment_bytes, new_fragmenter, fragment_message}
use rfmpd.Storage.{empty_database}
use rfmpd.Storage.Messages.{MessageRow, new_row, max_seq, seqs_of, insert_seq, contiguous, clock_of}
use rfmpd.Daemon.{Daemon}
use rfmpd.Daemon.Handlers.{message_data, row_to_msg, handle_svec}
use rfmpd.Daemon.Sending.{own_svec}
use rfmpd.Daemon.Answering.{IsAnswer, handle_svec-Answered}
use rfmpd.Daemon.Agreeing.{handle_svec-own_svec}
use rfmpd.Tests.Data.{print_msg, field, json, proto, message}
use rfmpd.Tests.Node.{node}

-- the first message of its node
abbrev first : Msg
first = record message { seq = some 1 }

abbrev row : MessageRow
row = new_row 100 (message_data first) (some 1)

abbrev holder : Daemon
holder = record node { db = record empty_database { messages = row ∷ [] } }

abbrev delays : Bytes → ℕ → ℕ
delays id i = 7

-- a peer that knows nothing
abbrev empty_svec : Svec
empty_svec = record { from_node = text "K9"; vector = [] }

row-first : row_to_msg json proto row ≡ some first
unfolding row_to_msg id_from_hex hex_decode message_data id_to_hex hex_encode parse_timestamp
    digits4 format_timestamp civil find_year year_days find_month expect digits_hour skip_fraction
    to_time days_before
row-first = refl

whole : fragment_message proto node.fragmenter first ≡ []
unfolding fragment_message fragment_bytes encode_msg_raw msg_to_pb print_msg field new_fragmenter
whole = refl

handle_svec-Answered_example :
    Any
      (IsAnswer (json.marshal (msg_to_dict first)) 207)
      (handle_svec json proto 200 delays empty_svec holder).db.queue
unfolding text_eq clock_of lookup_vector message_data contiguous seqs_of insert_seq
handle_svec-Answered_example =
    handle_svec-Answered json proto 200 delays empty_svec holder row first (inl refl) refl
      (omega arith, omega arith) row-first whole

no_gap : (from : Bytes) → max_seq from (row ∷ []) ≤ clock_of from (row ∷ [])
unfolding max_seq clock_of seqs_of insert_seq contiguous message_data
no_gap from = elim (Bool-cases (text_eq row.from_node from)) [
  | inl e ↦ rw e (omega arith)
  | inr e ↦ rw e (omega arith)
]

handle_svec-own_svec_example :
    (handle_svec json proto 200 delays (own_svec holder) holder).db.queue ≡ []
handle_svec-own_svec_example =
    handle_svec-own_svec json proto 200 delays holder holder (λ from. refl) no_gap

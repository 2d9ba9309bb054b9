-- ===== src/Tests/Screens.antt =====
-- What the pager draws for a list of channels.
use rfmpd.Base.{[], length, none, ◌∷◌}
use rfmpd.Base.Int.{pos}
use rfmpd.Text.{text}
use rfmpd.Message.Timestamp.{Civil}
use rfmpd.Display.{App, Channel}
use rfmpd.Display.Layout.{Surroundings}

abbrev first_day : Civil
first_day = record { year = 2024; month = 0; day = 0; hour = 0; minute = 0; second = 0 }

-- ASCII only
abbrev env : Surroundings
env = record { runes = λ s. length s; utf8 = λ s. s; parse_rfc3339 = λ s. none; today = first_day }

abbrev general : Channel
general = record { name = text "general"; message_count = pos 3 }

abbrev app : App
app = record {
  channels = record { name = text "art"; message_count = pos 0 } ∷ general ∷ [];
  messages = [];
  channel = [];
  author = [];
  err = [];
  calls = [];
  blinks = 0;
}

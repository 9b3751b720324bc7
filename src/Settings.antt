-- ===== src/Settings.antt =====
-- frontend/components/TransferConfigCard.tsx: the form of the transfer settings. A number field
-- holds the number of the configuration, or the digits that were typed.
pub mod Laws
pub mod Tests
use fast_share.Common.{ℕ, Bool, true, false, not, ◌&&◌, ◌||◌, Option, none, some, List, [], ◌∷◌}
use fast_share.Common.Tests.{if◌then◌else◌, ltb, leb, or_else}
use fast_share.Common.Lists.{select}
use fast_share.Common.Text.{Text, units, digits_value}
use fast_share.Types.{Config}

pub data Entry : Type 0 where
  whole : ℕ → Entry
  typed : Text → Entry

pub record Form : Type 0 where
  pub server_ip : Text
  pub udp_port : Entry
  pub packet_size : Entry
  pub timeout_ms : Entry
  pub window_size : Entry
  pub max_retries : Entry
  pub topology_enabled : Bool
  pub topology_latency_ms : Entry

-- The keys that `setNum` takes.
pub data Key : Type 0 where
  udp_port packet_size timeout_ms window_size max_retries topology_latency_ms : Key

pub record Card : Type 0 where
  pub form : Form
  pub dirty : Bool
  pub saved_flash : Bool
  pub error : Option Text

abbrev pub form_of : Config → Form
form_of c = record {
  server_ip = c.server_ip;
  udp_port = Entry.whole c.udp_port;
  packet_size = Entry.whole c.packet_size;
  timeout_ms = Entry.whole c.timeout_ms;
  window_size = Entry.whole c.window_size;
  max_retries = Entry.whole c.max_retries;
  topology_enabled = c.topology_enabled;
  topology_latency_ms = Entry.whole c.topology_latency_ms;
}

abbrev pub opened : Config → Card
opened c = record { form = form_of c; dirty = false; saved_flash = false; error = none }

-- the effect on `[config, dirty]`
unfoldable pub follow : Config → Card → Card
follow c card = if not card.dirty then record card { form = form_of c } else card

abbrev pub touch : Card → Card
touch card = record card { dirty = true; saved_flash = false; error = none }

abbrev pub set_text : Text → Card → Card
set_text value card = record (touch card) { form = record card.form { server_ip = value } }

abbrev pub set_bool : Bool → Card → Card
set_bool value card = record (touch card) { form = record card.form { topology_enabled = value } }

-- `/\d/`
abbrev pub is_digit : ℕ → Bool
is_digit c = leb 48 c && leb c 57

-- `value.replace(/\D/g, "")`
unfoldable pub cleaned : Text → Text
unfolding select
cleaned value = select is_digit value

abbrev pub with_entry : Key → Entry → Form → Form
with_entry Key.udp_port e f = record f { udp_port = e }
with_entry Key.packet_size e f = record f { packet_size = e }
with_entry Key.timeout_ms e f = record f { timeout_ms = e }
with_entry Key.window_size e f = record f { window_size = e }
with_entry Key.max_retries e f = record f { max_retries = e }
with_entry Key.topology_latency_ms e f = record f { topology_latency_ms = e }

abbrev pub set_num : Key → Text → Card → Card
set_num key value card = record (touch card) {
  form = with_entry key (Entry.typed (cleaned value)) card.form;
}

-- `Number(form.key)`: a typed text holds digits only, and the empty one is 0. Digits whose number
-- is too large to be exact are out of every range below.
unfoldable pub number_of : Entry → ℕ
unfolding digits_value
number_of (Entry.whole n) = n
number_of (Entry.typed s) = digits_value s

abbrev pub out_of : ℕ → ℕ → ℕ → Bool
out_of lo hi n = ltb n lo || ltb hi n

unfoldable pub validate : Form → Option Text
unfolding number_of
validate f =
    if out_of 1 65535 (number_of f.udp_port)
    then some (units "UDP port must be 1–65535.")
    else if out_of 64 60000 (number_of f.packet_size)
    then some (units "Packet size must be 64–60000 bytes.")
    else if out_of 50 5000 (number_of f.timeout_ms)
    then some (units "Timeout must be 50–5000 ms.")
    else if out_of 1 20 (number_of f.max_retries)
    then some (units "Max retries must be 1–20.")
    else if out_of 1 1000 (number_of f.topology_latency_ms)
    then some (units "Hop latency must be 1–1000 ms.")
    else none

-- the argument of `onSave`
unfoldable pub payload : Form → Config
unfolding number_of
payload f = record {
  server_ip = f.server_ip;
  udp_port = number_of f.udp_port;
  packet_size = number_of f.packet_size;
  timeout_ms = number_of f.timeout_ms;
  window_size = 1;
  max_retries = number_of f.max_retries;
  topology_enabled = f.topology_enabled;
  topology_latency_ms = number_of f.topology_latency_ms;
}

-- `save` until it waits for `onSave`, and what it passes to it
unfoldable pub save : Card → Card × Option Config
unfolding validate payload
save card = elim (validate card.form) [
  | some msg ↦ (record card { error = some msg }, none)
  | none ↦ (record card { error = none }, some (payload card.form))
]

-- the rest of `save`, with the answer of `onSave`
unfoldable pub saved : Bool → Card → Card
saved ok card = if ok then record card { dirty = false; saved_flash = true } else card

-- the timer of 2500 ms
abbrev pub flash_over : Card → Card
flash_over card = record card { saved_flash = false }

-- What can happen to the card; a new configuration comes with every poll that changes it.
pub data Edit : Type 0 where
  followed : Config → Edit
  text_set : Text → Edit
  bool_set : Bool → Edit
  num_set : Key → Text → Edit
  save_begun : Edit
  save_answered : Bool → Edit
  timer_over : Edit

unfoldable pub edit : Edit → Card → Card
unfolding follow save saved cleaned
edit (Edit.followed c) card = follow c card
edit (Edit.text_set value) card = set_text value card
edit (Edit.bool_set value) card = set_bool value card
edit (Edit.num_set key value) card = set_num key value card
edit Edit.save_begun card = (save card).0
edit (Edit.save_answered ok) card = saved ok card
edit Edit.timer_over card = flash_over card

-- ===== src/Settings/Laws.antt =====
-- What the form saves.
use fast_share.Common.{
  ℕ, ◌≤◌, ◌≡◌, ◌↔◌, refl, sym, ap, ◌∙◌, true, false, Option, none, some, List, [], ◌∷◌, ◌++◌, arith,
  inl, inr,
}
use fast_share.Common.Tests.{Bool-cases, Option-cases}
use fast_share.Common.Lists.{select, All}
use fast_share.Common.Text.{
  Text, digits_value, decimal, digits_value-decimal, decimal-AreDigits, IsDigit,
}
use mathlib.Core.Option.{some-injective}
use mathlib.Core.Path.{subst}
use mathlib.Core.List.{append-nil}
use fast_share.Types.{Config}
use fast_share.Settings.{
  Entry, Form, Key, Card, opened, follow, set_num, is_digit, cleaned, with_entry, number_of,
  validate, payload, save, saved, Edit, edit,
}

-- The ranges of the form.
pub record IsInRange (c : Config) : Type 0 where
  pub port : (1 ≤ c.udp_port) × (c.udp_port ≤ 65535)
  pub size : (64 ≤ c.packet_size) × (c.packet_size ≤ 60000)
  pub timeout : (50 ≤ c.timeout_ms) × (c.timeout_ms ≤ 5000)
  pub retries : (1 ≤ c.max_retries) × (c.max_retries ≤ 20)
  pub latency : (1 ≤ c.topology_latency_ms) × (c.topology_latency_ms ≤ 1000)

validate-IsInRange : (f : Form) → validate f ≡ none → IsInRange (payload f)
unfolding validate payload
validate-IsInRange f h = record {
  port = ground arith;
  size = ground arith;
  timeout = ground arith;
  retries = ground arith;
  latency = ground arith;
}

IsInRange-validate : (f : Form) → IsInRange (payload f) → validate f ≡ none
unfolding validate payload
IsInRange-validate f r = ground (arith, r.port, r.size, r.timeout, r.retries, r.latency)

save_valid :
    (card : Card)
    → validate card.form ≡ none
    → save card ≡ (record card { error = none }, some (payload card.form))
unfolding save
save_valid card e = simp (e, save)

save_invalid :
    (card : Card) (msg : Text)
    → validate card.form ≡ some msg
    → save card ≡ (record card { error = some msg }, none)
unfolding save
save_invalid card msg e = simp (e, save)

save-some :
    (card : Card) (c : Config) → (save card).1 ≡ some c → (c ≡ payload card.form) × IsInRange c
save-some card c e = elim (Option-cases (validate card.form)) [
  | inl ok ↦
      let same : payload card.form ≡ c =
        some-injective _ _
          (sym (ap (λ (r : Card × Option Config). r.1) (save_valid card ok)) ∙ e) in
      (sym same, subst IsInRange same (validate-IsInRange card.form ok))
  | inr (msg, bad) ↦
      absurd (cc (ap (λ (r : Card × Option Config). r.1) (save_invalid card msg bad), e))
]

-- What the backend accepts (backend/api/models.py, class Config).
pub record IsAccepted (c : Config) : Type 0 where
  pub port : (1 ≤ c.udp_port) × (c.udp_port ≤ 65535)
  pub size : (64 ≤ c.packet_size) × (c.packet_size ≤ 64512)
  pub timeout : (50 ≤ c.timeout_ms) × (c.timeout_ms ≤ 10000)
  pub window : c.window_size ≡ 1
  pub retries : (1 ≤ c.max_retries) × (c.max_retries ≤ 20)
  pub latency : (1 ≤ c.topology_latency_ms) × (c.topology_latency_ms ≤ 1000)

abbrev pub IsAcceptedIf : Option Config → Type 0
IsAcceptedIf none = Unit
IsAcceptedIf (some c) = IsAccepted c

payload-IsAccepted : (f : Form) → IsInRange (payload f) → IsAccepted (payload f)
unfolding payload
payload-IsAccepted f r = record {
  port = r.port;
  size = omega (arith, r.size);
  timeout = omega (arith, r.timeout);
  window = refl;
  retries = r.retries;
  latency = r.latency;
}

save-IsAcceptedIf : (card : Card) → IsAcceptedIf (save card).1
save-IsAcceptedIf card = elim (Option-cases (validate card.form)) [
  | inl ok ↦
      rw (save_valid card ok) (payload-IsAccepted card.form (validate-IsInRange card.form ok))
  | inr (msg, bad) ↦ rw (save_invalid card msg bad) tt
]

save_range_iff :
    (card : Card) (c : Config) → ((save card).1 ≡ some c) ↔ ((c ≡ payload card.form) × IsInRange c)
save_range_iff card c = (
  save-some card c,
  λ h.
      ap (λ (r : Card × Option Config). r.1)
        (save_valid card (IsInRange-validate card.form (subst IsInRange h.0 h.1)))
      ∙ ap some (sym h.0),
)

-- Saving passes on what the form holds, with the window at 1, exactly if every number is in the
-- form's own range, and nothing else; and what it passes on, if anything, is in the ranges of
-- the backend's model of a configuration.
pub save_iff :
    (card : Card) (c : Config)
    → (((save card).1 ≡ some c) ↔ ((c ≡ payload card.form) × IsInRange c))
      × IsAcceptedIf (save card).1
save_iff card c = (save_range_iff card c, save-IsAcceptedIf card)

-- Where a number is out of range nothing is passed on, a message is shown, and the form stays.
save-refused :
    (card : Card)
    → ¬ IsInRange (payload card.form)
    → (msg : Text) × (save card ≡ (record card { error = some msg }, none))
save-refused card bad = elim (Option-cases (validate card.form)) [
  | inl ok ↦ absurd (bad (validate-IsInRange card.form ok))
  | inr (msg, e) ↦ (msg, save_invalid card msg e)
]

select-digits : (s : Text) → All IsDigit s → select is_digit s ≡ s
unfolding select
select-digits [] h = refl
select-digits (c ∷ s) h = ground (arith, select-digits s h.1, h.0)

select-digits_of : (s : Text) → All IsDigit (select is_digit s)
unfolding select
select-digits_of [] = tt
select-digits_of (c ∷ s) = elim (Bool-cases (is_digit c)) [
  | inl e ↦ rw e (ground arith, select-digits_of s)
  | inr e ↦ rw e (select-digits_of s)
]

select-append : (s t : Text) → select is_digit (s ++ t) ≡ select is_digit s ++ select is_digit t
unfolding select
select-append [] t = refl
select-append (c ∷ s) t = ground (arith, select-append s t)

abbrev pub entry_at : Key → Form → Entry
entry_at Key.udp_port f = f.udp_port
entry_at Key.packet_size f = f.packet_size
entry_at Key.timeout_ms f = f.timeout_ms
entry_at Key.window_size f = f.window_size
entry_at Key.max_retries f = f.max_retries
entry_at Key.topology_latency_ms f = f.topology_latency_ms

entry_at-with_entry : (key : Key) (e : Entry) (f : Form) → entry_at key (with_entry key e f) ≡ e
entry_at-with_entry Key.udp_port e f = refl
entry_at-with_entry Key.packet_size e f = refl
entry_at-with_entry Key.timeout_ms e f = refl
entry_at-with_entry Key.window_size e f = refl
entry_at-with_entry Key.max_retries e f = refl
entry_at-with_entry Key.topology_latency_ms e f = refl

append-empty : (s t u : Text) → s ≡ [] → u ≡ [] → s ++ (t ++ u) ≡ t
append-empty s t u e k = rw (e, k) (append-nil t)

-- Typing a number into a field, with whatever around it that is no digit, gives the field that
-- number.
set_num-decimal :
    (key : Key) (before after : Text) (n : ℕ) (card : Card)
    → cleaned before ≡ []
    → cleaned after ≡ []
    → number_of (entry_at key (set_num key (before ++ (decimal n ++ after)) card).form) ≡ n
unfolding number_of cleaned
set_num-decimal key before after n card e k =
    let whole_text : select is_digit (before ++ (decimal n ++ after)) ≡ decimal n =
      select-append before (decimal n ++ after)
      ∙ ap (λ z. select is_digit before ++ z) (select-append (decimal n) after)
      ∙ append-empty _ _ _ e k
      ∙ select-digits (decimal n) (decimal-AreDigits n) in
    ap number_of (entry_at-with_entry key _ card.form)
    ∙ ap digits_value whole_text
    ∙ digits_value-decimal n

-- A configuration in range that is saved as it came is passed on as it came, with the window at
-- 1.
save-opened : (c : Config) → IsInRange c → (save (opened c)).1 ≡ some (record c { window_size = 1 })
unfolding payload number_of
save-opened c r = (save_range_iff (opened c) (record c { window_size = 1 })).1 (
  refl,
  record {
    port = r.port;
    size = r.size;
    timeout = r.timeout;
    retries = r.retries;
    latency = r.latency;
  },
)

abbrev pub edits : List Edit → Card → Card
edits [] card = card
edits (e ∷ es) card = edits es (edit e card)

-- What is not the user's typing, nor a save that the backend has taken.
abbrev pub IsBackground : Edit → Type 0
IsBackground (Edit.followed c) = Unit
IsBackground Edit.save_begun = Unit
IsBackground (Edit.save_answered ok) = ok ≡ false
IsBackground Edit.timer_over = Unit
IsBackground _ = true ≡ false

edit-IsBackground :
    (e : Edit) (card : Card)
    → IsBackground e
    → card.dirty ≡ true
    → ((edit e card).form ≡ card.form) × ((edit e card).dirty ≡ true)
unfolding edit follow save saved
edit-IsBackground (Edit.followed c) card h d = ground arith
edit-IsBackground (Edit.text_set value) card h d = cc
edit-IsBackground (Edit.bool_set value) card h d = cc
edit-IsBackground (Edit.num_set key value) card h d = cc
edit-IsBackground Edit.save_begun card h d = ground arith
edit-IsBackground (Edit.save_answered ok) card h d = ground arith
edit-IsBackground Edit.timer_over card h d = (refl, d)

-- What the user has typed stays while polls bring new configurations, timers run out and saves
-- are refused or fail, in any order.
pub edits-IsBackground :
    (es : List Edit) (card : Card)
    → All IsBackground es
    → card.dirty ≡ true
    → ((edits es card).form ≡ card.form) × ((edits es card).dirty ≡ true)
edits-IsBackground [] card h d = (refl, d)
edits-IsBackground (e ∷ es) card h d =
    let (form, dirty) = edit-IsBackground e card h.0 d in
    let (rest, still) = edits-IsBackground es (edit e card) h.1 dirty in (rest ∙ form, still)

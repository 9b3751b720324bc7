-- ===== src/LogLines/Laws.antt =====
-- A line has the first tone, in the order of the rules, one of whose words occurs in it.
use fast_share.Common.{
  ℕ, ◌≤◌, ◌≡◌, ◌↔◌, refl, sym, ap, ◌∙◌, Bool, true, false, ◌||◌, [], ◌∷◌, ◌++◌, map, arith, inl,
  inr, ◌⊎◌,
}
use fast_share.Common.Tests.{if◌then◌else◌, ◌==◌, ==_iff, Bool-cases, and_true}
use fast_share.Common.Text.{Text, units}
use mathlib.Core.List.{append_assoc}
use fast_share.LogLines.{LogTone, lower, starts, occurs, classify_log_line}

-- The folded line begins with the word, or the word stands somewhere in it.
abbrev pub Begins : Text → Text → Type 0
Begins p t = (rest : Text) × (map lower t ≡ p ++ rest)

abbrev pub Occurs : Text → Text → Type 0
Occurs p t = (before rest : Text) × (map lower t ≡ before ++ (p ++ rest))

starts_sound : (p t : Text) → starts p t ≡ true → Begins p t
unfolding starts
starts_sound [] t h = (map lower t, refl)
starts_sound (p ∷ ps) [] h = cc
starts_sound (p ∷ ps) (c ∷ t) h =
    let (head, tail) = and_true (lower c == p) (starts ps t) h in
    let (rest, e) = starts_sound ps t tail in
    let same : lower c ≡ p = (==_iff (lower c) p).0 head in (rest, cc (same, e))

starts_complete : (p t rest : Text) → map lower t ≡ p ++ rest → starts p t ≡ true
unfolding starts
starts_complete [] t rest e = refl
starts_complete (p ∷ ps) [] rest e = cc
starts_complete (p ∷ ps) (c ∷ t) rest e =
    let same : lower c ≡ p = cc in
    let tail : map lower t ≡ ps ++ rest = cc in
    rw ((==_iff (lower c) p).1 same) (starts_complete ps t rest tail)

occurs_sound : (p t : Text) → occurs p t ≡ true → Occurs p t
unfolding occurs
occurs_sound p [] h = let (rest, e) = starts_sound p [] h in ([], rest, e)
occurs_sound p (c ∷ t) h = elim (Bool-cases (starts p (c ∷ t))) [
  | inl e1 ↦ let (rest, e) = starts_sound p (c ∷ t) e1 in ([], rest, e)
  | inr e1 ↦
      let (before, rest, e) = occurs_sound p t (rw e1 at h) in
      (lower c ∷ before, rest, ap (λ s. lower c ∷ s) e)
]

occurs_complete : (p t before rest : Text) → map lower t ≡ before ++ (p ++ rest) → occurs p t ≡ true
unfolding occurs
occurs_complete p [] [] rest e = starts_complete p [] rest e
occurs_complete p [] (b ∷ before) rest e = cc
occurs_complete p (c ∷ t) [] rest e = rw (starts_complete p (c ∷ t) rest e)
occurs_complete p (c ∷ t) (b ∷ before) rest e =
    let later = occurs_complete p t before rest (cc) in ground arith

pub occurs_iff : (p t : Text) → (occurs p t ≡ true) ↔ Occurs p t
occurs_iff p t = (occurs_sound p t, λ (before, rest, e). occurs_complete p t before rest e)

starts_iff : (p t : Text) → (starts p t ≡ true) ↔ Begins p t
starts_iff p t = (starts_sound p t, λ (rest, e). starts_complete p t rest e)

-- What a line of the tone holds.
abbrev pub Holds : LogTone → Text → Type 0
Holds LogTone.loss t = Occurs (units "lost") t ⊎ Occurs (units "timeout") t
Holds LogTone.duplicate t = Occurs (units "duplicate") t
Holds LogTone.retransmit t = Occurs (units "retransmit") t
Holds LogTone.ack t = Occurs (units "ack") t
Holds LogTone.server_data t = Occurs (units "server <- data") t
Holds LogTone.client_data t = Occurs (units "client -> data") t
Holds LogTone.lifecycle t =
    Occurs (units "complete") t
    ⊎ (Occurs (units "finished") t
        ⊎ (Begins (units "server listening") t ⊎ Occurs (units "transfer started") t))
Holds LogTone.sent t = Occurs (units "sent") t ⊎ Occurs (units "start") t
Holds LogTone.neutral t = Unit

-- The place of a tone in the order of the rules.
abbrev pub rank : LogTone → ℕ
rank LogTone.loss = 0
rank LogTone.duplicate = 1
rank LogTone.retransmit = 2
rank LogTone.ack = 3
rank LogTone.server_data = 4
rank LogTone.client_data = 5
rank LogTone.lifecycle = 6
rank LogTone.sent = 7
rank LogTone.neutral = 8

-- The tests of the rules, in their order.
abbrev test_of : LogTone → Text → Bool
test_of LogTone.loss t = occurs (units "lost") t || occurs (units "timeout") t
test_of LogTone.duplicate t = occurs (units "duplicate") t
test_of LogTone.retransmit t = occurs (units "retransmit") t
test_of LogTone.ack t = occurs (units "ack") t
test_of LogTone.server_data t = occurs (units "server <- data") t
test_of LogTone.client_data t = occurs (units "client -> data") t
test_of LogTone.lifecycle t =
    occurs (units "complete") t
    || (occurs (units "finished") t
        || (starts (units "server listening") t || occurs (units "transfer started") t))
test_of LogTone.sent t = occurs (units "sent") t || occurs (units "start") t
test_of LogTone.neutral t = true

or_iff : (a b : Bool) {A B : Type 0} → (a ≡ true) ↔ A → (b ≡ true) ↔ B → ((a || b) ≡ true) ↔ (A ⊎ B)
or_iff true b f g = (λ e. inl (f.0 refl), λ h. refl)
or_iff false true f g = (λ e. inr (g.0 refl), λ h. refl)
or_iff false false f g = (λ e. cc, λ h. elim h [ inl a ↦ f.1 a | inr b ↦ g.1 b ])

test_of_iff : (tone : LogTone) (t : Text) → (test_of tone t ≡ true) ↔ Holds tone t
test_of_iff LogTone.loss t = or_iff _ _ (occurs_iff _ t) (occurs_iff _ t)
test_of_iff LogTone.duplicate t = occurs_iff _ t
test_of_iff LogTone.retransmit t = occurs_iff _ t
test_of_iff LogTone.ack t = occurs_iff _ t
test_of_iff LogTone.server_data t = occurs_iff _ t
test_of_iff LogTone.client_data t = occurs_iff _ t
test_of_iff LogTone.lifecycle t =
    or_iff _ _ (occurs_iff _ t)
      (or_iff _ _ (occurs_iff _ t) (or_iff _ _ (starts_iff _ t) (occurs_iff _ t)))
test_of_iff LogTone.sent t = or_iff _ _ (occurs_iff _ t) (occurs_iff _ t)
test_of_iff LogTone.neutral t = (λ e. tt, λ h. refl)

-- The first tone of the order whose test holds.
abbrev pick : (LogTone → Bool) → LogTone
pick f =
    if f LogTone.loss
    then LogTone.loss
    else if f LogTone.duplicate
    then LogTone.duplicate
    else if f LogTone.retransmit
    then LogTone.retransmit
    else if f LogTone.ack
    then LogTone.ack
    else if f LogTone.server_data
    then LogTone.server_data
    else if f LogTone.client_data
    then LogTone.client_data
    else if f LogTone.lifecycle
    then LogTone.lifecycle
    else if f LogTone.sent
    then LogTone.sent
    else LogTone.neutral

pick-true : (f : LogTone → Bool) → f LogTone.neutral ≡ true → f (pick f) ≡ true
pick-true f h = ground arith

rank-pick : (f : LogTone → Bool) (tone : LogTone) → f tone ≡ true → rank (pick f) ≤ rank tone
rank-pick f LogTone.loss h = ground arith
rank-pick f LogTone.duplicate h = ground arith
rank-pick f LogTone.retransmit h = ground arith
rank-pick f LogTone.ack h = ground arith
rank-pick f LogTone.server_data h = ground arith
rank-pick f LogTone.client_data h = ground arith
rank-pick f LogTone.lifecycle h = ground arith
rank-pick f LogTone.sent h = ground arith
rank-pick f LogTone.neutral h = ground arith

classify_log_line-pick : (t : Text) → classify_log_line t ≡ pick (λ tone. test_of tone t)
unfolding classify_log_line
classify_log_line-pick t = refl

-- The tone of a line is one whose words it holds, and none that comes before it in the order of
-- the rules has a word in the line; the case of ASCII letters does not matter.
pub classify_log_line-Holds :
    (t : Text)
    → Holds (classify_log_line t) t
      × ((tone : LogTone) → Holds tone t → rank (classify_log_line t) ≤ rank tone)
classify_log_line-Holds t =
    let tests : LogTone → Bool = λ tone. test_of tone t in
    let same : classify_log_line t ≡ pick tests = classify_log_line-pick t in
    rw same (
      (test_of_iff (pick tests) t).0 (pick-true tests refl),
      λ tone h. rank-pick tests tone ((test_of_iff tone t).1 h),
    )

-- A line in which the word "packet" occurs, in whatever case, is at most an "ack" line, since
-- the word holds the letters "ack": it is never shown as data, lifecycle, sent or neutral.
pub classify_log_line-packet :
    (t : Text) → Occurs (units "packet") t → rank (classify_log_line t) ≤ rank LogTone.ack
classify_log_line-packet t (before, rest, e) =
    (classify_log_line-Holds t).1 LogTone.ack
      (before ++ units "p", units "et" ++ rest, e ∙ sym (append_assoc before (units "p") _))

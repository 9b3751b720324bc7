-- ===== src/Resume/Laws.antt =====
-- Whose banner is shown, if every check is answered before anything else changes.
use fast_share.Common.{
  ◌≡◌, refl, sym, ap, ◌∙◌, false, Option, none, some, [], ◌∷◌, ◌++◌, inl, inr, ◌⊎◌,
}
use mathlib.Core.Path.{subst}
use fast_share.Common.Tests.{Bool-cases}
use fast_share.Types.{TransferStatus, ResumeInfo, SelectedFile}
use fast_share.Resume.{
  Resume, first_resume, is_running, has_ended, ask, usable, answer, watch, pick, set_status,
}

has_ended-same : (s : Option TransferStatus) → has_ended s s ≡ false
has_ended-same none = refl
has_ended-same (some TransferStatus.idle) = refl
has_ended-same (some TransferStatus.transferring) = refl
has_ended-same (some TransferStatus.completed) = refl
has_ended-same (some TransferStatus.failed) = refl
has_ended-same (some TransferStatus.cancelled) = refl

module _ {N : Type 0} (check : SelectedFile → Option (ResumeInfo N)) where
  -- The banner is off, or it is what the check of the selected file answers.
  abbrev pub IsOwn : Resume N → Type 0
  IsOwn r = (r.info ≡ none) ⊎ ((f : SelectedFile) × (r.file ≡ some f) × (r.info ≡ usable (check f)))

  -- No check waits and the banner is the selected file's, or the check of the selected file waits.
  data IsHonest (r : Resume N) : Type 0 where
    rests : r.asked ≡ [] → IsOwn r → IsHonest r
    waits : (f : SelectedFile) → r.asked ≡ f ∷ [] → r.file ≡ some f → IsHonest r

  -- A change comes while no check waits, and an answer to the check that waits.
  pub data Step (r : Resume N) : Resume N → Type 0 where
    picked : (f : Option SelectedFile) → r.asked ≡ [] → Step r (pick f r)
    changed : (s : Option TransferStatus) → r.asked ≡ [] → Step r (set_status s r)
    answered : (f : SelectedFile) → r.asked ≡ f ∷ [] → Step r (answer 0 (check f) r)

  pub data Reach : Resume N → Type 0 where
    start : Reach first_resume
    next : {r r' : Resume N} → Reach r → Step r r' → Reach r'

  ask-IsHonest :
      (f : Option SelectedFile) (r : Resume N) → r.file ≡ f → r.asked ≡ [] → IsHonest (ask f r)
  ask-IsHonest none r e k = IsHonest.rests k (inl refl)
  ask-IsHonest (some f) r e k = IsHonest.waits f (ap (λ xs. xs ++ f ∷ []) k) e

  -- The effect that watches keeps `prev` at the status that it has seen.
  record IsSettled (r : Resume N) : Type 0 where
    honest : IsHonest r
    seen : r.prev ≡ r.status

  seen-IsHonest :
      (s : Option TransferStatus) (r : Resume N) → IsHonest r → IsHonest (record r { prev = s })
  seen-IsHonest s r (IsHonest.rests e o) = IsHonest.rests e o
  seen-IsHonest s r (IsHonest.waits f e k) = IsHonest.waits f e k

  hide-IsHonest :
      (s : Option TransferStatus) (r : Resume N)
      → IsHonest r
      → IsHonest (record r { prev = s; info = none })
  hide-IsHonest s r (IsHonest.rests e o) = IsHonest.rests e (inl refl)
  hide-IsHonest s r (IsHonest.waits f e k) = IsHonest.waits f e k

  ask-seen :
      (f : Option SelectedFile) (r : Resume N)
      → r.prev ≡ r.status
      → (ask f r).prev ≡ (ask f r).status
  ask-seen none r e = e
  ask-seen (some f) r e = e

  -- With nothing waiting, the effect may ask; with a check waiting it may not, as it has seen the status.
  watch_resting : (r : Resume N) → r.asked ≡ [] → IsHonest r → IsSettled (watch r)
  unfolding watch
  watch_resting r k h = elim (Bool-cases (is_running r.status)) [
    | inl e ↦ rw (e, watch) (record { honest = hide-IsHonest r.status r h; seen = refl })
    | inr e ↦ elim (Bool-cases (has_ended r.status r.prev)) [
      | inl e1 ↦
          rw (e, e1, watch)
            (record {
              honest = ask-IsHonest r.file (record r { prev = r.status }) refl k;
              seen = ask-seen r.file (record r { prev = r.status }) refl;
            })
      | inr e1 ↦ rw (e, e1, watch) (record { honest = seen-IsHonest r.status r h; seen = refl })
    ]
  ]

  watch_seen : (r : Resume N) → r.prev ≡ r.status → IsHonest r → IsSettled (watch r)
  unfolding watch
  watch_seen r same h =
      let over : has_ended r.status r.prev ≡ false =
        ap (has_ended r.status) same ∙ has_ended-same r.status in
      elim (Bool-cases (is_running r.status)) [
        | inl e ↦ rw (e, watch) (record { honest = hide-IsHonest r.status r h; seen = refl })
        | inr e ↦ rw (e, over, watch) (record { honest = seen-IsHonest r.status r h; seen = refl })
      ]

  with_status-IsHonest :
      (s : Option TransferStatus) (r : Resume N) → IsHonest r → IsHonest (record r { status = s })
  with_status-IsHonest s r (IsHonest.rests e o) = IsHonest.rests e o
  with_status-IsHonest s r (IsHonest.waits f e k) = IsHonest.waits f e k

  answer_waiting :
      (f : SelectedFile) (r : Resume N)
      → r.asked ≡ f ∷ []
      → answer 0 (check f) r ≡ record r { info = usable (check f); asked = [] }
  unfolding answer
  answer_waiting f r e = simp (e, answer)

  answer-IsSettled :
      (f : SelectedFile) (r : Resume N)
      → r.asked ≡ f ∷ []
      → IsSettled r
      → IsSettled (answer 0 (check f) r)
  answer-IsSettled f r e h = subst IsSettled (sym (answer_waiting f r e)) (own h.honest)
    where
      own : IsHonest r → IsSettled (record r { info = usable (check f); asked = [] })
      own (IsHonest.rests k o) = absurd (cc (e, k))
      own (IsHonest.waits g k file) = record {
        honest = IsHonest.rests refl (inr (f, file ∙ ap some (cc), refl));
        seen = h.seen;
      }

  Step-IsSettled : {r r' : Resume N} → Step r r' → IsSettled r → IsSettled r'
  unfolding pick set_status
  Step-IsSettled {r} (picked f k) h =
      watch_seen (ask f (record r { file = f })) (ask-seen f (record r { file = f }) h.seen)
        (ask-IsHonest f (record r { file = f }) refl k)
  Step-IsSettled {r} (changed s k) h =
      watch_resting (record r { status = s }) k (with_status-IsHonest s r h.honest)
  Step-IsSettled {r} (answered f k) h = answer-IsSettled f r k h

  Reach-IsSettled : {r : Resume N} → Reach r → IsSettled r
  Reach-IsSettled start = record { honest = IsHonest.rests refl (inl refl); seen = refl }
  Reach-IsSettled (next r st) = Step-IsSettled st (Reach-IsSettled r)

  rests-IsOwn : (r : Resume N) → r.asked ≡ [] → IsHonest r → IsOwn r
  rests-IsOwn r k (IsHonest.rests e o) = o
  rests-IsOwn r k (IsHonest.waits f e file) = absurd (cc (e, k))

  -- If every check is answered before another file is picked or the transfer's status changes,
  -- and the answer depends on the file alone, the banner, when no check waits, is off or what
  -- the check of the selected file has answered.
  pub Reach-IsOwn : {r : Resume N} → Reach r → r.asked ≡ [] → IsOwn r
  Reach-IsOwn {r} reach k = rests-IsOwn r k (Reach-IsSettled reach).honest

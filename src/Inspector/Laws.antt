-- ===== src/Inspector/Laws.antt =====
-- Whose configuration the form holds, and what is saved for which node.
use fast_share.Common.{
  ◌≡◌, refl, Bool, true, false, none, some, List, [], ◌∷◌, arith, ◌≤◌, inl, ℕ, inr,
}
use fast_share.Common.Tests.{Bool-cases, Option-cases}
use fast_share.Common.Number.{Number}
use fast_share.Topology.{TopologyNode}
use fast_share.Inspector.{
  Form, LatencyText, Inspector, Edit, from_node, opened, settle, validate, patch, save, answered,
  show_node, edit,
}

module _ {N : Type 0} ⦃num : Number N⦄ (texts : LatencyText N) where
  abbrev pub edits : List (Edit N) → Inspector N → Inspector N
  edits [] s = s
  edits (e ∷ es) s = edits es (edit texts e s)

  -- Without unsaved changes the form is that of the node shown.
  abbrev pub IsSynced : Inspector N → Type 0
  IsSynced s = s.dirty ≡ false → s.form ≡ from_node texts s.node

  settle-IsSynced : (s : Inspector N) → IsSynced (settle texts s)
  unfolding settle
  settle-IsSynced s = elim (Bool-cases s.dirty) [
    | inl e ↦ rw (e, settle) (λ h. cc)
    | inr e ↦ rw (e, settle) (λ h. refl)
  ]

  save-IsSynced : (s : Inspector N) → IsSynced s → IsSynced (save texts s).0
  unfolding save
  save-IsSynced s h = elim (Option-cases (validate texts s.form)) [
    | inl e ↦ rw (e, save) h
    | inr (msg, e) ↦ rw (e, save) h
  ]

  answered-IsSynced : (ok : Bool) (s : Inspector N) → IsSynced s → IsSynced (answered texts ok s)
  unfolding answered
  answered-IsSynced true s h = settle-IsSynced (record s { dirty = false; error = none })
  answered-IsSynced false s h = h

  edit-IsSynced : (e : Edit N) (s : Inspector N) → IsSynced s → IsSynced (edit texts e s)
  unfolding edit show_node
  edit-IsSynced (Edit.node_shown node) s h = settle-IsSynced (record s { node = node })
  edit-IsSynced (Edit.latency_typed v) s h = λ d. cc
  edit-IsSynced (Edit.loss_toggled v) s h = λ d. cc
  edit-IsSynced (Edit.loss_picked v) s h = λ d. cc
  edit-IsSynced (Edit.corrupt_toggled v) s h = λ d. cc
  edit-IsSynced (Edit.corrupt_picked v) s h = λ d. cc
  edit-IsSynced (Edit.enabled_toggled v) s h = λ d. cc
  edit-IsSynced Edit.save_begun s h = save-IsSynced s h
  edit-IsSynced (Edit.save_answered ok) s h = answered-IsSynced ok s h
  edit-IsSynced (Edit.reset_answered ok) s h = answered-IsSynced ok s h

  edits-keep : (es : List (Edit N)) (s : Inspector N) → IsSynced s → IsSynced (edits es s)
  edits-keep [] s h = h
  edits-keep (e ∷ es) s h = edits-keep es (edit texts e s) (edit-IsSynced e s h)

  -- Whatever is typed, saved, reset, refused or shown in whatever order, a form without unsaved
  -- changes holds the configuration of the node shown.
  pub edits-IsSynced :
      (es : List (Edit N)) (node : TopologyNode N)
      → (edits es (opened texts node)).dirty ≡ false
      → (edits es (opened texts node)).form ≡ from_node texts (edits es (opened texts node)).node
  edits-IsSynced es node = edits-keep es (opened texts node) (λ d. refl)

  -- The latency is a whole number of milliseconds that the backend takes.
  abbrev pub IsInRange : Form N → Type 0
  IsInRange f = (n : ℕ) × (texts.integer_of f.latency ≡ some n) × (1 ≤ n) × (n ≤ 1000)

  validate-none : (f : Form N) → IsInRange f → validate texts f ≡ none
  unfolding validate
  validate-none f (n, e, lo, hi) = rw (e, validate) (ground arith)

  none-validate : (f : Form N) → validate texts f ≡ none → IsInRange f
  unfolding validate
  none-validate f h = elim (Option-cases (texts.integer_of f.latency)) [
    | inl e ↦ absurd (cc (rw (e, validate) at h))
    | inr (n, e) ↦
        (n, e, ground (arith, (rw (e, validate) at h)), ground (arith, (rw (e, validate) at h)))
  ]

  save_sends :
      (s : Inspector N)
      → validate texts s.form ≡ none
      → (save texts s).1 ≡ some (patch texts s.node.id s.form)
  unfolding save
  save_sends s e = rw (e, save) refl

  -- Changes that are unsaved when another node is shown stay in the form, and saving them sends
  -- them, with every other value of the form, for the other node, if the latency is in range.
  pub save-show_node :
      (s : Inspector N) (other : TopologyNode N)
      → s.dirty ≡ true
      → IsInRange s.form
      → (save texts (show_node texts other s)).1 ≡ some (patch texts other.id s.form)
  unfolding save show_node settle
  save-show_node s other d r =
      rw (d, show_node, settle)
        (save_sends (record s { node = other; dirty = true }) (validate-none s.form r))

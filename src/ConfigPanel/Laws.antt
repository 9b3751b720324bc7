-- ===== src/ConfigPanel/Laws.antt =====
-- What leaving the window field does, and what the controls send on a single path.
use fast_share.Topology.{TopologySnapshot}
use fast_share.ConfigPanel.Policy.{Sent, Control, sends}
use fast_share.Common.{◌≡◌, ◌↔◌, refl, true, false, none, some, arith, inl, inr, Bool, [], ◌∷◌}
use mathlib.Core.Option.{some-injective}
use fast_share.Common.{sym, ◌∙◌, ◌⊎◌}
use fast_share.Common.Tests.{Bool-cases, Option-cases}
use fast_share.Common.Number.{Number, eq}
use fast_share.ConfigPanel.{NumberText, WindowField, first_field, takes, commit_window, is_multi}
use fast_share.Common.Text.{Text}

module _ {N : Type 0} ⦃num : Number N⦄ (texts : NumberText N) where
  -- The draft is a number between 4 and 10000 that is not the window.
  abbrev pub IsNewWindow : WindowField N → N → Type 0
  IsNewWindow f n =
      (texts.finite_of f.draft ≡ some n)
      × (num.le (num.of_nat 4) n ≡ true)
      × (num.le n (num.of_nat 10000) ≡ true)
      × (eq n f.window ≡ false)

  takes_iff :
      (n window : N)
      → (takes n window ≡ true)
        ↔ (num.le (num.of_nat 4) n ≡ true)
          × (num.le n (num.of_nat 10000) ≡ true)
          × (eq n window ≡ false)
  takes_iff n window = (λ h. ground (arith, h), λ h. ground (arith, h.0, h.1, h.2))

  -- The two ends of leaving the field.
  commit_refused :
      (f : WindowField N)
      → ((m : N) → texts.finite_of f.draft ≡ some m → takes m f.window ≡ false)
      → commit_window texts f ≡ (first_field texts f.window, none)
  unfolding commit_window
  commit_refused f h = elim (Option-cases (texts.finite_of f.draft)) [
    | inl e ↦ rw (e, commit_window) refl
    | inr (m, e) ↦ rw (e, h m e, commit_window) refl
  ]

  commit_taken :
      (f : WindowField N) (m : N)
      → texts.finite_of f.draft ≡ some m
      → takes m f.window ≡ true
      → commit_window texts f ≡ (f, some m)
  unfolding commit_window
  commit_taken f m e t = rw (e, t, commit_window) refl

  -- Leaving the window field passes the number on and keeps the draft if the draft is a finite
  -- number between 4 and 10000 other than the window, and otherwise passes nothing on and puts
  -- the window's own text back.
  commit_window-takes :
      (f : WindowField N)
      → ((n : N) × IsNewWindow f n × (commit_window texts f ≡ (f, some n)))
        ⊎ (((n : N) → ¬ IsNewWindow f n)
            × (commit_window texts f ≡ (first_field texts f.window, none)))
  commit_window-takes f = elim (Option-cases (texts.finite_of f.draft)) [
    | inl e ↦ inr (λ n h. cc (e, h.0), commit_refused f (λ m k. cc (e, k)))
    | inr (m, e) ↦ elim (Bool-cases (takes m f.window)) [
      | inl t ↦
          let (lo, hi, ne) = (takes_iff m f.window).0 t in
          inl (m, (e, lo, hi, ne), commit_taken f m e t)
      | inr t ↦ inr (
        λ n h. cc ((takes_iff n f.window).1 (h.1, h.2, h.3), t, some-injective m n (sym e ∙ h.0)),
        commit_refused f (λ n k. rw (some-injective n m (sym k ∙ e)) t),
      )
    ]
  ]

module _ {N : Type 0} ⦃num : Number N⦄ where
  -- On a star, which has a single path, only the preset can be changed.
  single-sends :
      (texts : NumberText N) (busy transferring : Bool) (t : TopologySnapshot N) (c : Control N)
      → is_multi t ≡ false
      → (sends texts busy transferring t c ≡ [])
        ⊎ ((name : Text) × (sends texts busy transferring t c ≡ Sent.preset name ∷ []))
  unfolding sends
  single-sends texts true transferring t (Control.preset_chosen name) h = inl refl
  single-sends texts false true t (Control.preset_chosen name) h = inl refl
  single-sends texts false false t (Control.preset_chosen name) h = inr (name, refl)
  single-sends texts busy transferring t Control.switched h = inl (ground arith)
  single-sends texts busy transferring t (Control.flag_chosen v) h = inl (ground arith)
  single-sends texts busy transferring t (Control.probe_chosen v) h = inl (ground arith)
  single-sends texts busy transferring t (Control.window_left f) h = inl (ground arith)

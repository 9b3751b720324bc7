-- ===== src/PacketLayer/Render/Frames.antt =====
-- A frame and the drawing after it, at the same moment, agree: the blasts that the frame leaves are
-- all drawn, and the DATA dots are drawn where the frame has put them.
use fast_share.Common.{
  ◌≡◌, refl, sym, ◌∙◌, ◌⊎◌, Bool, true, false, Option, none, some, List, [], ◌∷◌, arith, inl, inr,
}
use mathlib.Core.Path.{subst}
use fast_share.Common.Tests.{or_else, is_some, Bool-cases}
use fast_share.Common.Lists.{All, All-map, select}
use fast_share.Common.Number.{Number}
use fast_share.Anim.{pos_along}
use fast_share.PacketLayer.{Sprite, Blast, Layer, Latest, ack_sprite}
use fast_share.PacketLayer.Ingest.{is_frame}
use fast_share.PacketLayer.Frame.{Fate, fate, frame, is_faded}
use fast_share.PacketLayer.Frame.Kept.{frame-All}
use fast_share.PacketLayer.Frame.Laws.{is_bright, frame-settled}
use fast_share.PacketLayer.Render.{place, draw_blast, elapsed}

All-select {ℓ} : {A : Type ℓ} (p : A → Bool) (xs : List A) → All (λ x. p x ≡ true) (select p xs)
unfolding select
All-select p [] = tt
All-select p (x ∷ xs) = elim (Bool-cases (p x)) [
  | inl e ↦ rw e (e, All-select p xs)
  | inr e ↦ rw e (All-select p xs)
]

or_else_twice {ℓ} : {A : Type ℓ} (o : Option A) (d : A) → or_else o (or_else o d) ≡ or_else o d
or_else_twice none d = refl
or_else_twice (some a) d = refl

module _ {N : Type 0} ⦃num : Number N⦄ (latest : Latest N) (now : N) where
  draw_blast-bright :
      (b : Blast N) → is_bright latest now b ≡ true → is_some (draw_blast latest.speed now b) ≡ true
  unfolding draw_blast is_faded
  draw_blast-bright b h = ground arith

  frame-blasts :
      (l : Layer N)
      → All (λ b. is_some (draw_blast latest.speed now b) ≡ true) (frame latest now l).blasts
  frame-blasts l =
      let (sprites, id, blasts, cursor) = frame-settled latest now l in
      subst (All (λ b. is_some (draw_blast latest.speed now b) ≡ true)) (sym blasts) (
        All-map (select (is_bright latest now) l.blasts) draw_blast-bright
          (All-select (is_bright latest now) l.blasts))

  fate_keep-dir :
      (s s' : Sprite N) → (fate latest now s).0 ≡ Fate.keep s' → is_frame s'.dir ≡ is_frame s.dir
  unfolding fate
  fate_keep-dir s s' e = ground arith

  fate_keep-place :
      (s s' : Sprite N)
      → is_frame s.dir ≡ true
      → (fate latest now s).0 ≡ Fate.keep s'
      → place latest.speed now s' ≡ s'.pos
  unfolding fate place
  fate_keep-place s s' d e =
      ground (arith, or_else_twice (pos_along s.path s.timings (elapsed latest.speed now s)) s.pos)

  -- An ACK dot, or a DATA dot that is drawn where it is stored.
  abbrev pub IsPlaced : Sprite N → Type 0
  IsPlaced s = (is_frame s.dir ≡ false) ⊎ (place latest.speed now s ≡ s.pos)

  abbrev Any : Sprite N → Type 0
  Any s = Unit

  All-Any : (xs : List (Sprite N)) → All Any xs
  All-Any [] = tt
  All-Any (x ∷ xs) = (tt, All-Any xs)

  keep-IsPlaced : (s s' : Sprite N) → Any s → (fate latest now s).0 ≡ Fate.keep s' → IsPlaced s'
  keep-IsPlaced s s' u e = elim (Bool-cases (is_frame s.dir)) [
    | inl d ↦ inr (fate_keep-place s s' d e)
    | inr d ↦ inl (fate_keep-dir s s' e ∙ d)
  ]

  -- Drawn at the moment of a frame, with its speed, every DATA dot that the frame leaves stands
  -- where the frame has stored it, and every blast that it leaves is drawn.
  pub frame-IsPlaced :
      (l : Layer N)
      → All IsPlaced (frame latest now l).sprites
        × All (λ b. is_some (draw_blast latest.speed now b) ≡ true) (frame latest now l).blasts
  unfolding ack_sprite
  frame-IsPlaced l = (
    frame-All latest now Any IsPlaced keep-IsPlaced (λ id seq retries lane pts e. inl refl) l
        (All-Any l.sprites),
    frame-blasts l,
  )

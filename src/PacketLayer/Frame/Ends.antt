-- ===== src/PacketLayer/Frame/Ends.antt =====
-- Every dot ends: two frames after its time only DATA dots are left that wait for their ACK.
use fast_share.Common.{ℕ, ◌≡◌, ◌≢◌, refl, ◌∙◌, true, false, List, [], ◌∷◌, arith, inl, inr, ◌⊎◌}
use fast_share.Common.Lists.{All, All-snoc, rev_onto, select, All-map}
use fast_share.Common.Number.{Number}
use fast_share.PacketLayer.{Sprite, Blast, Layer, Latest, timeout_fade, blast_fade, ack_sprite}
use fast_share.PacketLayer.Spawn.{Spawned, spawn_ack-Spawned}
use fast_share.PacketLayer.Ingest.{is_frame, is_timeout}
use fast_share.PacketLayer.Frame.{Fate, fate, is_over, is_faded, is_hold, frame}
use fast_share.PacketLayer.Frame.Sweep.{survivors, settle_one, answer_one, answer_all}
use fast_share.PacketLayer.Frame.Laws.{frame-settled, is_bright}

module _ {N : Type 0} ⦃num : Number N⦄ where
  -- A DATA dot at the end of its lane whose frame has not been answered.
  abbrev pub IsHeld : Sprite N → Type 0
  IsHeld s = (is_frame s.dir ≡ true) × (is_hold s.phase ≡ true) × (s.ack_seen ≡ false)

  -- It is held, or it is an ACK dot.
  abbrev IsQuiet : Sprite N → Type 0
  IsQuiet s = IsHeld s ⊎ (is_frame s.dir ≡ false)

  module _ (latest : Latest N) (now : N) where
    -- The dot has had the time for its lane, and if it has timed out, the time to fade.
    abbrev pub IsDue : Sprite N → Type 0
    IsDue s =
        (is_over latest now s ≡ true)
        × ((is_timeout s.phase ≡ false) ⊎ (is_faded latest now timeout_fade s.timeout_at ≡ true))

    kept-IsHeld : (s s' : Sprite N) → IsDue s → (fate latest now s).0 ≡ Fate.keep s' → IsHeld s'
    unfolding fate
    kept-IsHeld s s' h e = ground (arith, h, e)

    not-answered : (s : Sprite N) → IsQuiet s → (fate latest now s).0 ≢ Fate.answered
    unfolding fate
    not-answered s q e = ground (arith, q, e)

    settle_one-AreHeld :
        (s : Sprite N) (f : Fate N) (ys : List (Sprite N))
        → ((s' : Sprite N) → f ≡ Fate.keep s' → IsHeld s')
        → All IsHeld ys
        → All IsHeld (settle_one latest now s f ys)
    settle_one-AreHeld s (Fate.keep s') ys h k = (h s' refl, k)
    settle_one-AreHeld s Fate.gone ys h k = k
    settle_one-AreHeld s Fate.answered ys h k = k

    survivors-AreHeld : (xs : List (Sprite N)) → All IsDue xs → All IsHeld (survivors latest now xs)
    survivors-AreHeld [] h = tt
    survivors-AreHeld (s ∷ xs) h =
        settle_one-AreHeld s (fate latest now s).0 (survivors latest now xs)
          (λ s' e. kept-IsHeld s s' h.0 e) (survivors-AreHeld xs h.1)

    Spawned-AreQuiet :
        (seq retries : ℕ) (at : N) (lane : ℕ) (l l' : Layer N)
        → Spawned latest seq retries at lane l l'
        → All IsQuiet l.sprites
        → All IsQuiet l'.sprites
    unfolding ack_sprite
    Spawned-AreQuiet seq retries at lane l l' (Spawned.no_path e same) h = rw same h
    Spawned-AreQuiet seq retries at lane l l' (Spawned.pushed pts e same) h =
        rw same (All-snoc IsQuiet l.sprites _ h (inr refl))

    answer_one-AreQuiet :
        (s : Sprite N) (f : Fate N) (l : Layer N)
        → All IsQuiet l.sprites
        → All IsQuiet (answer_one latest now s f l).sprites
    answer_one-AreQuiet s (Fate.keep s') l h = h
    answer_one-AreQuiet s Fate.gone l h = h
    answer_one-AreQuiet s Fate.answered l h =
        Spawned-AreQuiet s.seq s.retries now s.lane l _
          (spawn_ack-Spawned latest s.seq s.retries now s.lane l) h

    answer_all-AreQuiet :
        (rs : List (Sprite N)) (l : Layer N)
        → All IsQuiet l.sprites
        → All IsQuiet (answer_all latest now rs l).sprites
    answer_all-AreQuiet [] l h = h
    answer_all-AreQuiet (s ∷ rs) l h =
        answer_all-AreQuiet rs _ (answer_one-AreQuiet s (fate latest now s).0 l h)

    -- The first frame answers what it can.
    frame-AreQuiet : (l : Layer N) → All IsDue l.sprites → All IsQuiet (frame latest now l).sprites
    frame-AreQuiet l h = rw (frame-settled latest now l).0 (
        answer_all-AreQuiet (rev_onto l.sprites [])
          (record l { sprites = survivors latest now l.sprites })
          (All-map (survivors latest now l.sprites) (λ s k. inl k) (survivors-AreHeld l.sprites h)))

    answer_one-id :
        (s : Sprite N) (f : Fate N) (l : Layer N)
        → f ≢ Fate.answered
        → answer_one latest now s f l ≡ l
    answer_one-id s (Fate.keep s') l h = refl
    answer_one-id s Fate.gone l h = refl
    answer_one-id s Fate.answered l h = absurd (h refl)

    answer_all-id :
        (rs : List (Sprite N)) (l : Layer N) → All IsQuiet rs → answer_all latest now rs l ≡ l
    answer_all-id [] l h = refl
    answer_all-id (s ∷ rs) l h =
        answer_all-id rs (answer_one latest now s (fate latest now s).0 l) h.1
        ∙ answer_one-id s (fate latest now s).0 l (not-answered s h.0)

    All-rev_onto :
        (xs ys : List (Sprite N)) → All IsQuiet xs → All IsQuiet ys → All IsQuiet (rev_onto xs ys)
    All-rev_onto [] ys h k = k
    All-rev_onto (x ∷ xs) ys h k = All-rev_onto xs (x ∷ ys) h.1 (h.0, k)

    -- The second frame has nothing left to answer.
    frame-AreHeld :
        (l : Layer N)
        → All IsDue l.sprites
        → All IsQuiet l.sprites
        → All IsHeld (frame latest now l).sprites
    frame-AreHeld l h q =
        let kept : Layer N = record l { sprites = survivors latest now l.sprites } in
        rw (frame-settled latest now l).0 (
          rw (answer_all-id (rev_onto l.sprites []) kept (All-rev_onto l.sprites [] q tt))
            (survivors-AreHeld l.sprites h))

    All-faded :
        (bs : List (Blast N))
        → All (λ b. is_faded latest now blast_fade b.at ≡ true) bs
        → select (is_bright latest now) bs ≡ []
    unfolding select
    All-faded [] h = refl
    All-faded (b ∷ bs) h = rw h.0 (All-faded bs h.1)

  -- Every dot ends: after two frames, each at a time at which every dot has had the time for its
  -- lane and, if it has timed out, the time to fade, and every blast of the first has faded at
  -- the second, only DATA dots are left that stand at the end of their lane and wait for their
  -- ACK, and no blast is.
  pub frames-AreHeld :
      (latest later : Latest N) (now at : N) (l : Layer N)
      → All (IsDue latest now) l.sprites
      → All (IsDue later at) (frame latest now l).sprites
      → All (λ b. is_faded later at blast_fade b.at ≡ true) (frame latest now l).blasts
      → All IsHeld (frame later at (frame latest now l)).sprites
        × ((frame later at (frame latest now l)).blasts ≡ [])
  frames-AreHeld latest later now at l h k b =
      let (sprites, next, blasts, last) = frame-settled later at (frame latest now l) in
      (
        frame-AreHeld later at (frame latest now l) k (frame-AreQuiet latest now l h),
        blasts ∙ All-faded later at (frame latest now l).blasts b,
      )

-- ===== src/PacketLayer/Frame/Laws.antt =====
-- What a frame does to the whole state: its description, and the ids of the sprites.
use fast_share.Common.{
  ℕ, suc, ◌≤◌, ◌≡◌, refl, ap, sym, ◌∙◌, Bool, true, false, not, List, [], ◌∷◌, arith, inl, inr,
}
use fast_share.Common.Tests.{Bool-cases, if◌then◌else◌}
use fast_share.Common.Lists.{length, rev_onto, select}
use fast_share.Common.Counting.{IsAscending, IsAscending-lower}
use fast_share.Common.Number.{Number}
use fast_share.PacketLayer.{Sprite, Blast, Layer, Latest, blast_fade, spawn_ack}
use fast_share.PacketLayer.Spawn.{spawn_ack-Spawned}
use fast_share.PacketLayer.Ingest.Keys.{IsKeyed, IsKeyed-Spawned}
use fast_share.PacketLayer.Frame.{Fate, fate, is_faded, visit_blast, sweep_blasts, sweep, frame}
use fast_share.PacketLayer.Frame.Sweep.{
  at_end, remove_at_end, length-rev, survivors, settle_one, answer_one, answer_all, settled,
  sweep-settled, rev-rev,
}

module _ {N : Type 0} ⦃num : Number N⦄ (latest : Latest N) (now : N) where
  abbrev pub is_bright : Blast N → Bool
  is_bright b = not (is_faded latest now blast_fade b.at)

  select_onto : List (Blast N) → List (Blast N) → List (Blast N)
  select_onto [] ys = ys
  select_onto (b ∷ rs) ys = select_onto rs (if is_bright b then b ∷ ys else ys)

  sweep_blasts-select :
      (rs ys : List (Blast N)) (c : Bool)
      → (sweep_blasts latest now (length rs) (rev_onto rs ys, c)).0 ≡ select_onto rs ys
  unfolding sweep_blasts visit_blast select_onto
  sweep_blasts-select [] ys c = refl
  sweep_blasts-select (b ∷ rs) ys c = elim (Bool-cases (is_faded latest now blast_fade b.at)) [
    | inl e ↦
        rw (at_end rs b ys, e, remove_at_end rs b ys, sweep_blasts, visit_blast)
          (sweep_blasts-select rs ys true)
    | inr e ↦ rw (at_end rs b ys, e, sweep_blasts, visit_blast) (sweep_blasts-select rs (b ∷ ys) c)
  ]

  select_onto-rev :
      (bs rs : List (Blast N))
      → select_onto (rev_onto bs rs) [] ≡ select_onto rs (select is_bright bs)
  unfolding select_onto select
  select_onto-rev [] rs = refl
  select_onto-rev (b ∷ bs) rs = select_onto-rev bs (b ∷ rs)

  sweep_blasts-bright :
      (bs : List (Blast N)) (c : Bool)
      → (sweep_blasts latest now (length bs) (bs, c)).0 ≡ select is_bright bs
  unfolding select_onto
  sweep_blasts-bright bs c =
      let size : length (rev_onto bs []) ≡ length bs = omega (arith, length-rev bs []) in
      ap (λ n. (sweep_blasts latest now n (bs, c)).0) (sym size)
      ∙ ap (λ xs. (sweep_blasts latest now (length (rev_onto bs [])) (xs, c)).0) (sym (rev-rev bs))
      ∙ sweep_blasts-select (rev_onto bs []) [] c
      ∙ select_onto-rev bs []

  answer_one-blasts :
      (s : Sprite N) (f : Fate N) (l : Layer N)
      → ((answer_one latest now s f l).blasts ≡ l.blasts)
        × ((answer_one latest now s f l).last_id ≡ l.last_id)
  unfolding spawn_ack
  answer_one-blasts s (Fate.keep s') l = (refl, refl)
  answer_one-blasts s Fate.gone l = (refl, refl)
  answer_one-blasts s Fate.answered l = ground arith

  pub answer_all-blasts :
      (rs : List (Sprite N)) (l : Layer N)
      → ((answer_all latest now rs l).blasts ≡ l.blasts)
        × ((answer_all latest now rs l).last_id ≡ l.last_id)
  answer_all-blasts [] l = (refl, refl)
  answer_all-blasts (s ∷ rs) l =
      let (bs, last) = answer_all-blasts rs (answer_one latest now s (fate latest now s).0 l) in
      let (bs', last') = answer_one-blasts s (fate latest now s).0 l in (bs ∙ bs', last ∙ last')

  -- A frame, its loops running backwards over arrays that they splice and push to, leaves the
  -- surviving sprites in their order, then one ACK dot for each answered sprite that has a path,
  -- the last first; of the blasts exactly those that have not faded; and the event cursor as it
  -- was.
  pub frame-settled :
      (l : Layer N)
      → ((frame latest now l).sprites ≡ (settled latest now l).sprites)
        × ((frame latest now l).next_id ≡ (settled latest now l).next_id)
        × ((frame latest now l).blasts ≡ select is_bright l.blasts)
        × ((frame latest now l).last_id ≡ l.last_id)
  unfolding frame
  frame-settled l =
      let same = sweep-settled latest now l false in
      let (bs, last) =
        answer_all-blasts (rev_onto l.sprites [])
          (record l { sprites = survivors latest now l.sprites }) in
      let swept : Layer N = (sweep latest now (length l.sprites) (l, false)).0 in
      (
        ap (λ (m : Layer N). m.sprites) same,
        ap (λ (m : Layer N). m.next_id) same,
        sweep_blasts-bright swept.blasts _
            ∙ ap (select is_bright) (ap (λ (m : Layer N). m.blasts) same ∙ bs),
        ap (λ (m : Layer N). m.last_id) same ∙ last,
      )

  fate_keep-id : (s s' : Sprite N) → (fate latest now s).0 ≡ Fate.keep s' → s'.id ≡ s.id
  unfolding fate
  fate_keep-id s s' e = ground arith

  settle_one-IsAscending :
      (s : Sprite N) (f : Fate N) (lo : ℕ) (ys : List (Sprite N)) (hi : ℕ)
      → ((s' : Sprite N) → f ≡ Fate.keep s' → s'.id ≡ s.id)
      → lo ≤ s.id
      → IsAscending (λ x. x.id) (suc s.id) ys hi
      → IsAscending (λ x. x.id) lo (settle_one latest now s f ys) hi
  settle_one-IsAscending s (Fate.keep s') lo ys hi h k asc = let e = h s' refl in rw e (k, asc)
  settle_one-IsAscending s Fate.gone lo ys hi h k asc =
      IsAscending-lower (λ x. x.id) (suc s.id) lo ys hi (omega arith) asc
  settle_one-IsAscending s Fate.answered lo ys hi h k asc =
      IsAscending-lower (λ x. x.id) (suc s.id) lo ys hi (omega arith) asc

  survivors-IsAscending :
      (lo : ℕ) (xs : List (Sprite N)) (hi : ℕ)
      → IsAscending (λ x. x.id) lo xs hi
      → IsAscending (λ x. x.id) lo (survivors latest now xs) hi
  survivors-IsAscending lo [] hi h = h
  survivors-IsAscending lo (s ∷ xs) hi h =
      settle_one-IsAscending s (fate latest now s).0 lo (survivors latest now xs) hi
        (fate_keep-id s) h.0 (survivors-IsAscending (suc s.id) xs hi h.1)

  answer_one-IsKeyed :
      (s : Sprite N) (f : Fate N) (l : Layer N) → IsKeyed l → IsKeyed (answer_one latest now s f l)
  answer_one-IsKeyed s (Fate.keep s') l k = k
  answer_one-IsKeyed s Fate.gone l k = k
  answer_one-IsKeyed s Fate.answered l k =
      IsKeyed-Spawned latest s.seq s.retries now s.lane l _
        (spawn_ack-Spawned latest s.seq s.retries now s.lane l) k

  answer_all-IsKeyed :
      (rs : List (Sprite N)) (l : Layer N) → IsKeyed l → IsKeyed (answer_all latest now rs l)
  answer_all-IsKeyed [] l k = k
  answer_all-IsKeyed (s ∷ rs) l k =
      answer_all-IsKeyed rs _ (answer_one-IsKeyed s (fate latest now s).0 l k)

  select-IsAscending :
      (lo : ℕ) (bs : List (Blast N)) (hi : ℕ)
      → IsAscending (λ b. b.id) lo bs hi
      → IsAscending (λ b. b.id) lo (select is_bright bs) hi
  unfolding select
  select-IsAscending lo [] hi h = h
  select-IsAscending lo (b ∷ bs) hi h = elim (Bool-cases (is_faded latest now blast_fade b.at)) [
    | inl e ↦ rw e (
        IsAscending-lower (λ b. b.id) (suc b.id) lo (select is_bright bs) hi (omega arith)
          (select-IsAscending (suc b.id) bs hi h.1))
    | inr e ↦ rw e (h.0, select-IsAscending (suc b.id) bs hi h.1)
  ]

  -- A frame keeps the ids of the sprites, and those of the blasts, distinct and below the counter,
  -- also where it removes sprites and spawns ACK dots in the loop.
  pub frame-IsKeyed : (l : Layer N) → IsKeyed l → IsKeyed (frame latest now l)
  frame-IsKeyed l k =
      let (sprites, next, blasts, last) = frame-settled l in
      let kept =
        answer_all-IsKeyed (rev_onto l.sprites [])
          (record l { sprites = survivors latest now l.sprites })
          (record {
            sprites = survivors-IsAscending 0 l.sprites l.next_id k.sprites;
            blasts = k.blasts;
          }) in
      let old =
        answer_all-blasts (rev_onto l.sprites [])
          (record l { sprites = survivors latest now l.sprites }) in
      record {
        sprites = rw (sprites, next) kept.sprites;
        blasts = rw (blasts, next) (select-IsAscending 0 l.blasts _ (rw old.0 at kept.blasts));
      }

-- ===== src/PacketLayer/Frame/Sweep.antt =====
-- The backward, in-place loop of a frame against its description: the sprites that stay keep their
-- order, and the ACK dots of the answered ones follow, the last one first.
use fast_share.Common.{ℕ, suc, ◌+◌, ◌≡◌, refl, ap, sym, ◌∙◌, Bool, some, List, [], ◌∷◌, ◌++◌, arith}
use mathlib.Core.List.{append-nil}
use fast_share.Common.{inl, inr}
use fast_share.Common.Tests.{Option-cases}
use fast_share.Common.Lists.{length, get_elem?, set, remove_at, rev_onto}
use fast_share.Common.Number.{Number}
use fast_share.Canvas.Graph.Paths.{lane_path}
use fast_share.PacketLayer.{Sprite, Layer, Latest, ack_sprite, spawn_ack, graph_of}
use fast_share.PacketLayer.Frame.{Fate, fate, apply_fate, visit, sweep}

module _ {ℓ} {A : Type ℓ} where
  get_elem?-rev_onto :
      (rs ys : List A) (k : ℕ) → get_elem? (rev_onto rs ys) (length rs + k) ≡ get_elem? ys k
  get_elem?-rev_onto [] ys k = let e : 0 + k ≡ k = omega arith in rw e
  get_elem?-rev_onto (r ∷ rs) ys k =
      let e : suc (length rs) + k ≡ length rs + suc k = omega arith in
      rw e (get_elem?-rev_onto rs (r ∷ ys) (suc k))

  set-rev_onto :
      (rs ys : List A) (k : ℕ) (v : A)
      → set (rev_onto rs ys) (length rs + k) v ≡ rev_onto rs (set ys k v)
  set-rev_onto [] ys k v = let e : 0 + k ≡ k = omega arith in rw e
  set-rev_onto (r ∷ rs) ys k v =
      let e : suc (length rs) + k ≡ length rs + suc k = omega arith in
      rw e (set-rev_onto rs (r ∷ ys) (suc k) v)

  remove_at-rev_onto :
      (rs ys : List A) (k : ℕ)
      → remove_at (rev_onto rs ys) (length rs + k) ≡ rev_onto rs (remove_at ys k)
  remove_at-rev_onto [] ys k = let e : 0 + k ≡ k = omega arith in rw e
  remove_at-rev_onto (r ∷ rs) ys k =
      let e : suc (length rs) + k ≡ length rs + suc k = omega arith in
      rw e (remove_at-rev_onto rs (r ∷ ys) (suc k))

  -- The element behind a prefix of length `length rs`.
  pub at_end :
      (rs : List A) (x : A) (ys : List A) → get_elem? (rev_onto rs (x ∷ ys)) (length rs) ≡ some x
  at_end rs x ys =
      let e : length rs ≡ length rs + 0 = omega arith in
      ap (get_elem? (rev_onto rs (x ∷ ys))) e ∙ get_elem?-rev_onto rs (x ∷ ys) 0

  set_at_end :
      (rs : List A) (x v : A) (ys : List A)
      → set (rev_onto rs (x ∷ ys)) (length rs) v ≡ rev_onto rs (v ∷ ys)
  set_at_end rs x v ys =
      let e : length rs ≡ length rs + 0 = omega arith in
      ap (λ i. set (rev_onto rs (x ∷ ys)) i v) e ∙ set-rev_onto rs (x ∷ ys) 0 v

  pub remove_at_end :
      (rs : List A) (x : A) (ys : List A)
      → remove_at (rev_onto rs (x ∷ ys)) (length rs) ≡ rev_onto rs ys
  remove_at_end rs x ys =
      let e : length rs ≡ length rs + 0 = omega arith in
      ap (remove_at (rev_onto rs (x ∷ ys))) e ∙ remove_at-rev_onto rs (x ∷ ys) 0

  rev_onto-snoc : (rs ys : List A) (x : A) → rev_onto rs (ys ++ x ∷ []) ≡ rev_onto rs ys ++ x ∷ []
  rev_onto-snoc [] ys x = refl
  rev_onto-snoc (r ∷ rs) ys x = rev_onto-snoc rs (r ∷ ys) x

  pub length-rev : (rs ys : List A) → length (rev_onto rs ys) ≡ length rs + length ys
  length-rev [] ys = omega arith
  length-rev (r ∷ rs) ys = omega (arith, length-rev rs (r ∷ ys))

  rev_onto-rev_onto : (rs ys zs : List A) → rev_onto (rev_onto rs ys) zs ≡ rev_onto ys (rs ++ zs)
  rev_onto-rev_onto [] ys zs = refl
  rev_onto-rev_onto (r ∷ rs) ys zs = rev_onto-rev_onto rs (r ∷ ys) zs

  pub rev-rev : (xs : List A) → rev_onto (rev_onto xs []) [] ≡ xs
  rev-rev xs = rev_onto-rev_onto xs [] [] ∙ append-nil xs

module _ {N : Type 0} ⦃num : Number N⦄ (latest : Latest N) (now : N) where
  -- A sprite with its fate, in front of those that stay.
  abbrev pub settle_one : Sprite N → Fate N → List (Sprite N) → List (Sprite N)
  settle_one s (Fate.keep s') ys = s' ∷ ys
  settle_one s Fate.gone ys = ys
  settle_one s Fate.answered ys = ys

  abbrev pub answer_one : Sprite N → Fate N → Layer N → Layer N
  answer_one s (Fate.keep s') l = l
  answer_one s Fate.gone l = l
  answer_one s Fate.answered l = spawn_ack latest s.seq s.retries now s.lane l

  -- the sprites that stay, in their order; `rs` is read backwards
  abbrev pub settle_onto : List (Sprite N) → List (Sprite N) → List (Sprite N)
  settle_onto [] ys = ys
  settle_onto (s ∷ rs) ys = settle_onto rs (settle_one s (fate latest now s).0 ys)

  -- one ACK dot for each answered sprite of `rs`, in the order of `rs`
  abbrev pub answer_all : List (Sprite N) → Layer N → Layer N
  answer_all [] l = l
  answer_all (s ∷ rs) l = answer_all rs (answer_one s (fate latest now s).0 l)

  settle_one-snoc :
      (s : Sprite N) (f : Fate N) (ys : List (Sprite N)) (x : Sprite N)
      → settle_one s f (ys ++ x ∷ []) ≡ settle_one s f ys ++ x ∷ []
  settle_one-snoc s (Fate.keep s') ys x = refl
  settle_one-snoc s Fate.gone ys x = refl
  settle_one-snoc s Fate.answered ys x = refl

  settle_onto-snoc :
      (rs ys : List (Sprite N)) (x : Sprite N)
      → settle_onto rs (ys ++ x ∷ []) ≡ settle_onto rs ys ++ x ∷ []
  settle_onto-snoc [] ys x = refl
  settle_onto-snoc (s ∷ rs) ys x =
      ap (settle_onto rs) (settle_one-snoc s (fate latest now s).0 ys x)
      ∙ settle_onto-snoc rs (settle_one s (fate latest now s).0 ys) x

  -- the loop over the prefix `rs`, `ys` being behind it
  abbrev Settles : List (Sprite N) → Type 0
  Settles rs =
      (ys : List (Sprite N)) (l : Layer N) (c : Bool)
      → (sweep latest now (length rs) (record l { sprites = rev_onto rs ys }, c)).0
        ≡ answer_all rs (record l { sprites = settle_onto rs ys })

  apply_fate-Settles :
      (rs : List (Sprite N))
      → Settles rs
      → (s : Sprite N) (f : Fate N) (ys : List (Sprite N)) (l : Layer N) (c : Bool)
      → (sweep latest now (length rs) (
        apply_fate latest now (length rs) s f (record l { sprites = rev_onto rs (s ∷ ys) }),
        c,
      )).0
        ≡ answer_all rs (answer_one s f (record l { sprites = settle_onto rs (settle_one s f ys) }))
  unfolding apply_fate spawn_ack sweep
  apply_fate-Settles rs ih s (Fate.keep s') ys l c = rw (set_at_end rs s s' ys) (ih (s' ∷ ys) l c)
  apply_fate-Settles rs ih s Fate.gone ys l c = rw (remove_at_end rs s ys) (ih ys l c)
  apply_fate-Settles rs ih s Fate.answered ys l c =
      rw (remove_at_end rs s ys) (elim (Option-cases (lane_path (graph_of latest) (some s.lane))) [
        | inl e ↦ rw (e, spawn_ack) (ih ys l c)
        | inr (pts, e) ↦
            let a = ack_sprite latest l.next_id s.seq s.retries now s.lane pts in
            rw (e, spawn_ack, ← rev_onto-snoc rs ys a, ← settle_onto-snoc rs ys a)
              (ih (ys ++ a ∷ []) (record l { next_id = suc l.next_id }) c)
      ])

  sweep-Settles : (rs : List (Sprite N)) → Settles rs
  unfolding sweep visit
  sweep-Settles [] ys l c = refl
  sweep-Settles (s ∷ rs) ys l c =
      rw (at_end rs s ys, sweep, visit)
        (apply_fate-Settles rs (sweep-Settles rs) s (fate latest now s).0 ys l _)

  -- The sprites that stay, in their order.
  abbrev pub survivors : List (Sprite N) → List (Sprite N)
  survivors [] = []
  survivors (s ∷ xs) = settle_one s (fate latest now s).0 (survivors xs)

  settle_onto-rev :
      (xs rs : List (Sprite N)) → settle_onto (rev_onto xs rs) [] ≡ settle_onto rs (survivors xs)
  settle_onto-rev [] rs = refl
  settle_onto-rev (x ∷ xs) rs = settle_onto-rev xs (x ∷ rs)

  -- What the loop over the sprites leaves.
  abbrev pub settled : Layer N → Layer N
  settled l = answer_all (rev_onto l.sprites []) (record l { sprites = survivors l.sprites })

  pub sweep-settled :
      (l : Layer N) (c : Bool) → (sweep latest now (length l.sprites) (l, c)).0 ≡ settled l
  sweep-settled l c =
      let size : length (rev_onto l.sprites []) ≡ length l.sprites =
        omega (arith, length-rev l.sprites []) in
      let rev : List (Sprite N) = rev_onto l.sprites [] in
      ap (λ n. (sweep latest now n (l, c)).0) (sym size)
      ∙ ap (λ xs. (sweep latest now (length rev) (record l { sprites = xs }, c)).0)
          (sym (rev-rev l.sprites))
      ∙ sweep-Settles rev [] l c
      ∙ ap (λ xs. answer_all rev (record l { sprites = xs })) (settle_onto-rev l.sprites [])

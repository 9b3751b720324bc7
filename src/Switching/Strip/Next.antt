-- ===== src/Switching/Strip/Next.antt =====
-- A change of the flags is marked at the first pick after it.
use fast_share.Common.{
  ℕ, zero, suc, ◌+◌, ◌-◌, ◌*◌, ◌≤◌, ◌<◌, ◌≡◌, refl, sym, ap, ◌∙◌, Bool, true, some, List, [], ◌∷◌,
  ◌++◌, map, arith, inl, inr,
}
use fast_share.Common.Tests.{is_some, Bool-cases}
use fast_share.Common.Lists.{length, drop, select, All, All-map}
use fast_share.Common.Text.{Text}
use fast_share.Topology.{SchedulerLane}
use fast_share.Types.{PacketEntry}
use fast_share.Switching.{Marker, added, differs, was_flagged}
use fast_share.Switching.Strip.{
  Caret, index_from, picks, visible, last_seq, carets, with_caret, ticks,
}

-- A marker's caret below the tick at an index.
abbrev pub caret_at : ℕ → Marker → Caret
caret_at i m = record { left = i * 40 + 15; kind = m.kind; seq = m.seq }

module _ {ℓ} {A : Type ℓ} where
  select-snoc :
      (p : A → Bool) (xs : List A) (x : A)
      → p x ≡ true
      → select p (xs ++ x ∷ []) ≡ select p xs ++ x ∷ []
  unfolding select
  select-snoc p [] x h = rw h refl
  select-snoc p (y ∷ xs) x h = elim (Bool-cases (p y)) [
    | inl e ↦ rw e (ap (λ ys. y ∷ ys) (select-snoc p xs x h))
    | inr e ↦ rw e (select-snoc p xs x h)
  ]

  drop-snoc :
      (n : ℕ) (xs : List A) (x : A) → n ≤ length xs → drop n (xs ++ x ∷ []) ≡ drop n xs ++ x ∷ []
  drop-snoc zero xs x h = refl
  drop-snoc (suc n) [] x h = absurd (omega arith)
  drop-snoc (suc n) (y ∷ xs) x h = drop-snoc n xs x (omega arith)

  length-snoc : (xs : List A) (x : A) → length (xs ++ x ∷ []) ≡ suc (length xs)
  length-snoc [] x = refl
  length-snoc (y ∷ xs) x = ap suc (length-snoc xs x)

  All-drop {κ} : (P : A → Type κ) (n : ℕ) (xs : List A) → All P xs → All P (drop n xs)
  All-drop P zero xs h = h
  All-drop P (suc n) [] h = tt
  All-drop P (suc n) (x ∷ xs) h = All-drop P n xs h.1

module _ {N : Type 0} where
  index_from-snoc :
      (k : ℕ) (rows : List (PacketEntry N)) (p : PacketEntry N)
      → All (λ q. q.seq < p.seq) rows
      → index_from k p.seq (rows ++ p ∷ []) ≡ some (k + length rows)
  unfolding index_from
  index_from-snoc k [] p h = ground arith
  index_from-snoc k (q ∷ rows) p h = ground (arith, h.0, index_from-snoc (suc k) rows p h.1)

  carets-same :
      (seq i : ℕ) (rows : List (PacketEntry N)) (markers : List Marker)
      → index_from 0 seq rows ≡ some i
      → All (λ m. m.seq ≡ seq) markers
      → carets markers rows ≡ map (caret_at i) markers
  unfolding carets
  carets-same seq i rows [] e h = refl
  carets-same seq i rows (m ∷ markers) e h =
      ap (λ s. with_caret (index_from 0 s rows) m (carets markers rows)) h.0
      ∙ ap (λ o. with_caret o m (carets markers rows)) e
      ∙ ap (λ cs. caret_at i m ∷ cs) (carets-same seq i rows markers e h.1)

  added-seq :
      (last : ℕ) (prev : Text) (i : ℕ) (lanes : List (SchedulerLane N))
      → All (λ m. m.seq ≡ suc last) (added last prev i lanes)
  unfolding added
  added-seq last prev i [] = tt
  added-seq last prev i (l ∷ lanes) = elim (Bool-cases (differs l.flagged (was_flagged prev i))) [
    | inl e ↦ rw e (refl, added-seq last prev (suc i) lanes)
    | inr e ↦ rw e (added-seq last prev (suc i) lanes)
  ]

  visible-snoc :
      (packets : List (PacketEntry N)) (p : PacketEntry N)
      → is_some p.lane ≡ true
      → (n : ℕ) × (visible (packets ++ p ∷ []) ≡ drop n (picks packets) ++ p ∷ [])
  unfolding visible picks
  visible-snoc packets p h =
      let xs = picks packets in
      let n = length (xs ++ p ∷ []) - ticks in
      let small : n ≤ length xs = omega (arith, length-snoc xs p) in
      (
        n,
        ap (λ ys. drop (length ys - ticks) ys) (select-snoc (λ q. is_some q.lane) packets p h)
            ∙ drop-snoc n xs p small,
      )

  -- Once the packet with the next number is the newest pick, every marker that a change of the
  -- flags has added after the last pick has its caret below that packet's tick, the last of the
  -- strip, and no other caret is shown for it, if the picks before have lower numbers.
  pub carets-added :
      (packets : List (PacketEntry N)) (p : PacketEntry N) (prev : Text)
      (lanes : List (SchedulerLane N))
      → is_some p.lane ≡ true
      → p.seq ≡ suc (last_seq (picks packets))
      → All (λ q. q.seq < p.seq) (picks packets)
      → carets (added (last_seq (picks packets)) prev 0 lanes) (visible (packets ++ p ∷ []))
        ≡ map
            (caret_at (length (visible (packets ++ p ∷ [])) - 1))
            (added (last_seq (picks packets)) prev 0 lanes)
  carets-added packets p prev lanes h e small =
      let markers = added (last_seq (picks packets)) prev 0 lanes in
      let (n, shown) = visible-snoc packets p h in
      let ys = drop n (picks packets) in
      let found = index_from-snoc 0 ys p (All-drop (λ q. q.seq < p.seq) n (picks packets) small) in
      let size : length (visible (packets ++ p ∷ [])) - 1 ≡ 0 + length ys =
        ap (λ xs. length xs - 1) shown ∙ omega (arith, length-snoc ys p) in
      ap (λ rows. carets markers rows) shown
      ∙ carets-same p.seq (0 + length ys) (ys ++ p ∷ []) markers found
          (All-map markers (λ m k. k ∙ sym e) (added-seq (last_seq (picks packets)) prev 0 lanes))
      ∙ ap (λ i. map (caret_at i) markers) (sym size)

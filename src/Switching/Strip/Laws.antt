-- ===== src/Switching/Strip/Laws.antt =====
-- The carets stand below the ticks of their packets, inside the strip, and the ticks have the
-- colours of the states of the scheduler.
use fast_share.Common.{
  ℕ, zero, suc, ◌+◌, ◌-◌, ◌*◌, ◌≤◌, ◌<◌, ◌≡◌, refl, sym, inl, inr, Option, none, some, List, [],
  ◌∷◌, arith,
}
use fast_share.Common.Tests.{◌==◌, Bool-cases, ==_iff}
use fast_share.Common.Lists.{length, get_elem?, drop, All}
use fast_share.Types.{PacketEntry}
use fast_share.Switching.{Marker}
use fast_share.Switching.Strip.{index_from, picks, visible, carets, with_caret, Caret, ticks}

-- The caret stands below the middle of a tick of the strip, and the tick's row has its number.
abbrev pub IsBelow : {N : Type 0} → List (PacketEntry N) → Caret → Type 0
IsBelow {N} rows c =
    (i : ℕ) × (p : PacketEntry N) × (get_elem? rows i ≡ some p)
    × (p.seq ≡ c.seq)
    × (c.left ≡ i * 40 + 15)
    × (i < ticks)

length-drop {ℓ} : {A : Type ℓ} (n : ℕ) (xs : List A) → length (drop n xs) ≡ length xs - n
length-drop zero xs = omega arith
length-drop (suc n) [] = omega arith
length-drop (suc n) (x ∷ xs) = ground (arith, length-drop n xs)

module _ {N : Type 0} where
  length-visible : (packets : List (PacketEntry N)) → length (visible packets) ≤ ticks
  unfolding visible
  length-visible packets =
      ground (arith, length-drop (length (picks packets) - ticks) (picks packets))

  -- The row at the index that is found, counted from `k`.
  abbrev Found : ℕ → ℕ → List (PacketEntry N) → ℕ → Type 0
  Found k seq rows i =
      (j : ℕ) × (p : PacketEntry N) × (i ≡ k + j)
      × (get_elem? rows j ≡ some p)
      × (p.seq ≡ seq)
      × (j < length rows)

  index_from-Found :
      (k seq : ℕ) (rows : List (PacketEntry N)) (i : ℕ)
      → index_from k seq rows ≡ some i
      → Found k seq rows i
  unfolding index_from
  index_from-Found k seq [] i h = cc
  index_from-Found k seq (p ∷ rows) i h = elim (Bool-cases (p.seq == seq)) [
    | inl e ↦ (0, p, ground (arith, e, h), refl, (==_iff p.seq seq).0 e, omega arith)
    | inr e ↦
        let (j, q, e1, e2, e3, small) = index_from-Found (suc k) seq rows i (rw e at h) in
        (suc j, q, omega arith, e2, e3, omega arith)
  ]

  with_caret-IsBelow :
      (o : Option ℕ) (m : Marker) (packets : List (PacketEntry N)) (rest : List Caret)
      → o ≡ index_from 0 m.seq (visible packets)
      → All (IsBelow (visible packets)) rest
      → All (IsBelow (visible packets)) (with_caret o m rest)
  with_caret-IsBelow none m packets rest e h = h
  with_caret-IsBelow (some i) m packets rest e h =
      let (j, p, e1, e2, e3, small) = index_from-Found 0 m.seq (visible packets) i (sym e) in
      let bound = length-visible packets in ((j, p, e2, e3, omega arith, omega arith), h)

  carets-IsBelow :
      (markers : List Marker) (packets : List (PacketEntry N))
      → All (IsBelow (visible packets)) (carets markers (visible packets))
  unfolding carets
  carets-IsBelow [] packets = tt
  carets-IsBelow (m ∷ markers) packets =
      with_caret-IsBelow (index_from 0 m.seq (visible packets)) m packets
        (carets markers (visible packets)) refl (carets-IsBelow markers packets)

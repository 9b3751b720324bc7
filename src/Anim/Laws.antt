-- ===== src/Anim/Laws.antt =====
-- A timed polyline always has a position, and it lies on one of its segments.
use fast_share.Common.{ℕ, suc, ◌+◌, ◌-◌, ◌≡◌, refl, Bool, true, false, some, List, [], ◌∷◌, arith}
use mathlib.Core.Option.{some-injective}
use fast_share.Common.{◌∙◌, sym, ◌<◌, inl, inr}
use fast_share.Common.Tests.{Bool-cases}
use fast_share.Common.Lists.{length, get_elem?, rev_onto, length-map}
use fast_share.Common.Text.{Text}
use fast_share.Common.Number.{Number, NumberLaws, QuotientLaws, min_of, max_of}
use fast_share.Canvas.Shapes.{CanvasGraph, Point}
use fast_share.Anim.{lerp, fraction, walk, pos_along, weights, build_timings}

pub length-rev_onto {ℓ} :
    {A : Type ℓ} (xs ys : List A) → length (rev_onto xs ys) ≡ length xs + length ys
length-rev_onto [] ys = omega arith
length-rev_onto (x ∷ xs) ys = omega (arith, length-rev_onto xs (x ∷ ys))

-- One duration for each segment, and at least one segment.
abbrev pub IsTimed {ℓ κ} : {A : Type ℓ} {B : Type κ} → List A → List B → Type 0
IsTimed path timings = (length path ≡ suc (length timings)) × (0 < length timings)

module _ {N : Type 0} ⦃num : Number N⦄ where
  walk_total :
      (a : Point N) (path : List (Point N)) (timings : List N) (t : N)
      → length path ≡ length timings
      → 0 < length timings
      → (p : Point N) × (walk a path timings t ≡ some p)
  unfolding walk
  walk_total a [] timings t h k = absurd (omega arith)
  walk_total a (b ∷ path) [] t h k = absurd (omega arith)
  walk_total a (b ∷ path) (seg ∷ []) t h k = (lerp a b (fraction t seg), refl)
  walk_total a (b ∷ path) (seg ∷ (next ∷ rest)) t h k = elim (Bool-cases (num.le t seg)) [
    | inl e ↦ (lerp a b (fraction t seg), rw e)
    | inr e ↦
        let (p, found) =
          walk_total b path (next ∷ rest) (num.sub t seg) (omega arith) (omega arith) in
        (p, rw e found)
  ]

  -- A dot on a polyline with one duration for each segment, and at least one segment, has a
  -- position at every moment.
  pub pos_along_total :
      (path : List (Point N)) (timings : List N) (elapsed : N)
      → IsTimed path timings
      → (p : Point N) × (pos_along path timings elapsed ≡ some p)
  unfolding pos_along
  pos_along_total [] timings elapsed h = absurd (omega arith)
  pos_along_total (a ∷ []) timings elapsed h = absurd (omega arith)
  pos_along_total (a ∷ (b ∷ path)) timings elapsed h =
      walk_total a (b ∷ path) timings _ (omega arith) h.1

  length-weights : (g : CanvasGraph N) (ids : List Text) → length (weights g ids) ≡ length ids - 1
  unfolding weights
  length-weights g [] = refl
  length-weights g (a ∷ []) = refl
  length-weights g (a ∷ (b ∷ rest)) = ground (arith, length-weights g (b ∷ rest))

  -- One duration per hop, in both directions.
  pub length-build_timings :
      (g : CanvasGraph N) (ids : List Text) (target : N) (reverse : Bool)
      → length (build_timings g ids target reverse) ≡ length ids - 1
  unfolding build_timings
  length-build_timings g ids target true =
      length-map _ (rev_onto (weights g ids) [])
      ∙ omega (arith, length-weights g ids, length-rev_onto (weights g ids) [])
  length-build_timings g ids target false = length-map _ (weights g ids) ∙ length-weights g ids

  -- A point of the segment between two neighbours of the path, neither before its start nor
  -- behind its end.
  pub record OnSegment (path : List (Point N)) (p : Point N) : Type 0 where
    pub index : ℕ
    pub from : Point N
    pub to : Point N
    pub part : N
    pub starts : get_elem? path index ≡ some from
    pub ends : get_elem? path (suc index) ≡ some to
    pub lower : num.le (num.of_nat 0) part ≡ true
    pub upper : num.le part (num.of_nat 1) ≡ true
    pub placed : p ≡ lerp from to part

  abbrev IsNonneg : N → Type 0
  IsNonneg t = num.le (num.of_nat 0) t ≡ true

  module _ (laws : NumberLaws num) (quotients : QuotientLaws num) where
    fraction-le-one : (t seg : N) → num.le (fraction t seg) (num.of_nat 1) ≡ true
    unfolding fraction min_of
    fraction-le-one t seg = ground (
      arith,
      laws.le_total (num.of_nat 1) (num.of_nat 1),
      laws.le_total (num.of_nat 1) (num.div t seg),
    )

    fraction-IsNonneg : (t seg : N) → IsNonneg t → IsNonneg (fraction t seg)
    unfolding fraction min_of
    fraction-IsNonneg t seg h = ground (arith, laws.le-of_nat 0 1, quotients.nonneg_div t seg h)

    -- `Math.max(0, elapsed)`
    max_zero-IsNonneg : (elapsed : N) → IsNonneg (max_of (num.of_nat 0) elapsed)
    unfolding max_of
    max_zero-IsNonneg elapsed = ground (arith, laws.le-of_nat 0 0)

    rest-IsNonneg : (t seg : N) → num.le t seg ≡ false → IsNonneg (num.sub t seg)
    rest-IsNonneg t seg e = ground (arith, laws.le_total t seg, quotients.nonneg_sub t seg)

    OnSegment-cons :
        (a : Point N) (path : List (Point N)) (p : Point N)
        → OnSegment path p
        → OnSegment (a ∷ path) p
    OnSegment-cons a path p s = record {
      index = suc s.index;
      from = s.from;
      to = s.to;
      part = s.part;
      starts = s.starts;
      ends = s.ends;
      lower = s.lower;
      upper = s.upper;
      placed = s.placed;
    }

    first_segment :
        (a b : Point N) (path : List (Point N)) (t seg : N) (p : Point N)
        → IsNonneg t
        → lerp a b (fraction t seg) ≡ p
        → OnSegment (a ∷ (b ∷ path)) p
    first_segment a b path t seg p h e = record {
      index = 0;
      from = a;
      to = b;
      part = fraction t seg;
      starts = refl;
      ends = refl;
      lower = fraction-IsNonneg t seg h;
      upper = fraction-le-one t seg;
      placed = sym e;
    }

    walk-OnSegment :
        (a : Point N) (path : List (Point N)) (timings : List N) (t : N) (p : Point N)
        → IsNonneg t
        → walk a path timings t ≡ some p
        → OnSegment (a ∷ path) p
    unfolding walk
    walk-OnSegment a [] timings t p n h = cc
    walk-OnSegment a (b ∷ path) [] t p n h = cc
    walk-OnSegment a (b ∷ path) (seg ∷ []) t p n h =
        first_segment a b path t seg p n (some-injective _ _ h)
    walk-OnSegment a (b ∷ path) (seg ∷ (next ∷ rest)) t p n h = elim (Bool-cases (num.le t seg)) [
      | inl e ↦ first_segment a b path t seg p n (some-injective _ _ (rw e at h))
      | inr e ↦ OnSegment-cons a (b ∷ path) p (
          walk-OnSegment b path (next ∷ rest) (num.sub t seg) p (rest-IsNonneg t seg e) (rw e at h))
    ]

    -- A position on a polyline, at whatever time, is a point of the segment between two
    -- neighbours of it, neither before its start nor behind its end, if the numbers meet their
    -- laws.
    pub pos_along-OnSegment :
        (path : List (Point N)) (timings : List N) (elapsed : N) (p : Point N)
        → pos_along path timings elapsed ≡ some p
        → OnSegment path p
    unfolding pos_along
    pos_along-OnSegment [] timings elapsed p h = cc
    pos_along-OnSegment (a ∷ []) timings elapsed p h = cc
    pos_along-OnSegment (a ∷ (b ∷ path)) timings elapsed p h =
        walk-OnSegment a (b ∷ path) timings (max_of (num.of_nat 0) elapsed) p
          (max_zero-IsNonneg elapsed) h

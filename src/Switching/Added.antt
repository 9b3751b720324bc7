-- ===== src/Switching/Added.antt =====
-- frontend/components/PathSwitchHud.tsx: the markers that a change of the flags adds.
use fast_share.Common.{
  none, ℕ, zero, suc, ◌+◌, ◌≡◌, ◌≢◌, ◌↔◌, refl, sym, ap, ◌∙◌, Bool, true, false, some, List, [],
  ◌∷◌, arith, inl, inr, ◌⊎◌, Option-cases,
}
use mathlib.Core.List.{Memᴰ}
use fast_share.Common.Counting.{IsAscending, IsAscending-raise, IsAscending-lower}
use mathlib.Core.Path.{subst}
use mathlib.Core.Option.{some-injective}
use fast_share.Common.Tests.{if◌then◌else◌, Bool-cases}
use fast_share.Common.Lists.{get_elem?, get_elem?-map, get_elem?-map-none, length}
use fast_share.Common.Text.{Text}
use fast_share.Topology.{SchedulerLane}
use fast_share.Switching.{Marker, was_flagged, differs, kind_of, MarkerKind, flags_key, added}

differs_iff : (a b : Bool) → (differs a b ≡ true) ↔ (a ≢ b)
unfolding differs
differs_iff a b = ground arith

Mem_nil : {A : Type 0} (P : Type 0) (a : A) → Memᴰ a [] → P
Mem_nil P a h = elim h [ ]

Mem_cons : {A : Type 0} (a b : A) (xs : List A) → Memᴰ a (b ∷ xs) → (a ≡ b) ⊎ Memᴰ a xs
Mem_cons a b xs (Memᴰ.head e) = inl e
Mem_cons a b xs (Memᴰ.tail t) = inr t

added_nil : (N : Type 0) (last : ℕ) (prev : Text) (k : ℕ) → added {N = N} last prev k [] ≡ []
unfolding added
added_nil N last prev k = refl

kind_of-if : (b : Bool) → kind_of b ≡ (if b then MarkerKind.flag else MarkerKind.recover)
kind_of-if true = refl
kind_of-if false = refl

module _ {N : Type 0} where
  -- The key remembers the flag of each lane.
  was_flagged-flags_key :
      (lanes : List (SchedulerLane N)) (i : ℕ) (l : SchedulerLane N)
      → get_elem? lanes i ≡ some l
      → was_flagged (flags_key lanes) i ≡ l.flagged
  unfolding was_flagged flags_key
  was_flagged-flags_key lanes i l e =
      let found =
        get_elem?-map (λ (l : SchedulerLane N). if l.flagged then 48 + 1 else 48) lanes i e in
      ground (arith, found)

  -- The marker of lane `i`.
  abbrev pub marker_at : ℕ → ℕ → SchedulerLane N → Marker
  marker_at last i l = record {
    seq = suc last;
    kind = if l.flagged then MarkerKind.flag else MarkerKind.recover;
    lane = i;
    name = l.name;
  }

  -- A marker of a lane whose flag is not what the key says; lanes are counted from `k`.
  pub record IsMarkerOf (last : ℕ) (prev : Text) (k : ℕ) (lanes : List (SchedulerLane N))
      (m : Marker) : Type 0 where
    pub index : ℕ
    pub lane : SchedulerLane N
    pub found : get_elem? lanes index ≡ some lane
    pub moved : lane.flagged ≢ was_flagged prev (k + index)
    pub made : m ≡ marker_at last (k + index) lane

  IsMarkerOf-later :
      (last : ℕ) (prev : Text) (k : ℕ) (x : SchedulerLane N) (lanes : List (SchedulerLane N))
      (m : Marker)
      → IsMarkerOf last prev (suc k) lanes m
      → IsMarkerOf last prev k (x ∷ lanes) m
  IsMarkerOf-later last prev k x lanes m r =
      let shift : suc k + r.index ≡ k + suc r.index = omega arith in
      record {
        index = suc r.index;
        lane = r.lane;
        found = r.found;
        moved = subst (λ j. r.lane.flagged ≢ was_flagged prev j) shift r.moved;
        made = r.made ∙ ap (λ j. marker_at last j r.lane) shift;
      }

  IsMarkerOf-first :
      (last : ℕ) (prev : Text) (k : ℕ) (x : SchedulerLane N) (lanes : List (SchedulerLane N))
      (m : Marker)
      → x.flagged ≢ was_flagged prev k
      → m ≡ marker_at last k x
      → IsMarkerOf last prev k (x ∷ lanes) m
  IsMarkerOf-first last prev k x lanes m ne e =
      let shift : k ≡ k + 0 = omega arith in
      record {
        index = 0;
        lane = x;
        found = refl;
        moved = subst (λ j. x.flagged ≢ was_flagged prev j) shift ne;
        made = e ∙ ap (λ j. marker_at last j x) shift;
      }

  added_moved :
      (last : ℕ) (prev : Text) (k : ℕ) (x : SchedulerLane N) (lanes : List (SchedulerLane N))
      → differs x.flagged (was_flagged prev k) ≡ true
      → added last prev k (x ∷ lanes) ≡ marker_at last k x ∷ added last prev (suc k) lanes
  unfolding added
  added_moved last prev k x lanes d =
      let kind = kind_of-if x.flagged in rw (d, added) (rw kind refl)

  added_same :
      (last : ℕ) (prev : Text) (k : ℕ) (x : SchedulerLane N) (lanes : List (SchedulerLane N))
      → differs x.flagged (was_flagged prev k) ≡ false
      → added last prev k (x ∷ lanes) ≡ added last prev (suc k) lanes
  unfolding added
  added_same last prev k x lanes d = rw (d, added)

  added_sound :
      (last : ℕ) (prev : Text) (k : ℕ) (lanes : List (SchedulerLane N)) (m : Marker)
      → Memᴰ m (added last prev k lanes)
      → IsMarkerOf last prev k lanes m
  added_sound last prev k [] m h =
      Mem_nil (IsMarkerOf last prev k [] m) m (subst (Memᴰ m) (added_nil N last prev k) h)
  added_sound last prev k (l ∷ lanes) m h =
      elim (Bool-cases (differs l.flagged (was_flagged prev k))) [
        | inl d ↦
            elim (Mem_cons m (marker_at last k l) (added last prev (suc k) lanes)
              (subst (Memᴰ m) (added_moved last prev k l lanes d) h)) [
                | inl e ↦
                    IsMarkerOf-first last prev k l lanes m
                      ((differs_iff l.flagged (was_flagged prev k)).0 d) e
                | inr t ↦
                    IsMarkerOf-later last prev k l lanes m (added_sound last prev (suc k) lanes m t)
              ]
        | inr d ↦ IsMarkerOf-later last prev k l lanes m (
            added_sound last prev (suc k) lanes m
              (subst (Memᴰ m) (added_same last prev k l lanes d) h))
      ]

  added-later :
      (last : ℕ) (prev : Text) (k : ℕ) (x : SchedulerLane N) (lanes : List (SchedulerLane N))
      (m : Marker)
      → Memᴰ m (added last prev (suc k) lanes)
      → Memᴰ m (added last prev k (x ∷ lanes))
  added-later last prev k x lanes m h = elim (Bool-cases (differs x.flagged (was_flagged prev k))) [
    | inl d ↦ subst (Memᴰ m) (sym (added_moved last prev k x lanes d)) (Memᴰ.tail h)
    | inr d ↦ subst (Memᴰ m) (sym (added_same last prev k x lanes d)) h
  ]

  added-first :
      (last : ℕ) (prev : Text) (k : ℕ) (x : SchedulerLane N) (lanes : List (SchedulerLane N))
      → x.flagged ≢ was_flagged prev k
      → Memᴰ (marker_at last k x) (added last prev k (x ∷ lanes))
  added-first last prev k x lanes ne =
      subst (Memᴰ (marker_at last k x))
        (sym (added_moved last prev k x lanes ((differs_iff x.flagged (was_flagged prev k)).1 ne)))
        (Memᴰ.head refl)

  added_complete :
      (last : ℕ) (prev : Text) (k : ℕ) (lanes : List (SchedulerLane N)) (i : ℕ)
      (l : SchedulerLane N)
      → get_elem? lanes i ≡ some l
      → l.flagged ≢ was_flagged prev (k + i)
      → Memᴰ (marker_at last (k + i) l) (added last prev k lanes)
  added_complete last prev k [] i l e ne = cc
  added_complete last prev k (x ∷ lanes) zero l e ne =
      let shift : k + 0 ≡ k = omega arith in
      subst
        (λ (y : SchedulerLane N). Memᴰ (marker_at last (k + 0) y) (added last prev k (x ∷ lanes)))
        (some-injective x l e)
        (subst (λ j. Memᴰ (marker_at last j x) (added last prev k (x ∷ lanes))) (sym shift)
          (added-first last prev k x lanes (λ same. ne (
            sym (ap (λ (y : SchedulerLane N). y.flagged) (some-injective x l e))
            ∙ same
            ∙ ap (was_flagged prev) (sym shift)))))
  added_complete last prev k (x ∷ lanes) (suc i) l e ne =
      let shift : suc k + i ≡ k + suc i = omega arith in
      added-later last prev k x lanes _ (
        subst (λ j. Memᴰ (marker_at last j l) (added last prev (suc k) lanes)) shift
          (added_complete last prev (suc k) lanes i l e
            (λ same. ne (same ∙ ap (was_flagged prev) shift))))

  -- The flag that a lane had; one that was not there had none.
  abbrev pub flag_at : List (SchedulerLane N) → ℕ → Bool
  flag_at old i = elim (get_elem? old i) [ none ↦ false | some was ↦ was.flagged ]

  was_flagged-missing :
      (old : List (SchedulerLane N)) (i : ℕ)
      → get_elem? old i ≡ none
      → was_flagged (flags_key old) i ≡ false
  unfolding was_flagged flags_key
  was_flagged-missing old i e =
      let gone =
        get_elem?-map-none (λ (l : SchedulerLane N). if l.flagged then 48 + 1 else 48) old i e in
      ground (arith, gone)

  was_flagged-flag_at :
      (old : List (SchedulerLane N)) (i : ℕ) → was_flagged (flags_key old) i ≡ flag_at old i
  was_flagged-flag_at old i = elim (Option-cases (get_elem? old i)) [
    | inl e ↦ rw (e, flag_at) (was_flagged-missing old i e)
    | inr (was, e) ↦ rw (e, flag_at) (was_flagged-flags_key old i was e)
  ]

  -- A lane whose flag is not what it was.
  pub record IsChange (last : ℕ) (old lanes : List (SchedulerLane N)) (m : Marker) : Type 0 where
    pub index : ℕ
    pub lane : SchedulerLane N
    pub found : get_elem? lanes index ≡ some lane
    pub moved : lane.flagged ≢ flag_at old index
    pub made : m ≡ marker_at last index lane

  added-IsAscending :
      (last : ℕ) (prev : Text) (k : ℕ) (lanes : List (SchedulerLane N))
      → IsAscending (λ (m : Marker). m.lane) k (added last prev k lanes) (k + length lanes)
  unfolding added
  added-IsAscending last prev k [] = omega arith
  added-IsAscending last prev k (l ∷ lanes) =
      let shift : IsAscending (λ (m : Marker). m.lane) (suc k) (added last prev (suc k) lanes)
          (k + length (l ∷ lanes)) =
        IsAscending-raise (λ (m : Marker). m.lane) (suc k) (added last prev (suc k) lanes)
          (suc k + length lanes) (k + length (l ∷ lanes)) (omega arith)
          (added-IsAscending last prev (suc k) lanes) in
      elim (Bool-cases (differs l.flagged (was_flagged prev k))) [
        | inl d ↦ rw (added_moved last prev k l lanes d) (omega arith, shift)
        | inr d ↦
            rw (added_same last prev k l lanes d)
              (IsAscending-lower (λ (m : Marker). m.lane) (suc k) k _ _ (omega arith) shift)
      ]

  added-IsChange :
      (last : ℕ) (old lanes : List (SchedulerLane N)) (m : Marker)
      → Memᴰ m (added last (flags_key old) 0 lanes)
      → IsChange last old lanes m
  added-IsChange last old lanes m h =
      let r = added_sound last (flags_key old) 0 lanes m h in
      let at : 0 + r.index ≡ r.index = omega arith in
      record {
        index = r.index;
        lane = r.lane;
        found = r.found;
        moved = λ same. r.moved (
            same
            ∙ sym (was_flagged-flag_at old r.index)
            ∙ ap (was_flagged (flags_key old)) (sym at));
        made = r.made ∙ ap (λ j. marker_at last j r.lane) at;
      }

  IsChange-added :
      (last : ℕ) (old lanes : List (SchedulerLane N)) (m : Marker)
      → IsChange last old lanes m
      → Memᴰ m (added last (flags_key old) 0 lanes)
  IsChange-added last old lanes m r =
      let at : 0 + r.index ≡ r.index = omega arith in
      subst (λ x. Memᴰ x (added last (flags_key old) 0 lanes))
        (ap (λ j. marker_at last j r.lane) at ∙ sym r.made)
        (added_complete last (flags_key old) 0 lanes r.index r.lane r.found (λ same.
          r.moved (same ∙ ap (was_flagged (flags_key old)) at ∙ was_flagged-flag_at old r.index)))

  -- The markers that a new state of the scheduler adds to those of the last one are exactly
  -- those of the lanes whose flags have changed between the two, a lane that is new counting as
  -- not flagged before, each at the next packet, of the right kind and with the lane's name; and
  -- they come in the order of the lanes, none twice.
  pub added_iff :
      (last : ℕ) (old lanes : List (SchedulerLane N)) (m : Marker)
      → (Memᴰ m (added last (flags_key old) 0 lanes) ↔ IsChange last old lanes m)
        × IsAscending (λ (x : Marker). x.lane) 0 (added last (flags_key old) 0 lanes) (length lanes)
  added_iff last old lanes m =
      let from_zero : 0 + length lanes ≡ length lanes = omega arith in
      (
        (added-IsChange last old lanes m, IsChange-added last old lanes m),
        subst (λ n. IsAscending (λ (x : Marker). x.lane) 0 (added last (flags_key old) 0 lanes) n)
            from_zero (added-IsAscending last (flags_key old) 0 lanes),
      )

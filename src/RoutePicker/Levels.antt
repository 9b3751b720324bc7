-- ===== src/RoutePicker/Levels.antt =====
-- What the loop of the hop count keeps: the queue holds two neighbouring distances, and all nodes up
-- to the distance of its front have been seen.
use fast_share.Common.{
  ℕ, zero, suc, ◌<◌, ◌≤◌, ◌≡◌, refl, sym, true, false, List, [], ◌∷◌, ◌++◌, arith, inl, inr, ◌⊎◌,
}
use mathlib.Core.Path.{subst}
use fast_share.Common.Tests.{Bool-cases, leb}
use fast_share.Common.Lists.{All, All-snoc}
use fast_share.Common.Text.{Text, text_eq, text_eq_iff}
use fast_share.Canvas.Graph.{contains}
use fast_share.RoutePicker.Walks.{linked, Walk, contains-snoc}

abbrev pub Queue : Type 0
Queue = List (Text × ℕ)

abbrev pub Queued : Text → Queue → Type 0
Queued v [] = ⊥
Queued v ((u, e) ∷ q) = (u ≡ v) ⊎ Queued v q

-- All distances are `k`.
abbrev pub Flat : ℕ → Queue → Type 0
Flat k [] = Unit
Flat k ((v, e) ∷ q) = (e ≡ k) × Flat k q

-- First come distances `d`, then distances one above it.
abbrev pub Levels : ℕ → Queue → Type 0
Levels d [] = Unit
Levels d ((v, e) ∷ q) = ((e ≡ d) × Levels d q) ⊎ ((e ≡ suc d) × Flat (suc d) q)

Queued-append : (v : Text) (q r : Queue) → Queued v q → Queued v (q ++ r)
Queued-append v [] r h = absurd h
Queued-append v ((u, e) ∷ q) r (inl h) = inl h
Queued-append v ((u, e) ∷ q) r (inr h) = inr (Queued-append v q r h)

Queued-snoc : (v : Text) (e : ℕ) (q : Queue) → Queued v (q ++ (v, e) ∷ [])
Queued-snoc v e [] = inl refl
Queued-snoc v e ((u, k) ∷ q) = inr (Queued-snoc v e q)

Flat-snoc : (k : ℕ) (q : Queue) (v : Text) → Flat k q → Flat k (q ++ (v, k) ∷ [])
Flat-snoc k [] v h = (refl, tt)
Flat-snoc k ((u, e) ∷ q) v h = (h.0, Flat-snoc k q v h.1)

Levels-snoc : (d : ℕ) (q : Queue) (v : Text) → Levels d q → Levels d (q ++ (v, suc d) ∷ [])
Levels-snoc d [] v h = inr (refl, tt)
Levels-snoc d ((u, e) ∷ q) v (inl h) = inl (h.0, Levels-snoc d q v h.1)
Levels-snoc d ((u, e) ∷ q) v (inr h) = inr (h.0, Flat-snoc (suc d) q v h.1)

Flat-Levels : (d : ℕ) (q : Queue) → Flat d q → Levels d q
Flat-Levels d [] h = tt
Flat-Levels d ((v, e) ∷ q) h = inl (h.0, Flat-Levels d q h.1)

module _ (links : List (Text × Text)) (from to : Text) where
  -- The distance of an entry is that of its node.
  abbrev pub IsEntry : Text × ℕ → Type 0
  IsEntry (v, e) = Walk links from v e × ((m : ℕ) → Walk links from v m → e ≤ m)

  -- All neighbours of the node have been seen.
  abbrev pub IsDone : List Text → Text → Type 0
  IsDone seen u = (v : Text) → linked links u v ≡ true → contains seen v ≡ true

  abbrev pub IsNear : ℕ → List Text → Type 0
  IsNear d seen = (v : Text) (m : ℕ) → Walk links from v m → m ≤ d → contains seen v ≡ true

  -- At the head of the loop.
  pub record IsLevel (d : ℕ) (seen : List Text) (queue : Queue) : Type 0 where
    pub entries : All IsEntry queue
    pub levels : Levels d queue
    pub target : contains seen to ≡ false
    pub closed : (u : Text) → contains seen u ≡ true → Queued u queue ⊎ IsDone seen u
    pub near : IsNear d seen

  -- Among the neighbours of `cur`.
  pub record IsScanning (d : ℕ) (cur : Text) (seen : List Text) (queue : Queue) : Type 0 where
    pub entries : All IsEntry queue
    pub levels : Levels d queue
    pub target : contains seen to ≡ false
    pub closed : (u : Text) → contains seen u ≡ true → Queued u queue ⊎ (IsDone seen u ⊎ (cur ≡ u))
    pub near : IsNear d seen

  not-Queued :
      (k : ℕ) (u : Text) (q : Queue) {m : ℕ}
      → Flat k q
      → All IsEntry q
      → Walk links from u m
      → m < k
      → Queued u q
      → ⊥
  not-Queued k u [] f es w h n = n
  not-Queued k u ((v, e) ∷ q) {m} f es w h (inl same) =
      let least : e ≤ m = es.0.1 m (subst (λ x. Walk links from x m) (sym same) w) in
      omega (arith, f.0)
  not-Queued k u ((v, e) ∷ q) f es w h (inr n) = not-Queued k u q f.1 es.1 w h n

  -- Once no entry of the distance is left, the nodes one further have been seen too.
  rise :
      (d : ℕ) (seen : List Text) (q : Queue)
      → IsLevel d seen q
      → Flat (suc d) q
      → IsLevel (suc d) seen q
  rise d seen q h f = record {
    entries = h.entries;
    levels = Flat-Levels (suc d) q f;
    target = h.target;
    closed = h.closed;
    near = further;
  }
    where
      further : IsNear (suc d) seen
      further v zero w k = h.near v zero w (omega arith)
      further v (suc m) (Walk.hop {v = u} _ w l) k =
          elim (h.closed u (h.near u m w (omega arith))) [
            | inl n ↦ absurd (not-Queued (suc d) u q f h.entries w (omega arith) n)
            | inr done ↦ done v l
          ]

  -- The loop's distance can be taken for that of the front.
  pub front :
      (d : ℕ) (seen : List Text) (v : Text) (e : ℕ) (q : Queue)
      → IsLevel d seen ((v, e) ∷ q)
      → IsLevel e seen ((v, e) ∷ q) × Levels e q
  front d seen v e q h = elim h.levels [
    | inl l ↦ subst (λ k. IsLevel k seen ((v, e) ∷ q) × Levels k q) (sym l.0) (h, l.1)
    | inr l ↦
        subst (λ k. IsLevel k seen ((v, e) ∷ q) × Levels k q) (sym l.0)
          (rise d seen ((v, e) ∷ q) h l, Flat-Levels (suc d) q l.1)
  ]

  -- Taking the front off the queue.
  pub shift :
      (d : ℕ) (cur : Text) (seen : List Text) (q : Queue)
      → IsLevel d seen ((cur, d) ∷ q)
      → Levels d q
      → IsScanning d cur seen q
  shift d cur seen q h l = record {
    entries = h.entries.1;
    levels = l;
    target = h.target;
    closed = λ u k. reopen u (h.closed u k);
    near = h.near;
  }
    where
      reopen :
          (u : Text)
          → Queued u ((cur, d) ∷ q) ⊎ IsDone seen u
          → Queued u q ⊎ (IsDone seen u ⊎ (cur ≡ u))
      reopen u (inl (inl e)) = inr (inr e)
      reopen u (inl (inr n)) = inl n
      reopen u (inr k) = inr (inl k)

  -- All neighbours of `cur` have been seen.
  pub scanned :
      (d : ℕ) (cur : Text) (seen : List Text) (q : Queue)
      → IsScanning d cur seen q
      → IsDone seen cur
      → IsLevel d seen q
  scanned d cur seen q h done = record {
    entries = h.entries;
    levels = h.levels;
    target = h.target;
    closed = λ u k. close u (h.closed u k);
    near = h.near;
  }
    where
      close : (u : Text) → Queued u q ⊎ (IsDone seen u ⊎ (cur ≡ u)) → Queued u q ⊎ IsDone seen u
      close u (inl n) = inl n
      close u (inr (inl k)) = inr k
      close u (inr (inr e)) = inr (subst (IsDone seen) e done)

  more-seen :
      (seen : List Text) (n v : Text) → contains seen v ≡ true → contains (seen ++ n ∷ []) v ≡ true
  more-seen seen n v h = ground (arith, contains-snoc seen n v)

  -- A neighbour that is new is put at the end of both lists.
  pub visit :
      (d : ℕ) (cur n : Text) (seen : List Text) (q : Queue)
      → IsScanning d cur seen q
      → Walk links from cur d
      → linked links cur n ≡ true
      → text_eq n to ≡ false
      → contains seen n ≡ false
      → IsScanning d cur (seen ++ n ∷ []) (q ++ (n, suc d) ∷ [])
  visit d cur n seen q h w l other fresh = record {
    entries = All-snoc IsEntry q (n, suc d) h.entries (Walk.hop n w l, least);
    levels = Levels-snoc d q n h.levels;
    target = ground (arith, contains-snoc seen n to, h.target, other);
    closed = λ u k. grow u k (Bool-cases (contains seen u));
    near = λ v m x k. more-seen seen n v (h.near v m x k);
  }
    where
      least : (m : ℕ) → Walk links from n m → suc d ≤ m
      least m x = elim (Bool-cases (leb m d)) [
        | inl e ↦ absurd (cc (h.near n m x (ground (arith, e)), fresh))
        | inr e ↦ ground (arith, e)
      ]

      old :
          (u : Text)
          → Queued u q ⊎ (IsDone seen u ⊎ (cur ≡ u))
          → Queued u (q ++ (n, suc d) ∷ []) ⊎ (IsDone (seen ++ n ∷ []) u ⊎ (cur ≡ u))
      old u (inl k) = inl (Queued-append u q _ k)
      old u (inr (inl k)) = inr (inl (λ v e. more-seen seen n v (k v e)))
      old u (inr (inr e)) = inr (inr e)

      grow :
          (u : Text)
          → contains (seen ++ n ∷ []) u ≡ true
          → (contains seen u ≡ true) ⊎ (contains seen u ≡ false)
          → Queued u (q ++ (n, suc d) ∷ []) ⊎ (IsDone (seen ++ n ∷ []) u ⊎ (cur ≡ u))
      grow u k (inl e) = old u (h.closed u e)
      grow u k (inr e) =
          let same : n ≡ u = (text_eq_iff n u).0 (ground (arith, contains-snoc seen n u, k, e)) in
          inl (subst (λ x. Queued x (q ++ (n, suc d) ∷ [])) same (Queued-snoc n (suc d) q))

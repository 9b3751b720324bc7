-- ===== src/RoutePicker/Shortest.antt =====
-- The hop count is the length of a shortest walk, and its loop ends within the rounds it is given.
use fast_share.Common.{
  ℕ, zero, suc, ◌+◌, ◌*◌, ◌<◌, ◌≤◌, ◌≡◌, ◌≢◌, refl, sym, ap, ◌∙◌, true, false, not, Option, none,
  some, List, [], ◌∷◌, ◌++◌, arith, inl, inr, ◌⊎◌,
}
use mathlib.Core.Path.{subst}
use fast_share.Common.Tests.{Bool-cases, leb}
use fast_share.Common.Lists.{count_if, length, any}
use fast_share.Common.Text.{Text, text_eq, text_eq_iff, text_eq_refl}
use fast_share.Canvas.Graph.{contains}
use fast_share.RoutePicker.{Scan, scan, search, hops, adjacency}
use fast_share.RoutePicker.Walks.{linked, Walk, contains-snoc, neighbours, contains-neighbours}
use fast_share.RoutePicker.Levels.{Queue, IsNear, IsLevel, IsScanning, front, shift, scanned, visit}

-- The ends of the links.
ends : List (Text × Text) → List Text
ends [] = []
ends ((a, b) ∷ links) = a ∷ (b ∷ ends links)

linked-ends :
    (links : List (Text × Text)) (c n : Text)
    → linked links c n ≡ true
    → contains (ends links) n ≡ true
unfolding linked ends contains any
linked-ends [] c n h = cc
linked-ends ((a, b) ∷ links) c n h = ground (arith, linked-ends links c n)

length-ends : (links : List (Text × Text)) → length (ends links) ≡ 2 * length links
unfolding ends
length-ends [] = refl
length-ends ((a, b) ∷ links) = omega (arith, length-ends links)

-- The nodes of a list that have not been seen.
unseen : List Text → List Text → ℕ
unseen nodes seen = count_if (λ v. not (contains seen v)) nodes

unseen-le : (nodes seen : List Text) → unseen nodes seen ≤ length nodes
unfolding unseen count_if
unseen-le [] seen = omega arith
unseen-le (v ∷ nodes) seen = ground (arith, unseen-le nodes seen)

unseen-snoc_le :
    (nodes seen : List Text) (n : Text) → unseen nodes (seen ++ n ∷ []) ≤ unseen nodes seen
unfolding unseen count_if
unseen-snoc_le [] seen n = omega arith
unseen-snoc_le (v ∷ nodes) seen n =
    ground (arith, contains-snoc seen n v, unseen-snoc_le nodes seen n)

unseen-snoc :
    (nodes seen : List Text) (n : Text)
    → contains nodes n ≡ true
    → contains seen n ≡ false
    → unseen nodes (seen ++ n ∷ []) < unseen nodes seen
unfolding unseen count_if contains any
unseen-snoc [] seen n h k = cc
unseen-snoc (v ∷ nodes) seen n h k = ground (
  arith,
  text_eq_iff v n,
  contains-snoc seen n v,
  unseen-snoc_le nodes seen n,
  unseen-snoc nodes seen n,
  text_eq_refl n,
)

length-snoc {ℓ} : {A : Type ℓ} (xs : List A) (x : A) → length (xs ++ x ∷ []) ≡ suc (length xs)
length-snoc [] x = refl
length-snoc (y ∷ xs) x = ap suc (length-snoc xs x)

module _ (links : List (Text × Text)) (from to : Text) where
  -- What remains to be done.
  abbrev work : List Text → Queue → ℕ
  work seen q = unseen (ends links) seen + length q

  -- What the loop over the neighbours `ns` of `cur` ends with.
  abbrev Outcome : ℕ → Text → List Text → List Text → Queue → Scan → Type 0
  Outcome d cur ns seen q (Scan.found k) = (k ≡ suc d) × (linked links cur to ≡ true)
  Outcome d cur ns seen q (Scan.going seen' q') =
      IsScanning links from to d cur seen' q'
      × ((v : Text) → contains seen v ≡ true → contains seen' v ≡ true)
      × ((v : Text) → contains ns v ≡ true → contains seen' v ≡ true)
      × (work seen' q' ≤ work seen q)

  -- What is true of the rest of the neighbours, with `n` read.
  past :
      (d : ℕ) (cur n : Text) (ns seen seen1 : List Text) (q q1 : Queue) (r : Scan)
      → Outcome d cur ns seen1 q1 r
      → ((v : Text) → contains seen v ≡ true → contains seen1 v ≡ true)
      → contains seen1 n ≡ true
      → work seen1 q1 ≤ work seen q
      → Outcome d cur (n ∷ ns) seen q r
  unfolding contains any
  past d cur n ns seen seen1 q q1 (Scan.found k) h grows has le = h
  past d cur n ns seen seen1 q q1 (Scan.going seen' q') h grows has le =
      let (keeps, more, covers, less) = h in
      (keeps, λ v k. more v (grows v k), λ v k. read v k (Bool-cases (text_eq n v)), omega arith)
    where
      read :
          (v : Text)
          → contains (n ∷ ns) v ≡ true
          → (text_eq n v ≡ true) ⊎ (text_eq n v ≡ false)
          → contains seen' v ≡ true
      read v k (inl e) = h.1 v (subst (λ x. contains seen1 x ≡ true) ((text_eq_iff n v).0 e) has)
      read v k (inr e) = h.2 v (ground (arith, k, e))

  scan-Outcome :
      (d : ℕ) (cur : Text) (ns seen : List Text) (q : Queue)
      → Walk links from cur d
      → IsScanning links from to d cur seen q
      → ((v : Text) → contains ns v ≡ true → linked links cur v ≡ true)
      → Outcome d cur ns seen q (scan to d ns seen q)
  unfolding scan contains any
  scan-Outcome d cur [] seen q w h l = (h, λ v k. k, λ v k. cc, omega arith)
  scan-Outcome d cur (n ∷ ns) seen q w h l = elim (Bool-cases (text_eq n to)) [
    | inl e ↦
        rw (e, scan) (refl, subst (λ x. linked links cur x ≡ true) ((text_eq_iff n to).0 e) here)
    | inr e ↦ elim (Bool-cases (contains seen n)) [
      | inl k ↦
          rw (e, k, scan)
            (past d cur n ns seen seen q q (scan to d ns seen q)
              (scan-Outcome d cur ns seen q w h (λ v m. l v (later v m))) (λ v m. m) k
              (omega arith))
      | inr k ↦
          let seen1 = seen ++ n ∷ [] in
          let q1 : Queue = q ++ (n, suc d) ∷ [] in
          rw (e, k, scan)
            (past d cur n ns seen seen1 q q1 (scan to d ns seen1 q1)
              (scan-Outcome d cur ns seen1 q1 w (visit links from to d cur n seen q h w here e k)
                (λ v m. l v (later v m)))
              (λ v m. ground (arith, contains-snoc seen n v, m))
              (ground (arith, contains-snoc seen n n, text_eq_refl n))
              (omega (
                arith,
                unseen-snoc (ends links) seen n (linked-ends links cur n here) k,
                length-snoc q (n, suc d),
              )))
    ]
  ]
    where
      here : linked links cur n ≡ true
      here = l n (ground (arith, text_eq_refl n))

      later : (v : Text) → contains ns v ≡ true → contains (n ∷ ns) v ≡ true
      later v m = ground (arith, m)

  -- The hop count as it should be: the length of a shortest walk, and none where there is no walk.
  abbrev pub IsShortest : Option ℕ → Type 0
  IsShortest (some n) = Walk links from to n × ((m : ℕ) → Walk links from to m → n ≤ m)
  IsShortest none = (m : ℕ) → ¬ Walk links from to m

  -- With an empty queue every node that can be reached has been seen.
  reached :
      (d : ℕ) (seen : List Text)
      → IsLevel links from to d seen []
      → (v : Text) (m : ℕ) → Walk links from v m
      → contains seen v ≡ true
  reached d seen h v zero w = h.near v zero w (omega arith)
  reached d seen h v (suc m) (Walk.hop {v = u} _ w l) = elim (h.closed u (reached d seen h u m w)) [
    | inl n ↦ absurd n
    | inr done ↦ done v l
  ]

  found-least :
      (d : ℕ) (seen : List Text) (m : ℕ)
      → contains seen to ≡ false
      → IsNear links from to d seen
      → Walk links from to m
      → suc d ≤ m
  found-least d seen m t h w = elim (Bool-cases (leb m d)) [
    | inl e ↦ absurd (cc (h to m w (ground (arith, e)), t))
    | inr e ↦ ground (arith, e)
  ]

  after_scan :
      (fuel d : ℕ) (cur : Text) (seen : List Text) (q : Queue)
      → ((seen' : List Text) (q' : Queue)
          → IsLevel links from to d seen' q'
          → work seen' q' < fuel
          → IsShortest (search fuel (adjacency links []) to seen' q'))
      → IsLevel links from to d seen ((cur, d) ∷ q)
      → work seen q < fuel
      → (r : Scan) → Outcome d cur (neighbours (adjacency links []) cur) seen q r
      → IsShortest (elim r [
        | Scan.found n ↦ some n
        | Scan.going seen' q' ↦ search fuel (adjacency links []) to seen' q'
      ])
  after_scan fuel d cur seen q ih h f (Scan.found k) (e, l) =
      rw e (Walk.hop to h.entries.0.0 l, λ m w. found-least d seen m h.target h.near w)
  after_scan fuel d cur seen q ih h f (Scan.going seen' q') (keeps, more, covers, less) =
      ih seen' q'
        (scanned links from to d cur seen' q' keeps
          (λ v l. covers v (contains-neighbours links cur v ∙ l)))
        (omega arith)

  search-IsShortest :
      (fuel d : ℕ) (seen : List Text) (q : Queue)
      → IsLevel links from to d seen q
      → work seen q < fuel
      → IsShortest (search fuel (adjacency links []) to seen q)
  unfolding search
  search-IsShortest zero d seen q h f = absurd (omega arith)
  search-IsShortest (suc fuel) d seen [] h f = λ m w. cc (reached d seen h to m w, h.target)
  search-IsShortest (suc fuel) d seen ((cur, e) ∷ q) h f =
      let (level, rest) = front links from to d seen cur e q h in
      let ns = neighbours (adjacency links []) cur in
      after_scan fuel e cur seen q (search-IsShortest fuel e) level (omega arith)
        (scan to e ns seen q)
        (scan-Outcome e cur ns seen q level.entries.0.0
          (shift links from to e cur seen q level rest)
          (λ v k. sym (contains-neighbours links cur v) ∙ k))

  one_node-IsLevel : text_eq from to ≡ false → IsLevel links from to 0 (from ∷ []) ((from, 0) ∷ [])
  unfolding contains any
  one_node-IsLevel other = record {
    entries = ((Walk.stay, λ m w. omega arith), tt);
    levels = inl (refl, tt);
    target = ground (arith, other);
    closed = λ u k. inl (inl ((text_eq_iff from u).0 (ground (arith, k))));
    near = near;
  }
    where
      near : IsNear links from to 0 (from ∷ [])
      near v zero Walk.stay k = ground (arith, text_eq_refl from)
      near v (suc m) w k = absurd (omega arith)

  -- The hop count between two different nodes is the length of a shortest walk over the links,
  -- in either direction of a link, and there is none exactly if there is no walk: the loop
  -- always ends within the rounds that the model gives it.
  pub hops-IsShortest : from ≢ to → IsShortest (hops links from to)
  unfolding hops
  hops-IsShortest different = elim (Bool-cases (text_eq from to)) [
    | inl e ↦ absurd (different ((text_eq_iff from to).0 e))
    | inr e ↦
        rw (e, hops)
          (search-IsShortest (2 + 2 * length links) 0 (from ∷ []) ((from, 0) ∷ [])
            (one_node-IsLevel e)
            (omega (arith, unseen-le (ends links) (from ∷ []), length-ends links)))
  ]

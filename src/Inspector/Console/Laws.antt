-- ===== src/Inspector/Console/Laws.antt =====
-- Whose lines the console shows.
use fast_share.Common.{
  ℕ, zero, suc, ◌<◌, ◌≡◌, refl, true, none, some, List, [], ◌∷◌, arith, ◌⊎◌, inl, inr,
}
use fast_share.Common.Tests.{Bool-cases}
use mathlib.Core.Path.{subst}
use fast_share.Common.Tests.{if◌then◌else◌}
use fast_share.Common.{sym}
use fast_share.Common.Lists.{All, All-get, All-snoc, get_elem?, remove_at}
use fast_share.Common.Text.{Text}
use fast_share.Topology.{NodeLogLine}
use fast_share.Inspector.Console.{
  Pull, Reply, Console, pull, pull_logs, mounted, switch, unmount, show, is_alive, answer,
}

All-remove_at {ℓ κ} :
    {A : Type ℓ} (P : A → Type κ) (xs : List A) (i : ℕ) → All P xs → All P (remove_at xs i)
All-remove_at P [] i h = h
All-remove_at P (x ∷ xs) zero h = h.1
All-remove_at P (x ∷ xs) (suc i) h = (h.0, All-remove_at P xs i h.1)

-- `LogOf id lines`: the backend may answer `lines` for the log of the node `id`.
module _ {N : Type 0} (LogOf : Text → List (NodeLogLine N) → Type 0) where
  -- What a request may settle with.
  abbrev pub IsReply : Text → Reply N → Type 0
  IsReply id (Reply.lines ls) = LogOf id ls
  IsReply id (Reply.failure msg) = Unit

  -- The console shows nothing, or a log of its node.
  abbrev pub IsShown : Console N → Type 0
  IsShown c = (c.logs ≡ []) ⊎ LogOf c.node c.logs

  -- The request is the effect's.
  abbrev pub IsPolled : Pull → Type 0
  IsPolled p = (r : ℕ) × (p.run ≡ some r)

  pub data Step (c : Console N) : Console N → Type 0 where
    polled : Step c (pull c)
    refreshed : Step c (pull_logs c)
    switched : (id : Text) → All IsPolled c.waiting → Step c (switch id c)
    unmounted : Step c (unmount c)
    replied :
        (i : ℕ) (p : Pull) (reply : Reply N)
        → get_elem? c.waiting i ≡ some p
        → IsReply p.node reply
        → Step c (answer i reply c)

  pub data Reach : Console N → Type 0 where
    start : (id : Text) → Reach (mounted id)
    next : {c c' : Console N} → Reach c → Step c c' → Reach c'

  -- A request of an earlier run of the effect, of the running one, or of the button.
  data IsKnown (id : Text) (run : ℕ) (p : Pull) : Type 0 where
    stale : (r : ℕ) → p.run ≡ some r → r < run → IsKnown id run p
    current : p.run ≡ some run → p.node ≡ id → IsKnown id run p
    manual : p.run ≡ none → p.node ≡ id → IsKnown id run p

  record IsHonest (c : Console N) : Type 0 where
    own : IsShown c
    known : All (IsKnown c.node c.run) c.waiting

  grown :
      (id other : Text) (run : ℕ) (p : Pull)
      → IsKnown id run p
      → IsPolled p
      → IsKnown other (suc run) p
  grown id other run p (IsKnown.stale r e h) m = IsKnown.stale r e (omega arith)
  grown id other run p (IsKnown.current e k) m = IsKnown.stale run e (omega arith)
  grown id other run p (IsKnown.manual e k) (r, e1) = absurd (cc (e, e1))

  All-grown :
      (id other : Text) (run : ℕ) (ps : List Pull)
      → All (IsKnown id run) ps
      → All IsPolled ps
      → All (IsKnown other (suc run)) ps
  All-grown id other run [] h k = tt
  All-grown id other run (p ∷ ps) h k =
      (grown id other run p h.0 k.0, All-grown id other run ps h.1 k.1)

  -- An answer that is shown is one for the node shown.
  alive-own :
      (p : Pull) (c : Console N) → IsKnown c.node c.run p → is_alive p c ≡ true → p.node ≡ c.node
  alive-own p c (IsKnown.stale r e h) a = absurd (ground (arith, e, a))
  alive-own p c (IsKnown.current e k) a = k
  alive-own p c (IsKnown.manual e k) a = k

  show-IsHonest :
      (id : Text) (reply : Reply N) (c : Console N)
      → id ≡ c.node
      → IsReply id reply
      → IsHonest c
      → IsHonest (show reply c)
  show-IsHonest id (Reply.lines ls) c e r h = record {
    own = inr (subst (λ x. LogOf x ls) e r);
    known = h.known;
  }
  show-IsHonest id (Reply.failure msg) c e r h = record { own = h.own; known = h.known }

  abbrev without : ℕ → Console N → Console N
  without i c = record c { waiting = remove_at c.waiting i }

  without-IsHonest : (i : ℕ) (c : Console N) → IsHonest c → IsHonest (without i c)
  without-IsHonest i c h = record {
    own = h.own;
    known = All-remove_at (IsKnown c.node c.run) c.waiting i h.known;
  }

  answer_at :
      (i : ℕ) (p : Pull) (reply : Reply N) (c : Console N)
      → get_elem? c.waiting i ≡ some p
      → answer i reply c ≡ (if is_alive p c then show reply (without i c) else without i c)
  unfolding answer
  answer_at i p reply c e = simp (e, answer)

  answer-IsHonest :
      (i : ℕ) (p : Pull) (reply : Reply N) (c : Console N)
      → get_elem? c.waiting i ≡ some p
      → IsReply p.node reply
      → IsHonest c
      → IsHonest (answer i reply c)
  answer-IsHonest i p reply c e r h =
      subst IsHonest (sym (answer_at i p reply c e)) (elim (Bool-cases (is_alive p c)) [
        | inl a ↦ rw a (
            show-IsHonest p.node reply (without i c)
              (alive-own p c (All-get (IsKnown c.node c.run) c.waiting i h.known e) a) r
              (without-IsHonest i c h))
        | inr a ↦ rw a (without-IsHonest i c h)
      ])

  Step-IsHonest : {c c' : Console N} → Step c c' → IsHonest c → IsHonest c'
  Step-IsHonest {c} polled h = record {
    own = h.own;
    known = All-snoc (IsKnown c.node c.run) c.waiting _ h.known (IsKnown.current refl refl);
  }
  Step-IsHonest {c} refreshed h = record {
    own = h.own;
    known = All-snoc (IsKnown c.node c.run) c.waiting _ h.known (IsKnown.manual refl refl);
  }
  Step-IsHonest {c} (switched id k) h = record {
    own = inl refl;
    known =
        All-snoc (IsKnown id (suc c.run)) c.waiting _
          (All-grown c.node id c.run c.waiting h.known k) (IsKnown.current refl refl);
  }
  Step-IsHonest unmounted h = record { own = h.own; known = h.known }
  Step-IsHonest {c} (replied i p reply e r) h = answer-IsHonest i p reply c e r h

  Reach-IsHonest : {c : Console N} → Reach c → IsHonest c
  Reach-IsHonest (start id) = record { own = inl refl; known = (IsKnown.current refl refl, tt) }
  Reach-IsHonest (next r st) = Step-IsHonest st (Reach-IsHonest r)

  -- The console of a node shows no lines or lines that the backend may answer for that node, in
  -- every state that polls, refreshes, late answers, failures and other nodes lead to, if no
  -- refresh by the button waits for its answer when another node is shown.
  pub Reach-IsShown : {c : Console N} → Reach c → IsShown c
  Reach-IsShown r = (Reach-IsHonest r).own

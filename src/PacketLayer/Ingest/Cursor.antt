-- ===== src/PacketLayer/Ingest/Cursor.antt =====
-- frontend/components/PacketLayer.tsx, the event cursor of the ingest effect (lastIdRef).
use fast_share.Common.{
  ℕ, ◌≤◌, ◌<◌, ◌≡◌, refl, false, Option, List, [], ◌∷◌, ◌++◌, arith, inl, inr, Bool, true, ap, ◌∙◌,
}
use mathlib.Core.Path.{subst, sym}
use mathlib.Core.List.{Memᴰ}
use fast_share.Common.Tests.{Bool-cases}
use fast_share.Common.Lists.{All}
use fast_share.Common.Number.{Number}
use fast_share.Types.{PacketEvent, PacketStatus}
use fast_share.Canvas.Graph.{is_transferring, field_or}
use fast_share.PacketLayer.{Layer, Latest, spawn_ack}
use fast_share.PacketLayer.Ingest.{spawn_data, draw, ingest_event, ingest_events, ingest}

module _ {N : Type 0} ⦃num : Number N⦄ (latest : Latest N) where
  spawn_ack-last_id :
      (seq retries : ℕ) (at : N) (lane : ℕ) (l : Layer N)
      → (spawn_ack latest seq retries at lane l).last_id ≡ l.last_id
  unfolding spawn_ack
  spawn_ack-last_id seq retries at lane l = ground arith

  module _ (now : N) where
    spawn_data-last_id :
        (seq retries : ℕ) (lane : Option ℕ) (l : Layer N)
        → (spawn_data latest now seq retries lane l).last_id ≡ l.last_id
    unfolding spawn_data
    spawn_data-last_id seq retries lane l = ground arith

    draw-last_id :
        (st : PacketStatus) (e : PacketEvent N) (l : Layer N)
        → (draw latest now st e l).last_id ≡ l.last_id
    unfolding draw
    draw-last_id st e l = ground (arith, spawn_ack-last_id e.seq e.retries now)

    ingest_event-last_id :
        (e : PacketEvent N) (l : Layer N)
        → (l.last_id ≤ (ingest_event latest now e l).last_id)
          × (e.id ≤ (ingest_event latest now e l).last_id)
    unfolding ingest_event
    ingest_event-last_id e l = ground (arith, draw-last_id e.status e (record l { last_id = e.id }))

    ingest_events-last_id :
        (es : List (PacketEvent N)) (l : Layer N)
        → (l.last_id ≤ (ingest_events latest now es l).last_id)
          × All (λ e. e.id ≤ (ingest_events latest now es l).last_id) es
    unfolding ingest_events
    ingest_events-last_id [] l = (omega arith, tt)
    ingest_events-last_id (e ∷ es) l =
        let (up, drawn) = ingest_event-last_id e l in
        let (later, rest) = ingest_events-last_id es (ingest_event latest now e l) in
        (omega arith, (omega arith, rest))

    -- Events that the cursor has passed change nothing.
    ingest_events_passed :
        (es : List (PacketEvent N)) (l : Layer N)
        → All (λ e. e.id ≤ l.last_id) es
        → ingest_events latest now es l ≡ l
    unfolding ingest_events ingest_event
    ingest_events_passed [] l h = refl
    ingest_events_passed (e ∷ es) l h = ground (arith, ingest_events_passed es l h.1)

    ingest_events-append :
        (old fresh : List (PacketEvent N)) (l : Layer N)
        → ingest_events latest now (old ++ fresh) l
          ≡ ingest_events latest now fresh (ingest_events latest now old l)
    unfolding ingest_events
    ingest_events-append [] fresh l = refl
    ingest_events-append (e ∷ old) fresh l =
        ingest_events-append old fresh (ingest_event latest now e l)

    -- The stream above the cursor, in its order.
    abbrev pub IsFresh : ℕ → List (PacketEvent N) → Type 0
    IsFresh last [] = Unit
    IsFresh last (e ∷ es) = (last < e.id) × IsFresh e.id es

    -- Every event of the list, drawn with no test.
    abbrev pub draw_all : List (PacketEvent N) → Layer N → Layer N
    draw_all [] l = l
    draw_all (e ∷ es) l = draw_all es (draw latest now e.status e (record l { last_id = e.id }))

    -- A batch whose ids ascend above the cursor is drawn event by event, none skipped.
    pub ingest_events-draw_all :
        (es : List (PacketEvent N)) (l : Layer N)
        → IsFresh l.last_id es
        → ingest_events latest now es l ≡ draw_all es l
    unfolding ingest_events ingest_event
    ingest_events-draw_all [] l h = refl
    ingest_events-draw_all (e ∷ es) l h =
        let l' = draw latest now e.status e (record l { last_id = e.id }) in
        let kept = draw-last_id e.status e (record l { last_id = e.id }) in
        ground (arith, ingest_events-draw_all es l' (subst (λ n. IsFresh n es) (sym kept) h.1))

  -- Running the ingest effect again on the same properties, at any time, changes nothing.
  ingest_again :
      (now later : N) (l : Layer N)
      → ingest latest later (ingest latest now l) ≡ ingest latest now l
  unfolding ingest
  ingest_again now later l =
      elim (Bool-cases (field_or (λ s. is_transferring s.transfer_status) latest.status false)) [
        | inl on ↦ rw on (
            ingest_events_passed later latest.events (ingest_events latest now latest.events l)
              (ingest_events-last_id now latest.events l).1)
        | inr off ↦ rw off
      ]

-- `latest.status !== null && isTransferring(...)`, as the effect tests it
abbrev pub is_streaming : {N : Type 0} → Latest N → Bool
is_streaming latest = field_or (λ s. is_transferring s.transfer_status) latest.status false

All-lookup : {A : Type 0} (P : A → Type 0) (a : A) (xs : List A) → All P xs → Memᴰ a xs → P a
All-lookup P a [] h m = elim m [ ]
All-lookup P a (x ∷ xs) h (Memᴰ.head e) = subst P (sym e) h.0
All-lookup P a (x ∷ xs) h (Memᴰ.tail m) = All-lookup P a xs h.1 m

All-Memᴰ :
    {A : Type 0} (P : A → Type 0) (seen xs : List A)
    → All P xs
    → All (λ a. Memᴰ a xs) seen
    → All P seen
All-Memᴰ P [] xs h k = tt
All-Memᴰ P (a ∷ seen) xs h k = (All-lookup P a xs h k.0, All-Memᴰ P seen xs h k.1)

module _ {N : Type 0} ⦃num : Number N⦄ where
  ingest-streaming :
      (latest : Latest N) (now : N) (l : Layer N)
      → is_streaming latest ≡ true
      → ingest latest now l ≡ ingest_events latest now latest.events l
  unfolding ingest
  ingest-streaming latest now l on = rw on

  -- While a transfer runs, an ingest effect whose properties repeat events of those before it
  -- draws the new events only, whatever else has changed in the properties and at whatever times
  -- the two run.
  pub ingest-replay :
      (first second : Latest N) (now later : N) (seen fresh : List (PacketEvent N)) (l : Layer N)
      → is_streaming first ≡ true
      → is_streaming second ≡ true
      → second.events ≡ seen ++ fresh
      → All (λ e. Memᴰ e first.events) seen
      → ingest second later (ingest first now l)
        ≡ ingest_events second later fresh (ingest first now l)
  ingest-replay first second now later seen fresh l on still e h =
      let l' = ingest_events first now first.events l in
      let passed : All (λ x. x.id ≤ l'.last_id) seen =
        All-Memᴰ (λ x. x.id ≤ l'.last_id) seen first.events
          (ingest_events-last_id first now first.events l).1 h in
      rw (ingest-streaming first now l on) (
        ingest-streaming second later l' still
        ∙ ap (λ es. ingest_events second later es l') e
        ∙ ingest_events-append second later seen fresh l'
        ∙ ap (ingest_events second later fresh) (ingest_events_passed second later seen l' passed))

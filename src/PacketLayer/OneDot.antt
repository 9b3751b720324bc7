-- ===== src/PacketLayer/OneDot.antt =====
-- One DATA dot per frame, for event streams in the order in which the client marks a frame: after a
-- timeout nothing is sent of it before it is marked as retransmitted (backend/udp/client.py).
pub mod Events
use fast_share.Common.{
  ℕ, suc, ◌+◌, ◌≤◌, ◌<◌, ◌≡◌, ◌≢◌, refl, sym, ap, ◌∙◌, Bool, true, false, not, ◌&&◌, Option, none,
  some, List, [], ◌∷◌, ◌++◌, arith, inl, inr,
}
use fast_share.Common.Tests.{if◌then◌else◌, Bool-cases, Option-cases, ◌==◌, ==_iff, or_else}
use fast_share.Common.Lists.{count_if, find, update_first, remove_first}
use fast_share.Common.Counting.{
  count_if-append, count_if-update_first, count_if-remove_first, count_if-remove_first_self,
}
use fast_share.Common.Number.{Number}
use fast_share.Types.{PacketEvent, PacketStatus}
use fast_share.PacketLayer.{Sprite, Layer, Latest, push, ack_sprite}
use fast_share.PacketLayer.Spawn.{Spawned, spawn_ack-Spawned}
use fast_share.PacketLayer.Ingest.{
  is_data_of, is_active, is_timeout, is_frame, time_out, data_sprite, spawn_data, see_ack, expire,
  drop_dot, on_sent, on_acked, on_timeout, on_retransmitted, draw, ingest_events,
}
use fast_share.PacketLayer.Ingest.Cases.{Drawn, spawn_data-Drawn}
use fast_share.PacketLayer.Ingest.Cursor.{IsFresh, draw_all, ingest_events-draw_all}

module _ {N : Type 0} (q : ℕ) where
  -- a DATA dot of the frame that has timed out
  abbrev pub is_late : Sprite N → Bool
  is_late s = is_data_of q s && is_timeout s.phase

  pub count_late_le : (xs : List (Sprite N)) → count_if is_late xs ≤ count_if (is_data_of q) xs
  unfolding count_if
  count_late_le [] = omega arith
  count_late_le (x ∷ xs) = ground (arith, count_late_le xs)

  -- With no active dot every dot of the frame has timed out.
  pub count_no_active :
      (xs : List (Sprite N))
      → find (is_active q) xs ≡ none
      → count_if (is_data_of q) xs ≡ count_if is_late xs
  unfolding count_if find
  count_no_active [] e = refl
  count_no_active (x ∷ xs) e = ground (arith, count_no_active xs)

-- What has happened to the frame: whether its last attempt has timed out.
abbrev pub next_late : PacketStatus → Bool → Bool
next_late PacketStatus.sent late = late
next_late PacketStatus.waiting late = late
next_late PacketStatus.acked late = late
next_late PacketStatus.timeout late = true
next_late PacketStatus.failed late = true
next_late PacketStatus.retransmitted late = false

abbrev pub MayCome : PacketStatus → Bool → Type 0
MayCome PacketStatus.sent late = late ≡ false
MayCome PacketStatus.waiting late = late ≡ false
MayCome _ late = Unit

abbrev pub late_after : {N : Type 0} → ℕ → PacketEvent N → Bool → Bool
late_after q e late = if e.seq == q then next_late e.status late else late

-- The events of frame `q` come in the client's order.
abbrev pub IsDisciplined : {N : Type 0} → ℕ → Bool → List (PacketEvent N) → Type 0
IsDisciplined q late [] = Unit
IsDisciplined q late (e ∷ es) =
    (e.seq ≡ q → MayCome e.status late) × IsDisciplined q (late_after q e late) es

-- At most one DATA dot of the frame, and none that has timed out unless the last attempt has.
pub record HasOneDot {N : Type 0} (q : ℕ) (late : Bool) (l : Layer N) : Type 0 where
  pub one : count_if (is_data_of q) l.sprites ≤ 1
  pub calm : late ≡ false → count_if (is_late q) l.sprites ≡ 0

module _ {N : Type 0} ⦃num : Number N⦄ (latest : Latest N) (now : N) (q : ℕ) where
  pub Spawned-HasOneDot :
      (late : Bool) (seq retries lane : ℕ) (l l' : Layer N)
      → Spawned latest seq retries now lane l l'
      → HasOneDot q late l
      → HasOneDot q late l'
  unfolding ack_sprite count_if
  Spawned-HasOneDot late seq retries lane l l' (Spawned.no_path e eq) h = rw eq h
  Spawned-HasOneDot late seq retries lane l l' (Spawned.pushed pts e eq) h =
      let a = ack_sprite latest l.next_id seq retries now lane pts in
      rw eq (record {
        one = omega (arith, h.one, count_if-append (is_data_of q) l.sprites (a ∷ []));
        calm = λ c. omega (arith, h.calm c, count_if-append (is_late q) l.sprites (a ∷ []));
      })

  pub Drawn-other :
      (late : Bool) (seq retries : ℕ) (lane : Option ℕ) (l l' : Layer N)
      → seq ≢ q
      → Drawn latest now seq retries lane l l'
      → HasOneDot q late l
      → HasOneDot q late l'
  unfolding data_sprite count_if
  Drawn-other late seq retries lane l l' ne (Drawn.skipped eq) h = rw eq h
  Drawn-other late seq retries lane l l' ne (Drawn.pushed ids path e k room eq) h =
      let a = data_sprite latest now l.next_id seq retries (or_else lane 0) ids path in
      rw eq (record {
        one = ground (arith, h.one, count_if-append (is_data_of q) l.sprites (a ∷ []));
        calm = λ c. ground (arith, h.calm c, count_if-append (is_late q) l.sprites (a ∷ []));
      })

  pub Drawn-self :
      (late : Bool) (retries : ℕ) (lane : Option ℕ) (l l' : Layer N)
      → Drawn latest now q retries lane l l'
      → count_if (is_data_of q) l.sprites ≡ 0
      → HasOneDot q late l'
  unfolding data_sprite count_if
  Drawn-self late retries lane l l' (Drawn.skipped eq) h =
      rw eq (record { one = omega arith; calm = λ c. omega (arith, count_late_le q l.sprites) })
  Drawn-self late retries lane l l' (Drawn.pushed ids path e k room eq) h =
      let a = data_sprite latest now l.next_id q retries (or_else lane 0) ids path in
      rw eq (record {
        one = ground (arith, h, count_if-append (is_data_of q) l.sprites (a ∷ []));
        calm = λ c.
            ground
              (arith, h, count_late_le q l.sprites, count_if-append (is_late q) l.sprites (a ∷ []));
      })

  pub see_ack-HasOneDot :
      (late : Bool) (seq : ℕ) (l : Layer N)
      → HasOneDot q late l
      → HasOneDot q late (see_ack latest now seq l)
  see_ack-HasOneDot late seq l h =
      let mark : Sprite N → Sprite N = λ s. record s { ack_seen = true } in
      record {
        one = omega (
          arith,
          h.one,
          count_if-update_first (is_data_of q) (is_active seq) mark l.sprites (λ x e. refl),
        );
        calm = λ c. omega (
          arith,
          h.calm c,
          count_if-update_first (is_late q) (is_active seq) mark l.sprites (λ x e. refl),
        );
      }

  pub expire-other :
      (late : Bool) (seq : ℕ) (s : Sprite N) (l : Layer N)
      → seq ≢ q
      → HasOneDot q late l
      → HasOneDot q late (expire latest now seq s l)
  unfolding time_out
  expire-other late seq s l ne h = record {
    one = omega (
      arith,
      h.one,
      count_if-update_first (is_data_of q) (is_active seq) (time_out latest now) l.sprites
          (λ x e. refl),
    );
    calm = λ c. omega (
      arith,
      h.calm c,
      count_if-update_first (is_late q) (is_active seq) (time_out latest now) l.sprites
          (λ x e. ground arith),
    );
  }

  pub expire_self :
      (s : Sprite N) (l : Layer N)
      → count_if (is_data_of q) l.sprites ≤ 1
      → HasOneDot q true (expire latest now q s l)
  unfolding time_out
  expire_self s l h = record {
    one = omega (
      arith,
      h,
      count_if-update_first (is_data_of q) (is_active q) (time_out latest now) l.sprites
          (λ x e. refl),
    );
    calm = λ c. cc;
  }

  pub drop_dot-HasOneDot :
      (late : Bool) (seq : ℕ) (l : Layer N)
      → HasOneDot q late l
      → HasOneDot q late (drop_dot latest now seq l)
  drop_dot-HasOneDot late seq l h = record {
    one = omega (arith, h.one, count_if-remove_first (is_data_of q) (is_data_of seq) l.sprites);
    calm =
        λ c. omega (arith, h.calm c, count_if-remove_first (is_late q) (is_data_of seq) l.sprites);
  }

  pub HasOneDot-late : (late : Bool) (l : Layer N) → HasOneDot q late l → HasOneDot q true l
  HasOneDot-late late l h = record { one = h.one; calm = λ c. cc }

-- ===== src/Api/Surface/Follows.antt =====
-- surface.go: what a connection's client shows while callbacks, broadcasts and replays interleave.
use cuebooth.Prelude.{
  ℕ, ◌+◌, ◌≡◌, refl, sym, ap, ◌∙◌, Bool, true, false, Option, none, some, List, [], ◌∷◌,
  if◌then◌else◌, Bytes, arith, Option-cases, inl, inr, subst,
}
use cuebooth.Client.Fields.{Cell, apply_frame, apply_frames, apply_layout}
use cuebooth.Companion.Satellite.{SatelliteKey}
use cuebooth.Api.Surface.{
  SurfaceLayoutFrame, SurfaceKeyFrame, SurfaceManager, Sent, layout_sent, key_sent, Scene, Event,
  key_event, layout_event, clear_event, broadcast_event, entered, departed, sent_initial,
  sent_across, step, serve, stored, first_of, listed, to_member, insert_at, apart, on_key,
  on_layout, on_clear, store_key, frame_of, in_bounds, send_initial,
}
use cuebooth.Api.Surface.Cache.{cached, UpTo, UpTo-stored, cached-set_frame, seq-frame_of}
use cuebooth.Api.Surface.Shown.{
  frame_of_sent, frames_of, frames_of-append, apply_append, replayed, layout_empties, newer_takes,
  apply_at_layout,
}
use cuebooth.Api.Surface.Across.{Waits, bounded_layout, bounded_key, absorbed, replayed_across}

module _ (marshal : SurfaceKeyFrame → Bytes) (marshal_layout : SurfaceLayoutFrame → Bytes) where
  -- What holds of a connection whose client shows `c` at key `k` once it has read what it was sent: in
  -- the hub and sent a replay since, it shows the cache, what is pending included.
  pub record Follows (k : ℕ) (s : Scene) (c : Cell) : Type 0 where
    pub up_to : UpTo s.manager.seq s.manager.keys
    pub bounded : apply_layout s.manager.seq c ≡ none
    pub waits : Waits marshal marshal_layout k s.manager s.pending
    pub member : s.fresh ≡ true → s.member ≡ true
    pub shown :
        s.fresh ≡ true
        → apply_frames k c (frames_of marshal marshal_layout (listed s.pending))
          ≡ cached marshal k s.manager.keys

  bounded_more : (n : ℕ) (c : Cell) → apply_layout n c ≡ none → apply_layout (n + 1) c ≡ none
  unfolding apply_layout
  bounded_more n none h = refl
  bounded_more n (some (last, held)) h = ground (arith, h)

  bounded_pending :
      (k : ℕ) (m : SurfaceManager) (c : Cell) (o : Option Sent)
      → Waits marshal marshal_layout k m o
      → apply_layout m.seq c ≡ none
      → apply_layout m.seq (apply_frames k c (frames_of marshal marshal_layout (listed o))) ≡ none
  bounded_pending k m c none w b = b
  bounded_pending k m c (some (layout_sent l)) w b =
      bounded_layout marshal marshal_layout k m.seq c l b
  bounded_pending k m c (some (key_sent f)) w b =
      bounded_key marshal marshal_layout k m.seq c f w.0 b

  -- A callback comes only when nothing is pending.
  stored-Follows :
      (k : ℕ) (s : Scene) (c : Cell) (o : Option Sent) (p : SurfaceManager × List Sent)
      → s.pending ≡ o
      → Follows k s c
      → (s.pending ≡ none → Follows k (record s { manager = p.0; pending = first_of p.1 }) c)
      → Follows k (stored s o p) c
  stored-Follows k s c none p e f stores = stores e
  stored-Follows k s c (some x) p e f stores = f

  -- With nothing pending the client shows the cache.
  pub settled :
      (k : ℕ) (s : Scene) (c : Cell)
      → s.pending ≡ none
      → Follows k s c
      → s.fresh ≡ true
      → c ≡ cached marshal k s.manager.keys
  settled k s c e f fresh =
      subst
        (λ o.
          apply_frames k c (frames_of marshal marshal_layout (listed o))
          ≡ cached marshal k s.manager.keys)
        e (f.shown fresh)

  emptied :
      (k : ℕ) (s : Scene) (c : Cell) (rows cols size : ℕ) (l : SurfaceLayoutFrame)
      → l.seq ≡ s.manager.seq
      → s.pending ≡ none
      → Follows k s c
      → Follows k
          (record s {
            manager = record s.manager { rows = rows; cols = cols; bitmap_size = size; keys = [] };
            pending = some (layout_sent l);
          })
          c
  unfolding cached
  emptied k s c rows cols size l at e f = record {
    up_to = tt;
    bounded = f.bounded;
    waits = (at, refl);
    member = f.member;
    shown = λ fresh. apply_at_layout marshal marshal_layout k c l ∙ rw at f.bounded;
  }

  on_key-Follows :
      (k : ℕ) (s : Scene) (c : Cell) (key : SatelliteKey)
      → s.pending ≡ none
      → Follows k s c
      → Follows k
          (record s {
            manager = (on_key s.manager key).0;
            pending = first_of (on_key s.manager key).1;
          })
          c
  unfolding on_key store_key
  on_key-Follows k s c key e f = elim (Option-cases (in_bounds s.manager key.key)) [
    | inl outside ↦ rw outside (record {
      up_to = f.up_to;
      bounded = f.bounded;
      waits = tt;
      member = f.member;
      shown = λ fresh. settled k s c e f fresh;
    })
    | inr (n, inside) ↦
        let m = s.manager in
        let frame = frame_of m (m.seq + 1) n key in
        let at : frame.seq ≡ m.seq + 1 = seq-frame_of m (m.seq + 1) n key in
        rw inside (record {
          up_to = UpTo-stored m n key f.up_to;
          bounded = bounded_more m.seq c f.bounded;
          waits = (
            omega (arith, at),
            λ here.
                cached-set_frame marshal k frame m.keys
                ∙ ap (λ b. if b then some (frame.seq, marshal frame) else cached marshal k m.keys)
                    here,
          );
          member = f.member;
          shown = λ fresh.
              ap (λ d. apply_frame k d (frame_of_sent marshal marshal_layout (key_sent frame)))
                (settled k s c e f fresh)
              ∙ (newer_takes marshal marshal_layout k m.seq frame m.keys f.up_to (omega (arith, at))
                  ∙ sym (cached-set_frame marshal k frame m.keys));
        })
  ]

  replayed-Follows :
      (k : ℕ) (s : Scene) (c : Cell) (o : Option Sent)
      → Waits marshal marshal_layout k s.manager o
      → c ≡ cached marshal k s.manager.keys
      → UpTo s.manager.seq s.manager.keys
      → Follows k (record s { pending = o; fresh = s.member }) c
  replayed-Follows k s c o w e u = record {
    up_to = u;
    bounded = rw e (layout_empties marshal marshal_layout k s.manager.seq s.manager.keys u);
    waits = w;
    member = λ h. h;
    shown = λ h. rw e (absorbed marshal marshal_layout k s.manager o w);
  }

  broadcast-Follows :
      (k : ℕ) (s : Scene) (c : Cell) (member : Bool)
      → s.member ≡ member
      → Follows k s c
      → Follows k
          (record s { pending = none })
          (apply_frames k c (frames_of marshal marshal_layout (to_member member s.pending)))
  broadcast-Follows k s c true e f = record {
    up_to = f.up_to;
    bounded = bounded_pending k s.manager c s.pending f.waits f.bounded;
    waits = tt;
    member = f.member;
    shown = f.shown;
  }
  broadcast-Follows k s c false e f = record {
    up_to = f.up_to;
    bounded = f.bounded;
    waits = tt;
    member = f.member;
    shown = λ fresh. absurd (cc (f.member fresh, e));
  }

  across_member :
      (k n : ℕ) (s : Scene) (c : Cell) (member : Bool)
      → Follows k s c
      → apply_frames k c (
          frames_of marshal marshal_layout
            (insert_at n (to_member member s.pending) (send_initial s.manager)))
        ≡ cached marshal k s.manager.keys
  across_member k n s c true f =
      replayed_across marshal marshal_layout k n s.manager c s.pending f.up_to f.bounded f.waits
  across_member k n s c false f =
      replayed_across marshal marshal_layout k n s.manager c none f.up_to f.bounded tt

  pub step-Follows :
      (k : ℕ) (s : Scene) (c : Cell) (e : Event)
      → Follows k s c
      → Follows k (step s e).0 (apply_frames k c (frames_of marshal marshal_layout (step s e).1))
  unfolding step on_layout on_clear
  step-Follows k s c (key_event key) f =
      stored-Follows k s c s.pending _ refl f (λ h. on_key-Follows k s c key h f)
  step-Follows k s c (layout_event rows cols size) f =
      stored-Follows k s c s.pending _ refl f (λ h. emptied k s c rows cols size _ refl h f)
  step-Follows k s c clear_event f =
      stored-Follows k s c s.pending _ refl f
        (λ h. emptied k s c s.manager.rows s.manager.cols s.manager.bitmap_size _ refl h f)
  step-Follows k s c broadcast_event f = broadcast-Follows k s c s.member refl f
  step-Follows k s c entered f = record {
    up_to = f.up_to;
    bounded = f.bounded;
    waits = f.waits;
    member = λ h. cc;
    shown = λ h. cc;
  }
  step-Follows k s c departed f = record {
    up_to = f.up_to;
    bounded = f.bounded;
    waits = f.waits;
    member = λ h. cc;
    shown = λ h. cc;
  }
  step-Follows k s c sent_initial f =
      replayed-Follows k s _ s.pending f.waits
        (replayed marshal marshal_layout k s.manager c f.up_to f.bounded) f.up_to
  step-Follows k s c (sent_across n) f =
      replayed-Follows k s _ none tt (across_member k n s c s.member f) f.up_to

  pub serve-Follows :
      (k : ℕ) (s : Scene) (c : Cell) (es : List Event)
      → Follows k s c
      → Follows k
          (serve s es).0
          (apply_frames k c (frames_of marshal marshal_layout (serve s es).1))
  unfolding serve
  serve-Follows k s c [] f = f
  serve-Follows k s c (e ∷ es) f =
      let s' = (step s e).0 in
      let sent = frames_of marshal marshal_layout (step s e).1 in
      let later = frames_of marshal marshal_layout (serve s' es).1 in
      subst (Follows k (serve s' es).0)
        (sym (
          ap (λ fs. apply_frames k c fs)
            (frames_of-append marshal marshal_layout (step s e).1 (serve s' es).1)
          ∙ apply_append marshal marshal_layout k c sent later))
        (serve-Follows k s' (apply_frames k c sent) es (step-Follows k s c e f))

  pub apart-Follows : (k : ℕ) (m : SurfaceManager) → UpTo m.seq m.keys → Follows k (apart m) none
  unfolding apply_layout
  apart-Follows k m u = record {
    up_to = u;
    bounded = refl;
    waits = tt;
    member = λ h. cc;
    shown = λ h. cc;
  }

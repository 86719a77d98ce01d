-- ===== src/Api/SendQueue/Delivery.antt =====
-- What a client ends up with when it has read everything its queue held, the images apart.
use cuebooth.Prelude.{
  ℕ, suc, ◌≤◌, ◌≡◌, refl, ◌∙◌, sym, ap, true, false, Option, some, List, [], ◌∷◌, arith,
  if◌then◌else◌, Bytes, ap₂, subst,
}
use cuebooth.Api.SendQueue.{SurfaceFrame, SendQueue, new_send_queue, key_frame, layout_frame}
use cuebooth.Api.SendQueue.Frames.{
  Lanes, Call, other, key_update, re_layout, take, answer, perform, put_key, put_layout,
  LayoutsBelow, IsCoherent, has_newer_layout,
}
use cuebooth.Api.SendQueue.Coalesce.{apply_frames-put_key}
use cuebooth.Api.SendQueue.Coalesce.Layouts.{
  apply_frames-put_layout, apply_dimensions-put_key, apply_dimensions-put_layout,
}
use cuebooth.Api.SendQueue.Coalesce.Coherent.{
  LayoutsBelow-put_key, LayoutsBelow-put_layout, put_key-IsCoherent, put_layout-IsCoherent,
}
use cuebooth.Api.SendQueue.Handles.{IsValid, frames}
use cuebooth.Api.SendQueue.Handles.Refinement.{perform-Refines, new_send_queue-IsValid}
use cuebooth.Api.SendQueue.Handles.Pushes.{view}
use cuebooth.Client.Fields.{Cell, apply_frames, apply_dimensions}

-- What the client shows at one key, the image apart: the dimensions that it was last told, and the
-- key's cell.
abbrev pub Screen : Type 0
Screen = Option Bytes × Cell

abbrev pub show : ℕ → Screen → List SurfaceFrame → Screen
show k (d, c) fs = (apply_dimensions d fs, apply_frames k c fs)

-- The surface frame that a call of `pop` hands to the socket, if it hands one.
abbrev pub delivered : Lanes → List SurfaceFrame
delivered l = elim l.state [
  | [] ↦ elim l.surface [ [] ↦ [] | f ∷ fs ↦ f ∷ [] ]
  | payload ∷ rest ↦ []
]

-- The surface frames that calls push, in order.
abbrev pub pushed : List Call → List SurfaceFrame
pushed [] = []
pushed (other payload ∷ rest) = pushed rest
pushed (key_update key seq payload ∷ rest) = key_frame key seq payload ∷ pushed rest
pushed (re_layout seq payload ∷ rest) = layout_frame seq payload ∷ pushed rest
pushed (take ∷ rest) = pushed rest

-- Layouts come in the order of their sequences, as the surface manager sends them.
abbrev pub LayoutsRise : ℕ → List Call → Type 0
LayoutsRise lo [] = Unit {0}
LayoutsRise lo (re_layout seq payload ∷ rest) = (lo ≤ seq) × LayoutsRise seq rest
LayoutsRise lo (other payload ∷ rest) = LayoutsRise lo rest
LayoutsRise lo (key_update key seq payload ∷ rest) = LayoutsRise lo rest
LayoutsRise lo (take ∷ rest) = LayoutsRise lo rest

-- The client reads a frame whenever the write loop pops one.
abbrev pub screen_step : ℕ → Screen → Lanes → Call → Screen
screen_step k s l take = show k s (delivered l)
screen_step k s l (other payload) = s
screen_step k s l (key_update key seq payload) = s
screen_step k s l (re_layout seq payload) = s

unfoldable pub run : ℕ → SendQueue → Screen → List Call → SendQueue × Screen
run k q s [] = (q, s)
run k q s (c ∷ rest) = run k (perform q c).0 (screen_step k s (view q) c) rest

-- The same over the lists of frames.
run_lanes : ℕ → Lanes → Screen → List Call → Lanes × Screen
run_lanes k l s [] = (l, s)
run_lanes k l s (c ∷ rest) = run_lanes k (answer l c).0 (screen_step k s l c) rest

none_newer :
    (lo seq : ℕ) (fs : List SurfaceFrame)
    → lo ≤ seq
    → LayoutsBelow (suc lo) fs
    → has_newer_layout seq fs ≡ false
unfolding has_newer_layout
none_newer lo seq [] h b = refl
none_newer lo seq (f ∷ fs) h b = ground (arith, none_newer lo seq fs h b.1, b.0)

-- Popping a frame and showing it leaves what the whole lane would show.
take_shows :
    (k below : ℕ) (s : Screen) (state : List Bytes) (fs : List SurfaceFrame)
    → IsCoherent fs
    → LayoutsBelow below fs
    → let l : Lanes = record { state = state; surface = fs } in
      let l' = (answer l take).0 in
      (show k (show k s (delivered l)) l'.surface ≡ show k s fs)
      × IsCoherent l'.surface
      × LayoutsBelow below l'.surface
unfolding answer
take_shows k below s [] [] h b = (refl, h, b)
take_shows k below s [] (f ∷ fs) h b = (refl, h.2, b.1)
take_shows k below s (payload ∷ rest) fs h b = (refl, h, b)

module _ (k : ℕ) (s : Screen) (fs : List SurfaceFrame) (h : IsCoherent fs) where
  key_shows :
      (f : SurfaceFrame)
      → f.layout ≡ false
      → show k s (put_key f fs) ≡ show k (show k s fs) (f ∷ [])
  key_shows f r i = (
    (apply_dimensions-put_key s.0 f fs r
          ∙ sym (ap (λ b. if b then some f.payload else apply_dimensions s.0 fs) r))
        i,
    apply_frames-put_key k s.1 f fs r h i,
  )

  layout_shows :
      (f : SurfaceFrame)
      → f.layout ≡ true
      → has_newer_layout f.seq fs ≡ false
      → show k s (put_layout f fs) ≡ show k (show k s fs) (f ∷ [])
  layout_shows f l e i = (
    (apply_dimensions-put_layout s.0 f fs l e
          ∙ sym (ap (λ b. if b then some f.payload else apply_dimensions s.0 fs) l))
        i,
    apply_frames-put_layout k s.1 f fs l h e i,
  )

surface-other : (l : Lanes) (payload : Bytes) → (answer l (other payload)).0.surface ≡ l.surface
unfolding answer
surface-other l payload = ground arith

run_lanes_lem :
    (k lo : ℕ) (l : Lanes) (s : Screen) (calls : List Call)
    → IsCoherent l.surface
    → LayoutsBelow (suc lo) l.surface
    → LayoutsRise lo calls
    → let (l', s') = run_lanes k l s calls in
      show k s' l'.surface ≡ show k (show k s l.surface) (pushed calls)
unfolding run_lanes answer
run_lanes_lem k lo l s [] h b r = refl
run_lanes_lem k lo l s (other payload ∷ rest) h b r =
    let l' = (answer l (other payload)).0 in
    let same : l'.surface ≡ l.surface = surface-other l payload in
    run_lanes_lem k lo l' s rest (rw same h) (rw same b) r
    ∙ ap (λ fs. show k (show k s fs) (pushed rest)) same
run_lanes_lem k lo l s (key_update key seq payload ∷ rest) h b r =
    let f = key_frame key seq payload in
    run_lanes_lem k lo (record l { surface = put_key f l.surface }) s rest
      (put_key-IsCoherent f l.surface refl h) (LayoutsBelow-put_key (suc lo) f l.surface refl b) r
    ∙ ap (λ t. show k t (pushed rest)) (key_shows k s l.surface h f refl)
run_lanes_lem k lo l s (re_layout seq payload ∷ rest) h b r =
    let f = layout_frame seq payload in
    let e = none_newer lo seq l.surface r.0 b in
    run_lanes_lem k seq (record l { surface = put_layout f l.surface }) s rest
      (put_layout-IsCoherent f l.surface refl h)
      (LayoutsBelow-put_layout (suc seq) f l.surface (omega arith) e) r.1
    ∙ ap (λ t. show k t (pushed rest)) (layout_shows k s l.surface h f refl e)
run_lanes_lem k lo l s (take ∷ rest) h b r =
    let t = take_shows k (suc lo) s l.state l.surface h b in
    run_lanes_lem k lo (answer l take).0 (show k s (delivered l)) rest t.1 t.2 r
    ∙ ap (λ u. show k u (pushed rest)) t.0

run_lem :
    (k : ℕ) (q : SendQueue) (s : Screen) (calls : List Call)
    → IsValid q
    → (view (run k q s calls).0 ≡ (run_lanes k (view q) s calls).0)
      × ((run k q s calls).1 ≡ (run_lanes k (view q) s calls).1)
unfolding run run_lanes
run_lem k q s [] v = (refl, refl)
run_lem k q s (c ∷ rest) v =
    let step = perform-Refines q c v in
    let s' = screen_step k s (view q) c in
    let after = run k (perform q c).0 s' rest in
    subst (λ l. (view after.0 ≡ (run_lanes k l s' rest).0) × (after.1 ≡ (run_lanes k l s' rest).1))
      step.1 (run_lem k (perform q c).0 s' rest step.0)

-- Whatever calls a fresh queue serves, reads by the write loop among them: at every key, once what
-- is still queued is shown too, the client's screen, the images apart, is the one that showing every
-- pushed surface frame, one by one, would have given. Provided that the layouts come in the order of
-- their sequences.
pub drained_screen :
    (k : ℕ) (s : Screen) (calls : List Call)
    → LayoutsRise 0 calls
    → let (q, s') = run k new_send_queue s calls in
      show k s' (frames q.surface) ≡ show k s (pushed calls)
unfolding new_send_queue
drained_screen k s calls r =
    let e = run_lem k new_send_queue s calls new_send_queue-IsValid in
    ap₂ (λ (t : Screen) (l : Lanes). show k t l.surface) e.1 e.0
    ∙ run_lanes_lem k 0 (view new_send_queue) s calls tt tt r

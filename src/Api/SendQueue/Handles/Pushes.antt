-- ===== src/Api/SendQueue/Handles/Pushes.antt =====
-- sendqueue.go: the pushes, against the specification.
use cuebooth.Prelude.{
  ℕ, ◌≡◌, refl, sym, ◌∙◌, none, some, [], ◌∷◌, ◌++◌, arith, ap, inl, inr, Bool-cases, Option-cases,
  Bytes,
}
use cuebooth.Api.SendQueue.{
  Element, SendQueue, key_frame, layout_frame, set_key, value_of, at_least, push_back, poke,
  push_key_at, push_surface_key, sweep, drop_layout, is_newer_layout, push_surface_layout,
}
use cuebooth.Api.SendQueue.Frames.{put_key, put_layout, keep, has_newer_layout, Lanes}
use cuebooth.Api.SendQueue.Coalesce.Coherent.{put_key-IsCoherent, put_layout-IsCoherent}
use cuebooth.Api.SendQueue.Handles.{
  frames, key_handle, layout_handle, Ascending, IsValid, frames-append, Ascending-append,
  key_handle-append, layout_handle-append,
}
use cuebooth.Api.SendQueue.Handles.Sweep.{Swept, drop_layout-Swept, has_newer_layout_lem}
use cuebooth.Api.SendQueue.Handles.Keys.{
  put_key_fresh, put_key_held, key_handle-set_value, layout_handle-set_value, Ascending-set_value,
}

abbrev pub view : SendQueue → Lanes
view q = record { state = q.state; surface = frames q.surface }

push_key_fresh :
    (q : SendQueue) (key seq : ℕ) (payload : Bytes)
    → IsValid q
    → q.keys key ≡ none
    → let q' = push_key_at q none key seq payload in
      IsValid q' × (frames q'.surface ≡ put_key (key_frame key seq payload) (frames q.surface))
unfolding push_key_at set_key
push_key_fresh q key seq payload v fresh =
    let f = key_frame key seq payload in
    let absent : key_handle key q.surface ≡ none = sym (v.keyed key) ∙ fresh in
    let e = put_key_fresh f q.surface absent in
    let front = frames-append q.surface (record { handle = q.next_id; value = f }) in
    (
      record {
        keyed = λ k. ground (
          arith,
          key_handle-append k q.surface (record { handle = q.next_id; value = f }),
          v.keyed k,
          absent,
        );
        laid = ground (
          arith,
          layout_handle-append q.surface (record { handle = q.next_id; value = f }),
          v.laid,
        );
        ordered = Ascending-append 0 q.next_id q.surface f v.ordered;
        coherent = rw (front, ← e) (put_key-IsCoherent f (frames q.surface) refl v.coherent);
      },
      front ∙ sym e,
    )

push_key_held :
    (q : SendQueue) (h key seq : ℕ) (payload : Bytes)
    → IsValid q
    → q.keys key ≡ some h
    → let q' = push_key_at q (some h) key seq payload in
      IsValid q' × (frames q'.surface ≡ put_key (key_frame key seq payload) (frames q.surface))
unfolding push_key_at
push_key_held q h key seq payload v held =
    let f = key_frame key seq payload in
    let found : key_handle key q.surface ≡ some h = sym (v.keyed key) ∙ held in
    let e = put_key_held f h refl 0 q.next_id q.surface v.ordered found in
    elim (Bool-cases (at_least seq (value_of h q.surface))) [
      | inl older ↦ rw older ((v, sym (rw older at e)))
      | inr newer ↦
          let e' = rw newer at e in
          rw newer (
            (
              record {
                keyed = λ k.
                    v.keyed k
                    ∙ sym (key_handle-set_value f h refl k 0 q.next_id q.surface v.ordered found);
                laid =
                    v.laid
                    ∙ sym (layout_handle-set_value f h refl 0 q.next_id q.surface v.ordered found);
                ordered = Ascending-set_value f h refl 0 q.next_id q.surface v.ordered;
                coherent = rw (← e') (put_key-IsCoherent f (frames q.surface) refl v.coherent);
              },
              sym e',
            ))
    ]

pub push_surface_key_lem :
    (q : SendQueue) (key seq : ℕ) (payload : Bytes)
    → IsValid q
    → let q' = push_surface_key q key seq payload in
      IsValid q' × (frames q'.surface ≡ put_key (key_frame key seq payload) (frames q.surface))
unfolding push_surface_key
push_surface_key_lem q key seq payload v = elim (Option-cases (q.keys key)) [
  | inl fresh ↦ rw fresh (push_key_fresh q key seq payload v fresh)
  | inr (h, held) ↦ rw held (push_key_held q h key seq payload v held)
]

push_layout_front :
    (q : SendQueue) (seq : ℕ) (payload : Bytes) (kept : SendQueue)
    → Swept q seq kept
    → let q' =
        poke (record (push_back kept (layout_frame seq payload)) { layout = some kept.next_id }) in
      ((k : ℕ) → q'.keys k ≡ key_handle k q'.surface)
      × (q'.layout ≡ layout_handle q'.surface)
      × Ascending 0 q'.next_id q'.surface
      × (frames q'.surface ≡ keep seq (frames q.surface) ++ layout_frame seq payload ∷ [])
unfolding push_back poke
push_layout_front q seq payload kept s =
    let f = layout_frame seq payload in
    let e : Element = record { handle = kept.next_id; value = f } in
    (
      λ k. ground (arith, key_handle-append k kept.surface e, s.keyed k),
      ground (arith, layout_handle-append kept.surface e, s.cleared),
      Ascending-append 0 kept.next_id kept.surface f s.ordered,
      frames-append kept.surface e ∙ ap (λ fs. fs ++ f ∷ []) s.remaining,
    )

is_newer_layout_lem :
    (q : SendQueue) (seq : ℕ)
    → IsValid q
    → is_newer_layout q seq ≡ has_newer_layout seq (frames q.surface)
unfolding is_newer_layout
is_newer_layout_lem q seq v =
    rw (v.laid, is_newer_layout) (sym (has_newer_layout_lem seq 0 q.next_id q.surface v.ordered))

pub push_surface_layout_lem :
    (q : SendQueue) (seq : ℕ) (payload : Bytes)
    → IsValid q
    → let q' = push_surface_layout q seq payload in
      IsValid q' × (frames q'.surface ≡ put_layout (layout_frame seq payload) (frames q.surface))
unfolding push_surface_layout put_layout
push_surface_layout_lem q seq payload v =
    let f = layout_frame seq payload in
    let newer_lem = is_newer_layout_lem q seq v in
    let safe = put_layout-IsCoherent f (frames q.surface) refl v.coherent in
    elim (Bool-cases (has_newer_layout seq (frames q.surface))) [
      | inl newer ↦ rw (newer_lem, newer) ((v, refl))
      | inr not_newer ↦
          let s =
            push_layout_front q seq payload (drop_layout (sweep q seq))
              (drop_layout-Swept q seq v) in
          rw (newer_lem, not_newer)
            ((
              record {
                keyed = s.0;
                laid = s.1;
                ordered = s.2;
                coherent = rw s.3 (rw not_newer at safe);
              },
              s.3,
            ))
    ]

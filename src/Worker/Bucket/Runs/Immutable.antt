-- ===== src/Worker/Bucket/Runs/Immutable.antt =====
-- Handlers that only create objects, except at the keys that are meant to change, never change an
-- object anywhere else, in any interleaving.
use utm_curs_i_orar.Prelude.{
  ◌≡◌, refl, Bool, true, false, Option, some, List, [], ◌∷◌, ◌++◌, ◌⊎◌, inl, inr, All, ◌||◌,
  Bool-cases, subst, ◌∙◌, ap,
}
use utm_curs_i_orar.Text.{Text, text_eq, starts_with, codes}
use utm_curs_i_orar.Text.Laws.{text_eq_iff}
use utm_curs_i_orar.Worker.Types.{Body}
use utm_curs_i_orar.Worker.Keys.{current_key, publisher_heartbeat_key}
use utm_curs_i_orar.Worker.Bucket.{
  Proc, done, get, put, stream, delete, list, send, Object, Cond, if_absent, Meta, Upload, Listing,
}
use utm_curs_i_orar.Worker.Bucket.Rules.{
  Action, putting, streaming, deleting, sending, got, wrote, streamed, sent, listed, History,
  Ensures, at_get, at_put, at_stream, at_delete, at_list, at_send,
}
use utm_curs_i_orar.Worker.Bucket.Runs.{R2, permitted, advance, Interleaved, idle, arrives, calls}

-- The keys whose objects may change: the current pointer, the heartbeat, the accepted pointers and
-- the cursors of maintenance.
unfoldable pub is_mutable : Text → Bool
is_mutable k =
    text_eq k current_key
    || text_eq k publisher_heartbeat_key
    || starts_with (codes "accepted/") k
    || starts_with (codes "maintenance/") k

abbrev pub CreatesOnly : History → Action → Type 0
CreatesOnly h (putting k b w m) = (w ≡ if_absent) ⊎ (is_mutable k ≡ true)
CreatesOnly h (streaming k w m) = w ≡ if_absent
CreatesOnly h (deleting ks) = ⊥
CreatesOnly h (sending j) = Unit

abbrev pub AnyResult : {A : Type 0} → History → A → Type 0
AnyResult h a = Unit

abbrev pub IsCreateOnly : {A : Type 0} → Proc A → Type 0
IsCreateOnly p = Ensures CreatesOnly AnyResult [] p

-- What `advance` leaves is create-only again, after whatever was called before.
abbrev InFlight : {A : Type 0} → Proc A → Type 0
InFlight p = (h : History) × Ensures CreatesOnly AnyResult h p

module _ (r2 : R2) where
  open r2 use {
    State, look, store, receive, store_refused, store_other, receive_refused, receive_other,
    enumerate, enqueue, enqueue_look,
  }

  store_kept :
      (s : State) (k j : Text) (b : Body) (w : Cond) (m : Meta) (o : Object)
      → (w ≡ if_absent) ⊎ (is_mutable k ≡ true)
      → is_mutable j ≡ false
      → look s j ≡ some o
      → look (store s k b w m).0 j ≡ some o
  store_kept s k j b w m o c immutable there = elim (Bool-cases (text_eq k j)) [
    | inr other ↦ store_other s k j b w m (λ e. cc ((text_eq_iff k j).1 e, other)) ∙ there
    | inl same ↦ elim c [
      | inr mut ↦ absurd (cc ((text_eq_iff k j).0 same, mut, immutable))
      | inl create ↦
          ap (λ r. look r.0 j)
            (store_refused s k b w m (rw (create, (text_eq_iff k j).0 same, there, permitted) refl))
          ∙ there
    ]
  ]

  receive_kept :
      (s : State) (k j : Text) (m : Meta) (o : Object)
      → look s j ≡ some o
      → look (receive s k if_absent m).0 j ≡ some o
  receive_kept s k j m o there = elim (Bool-cases (text_eq k j)) [
    | inr other ↦ receive_other s k j if_absent m (λ e. cc ((text_eq_iff k j).1 e, other)) ∙ there
    | inl same ↦
        let e : k ≡ j = (text_eq_iff k j).0 same in
        rw e (receive_refused s j if_absent m (rw (there, permitted)) ∙ there)
  ]

  module _ {A : Type 0} (j : Text) (o : Object) (immutable : is_mutable j ≡ false) where
    -- One call of a create-only handler leaves the object, and leaves a create-only handler.
    advance_kept :
        (h : History) (p : Proc A) (s : State)
        → Ensures CreatesOnly AnyResult h p
        → look s j ≡ some o
        → InFlight (advance r2 p s).0 × (look (advance r2 p s).1 j ≡ some o)
    unfolding advance
    advance_kept h (done a) s e there = ((h, e), there)
    advance_kept h (get k c) s (at_get e) there = ((got k (look s k) ∷ h, e (look s k)), there)
    advance_kept h (put k b w m c) s (at_put p e) there =
        let r : Option Object = (store s k b w m).1 in
        ((wrote k b w m r ∷ h, e r), store_kept s k j b w m o p immutable there)
    advance_kept h (stream k w m c) s (at_stream p e) there =
        let u : Upload = (receive s k w m).1 in
        ((streamed k w m u ∷ h, e u), rw p (receive_kept s k j m o there))
    advance_kept h (delete ks c) s (at_delete p e) there = absurd p
    advance_kept h (list p d n t c) s (at_list e) there =
        let l : Listing = enumerate s p d n t in ((listed p d n t l ∷ h, e l), there)
    advance_kept h (send q c) s (at_send p e) there = ((sent q ∷ h, e), enqueue_look s q j ∙ there)

    replaced :
        (before : List (Proc A)) (p p' : Proc A) (after : List (Proc A))
        → (InFlight p → InFlight p')
        → All InFlight (before ++ p ∷ after)
        → All InFlight (before ++ p' ∷ after)
    replaced [] p p' after f (e, es) = (f e, es)
    replaced (q ∷ before) p p' after f (e, es) = (e, replaced before p p' after f es)

    at_place :
        (before : List (Proc A)) (p : Proc A) (after : List (Proc A))
        → All InFlight (before ++ p ∷ after)
        → InFlight p
    at_place [] p after (e, es) = e
    at_place (q ∷ before) p after (e, es) = at_place before p after es

    Interleaved-kept :
        {pool : List (Proc A)} {s : State} {pool' : List (Proc A)} {s' : State}
        → All InFlight pool
        → look s j ≡ some o
        → Interleaved r2 IsCreateOnly pool s pool' s'
        → All InFlight pool' × (look s' j ≡ some o)
    Interleaved-kept flying there idle = (flying, there)
    Interleaved-kept flying there (arrives p e run) =
        let (es, kept) = Interleaved-kept flying there run in ((([], e), es), kept)
    Interleaved-kept flying there (calls {s'} before p after run e) =
        let (es, kept) = Interleaved-kept flying there run in
        let es' : All InFlight (before ++ p ∷ after) = subst (λ x. All InFlight x) e es in
        let (h, safe) = at_place before p after es' in
        let (next, kept') = advance_kept h p s' safe kept in
        (replaced before p _ after (λ _. next) es', kept')

    -- Whatever create-only invocations are interleaved, from the first of them on, the object at a
    -- key that is not mutable stays as it is.
    pub create_only-immutable :
        {s : State} {pool : List (Proc A)} {s' : State}
        → look s j ≡ some o
        → Interleaved r2 IsCreateOnly [] s pool s'
        → look s' j ≡ some o
    create_only-immutable there run = (Interleaved-kept tt there run).1

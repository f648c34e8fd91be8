-- ===== src/Worker/Maintenance/Sweeping/Prefixes.antt =====
-- The sweep of the expired prefixes of one namespace.
use utm_curs_i_orar.Prelude.{
  ℕ, ◌<◌, ◌≡◌, refl, sym, ap, false, ◌&&◌, Option, none, some, List, [], ◌∷◌, inl, inr,
  Option-cases, leb, arith, ◌∙◌,
}
use utm_curs_i_orar.Text.{Text, nullable_eq}
use utm_curs_i_orar.Worker.Keys.{current_key}
use utm_curs_i_orar.Worker.Bucket.{Proc, Object, Listing, ◌>>=◌}
use utm_curs_i_orar.Worker.Bucket.Rules.{
  deleting, got, listed, History, Ensures, at_done, at_get, at_put, at_delete, at_list, at_if,
  at_bind, Ensures-mono,
}
use utm_curs_i_orar.Worker.Instants.{snapshot_id_instant}
use utm_curs_i_orar.Worker.Platform.{Platform}
use utm_curs_i_orar.Worker.Policy.{contains}
use utm_curs_i_orar.Worker.Maintenance.{
  gc_max_prefix_deletions, gc_max_objects_per_prefix, read_scan_cursor, write_scan_cursor,
  is_cursor_lost, Namespace, pending_namespace, snapshot_namespace, prefix_of, is_snapshots, Guard,
  etag_of, child_id, Progress, going, deferred, threw, is_young, is_kept, remove_listed, keys_of,
  remove_unless_moved, sweep_prefix, sweep_prefixes, close_namespace, sweep_namespace, next_cursor,
  cursor_name,
}
use utm_curs_i_orar.Worker.Maintenance.Sweeping.{
  deletions, IsGuard, IsGuard-grows, IsExpired, Sweeps,
}

module _ (p : Platform) (now : ℕ) where
  module _ (g : Guard) where
    -- Between the steps of the sweep: the guard, and the count of deletions.
    abbrev pub Steady : ℕ → History → Type 0
    Steady prefixes h = IsGuard p now h g × (deletions h ≡ prefixes)

    abbrev pub Stopped : History → Progress → Type 0
    Stopped h (going objects prefixes) = Steady prefixes h
    Stopped h (deferred objects) = Unit
    Stopped h threw = Unit

    abbrev pub Goes : History → Proc Progress → Type 0
    Goes h m = Ensures (Sweeps p now) Stopped h m

    remove-Sweeps :
        (namespace : Namespace) (child : Text) (latest : Option Object) (before : History)
        (l : Listing) (ks : List Text) (objects prefixes : ℕ) (next : ℕ → ℕ → Proc Progress)
        → ((h : History) (n m : ℕ) → Steady m h → Goes h (next n m))
        → IsGuard p now before g
        → deletions before ≡ prefixes
        → (Sweeps p now
            (listed child false gc_max_objects_per_prefix none l ∷ got current_key latest ∷ before)
            (deleting ks))
        → Goes
            (listed child false gc_max_objects_per_prefix none l ∷ got current_key latest ∷ before)
            (remove_listed now ks objects prefixes next)
    unfolding remove_listed
    remove-Sweeps namespace child latest before l [] objects prefixes next e v c s =
        e _ objects prefixes (IsGuard-grows p now g _ _ (IsGuard-grows p now g _ before v), c)
    remove-Sweeps namespace child latest before l (k ∷ ks) objects prefixes next e v c s =
        at_delete s (
          e _ _ _ (
            IsGuard-grows p now g _ _
                (IsGuard-grows p now g _ _ (IsGuard-grows p now g _ before v)),
            omega (arith, c),
          ))

    IsKept-IsExpired :
        (id : Text) → is_young now (snapshot_id_instant id) ≡ false → IsExpired p now id
    IsKept-IsExpired id young = elim (Option-cases (snapshot_id_instant id)) [
      | inl e ↦ absurd (cc (young, ap (is_young now) e))
      | inr (created, e) ↦ (
        created,
        e,
        let old : is_young now (some created) ≡ false = sym (ap (is_young now) e) ∙ young in
            ground arith,
      )
    ]

    unprotected :
        (namespace : Namespace) (id : Text)
        → (is_snapshots namespace && contains id g.protected_ids) ≡ false
        → namespace ≡ snapshot_namespace
        → contains id g.protected_ids ≡ false
    unprotected pending_namespace id h e = cc
    unprotected snapshot_namespace id h e = h

    moved_sweeps :
        (namespace : Namespace) (child : Text) (latest : Option Object) (before : History)
        (objects prefixes : ℕ) (next : ℕ → ℕ → Proc Progress)
        → ((h : History) (n m : ℕ) → Steady m h → Goes h (next n m))
        → Steady prefixes before
        → prefixes < gc_max_prefix_deletions
        → is_kept now g namespace (child_id (prefix_of namespace) child) ≡ false
        → Goes
            (got current_key latest ∷ before)
            (remove_unless_moved now g child objects prefixes next latest)
    unfolding remove_unless_moved is_kept
    moved_sweeps namespace child latest before objects prefixes next e (v, c) few kept =
        let id : Text = child_id (prefix_of namespace) child in
        let young : is_young now (snapshot_id_instant id) ≡ false = ground arith in
        let other : nullable_eq g.current_id (some id) ≡ false = ground arith in
        let unnamed : (is_snapshots namespace && contains id g.protected_ids) ≡ false =
          ground arith in
        at_if (nullable_eq (etag_of latest) g.etag)
          (λ same. at_list (λ l.
            remove-Sweeps namespace child latest before l (keys_of l) objects prefixes next e v c (
              inl (
                g,
                namespace,
                child,
                latest,
                l,
                before,
                v,
                IsKept-IsExpired id young,
                other,
                unprotected namespace id unnamed,
                same,
                refl,
                refl,
                omega (arith, c, few),
              ))))
          (λ moved. at_done tt)

    prefix_sweeps :
        (namespace : Namespace) (child : Text) (h : History) (objects prefixes : ℕ)
        (next : ℕ → ℕ → Proc Progress)
        → ((h : History) (n m : ℕ) → Steady m h → Goes h (next n m))
        → Steady prefixes h
        → Goes h (sweep_prefix now g namespace child objects prefixes next)
    unfolding sweep_prefix
    prefix_sweeps namespace child h objects prefixes next e steady =
        at_if (leb gc_max_prefix_deletions prefixes) (λ many. at_done steady)
          (λ few.
            at_if (is_kept now g namespace (child_id (prefix_of namespace) child))
              (λ kept. e h objects prefixes steady)
              (λ expired. at_get (λ latest.
                moved_sweeps namespace child latest h objects prefixes next e steady (ground arith)
                  expired)))

    prefixes_sweeps :
        (namespace : Namespace) (children : List Text) (h : History) (objects prefixes : ℕ)
        → Steady prefixes h
        → Goes h (sweep_prefixes now g namespace children objects prefixes)
    unfolding sweep_prefixes
    prefixes_sweeps namespace [] h objects prefixes steady = at_done steady
    prefixes_sweeps namespace (child ∷ children) h objects prefixes steady =
        prefix_sweeps namespace child h objects prefixes
          (λ n m. sweep_prefixes now g namespace children n m)
          (λ h' n m steady'. prefixes_sweeps namespace children h' n m steady') steady

    close_sweeps :
        (namespace : Namespace) (l : Listing) (h : History) (r : Progress)
        → Stopped h r
        → Goes h (close_namespace now namespace l r)
    unfolding close_namespace write_scan_cursor ◌>>=◌
    close_sweeps namespace l h (going objects prefixes) (v, c) =
        at_put (cursor_name namespace, next_cursor l, refl, refl)
          (λ o. at_done (IsGuard-grows p now g _ h v, c))
    close_sweeps namespace l h (deferred objects) s = at_done tt
    close_sweeps namespace l h threw s = at_done tt

    pub namespace_sweeps :
        (namespace : Namespace) (h : History) (objects prefixes : ℕ)
        → Steady prefixes h
        → Goes h (sweep_namespace now g namespace objects prefixes)
    unfolding sweep_namespace read_scan_cursor ◌>>=◌
    namespace_sweeps namespace h objects prefixes (v, c) = at_get (λ o. at_list (λ l.
        at_if (is_cursor_lost l) (λ lost. at_done tt)
          (λ kept.
            at_bind (λ r. close_namespace now namespace l r)
              (Ensures-mono (λ h' a x. x) (λ h' r x. close_sweeps namespace l h' r x)
                (prefixes_sweeps namespace l.prefixes _ objects prefixes
                  (IsGuard-grows p now g _ _ (IsGuard-grows p now g _ h v), c))))))

-- ===== src/Routes/Monitor.antt =====
-- crates/fast-socket-xdp-rs/src/route_monitor.rs: one publisher and the handle of one queue, whose steps
-- interleave. The shared slot holds the newest snapshot with its generation; the swap and the load of
-- it are single steps. The number of subscribers that `publish` returns is left out.
use fast_socket_rs.Prelude.{
  ℕ, suc, ◌+◌, ◌%◌, ◌^◌, ◌≤◌, ◌<◌, ◌≡◌, refl, sym, ap, ◌∙◌, true, Option, none, some, List, [], ◌∷◌,
  ◌++◌, ◌==◌, if◌then◌else◌, arith, Bool-cases, inl, inr, none≢some,
}
use fast_socket_rs.Routes.Local.{XdpLocalRoutes, push_update, adopt, apply_updates}

pub record VersionedSnapshot {ℓ} (S : Type ℓ) : Type ℓ where
  pub generation : ℕ
  pub versioned : S

pub record XdpRouteMonitor {ℓ} (S : Type ℓ) : Type ℓ where
  pub shared : Option (VersionedSnapshot S)
  pub next_generation : ℕ

pub record XdpRouteMonitorHandle : Type 0 where
  pub last_seen_generation : ℕ

abbrev pub register_queue : XdpRouteMonitorHandle
register_queue = record { last_seen_generation = 0 }

-- The publisher, and one queue.
pub record World {ℓ} (S : Type ℓ) : Type ℓ where
  pub monitor : XdpRouteMonitor S
  pub handle : XdpRouteMonitorHandle
  pub routes : XdpLocalRoutes S

pub data Event {ℓ} (S : Type ℓ) : Type ℓ where
  published : S → Event S
  polled : Event S

module _ {ℓ} {S : Type ℓ} where
  unfoldable pub new_monitor : XdpRouteMonitor S
  new_monitor = record { shared = none; next_generation = 0 }

  unfoldable pub publish : S → XdpRouteMonitor S → XdpRouteMonitor S
  publish snapshot m =
      let generation = (m.next_generation + 1) % 2 ^ 64 in
      record {
        shared = some (record { generation = generation; versioned = snapshot });
        next_generation = generation;
      }

  unfoldable pub handle_apply :
      Option (VersionedSnapshot S)
      → XdpRouteMonitorHandle
      → XdpLocalRoutes S
      → ℕ × XdpRouteMonitorHandle × XdpLocalRoutes S
  unfolding push_update apply_updates
  handle_apply none handle routes = (0, handle, routes)
  handle_apply (some v) handle routes =
      let (applied, routes') = apply_updates (push_update v.versioned routes) in
      if handle.last_seen_generation == v.generation
      then (0, handle, routes)
      else (applied, record { last_seen_generation = v.generation }, routes')

  unfoldable pub react : Event S → World S → World S
  unfolding publish handle_apply
  react (published snapshot) w = record w { monitor = publish snapshot w.monitor }
  react polled w =
      let (_, handle, routes) = handle_apply w.monitor.shared w.handle w.routes in
      record w { handle = handle; routes = routes }

  unfoldable pub run : List (Event S) → World S → World S
  unfolding react
  run [] w = w
  run (e ∷ es) w = run es (react e w)

  -- What was published last, if anything was.
  abbrev pub newest : S → List (Event S) → S
  newest s [] = s
  newest s (published t ∷ es) = newest t es
  newest s (polled ∷ es) = newest s es

  abbrev pub publications : List (Event S) → ℕ
  publications [] = 0
  publications (published t ∷ es) = suc (publications es)
  publications (polled ∷ es) = publications es

  abbrev pub started : S → World S
  started s = record {
    monitor = record { shared = none; next_generation = 0 };
    handle = register_queue;
    routes = record { snapshot = s; pending = []; generation = 0 };
  }

  -- The queue has the newest snapshot, or one that it will see is newer stands in the slot.
  abbrev InStep : S → World S → Option (VersionedSnapshot S) → Type ℓ
  InStep s w none = w.routes.snapshot ≡ s
  InStep s w (some v) =
      (v.versioned ≡ s)
      × (v.generation ≡ w.monitor.next_generation)
      × (w.handle.last_seen_generation ≡ v.generation → w.routes.snapshot ≡ s)

  record IsFollowing (s : S) (w : World S) : Type ℓ where
    in_step : InStep s w w.monitor.shared
    seen_before : w.handle.last_seen_generation ≤ w.monitor.next_generation
    none_pending : w.routes.pending ≡ []
    new_slot : w.monitor.shared ≡ none → w.handle.last_seen_generation ≡ 0

  react-published :
      (s t : S) (w : World S)
      → w.monitor.next_generation + 1 < 2 ^ 64
      → IsFollowing s w
      → IsFollowing t (react (published t) w)
  unfolding react
  react-published s t w small f = record {
    in_step = (refl, refl, λ e. absurd (omega (arith, e, f.seen_before)));
    seen_before = omega (arith, f.seen_before);
    none_pending = f.none_pending;
    new_slot = λ h. absurd (none≢some (sym h));
  }

  pushed_snapshot :
      (v : S) (r : XdpLocalRoutes S)
      → r.pending ≡ []
      → (apply_updates (push_update v r)).1.snapshot ≡ v
  unfolding push_update apply_updates
  pushed_snapshot v r h = ap (λ p. (adopt r.snapshot 0 (p ++ (v ∷ []))).0) h

  abbrev world :
      Option (VersionedSnapshot S) → ℕ → XdpRouteMonitorHandle → XdpLocalRoutes S → World S
  world shared n handle routes = record {
    monitor = record { shared = shared; next_generation = n };
    handle = handle;
    routes = routes;
  }

  abbrev Adopted : S → World S → Type ℓ
  Adopted s w = IsFollowing s w × (w.routes.snapshot ≡ s)

  adopt_new :
      (s : S) (v : VersionedSnapshot S) (n : ℕ) (handle : XdpRouteMonitorHandle)
      (routes : XdpLocalRoutes S)
      → IsFollowing s (world (some v) n handle routes)
      → Adopted s (
          world
            (some v)
            n
            (record { last_seen_generation = v.generation })
            (apply_updates (push_update v.versioned routes)).1)
  adopt_new s v n handle routes f =
      let (is_newest, at_n, seen) = f.in_step in
      let now = pushed_snapshot v.versioned routes f.none_pending ∙ is_newest in
      (
        record {
          in_step = (is_newest, at_n, λ e. now);
          seen_before = omega (arith, at_n);
          none_pending = unfold apply_updates in refl;
          new_slot = λ h. absurd (none≢some (sym h));
        },
        now,
      )

  react-polled :
      (s : S) (shared : Option (VersionedSnapshot S)) (n : ℕ) (handle : XdpRouteMonitorHandle)
      (routes : XdpLocalRoutes S)
      → IsFollowing s (world shared n handle routes)
      → Adopted s (react polled (world shared n handle routes))
  unfolding react
  react-polled s none n handle routes f = (f, f.in_step)
  react-polled s (some v) n handle routes f =
      let (is_newest, at_n, seen) = f.in_step in
      elim (Bool-cases (handle.last_seen_generation == v.generation)) [
        | inl current ↦ rw current (f, seen (ground arith))
        | inr behind ↦ rw behind (adopt_new s v n handle routes f)
      ]

  run-IsFollowing :
      (s : S) (es : List (Event S)) (w : World S)
      → w.monitor.next_generation + publications es + 1 < 2 ^ 64
      → IsFollowing s w
      → IsFollowing (newest s es) (run es w)
  unfolding run
  run-IsFollowing s [] w few f = f
  run-IsFollowing s (published t ∷ es) w few f =
      run-IsFollowing t es (react (published t) w) (omega arith)
        (react-published s t w (omega arith) f)
  run-IsFollowing s (polled ∷ es) w few f =
      run-IsFollowing s es (react polled w) few
        (react-polled s w.monitor.shared w.monitor.next_generation w.handle w.routes f).0

  abbrev Idle : World S → Type ℓ
  Idle w = ((handle_apply w.monitor.shared w.handle w.routes).0 ≡ 0) × (react polled w ≡ w)

  Idle-current :
      (v : VersionedSnapshot S) (n : ℕ) (handle : XdpRouteMonitorHandle) (routes : XdpLocalRoutes S)
      → (handle.last_seen_generation == v.generation) ≡ true
      → Idle (world (some v) n handle routes)
  unfolding react
  Idle-current v n handle routes current = (rw current refl, rw current refl)

  polled_again :
      (shared : Option (VersionedSnapshot S)) (n : ℕ) (handle : XdpRouteMonitorHandle)
      (routes : XdpLocalRoutes S)
      → Idle (react polled (world shared n handle routes))
  unfolding react
  polled_again none n handle routes = (refl, refl)
  polled_again (some v) n handle routes =
      elim (Bool-cases (handle.last_seen_generation == v.generation)) [
        | inl current ↦ rw current (Idle-current v n handle routes current)
        | inr behind ↦ rw behind (
            Idle-current v n (record { last_seen_generation = v.generation })
              (apply_updates (push_update v.versioned routes)).1 (ground arith))
      ]

  started-IsFollowing : (s : S) → IsFollowing s (started s)
  started-IsFollowing s = record {
    in_step = refl;
    seen_before = omega arith;
    none_pending = refl;
    new_slot = λ h. refl;
  }

  -- Whatever was published and polled before, in any order and with fewer than 2^64 - 1
  -- publications, the queue's next poll leaves it with the snapshot that was published last, and
  -- the poll after that finds nothing new and changes nothing.
  pub run-polled :
      (s : S) (es : List (Event S))
      → publications es + 1 < 2 ^ 64
      → let w = react polled (run es (started s)) in
        (w.routes.snapshot ≡ newest s es)
        × ((handle_apply w.monitor.shared w.handle w.routes).0 ≡ 0)
        × (react polled w ≡ w)
  run-polled s es few =
      let w = run es (started s) in
      let f = run-IsFollowing s es (started s) (omega arith) (started-IsFollowing s) in
      let (_, now) =
        react-polled (newest s es) w.monitor.shared w.monitor.next_generation w.handle w.routes f in
      let (nothing, same) =
        polled_again w.monitor.shared w.monitor.next_generation w.handle w.routes in
      (now, nothing, same)

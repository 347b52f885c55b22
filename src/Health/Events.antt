-- ===== src/Health/Events.antt =====
-- The calls that a process makes of the health server, in any order, and what they leave: the
-- methods of internal/health/health.go as one list of events.
use runscaler.Base.{
  ℕ, ◌≡◌, ◌∙◌, ap, refl, sym, subst, inl, inr, String, str_eq, eq_iff, Bool, true, false, Option,
  none, some, List, [], ◌∷◌, arith, if◌then◌else◌, Bool-cases,
}
use runscaler.Base.Assoc.{
  lookup, delete, Distinct, lookup-put, put-Distinct, lookup-delete, lookup-delete_self,
  delete-Distinct, lookup-All,
}
use runscaler.Health.{
  Observer, HealthServer, CapacityStatus, DiskStatus, new_health_server, connection,
  register_controller, unregister_controller, mark_connected, mark_disconnected, register_metrics,
  set_disk_provider, set_capacity_provider,
}
use runscaler.Health.Handlers.{is_running, handle_readyz}
use runscaler.Health.Readiness.{IsUp, all_ready-IsUp}

module _ (ob : Observer) where
  open ob use {World, Counter, Provider, runtime_provider}

  pub data Event : Type 0 where
    registers : String → Counter → Event
    unregisters : String → Event
    connects : String → ℕ → Event
    disconnects : String → String → Event
    measures : String → Provider → Event
    has_disks : (World → List DiskStatus) → Event
    has_capacity : (World → CapacityStatus) → Event

  unfoldable pub apply : HealthServer ob → Event → HealthServer ob
  unfolding register_controller unregister_controller mark_connected mark_disconnected
      register_metrics set_disk_provider set_capacity_provider
  apply h (registers name c) = register_controller ob h name c
  apply h (unregisters name) = unregister_controller ob h name
  apply h (connects name now) = mark_connected ob h name now
  apply h (disconnects name reason) = mark_disconnected ob h name reason
  apply h (measures name m) = register_metrics ob h name m
  apply h (has_disks f) = set_disk_provider ob h f
  apply h (has_capacity f) = set_capacity_provider ob h f

  unfoldable pub run : HealthServer ob → List Event → HealthServer ob
  unfolding apply
  run h [] = h
  run h (e ∷ es) = run (apply h e) es

  -- The abstract view of one scale set: the controller that it registered last, and whether its
  -- last word since then is that it is connected.
  abbrev pub Seen : Type 0
  Seen = Option Counter × Bool

  abbrev pub note : String → Seen → Event → Seen
  note n (c, up) (registers m d) = if str_eq m n then (some d, false) else (c, up)
  note n (c, up) (unregisters m) = if str_eq m n then (none, false) else (c, up)
  note n (c, up) (connects m _) = if str_eq m n then (c, true) else (c, up)
  note n (c, up) (disconnects m _) = if str_eq m n then (c, false) else (c, up)
  note n s _ = s

  abbrev pub seen : String → Seen → List Event → Seen
  seen n s [] = s
  seen n s (e ∷ es) = seen n (note n s e) es

  abbrev pub view : HealthServer ob → String → Seen
  view h n = (lookup n h.controllers, (connection ob h n).ready)

  abbrev pub DistinctMaps : HealthServer ob → Type 0
  DistinctMaps h = Distinct h.controllers × Distinct h.metrics × Distinct h.states

  apply-DistinctMaps : (h : HealthServer ob) (e : Event) → DistinctMaps h → DistinctMaps (apply h e)
  unfolding apply
  apply-DistinctMaps h (registers n c) (d, m, s) =
      (put-Distinct n c h.controllers d, m, put-Distinct n _ h.states s)
  apply-DistinctMaps h (unregisters n) (d, m, s) = (
    delete-Distinct n h.controllers d,
    delete-Distinct n h.metrics m,
    delete-Distinct n h.states s,
  )
  apply-DistinctMaps h (connects n t) (d, m, s) = (d, m, put-Distinct n _ h.states s)
  apply-DistinctMaps h (disconnects n r) (d, m, s) = (d, m, put-Distinct n _ h.states s)
  apply-DistinctMaps h (measures n p) (d, m, s) = (d, put-Distinct n p h.metrics m, s)
  apply-DistinctMaps h (has_disks f) d = d
  apply-DistinctMaps h (has_capacity f) d = d

  lookup-delete_any :
      {V : Type 0} (j k : String) (m : List (String × V))
      → Distinct m
      → lookup j (delete k m) ≡ (if str_eq k j then none else lookup j m)
  lookup-delete_any j k m d = elim (Bool-cases (str_eq k j)) [
    | inl e ↦
        rw e
          (subst (λ i. lookup i (delete k m) ≡ none) ((eq_iff k j).0 e) (lookup-delete_self k m d))
    | inr e ↦ rw e (lookup-delete j k m e)
  ]

  apply-view :
      (h : HealthServer ob) (e : Event) (n : String)
      → DistinctMaps h
      → view (apply h e) n ≡ note n (view h n) e
  unfolding apply connection
  apply-view h (registers m c) n d =
      rw (lookup-put n m c h.controllers, lookup-put n m _ h.states) (ground arith)
  apply-view h (unregisters m) n d =
      rw (lookup-delete_any n m h.controllers d.0, lookup-delete_any n m h.states d.2)
        (ground arith)
  apply-view h (connects m t) n d = rw (lookup-put n m _ h.states) (ground arith)
  apply-view h (disconnects m r) n d = rw (lookup-put n m _ h.states) (ground arith)
  apply-view h (measures m p) n d = refl
  apply-view h (has_disks f) n d = refl
  apply-view h (has_capacity f) n d = refl

  run-view_from :
      (h : HealthServer ob) (es : List Event) (n : String)
      → DistinctMaps h
      → view (run h es) n ≡ seen n (view h n) es
  unfolding run
  run-view_from h [] n d = refl
  run-view_from h (e ∷ es) n d =
      run-view_from (apply h e) es n (apply-DistinctMaps h e d)
      ∙ ap (λ s. seen n s es) (apply-view h e n d)

  run-DistinctMaps :
      (h : HealthServer ob) (es : List Event) → DistinctMaps h → DistinctMaps (run h es)
  unfolding run
  run-DistinctMaps h [] d = d
  run-DistinctMaps h (e ∷ es) d = run-DistinctMaps (apply h e) es (apply-DistinctMaps h e d)

  -- Whatever calls are made and in whatever order, the server's view of a scale set is the one that
  -- its own calls give: the controller that it registered last and did not unregister, shown as
  -- connected only if its last call since then says so. The calls of other scale sets have no part
  -- in it.
  pub run-view :
      (version : String) (now : ℕ) (es : List Event) (n : String)
      → view (run (new_health_server ob version now) es) n ≡ seen n (none, false) es
  unfolding new_health_server connection lookup
  run-view version now es n = run-view_from (new_health_server ob version now) es n (tt, tt, tt)

  -- Where `/readyz` answers 200 after any calls, every scale set that is registered then said last
  -- that it is connected, and its controller is neither draining nor failing to start runners.
  pub handle_readyz-run :
      (version : String) (now : ℕ) (es : List Event) (w : World) (n : String) (c : Counter)
      → handle_readyz ob (run (new_health_server ob version now) es) w ≡ true
      → (seen n (none, false) es).0 ≡ some c
      → ((seen n (none, false) es).1 ≡ true) × (is_running ob (runtime_provider w c) ≡ true)
  unfolding handle_readyz
  handle_readyz-run version now es w n c answer known =
      let h = run (new_health_server ob version now) es in
      let v = run-view version now es n in
      let up : IsUp ob h w n c =
        lookup-All (λ e. IsUp ob h w e.0 e.1) n c h.controllers (ap (λ s. s.0) v ∙ known)
          (all_ready-IsUp ob h w h.controllers (ground (arith, answer))) in
      let connected : (connection ob h n).ready ≡ true = ground (arith, up) in
      (sym (ap (λ s. s.1) v) ∙ connected, ground (arith, up))

-- ===== src/Health/Readiness.antt =====
-- The two endpoints of internal/health/health.go beside each other.
use runscaler.Base.{
  ℕ, ◌<◌, ◌≡◌, ◌↔◌, refl, sym, ap, ◌∙◌, ◌++◌, inl, inr, String, true, ◌&&◌, Option, none, some,
  List, [], ◌∷◌, map, length, arith, All, All-zip, All-map, map-All, eq_iff, Bool-cases,
}
use runscaler.Base.Assoc.{lookup, Distinct, Distinct-lookup}
use runscaler.Base.Strings.{sort, sort-All, All-sort}
use runscaler.Controller.{Runtime}
use runscaler.Health.{Observer, HealthServer, ScaleSetStatus, connection}
use runscaler.Health.Handlers.{
  is_running, status_of, statuses, overall, handle_healthz, all_ready, handle_readyz, status_at,
  with_runtime, with_lifecycle,
}

abbrev IsOk : String → Type 0
IsOk s = s ≡ "ok"

degraded-IsOk : IsOk "degraded" → ⊥
degraded-IsOk e = absurd (ground (arith, (eq_iff "degraded" "ok").1 e))

module _ (ob : Observer) where
  open ob use {World, Counter, runtime_provider, lifecycle_counter}

  abbrev pub IsUp : HealthServer ob → World → String → Counter → Type 0
  IsUp h w name c = ((connection ob h name).ready && is_running ob (runtime_provider w c)) ≡ true

  pub all_ready-IsUp :
      (h : HealthServer ob) (w : World) (cs : List (String × Counter))
      → all_ready ob h w cs ≡ true
      → All (λ e. IsUp h w e.0 e.1) cs
  unfolding all_ready
  all_ready-IsUp h w [] e = tt
  all_ready-IsUp h w ((name, c) ∷ cs) e = ground (arith, all_ready-IsUp h w cs)

  IsUp-all_ready :
      (h : HealthServer ob) (w : World) (cs : List (String × Counter))
      → All (λ e. IsUp h w e.0 e.1) cs
      → all_ready ob h w cs ≡ true
  unfolding all_ready
  IsUp-all_ready h w [] u = refl
  IsUp-all_ready h w ((name, c) ∷ cs) u = ground (arith, IsUp-all_ready h w cs u.1)

  with_runtime-ready :
      (ss : ScaleSetStatus) (r : Option Runtime)
      → (with_runtime ob ss r).ready ≡ (ss.ready && is_running ob r)
  with_runtime-ready ss none = ground arith
  with_runtime-ready ss (some r) = ground arith

  with_lifecycle-ready :
      (ss : ScaleSetStatus) (l : Option (ℕ × ℕ × ℕ × ℕ)) → (with_lifecycle ob ss l).ready ≡ ss.ready
  with_lifecycle-ready ss none = refl
  with_lifecycle-ready ss (some l) = refl

  -- What `/healthz` shows as ready is what `/readyz` asks for.
  status_of-ready :
      (h : HealthServer ob) (w : World) (name : String) (c : Counter)
      → (status_of ob h w name c).ready
        ≡ ((connection ob h name).ready && is_running ob (runtime_provider w c))
  unfolding status_of
  status_of-ready h w name c =
      with_runtime-ready _ (runtime_provider w c)
      ∙ ap (λ b. b && is_running ob (runtime_provider w c))
          (with_lifecycle-ready _ (lifecycle_counter w c))

  abbrev UpAt : HealthServer ob → World → String → Option Counter → Type 0
  UpAt h w name none = Unit
  UpAt h w name (some c) = IsUp h w name c

  status_at-UpAt :
      (h : HealthServer ob) (w : World) (name : String) (o : Option Counter)
      (rest : List ScaleSetStatus)
      → overall ob (status_at ob h w name o ++ rest) ≡ "ok"
      → UpAt h w name o × (overall ob rest ≡ "ok")
  status_at-UpAt h w name none rest e = (tt, e)
  status_at-UpAt h w name (some c) rest e = elim (Bool-cases (status_of ob h w name c).ready) [
    | inl up ↦ (sym (status_of-ready h w name c) ∙ up, rw up at e)
    | inr down ↦ absurd (degraded-IsOk (rw down at e))
  ]

  UpAt-status_at :
      (h : HealthServer ob) (w : World) (name : String) (o : Option Counter)
      (rest : List ScaleSetStatus)
      → UpAt h w name o
      → overall ob rest ≡ "ok"
      → overall ob (status_at ob h w name o ++ rest) ≡ "ok"
  UpAt-status_at h w name none rest u e = e
  UpAt-status_at h w name (some c) rest u e = rw (status_of-ready h w name c ∙ u) e

  overall-UpAt :
      (h : HealthServer ob) (w : World) (names : List String)
      → overall ob (statuses ob h w names) ≡ "ok"
      → All (λ n. UpAt h w n (lookup n h.controllers)) names
  unfolding statuses
  overall-UpAt h w [] e = tt
  overall-UpAt h w (n ∷ names) e =
      let r = status_at-UpAt h w n (lookup n h.controllers) (statuses ob h w names) e in
      (r.0, overall-UpAt h w names r.1)

  UpAt-overall :
      (h : HealthServer ob) (w : World) (names : List String)
      → All (λ n. UpAt h w n (lookup n h.controllers)) names
      → overall ob (statuses ob h w names) ≡ "ok"
  unfolding statuses
  UpAt-overall h w [] u = refl
  UpAt-overall h w (n ∷ names) u =
      UpAt-status_at h w n (lookup n h.controllers) (statuses ob h w names) u.0
        (UpAt-overall h w names u.1)

  -- `/readyz` answers 200 exactly where at least one scale set is registered and `/healthz` reports
  -- `ok`, although the one goes through the map until the first scale set that is not ready and the
  -- other builds the sorted entries of them all.
  pub handle_readyz_iff :
      (h : HealthServer ob) (w : World) (now : ℕ)
      → Distinct h.controllers
      → (handle_readyz ob h w ≡ true)
        ↔ ((0 < length h.controllers) × ((handle_healthz ob h w now).status ≡ "ok"))
  unfolding handle_readyz handle_healthz
  handle_readyz_iff h w now d =
      let P : String → Type 0 = λ n. UpAt h w n (lookup n h.controllers) in
      let cs = h.controllers in
      let found = Distinct-lookup cs d in
      let to : All (λ e. IsUp h w e.0 e.1) cs → All (λ e. P e.0) cs =
        λ u. All-zip _ _ _ cs (λ e f v. rw f v) found u in
      let back : All (λ e. P e.0) cs → All (λ e. IsUp h w e.0 e.1) cs =
        λ u. All-zip _ _ _ cs (λ e f v. rw f at v) found u in
      (
        λ yes. (
          ground (arith, yes),
          UpAt-overall h w (sort (map (λ e. e.0) cs))
              (sort-All P _ (map-All P _ cs (to (all_ready-IsUp h w cs (ground (arith, yes)))))),
        ),
        λ (some_set, ok).
            let up = IsUp-all_ready h w cs (
              back
                (All-map P _ cs (All-sort P _ (overall-UpAt h w (sort (map (λ e. e.0) cs)) ok)))) in
            ground (arith, up, some_set),
      )

-- ===== src/Config/Loaded.antt =====
-- The result of `Load` in internal/config/load.go, entry by entry.
use runscaler.Base.{
  ◌≡◌, refl, sym, ap, subst, ◌∙◌, inl, inr, String, Option, none, some, List, [], ◌∷◌, ℕ, ◌+◌,
  arith,
}
use mathlib.Core.Sum.{inl-ne-inr, inr-injective}
use runscaler.Config.{Table, table, end, field, get, remove}
use runscaler.Config.Merge.{deep_merge}
use runscaler.Config.Keys.{
  Checked, LoadError, reject_retired_keys, scale_set_entries, pop_scale_sets, entry_settings,
  default_retry_settings,
}
use runscaler.Config.Load.{
  Decoder, Loaded, Warning, decoded, checked_entry, load_scale_sets, load, finished, top_checked,
  top_decoded, with_health_address,
}
use runscaler.Config.Settings.{ScaleSetConfig, Settings}

module _ (d : Decoder) where
  -- The scale sets are the decoded entries, one for one and in order, and no entry has a key that
  -- was retired.
  abbrev pub Decodes : Table → List Table → List ScaleSetConfig → Type 0
  Decodes settings [] [] = Unit
  Decodes settings (own ∷ rest) (ss ∷ sets) =
      (reject_retired_keys own ≡ none)
      × ((unused : List String) × (d.decode_scale_set (entry_settings settings own)
            ≡ some (ss, unused)))
      × Decodes settings rest sets
  Decodes settings _ _ = ⊥

  -- What stands behind one round of the loop that succeeds.
  abbrev Round :
      Option LoadError
      → Option (ScaleSetConfig × List String)
      → Checked Loaded
      → List ScaleSetConfig
      → Type 0
  Round refused found rest sets =
      (refused ≡ none)
      × (ss : ScaleSetConfig) × (unused : List String) × (found ≡ some (ss, unused))
      × (more : List ScaleSetConfig) × (ws : List Warning) × (rest ≡ inr (more, ws))
      × (sets ≡ ss ∷ more)

  round-Round :
      (i : ℕ) (own : Table) (refused : Option LoadError)
      (found : Option (ScaleSetConfig × List String)) (rest : Checked Loaded)
      (sets : List ScaleSetConfig) (ws : List Warning)
      → checked_entry i (decoded i own rest found) refused ≡ inr (sets, ws)
      → Round refused found rest sets
  round-Round i own (some e) found rest sets ws h = absurd (inl-ne-inr h)
  round-Round i own none none rest sets ws h = absurd (inl-ne-inr h)
  round-Round i own none (some (ss, unused)) (inl e) sets ws h = absurd (inl-ne-inr h)
  round-Round i own none (some (ss, unused)) (inr (more, ws')) sets ws h =
      (refl, ss, unused, refl, more, ws', refl, sym (ap (λ p. p.0) (inr-injective _ _ h)))

  load_scale_sets-Decodes :
      (settings : Table) (i : ℕ) (entries : List Table) (sets : List ScaleSetConfig)
      (ws : List Warning)
      → load_scale_sets d settings i entries ≡ inr (sets, ws)
      → Decodes settings entries sets
  unfolding load_scale_sets
  load_scale_sets-Decodes settings i [] sets ws h =
      subst (λ s. Decodes settings [] s) (ap (λ p. p.0) (inr-injective _ _ h)) tt
  load_scale_sets-Decodes settings i (own ∷ rest) sets ws h =
      let (fine, ss, unused, found, more, ws', loaded, is) =
        round-Round i own (reject_retired_keys own) _ _ sets ws h in
      subst (λ s. Decodes settings (own ∷ rest) s) (sym is)
        (fine, (unused, found), load_scale_sets-Decodes settings (i + 1) rest more ws' loaded)

  health-scale_sets : (c : Settings) → (with_health_address d c).scale_sets ≡ c.scale_sets
  health-scale_sets c = ground arith

  finished-scale_sets :
      (c c' : Settings) (unused : List String) (ws ws' : List Warning) (o : Checked Loaded)
      → finished d c unused ws o ≡ inr (c', ws')
      → (sets : List ScaleSetConfig) × (ws'' : List Warning) × (o ≡ inr (sets, ws''))
        × (c'.scale_sets ≡ sets)
  finished-scale_sets c c' unused ws ws' (inl e) h = absurd (inl-ne-inr h)
  finished-scale_sets c c' unused ws ws' (inr (sets, ws'')) h = (
    sets,
    ws'',
    refl,
    ap (λ p. p.0.scale_sets) (sym (inr-injective _ _ h))
        ∙ health-scale_sets (record c { scale_sets = sets }),
  )

  top-Decodes :
      (rest own : Table) (more : List Table) (c : Settings) (ws : List Warning)
      (o : Option (Settings × List String))
      → top_decoded d rest (own ∷ more) o ≡ inr (c, ws)
      → Decodes rest (own ∷ more) c.scale_sets
  top-Decodes rest own more c ws none h = absurd (inl-ne-inr h)
  top-Decodes rest own more c ws (some (c', unused)) h =
      let (sets, ws', loaded, is) = finished-scale_sets c' c unused _ ws _ h in
      subst (λ s. Decodes rest (own ∷ more) s) (sym is)
        (load_scale_sets-Decodes rest 0 (own ∷ more) sets ws' loaded)

  checked-Decodes :
      (rest own : Table) (more : List Table) (c : Settings) (ws : List Warning)
      (refused : Option LoadError)
      → top_checked d rest (own ∷ more) refused ≡ inr (c, ws)
      → (refused ≡ none)
        × Decodes
            (deep_merge (field "retry" (table default_retry_settings) end) rest)
            (own ∷ more)
            c.scale_sets
  checked-Decodes rest own more c ws (some e) h = absurd (inl-ne-inr h)
  checked-Decodes rest own more c ws none h = (refl, top-Decodes _ own more c ws _ h)

  -- Where `Load` succeeds on a file with `[[scaleset]]` entries, there is one scale set for each
  -- entry, in the order of the file, decoded from the built-in defaults, the top level and the
  -- entry laid over each other; and neither the top level nor an entry has a key that was retired.
  pub load-Decodes :
      (settings own : Table) (more : List Table) (c : Settings) (ws : List Warning)
      → scale_set_entries (get "scaleset" settings) ≡ inr (own ∷ more)
      → load d settings ≡ inr (c, ws)
      → (reject_retired_keys (remove "scaleset" settings) ≡ none)
        × Decodes
            (deep_merge
              (field "retry" (table default_retry_settings) end)
              (remove "scaleset" settings))
            (own ∷ more)
            c.scale_sets
  unfolding load pop_scale_sets
  load-Decodes settings own more c ws entries h =
      checked-Decodes (remove "scaleset" settings) own more c ws _ (rw entries at h)

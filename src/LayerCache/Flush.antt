-- ===== src/LayerCache/Flush.antt =====
-- CircuitData::save, which writes every layer in memory.
use ginger_zaatar_allspice.Prelude.{
  ℕ, Bool, true, List, [], ◌∷◌, ◌&&◌, ◌≡◌, refl, ap, ap₂, ◌∙◌, Bool-cases, inl, inr,
}
use ginger_zaatar_allspice.LayerCache.{Disk, LayerData, CircuitData, save, save_layers}
use ginger_zaatar_allspice.LayerCache.Files.{stored, save-dirty, save-clean}
use ginger_zaatar_allspice.LayerCache.Evict.{IsCache, view, Kept-pop}
use ginger_zaatar_allspice.LayerCache.Refinement.{IsConsistent, values}

module _ {ℓ} {T : Type ℓ} where
  save-succeeds : (l : LayerData T) (d : Disk T) → d.writable ≡ true → (save l d).0 ≡ true
  save-succeeds l d writable = elim (Bool-cases l.is_dirty) [
    | inl dirty ↦ ap (λ (r : Bool × Disk T). r.0) (save-dirty l d dirty writable)
    | inr clean ↦ ap (λ (r : Bool × Disk T). r.0) (save-clean l d clean)
  ]

module _ {ℓ} {T : Type ℓ} (zero_value : T) (sizes : List ℕ) where
  save_layers-view :
      (ls : List (LayerData T)) (d : Disk T)
      → IsCache zero_value sizes d ls
      → d.writable ≡ true
      → ((save_layers ls d).0 ≡ true)
        × ((j : ℕ) → stored zero_value sizes (save_layers ls d).1 j ≡ view zero_value sizes d ls j)
  unfolding save_layers view
  save_layers-view [] d cache writable = (refl, λ j. refl)
  save_layers-view (l ∷ ls) d cache writable =
      let k = Kept-pop zero_value sizes l d ls cache writable in
      let (saved, same) = save_layers-view ls (save l d).1 k.cache k.writable in
      (ap₂ ◌&&◌ (save-succeeds l d writable) saved, λ j. same j ∙ k.same_view j)

module _ {ℓ} {T : Type ℓ} (zero_value : T) where
  -- Saving a consistent cache, where files open for writing, succeeds and leaves in the files the
  -- values of every layer, in memory or not.
  pub save_layers-values :
      (c : CircuitData T)
      → IsConsistent zero_value c
      → ((save_layers c.layers c.disk).0 ≡ true)
        × ((j : ℕ)
            → stored zero_value c.layer_sizes (save_layers c.layers c.disk).1 j
              ≡ values zero_value c j)
  unfolding IsConsistent values
  save_layers-values c (cache, writable) =
      save_layers-view zero_value c.layer_sizes c.layers c.disk cache writable

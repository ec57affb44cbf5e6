-- ===== src/LayerCache/Lost.antt =====
-- CircuitData::load does not look at the result of save: what an eviction does to a changed layer
-- when files do not open for writing.
use ginger_zaatar_allspice.Prelude.{
  ℕ, ◌^◌, ◌<◌, ◌≤◌, ◌≢◌, ap₂, Bool, if◌then◌else◌, false, List, [], ◌∷◌, ◌++◌, some, none, ◌≡◌, sym,
  ap, ◌∙◌, arith, ◌⊎◌, inl, inr, length,
}
use ginger_zaatar_allspice.LayerCache.{
  Disk, LayerData, CircuitData, find_layer, update_usage, load_layer,
}
use ginger_zaatar_allspice.LayerCache.Files.{==_refl, stored, try_load-fresh}
use ginger_zaatar_allspice.LayerCache.Evict.{find_layer-head_ne, view, view_absent}
use ginger_zaatar_allspice.LayerCache.Refinement.{values, find_layer-append_none}
use ginger_zaatar_allspice.LayerCache.Budget.{Evictions, done, pops}
use ginger_zaatar_allspice.LayerCache.Total.{
  IsSteady, footprint, update_usage-footprint, load_layer-total, load_layer-Loaded,
}

module _ {ℓ} {T : Type ℓ} where
  find_layer_suffix :
      (xs ys : List (LayerData T)) (j : ℕ) → find_layer j (xs ++ ys) ≡ none → find_layer j ys ≡ none
  find_layer_suffix [] ys j h = h
  find_layer_suffix (x ∷ xs) ys j h =
      find_layer_suffix xs ys j (find_layer-head_ne x (xs ++ ys) j h).1

  tail : List (LayerData T) → List (LayerData T)
  tail [] = []
  tail (x ∷ xs) = xs

module _ {ℓ} {T : Type ℓ} (size_of : T → ℕ) (random : ℕ → ℕ) (budget : ℕ) where
  -- Over the budget the oldest of two layers leaves, so it is not among those that stay.
  kept_absent :
      (l : LayerData T) (ls evicted kept : List (LayerData T)) (start first usage last : ℕ)
      → Evictions size_of random budget evicted start first usage last
      → l ∷ ls ≡ evicted ++ kept
      → 0 < length ls
      → budget < start
      → (length kept ≤ 1) ⊎ (usage ≤ budget)
      → find_layer l.index ls ≡ none
      → find_layer l.index kept ≡ none
  unfolding tail
  kept_absent l ls _ kept start first _ _ done same more over (inl few) absent =
      absurd (omega (arith, ap length same, more, few))
  kept_absent l ls _ kept start first _ _ done same more over (inr fits) absent =
      absurd (omega (arith, over, fits))
  kept_absent l ls (_ ∷ evicted) kept start first usage last (pops h c rest) same more over fits
        absent =
      find_layer_suffix evicted kept l.index
        (ap (λ (xs : List (LayerData T)). find_layer l.index xs) (sym (ap tail same)) ∙ absent)

module _ {ℓ} {T : Type ℓ} (zero_value : T) (size_of : T → ℕ) (random : ℕ → ℕ) where
  -- When no file opens for writing, and the layers in memory are two at least, have the same size
  -- whichever gates are sampled, and take more than the budget and less than 2^64: a load of another
  -- layer of the circuit than the oldest one, which is in memory once, returns all the same; and the
  -- oldest layer, if its values are not those on the disk, has lost them: it had the values in
  -- memory before, and has those on the disk after.
  pub load_layer-lost :
      (c : CircuitData T) (i : ℕ) (l : LayerData T) (ls : List (LayerData T))
      → c.layers ≡ l ∷ ls
      → 0 < length ls
      → find_layer l.index ls ≡ none
      → i < length c.layer_sizes
      → i ≢ l.index
      → c.disk.writable ≡ false
      → l.gates ≢ stored zero_value c.layer_sizes c.disk l.index
      → IsSteady size_of random c.layers
      → footprint size_of random c.layers < 2 ^ 64
      → c.budget < footprint size_of random c.layers
      → (c' : CircuitData T) × (new : LayerData T) × (load_layer zero_value size_of random c i
          ≡ some (c', new))
        × (values zero_value c l.index ≡ l.gates)
        × (values zero_value c' l.index ≡ stored zero_value c.layer_sizes c.disk l.index)
        × (values zero_value c' l.index ≢ values zero_value c l.index)
  unfolding values view find_layer
  load_layer-lost c i l ls same more absent within other locked changed steady h over =
      let ((c', new), found) = load_layer-total zero_value size_of random c i within steady h in
      let loaded = load_layer-Loaded zero_value size_of random c c' i new found in
      let start : c.budget < (update_usage size_of random c.layers 0 c.draws).0 = omega (
        arith,
        over,
        update_usage-footprint size_of random c.layers 0 c.draws steady (omega (arith, h)),
      ) in
      let stays =
        kept_absent size_of random c.budget l ls loaded.evicted loaded.kept _ _ loaded.usage
          loaded.draws loaded.needed (sym same ∙ loaded.newest) more start loaded.fits absent in
      let index : new.index ≡ i =
        ap (λ (x : LayerData T). x.index) loaded.read ∙ (try_load-fresh zero_value _ i c'.disk).0 in
      let gone : find_layer l.index c'.layers ≡ none =
        ap (find_layer l.index) loaded.added
        ∙ find_layer-append_none loaded.kept new l.index stays (λ e. other (sym index ∙ e)) in
      let before : values zero_value c l.index ≡ l.gates =
        ap (λ (xs : List (LayerData T)). view zero_value c.layer_sizes c.disk xs l.index) same
        ∙ ap (λ (b : Bool). if b then l.gates else view zero_value c.layer_sizes c.disk ls l.index)
            (==_refl l.index) in
      let after : values zero_value c' l.index ≡ stored zero_value c.layer_sizes c.disk l.index =
        view_absent zero_value c'.layer_sizes c'.disk c'.layers l.index gone
        ∙ ap₂ (λ (sizes : List ℕ) (d : Disk T). stored zero_value sizes d l.index) loaded.same_sizes
            (loaded.locked locked) in
      (c', new, found, before, after, λ e. changed (sym before ∙ sym e ∙ after))

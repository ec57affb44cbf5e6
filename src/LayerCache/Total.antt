-- ===== src/LayerCache/Total.antt =====
-- When the assertions of a load hold: if the size of a layer does not depend on the gates sampled.
use ginger_zaatar_allspice.Prelude.{
  ℕ, ◌+◌, ◌-◌, ◌%◌, ◌^◌, ◌<◌, true, List, [], ◌∷◌, some, ◌≡◌, refl, subst, ◌∙◌, arith, Bool-cases,
  Option-cases, inl, inr, length, leb, lt→ltb, ltb, none, sym, if◌then◌else◌,
}
use ginger_zaatar_allspice.LayerCache.{
  Disk, LayerData, CircuitData, save, find_layer, should_evict, data_size, update_usage, evict,
  load_layer, access, assign, replace, write_to, add_layer,
}
use ginger_zaatar_allspice.LayerCache.Evict.{after_pop, evict_stays, evict_leaves}
use ginger_zaatar_allspice.LayerCache.Refinement.{
  IsConsistent, values, Accessed, IsAccessed, access-IsAccessed,
}
use ginger_zaatar_allspice.LayerCache.Assign.{Written, write_to-Written}
use ginger_zaatar_allspice.LayerCache.Budget.{Loaded, IsLoaded, load_layer-IsLoaded}

module _ {ℓ} {T : Type ℓ} (size_of : T → ℕ) (random : ℕ → ℕ) where
  -- Every sample of every layer finds the same size.
  unfoldable pub IsSteady : List (LayerData T) → Type 0
  IsSteady [] = Unit
  IsSteady (l ∷ ls) =
      ((m n : ℕ) → (data_size size_of random l m).0 ≡ (data_size size_of random l n).0)
      × IsSteady ls

  unfoldable pub footprint : List (LayerData T) → ℕ
  footprint [] = 0
  footprint (l ∷ ls) = (data_size size_of random l 0).0 + footprint ls

  pub update_usage-footprint :
      (ls : List (LayerData T)) (usage draws : ℕ)
      → IsSteady ls
      → usage + footprint ls < 2 ^ 64
      → (update_usage size_of random ls usage draws).0 ≡ usage + footprint ls
  unfolding update_usage IsSteady footprint
  update_usage-footprint [] usage draws steady h = omega arith
  update_usage-footprint (l ∷ ls) usage draws (same, steady) h =
      let size = data_size size_of random l draws in
      let e : size.0 ≡ (data_size size_of random l 0).0 = same draws 0 in
      let fits : (usage + size.0) % 2 ^ 64 ≡ usage + size.0 = omega arith in
      update_usage-footprint ls ((usage + size.0) % 2 ^ 64) size.1 steady (omega arith)
      ∙ omega arith

  -- Each layer that is evicted takes its part of the usage with it.
  evict-footprint :
      (budget : ℕ) (ls : List (LayerData T)) (d : Disk T) (usage draws : ℕ)
      → IsSteady ls
      → usage ≡ footprint ls
      → footprint ls < 2 ^ 64
      → (r : List (LayerData T) × Disk T × ℕ × ℕ) × (evict size_of random budget ls d usage draws
          ≡ some r)
  unfolding IsSteady footprint evict after_pop
  evict-footprint budget [] d usage draws steady e h = (([], d, usage, draws), refl)
  evict-footprint budget (l ∷ ls) d usage draws (same, steady) e h =
      elim (Bool-cases (should_evict true (length (l ∷ ls)) usage budget)) [
        | inr stays ↦
            ((l ∷ ls, d, usage, draws), evict_stays size_of random budget l ls d usage draws stays)
        | inl leaves ↦
            let asserted = data_size size_of random l draws in
            let size = data_size size_of random l asserted.1 in
            let e0 : asserted.0 ≡ (data_size size_of random l 0).0 = same draws 0 in
            let e1 : size.0 ≡ (data_size size_of random l 0).0 = same asserted.1 0 in
            let covered : leb asserted.0 usage ≡ true = ground arith in
            let (r, found) =
              evict-footprint budget ls (save l d).1 ((usage + 2 ^ 64 - size.0) % 2 ^ 64) size.1
                steady (omega arith) (omega arith) in
            (r, evict_leaves size_of random budget l ls d usage draws leaves covered ∙ found)
      ]

module _ {ℓ} {T : Type ℓ} (zero_value : T) (size_of : T → ℕ) (random : ℕ → ℕ) where
  pub load_layer-total :
      (c : CircuitData T) (i : ℕ)
      → i < length c.layer_sizes
      → IsSteady size_of random c.layers
      → footprint size_of random c.layers < 2 ^ 64
      → (r : CircuitData T × LayerData T) × (load_layer zero_value size_of random c i ≡ some r)
  unfolding load_layer
  load_layer-total c i within steady h =
      let (usage, draws) = update_usage size_of random c.layers 0 c.draws in
      let (r, found) =
        evict-footprint size_of random c.budget c.layers c.disk usage draws steady
          (update_usage-footprint size_of random c.layers 0 c.draws steady (omega arith)
            ∙ omega arith)
          h in
      (
        add_layer zero_value size_of random c i r,
        rw (load_layer, lt→ltb i (length c.layer_sizes) within, found) refl,
      )

  pub access-total :
      (c : CircuitData T) (i : ℕ)
      → i < length c.layer_sizes
      → IsSteady size_of random c.layers
      → footprint size_of random c.layers < 2 ^ 64
      → (r : CircuitData T × LayerData T) × (access zero_value size_of random c i ≡ some r)
  unfolding access
  access-total c i within steady h = elim (Option-cases (find_layer i c.layers)) [
    | inr (l, found) ↦ ((c, l), rw (access, lt→ltb i (length c.layer_sizes) within, found) refl)
    | inl absent ↦
        let (r, loaded) = load_layer-total c i within steady h in
        (r, rw (access, lt→ltb i (length c.layer_sizes) within, absent) loaded)
  ]

  -- On a consistent cache whose layers have the same size whichever gates are sampled, and take
  -- less than 2^64 in all, an access to a layer of the circuit returns. It returns the values of
  -- that layer, keeps it in memory, and changes the values of no layer, evicted ones included.
  pub access-Accessed :
      (c : CircuitData T) (i : ℕ)
      → IsConsistent zero_value c
      → i < length c.layer_sizes
      → IsSteady size_of random c.layers
      → footprint size_of random c.layers < 2 ^ 64
      → (c' : CircuitData T) × (l : LayerData T) × (access zero_value size_of random c i
          ≡ some (c', l))
        × Accessed zero_value c i c' l
  unfolding IsAccessed
  access-Accessed c i consistent within steady h =
      let ((c', l), found) = access-total c i within steady h in
      (
        c',
        l,
        found,
        subst (IsAccessed zero_value c i) found
            (access-IsAccessed zero_value size_of random c i consistent),
      )

  -- On a consistent cache whose layers have the same size whichever gates are sampled, and take
  -- less than 2^64 in all, a write to a gate of a layer of the circuit returns if the layer has the
  -- gate, and is out of range if it does not. The state that it returns is consistent, and differs
  -- in the values of that layer at that gate, and no others.
  pub assign-Written :
      (c : CircuitData T) (i gate : ℕ) (v : T)
      → IsConsistent zero_value c
      → i < length c.layer_sizes
      → IsSteady size_of random c.layers
      → footprint size_of random c.layers < 2 ^ 64
      → (c' : CircuitData T) × (assign zero_value size_of random c i gate v
          ≡ (if ltb gate (length (values zero_value c i)) then some c' else none))
        × Written zero_value c i gate v c'
  unfolding assign
  assign-Written c i gate v consistent within steady h =
      let (c', l, found, accessed) = access-Accessed c i consistent within steady h in
      (
        record c' { layers = replace (write_to l gate v) c'.layers },
        rw (assign, found, sym accessed.right_values) refl,
        write_to-Written zero_value c i gate v c' l accessed,
      )

  -- A load that returns takes away the oldest layers, and never the newest one: each while the
  -- usage, counted anew at the start, is over the budget, and each takes its size, as sampled, off
  -- the usage. The layers that stay were within the budget or are one, and the new layer, which is
  -- read from the disk, comes after them and its size is added.
  pub load_layer-Loaded :
      (c c' : CircuitData T) (i : ℕ) (l : LayerData T)
      → load_layer zero_value size_of random c i ≡ some (c', l)
      → Loaded zero_value size_of random c i c' l
  unfolding IsLoaded
  load_layer-Loaded c c' i l h =
      subst (IsLoaded zero_value size_of random c i) h
        (load_layer-IsLoaded zero_value size_of random c i)

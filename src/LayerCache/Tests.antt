-- ===== src/LayerCache/Tests.antt =====
-- Tests on circuits of three layers.
use ginger_zaatar_allspice.Prelude.{
  ℕ, Bool, true, false, [], ◌∷◌, none, some, ◌≡◌, ◌≢◌, refl, arith, ap, ◌∙◌, get_or, List, ltb,
  length, if◌then◌else◌,
}
use ginger_zaatar_allspice.LayerCache.{
  Disk, LayerData, CircuitData, save, save_layers, load, find_layer, sample, data_size, access,
  assign, load_layer, update_usage, evict, should_evict, add_layer, try_load, load_file, read_layer,
  read_gates, fill,
}
use ginger_zaatar_allspice.LayerCache.Files.{stored}
use ginger_zaatar_allspice.LayerCache.Evict.{empty, layer}
use ginger_zaatar_allspice.LayerCache.Refinement.{IsConsistent, Accessed, values}
use ginger_zaatar_allspice.LayerCache.Assign.{Written}
use ginger_zaatar_allspice.LayerCache.Flush.{save_layers-values}
use ginger_zaatar_allspice.LayerCache.Budget.{Loaded}
use ginger_zaatar_allspice.LayerCache.Lost.{load_layer-lost}
use ginger_zaatar_allspice.LayerCache.Total.{
  IsSteady, footprint, access-Accessed, assign-Written, load_layer-Loaded,
}

abbrev bytes : ℕ → ℕ
bytes n = 16

abbrev draw : ℕ → ℕ
draw n = n

abbrev empty_disk : Bool → Disk ℕ
empty_disk writable = record { files = λ (i : ℕ). none; writable = writable }

abbrev layer0 : LayerData ℕ
layer0 = record { index = 0; gates = 5 ∷ 7 ∷ []; is_dirty = true }

abbrev layer1 : LayerData ℕ
layer1 = record { index = 1; gates = 3 ∷ 4 ∷ []; is_dirty = true }

-- Two changed layers of three in memory, over a budget of 20.
abbrev full : Bool → CircuitData ℕ
full writable = record {
  layers = layer0 ∷ layer1 ∷ [];
  layer_sizes = 2 ∷ 2 ∷ 1 ∷ [];
  disk = empty_disk writable;
  budget = 20;
  usage = 0;
  draws = 0;
}

full-IsConsistent : IsConsistent 0 (full true)
unfolding IsConsistent find_layer
full-IsConsistent =
    (layer refl (λ h. absurd (ground arith)) (layer refl (λ h. absurd (ground arith)) empty), refl)

full-IsSteady : IsSteady bytes draw (full true).layers
unfolding IsSteady data_size sample
full-IsSteady = (λ m n. refl, (λ m n. refl, tt))

full-footprint : footprint bytes draw (full true).layers ≡ 32
unfolding footprint data_size sample
full-footprint = refl

access-Accessed_example :
    (c' : CircuitData ℕ) × (l : LayerData ℕ) × (access 0 bytes draw (full true) 2 ≡ some (c', l))
    × Accessed 0 (full true) 2 c' l
access-Accessed_example =
    access-Accessed 0 bytes draw (full true) 2 full-IsConsistent (omega arith) full-IsSteady
      (omega (arith, full-footprint))

assign-Written_example :
    (c' : CircuitData ℕ) × (assign 0 bytes draw (full true) 2 0 9
      ≡ (if ltb 0 (length (values 0 (full true) 2)) then some c' else none))
    × Written 0 (full true) 2 0 9 c'
assign-Written_example =
    assign-Written 0 bytes draw (full true) 2 0 9 full-IsConsistent (omega arith) full-IsSteady
      (omega (arith, full-footprint))

-- The state after a load of the last layer, when files open for writing or not.
abbrev loaded : Bool → CircuitData ℕ
loaded writable = record {
  layers = layer1 ∷ record { index = 2; gates = 0 ∷ []; is_dirty = false } ∷ [];
  layer_sizes = 2 ∷ 2 ∷ 1 ∷ [];
  disk = (save layer0 (empty_disk writable)).1;
  budget = 20;
  usage = 28;
  draws = 20;
}

loads :
    (writable : Bool)
    → load_layer 0 bytes draw (full writable) 2
      ≡ some (loaded writable, record { index = 2; gates = 0 ∷ []; is_dirty = false })
unfolding load_layer update_usage evict should_evict data_size sample add_layer try_load load
    load_file save read_layer read_gates fill
loads true = refl
loads false = refl

load_layer-Loaded_example :
    Loaded 0 bytes draw
      (full true)
      2
      (loaded true)
      (record { index = 2; gates = 0 ∷ []; is_dirty = false })
load_layer-Loaded_example =
    load_layer-Loaded 0 bytes draw (full true) (loaded true) 2
      (record { index = 2; gates = 0 ∷ []; is_dirty = false }) (loads true)

locked-IsSteady : IsSteady bytes draw (full false).layers
unfolding IsSteady data_size sample
locked-IsSteady = (λ m n. refl, (λ m n. refl, tt))

locked_footprint : footprint bytes draw (full false).layers ≡ 32
unfolding footprint data_size sample
locked_footprint = refl

on_disk : stored 0 (2 ∷ 2 ∷ 1 ∷ []) (empty_disk false) 0 ≡ 0 ∷ 0 ∷ []
unfolding stored try_load load load_file fill
on_disk = refl

load_layer-lost_example :
    (c' : CircuitData ℕ) × (new : LayerData ℕ) × (load_layer 0 bytes draw (full false) 2
      ≡ some (c', new))
    × (values 0 (full false) 0 ≡ 5 ∷ 7 ∷ [])
    × (values 0 c' 0 ≡ stored 0 (2 ∷ 2 ∷ 1 ∷ []) (empty_disk false) 0)
    × (values 0 c' 0 ≢ values 0 (full false) 0)
unfolding find_layer
load_layer-lost_example =
    load_layer-lost 0 bytes draw (full false) 2 layer0 (layer1 ∷ []) refl (omega arith) refl
      (omega arith) (λ e. absurd (omega (arith, e))) refl
      (λ e. absurd (omega (arith, ap (λ (xs : List ℕ). get_or xs 0 0) (e ∙ on_disk))))
      locked-IsSteady (omega (arith, locked_footprint)) (omega (arith, locked_footprint))

save_layers-values_example :
    ((save_layers (full true).layers (full true).disk).0 ≡ true)
    × ((j : ℕ)
        → stored 0 (full true).layer_sizes (save_layers (full true).layers (full true).disk).1 j
          ≡ values 0 (full true) j)
save_layers-values_example = save_layers-values 0 (full true) full-IsConsistent

-- ===== src/LayerCache.antt =====
-- code/pepper/cmtgkr/circuit/circuit_data.cpp and circuit_data.h: the values of a circuit, a layer
-- at a time, of which a bounded part is in memory and the rest in files.
-- The file system is a map from the index of a layer, which its file is named for, to what was
-- written, beside whether a file opens for writing. A failed assertion is `none`. Random draws are
-- read from a stream. A size_t is a number that wraps at 2^64; the average of a double is exact.
pub mod Files
pub mod Evict
pub mod Refinement
pub mod Assign
pub mod Budget
pub mod Flush
pub mod Total
pub mod Lost
mod Tests
use ginger_zaatar_allspice.Prelude.{
  ℕ, zero, suc, ◌+◌, ◌-◌, ◌*◌, ◌/◌, ◌%◌, ◌^◌, Bool, true, false, ◌&&◌, List, [], ◌∷◌, ◌++◌, map,
  Option, none, some, ltb, leb, ◌==◌, if◌then◌else◌, length, get_or, set, replicate,
}

pub data Cell {ℓ} (T : Type ℓ) : Type ℓ where
  number : ℕ → Cell T
  value : T → Cell T

pub record Disk {ℓ} (T : Type ℓ) : Type ℓ where
  pub files : ℕ → Option (List (Cell T))
  pub writable : Bool

pub record LayerData {ℓ} (T : Type ℓ) : Type ℓ where
  pub index : ℕ
  pub gates : List T
  pub is_dirty : Bool

pub record CircuitData {ℓ} (T : Type ℓ) : Type ℓ where
  pub layers : List (LayerData T)
  pub layer_sizes : List ℕ
  pub disk : Disk T
  pub budget : ℕ
  pub usage : ℕ
  -- how many random numbers were drawn
  pub draws : ℕ

abbrev pub layer_data_header : ℕ
layer_data_header = 0x1111_1111

abbrev pub num_samples : ℕ
num_samples = 4

-- `sizeof(this)`, the size of a pointer.
abbrev pub pointer_size : ℕ
pointer_size = 8

unfoldable pub should_evict : Bool → ℕ → ℕ → ℕ → Bool
should_evict evict_to_add num_layers usage budget =
    ltb (2 - (if evict_to_add then 1 else 0)) num_layers && ltb budget usage

module _ {ℓ} {T : Type ℓ} where
  abbrev pub write_file : Disk T → ℕ → List (Cell T) → Disk T
  write_file d i cells = record d { files = λ (j : ℕ). if j == i then some cells else d.files j }

  abbrev pub layer_cells : List T → List (Cell T)
  layer_cells gates = number layer_data_header ∷ number (length gates) ∷ map value gates

  unfoldable pub save : LayerData T → Disk T → Bool × Disk T
  save l d =
      if l.is_dirty
      then (if d.writable then (true, write_file d l.index (layer_cells l.gates)) else (false, d))
      else (true, d)

  -- Overwrites the gates in order, up to a failure.
  unfoldable pub read_gates : List T → List (Cell T) → List T × Bool
  read_gates [] cells = ([], true)
  read_gates (g ∷ gs) (value v ∷ cells) = let (vs, ok) = read_gates gs cells in (v ∷ vs, ok)
  read_gates (g ∷ gs) cells = (g ∷ gs, false)

  unfoldable pub find_layer : ℕ → List (LayerData T) → Option (LayerData T)
  find_layer i [] = none
  find_layer i (l ∷ ls) = if l.index == i then some l else find_layer i ls

  -- `LayerData(layerIdx)`
  abbrev pub fresh : ℕ → LayerData T
  fresh i = record { index = i; gates = []; is_dirty = false }

  -- The layers of a cache with one of them replaced.
  unfoldable pub replace : LayerData T → List (LayerData T) → List (LayerData T)
  replace l [] = []
  replace l (l' ∷ ls) = if l'.index == l.index then l ∷ ls else l' ∷ replace l ls

  -- `save` on every layer in memory.
  unfoldable pub save_layers : List (LayerData T) → Disk T → Bool × Disk T
  save_layers [] d = (true, d)
  save_layers (l ∷ ls) d =
      let (saved, d') = save l d in
      let (all_saved, d″) = save_layers ls d' in (saved && all_saved, d″)

  -- The constructor, on what is in the directory of the circuit.
  unfoldable pub make_circuit_data : ℕ → List ℕ → Disk T → CircuitData T
  make_circuit_data mem_budget sizes disk = record {
    layers = [];
    layer_sizes = sizes;
    disk = disk;
    budget = mem_budget;
    usage = 0;
    draws = 0;
  }

  unfoldable pub set_budget : CircuitData T → ℕ → CircuitData T
  set_budget c new_budget = record c { budget = new_budget }

  unfoldable pub set_sizes : CircuitData T → List ℕ → CircuitData T
  set_sizes c new_sizes = record c { layer_sizes = new_sizes }

  -- `layer[gate] = v`, through the operator that marks the layer as changed.
  abbrev pub write_to : LayerData T → ℕ → T → LayerData T
  write_to l gate v = record l { gates = set l.gates gate v; is_dirty = true }

infixl 5 ◌>>=◌
abbrev pub ◌>>=◌ {ℓ κ} : {A : Type ℓ} {B : Type κ} → Option A → (A → Option B) → Option B
none >>= f = none
some a >>= f = f a

module _ {ℓ} {T : Type ℓ} (zero_value : T) where
  unfoldable pub read_layer : LayerData T → List (Cell T) → LayerData T × Bool
  read_layer l (number header ∷ number size ∷ cells) =
      let (gates, ok) = read_gates (replicate size zero_value) cells in
      (record l { gates = gates; is_dirty = false }, ok)
  read_layer l cells = (l, false)

  unfoldable pub load_file : LayerData T → Option (List (Cell T)) → LayerData T × Bool
  load_file l none = (l, false)
  load_file l (some cells) = read_layer l cells

  unfoldable pub load : Disk T → LayerData T → LayerData T × Bool
  load d l = load_file l (d.files l.index)

  unfoldable pub fill : ℕ → LayerData T × Bool → LayerData T
  fill size (l, true) = l
  fill size (l, false) = record l { gates = replicate size zero_value }

  unfoldable pub try_load : Disk T → ℕ → LayerData T → LayerData T
  try_load d size l = fill size (load d l)

module _ {ℓ} {T : Type ℓ} (size_of : T → ℕ) (random : ℕ → ℕ) where
  -- The samples that are left, and the size that the last one found.
  unfoldable pub sample : T → List T → ℕ → ℕ → ℕ → ℕ
  sample d gates draws found zero = found
  sample d gates draws found (suc samples) =
      sample d gates (suc draws) (size_of (get_or gates (random draws % length gates) d)) samples

  -- The size, and the draws after it.
  unfoldable pub data_size : LayerData T → ℕ → ℕ × ℕ
  data_size l draws = elim l.gates [
    | [] ↦ (pointer_size, draws)
    | g ∷ gs ↦ (
      sample g (g ∷ gs) draws 0 num_samples * length (g ∷ gs) / num_samples + pointer_size,
      draws + num_samples,
    )
  ]

  unfoldable pub update_usage : List (LayerData T) → ℕ → ℕ → ℕ × ℕ
  update_usage [] usage draws = (usage, draws)
  update_usage (l ∷ ls) usage draws =
      let (size, draws') = data_size l draws in update_usage ls ((usage + size) % 2 ^ 64) draws'

  -- The loop of `load`: the layers that stay, the disk, the usage and the draws.
  unfoldable pub evict :
      ℕ → List (LayerData T) → Disk T → ℕ → ℕ → Option (List (LayerData T) × Disk T × ℕ × ℕ)
  evict budget [] d usage draws = some ([], d, usage, draws)
  evict budget (l ∷ ls) d usage draws = elim (should_evict true (length (l ∷ ls)) usage budget) [
    | false ↦ some (l ∷ ls, d, usage, draws)
    | true ↦
        let (asserted, draws') = data_size l draws in
        let (size, draws″) = data_size l draws' in
        elim (leb asserted usage) [
          | false ↦ none
          | true ↦ evict budget ls (save l d).1 ((usage + 2 ^ 64 - size) % 2 ^ 64) draws″
        ]
  ]

module _ {ℓ} {T : Type ℓ} (zero_value : T) (size_of : T → ℕ) (random : ℕ → ℕ) where
  -- The end of `load`; the new layer is the last one.
  unfoldable pub add_layer :
      CircuitData T → ℕ → List (LayerData T) × Disk T × ℕ × ℕ → CircuitData T × LayerData T
  add_layer c i (layers, d, usage, draws) =
      let l = try_load zero_value d (get_or c.layer_sizes i 0) (fresh i) in
      let (size, draws') = data_size size_of random l draws in
      (
        record c {
          layers = layers ++ l ∷ [];
          disk = d;
          usage = (usage + size) % 2 ^ 64;
          draws = draws';
        },
        l,
      )

  unfoldable pub load_layer : CircuitData T → ℕ → Option (CircuitData T × LayerData T)
  load_layer c i = elim (ltb i (length c.layer_sizes)) [
    | false ↦ none
    | true ↦
        let (usage, draws) = update_usage size_of random c.layers 0 c.draws in
        evict size_of random c.budget c.layers c.disk usage draws >>= λ r. some (add_layer c i r)
  ]

  -- `operator[]`, which returns a reference to a layer in memory.
  unfoldable pub access : CircuitData T → ℕ → Option (CircuitData T × LayerData T)
  access c i = elim (ltb i (length c.layer_sizes)) [
    | false ↦ none
    | true ↦ elim (find_layer i c.layers) [ some l ↦ some (c, l) | none ↦ load_layer c i ]
  ]

  -- `data[i][gate] = v`; a gate that the layer does not have is out of range.
  unfoldable pub assign : CircuitData T → ℕ → ℕ → T → Option (CircuitData T)
  assign c i gate v = access c i >>= λ r.
      if ltb gate (length r.1.gates)
      then some (record r.0 { layers = replace (write_to r.1 gate v) r.0.layers })
      else none

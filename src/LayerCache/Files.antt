-- ===== src/LayerCache/Files.antt =====
-- LayerData::save, load and tryLoad: what is in the file of a layer.
use ginger_zaatar_allspice.Prelude.{
  ℕ, ◌==◌, Bool, true, false, List, [], ◌∷◌, map, Option, none, some, ◌≡◌, ◌≢◌, refl, sym, ap, ◌∙◌,
  Bool-cases, inl, inr, not, get_or, arith, if◌then◌else◌, length, length-replicate, replicate,
}
use ginger_zaatar_allspice.LayerCache.{
  Cell, number, value, Disk, LayerData, write_file, save, layer_cells, load_file, fresh, fill,
  read_gates, read_layer, load, try_load,
}

pub ==_refl : (n : ℕ) → (n == n) ≡ true
==_refl n = ground arith

pub ==_ne : (m n : ℕ) → m ≢ n → (m == n) ≡ false
==_ne m n h = ground arith

pub ==_eq : (m n : ℕ) → (m == n) ≡ true → m ≡ n
==_eq m n h = ground arith

module _ {ℓ} {T : Type ℓ} where
  read_gates_values :
      (gates vs : List T) → length gates ≡ length vs → read_gates gates (map value vs) ≡ (vs, true)
  unfolding read_gates
  read_gates_values [] [] h = refl
  read_gates_values [] (v ∷ vs) h = absurd (omega arith)
  read_gates_values (g ∷ gates) [] h = absurd (omega arith)
  read_gates_values (g ∷ gates) (v ∷ vs) h = rw (read_gates_values gates vs (omega arith))

  pub save-dirty :
      (l : LayerData T) (d : Disk T)
      → l.is_dirty ≡ true
      → d.writable ≡ true
      → save l d ≡ (true, write_file d l.index (layer_cells l.gates))
  unfolding save
  save-dirty l d dirty writable = rw (dirty, writable) refl

  -- A file that does not open: nothing is written.
  pub save-locked :
      (l : LayerData T) (d : Disk T) → d.writable ≡ false → save l d ≡ (not l.is_dirty, d)
  unfolding save
  save-locked l d locked = elim (Bool-cases l.is_dirty) [
    | inl dirty ↦ rw (dirty, locked) refl
    | inr clean ↦ rw clean refl
  ]

  pub save-clean : (l : LayerData T) (d : Disk T) → l.is_dirty ≡ false → save l d ≡ (true, d)
  unfolding save
  save-clean l d clean = rw clean refl

  files-save_ne :
      (l : LayerData T) (d : Disk T) (j : ℕ) → l.index ≢ j → (save l d).1.files j ≡ d.files j
  files-save_ne l d j other = elim (Bool-cases l.is_dirty) [
    | inr clean ↦ ap (λ (r : Bool × Disk T). r.1.files j) (save-clean l d clean)
    | inl dirty ↦ elim (Bool-cases d.writable) [
      | inl writable ↦
          ap (λ (r : Bool × Disk T). r.1.files j) (save-dirty l d dirty writable)
          ∙ ap (λ (b : Bool). if b then some (layer_cells l.gates) else d.files j)
              (==_ne j l.index (λ e. other (sym e)))
      | inr locked ↦ ap (λ (r : Bool × Disk T). r.1.files j) (save-locked l d locked)
    ]
  ]

  pub save-writable : (l : LayerData T) (d : Disk T) → (save l d).1.writable ≡ d.writable
  save-writable l d = elim (Bool-cases l.is_dirty) [
    | inr clean ↦ ap (λ (r : Bool × Disk T). r.1.writable) (save-clean l d clean)
    | inl dirty ↦ elim (Bool-cases d.writable) [
      | inl writable ↦ ap (λ (r : Bool × Disk T). r.1.writable) (save-dirty l d dirty writable)
      | inr locked ↦ ap (λ (r : Bool × Disk T). r.1.writable) (save-locked l d locked)
    ]
  ]

module _ {ℓ} {T : Type ℓ} (zero_value : T) where
  load_file_cells :
      (l : LayerData T) (gates : List T)
      → load_file zero_value l (some (layer_cells gates))
        ≡ (record l { gates = gates; is_dirty = false }, true)
  unfolding load_file read_layer
  load_file_cells l gates =
      rw (read_gates_values (replicate (length gates) zero_value) gates (length-replicate _ _)) refl

  -- A layer that was changed and saved is read back as it was, and is then clean.
  pub load-save :
      (l l0 : LayerData T) (d : Disk T)
      → l.is_dirty ≡ true
      → d.writable ≡ true
      → l0.index ≡ l.index
      → load zero_value (save l d).1 l0 ≡ (record l0 { gates = l.gates; is_dirty = false }, true)
  unfolding load
  load-save l l0 d dirty writable same =
      ap (λ (r : Bool × Disk T). load_file zero_value l0 (r.1.files l0.index))
        (save-dirty l d dirty writable)
      ∙ ap
          (λ (b : Bool).
            load_file zero_value l0 (if b then some (layer_cells l.gates) else d.files l0.index))
          (ap (λ (i : ℕ). i == l.index) same ∙ ==_refl l.index)
      ∙ load_file_cells l0 l.gates

  -- The values that a load of a layer finds: those of its file, or zeros.
  unfoldable pub stored : List ℕ → Disk T → ℕ → List T
  stored sizes d i = (try_load zero_value d (get_or sizes i 0) (fresh i)).gates

  pub stored-save_self :
      (sizes : List ℕ) (l : LayerData T) (d : Disk T)
      → l.is_dirty ≡ true
      → d.writable ≡ true
      → stored sizes (save l d).1 l.index ≡ l.gates
  unfolding stored try_load fill
  stored-save_self sizes l d dirty writable =
      ap (λ (r : LayerData T × Bool). (fill zero_value (get_or sizes l.index 0) r).gates)
        (load-save l (fresh l.index) d dirty writable refl)

  pub stored-save_ne :
      (sizes : List ℕ) (l : LayerData T) (d : Disk T) (j : ℕ)
      → l.index ≢ j
      → stored sizes (save l d).1 j ≡ stored sizes d j
  unfolding stored try_load load
  stored-save_ne sizes l d j other =
      ap
        (λ (f : Option (List (Cell T))).
          (fill zero_value (get_or sizes j 0) (load_file zero_value (fresh j) f)).gates)
        (files-save_ne l d j other)

  read_layer-fresh :
      (i : ℕ) (cells : List (Cell T))
      → ((read_layer zero_value (fresh i) cells).0.index ≡ i)
        × ((read_layer zero_value (fresh i) cells).0.is_dirty ≡ false)
  unfolding read_layer
  read_layer-fresh i (number header ∷ number size ∷ cells) = (refl, refl)
  read_layer-fresh i [] = (refl, refl)
  read_layer-fresh i (value v ∷ cells) = (refl, refl)
  read_layer-fresh i (number header ∷ []) = (refl, refl)
  read_layer-fresh i (number header ∷ value v ∷ cells) = (refl, refl)

  load_file-fresh :
      (i : ℕ) (f : Option (List (Cell T)))
      → ((load_file zero_value (fresh i) f).0.index ≡ i)
        × ((load_file zero_value (fresh i) f).0.is_dirty ≡ false)
  unfolding load_file
  load_file-fresh i none = (refl, refl)
  load_file-fresh i (some cells) = read_layer-fresh i cells

  fill_lem :
      (size : ℕ) (r : LayerData T × Bool)
      → ((fill zero_value size r).index ≡ r.0.index)
        × ((fill zero_value size r).is_dirty ≡ r.0.is_dirty)
  unfolding fill
  fill_lem size (l, true) = (refl, refl)
  fill_lem size (l, false) = (refl, refl)

  pub try_load-fresh :
      (size i : ℕ) (d : Disk T)
      → ((try_load zero_value d size (fresh i)).index ≡ i)
        × ((try_load zero_value d size (fresh i)).is_dirty ≡ false)
  unfolding try_load load
  try_load-fresh size i d =
      let (index, clean) = fill_lem size (load_file zero_value (fresh i) (d.files i)) in
      let (same, fresh_clean) = load_file-fresh i (d.files i) in (index ∙ same, clean ∙ fresh_clean)

-- ===== src/LayerCache/Refinement.antt =====
-- CircuitData as a map from layers to values: operator[] and the writes through it.
use ginger_zaatar_allspice.Prelude.{
  ℕ, ◌==◌, true, List, [], ◌∷◌, ◌++◌, Option, none, some, ◌≡◌, ◌≢◌, refl, sym, ap, ◌∙◌, arith,
  if◌then◌else◌, Bool-cases, Option-cases, inl, inr, length, ltb, ℕ_discrete, get_or,
}
use ginger_zaatar_allspice.LayerCache.{
  Disk, LayerData, CircuitData, find_layer, fresh, try_load, add_layer, load_layer, access, ◌>>=◌,
}
use ginger_zaatar_allspice.LayerCache.Files.{==_refl, ==_ne, stored, try_load-fresh}
use ginger_zaatar_allspice.LayerCache.Evict.{
  find_layer-head_ne, IsCache, empty, layer, view, view_absent, view_found, Kept, IsKept,
  evict-IsKept,
}

module _ {ℓ} {T : Type ℓ} where
  pub find_layer-append_none :
      (ls : List (LayerData T)) (l : LayerData T) (k : ℕ)
      → find_layer k ls ≡ none
      → l.index ≢ k
      → find_layer k (ls ++ l ∷ []) ≡ none
  unfolding find_layer
  find_layer-append_none [] l k h other = rw (==_ne l.index k other) refl
  find_layer-append_none (l' ∷ ls) l k h other =
      let (other', rest) = find_layer-head_ne l' ls k h in
      rw (==_ne l'.index k other') (find_layer-append_none ls l k rest other)

  find_layer-append_last :
      (ls : List (LayerData T)) (l : LayerData T) (k : ℕ)
      → find_layer k ls ≡ none
      → l.index ≡ k
      → find_layer k (ls ++ l ∷ []) ≡ some l
  unfolding find_layer
  find_layer-append_last [] l k h same = rw (same, ==_refl) refl
  find_layer-append_last (l' ∷ ls) l k h same =
      let (other, rest) = find_layer-head_ne l' ls k h in
      rw (==_ne l'.index k other) (find_layer-append_last ls l k rest same)

  pub find_layer-index :
      (ls : List (LayerData T)) (k : ℕ) {l : LayerData T} → find_layer k ls ≡ some l → l.index ≡ k
  unfolding find_layer
  find_layer-index [] k h = cc
  find_layer-index (l' ∷ ls) k {l} h = elim (Bool-cases (l'.index == k)) [
    | inl same ↦ ground arith
    | inr other ↦ find_layer-index ls k {l = l} (ground arith)
  ]

module _ {ℓ} {T : Type ℓ} (zero_value : T) (sizes : List ℕ) (d : Disk T) where
  IsCache-append :
      (ls : List (LayerData T)) (l : LayerData T)
      → find_layer l.index ls ≡ none
      → l.gates ≡ stored zero_value sizes d l.index
      → IsCache zero_value sizes d ls
      → IsCache zero_value sizes d (ls ++ l ∷ [])
  unfolding find_layer
  IsCache-append [] l absent loaded empty = layer refl (λ c. loaded) empty
  IsCache-append (l' ∷ ls) l absent loaded (layer unique clean rest) =
      let (other, absent') = find_layer-head_ne l' ls l.index absent in
      layer (find_layer-append_none ls l l'.index unique (λ e. other (sym e))) clean
        (IsCache-append ls l absent' loaded rest)

  view-append :
      (ls : List (LayerData T)) (l : LayerData T) (j : ℕ)
      → l.gates ≡ stored zero_value sizes d l.index
      → view zero_value sizes d (ls ++ l ∷ []) j ≡ view zero_value sizes d ls j
  unfolding view
  view-append [] l j loaded = elim (ℕ_discrete l.index j) [
    | yes same ↦
        let e : (l.index == j) ≡ true = ground arith in
        rw e (loaded ∙ ap (stored zero_value sizes d) same)
    | no other ↦ rw (==_ne l.index j other) refl
  ]
  view-append (l' ∷ ls) l j loaded =
      ap (λ (gs : List T). if l'.index == j then l'.gates else gs) (view-append ls l j loaded)

module _ {ℓ} {T : Type ℓ} (zero_value : T) where
  unfoldable pub IsConsistent : CircuitData T → Type ℓ
  IsConsistent c = IsCache zero_value c.layer_sizes c.disk c.layers × (c.disk.writable ≡ true)

  -- The values of a layer of a circuit, wherever they are.
  unfoldable pub values : CircuitData T → ℕ → List T
  values c j = view zero_value c.layer_sizes c.disk c.layers j

  pub record Accessed (c : CircuitData T) (i : ℕ) (c' : CircuitData T) (l : LayerData T)
      : Type ℓ where
    pub consistent : IsConsistent c'
    pub same_sizes : c'.layer_sizes ≡ c.layer_sizes
    pub same_values : (j : ℕ) → values c' j ≡ values c j
    pub present : find_layer i c'.layers ≡ some l
    pub right_values : l.gates ≡ values c i

  unfoldable pub IsAccessed : CircuitData T → ℕ → Option (CircuitData T × LayerData T) → Type ℓ
  IsAccessed c i none = Unit
  IsAccessed c i (some (c', l)) = Accessed c i c' l

  module _ (size_of : T → ℕ) (random : ℕ → ℕ) where
    add_layer-Accessed :
        (c : CircuitData T) (i : ℕ) (r : List (LayerData T) × Disk T × ℕ × ℕ)
        → find_layer i c.layers ≡ none
        → Kept zero_value c.layer_sizes c.disk c.layers r.1 r.0
        → Accessed c i
            (add_layer zero_value size_of random c i r).0
            (add_layer zero_value size_of random c i r).1
    unfolding add_layer IsConsistent values stored
    add_layer-Accessed c i (ls, d, u, n) absent k =
        let l = try_load zero_value d (get_or c.layer_sizes i 0) (fresh i) in
        let (index, clean) = try_load-fresh zero_value (get_or c.layer_sizes i 0) i d in
        let loaded : l.gates ≡ stored zero_value c.layer_sizes d l.index =
          ap (stored zero_value c.layer_sizes d) (sym index) in
        record {
          consistent = (
            IsCache-append zero_value c.layer_sizes d ls l
                (ap (λ (j : ℕ). find_layer j ls) index ∙ k.absent i absent) loaded k.cache,
            k.writable,
          );
          same_sizes = refl;
          same_values = λ j. view-append zero_value c.layer_sizes d ls l j loaded ∙ k.same_view j;
          present = find_layer-append_last ls l i (k.absent i absent) index;
          right_values =
              sym (view_absent zero_value c.layer_sizes d ls i (k.absent i absent)) ∙ k.same_view i;
        }

    bind-IsAccessed :
        (c : CircuitData T) (i : ℕ) (o : Option (List (LayerData T) × Disk T × ℕ × ℕ))
        → find_layer i c.layers ≡ none
        → IsKept zero_value c.layer_sizes c.disk c.layers o
        → IsAccessed c i (o >>= λ r. some (add_layer zero_value size_of random c i r))
    unfolding IsAccessed IsKept
    bind-IsAccessed c i none absent k = tt
    bind-IsAccessed c i (some (ls, d, u, n)) absent k =
        add_layer-Accessed c i (ls, d, u, n) absent k

    load_layer-IsAccessed :
        (c : CircuitData T) (i : ℕ)
        → IsConsistent c
        → find_layer i c.layers ≡ none
        → IsAccessed c i (load_layer zero_value size_of random c i)
    unfolding load_layer IsAccessed IsConsistent
    load_layer-IsAccessed c i (cache, writable) absent =
        elim (Bool-cases (ltb i (length c.layer_sizes))) [
          | inr out ↦ rw (load_layer, out) tt
          | inl within ↦
              rw (load_layer, within)
                (bind-IsAccessed c i _ absent (
                  evict-IsKept zero_value c.layer_sizes size_of random c.budget c.layers c.disk _ _
                    cache writable))
        ]

    pub access-IsAccessed :
        (c : CircuitData T) (i : ℕ)
        → IsConsistent c
        → IsAccessed c i (access zero_value size_of random c i)
    unfolding access IsAccessed values view
    access-IsAccessed c i h = elim (Bool-cases (ltb i (length c.layer_sizes))) [
      | inr out ↦ rw (access, out) tt
      | inl within ↦ elim (Option-cases (find_layer i c.layers)) [
        | inl absent ↦ rw (access, within, absent) (load_layer-IsAccessed c i h absent)
        | inr (l, found) ↦
            rw (access, within, found)
              (record {
                consistent = h;
                same_sizes = refl;
                same_values = λ j. refl;
                present = found;
                right_values = sym (view_found zero_value c.layer_sizes c.disk c.layers i found);
              })
      ]
    ]

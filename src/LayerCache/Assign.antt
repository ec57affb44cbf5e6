-- ===== src/LayerCache/Assign.antt =====
-- Writes to the gates of a layer: `data[i][gate] = v`.
use ginger_zaatar_allspice.Prelude.{
  ℕ, ◌==◌, Bool, true, false, List, [], ◌∷◌, none, some, ◌≡◌, ◌≢◌, refl, sym, ap, ◌∙◌, arith,
  if◌then◌else◌, Bool-cases, inl, inr, set,
}
use ginger_zaatar_allspice.LayerCache.{Disk, LayerData, CircuitData, find_layer, replace, write_to}
use ginger_zaatar_allspice.LayerCache.Files.{==_refl, ==_ne, ==_eq}
use ginger_zaatar_allspice.LayerCache.Evict.{find_layer-head_ne, IsCache, empty, layer, view}
use ginger_zaatar_allspice.LayerCache.Refinement.{find_layer-index, IsConsistent, values, Accessed}

module _ {ℓ} {T : Type ℓ} where
  find_layer-replace_ne :
      (l : LayerData T) (ls : List (LayerData T)) (k : ℕ)
      → find_layer k ls ≡ none
      → find_layer k (replace l ls) ≡ none
  unfolding find_layer replace
  find_layer-replace_ne l [] k h = refl
  find_layer-replace_ne l (l' ∷ ls) k h =
      let (other, rest) = find_layer-head_ne l' ls k h in
      elim (Bool-cases (l'.index == l.index)) [
        | inl same ↦
            rw (replace, same, find_layer, ==_ne l.index k (λ e. other (==_eq _ _ same ∙ e))) rest
        | inr differs ↦
            rw (replace, differs, find_layer, ==_ne l'.index k other)
              (find_layer-replace_ne l ls k rest)
      ]

  find_tail :
      (l' : LayerData T) {l0 : LayerData T} (ls : List (LayerData T)) (k : ℕ)
      → (l'.index == k) ≡ false
      → find_layer k (l' ∷ ls) ≡ some l0
      → find_layer k ls ≡ some l0
  unfolding find_layer
  find_tail l' ls k differs h =
      sym (ap (λ (b : Bool). if b then some l' else find_layer k ls) differs) ∙ h

module _ {ℓ} {T : Type ℓ} (zero_value : T) (sizes : List ℕ) (d : Disk T) where
  IsCache-replace :
      (l : LayerData T) (ls : List (LayerData T))
      → l.is_dirty ≡ true
      → IsCache zero_value sizes d ls
      → IsCache zero_value sizes d (replace l ls)
  unfolding replace
  IsCache-replace l [] dirty empty = empty
  IsCache-replace l (l' ∷ ls) dirty (layer unique clean rest) =
      elim (Bool-cases (l'.index == l.index)) [
        | inl same ↦
            rw (replace, same)
              (layer (ap (λ (k : ℕ). find_layer k ls) (sym (==_eq _ _ same)) ∙ unique)
                (λ c. absurd (ground arith)) rest)
        | inr differs ↦
            rw (replace, differs)
              (layer (find_layer-replace_ne l ls l'.index unique) clean
                (IsCache-replace l ls dirty rest))
      ]

  view-replace_ne :
      (l : LayerData T) (ls : List (LayerData T)) (j : ℕ)
      → l.index ≢ j
      → view zero_value sizes d (replace l ls) j ≡ view zero_value sizes d ls j
  unfolding replace view
  view-replace_ne l [] j other = refl
  view-replace_ne l (l' ∷ ls) j other = elim (Bool-cases (l'.index == l.index)) [
    | inl same ↦
        rw
          (
            replace,
            same,
            view,
            ==_ne l.index j other,
            ==_ne l'.index j (λ e. other (sym (==_eq _ _ same) ∙ e)),
          )
          refl
    | inr differs ↦
        rw (replace, differs)
          (ap (λ (gs : List T). if l'.index == j then l'.gates else gs)
            (view-replace_ne l ls j other))
  ]

  view-replace_self :
      (l l0 : LayerData T) (ls : List (LayerData T))
      → find_layer l.index ls ≡ some l0
      → view zero_value sizes d (replace l ls) l.index ≡ l.gates
  unfolding replace view find_layer
  view-replace_self l l0 [] h = cc
  view-replace_self l l0 (l' ∷ ls) h = elim (Bool-cases (l'.index == l.index)) [
    | inl same ↦ rw (replace, same, view, ==_refl) refl
    | inr differs ↦
        rw (replace, differs, view, differs)
          (view-replace_self l l0 ls (find_tail l' ls l.index differs h))
  ]

module _ {ℓ} {T : Type ℓ} (zero_value : T) where
  -- The state after a write to a gate of layer i.
  pub record Written (c : CircuitData T) (i gate : ℕ) (v : T) (c' : CircuitData T) : Type ℓ where
    pub consistent : IsConsistent zero_value c'
    pub same_sizes : c'.layer_sizes ≡ c.layer_sizes
    pub written : values zero_value c' i ≡ set (values zero_value c i) gate v
    pub others : (j : ℕ) → i ≢ j → values zero_value c' j ≡ values zero_value c j

  pub write_to-Written :
      (c : CircuitData T) (i gate : ℕ) (v : T) (c' : CircuitData T) (l : LayerData T)
      → Accessed zero_value c i c' l
      → Written c i gate v (record c' { layers = replace (write_to l gate v) c'.layers })
  unfolding IsConsistent values
  write_to-Written c i gate v c' l a =
      let w = write_to l gate v in
      let index = find_layer-index c'.layers i a.present in
      record {
        consistent = (
          IsCache-replace zero_value c'.layer_sizes c'.disk w c'.layers refl a.consistent.0,
          a.consistent.1,
        );
        same_sizes = a.same_sizes;
        written =
            ap (λ (k : ℕ). view zero_value c'.layer_sizes c'.disk (replace w c'.layers) k)
              (sym index)
            ∙ view-replace_self zero_value c'.layer_sizes c'.disk w l c'.layers
                (ap (λ (k : ℕ). find_layer k c'.layers) index ∙ a.present)
            ∙ ap (λ (gs : List T). set gs gate v) a.right_values;
        others = λ j other.
            view-replace_ne zero_value c'.layer_sizes c'.disk w c'.layers j
              (λ e. other (sym index ∙ e))
            ∙ a.same_values j;
      }

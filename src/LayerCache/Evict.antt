-- ===== src/LayerCache/Evict.antt =====
-- What the eviction of layers keeps: the loop of CircuitData::load.
use ginger_zaatar_allspice.Prelude.{
  ℕ, ◌+◌, ◌-◌, ◌%◌, ◌^◌, ◌==◌, Bool, true, false, List, [], ◌∷◌, Option, none, some, ◌≡◌, ◌≢◌, refl,
  sym, ap, subst, ◌∙◌, arith, if◌then◌else◌, Bool-cases, inl, inr, length, leb, ℕ_discrete,
}
use ginger_zaatar_allspice.LayerCache.{
  Disk, LayerData, save, find_layer, should_evict, data_size, evict,
}
use ginger_zaatar_allspice.LayerCache.Files.{
  ==_refl, ==_ne, stored, save-clean, stored-save_self, stored-save_ne, save-writable,
}

module _ {ℓ} {T : Type ℓ} where
  pub find_layer-head_ne :
      (l : LayerData T) (ls : List (LayerData T)) (i : ℕ)
      → find_layer i (l ∷ ls) ≡ none
      → (l.index ≢ i) × (find_layer i ls ≡ none)
  unfolding find_layer
  find_layer-head_ne l ls i h = elim (Bool-cases (l.index == i)) [
    | inl same ↦ absurd (ground arith)
    | inr other ↦ (ground arith, ground arith)
  ]

module _ {ℓ} {T : Type ℓ} (size_of : T → ℕ) (random : ℕ → ℕ) (budget : ℕ) where
  module _ (l : LayerData T) (ls : List (LayerData T)) (d : Disk T) (usage draws : ℕ) where
    unfoldable pub after_pop : Option (List (LayerData T) × Disk T × ℕ × ℕ)
    after_pop =
        let (asserted, draws') = data_size size_of random l draws in
        let (size, draws″) = data_size size_of random l draws' in
        evict size_of random budget ls (save l d).1 ((usage + 2 ^ 64 - size) % 2 ^ 64) draws″

    pub evict_stays :
        should_evict true (length (l ∷ ls)) usage budget ≡ false
        → evict size_of random budget (l ∷ ls) d usage draws ≡ some (l ∷ ls, d, usage, draws)
    unfolding evict
    evict_stays stays = rw (evict, stays) refl

    pub evict_aborts :
        should_evict true (length (l ∷ ls)) usage budget ≡ true
        → leb (data_size size_of random l draws).0 usage ≡ false
        → evict size_of random budget (l ∷ ls) d usage draws ≡ none
    unfolding evict
    evict_aborts leaves aborts = rw (evict, leaves, aborts) refl

    pub evict_leaves :
        should_evict true (length (l ∷ ls)) usage budget ≡ true
        → leb (data_size size_of random l draws).0 usage ≡ true
        → evict size_of random budget (l ∷ ls) d usage draws ≡ after_pop
    unfolding evict after_pop
    evict_leaves leaves fits = rw (evict, leaves, fits) refl

module _ {ℓ} {T : Type ℓ} (zero_value : T) (sizes : List ℕ) where
  -- No two layers in memory have the same index, and a layer that is not marked as changed has the
  -- values of its file.
  pub data IsCache (d : Disk T) : List (LayerData T) → Type ℓ where
    empty : IsCache d []
    layer :
        {l : LayerData T} {ls : List (LayerData T)}
        → find_layer l.index ls ≡ none
        → (l.is_dirty ≡ false → l.gates ≡ stored zero_value sizes d l.index)
        → IsCache d ls
        → IsCache d (l ∷ ls)

  -- The values of layer j: those in memory, or else those that a load finds.
  unfoldable pub view : Disk T → List (LayerData T) → ℕ → List T
  view d [] j = stored zero_value sizes d j
  view d (l ∷ ls) j = if l.index == j then l.gates else view d ls j

  pub view_absent :
      (d : Disk T) (ls : List (LayerData T)) (j : ℕ)
      → find_layer j ls ≡ none
      → view d ls j ≡ stored zero_value sizes d j
  unfolding view
  view_absent d [] j h = refl
  view_absent d (l ∷ ls) j h =
      let (other, rest) = find_layer-head_ne l ls j h in
      rw (==_ne l.index j other) (view_absent d ls j rest)

  pub view_found :
      (d : Disk T) (ls : List (LayerData T)) (j : ℕ) {l : LayerData T}
      → find_layer j ls ≡ some l
      → view d ls j ≡ l.gates
  unfolding view find_layer
  view_found d [] j h = cc
  view_found d (l' ∷ ls) j {l} h = elim (Bool-cases (l'.index == j)) [
    | inl same ↦ ground arith
    | inr other ↦ rw other (view_found d ls j {l = l} (ground arith))
  ]

  IsCache-save :
      (l : LayerData T) (d : Disk T) (ls : List (LayerData T))
      → find_layer l.index ls ≡ none
      → IsCache d ls
      → IsCache (save l d).1 ls
  IsCache-save l d [] absent empty = empty
  IsCache-save l d (l' ∷ ls) absent (layer fresh_index clean rest) =
      let (other, absent') = find_layer-head_ne l' ls l.index absent in
      layer fresh_index
        (λ c. clean c ∙ sym (stored-save_ne zero_value sizes l d l'.index (λ e. other (sym e))))
        (IsCache-save l d ls absent' rest)

  view-save_ne :
      (l : LayerData T) (d : Disk T) (ls : List (LayerData T)) (j : ℕ)
      → l.index ≢ j
      → view (save l d).1 ls j ≡ view d ls j
  unfolding view
  view-save_ne l d [] j other = stored-save_ne zero_value sizes l d j other
  view-save_ne l d (l' ∷ ls) j other =
      ap (λ (gs : List T). if l'.index == j then l'.gates else gs) (view-save_ne l d ls j other)

  stored-save :
      (l : LayerData T) (d : Disk T)
      → d.writable ≡ true
      → (l.is_dirty ≡ false → l.gates ≡ stored zero_value sizes d l.index)
      → stored zero_value sizes (save l d).1 l.index ≡ l.gates
  stored-save l d writable clean = elim (Bool-cases l.is_dirty) [
    | inl dirty ↦ stored-save_self zero_value sizes l d dirty writable
    | inr c ↦
        ap (λ (r : Bool × Disk T). stored zero_value sizes r.1 l.index) (save-clean l d c)
        ∙ sym (clean c)
  ]

  view-pop_self :
      (l : LayerData T) (d : Disk T) (ls : List (LayerData T))
      → d.writable ≡ true
      → find_layer l.index ls ≡ none
      → (l.is_dirty ≡ false → l.gates ≡ stored zero_value sizes d l.index)
      → view (save l d).1 ls l.index ≡ view d (l ∷ ls) l.index
  unfolding view
  view-pop_self l d ls writable absent clean =
      view_absent (save l d).1 ls l.index absent
      ∙ stored-save l d writable clean
      ∙ ap (λ (b : Bool). if b then l.gates else view d ls l.index) (sym (==_refl l.index))

  view-pop_ne :
      (l : LayerData T) (d : Disk T) (ls : List (LayerData T)) (j : ℕ)
      → l.index ≢ j
      → view (save l d).1 ls j ≡ view d (l ∷ ls) j
  unfolding view
  view-pop_ne l d ls j other =
      view-save_ne l d ls j other
      ∙ ap (λ (b : Bool). if b then l.gates else view d ls j) (sym (==_ne l.index j other))

  -- Saving the front layer and forgetting it changes no values of any layer.
  view-pop :
      (l : LayerData T) (d : Disk T) (ls : List (LayerData T)) (j : ℕ)
      → d.writable ≡ true
      → find_layer l.index ls ≡ none
      → (l.is_dirty ≡ false → l.gates ≡ stored zero_value sizes d l.index)
      → view (save l d).1 ls j ≡ view d (l ∷ ls) j
  view-pop l d ls j writable absent clean = elim (ℕ_discrete l.index j) [
    | yes same ↦
        subst (λ (k : ℕ). view (save l d).1 ls k ≡ view d (l ∷ ls) k) same
          (view-pop_self l d ls writable absent clean)
    | no other ↦ view-pop_ne l d ls j other
  ]

  pub record Kept (d : Disk T) (ls : List (LayerData T)) (d' : Disk T) (ls' : List (LayerData T))
      : Type ℓ where
    pub cache : IsCache d' ls'
    pub writable : d'.writable ≡ true
    pub same_view : (j : ℕ) → view d' ls' j ≡ view d ls j
    pub absent : (j : ℕ) → find_layer j ls ≡ none → find_layer j ls' ≡ none

  Kept-refl :
      (d : Disk T) (ls : List (LayerData T)) → IsCache d ls → d.writable ≡ true → Kept d ls d ls
  Kept-refl d ls cache writable = record {
    cache = cache;
    writable = writable;
    same_view = λ j. refl;
    absent = λ j h. h;
  }

  pub Kept-pop :
      (l : LayerData T) (d : Disk T) (ls : List (LayerData T))
      → IsCache d (l ∷ ls)
      → d.writable ≡ true
      → Kept d (l ∷ ls) (save l d).1 ls
  Kept-pop l d ls (layer unique clean rest) writable = record {
    cache = IsCache-save l d ls unique rest;
    writable = save-writable l d ∙ writable;
    same_view = λ j. view-pop l d ls j writable unique clean;
    absent = λ j h. (find_layer-head_ne l ls j h).1;
  }

  Kept-trans :
      {d d' d″ : Disk T} {ls ls' ls″ : List (LayerData T)}
      → Kept d ls d' ls'
      → Kept d' ls' d″ ls″
      → Kept d ls d″ ls″
  Kept-trans k k' = record {
    cache = k'.cache;
    writable = k'.writable;
    same_view = λ j. k'.same_view j ∙ k.same_view j;
    absent = λ j h. k'.absent j (k.absent j h);
  }

  -- `Kept` of what the loop returns, unless an assertion fails.
  unfoldable pub IsKept :
      Disk T → List (LayerData T) → Option (List (LayerData T) × Disk T × ℕ × ℕ) → Type ℓ
  IsKept d ls none = Unit
  IsKept d ls (some (ls', d', usage, draws)) = Kept d ls d' ls'

  IsKept-trans :
      {d d' : Disk T} {ls ls' : List (LayerData T)}
      → Kept d ls d' ls'
      → (o : Option (List (LayerData T) × Disk T × ℕ × ℕ)) → IsKept d' ls' o
      → IsKept d ls o
  unfolding IsKept
  IsKept-trans k none h = tt
  IsKept-trans k (some (ls', d', usage, draws)) h = Kept-trans k h

  module _ (size_of : T → ℕ) (random : ℕ → ℕ) (budget : ℕ) where
    pub evict-IsKept :
        (ls : List (LayerData T)) (d : Disk T) (usage draws : ℕ)
        → IsCache d ls
        → d.writable ≡ true
        → IsKept d ls (evict size_of random budget ls d usage draws)
    unfolding IsKept evict after_pop
    evict-IsKept [] d usage draws cache writable = Kept-refl d [] cache writable
    evict-IsKept (l ∷ ls) d usage draws cache writable =
        elim (Bool-cases (should_evict true (length (l ∷ ls)) usage budget)) [
          | inr stays ↦
              subst (IsKept d (l ∷ ls))
                (sym (evict_stays size_of random budget l ls d usage draws stays))
                (Kept-refl d (l ∷ ls) cache writable)
          | inl leaves ↦ elim (Bool-cases (leb (data_size size_of random l draws).0 usage)) [
            | inr aborts ↦
                subst (IsKept d (l ∷ ls))
                  (sym (evict_aborts size_of random budget l ls d usage draws leaves aborts)) tt
            | inl fits ↦
                subst (IsKept d (l ∷ ls))
                  (sym (evict_leaves size_of random budget l ls d usage draws leaves fits))
                  (IsKept-trans (Kept-pop l d ls cache writable) _ (
                    evict-IsKept ls (save l d).1 _ _ (Kept-pop l d ls cache writable).cache
                      (Kept-pop l d ls cache writable).writable))
          ]
        ]

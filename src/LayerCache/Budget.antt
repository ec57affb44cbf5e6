-- ===== src/LayerCache/Budget.antt =====
-- How many layers an eviction removes, and what it does when a file does not open.
use ginger_zaatar_allspice.Prelude.{
  ℕ, ◌+◌, ◌-◌, ◌%◌, ◌^◌, ◌<◌, ◌≤◌, Bool, true, false, List, [], ◌∷◌, ◌++◌, Option, none, some, ◌≡◌,
  refl, sym, ap, subst, ◌∙◌, arith, Bool-cases, ◌⊎◌, inl, inr, length, leb, ltb, leb→le, get_or,
}
use ginger_zaatar_allspice.LayerCache.{
  Disk, LayerData, CircuitData, save, should_evict, data_size, update_usage, evict, add_layer,
  try_load, fresh, load_layer, ◌>>=◌,
}
use ginger_zaatar_allspice.LayerCache.Files.{save-locked}
use ginger_zaatar_allspice.LayerCache.Evict.{after_pop, evict_stays, evict_aborts, evict_leaves}

should_evict_stays :
    (n usage budget : ℕ) → should_evict true n usage budget ≡ false → (n ≤ 1) ⊎ (usage ≤ budget)
unfolding should_evict
should_evict_stays n usage budget h = ground arith

should_evict_leaves :
    (n usage budget : ℕ) → should_evict true n usage budget ≡ true → (1 < n) × (budget < usage)
unfolding should_evict
should_evict_leaves n usage budget h = ground arith

module _ {ℓ} {T : Type ℓ} (size_of : T → ℕ) (random : ℕ → ℕ) (budget : ℕ) where
  -- The size that is subtracted, sampled after that of the assertion.
  abbrev pub resampled : LayerData T → ℕ → ℕ × ℕ
  resampled l n = data_size size_of random l (data_size size_of random l n).1

  -- Layers leave, the oldest first, each while the usage is over the budget, and each takes its size
  -- with it: from one usage and number of draws to another.
  pub data Evictions : List (LayerData T) → ℕ → ℕ → ℕ → ℕ → Type ℓ where
    done : {u n : ℕ} → Evictions [] u n u n
    pops :
        {l : LayerData T} {ls : List (LayerData T)} {u n u' n' : ℕ}
        → budget < u
        → (data_size size_of random l n).0 ≤ u
        → Evictions ls ((u + 2 ^ 64 - (resampled l n).0) % 2 ^ 64) (resampled l n).1 u' n'
        → Evictions (l ∷ ls) u n u' n'

  -- The layers that stay are the newest ones, the last one always; they fit, or are one.
  pub record Evicted (ls : List (LayerData T)) (d : Disk T) (ls' : List (LayerData T)) (d' : Disk T)
      (start first usage last : ℕ) : Type ℓ where
    pub evicted : List (LayerData T)
    pub needed : Evictions evicted start first usage last
    pub newest : ls ≡ evicted ++ ls'
    pub nonempty : 0 < length ls → 0 < length ls'
    pub fits : (length ls' ≤ 1) ⊎ (usage ≤ budget)
    pub locked : d.writable ≡ false → d' ≡ d

  unfoldable pub IsEvicted :
      List (LayerData T) → Disk T → ℕ → ℕ → Option (List (LayerData T) × Disk T × ℕ × ℕ) → Type ℓ
  IsEvicted ls d start first none = Unit
  IsEvicted ls d start first (some (ls', d', usage, draws)) =
      Evicted ls d ls' d' start first usage draws

  IsEvicted-pop :
      (l : LayerData T) (ls : List (LayerData T)) (d : Disk T) (u n : ℕ)
      → 1 < length (l ∷ ls)
      → budget < u
      → (data_size size_of random l n).0 ≤ u
      → (o : Option (List (LayerData T) × Disk T × ℕ × ℕ))
      → IsEvicted ls (save l d).1 ((u + 2 ^ 64 - (resampled l n).0) % 2 ^ 64) (resampled l n).1 o
      → IsEvicted (l ∷ ls) d u n o
  unfolding IsEvicted
  IsEvicted-pop l ls d u n more over covered none e = tt
  IsEvicted-pop l ls d u n more over covered (some (ls', d', usage, draws)) e = record {
    evicted = l ∷ e.evicted;
    needed = pops over covered e.needed;
    newest = ap (◌∷◌ l) e.newest;
    nonempty = λ h. e.nonempty (omega arith);
    fits = e.fits;
    locked = λ h.
        let same : (save l d).1 ≡ d = ap (λ (r : Bool × Disk T). r.1) (save-locked l d h) in
        e.locked (ap (λ (d' : Disk T). d'.writable) same ∙ h) ∙ same;
  }

  -- The loop of `load` keeps the newest layers.
  pub evict-IsEvicted :
      (ls : List (LayerData T)) (d : Disk T) (usage draws : ℕ)
      → IsEvicted ls d usage draws (evict size_of random budget ls d usage draws)
  unfolding IsEvicted evict after_pop
  evict-IsEvicted [] d usage draws = record {
    evicted = [];
    needed = done;
    newest = refl;
    nonempty = λ h. h;
    fits = inl (omega arith);
    locked = λ h. refl;
  }
  evict-IsEvicted (l ∷ ls) d usage draws =
      elim (Bool-cases (should_evict true (length (l ∷ ls)) usage budget)) [
        | inr stays ↦
            subst (IsEvicted (l ∷ ls) d usage draws)
              (sym (evict_stays size_of random budget l ls d usage draws stays))
              (record {
                evicted = [];
                needed = done;
                newest = refl;
                nonempty = λ h. h;
                fits = should_evict_stays (length (l ∷ ls)) usage budget stays;
                locked = λ h. refl;
              })
        | inl leaves ↦ elim (Bool-cases (leb (data_size size_of random l draws).0 usage)) [
          | inr aborts ↦
              subst (IsEvicted (l ∷ ls) d usage draws)
                (sym (evict_aborts size_of random budget l ls d usage draws leaves aborts)) tt
          | inl covered ↦
              subst (IsEvicted (l ∷ ls) d usage draws)
                (sym (evict_leaves size_of random budget l ls d usage draws leaves covered))
                (IsEvicted-pop l ls d usage draws
                  (should_evict_leaves (length (l ∷ ls)) usage budget leaves).0
                  (should_evict_leaves (length (l ∷ ls)) usage budget leaves).1
                  (leb→le (data_size size_of random l draws).0 usage covered) _
                  (evict-IsEvicted ls (save l d).1 _ _))
        ]
      ]

module _ {ℓ} {T : Type ℓ} (zero_value : T) (size_of : T → ℕ) (random : ℕ → ℕ) where
  -- What a load of a layer leaves in memory and on the disk.
  pub record Loaded (c : CircuitData T) (i : ℕ) (c' : CircuitData T) (l : LayerData T)
      : Type ℓ where
    pub same_sizes : c'.layer_sizes ≡ c.layer_sizes
    pub read : l ≡ try_load zero_value c'.disk (get_or c.layer_sizes i 0) (fresh i)
    pub evicted : List (LayerData T)
    pub kept : List (LayerData T)
    pub newest : c.layers ≡ evicted ++ kept
    pub added : c'.layers ≡ kept ++ l ∷ []
    pub nonempty : 0 < length c.layers → 0 < length kept
    pub usage : ℕ
    pub draws : ℕ
    pub needed :
        let (start, first) = update_usage size_of random c.layers 0 c.draws in
        Evictions size_of random c.budget evicted start first usage draws
    pub fits : (length kept ≤ 1) ⊎ (usage ≤ c.budget)
    pub counted : c'.usage ≡ (usage + (data_size size_of random l draws).0) % 2 ^ 64
    pub locked : c.disk.writable ≡ false → c'.disk ≡ c.disk

  unfoldable pub IsLoaded : CircuitData T → ℕ → Option (CircuitData T × LayerData T) → Type ℓ
  IsLoaded c i none = Unit
  IsLoaded c i (some (c', l)) = Loaded c i c' l

  bind-IsLoaded :
      (c : CircuitData T) (i : ℕ) (o : Option (List (LayerData T) × Disk T × ℕ × ℕ))
      → let (start, first) = update_usage size_of random c.layers 0 c.draws in
        IsEvicted size_of random c.budget c.layers c.disk start first o
        → IsLoaded c i (o >>= λ r. some (add_layer zero_value size_of random c i r))
  unfolding IsLoaded IsEvicted add_layer
  bind-IsLoaded c i none e = tt
  bind-IsLoaded c i (some (ls, d, u, n)) e = record {
    same_sizes = refl;
    read = refl;
    evicted = e.evicted;
    kept = ls;
    newest = e.newest;
    added = refl;
    nonempty = e.nonempty;
    usage = u;
    draws = n;
    needed = e.needed;
    fits = e.fits;
    counted = refl;
    locked = e.locked;
  }

  pub load_layer-IsLoaded :
      (c : CircuitData T) (i : ℕ) → IsLoaded c i (load_layer zero_value size_of random c i)
  unfolding load_layer IsLoaded
  load_layer-IsLoaded c i = elim (Bool-cases (ltb i (length c.layer_sizes))) [
    | inr out ↦ rw (load_layer, out) tt
    | inl within ↦
        rw (load_layer, within)
          (bind-IsLoaded c i _ (evict-IsEvicted size_of random c.budget c.layers c.disk _ _))
  ]

-- ===== src/Pws/Output/Clear.antt =====
-- clearPrivate (code/pepper/cmtgkr/circuit/pws_circuit_parser.cpp) and the gates of the circuit.
use ginger_zaatar_allspice.Prelude.{
  ℕ, zero, suc, ◌≡◌, refl, ◌∙◌, ap, true, List, [], ◌∷◌, map, Option, some, none, get_elem?, arith,
}
use ginger_zaatar_allspice.Pws.Primitives.{GateDescription, unbind, invalidate}
use ginger_zaatar_allspice.Pws.State.{Parser, LayerDescription}
use ginger_zaatar_allspice.Pws.Output.{clear_private}

get_elem?-map {ℓ κ} :
    {A : Type ℓ} {B : Type κ} (f : A → B) (xs : List A) (i : ℕ) (a : A)
    → get_elem? xs i ≡ some a
    → get_elem? (map f xs) i ≡ some (f a)
get_elem?-map f [] i a h = absurd (grind arith)
get_elem?-map {A = A} f (x ∷ xs) zero a h =
    ap (λ (o : Option A). elim o [ none ↦ none | some y ↦ some (f y) ]) h
get_elem?-map f (x ∷ xs) (suc i) a h = get_elem?-map f xs i a h

unbind_bound : (d : GateDescription) → d.bound_primitive.valid ≡ true → unbind d ≡ d
unfolding unbind invalidate
unbind_bound d h = rw h refl

-- clearPrivate leaves no variable, but a gate that was bound to a primitive is there afterwards,
-- bound as before.
pub clear_private-bound :
    (s : Parser) (l i : ℕ) (layer : LayerDescription) (d : GateDescription)
    → get_elem? s.circuit_desc l ≡ some layer
    → get_elem? layer i ≡ some d
    → d.bound_primitive.valid ≡ true
    → ((clear_private s).var_map ≡ [])
      × ((clear_private s).in_out_vars_map ≡ [])
      × ((after : LayerDescription) × (get_elem? (clear_private s).circuit_desc l ≡ some after)
          × (get_elem? after i ≡ some d))
unfolding clear_private
clear_private-bound s l i layer d h₁ h₂ h₃ = (
  refl,
  refl,
  (
    map unbind layer,
    get_elem?-map (map unbind) s.circuit_desc l layer h₁,
    get_elem?-map unbind layer i d h₂ ∙ ap (λ e. some e) (unbind_bound d h₃),
  ),
)

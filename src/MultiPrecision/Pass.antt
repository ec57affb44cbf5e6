-- ===== src/MultiPrecision/Pass.antt =====
-- The passes that propagate carries: they keep what a step keeps, and end.
use native.Mathlib.Nat.{suc-mul}
use ginger_zaatar_allspice.Prelude.{
  ℕ, zero, suc, ◌+◌, ◌*◌, ◌%◌, ◌≤◌, ◌<◌, true, List, [], ◌∷◌, Option, some, ◌≡◌, ◌≢◌, refl, sym, ap,
  subst, ◌∙◌, arith, ltb, set, Bool-cases, inl, inr, ℕ_discrete, dec_lt, get_or-set_ne,
}
use ginger_zaatar_allspice.MultiPrecision.{
  word_mod, word, Sums, Step, test, add_carry, add_carry_clear, carry_pass, all_zero, propagate,
}
use ginger_zaatar_allspice.MultiPrecision.Value.{IsBelow}
use ginger_zaatar_allspice.MultiPrecision.Step.{Counted, Counted-mono, add_carry_clear-Counted}

-- The first p carries are zero.
unfoldable pub ZeroTo : ℕ → List ℕ → Type 0
ZeroTo p c = (k : ℕ) → k < p → word c k ≡ 0

pub word-set_zero :
    (c : List ℕ) (i v k : ℕ) → (k ≡ i → v ≡ 0) → (k ≢ i → word c k ≡ 0) → word (set c i v) k ≡ 0
word-set_zero [] i v k here there = refl
word-set_zero (x ∷ c) zero v zero here there = here refl
word-set_zero (x ∷ c) zero v (suc k) here there = there (λ e. absurd (omega arith))
word-set_zero (x ∷ c) (suc i) v zero here there = there (λ e. absurd (omega arith))
word-set_zero (x ∷ c) (suc i) v (suc k) here there =
    word-set_zero c i v k (λ e. here (ap suc e)) (λ n. there (λ e. n (omega arith)))

test-ltb_self : (x : ℕ) → x < word_mod → test (ltb ((x + 0) % word_mod) x) ≡ 0
unfolding test
test-ltb_self x h = ground arith

-- A carry that is cleared, or stays zero because the carry before it was.
word-add_carry_clear :
    (s : Sums) (i k j p : ℕ)
    → j ≢ i
    → word s.words k < word_mod
    → (p ≢ j → word s.carries p ≡ 0)
    → (p ≡ i → word s.carries j ≡ 0)
    → word (add_carry_clear s i k j).carries p ≡ 0
unfolding add_carry_clear add_carry
word-add_carry_clear s i k j p other fits zeroed before =
    let x = word s.words k in
    let cleared = set s.carries j 0 in
    word-set_zero cleared i
      ((word cleared i + test (ltb ((x + word s.carries j) % word_mod) x)) % word_mod) p
      (λ e.
        let first : word cleared i ≡ 0 =
          get_or-set_ne s.carries j i 0 0 other
          ∙ sym (ap (λ (n : ℕ). word s.carries n) e)
          ∙ zeroed (λ same. other (sym same ∙ e)) in
        let no_carry : test (ltb ((x + word s.carries j) % word_mod) x) ≡ 0 =
          ap (λ (n : ℕ). test (ltb ((x + n) % word_mod) x)) (before e) ∙ test-ltb_self x fits in
        omega (arith, first, no_carry))
      (λ n. word-set_zero s.carries j 0 p (λ e. refl) zeroed)

-- What the proofs need of a step: it counts at most one carry more, and a carry that it clears, or
-- that was zero with nothing coming in, is zero.
pub record IsStep (step : Step) : Type 0 where
  pub counts :
      (m l n : ℕ) (s : Sums) (i k j : ℕ)
      → Counted m l n s
      → suc n ≤ word_mod
      → Counted m l (suc n) (step s i k j)
  pub clears :
      (s : Sums) (i k j p : ℕ)
      → j ≢ i
      → word s.words k < word_mod
      → (p ≢ j → word s.carries p ≡ 0)
      → (p ≡ i → word s.carries j ≡ 0)
      → word (step s i k j).carries p ≡ 0

pub add_carry_clear-IsStep : IsStep add_carry_clear
add_carry_clear-IsStep = record { counts = add_carry_clear-Counted; clears = word-add_carry_clear }

module _ (step : Step) (is_step : IsStep step) (m l o top : ℕ) (P : Sums → Type 0)
    (keeps : (s : Sums) (n j : ℕ)
      → j < top
      → Counted m l n s
      → suc n ≤ word_mod
      → P s
      → P (step s (suc j + o) (suc j) (j + o))) where
  pub carry_pass-Counted :
      (j n : ℕ) (s : Sums)
      → j ≤ top
      → n + j ≤ word_mod
      → Counted m l n s
      → P s
      → Counted m l (n + j) (carry_pass step o j s) × P (carry_pass step o j s)
  unfolding carry_pass
  carry_pass-Counted zero n s within room c h =
      (subst (λ (k : ℕ). Counted m l k s) {x = n} (omega arith) c, h)
  carry_pass-Counted (suc j) n s within room c h =
      let s' = step s (suc j + o) (suc j) (j + o) in
      let (c', h') =
        carry_pass-Counted j (suc n) s' (omega arith) (omega arith)
          (is_step.counts m l n s (suc j + o) (suc j) (j + o) c (omega arith))
          (keeps s n j (omega arith) c (omega arith) h) in
      (
        subst (λ (k : ℕ). Counted m l k (carry_pass step o j s')) {x = suc n + j} (omega arith) c',
        h',
      )

-- A pass clears one more carry at the low end.
carry_pass-ZeroTo :
    (step : Step) (is_step : IsStep step) (m l o j n p : ℕ) (s : Sums)
    → o ≤ p
    → n + j ≤ word_mod
    → Counted m l n s
    → ZeroTo p s.carries
    → (j + o ≤ p → word s.carries p ≡ 0)
    → ZeroTo (suc p) (carry_pass step o j s).carries
unfolding carry_pass ZeroTo IsBelow
carry_pass-ZeroTo step is_step m l o zero n p s low room c zeros last = λ k h.
    elim (ℕ_discrete k p) [
      | yes e ↦ ap (λ (i : ℕ). word s.carries i) e ∙ last (omega arith)
      | no e ↦ zeros k (omega arith)
    ]
carry_pass-ZeroTo step is_step m l o (suc j) n p s low room c zeros last =
    carry_pass-ZeroTo step is_step m l o j (suc n) p (step s (suc j + o) (suc j) (j + o)) low
      (omega arith) (is_step.counts m l n s (suc j + o) (suc j) (j + o) c (omega arith))
      (λ k h.
        is_step.clears s (suc j + o) (suc j) (j + o) k (λ e. absurd (omega arith))
          (c.are_words (suc j)) (λ e. zeros k h) (λ e. zeros (j + o) (omega arith)))
      (λ h.
        is_step.clears s (suc j + o) (suc j) (j + o) p (λ e. absurd (omega arith))
          (c.are_words (suc j)) (λ e. last (omega arith)) (λ e. zeros (j + o) (omega arith)))

all_zero-ZeroTo : (n : ℕ) (c : List ℕ) → ZeroTo n c → all_zero n c ≡ true
unfolding all_zero ZeroTo
all_zero-ZeroTo zero c h = refl
all_zero-ZeroTo (suc n) c h =
    rw (all_zero-ZeroTo n c (λ k b. h k (omega arith)), h n (omega arith)) refl

ZeroTo-all_zero : (n : ℕ) (c : List ℕ) → all_zero n c ≡ true → ZeroTo n c
unfolding all_zero ZeroTo
ZeroTo-all_zero zero c h k b = absurd (omega arith)
ZeroTo-all_zero (suc n) c h k b = elim (ℕ_discrete k n) [
  | yes e ↦ ap (λ (i : ℕ). word c i) e ∙ ground arith
  | no e ↦ ZeroTo-all_zero n c (ground arith) k (omega arith)
]

-- What the loop leaves.
pub record Propagated (m l o top : ℕ) (P : Sums → Type 0) (n : ℕ) (result : Option Sums)
    : Type 0 where
  pub final : Sums
  pub returned : result ≡ some final
  pub counted : Counted m l n final
  pub kept : P final
  pub zeros : ZeroTo (top + o) final.carries

module _ (step : Step) (is_step : IsStep step) (m l o top : ℕ) (P : Sums → Type 0)
    (keeps : (s : Sums) (n j : ℕ)
      → j < top
      → Counted m l n s
      → suc n ≤ word_mod
      → P s
      → P (step s (suc j + o) (suc j) (j + o))) where
  propagate-stop :
      (n p : ℕ) (s : Sums)
      → ZeroTo (top + o) s.carries
      → Counted m l n s
      → P s
      → (fuel : ℕ) → Propagated m l o top P (n + fuel * top) (propagate step o top fuel s)
  unfolding propagate
  propagate-stop n p s zeros c h zero = record {
    final = s;
    returned = rw (all_zero-ZeroTo (top + o) s.carries zeros) refl;
    counted = Counted-mono m l n (n + 0 * top) s (omega arith) c;
    kept = h;
    zeros = zeros;
  }
  propagate-stop n p s zeros c h (suc fuel) = record {
    final = s;
    returned = rw (propagate, all_zero-ZeroTo (top + o) s.carries zeros) refl;
    counted = Counted-mono m l n (n + suc fuel * top) s (omega arith) c;
    kept = h;
    zeros = zeros;
  }

  -- The loop ends: a pass clears one carry more, so as many passes as there are carries are enough.
  pub propagate-Propagated :
      (fuel n p : ℕ) (s : Sums)
      → o ≤ p
      → top + o ≤ p + fuel
      → n + fuel * top ≤ word_mod
      → Counted m l n s
      → ZeroTo p s.carries
      → P s
      → Propagated m l o top P (n + fuel * top) (propagate step o top fuel s)
  unfolding propagate ZeroTo
  propagate-Propagated zero n p s low enough room c zeros h =
      propagate-stop n p s (λ k b. zeros k (omega arith)) c h zero
  propagate-Propagated (suc fuel) n p s low enough room c zeros h =
      elim (Bool-cases (all_zero (top + o) s.carries)) [
        | inl done ↦ propagate-stop n p s (ZeroTo-all_zero (top + o) s.carries done) c h (suc fuel)
        | inr going ↦
            let below : p < top + o = elim (dec_lt p (top + o)) [
              | yes b ↦ b
              | no b ↦ absurd (
                  ground (
                    arith,
                    going,
                    all_zero-ZeroTo (top + o) s.carries (λ k b'. zeros k (omega arith)),
                  ))
            ] in
            let (c', h') =
              carry_pass-Counted step is_step m l o top P keeps top n s (omega arith)
                (omega (arith, suc-mul fuel top)) c h in
            let r =
              propagate-Propagated fuel (n + top) (suc p) (carry_pass step o top s) (omega arith)
                (omega arith) (omega (arith, suc-mul fuel top)) c'
                (carry_pass-ZeroTo step is_step m l o top n p s low
                  (omega (arith, suc-mul fuel top)) c zeros (λ b. absurd (omega arith)))
                h' in
            record {
              final = r.final;
              returned = rw (propagate, going) r.returned;
              counted = Counted-mono m l _ _ r.final (omega (arith, suc-mul fuel top)) r.counted;
              kept = r.kept;
              zeros = r.zeros;
            }
      ]

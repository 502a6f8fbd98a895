-- ===== src/Common/Keyed.antt =====
-- Lists in which no two values have one key.
use mathlib.Core.Path.{◌≡◌, refl, sym, ap, ◌∙◌}
use mathlib.Core.Logic.{◌≢◌, inl, inr}
use mathlib.Core.List.{List, [], ◌∷◌}
use rom_analyzer.Common.Lists.{In, Pairwise, In-All, All-of_In}

module _ {A K : Type 0} (key : A → K) where
  -- Members with one key are the same.
  pub same_key :
      (xs : List A)
      → Pairwise (λ a b. key a ≢ key b) xs
      → (a b : A) → In a xs
      → In b xs
      → key a ≡ key b
      → a ≡ b
  same_key [] h a b m n e = absurd m
  same_key (x ∷ xs) h a b (inl p) (inl q) e = p ∙ sym q
  same_key (x ∷ xs) h a b (inl p) (inr n) e =
      absurd (In-All (λ c. key x ≢ key c) xs h.0 b n (ap key (sym p) ∙ e))
  same_key (x ∷ xs) h a b (inr m) (inl q) e =
      absurd (In-All (λ c. key x ≢ key c) xs h.0 a m (ap key (sym q) ∙ sym e))
  same_key (x ∷ xs) h a b (inr m) (inr n) e = same_key xs h.1 a b m n e

module _ {A : Type 0} (R S : A → A → Type 0) where
  pub Pairwise-In :
      (xs : List A)
      → ((a b : A) → In a xs → In b xs → R a b → S a b)
      → Pairwise R xs
      → Pairwise S xs
  Pairwise-In [] f h = tt
  Pairwise-In (x ∷ xs) f h = (
    All-of_In xs (λ b m. f x b (inl refl) (inr m) (In-All (R x) xs h.0 b m)),
    Pairwise-In xs (λ a b m n. f a b (inr m) (inr n)) h.1,
  )

module _ {A J K : Type 0} (outer : A → J) (inner : A → K) where
  -- A list with distinct outer keys whose members come from one with distinct inner keys has distinct
  -- inner keys, too.
  pub inherited :
      (xs ys : List A)
      → Pairwise (λ a b. inner a ≢ inner b) xs
      → Pairwise (λ a b. outer a ≢ outer b) ys
      → ((a : A) → In a ys → In a xs)
      → Pairwise (λ a b. inner a ≢ inner b) ys
  inherited xs ys h k from =
      Pairwise-In (λ a b. outer a ≢ outer b) (λ a b. inner a ≢ inner b) ys
        (λ a b m n ne e. ne (ap outer (same_key inner xs h a b (from a m) (from b n) e))) k

-- ===== src/Prelude/Update.antt =====
-- Functions on numbers, changed at one place.
use distributed_game_of_life.Prelude.{ℕ, ◌≡◌, refl, true, false, ◌==◌, if◌then◌else◌}

module _ {ℓ} {A : Type ℓ} where
  abbrev pub write : ℕ → A → (ℕ → A) → ℕ → A
  write a v f b = if a == b then v else f b

  pub write_own : (a b : ℕ) (v : A) (f : ℕ → A) → (a == b) ≡ true → write a v f b ≡ v
  write_own a b v f own = rw own refl

  pub write_other : (a b : ℕ) (v : A) (f : ℕ → A) → (a == b) ≡ false → write a v f b ≡ f b
  write_other a b v f other = rw other refl

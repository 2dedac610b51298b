-- ===== src/SoundConv/Table.antt =====
-- Facts about the bytes and the 16-bit samples, by evaluation at every value.
use furikup.Prelude.{
  ℕ, zero, suc, ◌+◌, ◌*◌, ◌/◌, ◌%◌, ◌≤◌, Bool, true, ◌&&◌, ◌≡◌, ◌⊎◌, inl, inr, arith,
}

-- The test passes at 0, 1, …, k.
unfoldable pub passes : (ℕ → Bool) → ℕ → Bool
passes test zero = test 0
passes test (suc k) = passes test k && test (suc k)

pub passes_at : (test : ℕ → Bool) (k x : ℕ) → passes test k ≡ true → x ≤ k → test x ≡ true
unfolding passes
passes_at test zero zero t h = t
passes_at test zero (suc x) t h = absurd (omega arith)
passes_at test (suc k) x t h = elim (last_or_before x k h) [
  | inl last ↦ ground arith
  | inr before ↦ ground (arith, passes_at test k x)
]
  where
    last_or_before : (x k : ℕ) → x ≤ suc k → (x ≡ suc k) ⊎ (x ≤ k)
    last_or_before x k h = grind arith

-- The test passes at 0, 1, …, 256 * k + 255, looked at in k + 1 rounds of 256.
abbrev pub passes_rounds : (ℕ → Bool) → ℕ → Bool
passes_rounds test = passes (λ hi. passes (λ lo. test (256 * hi + lo)) 255)

pub passes_rounds_at :
    (test : ℕ → Bool) (k x : ℕ) → passes_rounds test k ≡ true → x ≤ 256 * k + 255 → test x ≡ true
passes_rounds_at test k x t h =
    let round = passes_at _ k (x / 256) t (omega arith) in
    let found : test (256 * (x / 256) + x % 256) ≡ true =
      passes_at (λ lo. test (256 * (x / 256) + lo)) 255 (x % 256) round (omega arith) in
    let e : 256 * (x / 256) + x % 256 ≡ x = omega arith in rw e at found

-- ===== src/Main/Nonce.antt =====
-- get_run_nonce of main.cc.
use post2usenet.Common.{
  ℕ, zero, suc, ◌+◌, ◌%◌, ◌<◌, ◌≢◌, [], ◌∷◌, ◌≡◌, refl, arith, Bytes, length, All,
}
use post2usenet.Common.Find.{Lacks}
use post2usenet.Main.{choices, choice, get_run_nonce}

choice-All : (P : ℕ → Type 0) (s : Bytes) (n : ℕ) → n < length s → All P s → P (choice n s)
unfolding choice
choice-All P [] n h all = absurd (omega arith)
choice-All P (c ∷ s) zero h all = all.0
choice-All P (c ∷ s) (suc n) h all = choice-All P s n (omega arith) all.1

-- A nonce has the length that is asked for, and holds no dot.
pub get_run_nonce-Lacks :
    (rng : ℕ → ℕ) (at n : ℕ)
    → (length (get_run_nonce rng at n).1 ≡ n) × Lacks b'.' (get_run_nonce rng at n).1
unfolding get_run_nonce
get_run_nonce-Lacks rng at zero = (refl, tt)
get_run_nonce-Lacks rng at (suc n) =
    let (same, lacks) = get_run_nonce-Lacks rng (at + 1) n in
    (
      omega arith,
      (choice-All (λ x. x ≢ b'.') choices (rng at % 36) (omega arith) (omega arith), lacks),
    )

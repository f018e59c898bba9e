-- ===== src/Auth/Keys.antt =====
-- Which keys src/middlewares/auth.middleware.js lets through.
use potens_intern_backend_sh.Common.{
  ℕ, zero, suc, ◌≡◌, ◌≢◌, ◌↔◌, ◌≤◌, ◌∙◌, refl, sym, ap, true, some, List, [], ◌∷◌, Text, Lacks,
  text_eq_iff, length, replicate, take, max, arith,
}
use potens_intern_backend_sh.Utf8.{utf8, IsAscii, utf8_of_IsAscii}
use potens_intern_backend_sh.Auth.{copy, timing_safe_equal, is_falsy, require_api_key}

-- Texts without a zero that are padded by zeros to one length.
padded_injective :
    (n : ℕ) (s t : List ℕ)
    → length s ≤ n
    → length t ≤ n
    → Lacks 0 s
    → Lacks 0 t
    → copy s (replicate n 0) ≡ copy t (replicate n 0)
    → s ≡ t
unfolding copy
padded_injective n [] [] hs ht ls lt e = refl
padded_injective zero [] (c ∷ t) hs ht ls lt e = absurd (omega arith)
padded_injective (suc n) [] (c ∷ t) hs ht ls lt e = absurd (lt.0 cc)
padded_injective zero (c ∷ s) t hs ht ls lt e = absurd (omega arith)
padded_injective (suc n) (c ∷ s) [] hs ht ls lt e = absurd (ls.0 cc)
padded_injective (suc n) (c ∷ s) (d ∷ t) hs ht ls lt e =
    let rest = padded_injective n s t (omega arith) (omega arith) ls.1 lt.1 cc in cc

-- A text of ASCII characters other than NUL.
abbrev pub IsKey : Text → Type 0
IsKey t = IsAscii t × Lacks 0 t

timing_safe_equal_iff : (p k : Text) → IsKey p → IsKey k → (timing_safe_equal p k ≡ true) ↔ (p ≡ k)
unfolding timing_safe_equal
timing_safe_equal_iff p k hp hk =
    let n = max (max (length p) (length k)) 1 in
    simp (utf8_of_IsAscii p hp.0, utf8_of_IsAscii k hk.0)
      (
        (λ e. padded_injective n p k (omega arith) (omega arith) hp.1 hk.1 ((text_eq_iff _ _).0 e)),
        (λ e. (text_eq_iff _ _).1 (ap (λ (t : Text). copy t (replicate n 0)) e)),
      )

-- With a key and a header of ASCII characters other than NUL, a request passes exactly when its
-- header is the key.
pub require_api_key_iff :
    (p k : Text) → k ≢ [] → IsKey p → IsKey k → (require_api_key (some p) k ≡ true) ↔ (p ≡ k)
unfolding require_api_key is_falsy
require_api_key_iff [] k some_key hp hk = ((λ h. cc), (λ h. absurd (some_key (sym h))))
require_api_key_iff (c ∷ p) k some_key hp hk = ground (arith, timing_safe_equal_iff (c ∷ p) k hp hk)

copy-take : (n : ℕ) (s : List ℕ) → copy s (replicate n 0) ≡ copy (take n s) (replicate n 0)
unfolding copy
copy-take zero [] = refl
copy-take zero (c ∷ s) = refl
copy-take (suc n) [] = refl
copy-take (suc n) (c ∷ s) = ap (◌∷◌ c) (copy-take n s)

-- A header of as many UTF-16 units as the key passes if the first so many UTF-8 bytes of the two
-- agree: the bytes behind them, which a key with a character beyond ASCII has, are not compared.
pub same_front_passes :
    (p k : Text)
    → p ≢ []
    → length p ≡ length k
    → take (length k) (utf8 p) ≡ take (length k) (utf8 k)
    → require_api_key (some p) k ≡ true
unfolding require_api_key timing_safe_equal is_falsy
same_front_passes [] k sent long front = absurd (sent refl)
same_front_passes (c ∷ p) k sent long front =
    let n : max (max (length (c ∷ p)) (length k)) 1 ≡ length k = omega arith in
    let same : copy (utf8 (c ∷ p)) (replicate (length k) 0)
        ≡ copy (utf8 k) (replicate (length k) 0) =
      copy-take (length k) (utf8 (c ∷ p))
      ∙ ap (λ (t : Text). copy t (replicate (length k) 0)) front
      ∙ sym (copy-take (length k) (utf8 k)) in
    simp (n, (text_eq_iff _ _).1 same)

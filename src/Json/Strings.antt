-- ===== src/Json/Strings.antt =====
-- Reading a string of JSON back (`JSON.parse` and `JSON.stringify`).
use potens_intern_backend_sh.Common.{
  ℕ, zero, suc, ◌+◌, ◌*◌, ◌/◌, ◌%◌, ◌<◌, ◌≡◌, refl, ap, ◌∙◌, inl, inr, true, false, ◌&&◌, none,
  some, [], ◌∷◌, ◌++◌, append_assoc, Text, Bool-cases, ltb, ◌==◌, arith,
}
use potens_intern_backend_sh.Json.{hex_digit, unicode_escape, escape_unit, escape, is_high, is_low}
use potens_intern_backend_sh.Json.Parse.{plain, hex, hex_value, push, read_string, escaped}

hex_value-hex_digit : (n : ℕ) → n < 16 → hex_value (hex_digit n) ≡ some n
unfolding hex_value hex_digit
hex_value-hex_digit n h = ground arith

read_hex :
    (left sum n : ℕ) (s : Text)
    → n < 16
    → read_string (hex (suc left) sum) (hex_digit n ∷ s)
      ≡ push none (read_string (hex left (sum * 16 + n)) s)
unfolding read_string
read_hex left sum n s h = rw (hex_value-hex_digit n h)

read_last_hex :
    (sum n : ℕ) (s : Text)
    → n < 16
    → read_string (hex zero sum) (hex_digit n ∷ s)
      ≡ push (some (sum * 16 + n)) (read_string plain s)
unfolding read_string
read_last_hex sum n s h = rw (hex_value-hex_digit n h)

push-none : (o : _) → push none o ≡ o
unfolding push
push-none none = refl
push-none (some p) = refl

-- The four digits behind `\u`.
read_digits :
    (a b c d : ℕ) (s : Text)
    → a < 16
    → b < 16
    → c < 16
    → d < 16
    → read_string (hex 3 0) (hex_digit a ∷ hex_digit b ∷ hex_digit c ∷ hex_digit d ∷ s)
      ≡ push (some ((((0 * 16 + a) * 16 + b) * 16 + c) * 16 + d)) (read_string plain s)
read_digits a b c d s ha hb hc hd =
    read_hex 2 (0) a _ ha
    ∙ push-none _
    ∙ read_hex 1 _ b _ hb
    ∙ push-none _
    ∙ read_hex 0 _ c _ hc
    ∙ push-none _
    ∙ read_last_hex _ d s hd

read_slash_u : (s : Text) → read_string plain (92 ∷ 117 ∷ s) ≡ read_string (hex 3 0) s
unfolding read_string
read_slash_u s = push-none _ ∙ push-none _

read-unicode_escape :
    (c : ℕ) (s : Text)
    → c < 65536
    → read_string plain (unicode_escape c ++ s) ≡ push (some c) (read_string plain s)
unfolding unicode_escape
read-unicode_escape c s h =
    read_slash_u _
    ∙ read_digits (c / 4096) (c / 256 % 16) (c / 16 % 16) (c % 16) s (omega arith) (omega arith)
        (omega arith) (omega arith)
    ∙ ap (λ (u : ℕ). push (some u) (read_string plain s)) (omega arith)

read_slash :
    (c u : ℕ) (s : Text)
    → (c == 117) ≡ false
    → escaped c ≡ some u
    → read_string plain (92 ∷ c ∷ s) ≡ push (some u) (read_string plain s)
unfolding read_string
read_slash c u s letter known = push-none _ ∙ rw (letter, known)

read_plain :
    (c : ℕ) (s : Text)
    → (c == 34) ≡ false
    → (c == 92) ≡ false
    → ltb c 32 ≡ false
    → read_string plain (c ∷ s) ≡ push (some c) (read_string plain s)
unfolding read_string
read_plain c s no_quote no_slash no_control = rw (no_quote, no_slash, no_control)

read-escape_unit :
    (c : ℕ) (s : Text)
    → read_string plain (escape_unit c ++ s) ≡ push (some c) (read_string plain s)
unfolding escape_unit escaped
read-escape_unit c s = ground (
  arith,
  read_slash 34 34 s refl refl,
  read_slash 92 92 s refl refl,
  read_slash 98 8 s refl refl,
  read_slash 116 9 s refl refl,
  read_slash 110 10 s refl refl,
  read_slash 102 12 s refl refl,
  read_slash 114 13 s refl refl,
  read-unicode_escape c s,
  read_plain c s,
)

two_plain :
    (c d : ℕ) (s : Text)
    → (is_high c && is_low d) ≡ true
    → read_string plain (c ∷ d ∷ s) ≡ push (some c) (push (some d) (read_string plain s))
two_plain c d s pair =
    read_plain c (d ∷ s) (ground arith) (ground arith) (ground arith)
    ∙ ap (push (some c)) (read_plain d s (ground arith) (ground arith) (ground arith))

-- A string that was written is read back, with what stands behind its closing quote.
pub read-escape : (t rest : Text) → read_string plain (escape t ++ (34 ∷ rest)) ≡ some (t, rest)
unfolding escape push
read-escape [] rest = unfold read_string in refl
read-escape (c ∷ []) rest = read-escape_unit c (34 ∷ rest) ∙ (unfold read_string push in refl)
read-escape (c ∷ d ∷ t) rest = elim (Bool-cases (is_high c && is_low d)) [
  | inl pair ↦ rw pair (
      two_plain c d (escape t ++ (34 ∷ rest)) pair
      ∙ ap (λ o. push (some c) (push (some d) o)) (read-escape t rest))
  | inr single ↦ rw single (
      ap (read_string plain) (append_assoc (escape_unit c) (escape (d ∷ t)) (34 ∷ rest))
      ∙ read-escape_unit c (escape (d ∷ t) ++ (34 ∷ rest))
      ∙ ap (push (some c)) (read-escape (d ∷ t) rest))
]

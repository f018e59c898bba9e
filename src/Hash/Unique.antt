-- ===== src/Hash/Unique.antt =====
-- In which orders the chain of src/services/hash.service.js can be read.
use mathlib.Core.List.{
  Mem, Mem-prop, Nodup, Perm, mem-cons, mem-cons_self, mem-cons_of_mem, not-mem-nil, Nodup-cons,
}
use mathlib.Core.List.Perm
use mathlib.Core.Logic.Or
use mathlib.Core.Path.{subst}
use potens_intern_backend_sh.Common.{
  ℕ, ◌≡◌, ap, ◌∙◌, inl, inr, Option, none, some, List, [], ◌∷◌, map, Text,
}
use potens_intern_backend_sh.Hash.{LogEntry}
use potens_intern_backend_sh.Hash.Intact.{Fits, IsIntact}
use potens_intern_backend_sh.Hash.Digest.{head_hash}

abbrev pub hashes : List LogEntry → List Text
hashes = map (λ e. e.current_hash)

entries_set : IsSet (List LogEntry)
entries_set = hlevel

module _ (sha256 : List ℕ → Text) where
  head_hash_of_link :
      (p : Option LogEntry) (x y : LogEntry)
      → Fits sha256 p y
      → y.previous_hash ≡ some x.current_hash
      → head_hash p ≡ x.current_hash
  head_hash_of_link none x y (inl genesis, _) linked = cc
  head_hash_of_link none x y (inr nothing, _) linked = cc
  head_hash_of_link (some p) x y (prior, _) linked = cc

  -- What refers to the hash before the log, and stands in the log behind `x`, finds that hash there.
  Mem-head_hash :
      (p : Option LogEntry) (x y : LogEntry) (xs : List LogEntry)
      → IsIntact sha256 (some x) xs
      → Fits sha256 p y
      → Mem y xs
      → Mem (head_hash p) (hashes (x ∷ xs))
  Mem-head_hash p x y [] h fits m = absurd (not-mem-nil m)
  Mem-head_hash p x y (z ∷ zs) h fits m =
      Or.elim Mem-prop (mem-cons.0 m)
        (λ here.
          let linked : y.previous_hash ≡ some x.current_hash =
            ap (λ (e : LogEntry). e.previous_hash) here ∙ h.0.0 in
          rw (head_hash_of_link p x y fits linked) mem-cons_self)
        (λ later. mem-cons_of_mem _ (Mem-head_hash p z y zs h.1 fits later))

  pub chain_unique :
      (p : Option LogEntry) (xs ys : List LogEntry)
      → IsIntact sha256 p xs
      → IsIntact sha256 p ys
      → Perm ys xs
      → Nodup (hashes xs)
      → ¬ Mem (head_hash p) (hashes xs)
      → ys ≡ xs
  chain_unique p [] ys hx hy perm distinct fresh = Perm.eq-nil perm
  chain_unique p (x ∷ xs) [] hx hy perm distinct fresh = cc (Perm.nil-eq perm)
  chain_unique p (x ∷ xs) (y ∷ ys) hx hy perm distinct fresh =
      Or.elim (entries_set (y ∷ ys) (x ∷ xs)) (mem-cons.0 (Perm.subset perm y mem-cons_self))
        (λ here.
          let rest =
            chain_unique (some x) xs ys hx.1
              (subst (λ (e : LogEntry). IsIntact sha256 (some e) ys) here hy.1)
              (Perm.cons_inv (subst (λ (e : LogEntry). Perm (e ∷ ys) (x ∷ xs)) here perm))
              (Nodup-cons.0 distinct).1 (Nodup-cons.0 distinct).0 in
          cc)
        (λ later. absurd (fresh (Mem-head_hash p x y xs hx.1 hy.0 later)))

-- ===== src/Lifecycle/Prisma.antt =====
-- The Prisma client of src/config/database.js: the module may be loaded many times in one process, and
-- keeps its client on `global` except in production.
use potens_intern_backend_sh.Common.{
  ℕ, zero, suc, ap, ◌∙◌, Bool, ◌+◌, ◌≡◌, refl, false, Option, none, some, List, [], ◌∷◌, Text,
  codes, text_eq, All, if◌then◌else◌,
}

-- Clients are numbered as they are made; `kept` is `global.__prisma`.
pub record Globals : Type 0 where
  pub made : ℕ
  pub kept : Option ℕ

-- `global.__prisma ?? new PrismaClient()`
unfoldable pub prisma_of : Option ℕ → Globals → ℕ × Globals
prisma_of (some client) g = (client, g)
prisma_of none g = (g.made, record g { made = g.made + 1 })

-- `process.env.NODE_ENV !== 'production'`
unfoldable pub is_production : Option Text → Bool
unfolding text_eq
is_production none = false
is_production (some env) = text_eq env (codes "production")

-- One load of the module: its `prisma`, and the process after it.
unfoldable pub load_prisma : Option Text → Globals → ℕ × Globals
unfolding prisma_of is_production
load_prisma node_env g =
    let (client, after) = prisma_of g.kept g in
    (client, if is_production node_env then after else record after { kept = some client })

-- The clients of so many loads, one after the other.
unfoldable pub reload : Option Text → ℕ → Globals → List ℕ
reload node_env zero g = []
reload node_env (suc loads) g =
    let (client, after) = load_prisma node_env g in client ∷ reload node_env loads after

module _ (node_env : Option Text) (development : is_production node_env ≡ false) where
  load_prisma-kept :
      (g : Globals) → (load_prisma node_env g).1.kept ≡ some (load_prisma node_env g).0
  unfolding load_prisma
  load_prisma-kept g = simp development refl

  load_prisma_of_kept :
      (g : Globals) (client : ℕ) → g.kept ≡ some client → (load_prisma node_env g).0 ≡ client
  unfolding load_prisma
  load_prisma_of_kept g client kept = simp kept refl

  reload_kept :
      (loads : ℕ) (g : Globals) (client : ℕ)
      → g.kept ≡ some client
      → All (λ c. c ≡ client) (reload node_env loads g)
  unfolding reload
  reload_kept zero g client kept = tt
  reload_kept (suc loads) g client kept =
      let same = load_prisma_of_kept g client kept in
      (same, reload_kept loads _ client (load_prisma-kept g ∙ ap some same))

  -- Outside production all loads of the module share one client.
  pub reload_shares :
      (loads : ℕ) (g : Globals)
      → All (λ c. c ≡ (load_prisma node_env g).0) (reload node_env loads g)
  unfolding reload
  reload_shares zero g = tt
  reload_shares (suc loads) g = (refl, reload_kept loads _ _ (load_prisma-kept g))

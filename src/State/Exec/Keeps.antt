-- ===== src/State/Exec/Keeps.antt =====
-- Rules for a method that begins with a check: a property of the state is kept, and an error leaves
-- the state as it was, if that holds of what follows a check that passes.
use worktree_merge_consensus.Prelude.{◌≡◌, refl}
use worktree_merge_consensus.Prelude.Results.{Result, ok, err}
use worktree_merge_consensus.State.Defs.{RunState}
use worktree_merge_consensus.State.Exec.{Check, Code, Exec, lift, ◌>>=◌}

-- An error comes with the state as it was.
abbrev pub IsAtomic : {B : Type 0} → Result Code B × RunState → RunState → Type 0
IsAtomic r s = (e : Code) → r.0 ≡ err e → r.1 ≡ s

module _ {A B : Type 0} where
  pub bind-keeps :
      (P : RunState → Type 0) (r : Check A) (f : A → Exec B) (s : RunState)
      → P s
      → ((a : A) → r ≡ ok a → P (f a s).1)
      → P ((lift r >>= f) s).1
  bind-keeps P (ok a) f s p rest = rest a refl
  bind-keeps P (err e) f s p rest = p

  pub bind-satisfies :
      (Q : Result Code B × RunState → Type 0) (r : Check A) (f : A → Exec B) (s : RunState)
      → ((e : Code) → Q (err e, s))
      → ((a : A) → r ≡ ok a → Q (f a s))
      → Q ((lift r >>= f) s)
  bind-satisfies Q (ok a) f s refused rest = rest a refl
  bind-satisfies Q (err e) f s refused rest = refused e

  pub bind-IsAtomic :
      (r : Check A) (f : A → Exec B) (s : RunState)
      → ((a : A) → r ≡ ok a → IsAtomic (f a s) s)
      → IsAtomic ((lift r >>= f) s) s
  bind-IsAtomic (ok a) f s rest = rest a refl
  bind-IsAtomic (err e) f s rest = λ _ _. refl

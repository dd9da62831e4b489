-- ===== src/Policy/Decision.antt =====
-- What `Evaluate` decides: denial wins, the order of the rules does not matter, and a policy that
-- `Load` accepts yields one of the two actions.
use shudo.Prelude.{
  ◌≡◌, refl, ◌∙◌, ap, ◌⊎◌, Bool, true, Option, none, some, List, [], ◌∷◌, ◌++◌, Bytes, any, all,
  arith, str_eq_iff, ok,
}
use mathlib.Core.Bool.{Bool-set}
use mathlib.Core.List.{Permᴰ, Perm}
use mathlib.Core.Logic.{∥∥₁_elim}
use shudo.Policy.{
  Config, Rule, Input, deny, require_approval, valid_action, applies, evaluate, load,
}

module _ {ℓ} {A : Type ℓ} (p : A → Bool) where
  any-append_cons : (xs : List A) (y : A) (ys : List A) → p y ≡ true → any p (xs ++ y ∷ ys) ≡ true
  unfolding any
  any-append_cons [] y ys h = rw h
  any-append_cons (x ∷ xs) y ys h = ground (arith, any-append_cons xs y ys h)

  any-permᴰ : {xs ys : List A} → Permᴰ xs ys → any p xs ≡ any p ys
  unfolding any
  any-permᴰ Permᴰ.nil = refl
  any-permᴰ (Permᴰ.cons e d) = cc (any-permᴰ d, ap p e)
  any-permᴰ (Permᴰ.swap e f) = ground (arith, ap p e, ap p f)
  any-permᴰ (Permᴰ.trans d d') = any-permᴰ d ∙ any-permᴰ d'

  any-perm : {xs ys : List A} → Perm xs ys → any p xs ≡ any p ys
  any-perm h = ∥∥₁_elim h (Bool-set _ _) any-permᴰ

-- A rule that denies and matches makes `Evaluate` deny, whatever rules stand before and after it
-- and whatever the default is.
pub evaluate-deny_wins :
    (eval_symlinks : Bytes → Option Bytes) (config : Config) (input : Input) (rule : Rule)
    (before after : List Rule)
    → config.rules ≡ before ++ rule ∷ after
    → applies eval_symlinks deny input rule ≡ true
    → evaluate eval_symlinks config input ≡ deny
unfolding evaluate
evaluate-deny_wins eval_symlinks config input rule before after e h =
    rw (e, any-append_cons (applies eval_symlinks deny input) before rule after h)

-- The order of the rules does not matter: two policies with the same default and with rules that
-- are permutations of each other decide alike.
pub evaluate-perm :
    (eval_symlinks : Bytes → Option Bytes) (a b : Config) (input : Input)
    → a.default_action ≡ b.default_action
    → Perm a.rules b.rules
    → evaluate eval_symlinks a input ≡ evaluate eval_symlinks b input
unfolding evaluate
evaluate-perm eval_symlinks a b input e h = rw (
  any-perm (applies eval_symlinks deny input) h,
  any-perm (applies eval_symlinks require_approval input) h,
  e,
)

load_checks :
    (raw : Option Config) (config : Config)
    → load raw ≡ ok config
    → (raw ≡ some config)
      × (valid_action config.default_action ≡ true)
      × (all (λ (r : Rule). valid_action r.action) config.rules ≡ true)
unfolding load
load_checks none config h = cc
load_checks (some raw) config h = (ground arith, ground arith, ground arith)

-- Under a policy that `Load` accepts there are two outcomes only, and none of them executes: the
-- request is denied, or it waits for an approval.
pub load-evaluate :
    (eval_symlinks : Bytes → Option Bytes) (raw : Option Config) (config : Config) (input : Input)
    → load raw ≡ ok config
    → (evaluate eval_symlinks config input ≡ deny)
      ⊎ (evaluate eval_symlinks config input ≡ require_approval)
unfolding evaluate valid_action
load-evaluate eval_symlinks raw config input h =
    let (e, d, r) = load_checks raw config h in
    ground (
      arith,
      str_eq_iff config.default_action deny,
      str_eq_iff config.default_action require_approval,
    )

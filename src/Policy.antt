-- ===== src/Policy.antt =====
-- internal/policy/policy.go: the rules of the local policy and their evaluation.
pub mod Glob
pub mod Decision
use shudo.Prelude.{
  ℕ, Bool, true, false, not, ◌&&◌, ◌||◌, Option, none, some, List, [], ◌∷◌, ◌++◌, Bytes, codes,
  length, any, all, if◌then◌else◌, ltb, ◌==◌, str_eq, is_empty, contains_byte, is_abs, Result, ok,
  err,
}
use shudo.Paths.{clean, join}
use shudo.Policy.Glob.Pattern.{glob}

abbrev pub require_approval : Bytes
require_approval = codes "require-approval"

abbrev pub deny : Bytes
deny = codes "deny"

pub record Match : Type 0 where
  pub executable : Option Bytes
  pub argv : Option (List Bytes)
  pub path : Option Bytes
  pub requester_uid : Option ℕ

pub record Rule : Type 0 where
  pub matching : Match
  pub action : Bytes

-- `Defaults` has one field.
pub record Config : Type 0 where
  pub version : ℕ
  pub default_action : Bytes
  pub rules : List Rule

pub record Input : Type 0 where
  pub executable : Bytes
  pub argv : List Bytes
  pub cwd : Bytes
  pub uid : ℕ

unfoldable pub valid_action : Bytes → Bool
valid_action action = str_eq action require_approval || str_eq action deny

pub data PolicyError : Type 0 where
  unreadable invalid_version_or_default too_many_rules invalid_rule_action : PolicyError

-- `Load` after the YAML decoder, whose result it takes: `none` if the file does not open or decode.
unfoldable pub load : Option Config → Result PolicyError Config
unfolding valid_action all
load none = err unreadable
load (some config) =
    if not (config.version == 1) || not (valid_action config.default_action)
    then err invalid_version_or_default
    else if ltb 10000 (length config.rules)
    then err too_many_rules
    else if not (all (λ (r : Rule). valid_action r.action) config.rules)
    then err invalid_rule_action
    else ok config

-- What follows the first `=`.
unfoldable pub cut_value : Bytes → Option Bytes
cut_value [] = none
cut_value (a ∷ s) = if a == b'=' then some s else cut_value s

unfoldable pub candidates : Bytes → List Bytes
unfolding cut_value
candidates argument = argument ∷ elim (cut_value argument) [ none ↦ [] | some value ↦ value ∷ [] ]

-- `filepath.EvalSymlinks` asks the file system: `none` is an error.
unfoldable pub candidate_path : (Bytes → Option Bytes) → Bytes → Bytes → Bytes
unfolding clean join is_abs
candidate_path eval_symlinks cwd candidate =
    let path = clean (if is_abs candidate then candidate else join cwd candidate) in
    elim (eval_symlinks path) [ none ↦ path | some resolved ↦ resolved ]

unfoldable pub candidate_paths : (Bytes → Option Bytes) → Bytes → List Bytes → List Bytes
unfolding candidate_path is_empty contains_byte
candidate_paths eval_symlinks cwd [] = []
candidate_paths eval_symlinks cwd (x ∷ rest) =
    let paths = candidate_paths eval_symlinks cwd rest in
    if is_empty x || contains_byte 0 x then paths else candidate_path eval_symlinks cwd x ∷ paths

unfoldable pub argument_paths : (Bytes → Option Bytes) → Bytes → List Bytes → List Bytes
unfolding candidate_paths candidates
argument_paths eval_symlinks cwd [] = []
argument_paths eval_symlinks cwd (argument ∷ argv) =
    candidate_paths eval_symlinks cwd (candidates argument) ++ argument_paths eval_symlinks cwd argv

unfoldable pub policy_paths : (Bytes → Option Bytes) → Input → List Bytes
unfolding argument_paths
policy_paths eval_symlinks input =
    clean input.executable ∷ clean input.cwd ∷ argument_paths eval_symlinks input.cwd input.argv

executable_fits : Option Bytes → Input → Bool
executable_fits none input = true
executable_fits (some pattern') input = glob pattern' input.executable

uid_fits : Option ℕ → Input → Bool
uid_fits none input = true
uid_fits (some uid) input = uid == input.uid

-- The lengths are equal where the loop runs.
unfoldable pub argv_matches : List Bytes → List Bytes → Bool
argv_matches [] [] = true
argv_matches (p ∷ patterns) (a ∷ argv) = glob p a && argv_matches patterns argv
argv_matches _ _ = false

argv_fits : Option (List Bytes) → Input → Bool
unfolding argv_matches
argv_fits none input = true
argv_fits (some patterns) input = argv_matches patterns input.argv

path_fits : (Bytes → Option Bytes) → Option Bytes → Input → Bool
unfolding policy_paths any
path_fits eval_symlinks none input = true
path_fits eval_symlinks (some pattern') input =
    any (glob pattern') (policy_paths eval_symlinks input)

unfoldable pub matches : (Bytes → Option Bytes) → Match → Input → Bool
unfolding executable_fits uid_fits argv_fits path_fits
matches eval_symlinks m input =
    executable_fits m.executable input
    && uid_fits m.requester_uid input
    && argv_fits m.argv input
    && path_fits eval_symlinks m.path input

-- The rules with this action that match.
unfoldable pub applies : (Bytes → Option Bytes) → Bytes → Input → Rule → Bool
applies eval_symlinks action input rule =
    str_eq rule.action action && matches eval_symlinks rule.matching input

-- The two loops: a rule that denies wins over every other.
unfoldable pub evaluate : (Bytes → Option Bytes) → Config → Input → Bytes
unfolding applies any
evaluate eval_symlinks config input =
    if any (applies eval_symlinks deny input) config.rules
    then deny
    else if any (applies eval_symlinks require_approval input) config.rules
    then require_approval
    else config.default_action

-- ===== src/Tests/PolicyRuns.antt =====
-- Runs of the policy: a rule that denies a shell, one that asks, and patterns.
use shudo.Prelude.{
  ◌≡◌, refl, All, arith, true, false, Option, none, some, List, [], ◌∷◌, ◌++◌, Bytes, codes, ok,
  ◌↔◌,
}
use mathlib.Core.List.{Permᴰ}
use shudo.Policy.{Config, Input, Match, Rule, require_approval, deny, evaluate}
use shudo.Policy.Decision.{evaluate-perm}
use shudo.Policy.Glob.Runes.{runes}
use shudo.Policy.Glob.Pattern.{glob}
use shudo.Policy.Glob.Language.{Matches, glob_iff}
use shudo.Policy.Glob.Plain.{glob-newline, star_star}

abbrev no_links : Bytes → Option Bytes
no_links path = none

abbrev any_match : Match
any_match = record { executable = none; argv = none; path = none; requester_uid = none }

abbrev deny_shell : Rule
deny_shell = record {
  matching = record any_match { executable = some (codes "/bin/*sh") };
  action = deny;
}

abbrev ask : Rule
ask = record { matching = any_match; action = require_approval }

abbrev two_rules : Config
two_rules = record { version = 1; default_action = deny; rules = ask ∷ deny_shell ∷ [] }

abbrev shell_input : Input
shell_input = record {
  executable = codes "/bin/bash";
  argv = codes "bash" ∷ [];
  cwd = codes "/";
  uid = 1000;
}

evaluate-perm_example :
    evaluate no_links two_rules shell_input
    ≡ evaluate no_links (record two_rules { rules = deny_shell ∷ ask ∷ [] }) shell_input
evaluate-perm_example =
    evaluate-perm no_links two_rules (record two_rules { rules = deny_shell ∷ ask ∷ [] })
      shell_input refl ∣ Permᴰ.swap refl refl ∣₁

glob_iff_example :
    (glob (codes "/bin/*sh") (codes "/bin/bash") ≡ true)
    ↔ Matches (codes "/bin/*sh") (runes (codes "/bin/bash"))
glob_iff_example = glob_iff (codes "/bin/*sh") (codes "/bin/bash")

glob-newline_example : glob star_star (10 ∷ []) ≡ false
unfolding shudo.Prelude.contains_byte
glob-newline_example = glob-newline (10 ∷ []) refl

-- ===== src/Cli/Parse/RoundTrip.antt =====
-- The options can be written as arguments.
use shudo.Prelude.{
  ◌≡◌, refl, ap, ◌∙◌, Bool, true, false, Option, none, some, List, [], ◌∷◌, Bytes, codes, str_eq,
  has_prefix, ℤ, Result, ok, err,
}
use shudo.Cli.Parse.{
  Options, ParseError, bad_timeout, no_command, default_options, word_of, check_timeout,
  parse_options, without_exec, with_command, parse,
}

abbrev flag : Bool → Bytes → List Bytes → List Bytes
flag true word rest = word ∷ rest
flag false word rest = rest

-- The options as arguments; `timeout` is a text of the timeout.
unfoldable pub print_options : Bytes → Options → List Bytes
print_options timeout o =
    codes "--reason"
    ∷ o.reason
    ∷ codes "--timeout"
    ∷ timeout
    ∷ flag o.detach (codes "--detach")
        (flag o.json (codes "--json") (flag o.verbose (codes "--verbose") (codes "--" ∷ o.command)))

abbrev plain : Bytes → ℤ → Options
plain reason timeout = record default_options { reason = reason; timeout = timeout }

-- The flags and the command, after the other options.
parse_options-flags :
    (duration : Bytes → Option ℤ) (reason : Bytes) (timeout : ℤ) (detach json verbose : Bool)
    (command : List Bytes)
    → parse_options duration (plain reason timeout) (
        flag detach
          (codes "--detach")
          (flag json (codes "--json") (flag verbose (codes "--verbose") (codes "--" ∷ command))))
      ≡ ok (record {
        reason = reason;
        timeout = timeout;
        detach = detach;
        json = json;
        verbose = verbose;
        command = command;
      })
unfolding parse_options word_of str_eq has_prefix
parse_options-flags duration reason timeout true true true [] = refl
parse_options-flags duration reason timeout true true false [] = refl
parse_options-flags duration reason timeout true false true [] = refl
parse_options-flags duration reason timeout true false false [] = refl
parse_options-flags duration reason timeout false true true [] = refl
parse_options-flags duration reason timeout false true false [] = refl
parse_options-flags duration reason timeout false false true [] = refl
parse_options-flags duration reason timeout false false false [] = refl
parse_options-flags duration reason timeout true true true (a ∷ argv) = refl
parse_options-flags duration reason timeout true true false (a ∷ argv) = refl
parse_options-flags duration reason timeout true false true (a ∷ argv) = refl
parse_options-flags duration reason timeout true false false (a ∷ argv) = refl
parse_options-flags duration reason timeout false true true (a ∷ argv) = refl
parse_options-flags duration reason timeout false true false (a ∷ argv) = refl
parse_options-flags duration reason timeout false false true (a ∷ argv) = refl
parse_options-flags duration reason timeout false false false (a ∷ argv) = refl

after_timeout : (Bytes → Option ℤ) → Bytes → List Bytes → Option ℤ → Result ParseError Options
after_timeout duration reason rest none = err bad_timeout
after_timeout duration reason rest (some t) = parse_options duration (plain reason t) rest

parse_options-head :
    (duration : Bytes → Option ℤ) (reason timeout : Bytes) (rest : List Bytes)
    → parse_options duration default_options
        (codes "--reason" ∷ reason ∷ codes "--timeout" ∷ timeout ∷ rest)
      ≡ after_timeout duration reason rest (check_timeout (duration timeout))
unfolding parse_options word_of str_eq has_prefix after_timeout
parse_options-head duration reason timeout rest = go (check_timeout (duration timeout)) refl
  where
    go :
        (t : Option ℤ)
        → check_timeout (duration timeout) ≡ t
        → parse_options duration default_options
            (codes "--reason" ∷ reason ∷ codes "--timeout" ∷ timeout ∷ rest)
          ≡ after_timeout duration reason rest (check_timeout (duration timeout))
    go none e = rw (parse_options, e) refl
    go (some t) e = rw (parse_options, e) refl

with_command-some :
    (o : Options) (a : Bytes) (argv : List Bytes)
    → o.command ≡ a ∷ argv
    → with_command (ok o) ≡ ok o
unfolding with_command
with_command-some o a argv c = go o.command c
  where
    go :
        (command : List Bytes)
        → command ≡ a ∷ argv
        → ◌≡◌ {A = Result ParseError Options}
            (elim command [ [] ↦ err no_command | _ ∷ _ ↦ ok o ])
            (ok o)
    go [] e = cc
    go (b ∷ bs) e = refl

-- Options that are written as arguments are parsed as the same options, whatever the command's own
-- arguments are, if the command is not empty and the text of the timeout has a duration that is
-- accepted, which is the timeout.
pub parse-print_options :
    (duration : Bytes → Option ℤ) (timeout : Bytes) (o : Options) (a : Bytes) (argv : List Bytes)
    → check_timeout (duration timeout) ≡ some o.timeout
    → o.command ≡ a ∷ argv
    → parse duration (print_options timeout o) ≡ ok o
unfolding parse print_options without_exec str_eq after_timeout
parse-print_options duration timeout o a argv t c =
    let words = flag o.detach (codes "--detach") (
      flag o.json (codes "--json") (flag o.verbose (codes "--verbose") (codes "--" ∷ o.command))) in
    ap with_command (
      parse_options-head duration o.reason timeout words
      ∙ ap (after_timeout duration o.reason words) t
      ∙ parse_options-flags duration o.reason o.timeout o.detach o.json o.verbose o.command)
    ∙ with_command-some o a argv c

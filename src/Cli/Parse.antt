-- ===== src/Cli/Parse.antt =====
-- The command line: `parse`, `parseAdmin` and `run`.
pub mod RoundTrip
use shudo.Prelude.{
  ℕ, ◌*◌, Bool, true, false, not, ◌&&◌, ◌||◌, Option, none, some, List, [], ◌∷◌, Bytes, codes,
  if◌then◌else◌, str_eq, has_prefix, is_empty, ℤ, pos, negsuc, Result, ok, err,
}
use shudo.Config.{is_outside}

-- The timeout is in nanoseconds.
pub record Options : Type 0 where
  pub reason : Bytes
  pub timeout : ℤ
  pub detach : Bool
  pub json : Bool
  pub verbose : Bool
  pub command : List Bytes

pub data ParseError : Type 0 where
  needs_value bad_timeout env_not_supported help unknown_option no_command : ParseError
  unexpected_option reason_not_used confirm_not_used : ParseError

abbrev pub second : ℕ
second = 1000000000

-- The words that `parse` tells apart.
pub data Word : Type 0 where
  separator command_word reason_word timeout_word detach_word json_word : Word
  verbose_word env_word help_word other_word : Word

unfoldable pub word_of : Bytes → Word
unfolding str_eq has_prefix
word_of value =
    if str_eq value (codes "--")
    then separator
    else if not (has_prefix value (codes "-")) || str_eq value (codes "-")
    then command_word
    else if str_eq value (codes "--reason")
    then reason_word
    else if str_eq value (codes "--timeout")
    then timeout_word
    else if str_eq value (codes "--detach")
    then detach_word
    else if str_eq value (codes "--json")
    then json_word
    else if str_eq value (codes "--verbose")
    then verbose_word
    else if str_eq value (codes "--env")
    then env_word
    else if str_eq value (codes "-h") || str_eq value (codes "--help")
    then help_word
    else other_word

-- `time.ParseDuration` is `duration`; between a second and 24 hours.
unfoldable pub check_timeout : Option ℤ → Option ℤ
unfolding is_outside
check_timeout none = none
check_timeout (some t) = if is_outside (pos second) (pos (86400 * second)) t then none else some t

-- The options up to the command, which is what is left.
unfoldable pub parse_options : (Bytes → Option ℤ) → Options → List Bytes → Result ParseError Options
unfolding word_of check_timeout
parse_options duration o [] = ok o
parse_options duration o (value ∷ []) = elim (word_of value) [
  | separator ↦ ok (record o { command = [] })
  | command_word ↦ ok (record o { command = value ∷ [] })
  | reason_word ↦ err needs_value
  | timeout_word ↦ err needs_value
  | detach_word ↦ ok (record o { detach = true })
  | json_word ↦ ok (record o { json = true })
  | verbose_word ↦ ok (record o { verbose = true })
  | env_word ↦ err env_not_supported
  | help_word ↦ err help
  | other_word ↦ err unknown_option
]
parse_options duration o (value ∷ text ∷ rest) = elim (word_of value) [
  | separator ↦ ok (record o { command = text ∷ rest })
  | command_word ↦ ok (record o { command = value ∷ text ∷ rest })
  | reason_word ↦ parse_options duration (record o { reason = text }) rest
  | timeout_word ↦ elim (check_timeout (duration text)) [
    | none ↦ err bad_timeout
    | some t ↦ parse_options duration (record o { timeout = t }) rest
  ]
  | detach_word ↦ parse_options duration (record o { detach = true }) (text ∷ rest)
  | json_word ↦ parse_options duration (record o { json = true }) (text ∷ rest)
  | verbose_word ↦ parse_options duration (record o { verbose = true }) (text ∷ rest)
  | env_word ↦ err env_not_supported
  | help_word ↦ err help
  | other_word ↦ err unknown_option
]

abbrev pub default_options : Options
default_options = record {
  reason = [];
  timeout = pos (300 * second);
  detach = false;
  json = false;
  verbose = false;
  command = [];
}

-- A leading `exec` is dropped.
unfoldable pub without_exec : List Bytes → List Bytes
unfolding str_eq
without_exec [] = []
without_exec (a ∷ arguments) = if str_eq a (codes "exec") then arguments else a ∷ arguments

unfoldable pub with_command : Result ParseError Options → Result ParseError Options
with_command (err e) = err e
with_command (ok o) = elim o.command [ [] ↦ err no_command | _ ∷ _ ↦ ok o ]

unfoldable pub parse : (Bytes → Option ℤ) → List Bytes → Result ParseError Options
unfolding parse_options without_exec with_command
parse duration arguments =
    with_command (parse_options duration default_options (without_exec arguments))

pub data Operation : Type 0 where
  pending history show approve deny : Operation

pub record AdminOptions : Type 0 where
  pub operation : Operation
  pub request_id : Bytes
  pub reason : Bytes
  pub json : Bool
  pub verbose : Bool
  pub confirm_hash : Bytes

-- The map `operations`.
unfoldable pub operation_of : Bytes → Option Operation
unfolding str_eq
operation_of value =
    if str_eq value (codes "--pending")
    then some pending
    else if str_eq value (codes "--requests") || str_eq value (codes "--history")
    then some history
    else if str_eq value (codes "--show")
    then some show
    else if str_eq value (codes "--approve")
    then some approve
    else if str_eq value (codes "--deny")
    then some deny
    else none

unfoldable pub takes_request : Operation → Bool
takes_request pending = false
takes_request history = false
takes_request _ = true

unfoldable pub takes_reason : Operation → Bool
takes_reason approve = true
takes_reason deny = true
takes_reason _ = false

unfoldable pub takes_hash : Operation → Bool
takes_hash approve = true
takes_hash _ = false

pub data AdminWord : Type 0 where
  admin_json admin_verbose admin_reason admin_hash admin_other : AdminWord

unfoldable pub admin_word_of : Bytes → AdminWord
unfolding str_eq
admin_word_of value =
    if str_eq value (codes "--json")
    then admin_json
    else if str_eq value (codes "--verbose")
    then admin_verbose
    else if str_eq value (codes "--reason")
    then admin_reason
    else if str_eq value (codes "--confirm-hash")
    then admin_hash
    else admin_other

unfoldable pub parse_admin_options : AdminOptions → List Bytes → Result ParseError AdminOptions
unfolding admin_word_of
parse_admin_options o [] = ok o
parse_admin_options o (value ∷ []) = elim (admin_word_of value) [
  | admin_json ↦ ok (record o { json = true })
  | admin_verbose ↦ ok (record o { verbose = true })
  | admin_reason ↦ err needs_value
  | admin_hash ↦ err needs_value
  | admin_other ↦ err unexpected_option
]
parse_admin_options o (value ∷ text ∷ rest) = elim (admin_word_of value) [
  | admin_json ↦ parse_admin_options (record o { json = true }) (text ∷ rest)
  | admin_verbose ↦ parse_admin_options (record o { verbose = true }) (text ∷ rest)
  | admin_reason ↦ parse_admin_options (record o { reason = text }) rest
  | admin_hash ↦ parse_admin_options (record o { confirm_hash = text }) rest
  | admin_other ↦ err unexpected_option
]

-- The checks after the loop.
unfoldable pub check_admin : Result ParseError AdminOptions → Result ParseError AdminOptions
unfolding is_empty takes_reason takes_hash
check_admin (err e) = err e
check_admin (ok o) =
    if not (is_empty o.reason) && not (takes_reason o.operation)
    then err reason_not_used
    else if not (is_empty o.confirm_hash) && not (takes_hash o.operation)
    then err confirm_not_used
    else ok o

abbrev pub admin_of : Operation → Bytes → AdminOptions
admin_of operation id = record {
  operation = operation;
  request_id = id;
  reason = [];
  json = false;
  verbose = false;
  confirm_hash = [];
}

unfoldable pub parse_operation : Operation → List Bytes → Result ParseError AdminOptions
unfolding check_admin parse_admin_options takes_request has_prefix
parse_operation operation [] = ok (admin_of operation [])
parse_operation operation (a ∷ arguments) = check_admin (
    if takes_request operation && not (has_prefix a (codes "-"))
    then parse_admin_options (admin_of operation a) arguments
    else parse_admin_options (admin_of operation []) (a ∷ arguments))

-- `none` says that the arguments are those of a command to run.
unfoldable pub parse_admin : List Bytes → Option (Result ParseError AdminOptions)
unfolding parse_operation operation_of
parse_admin [] = none
parse_admin (a ∷ arguments) = elim (operation_of a) [
  | none ↦ none
  | some operation ↦ some (parse_operation operation arguments)
]

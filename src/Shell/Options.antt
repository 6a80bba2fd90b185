-- ===== src/Shell/Options.antt =====
-- src/util/options.c and `main` of src/squel.c: the options in front of a query, and what becomes of it.
use squel.Common.{
  Bool, Bytes, List, Option, Run, [], bytes_eq, codes, exit, false, fault, if◌then◌else◌, length,
  ltb, none, not, null_pointer, ok, out_of_bounds, require, some, suc, true, zero, ℕ, ◌%◌, ◌++◌,
  ◌+◌, ◌-◌, ◌==◌, ◌>>=◌, ◌>>◌, ◌^◌, ◌∷◌,
}
use squel.Config.{ht_size, lf}
use squel.Parser.Syntax.{}
use squel.Parser.Text.{max_query_size}
use squel.Parser.Tree.{create_parsetree}
use squel.Parser.Statement.{parse}
use squel.Io.Files.{Files}
use squel.Io.Tdb.{Tdb}
use squel.Planner.Operator.{result_description}
use squel.Planner.Query.{plan_query, query_fuel}
use squel.Executor.Tuple.{Tuple, digits_value, is_digit, is_space}
use squel.Executor.Statements.{execute}
use squel.Shell.Print.{print_colnames, print_parse_tree, print_tuple}

-- Options: `OPT_HTSIZE` and `OPT_ENABLE_HJ`, with the variables of `main`.
pub record Options : Type 0 where
  pub htsize : ℕ
  pub enable_hashjoin : ℕ
  pub query_arg : ℕ
  pub only_parse : Bool

-- `initOptions`, and how the variables of `main` start.
abbrev pub init_options : Options
init_options = record { htsize = ht_size; enable_hashjoin = 1; query_arg = 1; only_parse = false }

abbrev has_digit : Bytes → Bool
has_digit [] = false
has_digit (c ∷ s) = is_digit c

-- A number that does not fit is the largest one.
abbrev clamped : ℕ → ℕ
clamped n = if ltb n (2 ^ 64) then n else 2 ^ 64 - 1

-- A negative number wraps around, unless it does not fit.
abbrev negated : ℕ → ℕ
negated n = if ltb n (2 ^ 64) then (2 ^ 64 - n) % 2 ^ 64 else 2 ^ 64 - 1

abbrev unsigned_digits : Bytes → Option ℕ
unsigned_digits [] = none
unsigned_digits (c ∷ s) =
    if c == b'-'
    then (if has_digit s then some (negated (digits_value 0 s)) else none)
    else if c == b'+'
    then (if has_digit s then some (clamped (digits_value 0 s)) else none)
    else if is_digit c
    then some (clamped (digits_value 0 (c ∷ s)))
    else none

-- `strtoull` of the C library with base 10: `none` where it leaves `endptr` at the start.
unfoldable pub strtoull : Bytes → Option ℕ
strtoull [] = none
strtoull (c ∷ s) = let rest = strtoull s in if is_space c then rest else unsigned_digits (c ∷ s)

pub data OptionName : Type 0 where
  help htsize_option hashjoin_option parse_option no_option : OptionName

abbrev pub option_name : Bytes → OptionName
option_name arg =
    if bytes_eq arg (codes "--help")
    then help
    else if bytes_eq arg (codes "--htsize")
    then htsize_option
    else if bytes_eq arg (codes "--hashjoin")
    then hashjoin_option
    else if bytes_eq arg (codes "--parse")
    then parse_option
    else no_option

unfoldable pub option_number : Bytes → Run ℕ
option_number arg = elim (strtoull arg) [ none ↦ exit | some n ↦ ok n ]

abbrev pub set_htsize : Options → ℕ → Options
set_htsize opts n = record opts { htsize = n; query_arg = opts.query_arg + 2 }

abbrev pub set_hashjoin : Options → ℕ → Options
set_hashjoin opts n = record opts { enable_hashjoin = n; query_arg = opts.query_arg + 2 }

abbrev pub set_parse : Options → Options
set_parse opts = record opts { only_parse = true; query_arg = opts.query_arg + 1 }

-- The loop over the arguments, where `none` stands for the help, which ends the program. The argument
-- behind `--parse` is passed over; that behind the last argument is NULL, which `strtoull` reads.
unfoldable pub option_loop : List Bytes → Options → Run (Option Options)
option_loop [] opts = ok (some opts)
option_loop (arg ∷ []) opts = elim (option_name arg) [
  | help ↦ ok none
  | htsize_option ↦ fault null_pointer
  | hashjoin_option ↦ fault null_pointer
  | parse_option ↦ ok (some (set_parse opts))
  | no_option ↦ ok (some opts)
]
option_loop (arg ∷ value ∷ args) opts = elim (option_name arg) [
  | help ↦ ok none
  | htsize_option ↦ do n ← option_number value; option_loop args (set_htsize opts n)
  | hashjoin_option ↦ do n ← option_number value; option_loop args (set_hashjoin opts n)
  | parse_option ↦ option_loop args (set_parse opts)
  | no_option ↦ option_loop (value ∷ args) opts
]

-- `argv[i]` as a string, for the arguments from the name of the program on: behind the last one is NULL.
unfoldable pub argument : List Bytes → ℕ → Run Bytes
argument [] zero = fault null_pointer
argument [] (suc i) = fault out_of_bounds
argument (arg ∷ args) zero = ok arg
argument (arg ∷ args) (suc i) = argument args i

abbrev pub help_text : Bytes
help_text = codes "Help: See README.md." ++ lf ∷ []

-- `fuel` is for the loops over tuples; `raw`, `raw_buffer` and `raw_tdb` are what memory holds before.
module _ (fuel : ℕ) (raw : ℕ → Tuple) (raw_buffer : Bytes) (raw_tdb : Tdb) where
  -- The end of `main`, for a query that is not only parsed.
  unfoldable pub run_query : Options → Files → Bytes → Run (Files × Bytes)
  run_query opts files query = do
    queryplan ← plan_query files raw_tdb (not (opts.enable_hashjoin == 0)) query false
    names ← print_colnames (result_description queryplan)
    (files', printed, tuples) ←
        execute fuel opts.htsize raw raw_buffer raw_tdb queryplan print_tuple files []
    ok (files', names ++ (printed ++ tuples))

  -- `main` behind the loop over the arguments.
  unfoldable pub answer : Options → Files → List Bytes → Run (Files × Bytes)
  answer opts files args = do
    query ← argument (codes "squel" ∷ args) opts.query_arg
    require (ltb (length query) max_query_size)
    elim opts.only_parse [
      | true ↦ do
        ast ← create_parsetree
        (parsed, s) ← parse query_fuel query false ast
        text ← print_parse_tree s.nodes
        ok (files, text)
      | false ↦ run_query opts files query
    ]

  -- `main`, with the arguments behind the name of the program: the files that it leaves, and what it
  -- prints.
  unfoldable pub main : Files → List Bytes → Run (Files × Bytes)
  main files args = do
    require (not (length args == 0))
    options ← option_loop args init_options
    elim options [ none ↦ ok (files, help_text) | some opts ↦ answer opts files args ]

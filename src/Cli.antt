-- ===== src/Cli.antt =====
-- main.cpp: the command line. The arguments are `argv[1]` and on; what is written to the terminal is
-- left out, as is `argv[0]`.
pub mod Ranges
pub mod Valid
use bw_fetcher.Types.{FetchOptions, default_options}
use bw_fetcher.Base.{
  ℕ, zero, suc, ◌+◌, ◌-◌, ◌*◌, ◌≤◌, ◌<◌, ◌≡◌, ◌≢◌, ◌↔◌, ◌⊎◌, inl, inr, refl, sym, ap, ap₂, ◌∙◌,
  Bool, true, false, not, ◌&&◌, ◌||◌, Option, none, some, List, [], ◌∷◌, ◌++◌, map, arith, ltb, leb,
  ◌==◌, if◌then◌else◌, Bool-cases, Option-cases, Bytes, codes, length, bytes_key, nat_key, pair_key,
  member, ℤ, beq, rfind, is_empty, from_chars, ltb_ℤ, negsuc, take, pos, drop,
}

-- The variables that the loop over the arguments sets.
pub record Cli : Type 0 where
  pub opt : FetchOptions
  pub out_path : Bytes
  pub out_dir : Bytes
  pub run_name : Bytes
  pub also_out_dir : Bytes
  pub report_path : Bytes

unfoldable pub initial_cli : Cli
initial_cli = record {
  opt = record default_options { url = codes "https://www.waze.com/live-map" };
  out_path = codes "captured_page.html";
  out_dir = [];
  run_name = [];
  also_out_dir = [];
  report_path = [];
}

-- Where the command line leads: `-h` and `--list-profiles` return 0 at once, a mistake returns 2.
pub data Command : Type 0 where
  show_help list_names usage_error : Command
  run_with : Cli → Command

-- The branches of the chain of comparisons.
pub data Argument : Type 0 where
  help profiles_list auto_scripts subresources : Argument
  text_option number_option proxy_option : Bytes → Argument
  unknown_option : Argument
  positional : Argument

abbrev pub text_options : List Bytes
text_options =
    codes "--url"
    ∷ codes "--also-fetch"
    ∷ codes "--report"
    ∷ codes "--out-dir"
    ∷ codes "--run-name"
    ∷ codes "--also-out-dir"
    ∷ codes "--profile"
    ∷ codes "--out"
    ∷ codes "--proxy-user"
    ∷ codes "--proxy-pass"
    ∷ []

abbrev pub number_options : List Bytes
number_options =
    codes "--max-subresources"
    ∷ codes "--max-challenge-scripts"
    ∷ codes "--max-redirects"
    ∷ codes "--timeout"
    ∷ []

-- `a[0] == '-'` of an argument that is not empty.
unfoldable pub is_dashed : Bytes → Bool
is_dashed [] = false
is_dashed (c ∷ a) = c == b'-'

unfoldable pub argument_of : Bytes → Argument
unfolding is_dashed member
argument_of a =
    if beq a (codes "-h") || beq a (codes "--help")
    then help
    else if beq a (codes "--list-profiles")
    then profiles_list
    else if beq a (codes "--auto-challenge-scripts")
    then auto_scripts
    else if beq a (codes "--fetch-subresources")
    then subresources
    else if member a text_options
    then text_option a
    else if member a number_options
    then number_option a
    else if beq a (codes "--proxy")
    then proxy_option a
    else if is_dashed a
    then unknown_option
    else positional

-- `parse_int_arg`: the whole text is a number that fits an `int`; otherwise `ok` becomes false.
unfoldable pub whole_number : Option (ℤ × Bytes) → Option ℤ
whole_number none = none
whole_number (some (v, [])) = some v
whole_number (some (v, c ∷ rest)) = none

unfoldable pub parse_int_arg : Bytes → Option ℤ
unfolding whole_number
parse_int_arg v = whole_number (from_chars v)

unfoldable pub set_text : Bytes → Bytes → Cli → Cli
set_text a v c =
    if beq a (codes "--url")
    then record c { opt = record c.opt { url = v } }
    else if beq a (codes "--also-fetch")
    then record c { opt = record c.opt { also_fetch = c.opt.also_fetch ++ (v ∷ []) } }
    else if beq a (codes "--report")
    then record c { report_path = v }
    else if beq a (codes "--out-dir")
    then record c { out_dir = v }
    else if beq a (codes "--run-name")
    then record c { run_name = v }
    else if beq a (codes "--also-out-dir")
    then record c { also_out_dir = v }
    else if beq a (codes "--profile")
    then record c { opt = record c.opt { profile = v } }
    else if beq a (codes "--out")
    then record c { out_path = v }
    else if beq a (codes "--proxy-user")
    then record c { opt = record c.opt { proxy = record c.opt.proxy { user = v } } }
    else record c { opt = record c.opt { proxy = record c.opt.proxy { pass = v } } }

-- The test of the number, `n < 1`, and for `--timeout` `n < 0`.
unfoldable pub too_small : Bytes → ℤ → Bool
too_small a n = if beq a (codes "--timeout") then ltb_ℤ n (pos 0) else ltb_ℤ n (pos 1)

unfoldable pub put_number : Bytes → ℤ → Cli → Cli
put_number a n c =
    if beq a (codes "--max-subresources")
    then record c { opt = record c.opt { max_subresources = n } }
    else if beq a (codes "--max-challenge-scripts")
    then record c { opt = record c.opt { max_challenge_scripts = n } }
    else if beq a (codes "--max-redirects")
    then record c { opt = record c.opt { max_redirects = n } }
    else record c { opt = record c.opt { timeout_ms = n } }

unfoldable pub set_number : Bytes → Option ℤ → Cli → Option Cli
unfolding too_small put_number
set_number a none c = none
set_number a (some n) c = if too_small a n then none else some (put_number a n c)

-- A port in range, with the text before the last colon.
unfoldable pub put_proxy : Bytes → Option ℤ → Cli → Option Cli
put_proxy host none c = none
put_proxy host (some (negsuc n)) c = none
put_proxy host (some (pos port)) c =
    if ltb port 1 || ltb 65535 port
    then none
    else some (record c {
      opt = record c.opt {
        proxy = record c.opt.proxy { enabled = true; host = host; port = port };
      };
    })

unfoldable pub set_proxy : Bytes → Cli → Option Cli
unfolding put_proxy
set_proxy hp c = elim (rfind b':' hp) [
  | none ↦ none
  | some colon ↦ put_proxy (take colon hp) (parse_int_arg (drop (colon + 1) hp)) c
]

-- What an option makes of its value; `none` where `args_ok` becomes false.
unfoldable pub set_value : Argument → Bytes → Cli → Option Cli
unfolding set_text set_number set_proxy parse_int_arg
set_value (text_option a) v c = some (set_text a v c)
set_value (number_option a) v c = set_number a (parse_int_arg v) c
set_value (proxy_option a) v c = set_proxy v c
set_value _ v c = some c

-- The loop. `wants` is the option whose value comes next: `take_value` steps over it.
unfoldable pub parse_args : Option Argument → Cli → List Bytes → Command
unfolding argument_of set_value
parse_args none c [] = run_with c
parse_args (some o) c [] = usage_error
parse_args (some o) c (v ∷ args) = elim (set_value o v c) [
  | none ↦ usage_error
  | some c' ↦ parse_args none c' args
]
parse_args none c (a ∷ args) = elim (argument_of a) [
  | help ↦ show_help
  | profiles_list ↦ list_names
  | unknown_option ↦ usage_error
  | positional ↦ parse_args none (record c { opt = record c.opt { url = a } }) args
  | auto_scripts ↦
      parse_args none (record c { opt = record c.opt { auto_challenge_scripts = true } }) args
  | subresources ↦
      parse_args none (record c { opt = record c.opt { fetch_subresources = true } }) args
  | text_option o ↦ parse_args (some (text_option o)) c args
  | number_option o ↦ parse_args (some (number_option o)) c args
  | proxy_option o ↦ parse_args (some (proxy_option o)) c args
]

-- The checks behind the loop.
unfoldable pub default_out_dir : Cli → Cli
default_out_dir c =
    if c.opt.fetch_subresources && is_empty c.out_dir
    then record c { out_dir = codes "captures" }
    else c

unfoldable pub cross_checks : Cli → Bool
cross_checks c =
    (c.opt.fetch_subresources && beq c.out_path (codes "-"))
    || (elim c.opt.also_fetch [ [] ↦ c.opt.auto_challenge_scripts | u ∷ us ↦ true ])
      && is_empty c.also_out_dir

-- `getenv`, where the option left the text empty.
unfoldable pub from_env : Option Bytes → Bytes → Bytes
from_env none text = text
from_env (some value) [] = value
from_env (some value) (c ∷ text) = c ∷ text

unfoldable pub finish : Option Bytes → Option Bytes → Cli → Command
unfolding cross_checks from_env
finish env_user env_pass c =
    if cross_checks c
    then usage_error
    else run_with (record c {
      opt = record c.opt {
        proxy = record c.opt.proxy {
          user = from_env env_user c.opt.proxy.user;
          pass = from_env env_pass c.opt.proxy.pass;
        };
      };
    })

abbrev pub then_finish : Option Bytes → Option Bytes → Command → Command
then_finish env_user env_pass (run_with c) = finish env_user env_pass (default_out_dir c)
then_finish env_user env_pass show_help = show_help
then_finish env_user env_pass list_names = list_names
then_finish env_user env_pass usage_error = usage_error

unfoldable pub command_of : Option Bytes → Option Bytes → List Bytes → Command
unfolding parse_args initial_cli
command_of env_user env_pass args = then_finish env_user env_pass (parse_args none initial_cli args)

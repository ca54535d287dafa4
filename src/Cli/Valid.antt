-- ===== src/Cli/Valid.antt =====
-- What holds of the options whatever the command line.
use bw_fetcher.Cli.Ranges.{InRange, initial_cli-InRange, Kept, set_value-Kept}
use bw_fetcher.Cli.{
  Cli, initial_cli, set_value, Argument, text_option, number_option, proxy_option, show_help,
  list_names, usage_error, run_with, help, profiles_list, auto_scripts, subresources,
  unknown_option, positional, Command, default_out_dir, finish, command_of, run_with, cross_checks,
  then_finish, usage_error, parse_args, from_env, argument_of,
}
use bw_fetcher.Base.{
  ◌≢◌, ◌⊎◌, inl, inr, Bool, ◌||◌, Bool-cases, ◌≡◌, refl, true, false, ◌&&◌, Option, none, some,
  List, [], ◌∷◌, arith, if◌then◌else◌, Bytes, codes, bytes_key, nat_key, pair_key, if_both, subst,
  is_empty, beq, beq_iff,
}

-- Where a command line leads to a run, its numbers are in range.
abbrev Ranged : Command → Type 0
Ranged (run_with c) = InRange c
Ranged show_help = Unit
Ranged list_names = Unit
Ranged usage_error = Unit

mutual
  unfolding parse_args

  parse_args-Ranged : (c : Cli) (args : List Bytes) → InRange c → Ranged (parse_args none c args)
  parse_args-Ranged c [] r = r
  parse_args-Ranged c (a ∷ args) r =
      elim (argument_of a)
        as (λ o. Ranged (elim o [
          | help ↦ show_help
          | profiles_list ↦ list_names
          | unknown_option ↦ usage_error
          | positional ↦ parse_args none (record c { opt = record c.opt { url = a } }) args
          | auto_scripts ↦
              parse_args none (record c { opt = record c.opt { auto_challenge_scripts = true } })
                args
          | subresources ↦
              parse_args none (record c { opt = record c.opt { fetch_subresources = true } }) args
          | text_option o ↦ parse_args (some (text_option o)) c args
          | number_option o ↦ parse_args (some (number_option o)) c args
          | proxy_option o ↦ parse_args (some (proxy_option o)) c args
        ])) [
          | help ↦ tt
          | profiles_list ↦ tt
          | unknown_option ↦ tt
          | positional ↦ parse_args-Ranged _ args (record { limits = r.limits })
          | auto_scripts ↦ parse_args-Ranged _ args (record { limits = r.limits })
          | subresources ↦ parse_args-Ranged _ args (record { limits = r.limits })
          | text_option o ↦ value-Ranged (text_option o) c args r
          | number_option o ↦ value-Ranged (number_option o) c args r
          | proxy_option o ↦ value-Ranged (proxy_option o) c args r
        ]

  value-Ranged :
      (o : Argument) (c : Cli) (args : List Bytes) → InRange c → Ranged (parse_args (some o) c args)
  value-Ranged o c [] r = tt
  value-Ranged o c (v ∷ args) r =
      (elim (set_value o v c)
          as (λ w.
            Kept w → Ranged (elim w [ none ↦ usage_error | some d ↦ parse_args none d args ])) [
              | none ↦ λ k. tt
              | some d ↦ λ k. parse_args-Ranged d args k
            ])
        (set_value-Kept o v c r)

-- The options of a run: numbers in range; where resources are fetched, a folder for them and a page that does not go
-- to the terminal; and a folder for the addresses that are fetched beside the page, where there can be some.
pub record IsRunnable (c : Cli) : Type 0 where
  pub in_range : InRange c
  pub resources_kept :
      (c.opt.fetch_subresources ≡ false) ⊎ ((c.out_dir ≢ []) × (c.out_path ≢ codes "-"))
  pub extras_kept :
      ((c.opt.also_fetch ≡ []) × (c.opt.auto_challenge_scripts ≡ false)) ⊎ (c.also_out_dir ≢ [])

no_or : (a b : Bool) → (a || b) ≡ false → (a ≡ false) × (b ≡ false)
no_or false false h = (refl, refl)
no_or false true h = cc
no_or true b h = cc

is_empty-false : (s : Bytes) → is_empty s ≡ false → s ≢ []
is_empty-false [] h e = cc
is_empty-false (c ∷ s) h e = cc

resources_kept-of :
    (c : Cli)
    → (c.opt.fetch_subresources && is_empty c.out_dir) ≡ false
    → cross_checks c ≡ false
    → (c.opt.fetch_subresources ≡ false) ⊎ ((c.out_dir ≢ []) × (c.out_path ≢ codes "-"))
unfolding cross_checks
resources_kept-of c h e = elim (Bool-cases c.opt.fetch_subresources) [
  | inr off ↦ inl off
  | inl on ↦
      let no_terminal : beq c.out_path (codes "-") ≡ false = ground (
        arith,
        (no_or (c.opt.fetch_subresources && beq c.out_path (codes "-"))
            ((elim c.opt.also_fetch as (λ l. Bool) [
              | [] ↦ c.opt.auto_challenge_scripts
              | u ∷ us ↦ true
            ])
              && is_empty c.also_out_dir)
            e).0,
        on,
      ) in
      inr (
        is_empty-false c.out_dir (ground (arith, h, on)),
        λ same. let t = (beq_iff c.out_path (codes "-")).1 same in cc,
      )
]

wants_extras :
    (urls : List Bytes) (auto no_dir : Bool)
    → ((elim urls as (λ l. Bool) [ [] ↦ auto | u ∷ us ↦ true ]) && no_dir) ≡ false
    → ((urls ≡ []) × (auto ≡ false)) ⊎ (no_dir ≡ false)
wants_extras [] false no_dir h = inl (refl, refl)
wants_extras [] true no_dir h = inr h
wants_extras (u ∷ us) auto no_dir h = inr h

extras_kept-of :
    (c : Cli)
    → cross_checks c ≡ false
    → ((c.opt.also_fetch ≡ []) × (c.opt.auto_challenge_scripts ≡ false)) ⊎ (c.also_out_dir ≢ [])
unfolding cross_checks
extras_kept-of c e =
    elim (wants_extras c.opt.also_fetch c.opt.auto_challenge_scripts (is_empty c.also_out_dir)
      (no_or (c.opt.fetch_subresources && beq c.out_path (codes "-"))
        ((elim c.opt.also_fetch as (λ l. Bool) [
          | [] ↦ c.opt.auto_challenge_scripts
          | u ∷ us ↦ true
        ])
          && is_empty c.also_out_dir)
        e).1) [ inl nothing ↦ inl nothing | inr dir ↦ inr (is_empty-false c.also_out_dir dir) ]

abbrev pub Valid : Command → Type 0
Valid (run_with c) = IsRunnable c
Valid show_help = Unit
Valid list_names = Unit
Valid usage_error = Unit

default_out_dir-has_out_dir :
    (c : Cli)
    → ((default_out_dir c).opt.fetch_subresources && is_empty (default_out_dir c).out_dir) ≡ false
unfolding default_out_dir
default_out_dir-has_out_dir c = ground arith

finish-Valid :
    (env_user env_pass : Option Bytes) (c : Cli)
    → InRange c
    → (c.opt.fetch_subresources && is_empty c.out_dir) ≡ false
    → Valid (finish env_user env_pass c)
unfolding finish
finish-Valid env_user env_pass c r h =
    (elim (cross_checks c)
        as (λ b.
          cross_checks c ≡ b
          → Valid (
              if b
              then usage_error
              else run_with (record c {
                opt = record c.opt {
                  proxy = record c.opt.proxy {
                    user = from_env env_user c.opt.proxy.user;
                    pass = from_env env_pass c.opt.proxy.pass;
                  };
                };
              }))) [
                | true ↦ λ e. tt
                | false ↦ λ e. record {
                  in_range = record { limits = r.limits };
                  resources_kept = resources_kept-of c h e;
                  extras_kept = extras_kept-of c e;
                }
              ])
      refl

default_out_dir-InRange : (c : Cli) → InRange c → InRange (default_out_dir c)
unfolding default_out_dir
default_out_dir-InRange c r =
    if_both InRange (c.opt.fetch_subresources && is_empty c.out_dir)
      (record c { out_dir = codes "captures" }) c (record { limits = r.limits }) r

then_finish-Valid :
    (env_user env_pass : Option Bytes) (w : Command)
    → Ranged w
    → Valid (then_finish env_user env_pass w)
then_finish-Valid env_user env_pass (run_with c) r =
    finish-Valid env_user env_pass (default_out_dir c) (default_out_dir-InRange c r)
      (default_out_dir-has_out_dir c)
then_finish-Valid env_user env_pass show_help r = tt
then_finish-Valid env_user env_pass list_names r = tt
then_finish-Valid env_user env_pass usage_error r = tt

-- Whatever the command line and the environment, options that lead to a run are valid: at least one redirect,
-- challenge script and subresource, no negative timeout, a proxy port between 1 and 65535 where there is a
-- proxy, an output folder where resources are fetched, and one where addresses are fetched beside the page.
pub command_of-IsRunnable :
    (env_user env_pass : Option Bytes) (args : List Bytes) (c : Cli)
    → command_of env_user env_pass args ≡ run_with c
    → IsRunnable c
unfolding command_of
command_of-IsRunnable env_user env_pass args c h = subst Valid h (
    then_finish-Valid env_user env_pass (parse_args none initial_cli args)
      (parse_args-Ranged initial_cli args initial_cli-InRange))

-- ===== src/Cli/Ranges.antt =====
-- main.cpp: an option keeps the numbers in range.
use bw_fetcher.Cli.{
  Cli, initial_cli, set_text, put_number, set_number, put_proxy, set_value, too_small, set_proxy,
  Argument, text_option, number_option, parse_int_arg, proxy_option, help, profiles_list,
  auto_scripts, subresources, unknown_option, positional,
}
use bw_fetcher.Base.{
  ℕ, ◌+◌, ◌≡◌, inl, inr, refl, sym, Bool, true, false, ◌&&◌, ◌||◌, Option, none, some, arith, ltb,
  if◌then◌else◌, Bool-cases, Bytes, codes, bytes_key, nat_key, pair_key, ℤ, ltb_ℤ, beq, negsuc, pos,
  beq_iff, subst, rfind, take, drop,
}

-- The range of each number, and a port where there is a proxy.
pub record Limits (subresources scripts redirects timeout_ms : ℤ) (proxy : Bool) (port : ℕ)
    : Type 0 where
  pub some_subresources : ltb_ℤ subresources (pos 1) ≡ false
  pub some_scripts : ltb_ℤ scripts (pos 1) ≡ false
  pub some_redirects : ltb_ℤ redirects (pos 1) ≡ false
  pub no_past_timeout : ltb_ℤ timeout_ms (pos 0) ≡ false
  pub port_in_range : (proxy && (ltb port 1 || ltb 65535 port)) ≡ false

pub record InRange (c : Cli) : Type 0 where
  pub limits :
      Limits c.opt.max_subresources c.opt.max_challenge_scripts c.opt.max_redirects c.opt.timeout_ms
        c.opt.proxy.enabled c.opt.proxy.port

pub initial_cli-InRange : InRange initial_cli
unfolding initial_cli
initial_cli-InRange = record {
  limits = record {
    some_subresources = refl;
    some_scripts = refl;
    some_redirects = refl;
    no_past_timeout = refl;
    port_in_range = refl;
  };
}

set_text-InRange : (a v : Bytes) (c : Cli) → InRange c → InRange (set_text a v c)
unfolding set_text
set_text-InRange a v c r =
    let l = r.limits in
    let s = l.some_subresources in
    let k = l.some_scripts in
    let d = l.some_redirects in
    let t = l.no_past_timeout in
    let p = l.port_in_range in
    record {
      limits = record {
        some_subresources = ground (arith, s);
        some_scripts = ground (arith, k);
        some_redirects = ground (arith, d);
        no_past_timeout = ground (arith, t);
        port_in_range = ground (arith, p);
      };
    }

timeout-InRange :
    (n : ℤ) (c : Cli)
    → ltb_ℤ n (pos 0) ≡ false
    → InRange c
    → InRange (put_number (codes "--timeout") n c)
unfolding put_number beq
timeout-InRange n c h r =
    let l = r.limits in
    record {
      limits = record {
        some_subresources = l.some_subresources;
        some_scripts = l.some_scripts;
        some_redirects = l.some_redirects;
        no_past_timeout = h;
        port_in_range = l.port_in_range;
      };
    }

ltb_ℤ-one : (n : ℤ) → ltb_ℤ n (pos 1) ≡ false → ltb_ℤ n (pos 0) ≡ false
ltb_ℤ-one (pos n) h = ground arith
ltb_ℤ-one (negsuc n) h = ground arith

put_number-InRange :
    (a : Bytes) (n : ℤ) (c : Cli) → ltb_ℤ n (pos 1) ≡ false → InRange c → InRange (put_number a n c)
unfolding put_number
put_number-InRange a n c h r =
    let l = r.limits in
    let s = l.some_subresources in
    let k = l.some_scripts in
    let d = l.some_redirects in
    let t = l.no_past_timeout in
    let p = l.port_in_range in
    let z = ltb_ℤ-one n h in
    record {
      limits = record {
        some_subresources = ground (arith, s, h);
        some_scripts = ground (arith, k, h);
        some_redirects = ground (arith, d, h);
        no_past_timeout = ground (arith, t, z);
        port_in_range = ground (arith, p);
      };
    }

-- What an option makes of its value, where it makes something.
abbrev pub Kept : Option Cli → Type 0
Kept none = Unit
Kept (some c) = InRange c

checked-Kept : (b : Bool) (c : Cli) → (b ≡ false → InRange c) → Kept (if b then none else some c)
checked-Kept true c h = tt
checked-Kept false c h = h refl

set_number-Kept : (a : Bytes) (n : Option ℤ) (c : Cli) → InRange c → Kept (set_number a n c)
unfolding set_number
set_number-Kept a none c r = tt
set_number-Kept a (some n) c r =
    checked-Kept (too_small a n) (put_number a n c) (elim (Bool-cases (beq a (codes "--timeout"))) [
      | inl e ↦ λ h.
          let a_is : a ≡ codes "--timeout" = (beq_iff a (codes "--timeout")).0 e in
          subst (λ o. InRange (put_number o n c)) (sym a_is)
            (timeout-InRange n c (unfold too_small in ground (arith, h, e)) r)
      | inr e ↦ λ h. put_number-InRange a n c (unfold too_small in ground (arith, h, e)) r
    ])

put_proxy-Kept :
    (host : Bytes) (port : Option ℤ) (c : Cli) → InRange c → Kept (put_proxy host port c)
unfolding put_proxy
put_proxy-Kept host none c r = tt
put_proxy-Kept host (some (negsuc n)) c r = tt
put_proxy-Kept host (some (pos port)) c r =
    let l = r.limits in
    checked-Kept (ltb port 1 || ltb 65535 port) _ (λ h. record {
      limits = record {
        some_subresources = l.some_subresources;
        some_scripts = l.some_scripts;
        some_redirects = l.some_redirects;
        no_past_timeout = l.no_past_timeout;
        port_in_range = h;
      };
    })

pub set_value-Kept : (o : Argument) (v : Bytes) (c : Cli) → InRange c → Kept (set_value o v c)
unfolding set_value set_proxy
set_value-Kept (text_option a) v c r = set_text-InRange a v c r
set_value-Kept (number_option a) v c r = set_number-Kept a (parse_int_arg v) c r
set_value-Kept (proxy_option a) v c r =
    elim (rfind b':' v)
      as (λ colon. Kept (elim colon [
        | none ↦ none
        | some k ↦ put_proxy (take k v) (parse_int_arg (drop (k + 1) v)) c
      ])) [ none ↦ tt | some k ↦ put_proxy-Kept (take k v) (parse_int_arg (drop (k + 1) v)) c r ]
set_value-Kept help v c r = r
set_value-Kept profiles_list v c r = r
set_value-Kept auto_scripts v c r = r
set_value-Kept subresources v c r = r
set_value-Kept unknown_option v c r = r
set_value-Kept positional v c r = r

-- ===== src/Tests/Options.antt =====
-- Command lines, and the profiles.
use bw_fetcher.Cli.Valid.{IsRunnable, command_of-IsRunnable}
use bw_fetcher.Types.{default_options}
use bw_fetcher.Cli.{Cli, command_of, set_value, finish, default_out_dir}
use bw_fetcher.Base.{
  refl, true, none, some, List, [], ◌∷◌, Bytes, codes, bytes_key, nat_key, pair_key, pos, beq,
  rfind, from_chars, before, is_digit, from,
}

abbrev some_args : List Bytes
some_args =
    codes "--proxy"
    ∷ codes "p:1080"
    ∷ codes "--max-redirects"
    ∷ codes "3"
    ∷ codes "--fetch-subresources"
    ∷ codes "https://h/"
    ∷ []

abbrev parsed_cli : Cli
parsed_cli = record {
  opt = record default_options {
    url = codes "https://h/";
    fetch_subresources = true;
    max_redirects = pos 3;
    proxy = record { enabled = true; host = codes "p"; port = 1080; user = codes "u"; pass = [] };
  };
  out_path = codes "captured_page.html";
  out_dir = codes "captures";
  run_name = [];
  also_out_dir = [];
  report_path = [];
}

command_of-IsRunnable_example : IsRunnable parsed_cli
unfolding command_of set_value beq rfind from_chars before is_digit from finish default_out_dir
command_of-IsRunnable_example =
    command_of-IsRunnable (some (codes "u")) none some_args parsed_cli refl

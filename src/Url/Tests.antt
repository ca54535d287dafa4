-- ===== src/Url/Tests.antt =====
-- Runs of `parse_url` on concrete texts, and instances of the theorems.
use bw_fetcher.Base.{◌≡◌, refl, codes, ok, find, rfind, before, from, beq, is_alpha, is_alnum}
use bw_fetcher.Url.{
  split_scheme, skip_colon, split_authority, parse_url, is_scheme_char, assemble, parse_authority,
  split_userinfo, parse_host_port, bracket_host, bracket_port, plain_host, only_colon, split_query,
  take_fragment, assign_port, path_or_root,
}

parse_url_runs :
    parse_url (codes "https://u@[::1]:80/a/b?x=1#f")
    ≡ ok (record {
      scheme = codes "https";
      userinfo = codes "u";
      host = codes "::1";
      port = codes "80";
      path = codes "/a/b";
      query = codes "x=1";
      fragment = codes "f";
    })
unfolding parse_url split_scheme skip_colon split_authority is_scheme_char assemble parse_authority
    split_userinfo parse_host_port bracket_host bracket_port plain_host only_colon split_query
    take_fragment assign_port path_or_root find rfind before from beq is_alpha is_alnum
parse_url_runs = refl

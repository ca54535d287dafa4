-- ===== src/Tests/Scanning.antt =====
-- The scripts and the catalogue of a page, with an engine that finds one script in every text.
use bw_fetcher.Base.{
  ◌≡◌, refl, true, [], ◌∷◌, ◌++◌, arith, if◌then◌else◌, Bytes, codes, length, bytes_key, nat_key,
  pair_key, ok, free,
}
use bw_fetcher.Url.{
  ParsedUrl, parse_url, split_scheme, skip_colon, split_authority, is_scheme_char, assemble,
  parse_authority, split_userinfo, parse_host_port, bracket_host, bracket_port, plain_host,
  only_colon, split_query, take_fragment, assign_port, path_or_root,
}
use bw_fetcher.Scripts.Relative.{resolve_url-own_host}
use bw_fetcher.Scripts.Scanner.{new_scanner}
use bw_fetcher.Scripts.Once.{scan_all, scan_all-Distinct}
use bw_fetcher.Catalog.{catalog_present_resources}
use bw_fetcher.Catalog.Result.{IsListing, catalog_present_resources-IsListing}
use bw_fetcher.Scripts.Candidates.{Extends, urls, resolve_new_candidates-Extends, WithinCap}
use bw_fetcher.Scripts.{Engine, resolve_new_candidates, resolve_url}
use bw_fetcher.Base.{
  ◌≡◌, ◌++◌, Bytes, refl, [], ◌∷◌, arith, codes, length, bytes_key, nat_key, pair_key, Distinct,
  pos, starts_with, find, rfind, before, from, beq, is_alpha, is_alnum, ok,
}

abbrev finds_one : Engine
finds_one re html = (html ∷ codes "/a.js" ∷ []) ∷ []

scan_all-Distinct_example :
    Distinct (
      urls (
        scan_all finds_one
          (new_scanner (codes "https://h/") (pos 3))
          (codes "<html>" ∷ codes "</html>" ∷ [])))
    × WithinCap (pos 3) (
        length (
          scan_all finds_one
            (new_scanner (codes "https://h/") (pos 3))
            (codes "<html>" ∷ codes "</html>" ∷ [])))
scan_all-Distinct_example =
    scan_all-Distinct finds_one (codes "https://h/") (pos 3) (codes "<html>" ∷ codes "</html>" ∷ [])

resolve_new_candidates-Extends_example :
    Extends
      (pos 1)
      (record { seen = []; found = 0 })
      (resolve_new_candidates
        (codes "https://h/")
        (pos 1)
        ((codes "/a.js", codes "script") ∷ [])
        (record { seen = []; found = 0 })).1
      (resolve_new_candidates
        (codes "https://h/")
        (pos 1)
        ((codes "/a.js", codes "script") ∷ [])
        (record { seen = []; found = 0 })).0
resolve_new_candidates-Extends_example =
    resolve_new_candidates-Extends (codes "https://h/") (pos 1)
      ((codes "/a.js", codes "script") ∷ []) (record { seen = []; found = 0 }) tt (omega arith) refl

catalog_present_resources-IsListing_example : IsListing 4 (codes "https://h/b.js" ∷ []) (
    catalog_present_resources finds_one
      (codes "https://h/")
      (codes "https://h/b.js" ∷ [])
      (codes "<html>")
      4)
catalog_present_resources-IsListing_example =
    catalog_present_resources-IsListing finds_one (codes "<html>") (codes "https://h/") 4
      (codes "https://h/b.js" ∷ [])

abbrev page : ParsedUrl
page = record {
  scheme = codes "https";
  userinfo = [];
  host = codes "h";
  port = codes "443";
  path = codes "/";
  query = [];
  fragment = [];
}

parse_url-page : parse_url (codes "https://h/") ≡ ok page
unfolding parse_url split_scheme skip_colon split_authority is_scheme_char assemble parse_authority
    split_userinfo parse_host_port bracket_host bracket_port plain_host only_colon split_query
    take_fragment assign_port path_or_root find rfind before from beq is_alpha is_alnum
parse_url-page = refl

resolve_url-own_host_example :
    (dir : Bytes) × (file : Bytes) × (page.path ≡ dir ++ (b'/' ∷ file))
    × (free b'/' file ≡ true)
    × (resolve_url (codes "//cdn/x.js") (codes "https://h/")
        ≡ codes "https://"
          ++ (codes "h"
              ++ (if starts_with (codes "/") (codes "//cdn/x.js")
                  then codes "//cdn/x.js"
                  else dir ++ (b'/' ∷ codes "//cdn/x.js"))))
resolve_url-own_host_example =
    resolve_url-own_host (codes "//cdn/x.js") (codes "https://h/") page parse_url-page [] refl
      (unfold starts_with in refl)

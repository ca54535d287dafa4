-- ===== src/Tests/Urls.antt =====
-- URLs, headers, cookies and JSON.
use bw_fetcher.Types.{Headers}
use bw_fetcher.Headers.Requests.{or_else, lookup-merge_request_headers}
use bw_fetcher.Json.Extract.{extract_string-json_escape}
use bw_fetcher.Json.RoundTrip.{decode-json_escape}
use bw_fetcher.Url.Total.{parse_url_total}
use bw_fetcher.Url.RoundTrip.{parse_url-print}
use bw_fetcher.Headers.{merge_request_headers}
use bw_fetcher.Cookies.{absorb_set_cookie, build_cookie_header}
use bw_fetcher.Cookies.Header.{read_cookie_header, read-build_cookie_header}
use bw_fetcher.Base.{
  ◌≡◌, refl, some, [], ◌∷◌, ◌++◌, Bytes, codes, bytes_key, nat_key, pair_key, ok, IsSorted, blt,
}
use bw_fetcher.Url.Print.{print, IsPrintable}
use bw_fetcher.Json.{extract_string, json_escape, escape_byte}
use bw_fetcher.Json.Decode.{decode, plain}
use bw_fetcher.Cookies.Jar.{IsJar, absorb_set_cookie-IsJar}
use bw_fetcher.Url.Fields.{HasFields, parse_url-HasFields}
use bw_fetcher.Url.{ParsedUrl, parse_url_with, is_scheme_char}
use bw_fetcher.Base.{
  ◌≡◌, refl, some, [], ◌∷◌, ◌++◌, Bytes, codes, bytes_key, nat_key, pair_key, every, Dict, lookup,
  is_alpha, ok, is_alnum, before, from, after_first, find, starts_with,
}

abbrev page_url : ParsedUrl
page_url = record {
  scheme = codes "https";
  userinfo = codes "u";
  host = codes "::1";
  port = codes "80";
  path = codes "/a/b";
  query = codes "x=1";
  fragment = codes "f";
}

page_url-IsPrintable : IsPrintable page_url
unfolding every is_alpha is_scheme_char is_alnum
page_url-IsPrintable = record {
  scheme = (refl, refl);
  userinfo = (refl, refl);
  host = (refl, refl);
  host_open = refl;
  host_close = refl;
  port = (refl, refl);
  port_colon = refl;
  port_ne_nil = λ e. cc;
  path_tail = codes "a/b";
  path = refl;
  path_stops = refl;
  query = refl;
}

parse_url-print_example : parse_url_with (print page_url) [] ≡ ok page_url
parse_url-print_example = parse_url-print page_url page_url-IsPrintable []

page_url_parses : parse_url_with (print page_url) [] ≡ ok page_url
page_url_parses = parse_url-print page_url page_url-IsPrintable []

parse_url-HasFields_example : HasFields [] page_url
parse_url-HasFields_example = parse_url-HasFields (print page_url) [] page_url_parses

parse_url_total_example :
    (u : ParsedUrl) × (parse_url_with (codes "http" ++ (b':' ∷ codes "//h:x/p")) (codes "80")
      ≡ ok u)
    × (u.scheme ≡ codes "http")
parse_url_total_example =
    parse_url_total (codes "http") (codes "//h:x/p") (codes "80")
      (unfold is_alpha every is_scheme_char is_alnum in (refl, refl)) (unfold every in refl)

abbrev jar : Dict Bytes Bytes
jar = (codes "a", codes "1") ∷ (codes "b", codes "x=y") ∷ []

read-build_cookie_header_example : read_cookie_header (build_cookie_header jar) ≡ some jar
unfolding every
read-build_cookie_header_example =
    read-build_cookie_header jar (((λ e. cc), refl, refl), (((λ e. cc), refl, refl), tt))
      (refl, (refl, tt))

absorb_set_cookie-IsJar_example :
    IsJar (absorb_set_cookie [] ((codes "Set-Cookie", codes "id=7; Path=/") ∷ []))
absorb_set_cookie-IsJar_example =
    absorb_set_cookie-IsJar [] ((codes "Set-Cookie", codes "id=7; Path=/") ∷ []) (tt, tt)

decode-json_escape_example : decode plain (json_escape (codes "a\"b\n")) ≡ some (codes "a\"b\n")
decode-json_escape_example = decode-json_escape (codes "a\"b\n")

extract_string-json_escape_example :
    extract_string (codes "{\"url\": \"a\\\"b\"}") (codes "url")
    ≡ json_escape (codes "a") ++ codes "\\"
unfolding before from
extract_string-json_escape_example =
    extract_string-json_escape (codes "{\"url\": \"a\\\"b\"}") (codes "url") (codes "a\"b")
      (codes "}") (unfold after_first json_escape find escape_byte starts_with in refl)

abbrev profile_headers : Headers
profile_headers = (codes "a", codes "1") ∷ (codes "b", codes "0") ∷ []

abbrev own_headers : Headers
own_headers = (codes "b", codes "2") ∷ []

lookup-merge_request_headers_example :
    IsSorted (merge_request_headers profile_headers own_headers)
    × ((j : Bytes)
        → lookup j (merge_request_headers profile_headers own_headers)
          ≡ or_else (lookup j own_headers) (lookup j profile_headers))
unfolding blt
lookup-merge_request_headers_example =
    lookup-merge_request_headers profile_headers own_headers ((refl, tt), (tt, tt)) (tt, tt)

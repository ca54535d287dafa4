-- ===== src/Profiles.antt =====
-- BORING_SSL/Profile_Loader: the browser profiles, their registry, and the wire formats they need.
-- A `std::map` literal is written in the order of its keys.
pub mod Wire
pub mod Registry
use bw_fetcher.Headers.{lower}
use bw_fetcher.Types.{Headers}
use bw_fetcher.Base.{
  ℕ, zero, suc, ◌+◌, ◌-◌, ◌*◌, ◌≤◌, ◌<◌, ◌≡◌, ◌≢◌, ◌↔◌, ◌⊎◌, inl, inr, refl, sym, ap, ap₂, ◌∙◌,
  Bool, true, false, not, ◌&&◌, ◌||◌, Option, none, some, List, [], ◌∷◌, ◌++◌, map, arith, ltb, leb,
  ◌==◌, if◌then◌else◌, Bool-cases, Option-cases, Bytes, codes, length, bytes_key, nat_key, pair_key,
  ◌%◌, ◌/◌, Dict, Result, ◌^◌, insert, is_empty, lookup, ok, err,
}

-- `namespace h2id`
abbrev pub header_table_size : ℕ
header_table_size = 0x1

abbrev pub enable_push : ℕ
enable_push = 0x2

abbrev pub max_concurrent_streams : ℕ
max_concurrent_streams = 0x3

abbrev pub initial_window_size : ℕ
initial_window_size = 0x4

abbrev pub max_frame_size : ℕ
max_frame_size = 0x5

abbrev pub max_header_list_size : ℕ
max_header_list_size = 0x6

pub record H2Setting : Type 0 where
  pub id : ℕ
  pub value : ℕ

abbrev pub setting : ℕ → ℕ → H2Setting
setting id value = record { id = id; value = value }

pub record H2Profile : Type 0 where
  pub frame_settings : List H2Setting
  pub alps_settings : List H2Setting
  pub connection_window_increment : ℕ
  pub send_priority : Bool
  pub priority_dep : ℕ
  pub priority_weight : ℕ
  pub priority_exclusive : Bool

pub record TlsConfig : Type 0 where
  pub name : Bytes
  pub cipher_list : Bytes
  pub sigalgs_list : Bytes
  pub curve_list : Bytes
  pub grease_switch : Bool
  pub application_settings : Bool
  pub alpn_protocols : List Bytes
  pub h2 : H2Profile
  pub headers : Headers

-- A length is cut to its low byte, as the cast does.
unfoldable pub build_alpn_wire : List Bytes → Bytes
build_alpn_wire [] = []
build_alpn_wire (p ∷ protocols) = length p % 2 ^ 8 ∷ (p ++ build_alpn_wire protocols)

-- Six bytes for an entry, the high byte first.
unfoldable pub setting_bytes : H2Setting → Bytes
setting_bytes s =
    s.id / 2 ^ 8 % 2 ^ 8
    ∷ s.id % 2 ^ 8
    ∷ s.value / 2 ^ 24 % 2 ^ 8
    ∷ s.value / 2 ^ 16 % 2 ^ 8
    ∷ s.value / 2 ^ 8 % 2 ^ 8
    ∷ s.value % 2 ^ 8
    ∷ []

unfoldable pub build_h2_settings_blob : List H2Setting → Bytes
unfolding setting_bytes
build_h2_settings_blob [] = []
build_h2_settings_blob (s ∷ settings) = setting_bytes s ++ build_h2_settings_blob settings

unfoldable pub chrome_143_headers : Headers
chrome_143_headers =
    (
      codes "accept",
      codes
          "text/html,application/xhtml+xml,application/xml;q=0.9,image/avif,image/webp,image/apng,*/*;q=0.8,application/signed-exchange;v=b3;q=0.7",
    )
    ∷ (codes "accept-encoding", codes "gzip, deflate, br, zstd")
    ∷ (codes "accept-language", codes "en-US,en;q=0.9")
    ∷ (codes "priority", codes "u=0, i")
    ∷ (
      codes "sec-ch-ua",
      codes "\"Google Chrome\";v=\"143\", \"Chromium\";v=\"143\", \"Not A(Brand\";v=\"24\"",
    )
    ∷ (codes "sec-ch-ua-mobile", codes "?0")
    ∷ (codes "sec-ch-ua-platform", codes "\"Windows\"")
    ∷ (codes "sec-fetch-dest", codes "document")
    ∷ (codes "sec-fetch-mode", codes "navigate")
    ∷ (codes "sec-fetch-site", codes "none")
    ∷ (codes "sec-fetch-user", codes "?1")
    ∷ (codes "upgrade-insecure-requests", codes "1")
    ∷ (
      codes "user-agent",
      codes
          "Mozilla/5.0 (Windows NT 10.0; Win64; x64) AppleWebKit/537.36 (KHTML, like Gecko) Chrome/143.0.0.0 Safari/537.36",
    )
    ∷ []

unfoldable pub chrome_143_h2 : H2Profile
chrome_143_h2 = record {
  frame_settings =
      setting header_table_size 65536
      ∷ setting enable_push 0
      ∷ setting initial_window_size 6291456
      ∷ setting max_header_list_size 262144
      ∷ [];
  alps_settings =
      setting header_table_size 65536
      ∷ setting enable_push 0
      ∷ setting max_concurrent_streams 1000
      ∷ setting initial_window_size 6291456
      ∷ setting max_frame_size 16384
      ∷ setting max_header_list_size 262144
      ∷ [];
  connection_window_increment = 15663105;
  send_priority = true;
  priority_dep = 0;
  priority_weight = 256;
  priority_exclusive = true;
}

unfoldable pub chrome_143_profile : TlsConfig
unfolding chrome_143_headers chrome_143_h2
chrome_143_profile = record {
  name = codes "Chrome143";
  cipher_list =
      codes
        "ECDHE-ECDSA-AES128-GCM-SHA256:ECDHE-RSA-AES128-GCM-SHA256:ECDHE-ECDSA-AES256-GCM-SHA384:ECDHE-RSA-AES256-GCM-SHA384:ECDHE-ECDSA-CHACHA20-POLY1305:ECDHE-RSA-CHACHA20-POLY1305:ECDHE-RSA-AES128-SHA:ECDHE-RSA-AES256-SHA:AES128-GCM-SHA256:AES256-GCM-SHA384:AES128-SHA:AES256-SHA";
  sigalgs_list =
      codes
        "ecdsa_secp256r1_sha256:rsa_pss_rsae_sha256:rsa_pkcs1_sha256:ecdsa_secp384r1_sha384:rsa_pss_rsae_sha384:rsa_pkcs1_sha384:rsa_pss_rsae_sha512:rsa_pkcs1_sha512";
  curve_list = codes "X25519MLKEM768:X25519:P-256:P-384";
  grease_switch = true;
  application_settings = true;
  alpn_protocols = codes "h2" ∷ codes "http/1.1" ∷ [];
  h2 = chrome_143_h2;
  headers = chrome_143_headers;
}

-- `cfg.headers["…"] = …`, twice.
unfoldable pub chrome_140_headers : Headers
unfolding chrome_143_headers
chrome_140_headers =
    insert (codes "user-agent")
      (codes
        "Mozilla/5.0 (Windows NT 10.0; Win64; x64) AppleWebKit/537.36 (KHTML, like Gecko) Chrome/140.0.0.0 Safari/537.36")
      (insert (codes "sec-ch-ua")
        (codes "\"Chromium\";v=\"140\", \"Google Chrome\";v=\"140\", \"Not?A_Brand\";v=\"24\"")
        chrome_143_headers)

unfoldable pub chrome_140_profile : TlsConfig
unfolding chrome_143_profile chrome_140_headers
chrome_140_profile = record chrome_143_profile {
  name = codes "Chrome140";
  headers = chrome_140_headers;
}

unfoldable pub firefox_131_headers : Headers
firefox_131_headers =
    (
      codes "accept",
      codes "text/html,application/xhtml+xml,application/xml;q=0.9,image/avif,image/webp,*/*;q=0.8",
    )
    ∷ (codes "accept-encoding", codes "gzip, deflate, br, zstd")
    ∷ (codes "accept-language", codes "en-US,en;q=0.5")
    ∷ (codes "priority", codes "u=0, i")
    ∷ (codes "sec-fetch-dest", codes "document")
    ∷ (codes "sec-fetch-mode", codes "navigate")
    ∷ (codes "sec-fetch-site", codes "none")
    ∷ (codes "sec-fetch-user", codes "?1")
    ∷ (codes "upgrade-insecure-requests", codes "1")
    ∷ (
      codes "user-agent",
      codes "Mozilla/5.0 (Windows NT 10.0; Win64; x64; rv:131.0) Gecko/20100101 Firefox/131.0",
    )
    ∷ []

-- The fields that are not assigned keep their initial values.
unfoldable pub firefox_131_h2 : H2Profile
firefox_131_h2 = record {
  frame_settings =
      setting header_table_size 65536
      ∷ setting initial_window_size 131072
      ∷ setting max_frame_size 16384
      ∷ [];
  alps_settings = [];
  connection_window_increment = 12517377;
  send_priority = false;
  priority_dep = 0;
  priority_weight = 256;
  priority_exclusive = true;
}

unfoldable pub firefox_131_profile : TlsConfig
unfolding firefox_131_headers firefox_131_h2
firefox_131_profile = record {
  name = codes "Firefox131";
  cipher_list =
      codes
        "ECDHE-ECDSA-AES128-GCM-SHA256:ECDHE-RSA-AES128-GCM-SHA256:ECDHE-ECDSA-CHACHA20-POLY1305:ECDHE-RSA-CHACHA20-POLY1305:ECDHE-ECDSA-AES256-GCM-SHA384:ECDHE-RSA-AES256-GCM-SHA384:ECDHE-ECDSA-AES256-SHA:ECDHE-ECDSA-AES128-SHA:ECDHE-RSA-AES128-SHA:ECDHE-RSA-AES256-SHA:AES128-GCM-SHA256:AES256-GCM-SHA384:AES128-SHA:AES256-SHA";
  sigalgs_list =
      codes
        "ecdsa_secp256r1_sha256:ecdsa_secp384r1_sha384:ecdsa_secp521r1_sha512:rsa_pss_rsae_sha256:rsa_pss_rsae_sha384:rsa_pss_rsae_sha512:rsa_pkcs1_sha256:rsa_pkcs1_sha384:rsa_pkcs1_sha512:ecdsa_sha1:rsa_pkcs1_sha1";
  curve_list = codes "X25519MLKEM768:X25519:P-256:P-384:P-521";
  grease_switch = false;
  application_settings = false;
  alpn_protocols = codes "h2" ∷ codes "http/1.1" ∷ [];
  h2 = firefox_131_h2;
  headers = firefox_131_headers;
}

-- `registry()`. A profile is made when it is asked for; here it is the value.
unfoldable pub registry : Dict Bytes TlsConfig
unfolding chrome_140_profile chrome_143_profile firefox_131_profile
registry =
    (codes "chrome", chrome_143_profile)
    ∷ (codes "chrome140", chrome_140_profile)
    ∷ (codes "chrome143", chrome_143_profile)
    ∷ (codes "firefox", firefox_131_profile)
    ∷ (codes "firefox131", firefox_131_profile)
    ∷ []

-- The names of the registry with ", " between them.
unfoldable pub known_onto : Bytes → Dict Bytes TlsConfig → Bytes
known_onto known [] = known
known_onto known ((k, cfg) ∷ rest) =
    known_onto ((if is_empty known then [] else known ++ codes ", ") ++ k) rest

-- The error is what the exception carries.
unfoldable pub known_or_throw : Bytes → Option TlsConfig → Result Bytes TlsConfig
unfolding known_onto
known_or_throw name (some cfg) = ok cfg
known_or_throw name none =
    err (codes "Unknown TLS profile: '" ++ (name ++ (codes "'. Known: " ++ known_onto [] registry)))

unfoldable pub load_browser_profile : Bytes → Result Bytes TlsConfig
load_browser_profile name = known_or_throw name (lookup (lower name) registry)

unfoldable pub list_profiles : List Bytes
list_profiles = codes "Chrome143" ∷ codes "Chrome140" ∷ codes "Firefox131" ∷ []

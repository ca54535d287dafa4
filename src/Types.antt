-- ===== src/Types.antt =====
-- fetcher.h: options and results. An `int` that only counts is a natural number where the code
-- never makes it negative; the others are integers.
use bw_fetcher.Base.{ℕ, Bool, false, List, [], Bytes, codes, ℤ, pos, negsuc, Dict}

abbrev pub Headers : Type 0
Headers = Dict Bytes Bytes

pub record ProxyConfig : Type 0 where
  pub enabled : Bool
  pub host : Bytes
  pub port : ℕ
  pub user : Bytes
  pub pass : Bytes

pub record FetchOptions : Type 0 where
  pub url : Bytes
  pub also_fetch : List Bytes
  pub auto_challenge_scripts : Bool
  pub max_challenge_scripts : ℤ
  pub fetch_subresources : Bool
  pub max_subresources : ℤ
  pub profile : Bytes
  pub proxy : ProxyConfig
  pub max_redirects : ℤ
  pub timeout_ms : ℤ

abbrev pub no_proxy : ProxyConfig
no_proxy = record { enabled = false; host = []; port = 0; user = []; pass = [] }

abbrev pub default_options : FetchOptions
default_options = record {
  url = [];
  also_fetch = [];
  auto_challenge_scripts = false;
  max_challenge_scripts = pos 5;
  fetch_subresources = false;
  max_subresources = pos 32;
  profile = codes "Chrome143";
  proxy = no_proxy;
  max_redirects = pos 5;
  timeout_ms = pos 30000;
}

pub record FetchResult : Type 0 where
  pub ok : Bool
  pub error : Bytes
  pub status : ℤ
  pub headers : Headers
  pub body : Bytes
  pub final_url : Bytes
  pub ttfb_ms : ℕ
  pub h2_stream_id : ℤ
  pub request_seq : ℤ
  pub role : Bytes
  pub discovery_source : Bytes
  pub content_kind : Bytes

abbrev pub no_result : FetchResult
no_result = record {
  ok = false;
  error = [];
  status = pos 0;
  headers = [];
  body = [];
  final_url = [];
  ttfb_ms = 0;
  h2_stream_id = negsuc 0;
  request_seq = pos 0;
  role = [];
  discovery_source = [];
  content_kind = [];
}

pub record MultiFetchResult : Type 0 where
  pub primary : FetchResult
  pub also : List FetchResult

abbrev pub no_batch : MultiFetchResult
no_batch = record { primary = no_result; also = [] }

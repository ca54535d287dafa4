-- ===== src/Report.antt =====
-- main.cpp: the texts and folders of the files that a run writes. Each writer is the text it writes
-- when the file could be opened.
pub mod Folders
use bw_fetcher.Headers.{header_ci}
use bw_fetcher.Store.{url_path_slug, sanitize_path_label}
use bw_fetcher.Catalog.{PresentCatalogEntry}
use bw_fetcher.Types.{FetchResult, Headers}
use bw_fetcher.Json.{json_escape, write_headers_json}
use bw_fetcher.Base.{
  ℕ, zero, suc, ◌+◌, ◌-◌, ◌*◌, ◌≤◌, ◌<◌, ◌≡◌, ◌≢◌, ◌↔◌, ◌⊎◌, inl, inr, refl, sym, ap, ap₂, ◌∙◌,
  Bool, true, false, not, ◌&&◌, ◌||◌, Option, none, some, List, [], ◌∷◌, ◌++◌, map, arith, ltb, leb,
  ◌==◌, if◌then◌else◌, Bool-cases, Option-cases, Bytes, codes, length, bytes_key, nat_key, pair_key,
  ℤ, replicate, pos, int_to_string, to_string, is_empty, negsuc, take, three_digits, beq,
}

-- `"key": "value"` and `"key": number`, as the meta files have them.
abbrev pub text_field : Bytes → Bytes → Bytes
text_field key value = b'"' ∷ (key ++ (codes "\": \"" ++ (json_escape value ++ codes "\"")))

abbrev pub number_field : Bytes → Bytes → Bytes
number_field key digits = b'"' ∷ (key ++ (codes "\": " ++ digits))

-- `,"key":"value"`, as the output has it.
abbrev pub out_field : Bytes → Bytes → Bytes
out_field key value = codes ",\"" ++ (key ++ (codes "\":\"" ++ (json_escape value ++ codes "\"")))

abbrev pub next_line : Bytes → Bytes
next_line field = codes ",\n  " ++ field

unfoldable pub unless_empty : Bytes → Bytes → Bytes
unless_empty [] text = []
unless_empty (c ∷ value) text = text

-- A number that is written when it is not negative.
unfoldable pub if_counted : ℤ → (Bytes → Bytes) → Bytes
if_counted (pos n) text = text (to_string n)
if_counted (negsuc n) text = []

abbrev pub bool_text : Bool → Bytes
bool_text true = codes "true"
bool_text false = codes "false"

unfoldable pub emit_fetch_fields : FetchResult → Bytes → Bytes → Bool → Bytes
unfolding unless_empty if_counted
emit_fetch_fields res profile out_path include_out =
    codes "\"status\":"
    ++ (int_to_string res.status
        ++ (codes ",\"bytes\":"
            ++ (to_string (length res.body)
                ++ (codes ",\"ttfb_ms\":"
                    ++ (to_string res.ttfb_ms
                        ++ (out_field (codes "profile") profile
                            ++ (out_field (codes "url") res.final_url
                                ++ (codes ",\"ok\":"
                                    ++ (bool_text res.ok
                                        ++ (if_counted res.request_seq
                                              (λ n. codes ",\"request_seq\":" ++ n)
                                            ++ (unless_empty res.role
                                                  (out_field (codes "role") res.role)
                                                ++ (if_counted res.h2_stream_id
                                                      (λ n. codes ",\"h2_stream_id\":" ++ n)
                                                    ++ (unless_empty res.discovery_source (
                                                          out_field (codes "discovery_source")
                                                            res.discovery_source)
                                                        ++ (unless_empty res.content_kind (
                                                            out_field (codes "content_kind")
                                                            res.content_kind)
                                                            ++ (unless_empty res.error
                                                            (out_field (codes "error") res.error)
                                                            ++ ((if include_out
                                                            then out_field (codes "out") out_path
                                                            else [])
                                                            ++ write_headers_json
                                                            res.headers))))))))))))))))

unfoldable pub write_request_meta : FetchResult → Bytes
unfolding unless_empty if_counted
write_request_meta res =
    codes "{\n  "
    ++ (text_field (codes "disposition") (codes "fetched")
        ++ (next_line (number_field (codes "request_seq") (int_to_string res.request_seq))
            ++ (next_line (text_field (codes "role") res.role)
                ++ (next_line (text_field (codes "url") res.final_url)
                    ++ (next_line (number_field (codes "status") (int_to_string res.status))
                        ++ (next_line (number_field (codes "bytes") (to_string (length res.body)))
                            ++ (next_line (number_field (codes "ttfb_ms") (to_string res.ttfb_ms))
                                ++ (unless_empty res.discovery_source (
                                      next_line (
                                        text_field (codes "discovery_source") res.discovery_source))
                                    ++ (unless_empty res.content_kind (
                                          next_line
                                            (text_field (codes "content_kind") res.content_kind))
                                        ++ (if_counted res.h2_stream_id (λ n.
                                              next_line (number_field (codes "h2_stream_id") n))
                                            ++ codes "\n}\n"))))))))))

unfoldable pub write_present_meta : PresentCatalogEntry → Bytes
unfolding unless_empty
write_present_meta entry =
    codes "{\n  "
    ++ (text_field (codes "disposition") (codes "present")
        ++ (next_line (number_field (codes "catalog_seq") (to_string entry.catalog_seq))
            ++ (next_line (text_field (codes "discovery_source") entry.discovery_source)
                ++ (next_line (text_field (codes "content_kind") entry.content_kind)
                    ++ (unless_empty entry.url (next_line (text_field (codes "url") entry.url))
                        ++ (unless_empty entry.label
                              (next_line (text_field (codes "label") entry.label))
                            ++ (unless_empty entry.body (
                                  next_line
                                    (number_field (codes "bytes") (to_string (length entry.body))))
                                ++ codes "\n}\n")))))))

unfoldable pub write_run_json : Bytes → Bytes → FetchResult → Bytes → ℤ → ℤ → Bytes
write_run_json run_id target_url primary profile fetched_count present_count =
    codes "{\n  "
    ++ (text_field (codes "run_id") run_id
        ++ (next_line (text_field (codes "target_url") target_url)
            ++ (next_line (text_field (codes "final_url") primary.final_url)
                ++ (next_line (text_field (codes "profile") profile)
                    ++ (next_line (number_field (codes "status") (int_to_string primary.status))
                        ++ (next_line (number_field (codes "ok") (bool_text primary.ok))
                            ++ (next_line (
                                  number_field (codes "fetched_count")
                                    (int_to_string fetched_count))
                                ++ (next_line (
                                      number_field (codes "present_count")
                                        (int_to_string present_count))
                                    ++ (next_line
                                          (text_field (codes "catalog") (codes "catalog.json"))
                                        ++ codes "\n}\n")))))))))

-- One round of the loop of `present_category_dir`: the part up to the next '/', unless it is empty.
unfoldable pub add_part : Bytes → List Bytes → List Bytes
add_part [] parts = parts
add_part (c ∷ part) parts = (c ∷ part) ∷ parts

-- The parts of what is left, with the part that was begun.
unfoldable pub split_slashes : Bytes → Bytes → List Bytes
unfolding add_part
split_slashes begun [] = add_part begun []
split_slashes begun (c ∷ rest) = elim (c == b'/') [
  | true ↦ add_part begun (split_slashes [] rest)
  | false ↦ split_slashes (begun ++ (c ∷ [])) rest
]

unfoldable pub present_category_dir : PresentCatalogEntry → List Bytes
unfolding split_slashes
present_category_dir entry = split_slashes [] entry.discovery_source

unfoldable pub present_folder_name : PresentCatalogEntry → Bytes
present_folder_name entry =
    let named =
      if is_empty entry.label then url_path_slug entry.url else sanitize_path_label entry.label in
    let script_name =
      if is_empty entry.label then codes "inline" else sanitize_path_label entry.label in
    take 7 (three_digits (pos entry.catalog_seq))
    ++ (b'-' ∷ (if beq entry.discovery_source (codes "inline_script") then script_name else named))

abbrev pub signal_keys : List Bytes
signal_keys =
    codes "cf-ray"
    ∷ codes "cf-mitigated"
    ∷ codes "x-bot-score"
    ∷ codes "x-bot-verified-bot"
    ∷ codes "is-akamai-cdn"
    ∷ codes "x-datadome"
    ∷ codes "x-px"
    ∷ codes "x-px-block"
    ∷ codes "x-akamai-bmp"
    ∷ codes "retry-after"
    ∷ codes "x-amz-cf-id"
    ∷ []

unfoldable pub signals_of : List Bytes → Headers → List Bytes
signals_of [] headers = []
signals_of (k ∷ keys) headers =
    let rest = signals_of keys headers in
    if is_empty (header_ci headers k) then rest else (k ++ (b'=' ∷ header_ci headers k)) ∷ rest

unfoldable pub bot_signals : FetchResult → List Bytes
unfolding signals_of
bot_signals r = signals_of signal_keys r.headers

unfoldable pub pad : Bytes → ℕ → Bytes
pad s w = if ltb (length s) w then s ++ replicate (w - length s) b' ' else s

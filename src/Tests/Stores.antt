-- ===== src/Tests/Stores.antt =====
-- Names of captures.
use bw_fetcher.Report.{present_category_dir}
use bw_fetcher.Report.Folders.{
  AreParts, joined_parts, unslashed, present_category_dir-AreParts, Splits,
}
use bw_fetcher.Catalog.{PresentCatalogEntry}
use bw_fetcher.Store.Unique.{all_taken, unique_request_dir_lem}
use bw_fetcher.Store.{unique_request_dir, url_path_slug, sanitize_path_label}
use bw_fetcher.Store.Names.{IsLabel, url_path_slug-IsSlug, sanitize_path_label-IsLabel}
use bw_fetcher.Base.{
  [], ◌≤◌, ◌≡◌, ◌⊎◌, true, false, ◌++◌, Bytes, codes, length, bytes_key, nat_key, pair_key, beq,
}

unique_request_dir_lem_example :
    ((λ (s : Bytes). beq s (codes "001-x"))
        (unique_request_dir (λ s. beq s (codes "001-x")) (codes "001-x"))
      ≡ false)
    ⊎ (beq (codes "001-x") (codes "001-x") ≡ true)
      × (all_taken (λ s. beq s (codes "001-x")) (codes "001-x") 998 2 ≡ true)
      × (unique_request_dir (λ s. beq s (codes "001-x")) (codes "001-x")
          ≡ codes "001-x" ++ codes "_dup")
unique_request_dir_lem_example = unique_request_dir_lem (λ s. beq s (codes "001-x")) (codes "001-x")

url_path_slug-IsSlug_example :
    IsLabel (url_path_slug (codes "https://h/a/.."))
    × (length (url_path_slug (codes "https://h/a/..")) ≤ 56)
url_path_slug-IsSlug_example = url_path_slug-IsSlug (codes "https://h/a/..")

sanitize_path_label-IsLabel_example : IsLabel (sanitize_path_label (codes "../x?"))
sanitize_path_label-IsLabel_example = sanitize_path_label-IsLabel (codes "../x?")

abbrev link_entry : PresentCatalogEntry
link_entry = record {
  url = codes "https://h/x";
  discovery_source = codes "links//a";
  content_kind = codes "url";
  body = [];
  label = [];
  catalog_seq = 3;
}

present_category_dir-AreParts_example :
    AreParts (present_category_dir link_entry)
    × (joined_parts (present_category_dir link_entry) ≡ unslashed link_entry.discovery_source)
    × Splits link_entry.discovery_source (present_category_dir link_entry)
present_category_dir-AreParts_example = present_category_dir-AreParts link_entry

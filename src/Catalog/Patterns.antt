-- ===== src/Catalog/Patterns.antt =====
-- The regular expressions of html_catalog.cpp.
use bw_fetcher.Base.{String}

abbrev pub inline_script_re : String
inline_script_re = "<script(?![^>]*\\bsrc\\s*=)[^>]*>([\\s\\S]*?)</script>"

abbrev pub fetch_hint_re : String
fetch_hint_re =
    "(?:fetch\\s*\\(\\s*[\"']([^\"']+)[\"']|import\\s*\\(\\s*[\"']([^\"']+)[\"']|\\.open\\s*\\(\\s*[\"'][A-Z]+[\"']\\s*,\\s*[\"']([^\"']+)[\"'])"

abbrev pub a_href_re : String
a_href_re = "<a\\b[^>]+href\\s*=\\s*[\"']([^\"']+)[\"']"

abbrev pub area_href_re : String
area_href_re = "<area\\b[^>]+href\\s*=\\s*[\"']([^\"']+)[\"']"

abbrev pub iframe_src_re : String
iframe_src_re = "<iframe\\b[^>]+src\\s*=\\s*[\"']([^\"']+)[\"']"

abbrev pub img_src_re : String
img_src_re = "<img\\b[^>]+src\\s*=\\s*[\"']([^\"']+)[\"']"

abbrev pub form_action_re : String
form_action_re = "<form\\b[^>]+action\\s*=\\s*[\"']([^\"']+)[\"']"

abbrev pub embed_src_re : String
embed_src_re = "<embed\\b[^>]+src\\s*=\\s*[\"']([^\"']+)[\"']"

abbrev pub object_data_re : String
object_data_re = "<object\\b[^>]+data\\s*=\\s*[\"']([^\"']+)[\"']"

abbrev pub media_src_re : String
media_src_re = "<(?:video|audio|source)\\b[^>]+src\\s*=\\s*[\"']([^\"']+)[\"']"

abbrev pub base_href_re : String
base_href_re = "<base\\b[^>]+href\\s*=\\s*[\"']([^\"']+)[\"']"

abbrev pub link_tag_re : String
link_tag_re = "<link\\b[^>]*>"

abbrev pub link_href_re : String
link_href_re = "href\\s*=\\s*[\"']([^\"']+)[\"']"

abbrev pub link_rel_re : String
link_rel_re = "rel\\s*=\\s*[\"']([^\"']+)[\"']"

abbrev pub link_type_re : String
link_type_re = "type\\s*=\\s*[\"']([^\"']+)[\"']"

abbrev pub link_hreflang_re : String
link_hreflang_re = "hreflang\\s*=\\s*[\"']([^\"']+)[\"']"

abbrev pub api_path_re : String
api_path_re = "[\"'](/[^\"'#\\\\s]{2,})[\"']"

abbrev pub script_src_in_html_re : String
script_src_in_html_re = "<script\\b[^>]+src\\s*=\\s*[\"']([^\"']+)[\"']"

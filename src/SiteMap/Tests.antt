-- ===== src/SiteMap/Tests.antt =====
-- A site map of one URL.
use shiv.History.{HistoryTable}
use shiv.SiteMap.Entries.{one_leads, load_site_map_entries, has_node-load_site_map_entries}
use shiv.Prelude.{if◌then◌else◌, false, ◌||◌, ◌≡◌, refl, true, [], ◌∷◌}
use shiv.Prelude.Int.{pos}
use shiv.Text.{codes, split, cut}
use shiv.Text.Number.{itoa}
use shiv.Format.{path_of}
use shiv.SiteMap.{new_site_map, add, child_uids}
use shiv.SiteMap.Paths.{has_path, has_node}

abbrev one_row : HistoryTable
one_row = record {
  rows =
      record {
        entry = record {
          id = 1;
          timestamp = 0;
          host = codes "a.test";
          port = pos 80;
          method = codes "GET";
          url = codes "http://a.test/x/y?q=1";
          proto = codes "HTTP/1.1";
          req_headers = [];
          req_body = [];
          status_code = 200;
          resp_headers = [];
          resp_body = [];
          resp_size = 0;
          duration_ms = 1;
          tls = false;
          in_scope = true;
        };
        req_headers_text = [];
        resp_headers_text = [];
      }
      ∷ [];
  next_id = 2;
}

has_node-load_site_map_entries_example :
    has_node
      (codes "a.test:80")
      (codes "x" ∷ [])
      (load_site_map_entries false one_row new_site_map).hosts
    ≡ (has_node (codes "a.test:80") (codes "x" ∷ []) new_site_map.hosts
        || (if false then false else one_leads (codes "a.test:80") (codes "x" ∷ []) one_row.rows))
has_node-load_site_map_entries_example =
    has_node-load_site_map_entries false one_row (codes "a.test:80") (codes "x" ∷ []) new_site_map

node_is_there :
    has_node
      (codes "a.test:80")
      (codes "x" ∷ [])
      (add (codes "a.test") (pos 80) (codes "http://a.test/x/y?q=1") new_site_map).hosts
    ≡ true
unfolding has_node add new_site_map itoa has_path split cut path_of
node_is_there = refl

one_host :
    child_uids (add (codes "a.test") (pos 80) (codes "http://a.test/x/y?q=1") new_site_map) []
    ≡ codes "h:a.test:80" ∷ []
unfolding child_uids add new_site_map itoa
one_host = refl

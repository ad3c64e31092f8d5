-- ===== src/History/Tests.antt =====
-- A history of two rows, of which one is in scope.
use shiv.Prelude.{◌≡◌, true, false, none, some, [], ◌∷◌, arith}
use shiv.Prelude.Int.{pos}
use shiv.Text.{codes, same, fields, to_lower}
use shiv.Events.Event.{ResponseEvent}
use shiv.History.{
  host_matches, method_matches, path_matches, terms_match, matches_filter, header_or_empty, scan,
  Transaction, Row, HistoryTable, TransactionFilter,
}
use shiv.History.Export.{export_transactions}
use shiv.History.Complete.{export_transactions-select}

abbrev first : Transaction
first = record {
  id = 1;
  timestamp = 0;
  host = codes "a.test";
  port = pos 443;
  method = codes "GET";
  url = codes "https://a.test/";
  proto = codes "HTTP/1.1";
  req_headers = [];
  req_body = codes "q";
  status_code = 200;
  resp_headers = [];
  resp_body = codes "r";
  resp_size = 1;
  duration_ms = 5;
  tls = true;
  in_scope = true;
}

abbrev row : Transaction → Row
row t = record { entry = t; req_headers_text = []; resp_headers_text = [] }

abbrev table : HistoryTable
table = record {
  rows = row (record first { id = 2; in_scope = false }) ∷ row first ∷ [];
  next_id = 3;
}

abbrev any_in_scope : TransactionFilter
any_in_scope = record {
  search = [];
  host = [];
  port = pos 0;
  path_prefix = [];
  show_out_scope = false;
  methods = [];
  status_min = 0;
  status_max = 0;
  hide_static = false;
}

abbrev response : ResponseEvent
response = record {
  timestamp = 0;
  host = codes "b.test:80";
  proto = [];
  method = codes "GET";
  url = codes "http://b.test/";
  req_headers = [];
  req_body = [];
  status_code = 200;
  resp_headers = [];
  resp_body = none;
  duration_ms = 1;
  tls = false;
}

export_transactions-select_example :
    export_transactions
      (λ text pattern. true)
      (λ text. some [])
      (λ c. false)
      any_in_scope
      table
      false
    ≡ some (first ∷ [])
unfolding matches_filter host_matches same path_matches terms_match method_matches scan fields
    to_lower header_or_empty
export_transactions-select_example =
    export_transactions-select (λ text pattern. true) (λ text. some []) any_in_scope table
      (omega arith, (omega arith, tt), (omega arith, tt, tt))

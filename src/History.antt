-- ===== src/History.antt =====
-- internal/store/history.go: the log of requests and responses, read page by page. The rows stand
-- newest first, by falling ids. `fails` is an error of the database. A parameter stands for what
-- other packages do: `like` is SQLite's LIKE of a text and a pattern, `marshal` and `unmarshal` are
-- JSON of headers, `stored_time` is the time that is read once a time has been formatted.
pub mod Export
pub mod Paging
pub mod Complete
mod Tests
use mathlib.Core.Option
use shiv.Prelude.{
  ltb, leb, ◌==◌, if◌then◌else◌, length, take, ℕ, ◌+◌, ◌<◌, Bool, true, false, not, ◌&&◌, ◌||◌,
  Option, none, some, List, [], ◌∷◌, ◌++◌, map,
}
use shiv.Prelude.Int.{ℤ, pos, negsuc}
use shiv.Text.{Bytes, codes, same, fields, upper_byte, to_lower, split_host_port}
use shiv.Text.Number.{itoa, atoi}
use shiv.Http.Header.{Header}
use shiv.Events.Event.{ResponseEvent}

pub record Transaction : Type 0 where
  pub id : ℕ
  pub timestamp : ℕ
  pub host : Bytes
  pub port : ℤ
  pub method : Bytes
  pub url : Bytes
  pub proto : Bytes
  pub req_headers : Header
  pub req_body : Bytes
  pub status_code : ℕ
  pub resp_headers : Header
  pub resp_body : Bytes
  pub resp_size : ℕ
  pub duration_ms : ℕ
  pub tls : Bool
  pub in_scope : Bool

-- A row: the headers are texts.
pub record Row : Type 0 where
  pub entry : Transaction
  pub req_headers_text : Bytes
  pub resp_headers_text : Bytes

pub record HistoryTable : Type 0 where
  pub rows : List Row
  pub next_id : ℕ

pub record TransactionFilter : Type 0 where
  pub search : Bytes
  pub host : Bytes
  pub port : ℤ
  pub path_prefix : Bytes
  pub show_out_scope : Bool
  pub methods : List Bytes
  pub status_min : ℕ
  pub status_max : ℕ
  pub hide_static : Bool

abbrev pub page_size : ℕ
page_size = 100

unfoldable pub same_int : ℤ → ℤ → Bool
same_int (pos a) (pos b) = a == b
same_int (negsuc a) (negsuc b) = a == b
same_int (pos a) (negsuc b) = false
same_int (negsuc a) (pos b) = false

unfoldable pub to_upper : Bytes → Bytes
to_upper s = map upper_byte s

unfoldable pub one_of : Bytes → List Bytes → Bool
unfolding to_upper same
one_of m [] = false
one_of m (x ∷ xs) = same m (to_upper x) || one_of m xs

-- `SELECT … WHERE p`
abbrev pub select {ℓ} : {A : Type ℓ} → (A → Bool) → List A → List A
select p [] = []
select p (x ∷ xs) = let rest = select p xs in if p x then x ∷ rest else rest

unfoldable pub host_matches : TransactionFilter → Transaction → Bool
unfolding same_int same
host_matches f t =
    same f.host [] || same t.host f.host && (same_int f.port (pos 0) || same_int t.port f.port)

unfoldable pub method_matches : List Bytes → Transaction → Bool
unfolding one_of
method_matches [] t = true
method_matches (m ∷ ms) t = one_of t.method (m ∷ ms)

-- `id < ?`, where the page does not start at the newest row
unfoldable pub is_before : ℕ → Row → Bool
is_before before row = before == 0 || ltb row.entry.id before

module _ (like : Bytes → Bytes → Bool) where
  -- `"%" + s + "%"`
  unfoldable pub holds : Bytes → Bytes → Bool
  holds text s = like text (codes "%" ++ (s ++ codes "%"))

  unfoldable pub path_matches : Bytes → Bytes → Bool
  path_matches url [] = true
  path_matches url (c ∷ prefix) =
      like url (codes "%" ++ c ∷ prefix)
      || like url (codes "%" ++ (c ∷ prefix ++ codes "?%"))
      || like url (codes "%" ++ (c ∷ prefix ++ codes "/%"))

  unfoldable pub term_matches : Transaction → Bytes → Bool
  unfolding holds
  term_matches t term =
      holds (to_lower t.host) term
      || holds (to_lower t.url) term
      || holds (to_lower t.method) term
      || holds (itoa t.status_code) term

  unfoldable pub terms_match : Transaction → List Bytes → Bool
  unfolding term_matches
  terms_match t [] = true
  terms_match t (x ∷ xs) = term_matches t x && terms_match t xs

  -- The conditions of the filter, joined by AND.
  unfoldable pub matches_filter : TransactionFilter → Row → Bool
  unfolding host_matches path_matches terms_match method_matches
  matches_filter f row =
      let t = row.entry in
      (f.show_out_scope || t.in_scope)
      && (host_matches f t
          && (path_matches t.url f.path_prefix
              && (terms_match t (fields (to_lower f.search))
                  && (method_matches f.methods t
                      && ((f.status_min == 0 || leb f.status_min t.status_code)
                          && (f.status_max == 0 || leb t.status_code f.status_max))))))

  unfoldable pub search_matches : Bytes → Bool → Bool → Bool → Row → Bool
  unfolding holds
  search_matches term in_req_body in_resp_body in_headers row =
      in_req_body && holds row.entry.req_body term
      || in_resp_body && holds row.entry.resp_body term
      || in_headers && (holds row.req_headers_text term || holds row.resp_headers_text term)

unfoldable pub find_row : ℕ → List Row → Option Row
find_row id [] = none
find_row id (r ∷ rs) = let rest = find_row id rs in if r.entry.id == id then some r else rest

module _ (unmarshal : Bytes → Option Header) where
  header_or_empty : Option Header → Header
  header_or_empty none = []
  header_or_empty (some h) = h

  -- What is scanned from a row.
  unfoldable pub scan : Row → Transaction
  unfolding header_or_empty
  scan row = record row.entry {
    req_headers = header_or_empty (unmarshal row.req_headers_text);
    resp_headers = header_or_empty (unmarshal row.resp_headers_text);
  }

  -- `'' as req_body`, `'' as resp_body`
  unfoldable pub without_bodies : Row → Transaction
  unfolding scan
  without_bodies row = record (scan row) { req_body = []; resp_body = [] }

  unfoldable pub transactions_page :
      (Bytes → Bytes → Bool)
      → Bool
      → ℕ
      → TransactionFilter
      → HistoryTable
      → Option (List Transaction)
  unfolding without_bodies is_before matches_filter
  transactions_page like fails before f s =
      if fails
      then none
      else some (
          map without_bodies (
            take page_size
              (select (λ row. is_before before row && matches_filter like f row) s.rows)))

  unfoldable pub search_transactions :
      (Bytes → Bytes → Bool)
      → Bool
      → Bytes
      → Bool
      → Bool
      → Bool
      → HistoryTable
      → Option (List Transaction)
  unfolding without_bodies search_matches same
  search_transactions like fails term in_req_body in_resp_body in_headers s =
      if same term [] || not (in_req_body || in_resp_body || in_headers)
      then some []
      else if fails
      then none
      else some (
          map without_bodies (
            take 200
              (select (search_matches like term in_req_body in_resp_body in_headers) s.rows)))

  unfoldable pub all_transactions : Bool → HistoryTable → Option (List Transaction)
  unfolding scan
  all_transactions fails s = if fails then none else some (map scan (take 500 s.rows))

  unfoldable pub get_transaction : Bool → ℕ → HistoryTable → Option Transaction
  unfolding find_row scan
  get_transaction fails id s = if fails then none else Option.map scan (find_row id s.rows)

unfoldable pub clear_history : Bool → HistoryTable → HistoryTable
clear_history fails s = if fails then s else record s { rows = [] }

unfoldable pub delete_transactions_by_host_port : Bool → Bytes → ℤ → HistoryTable → HistoryTable
unfolding same same_int
delete_transactions_by_host_port fails host port s = if fails then s else record s {
  rows = select (λ r. not (same r.entry.host host && same_int r.entry.port port)) s.rows;
}

unfoldable pub proto_or_http : Bytes → Bytes
proto_or_http [] = codes "HTTP/1.1"
proto_or_http (c ∷ s) = c ∷ s

-- The host and the port of the event.
unfoldable pub host_and_port : Bytes → Bool → Bytes × Bytes
unfolding split_host_port
host_and_port host tls = elim (split_host_port host) [
  | none ↦ (host, if tls then codes "443" else codes "80")
  | some (h, p) ↦ (h, p)
]

body_or_empty : Option Bytes → Bytes
body_or_empty none = []
body_or_empty (some b) = b

-- `in_scope` is what the store's scope says of a host.
unfoldable pub transaction_of : (Bytes → Bool) → ResponseEvent → Transaction
unfolding host_and_port body_or_empty
transaction_of in_scope e =
    let (host, port) = host_and_port e.host e.tls in
    record {
      id = 0;
      timestamp = e.timestamp;
      host = host;
      port = atoi port;
      method = e.method;
      url = e.url;
      proto = e.proto;
      req_headers = e.req_headers;
      req_body = e.req_body;
      status_code = e.status_code;
      resp_headers = e.resp_headers;
      resp_body = body_or_empty e.resp_body;
      resp_size = 0;
      duration_ms = e.duration_ms;
      tls = e.tls;
      in_scope = in_scope host;
    }

module _ (marshal : Header → Option Bytes) (stored_time : ℕ → ℕ) where
  unfoldable pub row_of : Transaction → ℕ → Bytes → Bytes → Row
  unfolding proto_or_http
  row_of t id req resp = record {
    entry = record t {
      id = id;
      timestamp = stored_time t.timestamp;
      proto = proto_or_http t.proto;
      resp_size = length t.resp_body;
    };
    req_headers_text = req;
    resp_headers_text = resp;
  }

  -- `Log`: the flag says that there was no error.
  unfoldable pub log : Bool → Transaction → HistoryTable → Bool × HistoryTable
  unfolding row_of
  log fails t s = elim (marshal t.req_headers) [
    | none ↦ (false, s)
    | some req ↦ elim (marshal t.resp_headers) [
      | none ↦ (false, s)
      | some resp ↦ if fails then (false, s) else (
        true,
        record { rows = row_of t s.next_id req resp ∷ s.rows; next_id = s.next_id + 1 },
      )
    ]
  ]

  unfoldable pub observe_response :
      (Bytes → Bool) → Bool → ResponseEvent → HistoryTable → HistoryTable
  unfolding log transaction_of
  observe_response in_scope fails e s = (log fails (transaction_of in_scope e) s).1

-- ===== src/Http/Tests.antt =====
-- The helpers of internal/http on concrete messages.
use shiv.Prelude.{All, ◌≡◌, refl, List, [], ◌∷◌}
use shiv.Text.{
  Bytes, codes, has_prefix, cut, split, replace_all, join, trim_space, fields, to_lower,
  split_host_port,
}
use shiv.Text.Number.{itoa}
use shiv.Http.RawRequest.{
  split_raw, to_crlf, normalize_line_endings, rewrite_request_line, kind_of, rewrite_host_line,
  rewrite_line, rewrite_lines, connection_seen, cookie_header, length_header, header_lines,
  rewrite_headers, wire_text,
}
use shiv.Http.RawRequest.Lines.Sent.{
  SentAs, header_lines-SentAs, count_lengths, header_lines-one_length,
}

abbrev raw_request : Bytes
raw_request = codes "GET / HTTP/2\nHost: a.test\nContent-Length: 9\n\nhi"

abbrev raw_lines : List Bytes
raw_lines = codes "GET / HTTP/1.1" ∷ codes "Host: a.test:443" ∷ codes "Content-Length: 9" ∷ []

wire_text_test :
    wire_text raw_request []
    ≡ codes "GET / HTTP/1.1\r\nHost: a.test\r\nConnection: close\r\nContent-Length: 2\r\n\r\nhi"
unfolding wire_text rewrite_headers header_lines rewrite_lines rewrite_line kind_of connection_seen
    cookie_header length_header rewrite_request_line normalize_line_endings split_raw to_crlf
    rewrite_host_line cut split replace_all fields join itoa to_lower has_prefix split_host_port
    trim_space
wire_text_test = refl

header_lines-SentAs_example : All (SentAs [] (codes "hi")) (header_lines raw_lines [] (codes "hi"))
header_lines-SentAs_example = header_lines-SentAs raw_lines [] (codes "hi")

header_lines-one_length_example :
    (count_lengths (header_lines raw_lines [] (codes "hi")) ≡ 1)
    × (count_lengths (header_lines raw_lines [] []) ≡ 0)
header_lines-one_length_example = header_lines-one_length raw_lines [] b'h' (codes "i")

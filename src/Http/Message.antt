-- ===== src/Http/Message.antt =====
-- The fields of Go's `http.Request` and `http.Response` that the program reads and writes.
use shiv.Prelude.{ℕ}
use shiv.Text.{Bytes}
use shiv.Http.Header.{Header}

-- `url` is what `URL.String()` prints.
pub record Request : Type 0 where
  pub method : Bytes
  pub url : Bytes
  pub host : Bytes
  pub header : Header

pub record Response : Type 0 where
  pub status : ℕ
  pub header : Header
  pub body : Bytes

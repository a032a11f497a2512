-- ===== src/Cgi.antt =====
-- What the servers take from the class `Cgicc` of the CGI library.
use fastcgi_async_or_corouti.Base.{Bytes, List, Option}

-- The names and values of `getElements()`, the names and data of `getFiles()`, and the names and
-- values of `getCookieList()`, each in the library's order.
pub record CgiData : Type 0 where
  pub elements : List (Bytes × Bytes)
  pub files : List (Bytes × Bytes)
  pub cookies : List (Bytes × Bytes)

-- The constructor on the query string, the cookie header, the posted data and its content type.
-- `none` means that it throws.
abbrev pub CgiParser : Type 0
CgiParser = Bytes → Bytes → Bytes → Bytes → Option CgiData

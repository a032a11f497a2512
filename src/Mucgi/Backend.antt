-- ===== src/Mucgi/Backend.antt =====
-- `BackendProc::printRequest` of mucgi/backend.cpp. The text that `printf` makes of a pair is left out.
use fastcgi_async_or_corouti.Base.{◌%◌, Bytes, ParamMap, ◌∷◌, ◌++◌, List, [], length, codes}

abbrev content : Bytes
content = codes "OK!!"

-- The page, and what the call prints: the pairs of `qmap`, then those of `header`. `resp +=
-- content.length()` appends one `char`, the length itself.
unfoldable pub print_request : ParamMap → ParamMap → Bytes × List (ParamMap × ParamMap)
print_request qmap header = (
  codes "Content-Type: text/html; charset=UTF-8\r\n"
      ++ (codes "Content-Length: " ++ ((length content % 256) ∷ (codes "\r\n\r\n" ++ content))),
  (qmap, header) ∷ [],
)

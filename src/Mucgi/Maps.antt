-- ===== src/Mucgi/Maps.antt =====
-- The maps that `onRequest` hands to the back end.
use fastcgi_async_or_corouti.Base.{
  ◌≡◌, Bytes, ParamMap, [], ◌++◌, lookup, or_else, last_of, lookup-assign_pairs,
  lookup-insert_pairs, lookup-append, insert_pairs, arith,
}
use fastcgi_async_or_corouti.Cgi.{CgiData}
use fastcgi_async_or_corouti.Mucgi.Session.{lower_names, query_map, header_map, copy_params}

-- Under a name that is given more than once the back end of mucgi sees the first value, that of a form
-- element, its name in lower case, before that of a file; of cookies of one name it sees the last, and
-- a cookie hides a parameter of the request of the same name.
pub first_value_maps :
    (to_lower : Bytes → Bytes) (k : Bytes) (d : CgiData) (params : ParamMap)
    → (lookup k (query_map to_lower d) ≡ lookup k (lower_names to_lower d.elements ++ d.files))
      × (lookup k (header_map d params) ≡ or_else (last_of k d.cookies) (last_of k params))
unfolding query_map header_map lookup
first_value_maps to_lower k d params =
    let named = lower_names to_lower d.elements in
    (
      ground (
        arith,
        lookup-insert_pairs k named [],
        lookup-insert_pairs k d.files (insert_pairs named []),
        lookup-append k named d.files,
      ),
      ground (
        arith,
        lookup-assign_pairs k d.cookies (copy_params params),
        lookup-assign_pairs k params [],
      ),
    )

-- ===== src/Cocgi/Session/Maps.antt =====
-- The maps that `doRequest` hands to the back end.
use fastcgi_async_or_corouti.Base.{
  ◌≡◌, Bytes, ParamMap, [], ◌++◌, lookup, or_else, last_of, lookup-assign_pairs, assign_pairs,
  last_of-append, arith,
}
use fastcgi_async_or_corouti.Cgi.{CgiData}
use fastcgi_async_or_corouti.Cocgi.Session.{query_map, header_map}

-- Under a name that is given more than once the back end sees the last value, that of a file before
-- that of a form element; of cookies of one name it sees the last, and a cookie hides a parameter of the
-- request of the same name.
pub request_maps :
    (k : Bytes) (d : CgiData) (params : ParamMap)
    → (lookup k (query_map d) ≡ last_of k (d.elements ++ d.files))
      × (lookup k (header_map d params) ≡ or_else (last_of k d.cookies) (lookup k params))
unfolding query_map header_map lookup
request_maps k d params = (
  ground (
    arith,
    lookup-assign_pairs k d.elements [],
    lookup-assign_pairs k d.files (assign_pairs d.elements []),
    last_of-append k d.elements d.files,
  ),
  lookup-assign_pairs k d.cookies params,
)
